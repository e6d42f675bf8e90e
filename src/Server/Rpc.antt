-- ===== src/Server/Rpc.antt =====
-- rpc.rs: the status every call answers with, the call context, and timestamps.
use sovereign_config.Prelude.{
  ℕ, ◌/◌, ◌%◌, ◌^◌, String, Option, ltb, if◌then◌else◌, get_or, ok, err, Text, codes, Result, ◌>>=◌,
  ok_or,
}
use sovereign_config.Server.Auth.{AuthenticatedPrincipal}

-- `tonic::Status`, as far as the server builds it.
pub data Code : Type 0 where
  invalid_argument permission_denied unauthenticated unavailable : Code
  not_found already_exists aborted internal : Code

pub record Status : Type 0 where
  pub code : Code
  pub message : String

abbrev pub status : Code → String → Status
status code message = record { code = code; message = message }

abbrev pub storage_unavailable : Status
storage_unavailable = status unavailable "configuration storage is unavailable"

abbrev pub invalid_timestamp : Status
invalid_timestamp = status internal "configuration timestamp is invalid"

-- Who is calling: what the authentication layer and the route attached to the request.
pub record CallContext : Type 0 where
  pub principal : Option AuthenticatedPrincipal
  pub protocol_version : Option Text

pub record Actor : Type 0 where
  pub subject : Text
  pub name : Option Text
  pub protocol_version : Text

abbrev pub unattributed_protocol_label : Text
unattributed_protocol_label = codes "unattributed"

-- `CallContext::principal` and `CallContext::actor`
unfoldable pub principal : CallContext → Result Status AuthenticatedPrincipal
principal context = ok_or context.principal (status unauthenticated "authentication required")

unfoldable pub actor : CallContext → Result Status Actor
unfolding principal
actor context = principal context >>= λ caller. ok (record {
  subject = caller.subject;
  name = caller.name;
  protocol_version = get_or context.protocol_version unattributed_protocol_label;
})

-- An `OffsetDateTime` of a server whose clock is past 1970: nanoseconds since the epoch.
abbrev pub OffsetDateTime : Type 0
OffsetDateTime = ℕ

abbrev pub nanos_per_second : ℕ
nanos_per_second = 1000000000

pub record Timestamp : Type 0 where
  pub seconds : ℕ
  pub nanos : ℕ

-- `i32::try_from` of the nanoseconds within the second
unfoldable pub to_timestamp : OffsetDateTime → Result Status Timestamp
to_timestamp value =
    if ltb (value % nanos_per_second) (2 ^ 31)
    then ok (record { seconds = value / nanos_per_second; nanos = value % nanos_per_second })
    else err invalid_timestamp
