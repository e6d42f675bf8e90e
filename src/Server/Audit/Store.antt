-- ===== src/Server/Audit/Store.antt =====
-- audit/store.rs `insert_events`, with the rows that audit/mod.rs makes of the events and what the
-- table refuses by its constraints (migrations 0010 and 0012). Times are nanoseconds since the
-- epoch; SHA-256 is a parameter.
use sovereign_config.Prelude.{
  ◌&&◌, ◌||◌, true, leb, is_none, is_empty, length, all, any, ◌==◌, slash, split, strip_prefix,
  is_ascii_digit, is_ascii_lowercase, ℕ, ◌+◌, ◌/◌, max, Bool, false, not, Option, none, some, List,
  [], ◌∷◌, ◌==◌, if◌then◌else◌, keep_if, Text, codes, text_eq, fold, concat, decimal,
}
use sovereign_config.Core.Path.{is_segment, is_path_byte}
use sovereign_config.Server.Rpc.{Actor, OffsetDateTime, nanos_per_second}
use sovereign_config.Server.Audit.Events.{EventKind, kind_label, coalesces, AuditEvent}

-- One row of the table `audit_events`; a `none` digest is SQL's NULL.
pub record EventRow : Type 0 where
  pub kind : Text
  pub display_path : Text
  pub counterpart_display_path : Option Text
  pub actor_subject : Text
  pub actor_name : Option Text
  pub protocol_version : Text
  pub old_value : Option Text
  pub new_value : Option Text
  pub narrative : Text
  pub coalesce_digest : Option Text
  pub event_count : ℕ
  pub occurred_at : OffsetDateTime
  pub first_occurred_at : OffsetDateTime

-- PostgreSQL's TEXT holds no NUL.
abbrev pub storable : Text → Text
storable text = keep_if (λ c. not (c == 0)) text

-- A text of SHA-256's output, in hexadecimal.
abbrev pub Hash : Type 0
Hash = Text → Text

-- `coalesce_digest`: the window is counted in whole seconds, and is never empty.
unfoldable pub coalesce_digest : Hash → EventKind → Actor → Text → OffsetDateTime → ℕ → Text
unfolding concat decimal fold
coalesce_digest sha256 kind actor path at window_seconds =
    let bucket = (at / nanos_per_second) / max window_seconds 1 in
    sha256 (
      concat (
        kind_label kind
        ∷ (codes "|"
            ∷ (actor.protocol_version
                ∷ (codes "|"
                    ∷ (decimal bucket
                        ∷ (codes "|" ∷ (fold path ∷ (codes "|" ∷ (actor.subject ∷ []))))))))))

-- `AuditRecorder::rows`, with the columns that the statement binds once for all rows.
unfoldable pub event_row : Hash → ℕ → Actor → OffsetDateTime → AuditEvent → EventRow
unfolding coalesce_digest keep_if
event_row sha256 window_seconds actor at event = record {
  kind = kind_label event.kind;
  display_path = event.path;
  counterpart_display_path = event.counterpart;
  actor_subject = storable actor.subject;
  actor_name = elim actor.name [ none ↦ none | some name ↦ some (storable name) ];
  protocol_version = actor.protocol_version;
  old_value = event.old_value;
  new_value = event.new_value;
  narrative = storable event.narrative;
  coalesce_digest =
      if coalesces event.kind
      then some (coalesce_digest sha256 event.kind actor event.path at window_seconds)
      else none;
  event_count = 1;
  occurred_at = at;
  first_occurred_at = at;
}

abbrev pub same_digest : Option Text → Option Text → Bool
same_digest (some d) (some e) = text_eq d e
same_digest _ _ = false

-- `ON CONFLICT (coalesce_digest) DO UPDATE`
abbrev pub bump : EventRow → EventRow → EventRow
bump new row = record row {
  event_count = row.event_count + 1;
  occurred_at = max row.occurred_at new.occurred_at;
  display_path = new.display_path;
  actor_name = elim new.actor_name [ none ↦ row.actor_name | some name ↦ some name ];
  narrative = new.narrative;
}

-- An INTEGER holds at most this.
abbrev pub integer_max : ℕ
integer_max = 2147483647

abbrev segments_ok : Option Text → Bool
segments_ok none = false
segments_ok (some relative) = all (is_segment is_path_byte) (split slash relative)

-- `^/[A-Za-z0-9_-]+(/[A-Za-z0-9_-]+)*$`
unfoldable pub is_path_text : Text → Bool
unfolding strip_prefix split all is_segment is_path_byte
is_path_text text = segments_ok (strip_prefix text (slash ∷ []))

abbrev is_hex_digit : ℕ → Bool
is_hex_digit c = is_ascii_digit c || leb b'a' c && leb c b'f'

-- `^[0-9a-f]{64}$`, or NULL
abbrev digest_ok : Option Text → Bool
digest_ok none = true
digest_ok (some digest) = length digest == 64 && all is_hex_digit digest

abbrev is_label_byte : ℕ → Bool
is_label_byte c = is_ascii_lowercase c || is_ascii_digit c

abbrev named : Option Text → Bool
named none = true
named (some name) = not (is_empty name)

-- A counterpart is a path, and only an alias has one.
abbrev counterpart_ok : Text → Option Text → Bool
counterpart_ok kind none = true
counterpart_ok kind (some path) = is_path_text path && text_eq kind (codes "value.path_added")

abbrev value_kinds : List Text
value_kinds = codes "value.created" ∷ (codes "value.updated" ∷ (codes "value.deleted" ∷ []))

abbrev kinds : List Text
kinds =
    codes "value.path_added"
    ∷ (codes "subtree.replaced"
        ∷ (codes "subtree.deleted"
            ∷ (codes "secret.revealed"
                ∷ (codes "subtree.read"
                    ∷ (codes "values.listed"
                        ∷ (codes "connection.created"
                            ∷ (codes "connection.rotated"
                                ∷ (codes "connection.revoked" ∷ value_kinds))))))))

-- The CHECKs of the table, and the range of the column `event_count`.
unfoldable pub meets_checks : EventRow → Bool
unfolding any all text_eq is_path_text
meets_checks row =
    leb 1 row.event_count
    && leb row.event_count integer_max
    && any (text_eq row.kind) kinds
    && (text_eq row.display_path (codes "/") || is_path_text row.display_path)
    && not (is_empty row.actor_subject)
    && named row.actor_name
    && (leb 1 (length row.protocol_version)
        && leb (length row.protocol_version) 32
        && all is_label_byte row.protocol_version)
    && not (is_empty row.narrative)
    && digest_ok row.coalesce_digest
    && leb row.first_occurred_at row.occurred_at
    && (not (is_none row.coalesce_digest) || row.event_count == 1)
    && (any (text_eq row.kind) value_kinds || is_none row.old_value && is_none row.new_value)
    && counterpart_ok row.kind row.counterpart_display_path

-- A row in front of the rows that came out.
abbrev pub in_front : EventRow → Option (List EventRow) → Option (List EventRow)
in_front row none = none
in_front row (some rows) = some (row ∷ rows)

-- One proposed row, which conflicts with at most one row, as `coalesce_digest` is UNIQUE.
unfoldable pub upsert : EventRow → List EventRow → Option (List EventRow)
unfolding meets_checks
upsert new [] = some (new ∷ [])
upsert new (row ∷ rows) =
    let rest = upsert new rows in
    if same_digest row.coalesce_digest new.coalesce_digest
    then if meets_checks (bump new row) then some (bump new row ∷ rows) else none
    else in_front row rest

-- The proposed row is checked before it is known to conflict.
unfoldable pub insert_event : EventRow → List EventRow → Option (List EventRow)
unfolding meets_checks upsert
insert_event new table = if meets_checks new then upsert new table else none

unfoldable pub insert_each : List EventRow → Option (List EventRow) → Option (List EventRow)
unfolding insert_event
insert_each news none = none
insert_each [] (some table) = some table
insert_each (new ∷ news) (some table) = insert_each news (insert_event new table)

unfoldable pub shares_digest : EventRow → List EventRow → Bool
unfolding any
shares_digest row rows = any (λ other. same_digest other.coalesce_digest row.coalesce_digest) rows

unfoldable pub distinct_digests : List EventRow → Bool
unfolding shares_digest
distinct_digests [] = true
distinct_digests (row ∷ rows) = not (shares_digest row rows) && distinct_digests rows

-- The rows of one statement. `ON CONFLICT DO UPDATE` cannot affect a row a second time, so the
-- statement fails when two of its rows share a digest; `none` is a failed statement.
unfoldable pub insert_events : List EventRow → List EventRow → Option (List EventRow)
unfolding insert_each distinct_digests
insert_events news table = if distinct_digests news then insert_each news (some table) else none
