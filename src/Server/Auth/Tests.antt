-- ===== src/Server/Auth/Tests.antt =====
-- The theorems on grants at a caller with two grants, and the one on routing at one served version.
use sovereign_config.Prelude.{
  String, ◌≡◌, refl, ◌↔◌, true, none, List, [], ◌∷◌, Any, all, any, codes, text_eq, fold,
  strip_prefix, split,
}
use sovereign_config.Core.Path.{
  ConfigPath, parse_operation, fold_key, is_at_or_below, is_segment, is_path_byte,
}
use sovereign_config.Core.Path.Scope.{Covers}
use sovereign_config.Server.Auth.{
  AuthenticatedPrincipal, read, write, allows, grant_covers, has_permission,
}
use sovereign_config.Server.Auth.{
  RawGrant, Grant, validate_grants, collect_grants, canonical_prefix, merge_grant,
}
use sovereign_config.Core.Path.{parse_selection}
use sovereign_config.Server.Auth.Validation.{Gives, GivesRaw, validate_grants_iff}
use sovereign_config.Server.Auth.Grants.{allows_iff, allows_below}
use sovereign_config.Server.Auth.Routing.{
  other, operational_rpcs, gate, is_operational_rpc, is_web_asset_request, is_client_telemetry_path,
  is_unauthenticated_version_handshake, strip_suffix, gate-passed_on,
}
use sovereign_config.Prelude.{◌++◌, ◌⊎◌, ◌≢◌, Text, starts_with}

abbrev reader : AuthenticatedPrincipal
reader = record {
  subject = codes "subject";
  name = none;
  grants =
      record { prefix = codes "/apps"; permissions = read ∷ [] }
      ∷ (record { prefix = codes "/home"; permissions = read ∷ (write ∷ []) } ∷ []);
}

abbrev at_path : String → ConfigPath
at_path s = record { path = codes s }

allows_iff_example :
    (allows reader (at_path "/Home/x") write ≡ true)
    ↔ Any
        (λ grant.
          (has_permission grant.permissions write ≡ true)
          × Covers grant.prefix (fold_key (at_path "/Home/x")))
        reader.grants
allows_iff_example = allows_iff reader (at_path "/Home/x") write

allows_below_example : allows reader (at_path "/Apps/x") read ≡ true
unfolding allows parse_operation text_eq strip_prefix split all is_segment is_path_byte
    is_at_or_below fold any grant_covers
allows_below_example =
    allows_below reader (at_path "/apps") (at_path "/Apps/x") read (codes "/Apps/x") refl refl refl

abbrev token_grants : List RawGrant
token_grants =
    record { prefix = codes "/Apps"; permissions = read ∷ [] }
    ∷ (record { prefix = codes "/apps"; permissions = write ∷ [] } ∷ [])

abbrev merged_grants : List Grant
merged_grants = record { prefix = codes "/apps"; permissions = read ∷ (write ∷ []) } ∷ []

validate_grants_iff_example :
    Any (Gives write (codes "/apps/x")) merged_grants
    ↔ Any (GivesRaw write (codes "/apps/x")) token_grants
unfolding validate_grants collect_grants canonical_prefix merge_grant parse_selection
    parse_operation text_eq strip_prefix split all is_segment is_path_byte fold
validate_grants_iff_example =
    validate_grants_iff write (codes "/apps/x") token_grants merged_grants refl

gate-passed_on_example :
    (other ≢ other)
    ⊎ (any (text_eq (codes "/sovereign.config.v5.System/GetVersion")) operational_rpcs ≡ true)
    ⊎ ((version : Text) × (any (text_eq version) (codes "v5" ∷ []) ≡ true)
        × (codes "/sovereign.config.v5.System/GetVersion"
            ≡ codes "/sovereign.config." ++ (version ++ codes ".System/GetVersion")))
unfolding gate is_operational_rpc is_web_asset_request is_client_telemetry_path
    is_unauthenticated_version_handshake strip_suffix strip_prefix starts_with any text_eq
gate-passed_on_example =
    gate-passed_on (codes "v5" ∷ []) other (codes "/sovereign.config.v5.System/GetVersion") refl
