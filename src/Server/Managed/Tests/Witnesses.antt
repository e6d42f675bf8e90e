-- ===== src/Server/Managed/Tests/Witnesses.antt =====
-- The theorems on managed connections, at concrete runs.
use sovereign_config.Prelude.{
  ◌≤◌, ◌≡◌, refl, ◌⊎◌, true, false, none, some, [], ◌∷◌, length, all, any, keep_if, find, Text,
  codes, text_eq, lower, fold, strip_prefix, contains, concat, is_ok,
}
use sovereign_config.Core.Path
use sovereign_config.Core.Path.{
  is_segment, is_path_byte, is_fold_byte, parse, parse_selection, parse_operation,
}
use sovereign_config.Core.Connection.{
  parse_connection, managed_url, validate_endpoint, valid_secure_origin, canonical_issuer,
  parse_root, parse_client_authentication, serialize, read_fields, add_field, ends_with_slash,
  trim_end_slashes, split_at_colon,
}
use sovereign_config.Core.Managed.{
  parse_connection_id, is_id_byte, revoking, active, PermissionSet, parse_state, parse_permissions,
  parse_display_name, trim_start, trim_end, is_whitespace, ManagedPermission,
}
use sovereign_config.Server.Auth.{allows, grant_covers}
use sovereign_config.Server.Rpc.{principal, actor, to_timestamp}
use sovereign_config.Server.Managed.Identity.{
  managed_username, username_slug, slug_loop, slug_step, pop_hyphens, ends_with_hyphen,
  is_ascii_alphanumeric, username_slug_max_chars, generate_connection_id, random_string,
  take_characters,
}
use sovereign_config.Server.Managed.Identity.Usernames.{
  managed_username-injective, username_slug-bounded, is_slug_byte,
}
use sovereign_config.Server.Managed.Provider
use sovereign_config.Server.Managed.Provider.{ProviderError, bounded, utf8_len}
use sovereign_config.Server.Managed.Exec.{
  World, pure, lift, ◌>>=◌, statement, direct, begin, commit, pause, meanwhile, now_utc, call, draw,
  attempt,
}
use sovereign_config.Server.Managed.Lifecycle.{in_state, Moves}
use sovereign_config.Server.Managed.Lifecycle.Rules.{OthersMove}
use sovereign_config.Server.Managed.Store.{
  names, stands_in, update_where, compare_and_set, delete_where, update_connection, insert_row,
  account_of, credential_of, lock_manageable, check_manageable, mark_revoking,
  delete_connection_recorded, append_event, delete_row,
}
use sovereign_config.Server.Managed.Store.Rows.{row_of, state_at}
use sovereign_config.Server.Managed.Service.{
  create, rotate, revoke, required_permission, settle_failed_rotation, claim_for_revocation,
  revocation_target, delete_account_confirmed, delete_target,
}
use sovereign_config.Server.Managed.Service.Transitions.{rotate-Moves, rotate-revoking}
use sovereign_config.Server.Managed.Service.Escalation.{create-missing}
use sovereign_config.Server.Managed.Service.Revocation.{revoke-gone}
use sovereign_config.Server.Managed.Service.Settlement.{
  settle_failed_rotation-Settles, refused_current,
}
use sovereign_config.Server.Managed.Tests.{
  Accounts, Live, Owns, small_provider-Contract, service, caller, manager, id, row, world,
}

nobody : OthersMove {P = Accounts} []
nobody = record { each = tt }

abbrev writing : PermissionSet
writing = record { reads = false; writes = true; manages = false }

abbrev pub reading_only : PermissionSet
reading_only = record { reads = true; writes = false; manages = false }

-- The caller holds `read` and `manage`, but asks to grant `write`.
create-missing_example :
    (is_ok (create service manager (codes "Build") (codes "/") (some writing) (world [] [])).0
      ≡ false)
    × ((create service manager (codes "Build") (codes "/") (some writing) (world [] [])).1
        ≡ world [] [])
unfolding principal parse_selection parse text_eq fold strip_prefix allows grant_covers any
    required_permission
create-missing_example =
    create-missing service manager (codes "Build") (codes "/") writing caller Path.root
      ManagedPermission.write (world [] []) refl refl refl refl

rotate-Moves_example :
    Moves
      (state_at id (world (row (codes "active") ∷ []) []).committed)
      (state_at id (rotate service manager id (world (row (codes "active") ∷ []) [])).1.committed)
rotate-Moves_example =
    rotate-Moves service manager id id (world (row (codes "active") ∷ []) []) nobody

abbrev claimed_world : World Accounts
claimed_world = world (row (codes "revoking") ∷ []) []

rotate-revoking_example :
    (state_at id (rotate service manager id claimed_world).1.committed ≡ in_state revoking)
    ⊎ (state_at id (rotate service manager id claimed_world).1.committed ≡ none)
unfolding state_at find names text_eq
rotate-revoking_example = rotate-revoking service manager id id claimed_world nobody refl

-- Everything that a run computes through.
unfoldable pub run : Unit {0}
unfolding sovereign_config.Server.Audit.Narrative.connection_created
    sovereign_config.Server.Audit.Narrative.connection_rotated
    sovereign_config.Server.Audit.Narrative.connection_revoked create parse_display_name trim_start
    trim_end is_whitespace parse_selection parse parse_operation is_segment is_path_byte
    is_fold_byte all any text_eq fold strip_prefix allows grant_covers principal actor
    required_permission pure lift ◌>>=◌ statement direct begin commit pause meanwhile now_utc call
    draw attempt generate_connection_id random_string take_characters parse_connection_id is_id_byte
    insert_row find keep_if names stands_in update_where compare_and_set delete_where
    update_connection managed_username username_slug slug_loop slug_step pop_hyphens
    ends_with_hyphen is_ascii_alphanumeric lower concat delete_row state_at lock_manageable
    check_manageable rotate revoke append_event credential_of account_of bounded utf8_len
    parse_state parse_permissions to_timestamp parse_connection managed_url validate_endpoint
    valid_secure_origin canonical_issuer parse_root parse_client_authentication serialize
    read_fields add_field ends_with_slash trim_end_slashes split_at_colon contains mark_revoking
    delete_connection_recorded claim_for_revocation revocation_target delete_account_confirmed
    delete_target
run = tt

-- The creation is undone: the account and the row are gone again.
created_undone :
    ((create service manager
        (codes "Build")
        (codes "/")
        (some reading_only)
        (world [] [])).1.provider
      ≡ [])
    × ((create service manager
          (codes "Build")
          (codes "/")
          (some reading_only)
          (world [] [])).1.committed.connections
        ≡ [])
unfolding run
created_undone = (refl, refl)

abbrev account : Text
account = codes "sc-managed-build-abcdefghijklmnop"

abbrev standing : World Accounts
standing = world (row (codes "active") ∷ []) (account ∷ [])

revoke-gone_example :
    (¬ Live
      (managed_username id (row (codes "active")).display_name)
      (revoke service manager id standing).1.provider)
    × (row_of id (revoke service manager id standing).1.committed.connections ≡ none)
unfolding run
revoke-gone_example =
    revoke-gone service Live Owns small_provider-Contract id (row (codes "active")) account manager
      id standing refl refl refl refl refl refl

settle_failed_rotation-Settles_example :
    state_at id
      (settle_failed_rotation service id account Provider.rejected
        (world (row (codes "rotation_unknown") ∷ []) (account ∷ []))).1.committed
    ≡ in_state active
unfolding run
settle_failed_rotation-Settles_example =
    settle_failed_rotation-Settles service id account Provider.rejected active
      (world (row (codes "rotation_unknown") ∷ []) (account ∷ [])) refl refl refl
      (refused_current refl refl refl)

managed_username-injective_example : id ≡ codes "abcdefghijklmnop"
unfolding run
managed_username-injective_example =
    managed_username-injective id id id (codes "abcdefghijklmnop") (codes "Build") (codes "build!")
      refl refl refl

username_slug-bounded_example :
    (length (username_slug (codes "Build!")) ≤ username_slug_max_chars)
    × (all is_slug_byte (username_slug (codes "Build!")) ≡ true)
    × (ends_with_hyphen (username_slug (codes "Build!")) ≡ false)
username_slug-bounded_example = username_slug-bounded (codes "Build!")
