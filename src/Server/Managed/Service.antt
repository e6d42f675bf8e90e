-- ===== src/Server/Managed/Service.antt =====
-- managed/service.rs: the operations on managed connections. The counters of outcomes and the log
-- lines are left out; `refusal_outcome` is what a refusal is counted as.
pub mod Lifecycle
pub mod Marking
pub mod Transitions
pub mod Escalation
pub mod Settlement
pub mod Revocation
pub mod Orphans
use sovereign_config.Prelude.{
  ℕ, zero, suc, ◌+◌, ◌-◌, ◌*◌, ◌/◌, ◌%◌, ◌^◌, ◌≤◌, ◌<◌, min, max, String, ◌≡◌, refl, sym, ap, ◌∙◌,
  subst, ◌≡⟨◌⟩◌, ◌∎, ◌≢◌, ◌↔◌, ◌⊎◌, inl, inr, Bool, true, false, not, ◌&&◌, ◌||◌, Option, none,
  some, List, [], ◌∷◌, ◌++◌, map, append_assoc, append-nil, arith, ltb, leb, ◌==◌, if◌then◌else◌,
  ==_iff, Bool-cases, Option-cases, is_some, is_none, get_or, All, Any, here, ok, err, there,
  length, is_empty, take, drop, get_elem?, all, any, keep_if, length-append, length-take-le,
  take-append_length, drop-append_length, take-append-drop, all-append, all_iff, any_sound,
  any_complete, any-not, All-append, All-left, All-right, All-keep_if, All-map_of, insert_by,
  sort_by, find, filter_map, All-sort_by, All-filter_map, Text, codes, slash, text_eq, text_eq_refl,
  text_eq_sound, text_eq_iff, lower, fold, eq_ignore_ascii_case, strip_prefix, starts_with,
  contains, extend_head, split, trim_start_matches, join, rsplit_once, is_ascii_lowercase,
  is_ascii_uppercase, is_ascii_alphabetic, is_ascii_digit, is_control, concat, decimal_digits,
  decimal, text_le, Result, ok_or, map_err, is_ok, map_err-eq-ok, ok_or-eq-ok, Result-cases,
  lower_idem, lower-eq_slash, fold_idem, fold-append, length-fold, strip_prefix-append,
  strip_prefix_sound, starts_with-append, starts_with_sound, extend_head-map-fold, split-fold,
  split-ne-nil, join-split, split_part, split-append, split_free, contains-append,
}
use sovereign_config.Core.Path.{ConfigPath, parse, parse_selection, fold_key}
use sovereign_config.Core.Managed.{
  ConnectionId, ManagedConnectionState, ManagedPermission, ManagedPermissions, parse_connection_id,
  parse_display_name, parse_state, active, rotation_unknown, cleanup_required, members,
  permissions_text,
}
use sovereign_config.Server.Auth.{Permission, AuthenticatedPrincipal, allows}
use sovereign_config.Server.Rpc.{
  Status, status, Code, permission_denied, storage_unavailable, CallContext, principal, actor,
  Actor, OffsetDateTime,
}
use sovereign_config.Server.Audit.Events.{
  ConnectionSubject, on_connection_created, on_connection_rotated, on_connection_revoked,
}
use sovereign_config.Server.Managed.Identity.{
  internal_error, generate_connection_id, managed_username,
}
use sovereign_config.Server.Managed.Provider.{
  ProviderError, AccountId, CredentialId, ClientCredential,
}
use sovereign_config.Server.Managed.Provider
use sovereign_config.Server.Managed.Exec.{
  ConnectionRow, Exec, pure, lift, ◌>>=◌, begin, commit, now_utc, call, draw, attempt,
}
use sovereign_config.Server.Managed.Store.{
  account_of, credential_of, insert_provisioning, lock_manageable, mark_rotation_unknown,
  mark_revoking, transition_state, transition_state_recorded, delete_connection_recorded, list_rows,
}
use sovereign_config.Server.Managed.Wire.{
  ConnectionMetadata, ProvisionedConnection, metadata, managed_metadata, folded_root,
  invalid_request, conflict_error, dependency_error,
}
use sovereign_config.Server.Managed.Provisioning.{
  ManagedConnectionsService, AccountName, credential_gone, credential_is_gone, connection_url,
  provision_inserted, cleanup_message,
}

unfoldable pub required_permission : ManagedPermission → Permission
required_permission ManagedPermission.read = Permission.read
required_permission ManagedPermission.write = Permission.write
required_permission ManagedPermission.manage = Permission.manage

-- `ManagedOperationResult`, as far as a refusal is counted
pub data RefusalOutcome : Type 0 where
  invalid_call unauthenticated_call denied absent conflicting storage cleanup dependency broken :
      RefusalOutcome

abbrev says : String → Status → Bool
says message refusal = text_eq (codes refusal.message) (codes message)

unfoldable pub refusal_outcome : Status → RefusalOutcome
unfolding text_eq
refusal_outcome refusal = elim refusal.code [
  | Code.invalid_argument ↦ invalid_call
  | Code.unauthenticated ↦ unauthenticated_call
  | Code.permission_denied ↦ denied
  | Code.not_found ↦ absent
  | Code.aborted ↦ conflicting
  | Code.unavailable ↦
      if says storage_unavailable.message refusal
      then storage
      else if says cleanup_message.message refusal
      then cleanup
      else dependency
  | Code.already_exists ↦ broken
  | Code.internal ↦ broken
]

abbrev pub not_permitted : Status
not_permitted = status permission_denied "configuration operation is not permitted"

-- Whether the caller may create a connection with these permissions on this root.
unfoldable pub may_create : AuthenticatedPrincipal → ConfigPath → ManagedPermissions → Bool
unfolding allows any required_permission
may_create caller root permissions =
    allows caller root Permission.manage
    && not (
        any (λ permission. not (allows caller root (required_permission permission)))
          (members permissions))

abbrev pub subject_of : ConnectionId → ConnectionRow → ConnectionSubject
subject_of id row = record { root = row.root; display_name = row.display_name; connection_id = id }

-- What a failed replacement says of the credential, the refused one aside: gone, current, or unknown.
abbrev settled_by : ProviderError → Option Bool
settled_by Provider.unavailable = some false
settled_by Provider.not_found = some true
settled_by _ = none

abbrev pub settled_state : Bool → ManagedConnectionState
settled_state true = cleanup_required
settled_state false = active

module _ {P : Type 0} (service : ManagedConnectionsService P) where
  unfoldable pub list_connections : CallContext → Exec P (List ConnectionMetadata)
  unfolding ◌>>=◌ lift principal list_rows managed_metadata
  list_connections context = lift (principal context) >>= λ caller.
      list_rows >>= λ rows. lift (managed_metadata caller rows)

  abbrev pub create_allowed :
      Actor → Text → ConfigPath → ManagedPermissions → Bool → Exec P ProvisionedConnection
  create_allowed caller display_name root permissions false = lift (err not_permitted)
  create_allowed caller display_name root permissions true = draw generate_connection_id >>= λ id.
      insert_provisioning id display_name root permissions >>= λ _.
      (let name : AccountName = record {
        username = managed_username id display_name;
        display_name = display_name;
      } in
        let subject : ConnectionSubject = record {
          root = root.path;
          display_name = display_name;
          connection_id = id;
        } in
        provision_inserted service id name root permissions caller
          (on_connection_created caller subject (permissions_text permissions)))

  unfoldable pub create :
      CallContext → Text → Text → Option ManagedPermissions → Exec P ProvisionedConnection
  unfolding ◌>>=◌ lift principal actor parse_display_name parse_selection parse may_create draw
      generate_connection_id insert_provisioning managed_username provision_inserted
      on_connection_created permissions_text
  create context display_name root permissions = lift (principal context) >>= λ caller.
      lift (actor context) >>= λ acting.
      lift (map_err (parse_display_name display_name) invalid_request) >>= λ name.
      lift (folded_root root) >>= λ folded.
      lift (ok_or permissions invalid_request) >>= λ selection.
      create_allowed acting name folded selection (may_create caller folded selection)

  -- Whether a rotation may begin: no other may still be in flight.
  unfoldable pub may_rotate : ManagedConnectionState → OffsetDateTime → OffsetDateTime → Bool
  may_rotate active updated_at now = true
  may_rotate rotation_unknown updated_at now = leb (updated_at + service.rotation_lease) now
  may_rotate _ updated_at now = false

  abbrev pub require_rotatable : Bool → Exec P (Unit {0})
  require_rotatable true = pure tt
  require_rotatable false = lift (err conflict_error)

  unfoldable pub begin_rotation : ConnectionId → CallContext → Exec P (ConnectionRow × ConfigPath)
  unfolding ◌>>=◌ lift principal begin lock_manageable parse parse_state now_utc may_rotate pure
      mark_rotation_unknown commit
  begin_rotation id context = lift (principal context) >>= λ caller. begin >>= λ _.
      lock_manageable id caller >>= λ row.
      lift (map_err (parse row.root) internal_error) >>= λ root.
      lift (map_err (parse_state row.state) internal_error) >>= λ state. now_utc >>= λ now.
      require_rotatable (may_rotate state row.updated_at now) >>= λ _.
      require_rotatable (is_some row.credential_identifier) >>= λ _.
      mark_rotation_unknown id >>= λ _. commit >>= λ _. pure (row, root)

  -- Whether the credential is gone, where the failure or the lookup that settles it says so.
  unfoldable pub credential_verdict : Text → ProviderError → Exec P (Option Bool)
  unfolding credential_gone pure
  credential_verdict username Provider.rejected = credential_gone service username
  credential_verdict username error = pure (settled_by error)

  abbrev pub settle : ConnectionId → Option Bool → Exec P (Unit {0})
  settle id none = pure tt
  settle id (some gone) =
      attempt (transition_state id rotation_unknown (settled_state gone)) >>= λ _. pure tt

  unfoldable pub settle_failed_rotation : ConnectionId → Text → ProviderError → Exec P (Unit {0})
  unfolding ◌>>=◌ credential_verdict attempt transition_state pure
  settle_failed_rotation id username error =
      credential_verdict username error >>= λ verdict. settle id verdict

  -- The last step of a rotation: the URL is current only if the row is still this rotation's.
  unfoldable pub report_rotated :
      ConnectionId
      → ConnectionRow
      → Actor
      → ConfigPath
      → ClientCredential
      → Exec P ProvisionedConnection
  unfolding ◌>>=◌ lift connection_url managed_username transition_state_recorded
      on_connection_rotated metadata pure
  report_rotated id row acting root replacement =
      lift (connection_url service root (managed_username id row.display_name) replacement)
      >>= λ url.
          transition_state_recorded service.sha256 service.coalesce_window id rotation_unknown
            active acting (on_connection_rotated acting (subject_of id row))
          >>= λ moved. lift (ok_or moved dependency_error) >>= λ current.
              lift (metadata current) >>= λ shown.
              pure (record { metadata = shown; connection_url = url })

  abbrev pub replaced :
      ConnectionId
      → ConnectionRow
      → Actor
      → ConfigPath
      → Result ProviderError ClientCredential
      → Exec P ProvisionedConnection
  replaced id row acting root (ok replacement) = report_rotated id row acting root replacement
  replaced id row acting root (err error) =
      settle_failed_rotation id (managed_username id row.display_name) error >>= λ _.
      lift (err dependency_error)

  unfoldable pub rotate : CallContext → Text → Exec P ProvisionedConnection
  unfolding ◌>>=◌ lift parse_connection_id begin_rotation actor credential_of call
      settle_failed_rotation report_rotated managed_username
  rotate context connection_id =
      lift (map_err (parse_connection_id connection_id) invalid_request) >>= λ id.
      begin_rotation id context >>= λ (begun : ConnectionRow × ConfigPath).
      lift (actor context) >>= λ acting.
      lift (ok_or (credential_of begun.0) internal_error) >>= λ credential.
      call (service.provider.replace_credential credential) >>= λ replacement.
      replaced id begun.0 acting begun.1 replacement

  unfoldable pub claim_for_revocation : CallContext → ConnectionId → Exec P ConnectionRow
  unfolding ◌>>=◌ lift principal begin lock_manageable mark_revoking commit pure
  claim_for_revocation context id = lift (principal context) >>= λ caller. begin >>= λ _.
      lock_manageable id caller >>= λ row. mark_revoking id >>= λ _. commit >>= λ _. pure row

  -- A refused call is settled by the credential's lookup.
  abbrev pub confirmed_gone : Bool → Exec P (Unit {0})
  confirmed_gone true = pure tt
  confirmed_gone false = lift (err dependency_error)

  abbrev pub probed : Text → Result ProviderError (Option AccountId) → Exec P (Option AccountId)
  probed username (ok found) = pure found
  probed username (err _) =
      credential_is_gone service username >>= λ gone. confirmed_gone gone >>= λ _. pure none

  abbrev pub target_of : Text → Option AccountId → Exec P (Option AccountId)
  target_of username (some account) = pure (some account)
  target_of username none =
      call (service.provider.find_account username) >>= λ found. probed username found

  unfoldable pub revocation_target : ConnectionRow → Text → Exec P (Option AccountId)
  unfolding ◌>>=◌ account_of pure call credential_is_gone lift
  revocation_target row username = target_of username (account_of row)

  abbrev pub confirmed : Text → Result ProviderError (Unit {0}) → Exec P (Unit {0})
  confirmed username (ok _) = pure tt
  confirmed username (err _) = credential_is_gone service username >>= λ gone. confirmed_gone gone

  unfoldable pub delete_account_confirmed : AccountId → Text → Exec P (Unit {0})
  unfolding ◌>>=◌ call pure credential_is_gone lift
  delete_account_confirmed account username =
      call (service.provider.delete_account account) >>= λ deletion. confirmed username deletion

  unfoldable pub delete_target : Text → Option AccountId → Exec P (Unit {0})
  unfolding pure delete_account_confirmed
  delete_target username none = pure tt
  delete_target username (some account) = delete_account_confirmed account username

  unfoldable pub revoke : CallContext → Text → Exec P (Unit {0})
  unfolding ◌>>=◌ lift parse_connection_id claim_for_revocation actor managed_username
      revocation_target delete_target delete_connection_recorded on_connection_revoked
  revoke context connection_id =
      lift (map_err (parse_connection_id connection_id) invalid_request) >>= λ id.
      claim_for_revocation context id >>= λ row. lift (actor context) >>= λ acting.
      revocation_target row (managed_username id row.display_name) >>= λ target.
      delete_target (managed_username id row.display_name) target >>= λ _.
      delete_connection_recorded service.sha256 service.coalesce_window id acting
        (on_connection_revoked acting (subject_of id row))
