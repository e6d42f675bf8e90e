-- ===== src/Server/Managed/Store.antt =====
-- managed/store.rs: the statements on `managed_connections`.
pub mod Rows
pub mod Holding
pub mod Tracking
pub mod Lifecycle
use sovereign_config.Prelude.{
  ℕ, zero, suc, ◌+◌, ◌-◌, ◌*◌, ◌/◌, ◌%◌, ◌^◌, ◌≤◌, ◌<◌, min, max, String, ◌≡◌, refl, sym, ap, ◌∙◌,
  subst, ◌≡⟨◌⟩◌, ◌∎, ◌≢◌, ◌↔◌, ◌⊎◌, inl, inr, Bool, true, false, not, ◌&&◌, ◌||◌, Option, none,
  some, List, [], ◌∷◌, ◌++◌, map, append_assoc, append-nil, arith, ltb, leb, ◌==◌, if◌then◌else◌,
  ==_iff, Bool-cases, Option-cases, is_some, is_none, get_or, All, Any, here, ok, err, there,
  length, is_empty, take, drop, get_elem?, all, any, keep_if, length-append, length-take-le,
  take-append_length, drop-append_length, take-append-drop, all-append, all_iff, any_sound,
  any_complete, any-not, All-append, All-left, All-right, All-keep_if, All-map_of, insert_by,
  sort_by, find, filter_map, All-sort_by, All-filter_map, Text, codes, slash, text_eq, text_eq_refl,
  text_eq_sound, text_eq_iff, lower, fold, eq_ignore_ascii_case, strip_prefix, starts_with,
  contains, extend_head, split, trim_start_matches, join, rsplit_once, is_ascii_lowercase,
  is_ascii_uppercase, is_ascii_alphabetic, is_ascii_digit, is_control, concat, decimal_digits,
  decimal, text_le, Result, ok_or, map_err, is_ok, map_err-eq-ok, ok_or-eq-ok, Result-cases,
  lower_idem, lower-eq_slash, fold_idem, fold-append, length-fold, strip_prefix-append,
  strip_prefix_sound, starts_with-append, starts_with_sound, extend_head-map-fold, split-fold,
  split-ne-nil, join-split, split_part, split-append, split_free, contains-append,
}
use sovereign_config.Core.Path.{ConfigPath, parse}
use sovereign_config.Core.Managed.{
  ConnectionId, DisplayName, ManagedConnectionState, ManagedPermissions, state_text, provisioning,
  rotation_unknown, revoking, permissions_text,
}
use sovereign_config.Server.Auth.{Permission, AuthenticatedPrincipal, allows}
use sovereign_config.Server.Rpc.{Status, Actor, OffsetDateTime}
use sovereign_config.Server.Audit.Events.{AuditEvent}
use sovereign_config.Server.Audit.Store.{EventRow, Hash, event_row, insert_events}
use sovereign_config.Server.Managed.Identity.{internal_error}
use sovereign_config.Server.Managed.Provider.{AccountId, CredentialId, ProvisionedAccount, bounded}
use sovereign_config.Server.Managed.Exec.{
  ConnectionRow, Tables, Effect, reading, Exec, pure, lift, ◌>>=◌, statement, direct, begin, commit,
  now_utc, attempt,
}
use sovereign_config.Server.Managed.Wire.{connection_not_found}

abbrev bounded_text : Option Text → Option Text
bounded_text none = none
bounded_text (some stored) = bounded stored

-- `ConnectionRow::account` and `ConnectionRow::credential`
unfoldable pub account_of : ConnectionRow → Option AccountId
unfolding bounded
account_of row = bounded_text row.provider_user_id

unfoldable pub credential_of : ConnectionRow → Option CredentialId
unfolding bounded
credential_of row = bounded_text row.credential_identifier

-- `connection_id = $1`, and `connection_id = $1 AND state = $2`
unfoldable pub names : ConnectionId → ConnectionRow → Bool
unfolding text_eq
names id row = text_eq row.connection_id id

unfoldable pub stands_in : ConnectionId → ManagedConnectionState → ConnectionRow → Bool
unfolding names text_eq
stands_in id expected row = names id row && text_eq row.state (state_text expected)

unfoldable pub update_where :
    (ConnectionRow → Bool)
    → (ConnectionRow → ConnectionRow)
    → List ConnectionRow
    → List ConnectionRow
update_where chosen change [] = []
update_where chosen change (row ∷ rows) =
    (if chosen row then change row else row) ∷ update_where chosen change rows

abbrev pub with_state : Text → OffsetDateTime → ConnectionRow → ConnectionRow
with_state state now row = record row { state = state; updated_at = now }

abbrev changed_row : (ConnectionRow → ConnectionRow) → Option ConnectionRow → Option ConnectionRow
changed_row change none = none
changed_row change (some row) = some (change row)

-- `UPDATE … WHERE connection_id = $1 AND state = $2 RETURNING …`; the identifier is the primary key.
unfoldable pub compare_and_set :
    ConnectionId
    → ManagedConnectionState
    → ManagedConnectionState
    → OffsetDateTime
    → Effect (Option ConnectionRow)
unfolding stands_in update_where find
compare_and_set id expected state now tables = some (
  changed_row (with_state (state_text state) now) (find (stands_in id expected) tables.connections),
  record tables {
    connections =
        update_where (stands_in id expected) (with_state (state_text state) now) tables.connections;
  },
)

-- `DELETE FROM managed_connections WHERE connection_id = $1`, with whether it affected a row
unfoldable pub delete_where : ConnectionId → Effect Bool
unfolding names any keep_if
delete_where id tables = some (
  any (names id) tables.connections,
  record tables { connections = keep_if (λ row. not (names id row)) tables.connections },
)

-- An `UPDATE … WHERE connection_id = $1` that returns nothing.
unfoldable pub update_connection :
    ConnectionId → (ConnectionRow → ConnectionRow) → Effect (Unit {0})
unfolding names update_where
update_connection id change tables =
    some (tt, record tables { connections = update_where (names id) change tables.connections })

abbrev pub new_row :
    ConnectionId → DisplayName → ConfigPath → ManagedPermissions → OffsetDateTime → ConnectionRow
new_row id display_name root permissions now = record {
  connection_id = id;
  display_name = display_name;
  root = root.path;
  provider_user_id = none;
  provider_user_uid = none;
  credential_identifier = none;
  state = state_text provisioning;
  permissions = permissions_text permissions;
  created_at = now;
  updated_at = now;
}

-- The row, where the primary key is still free.
unfoldable pub insert_row : ConnectionRow → Effect (Unit {0})
unfolding names any
insert_row row tables =
    if any (names row.connection_id) tables.connections
    then none
    else some (tt, record tables { connections = row ∷ tables.connections })

-- `ORDER BY created_at, connection_id`
abbrev row_le : ConnectionRow → ConnectionRow → Bool
row_le a b =
    ltb a.created_at b.created_at
    || (a.created_at == b.created_at && text_le a.connection_id b.connection_id)

abbrev manageable : AuthenticatedPrincipal → ConnectionRow → Result Status ConnectionRow
manageable principal row = elim (parse row.root) [
  | err _ ↦ err internal_error
  | ok root ↦ if allows principal root Permission.manage then ok row else err connection_not_found
]

-- The row of the caller's connection, or the refusal.
unfoldable pub check_manageable :
    AuthenticatedPrincipal → Option ConnectionRow → Result Status ConnectionRow
unfolding allows parse
check_manageable principal none = err connection_not_found
check_manageable principal (some row) = manageable principal row

-- The answer of the statement that makes these events of the trail.
abbrev pub with_events : Tables → Option (List EventRow) → Option (Unit {0} × Tables)
with_events tables none = none
with_events tables (some events) = some (tt, record tables { events = events })

-- `AuditRecorder::record_in`, of one event
unfoldable pub append_event : Hash → ℕ → Actor → OffsetDateTime → AuditEvent → Effect (Unit {0})
unfolding event_row insert_events
append_event sha256 window actor at event tables =
    with_events tables (insert_events (event_row sha256 window actor at event ∷ []) tables.events)

module _ {P : Type 0} where
  unfoldable pub insert_provisioning :
      ConnectionId → DisplayName → ConfigPath → ManagedPermissions → Exec P (Unit {0})
  unfolding ◌>>=◌ now_utc direct insert_row permissions_text
  insert_provisioning id display_name root permissions =
      now_utc >>= λ now. direct (insert_row (new_row id display_name root permissions now))

  unfoldable pub record_provider_user : ConnectionId → ProvisionedAccount → Exec P (Unit {0})
  unfolding ◌>>=◌ now_utc direct update_connection
  record_provider_user id account = now_utc >>= λ now. direct (
      update_connection id (λ row. record row {
        provider_user_id = some account.account;
        provider_user_uid = some account.subject;
        updated_at = now;
      }))

  unfoldable pub record_credential_identifier : ConnectionId → CredentialId → Exec P (Unit {0})
  unfolding ◌>>=◌ now_utc direct update_connection
  record_credential_identifier id identifier = now_utc >>= λ now. direct (
      update_connection id
        (λ row. record row { credential_identifier = some identifier; updated_at = now }))

  unfoldable pub transition_state :
      ConnectionId → ManagedConnectionState → ManagedConnectionState → Exec P (Option ConnectionRow)
  unfolding ◌>>=◌ now_utc direct compare_and_set
  transition_state id expected state =
      now_utc >>= λ now. direct (compare_and_set id expected state now)

  unfoldable pub delete_connection : ConnectionId → Exec P Bool
  unfolding direct delete_where
  delete_connection id = direct (delete_where id)

  -- `delete_row`: whether the statement succeeded
  unfoldable pub delete_row : ConnectionId → Exec P Bool
  unfolding ◌>>=◌ attempt delete_connection pure
  delete_row id = attempt (delete_connection id) >>= λ outcome. pure (is_ok outcome)

  unfoldable pub mark_rotation_unknown : ConnectionId → Exec P (Unit {0})
  unfolding ◌>>=◌ now_utc statement update_connection
  mark_rotation_unknown id = now_utc >>= λ now.
      statement (update_connection id (with_state (state_text rotation_unknown) now))

  unfoldable pub mark_revoking : ConnectionId → Exec P (Unit {0})
  unfolding ◌>>=◌ now_utc statement update_connection
  mark_revoking id =
      now_utc >>= λ now. statement (update_connection id (with_state (state_text revoking) now))

  unfoldable pub list_rows : Exec P (List ConnectionRow)
  unfolding direct sort_by
  list_rows = direct (reading (λ tables. sort_by row_le tables.connections))

  unfoldable pub lock_manageable : ConnectionId → AuthenticatedPrincipal → Exec P ConnectionRow
  unfolding ◌>>=◌ statement find names lift check_manageable
  lock_manageable id principal =
      statement (reading (λ tables. find (names id) tables.connections)) >>= λ found.
      lift (check_manageable principal found)

  abbrev pub record_if : Hash → ℕ → Actor → OffsetDateTime → AuditEvent → Bool → Exec P (Unit {0})
  record_if sha256 window actor at event false = pure tt
  record_if sha256 window actor at event true =
      statement (append_event sha256 window actor at event)

  module _ (sha256 : Hash) (window : ℕ) where
    unfoldable pub transition_state_recorded :
        ConnectionId
        → ManagedConnectionState
        → ManagedConnectionState
        → Actor
        → AuditEvent
        → Exec P (Option ConnectionRow)
    unfolding ◌>>=◌ begin now_utc statement compare_and_set append_event commit pure
    transition_state_recorded id expected state actor event = begin >>= λ _. now_utc >>= λ now.
        statement (compare_and_set id expected state now) >>= λ row.
        record_if sha256 window actor now event (is_some row) >>= λ _. commit >>= λ _. pure row

    unfoldable pub delete_connection_recorded :
        ConnectionId → Actor → AuditEvent → Exec P (Unit {0})
    unfolding ◌>>=◌ begin now_utc statement delete_where append_event commit pure
    delete_connection_recorded id actor event = begin >>= λ _.
        statement (delete_where id) >>= λ deleted.
        now_utc >>= λ now. record_if sha256 window actor now event deleted >>= λ _. commit
