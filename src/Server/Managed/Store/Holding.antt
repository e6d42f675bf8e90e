-- ===== src/Server/Managed/Store/Holding.antt =====
-- managed/store.rs: the statements on one connection stay in a phase in which its row is held.
use sovereign_config.Prelude.{
  ℕ, ◌≡◌, refl, subst, Bool, true, false, Option, some, arith, is_some, Text,
}
use sovereign_config.Core.Managed.{
  ConnectionId, ManagedConnectionState, provisioning, cleanup_required, state_text,
}
use sovereign_config.Server.Rpc.{Actor, OffsetDateTime}
use sovereign_config.Server.Audit.Events.{AuditEvent}
use sovereign_config.Server.Audit.Store.{Hash}
use sovereign_config.Server.Managed.Provider.{CredentialId, ProvisionedAccount}
use sovereign_config.Server.Managed.Exec.{Tables, ConnectionRow, Exec, pure, ◌>>=◌, commit, direct}
use sovereign_config.Server.Managed.Exec.Phases.{
  Holds, Holds-pure, Holds-direct, Holds-attempt, Holds-bind, Holds-now_utc, Holds-begin, Completes,
  Completes-statement, Completes-now_utc, Completes-pure_bind, Completes-commit,
}
use sovereign_config.Server.Managed.Store
use sovereign_config.Server.Managed.Store.Rows.{append_event-some}
use sovereign_config.Server.Managed.Store.{
  names, stands_in, update_where, with_state, compare_and_set, delete_where, update_connection,
  record_provider_user, record_credential_identifier, transition_state, transition_state_recorded,
  delete_connection, delete_row, append_event,
}
use sovereign_config.Server.Managed.Store.Lifecycle.{some_eq}
use sovereign_config.Server.Managed.Store.Tracking.{Held, Held-update_where}
use sovereign_config.Server.Managed.Provisioning.{
  ManagedConnectionsService, cleanup_message, cleanup_required_status,
}

module _ {P : Type 0} (Prov : P → Type 0) (id : ConnectionId) (name : Text)
    (Others : Text → Type 0) where
  pub holds_compare_and_set :
      (expected state : ManagedConnectionState) (now : OffsetDateTime) (before : Tables)
      (a : Option ConnectionRow) (after : Tables)
      → compare_and_set id expected state now before ≡ some (a, after)
      → Held id name Others before
      → Held id name Others after
  unfolding compare_and_set
  holds_compare_and_set expected state now before a after e h =
      subst (Held id name Others) (some_eq e) (
        Held-update_where id (stands_in id expected) (with_state (state_text state) now)
          (λ row chosen. unfold stands_in in ground arith) (λ row. refl) (λ row. refl) name Others
          before h)

  pub Holds-update_connection :
      (change : ConnectionRow → ConnectionRow)
      (same_id : (row : ConnectionRow) → (change row).connection_id ≡ row.connection_id)
      (same_name : (row : ConnectionRow) → (change row).display_name ≡ row.display_name)
      → Holds Prov (Held id name Others) (direct (update_connection id change))
  unfolding update_connection
  Holds-update_connection change same_id same_name =
      Holds-direct Prov (Held id name Others) (update_connection id change) (λ before a after e h.
        subst (Held id name Others) (some_eq e) (
          Held-update_where id (names id) change (λ row chosen. chosen) same_id same_name name
            Others before h))

  pub Holds-transition_state :
      (expected state : ManagedConnectionState)
      → Holds Prov (Held id name Others) (transition_state id expected state)
  unfolding transition_state
  Holds-transition_state expected state =
      Holds-bind Prov (Held id name Others) _ _ (Holds-now_utc Prov (Held id name Others)) (λ now.
        Holds-direct Prov (Held id name Others) (compare_and_set id expected state now)
          (holds_compare_and_set expected state now))

  pub Holds-cleanup_required :
      (service : ManagedConnectionsService P)
      → Holds Prov (Held id name Others) (cleanup_required_status service id)
  unfolding cleanup_required_status
  Holds-cleanup_required service =
      Holds-bind Prov (Held id name Others) _ _
        (Holds-attempt Prov (Held id name Others) _
          (Holds-transition_state provisioning cleanup_required))
        (λ _. Holds-pure Prov (Held id name Others) cleanup_message)

  pub Holds-record_provider_user :
      (account : ProvisionedAccount)
      → Holds Prov (Held id name Others) (record_provider_user id account)
  unfolding record_provider_user
  Holds-record_provider_user account =
      Holds-bind Prov (Held id name Others) _ _ (Holds-now_utc Prov (Held id name Others))
        (λ now. Holds-update_connection _ (λ row. refl) (λ row. refl))

  pub Holds-record_credential_identifier :
      (identifier : CredentialId)
      → Holds Prov (Held id name Others) (record_credential_identifier id identifier)
  unfolding record_credential_identifier
  Holds-record_credential_identifier identifier =
      Holds-bind Prov (Held id name Others) _ _ (Holds-now_utc Prov (Held id name Others))
        (λ now. Holds-update_connection _ (λ row. refl) (λ row. refl))

  Completes-record_if :
      {B : Type 0} (sha256 : Hash) (window : ℕ) (actor : Actor) (at : OffsetDateTime)
      (event : AuditEvent) (recorded : Bool) (f : Unit {0} → Exec P B)
      → Completes Prov (Held id name Others) (f tt)
      → Completes Prov
          (Held id name Others)
          (Store.record_if sha256 window actor at event recorded >>= f)
  unfolding append_event
  Completes-record_if sha256 window actor at event false f k =
      Completes-pure_bind Prov (Held id name Others) tt f k
  Completes-record_if sha256 window actor at event true f k =
      Completes-statement Prov (Held id name Others) (append_event sha256 window actor at event) f
        (λ before a after e h.
          subst (Held id name Others) (append_event-some sha256 window actor at event before e).1
            (record { row = h.row; found = h.found; named = h.named; others = h.others }))
        (λ _. k)

  pub Holds-transition_state_recorded :
      (sha256 : Hash) (window : ℕ) (expected state : ManagedConnectionState) (actor : Actor)
      (event : AuditEvent)
      → Holds Prov
          (Held id name Others)
          (transition_state_recorded sha256 window id expected state actor event)
  unfolding transition_state_recorded
  Holds-transition_state_recorded sha256 window expected state actor event =
      Holds-begin Prov (Held id name Others) _ (
        Completes-now_utc Prov (Held id name Others) _ (λ now.
          Completes-statement Prov (Held id name Others) (compare_and_set id expected state now) _
            (holds_compare_and_set expected state now)
            (λ row.
              Completes-record_if sha256 window actor now event (is_some row)
                (λ _. commit >>= λ _. pure row)
                (Completes-commit Prov (Held id name Others) (λ _. pure row)
                  (Holds-pure Prov (Held id name Others) row)))))
