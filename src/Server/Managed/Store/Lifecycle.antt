-- ===== src/Server/Managed/Store/Lifecycle.antt =====
-- managed/store.rs: its statements take every connection along its lifecycle.
use sovereign_config.Prelude.{ℕ, ◌≡◌, refl, subst, Bool, true, false, Option, some, is_some, is_ok}
use sovereign_config.Core.Managed.{ConnectionId, ManagedConnectionState}
use sovereign_config.Server.Audit.Events.{AuditEvent}
use sovereign_config.Server.Audit.Store.{Hash}
use sovereign_config.Server.Rpc.{Actor, OffsetDateTime}
use sovereign_config.Server.Managed.Provider.{ProvisionedAccount, CredentialId}
use sovereign_config.Server.Managed.Exec.{Tables, ConnectionRow, Exec, pure, ◌>>=◌, direct, commit}
use sovereign_config.Server.Managed.Exec.Rules.{Triple, Triple-bind, Triple-pure}
use sovereign_config.Server.Managed.Lifecycle.{
  in_state, Move, stays, AllMove, AllMove-compare_and_set, AllMove-annotate, AllMove-delete,
}
use sovereign_config.Server.Managed.Store
use sovereign_config.Server.Managed.Store.{
  names, insert_provisioning, record_provider_user, record_credential_identifier, transition_state,
  transition_state_recorded, delete_connection_recorded, delete_connection, delete_row,
  lock_manageable, mark_rotation_unknown, mark_revoking, compare_and_set, delete_where,
  update_connection, insert_row, check_manageable, append_event, with_state,
}
use sovereign_config.Server.Managed.Store.Rows.{append_event-some, state_at}
use sovereign_config.Server.Managed.Lifecycle.Rules.{
  Out, In, Stays, Stays-pure, Stays-direct, Stays-attempt, Stays-bind, Stays-now_utc, Stays-begin,
  In-statement, In-now_utc, In-commit, In-commit_now,
}

pub some_eq :
    {A : Type 0} {a b : A} {s t : Tables}
    → ◌≡◌ {A = Option (A × Tables)} (some (a, s)) (some (b, t))
    → s ≡ t
some_eq h = cc

module _ {P : Type 0} (start : Tables) where
  pub Stays-transition_state :
      (id : ConnectionId) (expected state : ManagedConnectionState)
      → Move (in_state expected) (in_state state)
      → Stays start (transition_state {P = P} id expected state)
  unfolding transition_state compare_and_set
  Stays-transition_state id expected state m = Stays-bind start _ _ (Stays-now_utc start) (λ now.
      Stays-direct start (compare_and_set id expected state now) (λ before a after e.
        subst (λ (t : Tables). AllMove before t) (some_eq e)
          (AllMove-compare_and_set id expected state now before m)))

  pub Stays-delete_row : (id : ConnectionId) → Stays start (delete_row {P = P} id)
  unfolding delete_row delete_connection delete_where
  Stays-delete_row id =
      Stays-bind start _ _
        (Stays-attempt start _ (
          Stays-direct start (delete_where id) (λ before a after e.
            subst (λ (t : Tables). AllMove before t) (some_eq e) (AllMove-delete id before))))
        (λ outcome. Stays-pure start (is_ok outcome))

  pub Stays-update_connection :
      (id : ConnectionId) (change : ConnectionRow → ConnectionRow)
      (keeps : (row : ConnectionRow) → (change row).connection_id ≡ row.connection_id)
      (same : (row : ConnectionRow) → (change row).state ≡ row.state)
      → Stays start (direct {P = P} (update_connection id change))
  unfolding update_connection
  Stays-update_connection id change keeps same =
      Stays-direct start (update_connection id change) (λ before a after e.
        subst (λ (t : Tables). AllMove before t) (some_eq e)
          (AllMove-annotate id change keeps same before))

  pub Stays-record_provider_user :
      (id : ConnectionId) (account : ProvisionedAccount)
      → Stays start (record_provider_user {P = P} id account)
  unfolding record_provider_user
  Stays-record_provider_user id account =
      Stays-bind start _ _ (Stays-now_utc start)
        (λ now. Stays-update_connection id _ (λ row. refl) (λ row. refl))

  pub Stays-record_credential_identifier :
      (id : ConnectionId) (identifier : CredentialId)
      → Stays start (record_credential_identifier {P = P} id identifier)
  unfolding record_credential_identifier
  Stays-record_credential_identifier id identifier =
      Stays-bind start _ _ (Stays-now_utc start)
        (λ now. Stays-update_connection id _ (λ row. refl) (λ row. refl))

  In-record_if :
      {B : Type 0} (sha256 : Hash) (window : ℕ) (actor : Actor) (at : OffsetDateTime)
      (event : AuditEvent) (recorded : Bool) (f : Unit {0} → Exec P B)
      → Triple (In start) (f tt) (λ _. Out start) (Out start)
      → Triple
          (In start)
          (Store.record_if sha256 window actor at event recorded >>= f)
          (λ _. Out start)
          (Out start)
  unfolding append_event state_at
  In-record_if sha256 window actor at event false f k =
      Triple-bind (λ _. In start) (pure tt) f (Triple-pure tt (λ w i. i)) (λ _. k)
  In-record_if sha256 window actor at event true f k =
      In-statement start (append_event sha256 window actor at event) f
        (λ before a after e.
          subst (λ (t : Tables). AllMove before t)
            (append_event-some sha256 window actor at event before e).1
            (record { at = λ id. stays refl }))
        (λ _. k)

  pub Stays-transition_state_recorded :
      (sha256 : Hash) (window : ℕ) (id : ConnectionId) (expected state : ManagedConnectionState)
      (actor : Actor) (event : AuditEvent)
      → Move (in_state expected) (in_state state)
      → Stays start (transition_state_recorded {P = P} sha256 window id expected state actor event)
  unfolding transition_state_recorded compare_and_set
  Stays-transition_state_recorded sha256 window id expected state actor event m =
      Stays-begin start _ (
        In-now_utc start _ (λ now.
          In-statement start (compare_and_set id expected state now) _
            (λ before a after e.
              subst (λ (t : Tables). AllMove before t) (some_eq e)
                (AllMove-compare_and_set id expected state now before m))
            (λ row.
              In-record_if sha256 window actor now event (is_some row)
                (λ _. commit >>= λ _. pure row)
                (In-commit start (λ _. pure row) (Stays-pure start row)))))

  pub Stays-delete_connection_recorded :
      (sha256 : Hash) (window : ℕ) (id : ConnectionId) (actor : Actor) (event : AuditEvent)
      → Stays start (delete_connection_recorded {P = P} sha256 window id actor event)
  unfolding delete_connection_recorded delete_where
  Stays-delete_connection_recorded sha256 window id actor event = Stays-begin start _ (
      In-statement start (delete_where id) _
        (λ before a after e.
          subst (λ (t : Tables). AllMove before t) (some_eq e) (AllMove-delete id before))
        (λ deleted. In-now_utc start _ (λ now.
          In-record_if sha256 window actor now event deleted (λ _. commit) (In-commit_now start))))
