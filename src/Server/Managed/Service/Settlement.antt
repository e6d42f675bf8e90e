-- ===== src/Server/Managed/Service/Settlement.antt =====
-- managed/service.rs `settle_failed_rotation`: where a rotation ends whose credential write failed.
use sovereign_config.Prelude.{
  ◌≡◌, refl, ap, ◌∙◌, ◌⊎◌, inl, inr, Bool, true, false, Option, none, some, List, [], ◌∷◌, ok, err,
  Text, text_eq_refl, Result,
}
use sovereign_config.Core.Managed.{
  ConnectionId, ManagedConnectionState, active, rotation_unknown, cleanup_required, state_text,
}
use sovereign_config.Server.Rpc.{OffsetDateTime}
use sovereign_config.Server.Managed.Provider
use sovereign_config.Server.Managed.Provider.{ProviderError, CredentialId, ManagedIdentityProvider}
use sovereign_config.Server.Managed.Exec.{
  World, Tables, ConnectionRow, meanwhile, direct, now_utc, ◌>>=◌, call, pure, attempt,
}
use sovereign_config.Server.Managed.Lifecycle.{in_state}
use sovereign_config.Server.Managed.Store.{
  stands_in, with_state, compare_and_set, transition_state, update_where,
}
use sovereign_config.Server.Managed.Store.Rows.{
  row_of, row_state, state_at, changed_if, find-update_where, row_of-named, names_iff,
}
use sovereign_config.Server.Managed.Provisioning
use sovereign_config.Server.Managed.Provisioning.{ManagedConnectionsService, credential_gone}
use sovereign_config.Server.Managed.Service
use sovereign_config.Server.Managed.Service.{settle_failed_rotation, credential_verdict}

-- Where each class of failure leaves the connection; a refusal goes by what the lookup of the
-- username's credentials answers.
pub data Settles
    : ProviderError
      → Result ProviderError (List CredentialId)
      → ManagedConnectionState
      → Type 0 where
  undelivered :
      {found : Result ProviderError (List CredentialId)} {e : ProviderError}
      {s : ManagedConnectionState}
      → e ≡ Provider.unavailable
      → s ≡ active
      → Settles e found s
  missing :
      {found : Result ProviderError (List CredentialId)} {e : ProviderError}
      {s : ManagedConnectionState}
      → e ≡ Provider.not_found
      → s ≡ cleanup_required
      → Settles e found s
  refused_gone :
      {found : Result ProviderError (List CredentialId)} {e : ProviderError}
      {s : ManagedConnectionState}
      → e ≡ Provider.rejected
      → found ≡ ok []
      → s ≡ cleanup_required
      → Settles e found s
  refused_current :
      {found : Result ProviderError (List CredentialId)} {e : ProviderError}
      {s : ManagedConnectionState} {c : CredentialId} {cs : List CredentialId}
      → e ≡ Provider.rejected
      → found ≡ ok (c ∷ cs)
      → s ≡ active
      → Settles e found s
  refused_unknown :
      {found : Result ProviderError (List CredentialId)} {e lookup : ProviderError}
      {s : ManagedConnectionState}
      → e ≡ Provider.rejected
      → found ≡ err lookup
      → s ≡ rotation_unknown
      → Settles e found s
  ambiguous_write :
      {found : Result ProviderError (List CredentialId)} {e : ProviderError}
      {s : ManagedConnectionState}
      → (e ≡ Provider.ambiguous) ⊎ (e ≡ Provider.invalid)
      → s ≡ rotation_unknown
      → Settles e found s

state_at-compare_and_set :
    (id : ConnectionId) (state : ManagedConnectionState) (now : OffsetDateTime) (tables : Tables)
    → state_at id tables ≡ in_state rotation_unknown
    → state_at id (record tables {
      connections =
          update_where
            (stands_in id rotation_unknown)
            (with_state (state_text state) now)
            tables.connections;
    })
      ≡ in_state state
unfolding state_at
state_at-compare_and_set id state now tables h =
    ap row_state (
      find-update_where (with_state (state_text state) now) (λ row. refl) id
        (stands_in id rotation_unknown) tables.connections)
    ∙ changed (row_of id tables.connections) refl h
  where
    changed :
        (found : Option ConnectionRow)
        → row_of id tables.connections ≡ found
        → row_state found ≡ in_state rotation_unknown
        → row_state
            (changed_if (stands_in id rotation_unknown) (with_state (state_text state) now) found)
          ≡ in_state state
    changed none e h = absurd (cc)
    changed (some row) e h =
        let stood : row.state ≡ state_text rotation_unknown = cc in
        let mine : row.connection_id ≡ id = row_of-named id tables.connections row e in
        let chosen : stands_in id rotation_unknown row ≡ true =
          unfold stands_in in
          (rw ((names_iff id row).1 mine)
            (rw stood (text_eq_refl (state_text rotation_unknown)))) in
        rw chosen refl

module _ {P : Type 0} (service : ManagedConnectionsService P) where
  settled :
      (id : ConnectionId) (gone : Bool) (w : World P)
      → w.others ≡ []
      → w.faults ≡ []
      → state_at id w.committed ≡ in_state rotation_unknown
      → state_at id (Service.settle service id (some gone) w).1.committed
        ≡ in_state (Service.settled_state gone)
  unfolding transition_state now_utc direct meanwhile compare_and_set attempt ◌>>=◌ pure
  settled id gone w alone faultless h =
      rw alone (
        rw faultless (state_at-compare_and_set id (Service.settled_state gone) w.now w.committed h))

  abbrev asked : Text → World P → World P
  asked username w = record w {
    provider = (service.provider.find_credentials username w.provider).1;
  }

  refused :
      (id : ConnectionId) (username : Text) (w : World P)
      (found : Result ProviderError (List CredentialId))
      → (service.provider.find_credentials username w.provider).0 ≡ found
      → (settle_failed_rotation service id username Provider.rejected w)
        ≡ Service.settle service id
            (Provisioning.gone_answer found)
            (record w { provider = (service.provider.find_credentials username w.provider).1 })
  unfolding settle_failed_rotation credential_verdict credential_gone call pure ◌>>=◌
  refused id username w found e = rw e refl

  -- Once the write of a rotation's credential has failed, and no statement fails and no other
  -- operation runs beside it, the connection is `active` where the failure proves the previous
  -- credential current, `cleanup_required` where it proves it gone, and else stays
  -- `rotation_unknown`; a refusal is settled by the lookup of the username's credentials.
  pub settle_failed_rotation-Settles :
      (id : ConnectionId) (username : Text) (e : ProviderError) (s : ManagedConnectionState)
      (w : World P)
      → w.others ≡ []
      → w.faults ≡ []
      → state_at id w.committed ≡ in_state rotation_unknown
      → Settles e (service.provider.find_credentials username w.provider).0 s
      → state_at id (settle_failed_rotation service id username e w).1.committed ≡ in_state s
  unfolding settle_failed_rotation credential_verdict pure ◌>>=◌
  settle_failed_rotation-Settles id username e s w alone faultless h (undelivered same into) =
      rw same (rw into (settled id false w alone faultless h))
  settle_failed_rotation-Settles id username e s w alone faultless h (missing same into) =
      rw same (rw into (settled id true w alone faultless h))
  settle_failed_rotation-Settles id username e s w alone faultless h
        (refused_gone same found into) =
      rw same (
        rw into (
          rw (refused id username w (ok []) found)
            (settled id true (asked username w) alone faultless h)))
  settle_failed_rotation-Settles id username e s w alone faultless h
        (refused_current same found into) =
      rw same (
        rw into (
          rw (refused id username w _ found)
            (settled id false (asked username w) alone faultless h)))
  settle_failed_rotation-Settles id username e s w alone faultless h
        (refused_unknown same found into) =
      rw same (rw into (rw (refused id username w _ found) h))
  settle_failed_rotation-Settles id username e s w alone faultless h
        (ambiguous_write (inl same) into) =
      rw same (rw into h)
  settle_failed_rotation-Settles id username e s w alone faultless h
        (ambiguous_write (inr same) into) =
      rw same (rw into h)
