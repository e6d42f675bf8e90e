-- ===== src/Server/Managed/Service/Lifecycle.antt =====
-- managed/service.rs and managed/provisioning.rs: the operations take every connection along its
-- lifecycle, whatever fails and whatever others do meanwhile.
use sovereign_config.Prelude.{refl, Bool, true, false, Option, none, some, ok, err, Text, Result}
use sovereign_config.Core.Path.{ConfigPath}
use sovereign_config.Core.Managed.{ConnectionId, active, rotation_unknown, cleanup_required}
use sovereign_config.Server.Rpc.{CallContext, Actor}
use sovereign_config.Server.Managed.Provider
use sovereign_config.Server.Managed.Provider.{
  ClientCredential, ProviderError, ProvisionedAccount, CredentialId, Answer,
}
use sovereign_config.Server.Managed.Exec.{Tables, ConnectionRow}
use sovereign_config.Server.Managed.Lifecycle.{in_state, Move, restored, lost}
use sovereign_config.Server.Managed.Lifecycle.Rules.{
  Stays, Stays-pure, Stays-lift, Stays-call, Stays-attempt, Stays-bind, stays_rules,
}
use sovereign_config.Server.Managed.Store.Lifecycle.{
  Stays-transition_state, Stays-transition_state_recorded, Stays-delete_connection_recorded,
}
use sovereign_config.Server.Managed.Wire.{dependency_error}
use sovereign_config.Server.Managed.Provisioning.{
  ManagedConnectionsService, credential_gone, credential_is_gone,
}
use sovereign_config.Server.Managed.Service
use sovereign_config.Server.Managed.Service.{
  not_permitted, create, may_rotate, begin_rotation, credential_verdict, settle_failed_rotation,
  report_rotated, rotate, claim_for_revocation, revocation_target, delete_account_confirmed,
  delete_target, revoke,
}
use sovereign_config.Server.Managed.Service.Marking.{
  Stays-begin_rotation, Stays-claim_for_revocation,
}

module _ {P : Type 0} (service : ManagedConnectionsService P) (start : Tables) where
  Stays-credential_is_gone : (username : Text) → Stays start (credential_is_gone service username)
  unfolding credential_is_gone credential_gone
  Stays-credential_is_gone username = search stays_rules depth 12

  Stays-settle :
      (id : ConnectionId) (verdict : Option Bool) → Stays start (Service.settle service id verdict)
  Stays-settle id none = Stays-pure start tt
  Stays-settle id (some true) =
      Stays-bind start _ _
        (Stays-attempt start _
          (Stays-transition_state start id rotation_unknown cleanup_required (lost refl refl)))
        (λ _. Stays-pure start tt)
  Stays-settle id (some false) =
      Stays-bind start _ _
        (Stays-attempt start _
          (Stays-transition_state start id rotation_unknown active (restored refl refl)))
        (λ _. Stays-pure start tt)

  Stays-credential_verdict :
      (username : Text) (error : ProviderError)
      → Stays start (credential_verdict service username error)
  unfolding credential_verdict credential_gone
  Stays-credential_verdict username Provider.not_found = Stays-pure start (some true)
  Stays-credential_verdict username Provider.rejected = search stays_rules depth 12
  Stays-credential_verdict username Provider.unavailable = Stays-pure start (some false)
  Stays-credential_verdict username Provider.ambiguous = Stays-pure start none
  Stays-credential_verdict username Provider.invalid = Stays-pure start none

  Stays-settle_failed_rotation :
      (id : ConnectionId) (username : Text) (error : ProviderError)
      → Stays start (settle_failed_rotation service id username error)
  unfolding settle_failed_rotation
  Stays-settle_failed_rotation id username error =
      Stays-bind start _ _ (Stays-credential_verdict username error)
        (λ verdict. Stays-settle id verdict)

  restores : Move (in_state rotation_unknown) (in_state active)
  restores = restored refl refl

  Stays-replaced :
      (id : ConnectionId) (row : ConnectionRow) (acting : Actor) (root : ConfigPath)
      (replacement : Result ProviderError ClientCredential)
      → Stays start (Service.replaced service id row acting root replacement)
  unfolding report_rotated
  Stays-replaced id row acting root (ok replacement) =
      search (stays_rules, Stays-transition_state_recorded, restores) depth 20
  Stays-replaced id row acting root (err error) =
      Stays-bind start _ _ (Stays-settle_failed_rotation id _ error)
        (λ _. Stays-lift start (err dependency_error))

  pub Stays-rotate :
      (context : CallContext) (connection_id : Text)
      → Stays start (rotate service context connection_id)
  unfolding rotate
  Stays-rotate context connection_id =
      search (stays_rules, Stays-begin_rotation, Stays-replaced) depth 20

  Stays-confirmed_gone : (gone : Bool) → Stays start (Service.confirmed_gone service gone)
  Stays-confirmed_gone true = Stays-pure start tt
  Stays-confirmed_gone false = Stays-lift start (err dependency_error)

  Stays-target_of :
      (username : Text) (account : Option Text)
      → Stays start (Service.target_of service username account)
  Stays-target_of username (some account) = Stays-pure start (some account)
  Stays-target_of username none =
      Stays-bind start _ _ (Stays-call start (service.provider.find_account username))
        (λ found. probed found)
    where
      probed :
          (found : Result ProviderError (Option Text))
          → Stays start (Service.probed service username found)
      probed (ok found) = Stays-pure start found
      probed (err _) = search (stays_rules, Stays-credential_is_gone, Stays-confirmed_gone) depth 12

  Stays-delete_target :
      (username : Text) (target : Option Text) → Stays start (delete_target service username target)
  unfolding delete_target delete_account_confirmed
  Stays-delete_target username none = Stays-pure start tt
  Stays-delete_target username (some account) =
      Stays-bind start _ _ (Stays-call start (service.provider.delete_account account))
        (λ deletion. confirmed deletion)
    where
      confirmed :
          (deletion : Result ProviderError (Unit {0}))
          → Stays start (Service.confirmed service username deletion)
      confirmed (ok _) = Stays-pure start tt
      confirmed (err _) =
          search (stays_rules, Stays-credential_is_gone, Stays-confirmed_gone) depth 12

  pub Stays-revoke :
      (context : CallContext) (connection_id : Text)
      → Stays start (revoke service context connection_id)
  unfolding revoke revocation_target
  Stays-revoke context connection_id =
      search
        (
          stays_rules, Stays-claim_for_revocation, Stays-target_of, Stays-delete_target,
          Stays-delete_connection_recorded,
        )
        depth 20
