-- ===== src/Server/Managed/Provisioning/Completion.antt =====
-- managed/provisioning.rs `complete_provisioning`: it stays in a phase in which the row is held, as
-- far as the provider's calls in it stay in the phase.
use sovereign_config.Prelude.{ℕ, Text}
use sovereign_config.Core.Path.{ConfigPath}
use sovereign_config.Core.Managed.{ConnectionId, ManagedPermissions, provisioning, active}
use sovereign_config.Server.Rpc.{Actor}
use sovereign_config.Server.Audit.Events.{AuditEvent}
use sovereign_config.Server.Audit.Store.{Hash}
use sovereign_config.Server.Managed.Provider.{
  AccountId, AccountGrant, CredentialId, ProvisionedAccount,
}
use sovereign_config.Server.Managed.Exec.{call}
use sovereign_config.Server.Managed.Exec.Phases.{Holds, Holds-pure, Holds-lift, Holds-bind}
use sovereign_config.Server.Managed.Store.{
  record_provider_user, record_credential_identifier, transition_state_recorded,
}
use sovereign_config.Server.Managed.Store.Tracking.{Held}
use sovereign_config.Server.Managed.Provisioning.{
  ManagedConnectionsService, AccountName, assign_managed_group, configure_account,
  complete_provisioning,
}
use sovereign_config.Server.Managed.Store.Holding.{
  Holds-record_provider_user, Holds-record_credential_identifier, Holds-transition_state_recorded,
}

module _ {P : Type 0} (service : ManagedConnectionsService P) (Prov : P → Type 0)
    (id : ConnectionId) (name : Text) (Others : Text → Type 0)
    (asks : (u : Text)
      → Holds Prov (Held id name Others) (call (service.provider.find_credentials u)))
    (grants : (b : AccountId) (g : AccountGrant)
      → Holds Prov (Held id name Others) (call (service.provider.grant b g)))
    (groups : (b : AccountId)
      → Holds Prov (Held id name Others) (call (service.provider.assign_browse_group b))) where
  Holds-identifier :
      (identifier : CredentialId)
      → Holds Prov (Held id name Others) (record_credential_identifier id identifier)
  Holds-identifier identifier = Holds-record_credential_identifier Prov id name Others identifier

  Holds-configure :
      (acct : AccountName) (root : ConfigPath) (permissions : ManagedPermissions)
      (account : AccountId)
      → Holds Prov
          (Held id name Others)
          (configure_account service id acct root permissions account)
  unfolding configure_account assign_managed_group
  Holds-configure acct root permissions account =
      search (Holds-bind, Holds-lift, Holds-pure, asks, grants, groups, Holds-identifier) depth 20

  Holds-user :
      (account : ProvisionedAccount)
      → Holds Prov (Held id name Others) (record_provider_user id account)
  Holds-user account = Holds-record_provider_user Prov id name Others account

  Holds-activated :
      (sha256 : Hash) (window : ℕ) (actor : Actor) (event : AuditEvent)
      → Holds Prov
          (Held id name Others)
          (transition_state_recorded sha256 window id provisioning active actor event)
  Holds-activated sha256 window actor event =
      Holds-transition_state_recorded Prov id name Others sha256 window provisioning active actor
        event

  pub Holds-complete_provisioning :
      (acct : AccountName) (root : ConfigPath) (permissions : ManagedPermissions)
      (account : ProvisionedAccount) (actor : Actor) (event : AuditEvent)
      → Holds Prov
          (Held id name Others)
          (complete_provisioning service id acct root permissions account actor event)
  unfolding complete_provisioning
  Holds-complete_provisioning acct root permissions account actor event =
      search (Holds-bind, Holds-lift, Holds-pure, Holds-user, Holds-configure, Holds-activated)
        depth 20
