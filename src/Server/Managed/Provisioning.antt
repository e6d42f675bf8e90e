-- ===== src/Server/Managed/Provisioning.antt =====
-- managed/provisioning.rs: the provider's part of a creation, and what undoes or reconciles it.
pub mod Completion
pub mod Orphans
use sovereign_config.Prelude.{
  ℕ, zero, suc, ◌+◌, ◌-◌, ◌*◌, ◌/◌, ◌%◌, ◌^◌, ◌≤◌, ◌<◌, min, max, String, ◌≡◌, refl, sym, ap, ◌∙◌,
  subst, ◌≡⟨◌⟩◌, ◌∎, ◌≢◌, ◌↔◌, ◌⊎◌, inl, inr, Bool, true, false, not, ◌&&◌, ◌||◌, Option, none,
  some, List, [], ◌∷◌, ◌++◌, map, append_assoc, append-nil, arith, ltb, leb, ◌==◌, if◌then◌else◌,
  ==_iff, Bool-cases, Option-cases, is_some, is_none, get_or, All, Any, here, ok, err, there,
  length, is_empty, take, drop, get_elem?, all, any, keep_if, length-append, length-take-le,
  take-append_length, drop-append_length, take-append-drop, all-append, all_iff, any_sound,
  any_complete, any-not, All-append, All-left, All-right, All-keep_if, All-map_of, insert_by,
  sort_by, find, filter_map, All-sort_by, All-filter_map, Text, codes, slash, text_eq, text_eq_refl,
  text_eq_sound, text_eq_iff, lower, fold, eq_ignore_ascii_case, strip_prefix, starts_with,
  contains, extend_head, split, trim_start_matches, join, rsplit_once, is_ascii_lowercase,
  is_ascii_uppercase, is_ascii_alphabetic, is_ascii_digit, is_control, concat, decimal_digits,
  decimal, text_le, Result, ok_or, map_err, is_ok, map_err-eq-ok, ok_or-eq-ok, Result-cases,
  lower_idem, lower-eq_slash, fold_idem, fold-append, length-fold, strip_prefix-append,
  strip_prefix_sound, starts_with-append, starts_with_sound, extend_head-map-fold, split-fold,
  split-ne-nil, join-split, split_part, split-append, split_free, contains-append,
}
use sovereign_config.Core.Path.{ConfigPath}
use sovereign_config.Core.Connection.{UrlCrates, ConnectionUrl, ConnectionUrlError, managed_url}
use sovereign_config.Core.Managed.{
  ConnectionId, ManagedConnectionState, ManagedPermissions, provisioning, active, cleanup_required,
  grant_tokens,
}
use sovereign_config.Server.Rpc.{Status, status, unavailable, Actor}
use sovereign_config.Server.Audit.Events.{AuditEvent}
use sovereign_config.Server.Audit.Store.{Hash}
use sovereign_config.Server.Managed.Identity.{internal_error}
use sovereign_config.Server.Managed.Provider.{
  ProviderError, AccountId, CredentialId, ClientCredential, ProvisionedAccount, AccountGrant,
  ManagedIdentityProvider,
}
use sovereign_config.Server.Managed.Provider
use sovereign_config.Server.Managed.Exec.{
  ConnectionRow, Exec, pure, lift, ◌>>=◌, call, attempt, pause,
}
use sovereign_config.Server.Managed.Store.{
  record_provider_user, record_credential_identifier, transition_state, transition_state_recorded,
  delete_row,
}
use sovereign_config.Server.Managed.Wire.{ProvisionedConnection, metadata, dependency_error}

-- The service with its settings; the lease is in nanoseconds.
pub record ManagedConnectionsService (P : Type 0) : Type 0 where
  pub provider : ManagedIdentityProvider P
  pub urls : UrlCrates
  pub sha256 : Hash
  pub coalesce_window : ℕ
  pub public_origin : Text
  pub issuer : Text
  pub rotation_lease : ℕ

abbrev pub create_reconciliation_attempts : ℕ
create_reconciliation_attempts = 3

abbrev pub cleanup_message : Status
cleanup_message = status unavailable "managed connection requires cleanup"

pub record AccountName : Type 0 where
  pub username : Text
  pub display_name : Text

-- A failed call is the caller's `dependency_error`.
abbrev pub or_dependency {ℓ} : {A : Type ℓ} → Result ProviderError A → Result Status A
or_dependency (ok a) = ok a
or_dependency (err _) = err dependency_error

-- The one credential of a lookup that names exactly one.
abbrev single_credential : Result ProviderError (List CredentialId) → Result Status CredentialId
single_credential (ok (identifier ∷ [])) = ok identifier
single_credential _ = err dependency_error

-- What an answer of `find_credentials` says of the credential.
abbrev pub gone_answer : Result ProviderError (List CredentialId) → Option Bool
gone_answer (ok identifiers) = some (is_empty identifiers)
gone_answer (err _) = none

abbrev pub is_true : Option Bool → Bool
is_true (some true) = true
is_true _ = false

-- The two outcomes after which the account is taken to be deleted.
abbrev pub deleted_now : Result ProviderError (Unit {0}) → Bool
deleted_now (ok _) = true
deleted_now (err Provider.not_found) = true
deleted_now (err _) = false

-- `ProviderError::Ambiguous | ProviderError::Invalid`
abbrev pub may_have_applied : ProviderError → Bool
may_have_applied Provider.ambiguous = true
may_have_applied Provider.invalid = true
may_have_applied _ = false

module _ {P : Type 0} (service : ManagedConnectionsService P) where
  unfoldable pub cleanup_required_status : ConnectionId → Exec P Status
  unfolding ◌>>=◌ attempt transition_state pure
  cleanup_required_status id =
      attempt (transition_state id provisioning cleanup_required) >>= λ _. pure cleanup_message

  unfoldable pub credential_gone : Text → Exec P (Option Bool)
  unfolding ◌>>=◌ call pure
  credential_gone username =
      call (service.provider.find_credentials username) >>= λ found. pure (gone_answer found)

  unfoldable pub credential_is_gone : Text → Exec P Bool
  unfolding ◌>>=◌ credential_gone pure
  credential_is_gone username = credential_gone username >>= λ gone. pure (is_true gone)

  abbrev pub after_row_deleted : ConnectionId → Status → Bool → Exec P Status
  after_row_deleted id failure true = pure failure
  after_row_deleted id failure false = cleanup_required_status id

  abbrev pub after_account_deleted : ConnectionId → Status → Bool → Exec P Status
  after_account_deleted id failure false = cleanup_required_status id
  after_account_deleted id failure true =
      delete_row id >>= λ removed. after_row_deleted id failure removed

  unfoldable pub compensate_created_account : ConnectionId → AccountId → Status → Exec P Status
  unfolding ◌>>=◌ call delete_row cleanup_required_status pure
  compensate_created_account id account failure =
      call (service.provider.delete_account account) >>= λ deletion.
      after_account_deleted id failure (deleted_now deletion)

  -- The delay before a probe that is not the first.
  abbrev pub delay : Bool → Exec P (Unit {0})
  delay true = pure tt
  delay false = pause

  -- What a probe found; `again` is the rest of the probes.
  abbrev pub after_probe :
      ConnectionId → Exec P Status → Result ProviderError (Option AccountId) → Exec P Status
  after_probe id again (ok (some account)) = compensate_created_account id account dependency_error
  after_probe id again (ok none) = again
  after_probe id again (err _) = cleanup_required_status id

  -- The probes of the reconciliation that are left.
  unfoldable pub reconcile : ConnectionId → Text → Bool → ℕ → Exec P Status
  unfolding ◌>>=◌ pure pause call compensate_created_account cleanup_required_status
  reconcile id username first zero = cleanup_required_status id
  reconcile id username first (suc attempts) = delay first >>= λ _.
      call (service.provider.find_account username) >>= λ found.
      after_probe id (reconcile id username false attempts) found

  abbrev pub recover : ConnectionId → Text → Bool → Exec P Status
  recover id username true = reconcile id username true create_reconciliation_attempts
  recover id username false = delete_row id >>= λ _. pure dependency_error

  unfoldable pub recover_ambiguous_create : ConnectionId → Text → ProviderError → Exec P Status
  unfolding ◌>>=◌ delete_row pure reconcile
  recover_ambiguous_create id username error = recover id username (may_have_applied error)

  unfoldable pub assign_managed_group : AccountId → Exec P (Unit {0})
  unfolding ◌>>=◌ call pure
  assign_managed_group account =
      call (service.provider.assign_browse_group account) >>= λ _. pure tt

  unfoldable pub configure_account :
      ConnectionId → AccountName → ConfigPath → ManagedPermissions → AccountId → Exec P (Unit {0})
  unfolding ◌>>=◌ call lift record_credential_identifier assign_managed_group grant_tokens
  configure_account id name root permissions account =
      call (service.provider.find_credentials name.username) >>= λ identifiers.
      lift (single_credential identifiers) >>= λ identifier.
      record_credential_identifier id identifier >>= λ _.
      call (
        service.provider.grant account (record {
          connection_id = id;
          display_name = name.display_name;
          root = root.path;
          permissions = grant_tokens permissions;
        }))
      >>= λ granted. lift (or_dependency granted) >>= λ _. assign_managed_group account

  unfoldable pub connection_url : ConfigPath → Text → ClientCredential → Result Status ConnectionUrl
  unfolding managed_url
  connection_url root username credential =
      map_err
        (managed_url service.urls service.public_origin root service.issuer credential.client_id
          username credential.secret)
        internal_error

  unfoldable pub complete_provisioning :
      ConnectionId
      → AccountName
      → ConfigPath
      → ManagedPermissions
      → ProvisionedAccount
      → Actor
      → AuditEvent
      → Exec P (ConnectionRow × ConnectionUrl)
  unfolding ◌>>=◌ record_provider_user configure_account lift connection_url
      transition_state_recorded pure
  complete_provisioning id name root permissions account actor event =
      record_provider_user id account >>= λ _.
      configure_account id name root permissions account.account >>= λ _.
      lift (connection_url root name.username account.credential) >>= λ url.
      transition_state_recorded service.sha256 service.coalesce_window id provisioning active actor
        event
      >>= λ moved. lift (ok_or moved internal_error) >>= λ row. pure (row, url)

  abbrev pub completed :
      ConnectionId
      → AccountId
      → Result Status (ConnectionRow × ConnectionUrl)
      → Exec P ProvisionedConnection
  completed id account (ok (row, url)) =
      lift (metadata row) >>= λ shown. pure (record { metadata = shown; connection_url = url })
  completed id account (err failure) =
      compensate_created_account id account failure >>= λ answer. lift (err answer)

  abbrev pub provision_account :
      ConnectionId
      → AccountName
      → ConfigPath
      → ManagedPermissions
      → Actor
      → AuditEvent
      → Result ProviderError ProvisionedAccount
      → Exec P ProvisionedConnection
  provision_account id name root permissions actor event (err error) =
      recover_ambiguous_create id name.username error >>= λ answer. lift (err answer)
  provision_account id name root permissions actor event (ok account) =
      attempt (complete_provisioning id name root permissions account actor event) >>= λ outcome.
      completed id account.account outcome

  unfoldable pub provision_inserted :
      ConnectionId
      → AccountName
      → ConfigPath
      → ManagedPermissions
      → Actor
      → AuditEvent
      → Exec P ProvisionedConnection
  unfolding ◌>>=◌ call recover_ambiguous_create attempt complete_provisioning
      compensate_created_account lift metadata pure
  provision_inserted id name root permissions actor event =
      call (service.provider.create_account name.username) >>= λ created.
      provision_account id name root permissions actor event created
