-- ===== src/Server/Managed/Provider/Contract.antt =====
-- What crates/sovereign-config-identity/src/lib.rs documents of an identity provider, as far as a
-- revocation (`Contract`) and a creation (`Creation`) rely on it. `Live u p` says that the provider
-- in the state `p` holds a usable credential under the username `u`; `MayLive u p` that it does, or
-- that a creation that was called may still land and make it so. `Owns a u` says that `a` is the
-- account that a creation called `u`, and `Visible a p` that the account `a` has come to be and
-- nothing hides it from the service.
use sovereign_config.Prelude.{◌≡◌, ◌≢◌, ◌⊎◌, some, [], ok, err, Text}
use sovereign_config.Server.Managed.Provider.{
  ProviderError, ProvisionedAccount, AccountId, AccountGrant, CredentialId, ManagedIdentityProvider,
}
use sovereign_config.Server.Managed.Provider

-- What a successful answer proves of the credentials under a username at that time.
pub record Contract {P : Type 0} (provider : ManagedIdentityProvider P) (Live : Text → P → Type 0)
    (Owns : AccountId → Text → Type 0) : Type 0 where
  pub deleted :
      (a : AccountId) (p : P) (u : Text)
      → (provider.delete_account a p).0 ≡ ok tt
      → Owns a u
      → ¬ Live u (provider.delete_account a p).1
  pub none_left :
      (u : Text) (p : P)
      → (provider.find_credentials u p).0 ≡ ok []
      → ¬ Live u (provider.find_credentials u p).1

-- A call that no account comes from, at once or later: what lands in its course was to land.
abbrev pub Quiet : {P : Type 0} → (Text → P → Type 0) → P → P → Type 0
Quiet MayLive before after = (u : Text) → MayLive u after → MayLive u before

-- A creation may land long after its call, whatever the lookups in between have found. Only an
-- error that says that the request was not applied excludes that, or the account itself: what
-- was created or found has landed, so that after its deletion nothing of it is to come.
pub record Creation {P : Type 0} (provider : ManagedIdentityProvider P)
    (MayLive : Text → P → Type 0) (Owns : AccountId → Text → Type 0)
    (Visible : AccountId → P → Type 0) : Type 0 where
  pub created :
      (u : Text) (p : P) (a : ProvisionedAccount)
      → (provider.create_account u p).0 ≡ ok a
      → Owns a.account u × Visible a.account (provider.create_account u p).1
  pub creates_only :
      (u : Text) (p : P) (v : Text)
      → MayLive v (provider.create_account u p).1
      → MayLive v p ⊎ (v ≡ u)
  pub not_created :
      (u : Text) (p : P) (e : ProviderError)
      → (provider.create_account u p).0 ≡ err e
      → e ≢ Provider.ambiguous
      → e ≢ Provider.invalid
      → Quiet MayLive p (provider.create_account u p).1
  pub found :
      (u : Text) (p : P) (a : AccountId)
      → (provider.find_account u p).0 ≡ ok (some a)
      → Owns a u × Visible a (provider.find_account u p).1
  pub find_account_quiet : (u : Text) (p : P) → Quiet MayLive p (provider.find_account u p).1
  pub find_credentials_quiet :
      (u : Text) (p : P) → Quiet MayLive p (provider.find_credentials u p).1
  pub find_credentials_visible :
      (u : Text) (p : P) (a : AccountId) → Visible a p → Visible a (provider.find_credentials u p).1
  pub grant_quiet :
      (a : AccountId) (g : AccountGrant) (p : P) → Quiet MayLive p (provider.grant a g p).1
  pub grant_visible :
      (a : AccountId) (g : AccountGrant) (p : P) (b : AccountId)
      → Visible b p
      → Visible b (provider.grant a g p).1
  pub group_quiet : (a : AccountId) (p : P) → Quiet MayLive p (provider.assign_browse_group a p).1
  pub group_visible :
      (a : AccountId) (p : P) (b : AccountId)
      → Visible b p
      → Visible b (provider.assign_browse_group a p).1
  pub delete_quiet : (a : AccountId) (p : P) → Quiet MayLive p (provider.delete_account a p).1
  pub deleted :
      (a : AccountId) (p : P) (u : Text)
      → Visible a p
      → (provider.delete_account a p).0 ≡ ok tt
      → Owns a u
      → ¬ MayLive u (provider.delete_account a p).1
  pub already_deleted :
      (a : AccountId) (p : P) (u : Text)
      → Visible a p
      → (provider.delete_account a p).0 ≡ err Provider.not_found
      → Owns a u
      → ¬ MayLive u (provider.delete_account a p).1
