-- ===== src/Server/Managed/Tests/Late.antt =====
-- A provider whose creations land late, and a creation through it.
use sovereign_config.Prelude.{
  ◌≡◌, refl, sym, subst, ◌⊎◌, inl, inr, Bool, true, false, not, ◌&&◌, Option, none, some, [], ◌∷◌,
  arith, if◌then◌else◌, ok, err, any, keep_if, Text, codes, text_eq, text_eq_sound, Result,
}
use sovereign_config.Server.Managed.Provider.{ProviderError, AccountId, ManagedIdentityProvider}
use sovereign_config.Server.Managed.Provider
use sovereign_config.Server.Managed.Provider.Contract.{Creation}
use sovereign_config.Server.Managed.Exec.{World}
use sovereign_config.Server.Managed.Store.Tracking.{Tracked}
use sovereign_config.Server.Managed.Provisioning.{ManagedConnectionsService}
use sovereign_config.Server.Managed.Service.{create}
use sovereign_config.Server.Managed.Service.Orphans.{create-Tracked}
use sovereign_config.Server.Managed.Tests.{
  Accounts, has, credential, Owns, has-keep_if, has-deleted, has-create, found_name, small_urls,
  manager,
}
use sovereign_config.Server.Managed.Tests.Witnesses.{run, reading_only}

-- The accounts that are there, and those whose creation has not landed yet.
record Late : Type 0 where
  accounts : Accounts
  coming : Accounts

-- A creation times out, and lands some time after the reconciliation.
abbrev late_provider : ManagedIdentityProvider Late
late_provider = record {
  create_account = λ u p. (err Provider.ambiguous, record p { coming = u ∷ p.coming });
  grant = λ a g p. (err Provider.rejected, p);
  assign_browse_group = λ a p. (ok tt, p);
  rename_account = λ a name p. (ok tt, p);
  find_account = λ u p. (ok (if not (has u p.coming) && has u p.accounts then some u else none), p);
  find_credentials = λ u p. (ok (if has u p.accounts then u ∷ [] else []), p);
  replace_credential = λ c p. (ok credential, p);
  delete_account =
      λ a p. (ok tt, record p { accounts = keep_if (λ v. not (text_eq v a)) p.accounts });
}

abbrev MayLive : Text → Late → Type 0
MayLive u p = (has u p.accounts ≡ true) ⊎ (has u p.coming ≡ true)

abbrev Visible : AccountId → Late → Type 0
Visible a p = has a p.coming ≡ false

late_provider-Creation : Creation late_provider MayLive Owns Visible
late_provider-Creation = record {
  created = λ u p a h. absurd (cc);
  creates_only = λ u p v h. elim h [
    | inl there ↦ inl (inl there)
    | inr coming ↦ elim (has-create u v p.coming coming) [
      | inl before ↦ inl (inr before)
      | inr same ↦ inr same
    ]
  ];
  not_created = λ u p e h late invalid. absurd (late (cc));
  found = λ u p a h.
      let (owns, landed) = found_landed (has u p.coming) (has u p.accounts) u a h in
      (owns, subst (λ (t : Text). has t p.coming ≡ false) (sym owns) landed);
  find_account_quiet = λ u p v h. h;
  find_credentials_quiet = λ u p v h. h;
  find_credentials_visible = λ u p a h. h;
  grant_quiet = λ a g p v h. h;
  grant_visible = λ a g p b h. h;
  group_quiet = λ a p v h. h;
  group_visible = λ a p b h. h;
  delete_quiet = λ a p v h. elim h [
    | inl there ↦ inl (has-keep_if a v p.accounts there)
    | inr coming ↦ inr coming
  ];
  deleted = λ a p u landed h owns live.
      elim (subst
        (λ (t : Text).
          MayLive t (record p { accounts = keep_if (λ v. not (text_eq v a)) p.accounts }))
        (sym owns) live) [
          | inl there ↦ cc (has-deleted a p.accounts, there)
          | inr coming ↦ cc (landed, coming)
        ];
  already_deleted = λ a p u seen h. absurd (cc);
}
  where
    found_landed :
        (coming there : Bool) (u a : Text)
        → ◌≡◌ {A = Result ProviderError (Option Text)}
            (ok (if not coming && there then some u else none))
            (ok (some a))
        → (a ≡ u) × (coming ≡ false)
    found_landed true there u a h = absurd (cc)
    found_landed false there u a h = (found_name there u a h, refl)

abbrev late_service : ManagedConnectionsService Late
late_service = record {
  provider = late_provider;
  urls = small_urls;
  sha256 = λ t. codes "aaaaaaaaaaaaaaaaaaaaaaaaaaaaaaaaaaaaaaaaaaaaaaaaaaaaaaaaaaaaaaaa";
  coalesce_window = 60;
  public_origin = codes "h";
  issuer = codes "/";
  rotation_lease = 60;
}

-- The account `x` is another's.
abbrev late_world : World Late
late_world = record {
  committed = record { connections = []; events = [] };
  working = record { connections = []; events = [] };
  provider = record { accounts = codes "x" ∷ []; coming = [] };
  now = 5000000000;
  others = [];
  faults = [];
  entropy = codes "HHHHHHHHHHHHHHHHHHHHHHHHHHHHHHHHHHHHHHHHHHHHHHHHHHHHHHHHHHHHHHHH" ∷ [];
}

abbrev account : Text
account = codes "sc-managed-build-aaaaaaaaaaaaaaaaaaaaaaaaaaaaaaaa"

abbrev Other : Text → Type 0
Other u = u ≡ codes "x"

only-Other : (u : Text) → MayLive u late_world.provider → Other u ⊎ Tracked u []
unfolding any
only-Other u (inl there) = inl (sym (text_eq_sound (codes "x") u (ground (arith, there))))
only-Other u (inr coming) = absurd (cc)

-- The account that is still to land is tracked, after three lookups that found nothing.
create-Tracked_example :
    Other account
    ⊎ Tracked account
        (create late_service manager
          (codes "Build")
          (codes "/")
          (some reading_only)
          late_world).1.committed.connections
unfolding run
create-Tracked_example =
    create-Tracked late_service MayLive Owns Visible late_provider-Creation Other manager
      (codes "Build") (codes "/") (some reading_only) late_world refl only-Other account (inr refl)
