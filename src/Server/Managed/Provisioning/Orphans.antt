-- ===== src/Server/Managed/Provisioning/Orphans.antt =====
-- managed/provisioning.rs: a creation leaves no account, live or yet to land, that no row leads to, whichever step
-- fails, so long as the provider honours its contract and no other operation runs beside it.
use sovereign_config.Prelude.{
  ℕ, zero, suc, ◌≡◌, refl, sym, subst, ◌⊎◌, inl, inr, Bool, true, false, Option, none, some, arith,
  ok, err, Text, Result, is_ok,
}
use sovereign_config.Core.Path.{ConfigPath}
use sovereign_config.Core.Connection.{ConnectionUrl}
use sovereign_config.Core.Managed.{ConnectionId, ManagedPermissions}
use sovereign_config.Server.Rpc.{Status, Actor}
use sovereign_config.Server.Audit.Events.{AuditEvent}
use sovereign_config.Server.Managed.Identity.{managed_username}
use sovereign_config.Server.Managed.Provider
use sovereign_config.Server.Managed.Provider.{
  ProviderError, AccountId, AccountGrant, CredentialId, ProvisionedAccount,
}
use sovereign_config.Server.Managed.Provider.Contract.{Creation}
use sovereign_config.Server.Managed.Exec.{
  World, Tables, ConnectionRow, Exec, lift, call, direct, meanwhile, tick,
}
use sovereign_config.Server.Managed.Exec.Rules.{
  Triple, Outcome, Triple-bind, Triple-pure, Triple-lift, Triple-call, Triple-direct, Triple-imply,
  Triple-weaken_fail, Triple-attempt,
}
use sovereign_config.Server.Managed.Exec.Phases.{
  Phase, Phase-meanwhile, Holds, Holds-pure, Holds-lift, Holds-call, Holds-attempt, Holds-bind,
  Holds-pause,
}
use sovereign_config.Server.Managed.Store.{delete_where, delete_connection, delete_row}
use sovereign_config.Server.Managed.Store.Lifecycle.{some_eq}
use sovereign_config.Server.Managed.Store.Tracking.{
  Tracked, Elsewhere-Tracked, Held, Held-Tracked, Elsewhere-keep_if,
}
use sovereign_config.Server.Managed.Wire.{metadata, dependency_error}
use sovereign_config.Server.Managed.Provisioning
use sovereign_config.Server.Managed.Provisioning.{
  ManagedConnectionsService, AccountName, cleanup_message, cleanup_required_status,
  compensate_created_account, reconcile, recover_ambiguous_create, assign_managed_group,
  configure_account, complete_provisioning, provision_inserted, connection_url,
  create_reconciliation_attempts,
}
use sovereign_config.Server.Managed.Provisioning.Completion.{Holds-complete_provisioning}
use sovereign_config.Server.Managed.Store.Holding.{Holds-cleanup_required}

module _ {P : Type 0} (service : ManagedConnectionsService P) (MayLive : Text → P → Type 0)
    (Owns : AccountId → Text → Type 0) (Visible : AccountId → P → Type 0)
    (contract : Creation service.provider MayLive Owns Visible) (id : ConnectionId) (name : Text)
    (B Others : Text → Type 0) where
  -- What may be live beside the account of `id`, and that the account itself may be.
  abbrev Gone : P → Type 0
  Gone p = (u : Text) → MayLive u p → B u ⊎ Others u

  abbrev Mine : P → Type 0
  Mine p = (u : Text) → MayLive u p → (B u ⊎ Others u) ⊎ (u ≡ managed_username id name)

  abbrev Seen : AccountId → P → Type 0
  Seen a p = Mine p × Visible a p

  abbrev Rows : Tables → Type 0
  Rows tables = Held id name Others tables

  -- Every live account is another's or some row leads to it.
  abbrev Accounted : World P → Type 0
  Accounted w = (u : Text) → MayLive u w.provider → B u ⊎ Tracked u w.committed.connections

  base_accounted :
      (tables : Tables)
      → Rows tables
      → (u : Text) → B u ⊎ Others u
      → B u ⊎ Tracked u tables.connections
  base_accounted tables h u (inl b) = inl b
  base_accounted tables h u (inr o) = inr (Elsewhere-Tracked id u (h.others u o))

  Mine-Accounted : (w : World P) → Phase Mine Rows w → Accounted w
  Mine-Accounted w p u live = elim (p.provider u live) [
    | inl base ↦ base_accounted w.committed p.tables u base
    | inr own ↦ inr (
        subst (λ (v : Text). Tracked v w.committed.connections) (sym own)
          (Held-Tracked id name Others w.committed p.tables))
  ]

  Mine-Gone : (w : World P) → Phase Gone Rows w → Phase Mine Rows w
  Mine-Gone w p = record {
    alone = p.alone;
    provider = λ u live. inl (p.provider u live);
    tables = p.tables;
  }

  Mine-Seen : (a : AccountId) (w : World P) → Phase (Seen a) Rows w → Phase Mine Rows w
  Mine-Seen a w p = record { alone = p.alone; provider = p.provider.0; tables = p.tables }

  -- From the phase `Prov` on, `m` accounts for every live account in the end.
  record Ends (Prov : P → Type 0) {A : Type 0} (m : Exec P A) : Type 0 where
    triple : Triple (Phase Prov Rows) m (λ _. Accounted) Accounted

  Ends-Holds : {A : Type 0} (m : Exec P A) → Holds Mine Rows m → Ends Mine m
  Ends-Holds {A = A} m k = record { triple = record { at = λ w p. ended (m w) (k.triple.at w p) } }
    where
      ended :
          (r : Result Status A × World P)
          → Outcome (λ _. Phase Mine Rows) (Phase Mine Rows) r
          → Outcome (λ _. Accounted) Accounted r
      ended (ok a, w) p = Mine-Accounted w p
      ended (err e, w) p = Mine-Accounted w p

  Accounted-lift :
      {A : Type 0} (r : Result Status A)
      → Triple Accounted (lift {P = P} r) (λ _. Accounted) Accounted
  Accounted-lift r = Triple-lift r (λ a w h p. p) (λ w p. p)

  -- Deleting the row once the account is gone.
  ends_delete_row :
      Triple
        (Phase Gone Rows)
        (delete_row {P = P} id)
        (λ removed w. Accounted w × (removed ≡ false → Phase Mine Rows w))
        Accounted
  unfolding delete_row delete_connection delete_where
  ends_delete_row =
      Triple-bind (λ outcome w. Accounted w × (is_ok outcome ≡ false → Phase Mine Rows w)) _ _
        (Triple-attempt (direct (delete_where id)) (
          Triple-direct (delete_where id)
            (λ w a tables p e.
              let q = Phase-meanwhile Gone Rows w p in
              (
                subst
                    (λ (t : Tables).
                      (u : Text) → MayLive u (meanwhile w).provider → B u ⊎ Tracked u t.connections)
                    (some_eq e)
                    (λ u live. elim (q.provider u live) [
                      | inl b ↦ inl b
                      | inr o ↦ inr (Elsewhere-keep_if id u (q.tables.others u o))
                    ]),
                λ h. absurd (cc),
              ))
            (λ w p e.
              let q = Phase-meanwhile Gone Rows w p in
              let r : Phase Gone Rows (tick (meanwhile w)) = record {
                alone = q.alone;
                provider = q.provider;
                tables = q.tables;
              } in
              (Mine-Accounted _ (Mine-Gone _ r), λ h. Mine-Gone _ r))))
        (λ outcome. Triple-pure (is_ok outcome) (λ w p. p))

  abbrev own : Text
  own = managed_username id name

  ends_row_deleted :
      (failure : Status) (removed : Bool)
      → Triple
          (λ w. Accounted w × (removed ≡ false → Phase Mine Rows w))
          (Provisioning.after_row_deleted service id failure removed)
          (λ _. Accounted)
          Accounted
  ends_row_deleted failure true = Triple-pure failure (λ w (p, k). p)
  ends_row_deleted failure false =
      Triple-imply _ (Ends-Holds _ (Holds-cleanup_required Mine id name Others service)).triple
        (λ w (p, k). k refl)

  ends_account_deleted :
      (failure : Status) (deleted : Bool)
      → Triple
          (λ w. Phase Mine Rows w × (deleted ≡ true → Phase Gone Rows w))
          (Provisioning.after_account_deleted service id failure deleted)
          (λ _. Accounted)
          Accounted
  ends_account_deleted failure false =
      Triple-imply _ (Ends-Holds _ (Holds-cleanup_required Mine id name Others service)).triple
        (λ w (p, k). p)
  ends_account_deleted failure true =
      Triple-bind (λ removed w. Accounted w × (removed ≡ false → Phase Mine Rows w)) _ _
        (Triple-imply _ ends_delete_row (λ w (p, k). k refl))
        (λ removed. ends_row_deleted failure removed)

  -- What the deletion's answer proves of the account.
  Gone-after :
      (a : AccountId) (p : P)
      → Owns a (managed_username id name)
      → Seen a p
      → Provisioning.deleted_now (service.provider.delete_account a p).0 ≡ true
      → Gone (service.provider.delete_account a p).1
  Gone-after a p owns (mine, visible) deleted u live =
      elim (mine u (contract.delete_quiet a p u live)) [
        | inl base ↦ base
        | inr same ↦ absurd (
            dead (service.provider.delete_account a p).0 refl deleted
              (subst (λ (v : Text). MayLive v (service.provider.delete_account a p).1) same live))
      ]
    where
      dead :
          (r : Result ProviderError (Unit {0}))
          → (service.provider.delete_account a p).0 ≡ r
          → Provisioning.deleted_now r ≡ true
          → ¬ MayLive (managed_username id name) (service.provider.delete_account a p).1
      dead (ok tt) e h = contract.deleted a p (managed_username id name) visible e owns
      dead (err Provider.not_found) e h =
          contract.already_deleted a p (managed_username id name) visible e owns
      dead (err Provider.rejected) e h = absurd (cc)
      dead (err Provider.unavailable) e h = absurd (cc)
      dead (err Provider.ambiguous) e h = absurd (cc)
      dead (err Provider.invalid) e h = absurd (cc)

  Ends-compensate :
      (a : AccountId) (failure : Status)
      → Owns a (managed_username id name)
      → Ends (Seen a) (compensate_created_account service id a failure)
  unfolding compensate_created_account
  Ends-compensate a failure owns = record {
    triple =
        Triple-bind
          (λ deletion w.
            Phase Mine Rows w × (Provisioning.deleted_now deletion ≡ true → Phase Gone Rows w))
          _ _
          (Triple-call (service.provider.delete_account a) (λ w p. (
            record {
              alone = p.alone;
              provider = λ u live. p.provider.0 u (contract.delete_quiet a w.provider u live);
              tables = p.tables;
            },
            λ deleted. record {
              alone = p.alone;
              provider = Gone-after a w.provider owns p.provider deleted;
              tables = p.tables;
            },
          )))
          (λ deletion. ends_account_deleted failure (Provisioning.deleted_now deletion));
  }

  Ends-probe :
      (again : Exec P Status)
      → Ends Mine again
      → (found : Result ProviderError (Option AccountId))
      → Triple
          (λ w.
            Phase Mine Rows w
            × ((a : AccountId)
                → found ≡ ok (some a)
                → Owns a (managed_username id name) × Visible a w.provider))
          (Provisioning.after_probe service id again found)
          (λ _. Accounted)
          Accounted
  Ends-probe again k (ok (some a)) = record {
    at = λ w (p, known).
        let (owns, visible) = known a refl in
        (Ends-compensate a dependency_error owns).triple.at w
          (record { alone = p.alone; provider = (p.provider, visible); tables = p.tables });
  }
  Ends-probe again k (ok none) = Triple-imply again k.triple (λ w (p, known). p)
  Ends-probe again k (err _) =
      Triple-imply _ (Ends-Holds _ (Holds-cleanup_required Mine id name Others service)).triple
        (λ w (p, known). p)

  Holds-delay : (first : Bool) → Holds Mine Rows (Provisioning.delay service first)
  Holds-delay true = Holds-pure Mine Rows tt
  Holds-delay false = Holds-pause Mine Rows

  Ends-reconcile :
      (first : Bool) (attempts : ℕ)
      → Ends Mine (reconcile service id (managed_username id name) first attempts)
  unfolding reconcile
  Ends-reconcile first zero = Ends-Holds _ (Holds-cleanup_required Mine id name Others service)
  Ends-reconcile first (suc attempts) = record {
    triple =
        Triple-bind (λ _. Phase Mine Rows) _ _
          (Triple-weaken_fail _ (Holds-delay first).triple Mine-Accounted)
          (λ _.
            Triple-bind
              (λ found w.
                Phase Mine Rows w
                × ((a : AccountId)
                    → found ≡ ok (some a)
                    → Owns a (managed_username id name) × Visible a w.provider))
              _ _
              (Triple-call (service.provider.find_account (managed_username id name)) (λ w p. (
                record {
                  alone = p.alone;
                  provider =
                      λ u live. p.provider u (contract.find_account_quiet _ w.provider u live);
                  tables = p.tables;
                },
                λ a e. contract.found (managed_username id name) w.provider a e,
              )))
              (λ found. Ends-probe _ (Ends-reconcile false attempts) found));
  }

  ends_recover :
      (applied : Bool)
      → Triple
          (λ w. Phase Mine Rows w × (applied ≡ false → Phase Gone Rows w))
          (Provisioning.recover service id (managed_username id name) applied)
          (λ _. Accounted)
          Accounted
  ends_recover true =
      Triple-imply _ (Ends-reconcile true create_reconciliation_attempts).triple (λ w (p, k). p)
  ends_recover false =
      Triple-bind (λ removed w. Accounted w × (removed ≡ false → Phase Mine Rows w)) _ _
        (Triple-imply _ ends_delete_row (λ w (p, k). k refl))
        (λ removed. Triple-pure dependency_error (λ w (p, k). p))

  module _ (a : AccountId) where
    Seen-find_credentials :
        (u : Text) → Holds (Seen a) Rows (call (service.provider.find_credentials u))
    Seen-find_credentials u = Holds-call (Seen a) Rows _ (λ p (mine, visible). (
      λ v live. mine v (contract.find_credentials_quiet u p v live),
      contract.find_credentials_visible u p a visible,
    ))

    Seen-grant :
        (b : AccountId) (g : AccountGrant) → Holds (Seen a) Rows (call (service.provider.grant b g))
    Seen-grant b g = Holds-call (Seen a) Rows _ (λ p (mine, visible). (
      λ v live. mine v (contract.grant_quiet b g p v live),
      contract.grant_visible b g p a visible,
    ))

    Seen-group :
        (b : AccountId) → Holds (Seen a) Rows (call (service.provider.assign_browse_group b))
    Seen-group b = Holds-call (Seen a) Rows _ (λ p (mine, visible).
        (λ v live. mine v (contract.group_quiet b p v live), contract.group_visible b p a visible))

  Ends-completed :
      (a : AccountId)
      → Owns a (managed_username id name)
      → (outcome : Result Status (ConnectionRow × ConnectionUrl))
      → Ends (Seen a) (Provisioning.completed service id a outcome)
  unfolding metadata
  Ends-completed a owns (ok (row, url)) = record {
    triple =
        Triple-imply _
          (Ends-Holds _ (
            Holds-bind Mine Rows _ _ (Holds-lift Mine Rows (metadata row))
              (λ shown. Holds-pure Mine Rows _))).triple
          (Mine-Seen a);
  }
  Ends-completed a owns (err failure) = record {
    triple =
        Triple-bind (λ _. Accounted) _ _ (Ends-compensate a failure owns).triple
          (λ answer. Accounted-lift (err answer));
  }

  -- What is known once the provider has answered the creation.
  record Asked (created : Result ProviderError ProvisionedAccount) (w : World P) : Type 0 where
    mine : Phase Mine Rows w
    made :
        (account : ProvisionedAccount)
        → created ≡ ok account
        → Owns account.account (managed_username id name) × Visible account.account w.provider
    unmade :
        (e : ProviderError)
        → created ≡ err e
        → Provisioning.may_have_applied e ≡ false
        → Phase Gone Rows w

  ends_provision_account :
      (root : ConfigPath) (permissions : ManagedPermissions) (actor : Actor) (event : AuditEvent)
      (created : Result ProviderError ProvisionedAccount)
      → Triple
          (Asked created)
          (Provisioning.provision_account service id
            (record { username = managed_username id name; display_name = name })
            root
            permissions
            actor
            event
            created)
          (λ _. Accounted)
          Accounted
  unfolding recover_ambiguous_create
  ends_provision_account root permissions actor event (err error) =
      Triple-bind (λ _. Accounted) _ _
        (Triple-imply _ (ends_recover (Provisioning.may_have_applied error))
          (λ w k. (k.mine, λ definitive. k.unmade error refl definitive)))
        (λ answer. Accounted-lift (err answer))
  ends_provision_account root permissions actor event (ok account) = record {
    at = λ w k.
        let (owns, visible) = k.made account refl in
        (Triple-bind {Pre = Phase (Seen account.account) Rows}
            (λ _. Phase (Seen account.account) Rows) _ _
            (Triple-weaken_fail _
              (Holds-attempt (Seen account.account) Rows _ (
                Holds-complete_provisioning service (Seen account.account) id name Others
                  (Seen-find_credentials account.account) (Seen-grant account.account)
                  (Seen-group account.account)
                  (record { username = managed_username id name; display_name = name }) root
                  permissions account actor event)).triple
              (λ w' p. Mine-Accounted w' (Mine-Seen account.account w' p)))
            (λ outcome. (Ends-completed account.account owns outcome).triple)).at
          w
          (record {
            alone = k.mine.alone;
            provider = (k.mine.provider, visible);
            tables = k.mine.tables;
          });
  }

  pub ends_provision_inserted :
      (root : ConfigPath) (permissions : ManagedPermissions) (actor : Actor) (event : AuditEvent)
      → Triple
          (Phase Gone Rows)
          (provision_inserted service id
            (record { username = managed_username id name; display_name = name })
            root
            permissions
            actor
            event)
          (λ _. Accounted)
          Accounted
  unfolding provision_inserted
  ends_provision_inserted root permissions actor event =
      Triple-bind (λ created. Asked created) _ _
        (Triple-call (service.provider.create_account (managed_username id name)) (λ w p. record {
          mine = record {
            alone = p.alone;
            provider = λ u live.
                elim (contract.creates_only (managed_username id name) w.provider u live) [
                  | inl before ↦ inl (p.provider u before)
                  | inr same ↦ inr same
                ];
            tables = p.tables;
          };
          made = λ account e. contract.created (managed_username id name) w.provider account e;
          unmade = λ e failed definitive. record {
            alone = p.alone;
            provider = λ u live. p.provider u (
                contract.not_created (managed_username id name) w.provider e failed
                  (λ same. absurd (impossible e definitive (inl same)))
                  (λ same. absurd (impossible e definitive (inr same))) u live);
            tables = p.tables;
          };
        }))
        (λ created. ends_provision_account root permissions actor event created)
    where
      impossible :
          (e : ProviderError)
          → Provisioning.may_have_applied e ≡ false
          → (e ≡ Provider.ambiguous) ⊎ (e ≡ Provider.invalid)
          → ⊥
      impossible e definitive h = ground (arith, definitive, h)
