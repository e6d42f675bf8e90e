-- ===== src/Server/Managed/Service/Orphans.antt =====
-- managed/service.rs `create`: no account is left, or comes later, that no row leads to.
use sovereign_config.Prelude.{
  ◌≡◌, refl, sym, subst, ◌⊎◌, inl, inr, Bool, true, false, Option, some, [], ◌∷◌, arith, Bool-cases,
  ok, err, there, any, find, Text, text_eq_refl, Result,
}
use sovereign_config.Core.Path.{ConfigPath}
use sovereign_config.Core.Managed.{ConnectionId, ManagedPermissions}
use sovereign_config.Server.Rpc.{Status, CallContext, Actor, OffsetDateTime}
use sovereign_config.Server.Managed.Provider.{AccountId}
use sovereign_config.Server.Managed.Provider.Contract.{Creation}
use sovereign_config.Server.Managed.Exec.{
  World, Tables, Exec, lift, ◌>>=◌, meanwhile, tick, happens,
}
use sovereign_config.Server.Managed.Exec.Rules.{
  Triple, Outcome, Triple-bind, Triple-lift, Triple-direct, Triple-draw, Triple-now_utc,
}
use sovereign_config.Server.Managed.Exec.Phases.{Phase}
use sovereign_config.Server.Managed.Store
use sovereign_config.Server.Managed.Store.{names, insert_row, insert_provisioning}
use sovereign_config.Server.Managed.Store.Tracking.{Tracked, Held, Tracked-Elsewhere}
use sovereign_config.Server.Managed.Provisioning.{ManagedConnectionsService}
use sovereign_config.Server.Managed.Provisioning.Orphans.{ends_provision_inserted}
use sovereign_config.Server.Managed.Service
use sovereign_config.Server.Managed.Service.{not_permitted, create}

module _ {P : Type 0} (service : ManagedConnectionsService P) (MayLive : Text → P → Type 0)
    (Owns : AccountId → Text → Type 0) (Visible : AccountId → P → Type 0)
    (contract : Creation service.provider MayLive Owns Visible) (B : Text → Type 0) where
  module _ (start : Tables) where
    -- Nothing has been written: the tables are those that the operation began on.
    record Untouched (w : World P) : Type 0 where
      alone : w.others ≡ []
      same : w.committed ≡ start
      accounted : (u : Text) → MayLive u w.provider → B u ⊎ Tracked u start.connections

    abbrev Accounted : World P → Type 0
    Accounted w = (u : Text) → MayLive u w.provider → B u ⊎ Tracked u w.committed.connections

    Untouched-Accounted : (w : World P) → Untouched w → Accounted w
    Untouched-Accounted w k =
        subst (λ (t : Tables). (u : Text) → MayLive u w.provider → B u ⊎ Tracked u t.connections)
          (sym k.same) k.accounted

    Untouched-meanwhile : (w : World P) → Untouched w → Untouched (meanwhile w)
    unfolding meanwhile
    Untouched-meanwhile w k = subst Untouched (sym same') k
      where
        same' : happens w.others w ≡ w
        same' = rw k.alone refl

    Untouched-lift :
        {A : Type 0} (r : Result Status A) → Triple Untouched (lift r) (λ _. Untouched) Accounted
    Untouched-lift r = Triple-lift r (λ a w h k. k) Untouched-Accounted

    module _ (id : ConnectionId) (name : Text) where
      abbrev Others : Text → Type 0
      Others u = Tracked u start.connections

      Held-inserted :
          (root : ConfigPath) (permissions : ManagedPermissions) (now : OffsetDateTime)
          (after : Tables)
          → insert_row (Store.new_row id name root permissions now) start ≡ some (tt, after)
          → Held id name Others after
      unfolding insert_row find
      Held-inserted root permissions now after e =
          elim (Bool-cases (any (names id) start.connections)) [
            | inl taken ↦ absurd (ground (arith, taken, e))
            | inr free ↦
                let same : record start {
                  connections = Store.new_row id name root permissions now ∷ start.connections;
                }
                    ≡ after =
                  ground (arith, free, e) in
                subst (Held id name Others) same (record {
                  row = Store.new_row id name root permissions now;
                  found = unfold names in rw (text_eq_refl id) refl;
                  named = refl;
                  others = λ u tracked. there (Tracked-Elsewhere id u free tracked);
                })
          ]

      inserted :
          (root : ConfigPath) (permissions : ManagedPermissions)
          → Triple Untouched
              (insert_provisioning id name root permissions)
              (λ _. Phase (λ p. (u : Text) → MayLive u p → B u ⊎ Others u) (Held id name Others))
              Accounted
      unfolding insert_provisioning
      inserted root permissions =
          Triple-bind (λ _. Untouched) _ _ (Triple-now_utc (λ w k. k))
            (λ now.
              Triple-direct (insert_row (Store.new_row id name root permissions now))
                (λ w a tables k e.
                  let k' = Untouched-meanwhile w k in
                  record {
                    alone = k'.alone;
                    provider = k'.accounted;
                    tables = Held-inserted root permissions now tables (
                        subst
                          (λ (t : Tables).
                            insert_row (Store.new_row id name root permissions now) t
                            ≡ some (tt, tables))
                          k'.same e);
                  })
                (λ w k.
                  let k' = Untouched-meanwhile w k in
                  Untouched-Accounted (tick (meanwhile w))
                    (record { alone = k'.alone; same = k'.same; accounted = k'.accounted })))

    allowed-Accounted :
        (acting : Actor) (display_name : Text) (root : ConfigPath)
        (permissions : ManagedPermissions) (allowed : Bool)
        → Triple Untouched
            (Service.create_allowed service acting display_name root permissions allowed)
            (λ _. Accounted)
            Accounted
    allowed-Accounted acting display_name root permissions false =
        Triple-lift (err not_permitted) (λ a w h k. Untouched-Accounted w k) Untouched-Accounted
    allowed-Accounted acting display_name root permissions true =
        Triple-bind (λ _. Untouched) _ _
          (Triple-draw _
            (λ w a rest k. record { alone = k.alone; same = k.same; accounted = k.accounted })
            (λ w rest k. Untouched-Accounted w k))
          (λ id.
            Triple-bind
              (λ _.
                Phase (λ p. (u : Text) → MayLive u p → B u ⊎ Tracked u start.connections)
                  (Held id display_name (λ u. Tracked u start.connections)))
              _ _ (inserted id display_name root permissions)
              (λ _.
                ends_provision_inserted service MayLive Owns Visible contract id display_name B
                  (λ u. Tracked u start.connections) root permissions acting _))

    record Accounts {A : Type 0} (m : Exec P A) : Type 0 where
      triple : Triple Untouched m (λ _. Accounted) Accounted

    accounts_lift :
        {A B' : Type 0} (r : Result Status A) (f : A → Exec P B')
        → ((a : A) → Accounts (f a))
        → Accounts (lift r >>= f)
    accounts_lift r f k = record {
      triple = Triple-bind (λ _. Untouched) (lift r) f (Untouched-lift r) (λ a. (k a).triple);
    }

    accounts_allowed :
        (acting : Actor) (display_name : Text) (root : ConfigPath)
        (permissions : ManagedPermissions) (allowed : Bool)
        → Accounts (Service.create_allowed service acting display_name root permissions allowed)
    accounts_allowed acting display_name root permissions allowed = record {
      triple = allowed-Accounted acting display_name root permissions allowed;
    }

    accounts_create :
        (context : CallContext) (display_name root : Text) (permissions : Option ManagedPermissions)
        → Accounts (create service context display_name root permissions)
    unfolding create
    accounts_create context display_name root permissions =
        search (accounts_lift, accounts_allowed) depth 12

  either_way :
      {A : Type 0} (start : Tables) (r : Result Status A × World P)
      → Outcome (λ _. Accounted start) (Accounted start) r
      → Accounted start r.1
  either_way start (ok a, w) o = o
  either_way start (err e, w) o = o

  -- With a provider that honours `Creation`, where a creation of an account may land at any time after
  -- its call, and no other operation beside it, a `create` leaves no account behind that is live,
  -- or may yet come to be, and that no row leads to, whichever of its steps fails: if before it
  -- the username of every such account is one of `B` or has a row from which a revocation finds
  -- it, so it is after it.
  pub create-Tracked :
      (context : CallContext) (display_name root : Text) (permissions : Option ManagedPermissions)
      (w : World P)
      → w.others ≡ []
      → ((u : Text) → MayLive u w.provider → B u ⊎ Tracked u w.committed.connections)
      → (u : Text) → MayLive u (create service context display_name root permissions w).1.provider
      → B u
        ⊎ Tracked u (create service context display_name root permissions w).1.committed.connections
  create-Tracked context display_name root permissions w alone accounted =
      either_way w.committed (create service context display_name root permissions w) (
        (accounts_create w.committed context display_name root permissions).triple.at w
          (record { alone = alone; same = refl; accounted = accounted }))
