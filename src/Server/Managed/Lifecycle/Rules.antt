-- ===== src/Server/Managed/Lifecycle/Rules.antt =====
-- Rules for operations that take every connection along its lifecycle.
use sovereign_config.Prelude.{ℕ, ◌≡◌, some, List, [], ◌∷◌, All, ok, err, Result}
use sovereign_config.Core.Managed.{ConnectionId}
use sovereign_config.Server.Rpc.{Status, OffsetDateTime}
use sovereign_config.Server.Managed.Provider.{Answer}
use sovereign_config.Server.Managed.Exec.{
  World, Meanwhile, happens, Tables, Effect, ConnectionRow, Exec, pure, lift, ◌>>=◌, call, attempt,
  tick, draw, meanwhile, statement, direct, begin, commit, now_utc, pause,
}
use sovereign_config.Server.Managed.Exec.Rules.{
  Triple, Outcome, Triple-bind, Triple-pure, Triple-lift, Triple-statement, Triple-direct,
  Triple-draw, Triple-call, Triple-attempt, Triple-begin, Triple-commit, Triple-pause,
  Triple-now_utc,
}
use sovereign_config.Server.Managed.Lifecycle.{AllMove, AllMove-refl, AllMove-trans}
use sovereign_config.Server.Managed.Store.Rows.{row_of}

-- What others do meanwhile takes the connections along their lifecycle too.
pub record OthersMove {P : Type 0} (others : List (Meanwhile P)) : Type 0 where
  pub each :
      All (λ (m : Meanwhile P). (tables : Tables) → AllMove tables (m.change_tables tables)) others

module _ {P : Type 0} (start : Tables) where
  -- Outside a transaction, with `start` the tables that the operation began on.
  pub record Out (w : World P) : Type 0 where
    pub others : OthersMove w.others
    pub moved : AllMove start w.committed

  -- In a transaction.
  pub record In (w : World P) : Type 0 where
    pub out : Out w
    pub pending : AllMove w.committed w.working

  -- In a transaction that has read the row of `id`.
  pub record Locked (id : ConnectionId) (row : ConnectionRow) (w : World P) : Type 0 where
    pub inside : In w
    pub found : row_of id w.working.connections ≡ some row

  Out-meanwhile : (w : World P) → Out w → Out (meanwhile w)
  unfolding meanwhile
  Out-meanwhile w o = go w.others o.others.each
    where
      go :
          (others : List (Meanwhile P))
          → All
              (λ (m : Meanwhile P). (tables : Tables) → AllMove tables (m.change_tables tables))
              others
          → Out (happens others w)
      go [] each = o
      go (m ∷ later) (now, each) = record {
        others = record { each = each };
        moved = AllMove-trans o.moved (now w.committed);
      }

  -- `m` keeps to the lifecycle, outside a transaction and inside one.
  pub record Stays {A : Type 0} (m : Exec P A) : Type 0 where
    pub triple : Triple Out m (λ _. Out) Out

  pub failed-In : (w : World P) → In w → Out (tick w)
  failed-In w i = record { others = i.out.others; moved = i.out.moved }

  module _ {A : Type 0} where
    pub Stays-pure : (a : A) → Stays (pure a)
    Stays-pure a = record { triple = Triple-pure a (λ w o. o) }

    pub Stays-lift : (r : Result Status A) → Stays (lift r)
    Stays-lift r = record { triple = Triple-lift r (λ a w h o. o) (λ w o. o) }

    pub Stays-call : (ask : P → Answer P A) → Stays (call ask)
    Stays-call ask = record {
      triple = Triple-call ask (λ w o. record { others = o.others; moved = o.moved });
    }

    pub Stays-draw :
        (take_from : List (List ℕ) → Result Status A × List (List ℕ)) → Stays (draw take_from)
    Stays-draw take_from = record {
      triple =
          Triple-draw take_from (λ w a rest o. record { others = o.others; moved = o.moved })
            (λ w rest o. record { others = o.others; moved = o.moved });
    }

    pub Stays-direct :
        (effect : Effect A)
        → ((before : Tables) (a : A) (after : Tables)
            → effect before ≡ some (a, after)
            → AllMove before after)
        → Stays (direct effect)
    Stays-direct effect k = record {
      triple =
          Triple-direct effect
            (λ w a tables o e.
              let o' = Out-meanwhile w o in
              record {
                others = o'.others;
                moved = AllMove-trans o'.moved (k (meanwhile w).committed a tables e);
              })
            (λ w o. let o' = Out-meanwhile w o in record { others = o'.others; moved = o'.moved });
    }

    pub Stays-attempt : (m : Exec P A) → Stays m → Stays (attempt m)
    Stays-attempt m k = record {
      triple = Triple-attempt m (record { at = λ w o. caught (m w) (k.triple.at w o) });
    }
      where
        caught :
            (r : Result Status A × World P)
            → Outcome (λ _. Out) Out r
            → Outcome (λ _. Out) (λ w. (e : Status) → Out w) r
        caught (ok a, w) o = o
        caught (err e, w) o = λ _. o

  module _ {A B : Type 0} where
    pub Stays-bind :
        (m : Exec P A) (f : A → Exec P B) → Stays m → ((a : A) → Stays (f a)) → Stays (m >>= f)
    Stays-bind m f km kf = record {
      triple = Triple-bind (λ _. Out) m f km.triple (λ a. (kf a).triple);
    }

  pub Stays-now_utc : Stays now_utc
  Stays-now_utc = record { triple = Triple-now_utc (λ w o. o) }

  pub Stays-pause : Stays pause
  Stays-pause = record { triple = Triple-pause Out-meanwhile }

  pub In-commit_now : Triple In commit (λ _. Out) Out
  In-commit_now =
      Triple-commit
        (λ w i. record { others = i.out.others; moved = AllMove-trans i.out.moved i.pending })
        failed-In

  -- A transaction: from its beginning on the copy moves, and the commit puts it in force.
  module _ {B : Type 0} where
    pub Stays-begin :
        (f : Unit {0} → Exec P B) → Triple In (f tt) (λ _. Out) Out → Stays (begin >>= f)
    Stays-begin f k = record {
      triple =
          Triple-bind (λ _. In) begin f
            (Triple-begin
              (λ w o.
                let o' = Out-meanwhile w o in
                record {
                  out = record { others = o'.others; moved = o'.moved };
                  pending = AllMove-refl (meanwhile w).committed;
                })
              (λ w o.
                let o' = Out-meanwhile w o in record { others = o'.others; moved = o'.moved }))
            (λ _. k);
    }

    pub In-statement :
        {A : Type 0} (effect : Effect A) (f : A → Exec P B)
        → ((before : Tables) (a : A) (after : Tables)
            → effect before ≡ some (a, after)
            → AllMove before after)
        → ((a : A) → Triple In (f a) (λ _. Out) Out)
        → Triple In (statement effect >>= f) (λ _. Out) Out
    In-statement effect f k kf =
        Triple-bind (λ _. In) (statement effect) f
          (Triple-statement effect
            (λ w a tables i e. record {
              out = record { others = i.out.others; moved = i.out.moved };
              pending = AllMove-trans i.pending (k w.working a tables e);
            })
            failed-In)
          kf

    pub In-now_utc :
        (f : OffsetDateTime → Exec P B)
        → ((now : OffsetDateTime) → Triple In (f now) (λ _. Out) Out)
        → Triple In (now_utc >>= f) (λ _. Out) Out
    In-now_utc f kf = Triple-bind (λ _. In) now_utc f (Triple-now_utc (λ w i. i)) kf

    pub In-commit :
        (f : Unit {0} → Exec P B) → Stays (f tt) → Triple In (commit >>= f) (λ _. Out) Out
    In-commit f k = Triple-bind (λ _. Out) commit f In-commit_now (λ _. k.triple)

pub ruleset stays_rules = (
  Stays-pure, Stays-lift, Stays-call, Stays-draw, Stays-attempt, Stays-bind, Stays-now_utc,
  Stays-pause,
)
