-- ===== src/Server/Managed/Exec/Phases.antt =====
-- A phase of an operation that no other runs beside: something holds of the provider, and something
-- of the tables. The rules say which actions stay in the phase.
use sovereign_config.Prelude.{◌≡◌, refl, sym, subst, some, [], ok, err, Result}
use sovereign_config.Server.Rpc.{Status, OffsetDateTime}
use sovereign_config.Server.Managed.Provider.{Answer}
use sovereign_config.Server.Managed.Exec.{
  World, Tables, Effect, Exec, pure, lift, ◌>>=◌, statement, direct, begin, commit, pause, happens,
  meanwhile, tick, now_utc, call, attempt,
}
use sovereign_config.Server.Managed.Exec.Rules.{
  Triple, Outcome, Triple-bind, Triple-pure, Triple-lift, Triple-statement, Triple-direct,
  Triple-call, Triple-attempt, Triple-begin, Triple-commit, Triple-pause, Triple-now_utc,
}

module _ {P : Type 0} (Prov : P → Type 0) (Tab : Tables → Type 0) where
  pub record Phase (w : World P) : Type 0 where
    pub alone : w.others ≡ []
    pub provider : Prov w.provider
    pub tables : Tab w.committed

  pub Phase-meanwhile : (w : World P) → Phase w → Phase (meanwhile w)
  unfolding meanwhile
  Phase-meanwhile w p = subst Phase (sym same) p
    where
      same : happens w.others w ≡ w
      same = rw p.alone refl

  abbrev pub Inside : World P → Type 0
  Inside w = Phase w × Tab w.working

  ticked : (w : World P) → Phase w → Phase (tick w)
  ticked w p = record { alone = p.alone; provider = p.provider; tables = p.tables }

  pub record Holds {A : Type 0} (m : Exec P A) : Type 0 where
    pub triple : Triple Phase m (λ _. Phase) Phase

  module _ {A : Type 0} where
    pub Holds-pure : (a : A) → Holds (pure a)
    Holds-pure a = record { triple = Triple-pure a (λ w p. p) }

    pub Holds-lift : (r : Result Status A) → Holds (lift r)
    Holds-lift r = record { triple = Triple-lift r (λ a w h p. p) (λ w p. p) }

    pub Holds-call : (ask : P → Answer P A) → ((p : P) → Prov p → Prov (ask p).1) → Holds (call ask)
    Holds-call ask k = record {
      triple = Triple-call ask (λ w p. record {
        alone = p.alone;
        provider = k w.provider p.provider;
        tables = p.tables;
      });
    }

    pub Holds-direct :
        (effect : Effect A)
        → ((before : Tables) (a : A) (after : Tables)
            → effect before ≡ some (a, after)
            → Tab before
            → Tab after)
        → Holds (direct effect)
    Holds-direct effect k = record {
      triple =
          Triple-direct effect
            (λ w a tables p e.
              let q = Phase-meanwhile w p in
              record {
                alone = q.alone;
                provider = q.provider;
                tables = k (meanwhile w).committed a tables e q.tables;
              })
            (λ w p. ticked (meanwhile w) (Phase-meanwhile w p));
    }

    pub Holds-attempt : (m : Exec P A) → Holds m → Holds (attempt m)
    Holds-attempt m k = record {
      triple = Triple-attempt m (record { at = λ w p. caught (m w) (k.triple.at w p) });
    }
      where
        caught :
            (r : Result Status A × World P)
            → Outcome (λ _. Phase) Phase r
            → Outcome (λ _. Phase) (λ w. (e : Status) → Phase w) r
        caught (ok a, w) p = p
        caught (err e, w) p = λ _. p

  pub Holds-bind :
      {A B : Type 0} (m : Exec P A) (f : A → Exec P B)
      → Holds m
      → ((a : A) → Holds (f a))
      → Holds (m >>= f)
  Holds-bind m f km kf = record {
    triple = Triple-bind (λ _. Phase) m f km.triple (λ a. (kf a).triple);
  }

  pub Holds-now_utc : Holds now_utc
  Holds-now_utc = record { triple = Triple-now_utc (λ w p. p) }

  pub Holds-pause : Holds pause
  Holds-pause = record { triple = Triple-pause Phase-meanwhile }

  module _ {B : Type 0} where
    -- `m` completes a transaction that stays in the phase.
    pub record Completes (m : Exec P B) : Type 0 where
      pub triple : Triple Inside m (λ _. Phase) Phase

    pub Holds-begin : (f : Unit {0} → Exec P B) → Completes (f tt) → Holds (begin >>= f)
    Holds-begin f k = record {
      triple =
          Triple-bind (λ _. Inside) begin f
            (Triple-begin
              (λ w p.
                let q = Phase-meanwhile w p in
                (record { alone = q.alone; provider = q.provider; tables = q.tables }, q.tables))
              (λ w p. ticked (meanwhile w) (Phase-meanwhile w p)))
            (λ _. k.triple);
    }

    pub Completes-statement :
        {A : Type 0} (effect : Effect A) (f : A → Exec P B)
        → ((before : Tables) (a : A) (after : Tables)
            → effect before ≡ some (a, after)
            → Tab before
            → Tab after)
        → ((a : A) → Completes (f a))
        → Completes (statement effect >>= f)
    Completes-statement effect f k kf = record {
      triple =
          Triple-bind (λ _. Inside) (statement effect) f
            (Triple-statement effect
              (λ w a tables (p, t) e. (
                record { alone = p.alone; provider = p.provider; tables = p.tables },
                k w.working a tables e t,
              ))
              (λ w (p, t). ticked w p))
            (λ a. (kf a).triple);
    }

    pub Completes-now_utc :
        (f : OffsetDateTime → Exec P B)
        → ((now : OffsetDateTime) → Completes (f now))
        → Completes (now_utc >>= f)
    Completes-now_utc f kf = record {
      triple = Triple-bind (λ _. Inside) now_utc f (Triple-now_utc (λ w i. i)) (λ a. (kf a).triple);
    }

    pub Completes-pure_bind :
        {A : Type 0} (a : A) (f : A → Exec P B) → Completes (f a) → Completes (pure a >>= f)
    Completes-pure_bind a f k = record {
      triple =
          Triple-bind (λ b w. Inside w × (a ≡ b)) (pure a) f (Triple-pure a (λ w i. (i, refl)))
            (λ b. record {
              at = λ w (i, e). subst (λ x. Outcome (λ _. Phase) Phase (f x w)) e (k.triple.at w i);
            });
    }

    pub Completes-commit : (f : Unit {0} → Exec P B) → Holds (f tt) → Completes (commit >>= f)
    Completes-commit f k = record {
      triple =
          Triple-bind (λ _. Phase) commit f
            (Triple-commit
              (λ w (p, t). record { alone = p.alone; provider = p.provider; tables = t })
              (λ w (p, t). ticked w p))
            (λ _. k.triple);
    }

pub ruleset holds_rules =
    (Holds-pure, Holds-lift, Holds-call, Holds-attempt, Holds-bind, Holds-now_utc, Holds-pause)
