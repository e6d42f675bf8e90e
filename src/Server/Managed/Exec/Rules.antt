-- ===== src/Server/Managed/Exec/Rules.antt =====
-- Hoare triples for operations on managed connections: what holds before, after an answer, and
-- after a failure.
use sovereign_config.Prelude.{
  ℕ, ◌≡◌, refl, subst, Bool, true, false, Option, none, some, List, if◌then◌else◌, ok, err, Result,
}
use sovereign_config.Server.Rpc.{Status, OffsetDateTime}
use sovereign_config.Server.Managed.Provider.{ProviderError, Answer}
use sovereign_config.Server.Managed.Exec.{
  World, Tables, Effect, Exec, pure, lift, continue_with, ◌>>=◌, statement, direct, begin, commit,
  pause, meanwhile, tick, fault_now, in_transaction, on_database, now_utc, call, draw, attempt,
}

abbrev pub Outcome :
    {P A : Type 0}
    → (A → World P → Type 0)
    → (World P → Type 0)
    → Result Status A × World P
    → Type 0
Outcome Post Fail (ok a, w) = Post a w
Outcome Post Fail (err e, w) = Fail w

-- `m` started where `Pre` holds answers where `Post` holds, or fails where `Fail` does.
pub record Triple {P A : Type 0} (Pre : World P → Type 0) (m : Exec P A)
    (Post : A → World P → Type 0) (Fail : World P → Type 0) : Type 0 where
  pub at : (w : World P) → Pre w → Outcome Post Fail (m w)

module _ {P A : Type 0} (Post : A → World P → Type 0) (Fail : World P → Type 0) where
  outcome-if :
      (b : Bool) (r s : Result Status A × World P)
      → (b ≡ true → Outcome Post Fail r)
      → (b ≡ false → Outcome Post Fail s)
      → Outcome Post Fail (if b then r else s)
  outcome-if true r s k l = k refl
  outcome-if false r s k l = l refl

  outcome-in_transaction :
      (o : Option (A × Tables)) (w : World P)
      → ((a : A) (tables : Tables) → o ≡ some (a, tables) → Post a (record w { working = tables }))
      → Fail w
      → Outcome Post Fail (in_transaction o w)
  outcome-in_transaction none w k l = l
  outcome-in_transaction (some (a, tables)) w k l = k a tables refl

  outcome-on_database :
      (o : Option (A × Tables)) (w : World P)
      → ((a : A) (tables : Tables)
          → o ≡ some (a, tables)
          → Post a (record w { committed = tables }))
      → Fail w
      → Outcome Post Fail (on_database o w)
  outcome-on_database none w k l = l
  outcome-on_database (some (a, tables)) w k l = k a tables refl

  -- What an outcome says of an answer and of a failure.
  pub outcome-ok :
      (r : Result Status A × World P) → Outcome Post Fail r → (a : A) → r.0 ≡ ok a → Post a r.1
  outcome-ok (ok b, w) o a h = subst (λ (c : A). Post c w) (same h) o
    where
      same : {x y : A} → ◌≡◌ {A = Result Status A} (ok x) (ok y) → x ≡ y
      same h = cc
  outcome-ok (err e, w) o a h = absurd (cc)

  pub outcome-err :
      (r : Result Status A × World P) → Outcome Post Fail r → (e : Status) → r.0 ≡ err e → Fail r.1
  outcome-err (ok b, w) o e h = absurd (cc)
  outcome-err (err e', w) o e h = o

module _ {P A B : Type 0} {Post : B → World P → Type 0} {Fail : World P → Type 0} where
  after :
      (Mid : A → World P → Type 0) (f : A → Exec P B)
      → ((a : A) → Triple (Mid a) (f a) Post Fail)
      → (r : Result Status A × World P) → Outcome Mid Fail r
      → Outcome Post Fail (continue_with f r)
  after Mid f kf (ok a, w) mid = (kf a).at w mid
  after Mid f kf (err e, w) failed = failed

module _ {P : Type 0} {Pre : World P → Type 0} {Fail : World P → Type 0} where
  module _ {A B : Type 0} {Post : B → World P → Type 0} where
    pub Triple-bind :
        (Mid : A → World P → Type 0) (m : Exec P A) (f : A → Exec P B)
        → Triple Pre m Mid Fail
        → ((a : A) → Triple (Mid a) (f a) Post Fail)
        → Triple Pre (m >>= f) Post Fail
    unfolding ◌>>=◌
    Triple-bind Mid m f km kf = record { at = λ w p. after Mid f kf (m w) (km.at w p) }

  module _ {A : Type 0} {Post : A → World P → Type 0} where
    pub Triple-pure : (a : A) → ((w : World P) → Pre w → Post a w) → Triple Pre (pure a) Post Fail
    unfolding pure
    Triple-pure a k = record { at = λ w p. k w p }

    lifted :
        (r : Result Status A)
        → ((a : A) (w : World P) → r ≡ ok a → Pre w → Post a w)
        → ((w : World P) → Pre w → Fail w)
        → (w : World P) → Pre w
        → Outcome Post Fail (r, w)
    lifted (ok a) k failed w p = k a w refl p
    lifted (err e) k failed w p = failed w p

    pub Triple-lift :
        (r : Result Status A)
        → ((a : A) (w : World P) → r ≡ ok a → Pre w → Post a w)
        → ((w : World P) → Pre w → Fail w)
        → Triple Pre (lift r) Post Fail
    unfolding lift
    Triple-lift r k failed = record { at = λ w p. lifted r k failed w p }

    pub Triple-statement :
        (effect : Effect A)
        → ((w : World P) (a : A) (tables : Tables)
            → Pre w
            → effect w.working ≡ some (a, tables)
            → Post a (record (tick w) { working = tables }))
        → ((w : World P) → Pre w → Fail (tick w))
        → Triple Pre (statement effect) Post Fail
    unfolding statement
    Triple-statement effect k failed = record {
      at = λ w p.
          outcome-if Post Fail (fault_now w.faults) _ _ (λ e. failed w p)
            (λ e.
              outcome-in_transaction Post Fail (effect w.working) (tick w)
                (λ a tables e'. k w a tables p e') (failed w p));
    }

    pub Triple-direct :
        (effect : Effect A)
        → ((w : World P) (a : A) (tables : Tables)
            → Pre w
            → effect (meanwhile w).committed ≡ some (a, tables)
            → Post a (record (tick (meanwhile w)) { committed = tables }))
        → ((w : World P) → Pre w → Fail (tick (meanwhile w)))
        → Triple Pre (direct effect) Post Fail
    unfolding direct
    Triple-direct effect k failed = record {
      at = λ w p.
          outcome-if Post Fail (fault_now (meanwhile w).faults) _ _ (λ e. failed w p)
            (λ e.
              outcome-on_database Post Fail (effect (meanwhile w).committed) (tick (meanwhile w))
                (λ a tables e'. k w a tables p e') (failed w p));
    }

    pub Triple-draw :
        (take_from : List (List ℕ) → Result Status A × List (List ℕ))
        → ((w : World P) (a : A) (rest : List (List ℕ))
            → Pre w
            → Post a (record w { entropy = rest }))
        → ((w : World P) (rest : List (List ℕ)) → Pre w → Fail (record w { entropy = rest }))
        → Triple Pre (draw take_from) Post Fail
    unfolding draw
    Triple-draw take_from k failed = record { at = λ w p. drawn (take_from w.entropy) w p }
      where
        drawn :
            (d : Result Status A × List (List ℕ)) (w : World P)
            → Pre w
            → Outcome Post Fail (d.0, record w { entropy = d.1 })
        drawn (ok a, rest) w p = k w a rest p
        drawn (err e, rest) w p = failed w rest p

    pub Triple-imply :
        {Pre' : World P → Type 0} (m : Exec P A)
        → Triple Pre m Post Fail
        → ((w : World P) → Pre' w → Pre w)
        → Triple Pre' m Post Fail
    Triple-imply m k before = record { at = λ w p. k.at w (before w p) }

  module _ {A : Type 0} {Post : Result ProviderError A → World P → Type 0} where
    pub Triple-call :
        (ask : P → Answer P A)
        → ((w : World P)
            → Pre w
            → Post (ask w.provider).0 (record w { provider = (ask w.provider).1 }))
        → Triple Pre (call ask) Post Fail
    unfolding call
    Triple-call ask k = record { at = λ w p. k w p }

  module _ {A : Type 0} {Post : Result Status A → World P → Type 0} where
    -- A failure that is caught: both outcomes of `m` go on.
    pub Triple-attempt :
        (m : Exec P A)
        → Triple Pre m (λ a w. Post (ok a) w) (λ w. (e : Status) → Post (err e) w)
        → Triple Pre (attempt m) Post Fail
    unfolding attempt
    Triple-attempt m k = record { at = λ w p. caught_outcome (m w) (k.at w p) }
      where
        caught_outcome :
            (r : Result Status A × World P)
            → Outcome (λ a w. Post (ok a) w) (λ w. (e : Status) → Post (err e) w) r
            → Outcome Post Fail (ok r.0, r.1)
        caught_outcome (ok a, w) o = o
        caught_outcome (err e, w) o = o e

  module _ {Post : Unit {0} → World P → Type 0} where
    pub Triple-begin :
        ((w : World P)
          → Pre w
          → Post tt (record (tick (meanwhile w)) { working = (meanwhile w).committed }))
        → ((w : World P) → Pre w → Fail (tick (meanwhile w)))
        → Triple Pre begin Post Fail
    unfolding begin
    Triple-begin k failed = record {
      at = λ w p.
          outcome-if Post Fail (fault_now (meanwhile w).faults) _ _ (λ e. failed w p) (λ e. k w p);
    }

    pub Triple-commit :
        ((w : World P) → Pre w → Post tt (record (tick w) { committed = w.working }))
        → ((w : World P) → Pre w → Fail (tick w))
        → Triple Pre commit Post Fail
    unfolding commit
    Triple-commit k failed = record {
      at = λ w p. outcome-if Post Fail (fault_now w.faults) _ _ (λ e. failed w p) (λ e. k w p);
    }

    pub Triple-pause : ((w : World P) → Pre w → Post tt (meanwhile w)) → Triple Pre pause Post Fail
    unfolding pause
    Triple-pause k = record { at = λ w p. k w p }

  module _ {Post : OffsetDateTime → World P → Type 0} where
    pub Triple-now_utc : ((w : World P) → Pre w → Post w.now w) → Triple Pre now_utc Post Fail
    unfolding now_utc
    Triple-now_utc k = record { at = λ w p. k w p }

module _ {P A : Type 0} {Pre : World P → Type 0} {Post : A → World P → Type 0}
    {Fail Fail' : World P → Type 0} where
  pub Triple-weaken_fail :
      (m : Exec P A)
      → Triple Pre m Post Fail
      → ((w : World P) → Fail w → Fail' w)
      → Triple Pre m Post Fail'
  Triple-weaken_fail m k after = record { at = λ w p. weaken (m w) (k.at w p) }
    where
      weaken : (r : Result Status A × World P) → Outcome Post Fail r → Outcome Post Fail' r
      weaken (ok a, w) o = o
      weaken (err e, w) o = after w o
