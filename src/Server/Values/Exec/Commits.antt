-- ===== src/Server/Values/Exec/Commits.antt =====
-- Rules for what a transaction makes of the tables: a condition on the committed tables that a block
-- starts with, conditions on the working copy between its statements, and the condition it commits.
use sovereign_config.Prelude.{
  ◌≡◌, refl, sym, subst, inl, inr, Bool, true, false, Option, none, some, [], arith, if◌then◌else◌,
  Bool-cases, ok, err, Result, Result-cases,
}
use sovereign_config.Server.Rpc.{Status, storage_unavailable}
use sovereign_config.Server.Values.Exec.{
  Db, World, Exec, pure, lift, ◌>>=◌, Effect, statement, begin, commit, continue_with, tick,
  fault_now, in_transaction,
}
use sovereign_config.Server.Values.Exec.Rules.{Quiet, Atomic, quiet_rules}
use sovereign_config.Server.Values.Exec.Steady.{Steady}

-- From a working copy in `P`, an answer `a` of `m` leaves a working copy in `Q a`.
pub record Leads {A : Type 0} (P : Db → Type 0) (m : Exec A) (Q : A → Db → Type 0) : Type 0 where
  pub at : (w : World) (a : A) → P w.working → (m w).0 ≡ ok a → Q a (m w).1.working

-- From a working copy in `P`, an answer of `m` leaves committed tables in `C`.
pub record Within {A : Type 0} (C : Db → Type 0) (P : Db → Type 0) (m : Exec A) : Type 0 where
  pub at : (w : World) (a : A) → P w.working → (m w).0 ≡ ok a → C (m w).1.committed

-- From committed tables in `C`, an answer of `m` leaves committed tables in `C`.
pub record Commits {A : Type 0} (C : Db → Type 0) (m : Exec A) : Type 0 where
  pub at : (w : World) (a : A) → C w.committed → (m w).0 ≡ ok a → C (m w).1.committed

answer_eq : {A : Type 0} {a b : A} → ◌≡◌ {A = Result Status A} (ok a) (ok b) → a ≡ b
answer_eq h = cc

module _ {A B : Type 0} where
  after-Leads :
      {Q : A → Db → Type 0} {R : B → Db → Type 0} (f : A → Exec B)
      → ((a : A) → Leads (Q a) (f a) R)
      → (r : Result Status A × World) → ((a : A) → r.0 ≡ ok a → Q a r.1.working)
      → (b : B) → (continue_with f r).0 ≡ ok b
      → R b (continue_with f r).1.working
  after-Leads f kf (ok a, w) at_first b h = (kf a).at w b (at_first a refl) h
  after-Leads f kf (err e, w) at_first b h = cc

  pub Leads-bind :
      {P : Db → Type 0} (Q : A → Db → Type 0) {R : B → Db → Type 0} (m : Exec A) (f : A → Exec B)
      → Leads P m Q
      → ((a : A) → Leads (Q a) (f a) R)
      → Leads P (m >>= f) R
  unfolding ◌>>=◌
  Leads-bind Q {R = R} m f km kf = record {
    at = λ w b p h. after-Leads {R = R} f kf (m w) (λ a answered. km.at w a p answered) b h;
  }

  after-Within :
      {C : Db → Type 0} {Q : A → Db → Type 0} (f : A → Exec B)
      → ((a : A) → Within C (Q a) (f a))
      → (r : Result Status A × World) → ((a : A) → r.0 ≡ ok a → Q a r.1.working)
      → (b : B) → (continue_with f r).0 ≡ ok b
      → C (continue_with f r).1.committed
  after-Within f kf (ok a, w) at_first b h = (kf a).at w b (at_first a refl) h
  after-Within f kf (err e, w) at_first b h = cc

  pub Within-bind :
      {C P : Db → Type 0} (Q : A → Db → Type 0) (m : Exec A) (f : A → Exec B)
      → Leads P m Q
      → ((a : A) → Within C (Q a) (f a))
      → Within C P (m >>= f)
  unfolding ◌>>=◌
  Within-bind {C = C} Q m f km kf = record {
    at = λ w b p h. after-Within {C = C} f kf (m w) (λ a answered. km.at w a p answered) b h;
  }

  pub Commits-lift :
      {C : Db → Type 0} (r : Result Status A) (f : A → Exec B)
      → ((a : A) → r ≡ ok a → Commits C (f a))
      → Commits C (lift r >>= f)
  unfolding ◌>>=◌ lift
  Commits-lift (ok a) f kf = record { at = λ w b c h. (kf a refl).at w b c h }
  Commits-lift (err e) f kf = record { at = λ w b c h. cc }

module _ {A : Type 0} where
  pub Leads-lift :
      {P : Db → Type 0} {Q : A → Db → Type 0} (r : Result Status A)
      → ((a : A) → r ≡ ok a → (db : Db) → P db → Q a db)
      → Leads P (lift r) Q
  unfolding lift
  Leads-lift r step = record { at = λ w a p h. step a h w.working p }

  pub Leads-pure :
      {P : Db → Type 0} {Q : A → Db → Type 0} (a : A)
      → ((db : Db) → P db → Q a db)
      → Leads P (pure a) Q
  unfolding pure
  Leads-pure {Q = Q} a step = record {
    at = λ w b p h. subst (λ x. Q x w.working) (answer_eq h) (step w.working p);
  }

  after-statement :
      {Q : A → Db → Type 0} (o : Option (A × Db)) (w : World)
      → ((a : A) (db : Db) → o ≡ some (a, db) → Q a db)
      → (a : A) → (in_transaction o w).0 ≡ ok a
      → Q a (in_transaction o w).1.working
  after-statement none w step a h = cc
  after-statement {Q = Q} (some (b, db)) w step a h =
      subst (λ x. Q x db) (answer_eq h) (step b db refl)

  pub Leads-statement :
      {P : Db → Type 0} {Q : A → Db → Type 0} (effect : Effect A)
      → ((db : Db) → P db → (a : A) (db' : Db) → effect db ≡ some (a, db') → Q a db')
      → Leads P (statement effect) Q
  unfolding statement
  Leads-statement {P = P} {Q = Q} effect step = record { at = run }
    where
      run :
          (w : World) (a : A)
          → P w.working
          → (if fault_now w.faults
              then (err storage_unavailable, tick w)
              else in_transaction (effect w.working) (tick w)).0
            ≡ ok a
          → Q a
              (if fault_now w.faults
                then (err storage_unavailable, tick w)
                else in_transaction (effect w.working) (tick w)).1.working
      run w a p h = elim (Bool-cases (fault_now w.faults)) [
        | inl failed ↦ absurd (ground arith)
        | inr fine ↦ rw fine (
            after-statement {Q = Q} (effect w.working) (tick w) (step w.working p) a (rw fine at h))
      ]

module _ {A : Type 0} where
  pub Leads-from :
      {P : Db → Type 0} {Q : A → Db → Type 0} (P' : Db → Type 0) (m : Exec A)
      → ((db : Db) → P db → P' db)
      → Leads P' m Q
      → Leads P m Q
  Leads-from P' m weaken leads = record { at = λ w a p h. leads.at w a (weaken w.working p) h }

  -- A test that the condition speaks of, and its two branches.
  pub Leads-if :
      {R : A → Db → Type 0} (Q : Bool → Db → Type 0) (b : Bool) (m n : Exec A)
      → Leads (Q true) m R
      → Leads (Q false) n R
      → Leads (Q b) (if b then m else n) R
  Leads-if Q true m n km kn = km
  Leads-if Q false m n km kn = kn

-- `m` keeps a condition on the working copy.
pub record Keeps {A : Type 0} (P : Db → Type 0) (m : Exec A) : Type 0 where
  pub leads : Leads P m (λ _. P)

module _ {A B : Type 0} {P : Db → Type 0} where
  pub Keeps-bind :
      (m : Exec A) (f : A → Exec B) → Keeps P m → ((a : A) → Keeps P (f a)) → Keeps P (m >>= f)
  Keeps-bind m f km kf = record { leads = Leads-bind (λ _. P) m f km.leads (λ a. (kf a).leads) }

  pub Within-Keeps :
      {C : Db → Type 0} (m : Exec A) (f : A → Exec B)
      → Keeps P m
      → ((a : A) → Within C P (f a))
      → Within C P (m >>= f)
  Within-Keeps m f km kf = Within-bind (λ _. P) m f km.leads kf

module _ {A : Type 0} where
  pub Keeps-lift : {P : Db → Type 0} (r : Result Status A) → Keeps P (lift r)
  Keeps-lift r = record { leads = Leads-lift r (λ a h db p. p) }

  pub Keeps-if :
      {P : Db → Type 0} (b : Bool) (m n : Exec A)
      → Keeps P m
      → Keeps P n
      → Keeps P (if b then m else n)
  Keeps-if true m n km kn = km
  Keeps-if false m n km kn = kn

  -- A block that leaves alone what a condition looks at keeps the condition.
  pub Keeps-Steady :
      {X : Type 0} (f : Db → X) (P : X → Type 0) (m : Exec A)
      → Steady f m
      → Keeps (λ db. P (f db)) m
  Keeps-Steady f P m km = record { leads = record { at = λ w a p h. subst P (sym (km.at w)) p } }

module _ {B : Type 0} {C : Db → Type 0} where
  pub Commits-begin : (f : Unit {0} → Exec B) → Within C C (f tt) → Commits C (begin >>= f)
  unfolding ◌>>=◌ begin
  Commits-begin f kf = record {
    at = λ w b c h. elim (Bool-cases (fault_now w.faults)) [
      | inl failed ↦ absurd (ground arith)
      | inr fine ↦
          rw fine (kf.at (record (tick w) { working = w.committed; locks = [] }) b c (rw fine at h))
    ];
  }

  pub Within-commit :
      {P : Db → Type 0} (f : Unit {0} → Exec B)
      → ((db : Db) → P db → C db)
      → Quiet (f tt)
      → Within C P (commit >>= f)
  unfolding ◌>>=◌ commit
  Within-commit f weaken kf = record {
    at = λ w b p h. elim (Bool-cases (fault_now w.faults)) [
      | inl failed ↦ absurd (ground arith)
      | inr fine ↦
          rw fine
            (subst C (sym (kf.at (record (tick w) { committed = w.working }))) (weaken w.working p))
    ];
  }

  pub Within-commit_now : (f : Unit {0} → Exec B) → Quiet (f tt) → Within C C (commit >>= f)
  Within-commit_now f kf = Within-commit f (λ db c. c) kf

-- An atomic block that commits a condition keeps it whatever it answers.
pub always :
    {A : Type 0} (C : Db → Type 0) (m : Exec A)
    → Atomic m
    → Commits C m
    → (w : World) → C w.committed
    → C (m w).1.committed
always C m unchanged commits w c = elim (Result-cases (m w).0) [
  | inl (a, answered) ↦ commits.at w a c answered
  | inr (e, failed) ↦ subst C (sym (unchanged.at w e failed)) c
]

pub ruleset commit_rules = (
  quiet_rules, Commits-lift, Commits-begin, Within-Keeps, Within-commit_now, Keeps-lift, Keeps-if,
  Keeps-bind,
)
