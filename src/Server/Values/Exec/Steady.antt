-- ===== src/Server/Values/Exec/Steady.antt =====
-- Blocks that leave alone a part of the working copy.
use sovereign_config.Prelude.{
  ℕ, ◌≡◌, refl, sym, ap, ◌∙◌, inl, inr, Bool, true, false, Option, none, some, List, [], ◌∷◌,
  if◌then◌else◌, Bool-cases, ok, err, Text, Result,
}
use sovereign_config.Server.Rpc.{Status}
use sovereign_config.Server.Values.Exec.{
  Db, World, Exec, pure, lift, ◌>>=◌, Effect, statement, reading, lock_path, nextval, draw,
  continue_with, take_bytes, tick, fault_now, in_transaction,
}

-- `m` does not change what `f` sees of the working copy.
pub record Steady {A X : Type 0} (f : Db → X) (m : Exec A) : Type 0 where
  pub at : (w : World) → f (m w).1.working ≡ f w.working

-- The answer and the tables of a statement that succeeded.
pub answer_of :
    {A : Type 0} {a b : A} {db db' : Db}
    → ◌≡◌ {A = Option (A × Db)} (some (a, db)) (some (b, db'))
    → (a ≡ b) × (db ≡ db')
answer_of h = (cc, cc)

module _ {A B : Type 0} where
  pub Steady-bind :
      {X : Type 0} (f : Db → X) (m : Exec A) (k : A → Exec B)
      → Steady f m
      → ((a : A) → Steady f (k a))
      → Steady f (m >>= k)
  unfolding ◌>>=◌
  Steady-bind f m k km kk = record { at = λ w. after (m w) ∙ km.at w }
    where
      after : (r : Result Status A × World) → f (continue_with k r).1.working ≡ f r.1.working
      after (ok a, w) = (kk a).at w
      after (err e, w) = refl

module _ {A : Type 0} where
  pub Steady-pure : {X : Type 0} (f : Db → X) (a : A) → Steady f (pure a)
  unfolding pure
  Steady-pure f a = record { at = λ w. refl }

  pub Steady-lift : {X : Type 0} (f : Db → X) (r : Result Status A) → Steady f (lift r)
  unfolding lift
  Steady-lift f r = record { at = λ w. refl }

  pub Steady-if :
      {X : Type 0} (f : Db → X) (b : Bool) (m n : Exec A)
      → Steady f m
      → Steady f n
      → Steady f (if b then m else n)
  Steady-if f true m n km kn = km
  Steady-if f false m n km kn = kn

  in_transaction-steady :
      {X : Type 0} (f : Db → X) (o : Option (A × Db)) (w : World)
      → ((a : A) (db : Db) → o ≡ some (a, db) → f db ≡ f w.working)
      → f (in_transaction o w).1.working ≡ f w.working
  in_transaction-steady f none w same = refl
  in_transaction-steady f (some (a, db)) w same = same a db refl

  pub Steady-statement :
      {X : Type 0} (f : Db → X) (effect : Effect A)
      → ((db : Db) (a : A) (db' : Db) → effect db ≡ some (a, db') → f db' ≡ f db)
      → Steady f (statement effect)
  unfolding statement
  Steady-statement f effect same = record {
    at = λ w. elim (Bool-cases (fault_now w.faults)) [
      | inl failed ↦ rw failed refl
      | inr fine ↦ rw fine (in_transaction-steady f (effect w.working) (tick w) (same w.working))
    ];
  }

  pub Steady-reading : {X : Type 0} (f : Db → X) (g : Db → A) → Steady f (statement (reading g))
  Steady-reading f g = Steady-statement f (reading g) (λ db a db' h. ap f (sym (answer_of h).1))

pub Steady-lock_path :
    {X : Type 0} (f : Db → X) (path : Text) (exclusive : Bool) → Steady f (lock_path path exclusive)
unfolding lock_path
Steady-lock_path f path exclusive = record {
  at = λ w. elim (Bool-cases (fault_now w.faults)) [
    | inl failed ↦ rw failed refl
    | inr fine ↦ rw fine refl
  ];
}

pub Steady-nextval : {X : Type 0} (f : Db → X) → Steady f nextval
unfolding nextval
Steady-nextval f = record {
  at = λ w. elim (Bool-cases (fault_now w.faults)) [
    | inl failed ↦ rw failed refl
    | inr fine ↦ rw fine refl
  ];
}

pub Steady-draw : {X : Type 0} (f : Db → X) → Steady f draw
unfolding draw
Steady-draw f = record { at = λ w. after w.entropy w }
  where
    after : (pool : List (List ℕ)) (w : World) → f (take_bytes pool w).1.working ≡ f w.working
    after [] w = refl
    after (bytes ∷ pool) w = refl

pub ruleset steady_rules = (
  Steady-pure, Steady-lift, Steady-if, Steady-reading, Steady-lock_path, Steady-draw, Steady-bind,
)
