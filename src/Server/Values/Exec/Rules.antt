-- ===== src/Server/Values/Exec/Rules.antt =====
-- Rules for runs of the service: what a run that succeeded went through, and when the committed
-- tables stay as they were.
use sovereign_config.Prelude.{
  ℕ, ◌/◌, ◌%◌, ◌≡◌, refl, ◌∙◌, subst, inl, inr, Bool, true, false, List, [], ◌∷◌, arith, ltb,
  if◌then◌else◌, Bool-cases, ok, err, Text, Result,
}
use sovereign_config.Server.Rpc.{Status, OffsetDateTime, to_timestamp, nanos_per_second}
use sovereign_config.Server.Values.Exec.{
  World, Exec, pure, lift, ◌>>=◌, Effect, statement, begin, commit, lock_path, nextval, draw,
  continue_with, take_bytes, tick, fault_now,
}

-- Every answer of `m` is in `Q`.
pub record Ensures {A : Type 0} (Q : A → Type 0) (m : Exec A) : Type 0 where
  pub at : (w : World) (a : A) → (m w).0 ≡ ok a → Q a

module _ {A B : Type 0} {Q : B → Type 0} where
  after-Ensures :
      (f : A → Exec B) (r : Result Status A × World)
      → ((a : A) → r.0 ≡ ok a → Ensures Q (f a))
      → (b : B) → (continue_with f r).0 ≡ ok b
      → Q b
  after-Ensures f (ok a, w) kf b h = (kf a refl).at w b h
  after-Ensures f (err e, w) kf b h = cc

  pub Ensures-bind :
      (P : A → Type 0) (m : Exec A) (f : A → Exec B)
      → Ensures P m
      → ((a : A) → P a → Ensures Q (f a))
      → Ensures Q (m >>= f)
  unfolding ◌>>=◌
  Ensures-bind P m f km kf = record {
    at = λ w b h. after-Ensures f (m w) (λ a answered. kf a (km.at w a answered)) b h;
  }

  pub Ensures-lift_bind :
      (r : Result Status A) (f : A → Exec B)
      → ((a : A) → r ≡ ok a → Ensures Q (f a))
      → Ensures Q (lift r >>= f)
  unfolding ◌>>=◌ lift
  Ensures-lift_bind r f kf = record { at = λ w b h. after-Ensures f (r, w) kf b h }

pub Ensures-lift :
    {A : Type 0} {Q : A → Type 0} (r : Result Status A)
    → ((a : A) → r ≡ ok a → Q a)
    → Ensures Q (lift r)
unfolding lift
Ensures-lift r k = record { at = λ w a h. k a h }

pub Ensures-pure : {A : Type 0} {Q : A → Type 0} (a : A) → Q a → Ensures Q (pure a)
unfolding pure
Ensures-pure {A} {Q} a q = record { at = λ w b h. subst Q (answer_eq h) q }
  where
    answer_eq : {x y : A} → ◌≡◌ {A = Result Status A} (ok x) (ok y) → x ≡ y
    answer_eq h = cc

-- `m` leaves the committed tables as they were, whatever it answers.
pub record Quiet {A : Type 0} (m : Exec A) : Type 0 where
  pub at : (w : World) → (m w).1.committed ≡ w.committed

-- `m` leaves the committed tables as they were if it answers with an error.
pub record Atomic {A : Type 0} (m : Exec A) : Type 0 where
  pub at : (w : World) (e : Status) → (m w).0 ≡ err e → (m w).1.committed ≡ w.committed

-- `m` always answers.
pub record Answers {A : Type 0} (m : Exec A) : Type 0 where
  pub at : (w : World) → (a : A) × ((m w).0 ≡ ok a)

module _ {A : Type 0} where
  pub Quiet-pure : (a : A) → Quiet (pure a)
  unfolding pure
  Quiet-pure a = record { at = λ w. refl }

  pub Quiet-lift : (r : Result Status A) → Quiet (lift r)
  unfolding lift
  Quiet-lift r = record { at = λ w. refl }

  pub Quiet-statement : (effect : Effect A) → Quiet (statement effect)
  unfolding statement
  Quiet-statement effect = record { at = λ w. ground arith }

  pub Quiet-if : (b : Bool) (m n : Exec A) → Quiet m → Quiet n → Quiet (if b then m else n)
  Quiet-if true m n km kn = km
  Quiet-if false m n km kn = kn

  pub Atomic-Quiet : (m : Exec A) → Quiet m → Atomic m
  Atomic-Quiet m km = record { at = λ w e h. km.at w }

  pub Answers-pure : (a : A) → Answers (pure a)
  unfolding pure
  Answers-pure a = record { at = λ w. (a, refl) }

pub Quiet-begin : Quiet begin
unfolding begin
Quiet-begin = record { at = λ w. ground arith }

pub Quiet-nextval : Quiet nextval
unfolding nextval
Quiet-nextval = record { at = λ w. ground arith }

pub Quiet-lock_path : (path : Text) (exclusive : Bool) → Quiet (lock_path path exclusive)
unfolding lock_path
Quiet-lock_path path exclusive = record { at = λ w. ground arith }

take_bytes-committed :
    (pool : List (List ℕ)) (w : World) → (take_bytes pool w).1.committed ≡ w.committed
take_bytes-committed [] w = refl
take_bytes-committed (bytes ∷ pool) w = refl

pub Quiet-draw : Quiet draw
unfolding draw
Quiet-draw = record { at = λ w. take_bytes-committed w.entropy w }

module _ {A B : Type 0} where
  after-Quiet :
      (f : A → Exec B)
      → ((a : A) → Quiet (f a))
      → (r : Result Status A × World) → (continue_with f r).1.committed ≡ r.1.committed
  after-Quiet f kf (ok a, w) = (kf a).at w
  after-Quiet f kf (err e, w) = refl

  pub Quiet-bind :
      (m : Exec A) (f : A → Exec B) → Quiet m → ((a : A) → Quiet (f a)) → Quiet (m >>= f)
  unfolding ◌>>=◌
  Quiet-bind m f km kf = record { at = λ w. after-Quiet f kf (m w) ∙ km.at w }

  after-Atomic :
      (f : A → Exec B)
      → ((a : A) → Atomic (f a))
      → (r : Result Status A × World) (e : Status) → (continue_with f r).0 ≡ err e
      → (continue_with f r).1.committed ≡ r.1.committed
  after-Atomic f kf (ok a, w) e h = (kf a).at w e h
  after-Atomic f kf (err e', w) e h = refl

  -- Up to the commit the parts of a block are quiet, so that its rest decides.
  pub Atomic-bind :
      (m : Exec A) (f : A → Exec B) → Quiet m → ((a : A) → Atomic (f a)) → Atomic (m >>= f)
  unfolding ◌>>=◌
  Atomic-bind m f km kf = record { at = λ w e h. after-Atomic f kf (m w) e h ∙ km.at w }

  after-Answers :
      (f : A → Exec B)
      → ((a : A) → Answers (f a))
      → (r : Result Status A × World) → (a : A) × (r.0 ≡ ok a)
      → (b : B) × ((continue_with f r).0 ≡ ok b)
  after-Answers f kf (ok a, w) answered = (kf a).at w
  after-Answers f kf (err e, w) (a, h) = cc

  pub Answers-bind :
      (m : Exec A) (f : A → Exec B) → Answers m → ((a : A) → Answers (f a)) → Answers (m >>= f)
  unfolding ◌>>=◌
  Answers-bind m f km kf = record { at = λ w. after-Answers f kf (m w) (km.at w) }

module _ {B : Type 0} where
  after-commit :
      (f : Unit {0} → Exec B)
      → ((w : World) → (b : B) × ((f tt w).0 ≡ ok b))
      → (w : World) (e : Status) → ((commit >>= f) w).0 ≡ err e
      → ((commit >>= f) w).1.committed ≡ w.committed
  unfolding ◌>>=◌ commit
  after-commit f answers w e h = elim (Bool-cases (fault_now w.faults)) [
    | inl failed ↦ rw failed refl
    | inr fine ↦
        let (b, answered) = answers (record (tick w) { committed = w.working }) in
        absurd (ground arith)
  ]

  -- What follows the commit must not fail.
  pub Atomic-commit : (f : Unit {0} → Exec B) → Answers (f tt) → Atomic (commit >>= f)
  Atomic-commit f kf = record { at = after-commit f kf.at }

-- The nanoseconds within a second fit an `i32`.
to_timestamp-ok :
    (value : OffsetDateTime)
    → to_timestamp value
      ≡ ok (record { seconds = value / nanos_per_second; nanos = value % nanos_per_second })
unfolding to_timestamp
to_timestamp-ok value =
    let fits : ltb (value % nanos_per_second) 2147483648 ≡ true = ground arith in rw fits refl

pub Answers-to_timestamp : (value : OffsetDateTime) → Answers (lift (to_timestamp value))
unfolding lift
Answers-to_timestamp value = record {
  at = λ w. (
    record { seconds = value / nanos_per_second; nanos = value % nanos_per_second },
    to_timestamp-ok value,
  );
}

pub ruleset quiet_rules = (
  Quiet-pure, Quiet-lift, Quiet-statement, Quiet-if, Quiet-begin, Quiet-lock_path, Quiet-nextval,
  Quiet-draw, Quiet-bind,
)

pub ruleset atomic_rules =
    (quiet_rules, Atomic-bind, Atomic-commit, Answers-bind, Answers-pure, Answers-to_timestamp)
