-- ===== src/Server/Values/Exec/Turns.antt =====
-- What an operation leaves in force when it answers with success.
use sovereign_config.Prelude.{◌≡◌, refl, inl, inr, [], arith, Bool-cases, ok, err, Result}
use sovereign_config.Server.Rpc.{Status}
use sovereign_config.Server.Values.Exec.{Db, World, Exec, lift, ◌>>=◌, begin, fault_now, tick}
use sovereign_config.Server.Values.Exec.Commits.{Within}

-- From committed tables in `P`, an answer of `m` leaves committed tables in `C`.
pub record Turns {A : Type 0} (P C : Db → Type 0) (m : Exec A) : Type 0 where
  pub at : (w : World) (a : A) → P w.committed → (m w).0 ≡ ok a → C (m w).1.committed

pub Turns-lift :
    {A B : Type 0} {P C : Db → Type 0} (r : Result Status A) (f : A → Exec B)
    → ((a : A) → Turns P C (f a))
    → Turns P C (lift r >>= f)
unfolding ◌>>=◌ lift
Turns-lift (ok a) f kf = record { at = λ w b c h. (kf a).at w b c h }
Turns-lift (err e) f kf = record { at = λ w b c h. cc }

pub Turns-lift_known :
    {A B : Type 0} {P C : Db → Type 0} (r : Result Status A) (f : A → Exec B)
    → ((a : A) → r ≡ ok a → Turns P C (f a))
    → Turns P C (lift r >>= f)
unfolding ◌>>=◌ lift
Turns-lift_known (ok a) f kf = record { at = λ w b c h. (kf a refl).at w b c h }
Turns-lift_known (err e) f kf = record { at = λ w b c h. cc }

pub Turns-begin :
    {B : Type 0} {P C : Db → Type 0} (f : Unit {0} → Exec B)
    → Within C P (f tt)
    → Turns P C (begin >>= f)
unfolding ◌>>=◌ begin
Turns-begin f kf = record {
  at = λ w b c h. elim (Bool-cases (fault_now w.faults)) [
    | inl failed ↦ absurd (ground arith)
    | inr fine ↦
        rw fine (kf.at (record (tick w) { working = w.committed; locks = [] }) b c (rw fine at h))
  ];
}
