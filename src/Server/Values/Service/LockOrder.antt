-- ===== src/Server/Values/Service/LockOrder.antt =====
-- values/service.rs: the order in which `add_value_path` takes its locks.
use sovereign_config.Prelude.{
  ◌≡◌, refl, inl, inr, true, false, [], ◌∷◌, arith, Bool-cases, Text, fold, text_le,
}
use sovereign_config.Core.Path.{ConfigPath, fold_key, path_le}
use sovereign_config.Server.Values.Store.{lock_mutation_path}
use sovereign_config.Server.Values.Service.Alias.{lock_both}

text_le_total : (s t : Text) → text_le s t ≡ false → text_le t s ≡ true
unfolding text_le
text_le_total [] t h = cc
text_le_total (a ∷ s) [] h = refl
text_le_total (a ∷ s) (b ∷ t) h = ground (arith, text_le_total s t)

text_le_antisym : (s t : Text) → text_le s t ≡ true → text_le t s ≡ true → s ≡ t
unfolding text_le
text_le_antisym [] [] h k = refl
text_le_antisym [] (b ∷ t) h k = cc
text_le_antisym (a ∷ s) [] h k = cc
text_le_antisym (a ∷ s) (b ∷ t) h k = ground (arith, text_le_antisym s t)

lock_mutation_path-fold :
    (p q : ConfigPath) → fold_key p ≡ fold_key q → lock_mutation_path p ≡ lock_mutation_path q
unfolding lock_mutation_path
lock_mutation_path-fold p q same = rw same refl

-- The locks on two paths and what is above them are taken in one order, whichever of the two is the
-- source.
pub lock_both_comm :
    (source new_path : ConfigPath) → lock_both source new_path ≡ lock_both new_path source
unfolding lock_both path_le
lock_both_comm p q = elim (Bool-cases (text_le (fold p.path) (fold q.path))) [
  | inr after ↦ rw (after, text_le_total (fold p.path) (fold q.path) after) refl
  | inl before ↦ elim (Bool-cases (text_le (fold q.path) (fold p.path))) [
    | inr apart ↦ rw (before, apart) refl
    | inl both ↦
        let same =
          lock_mutation_path-fold p q (text_le_antisym (fold p.path) (fold q.path) before both) in
        rw (before, both, same) refl
  ]
]
