-- ===== src/Server/Values/Paths/Collision.antt =====
-- values/paths.rs: when two fold paths collide, in Rust and in SQL.
use sovereign_config.Prelude.{
  ◌≡◌, ◌↔◌, ◌⊎◌, inl, inr, true, ◌||◌, [], ◌∷◌, ◌++◌, arith, Bool-cases, Text, slash, text_eq,
  text_eq_sound, text_eq_iff, starts_with,
}
use sovereign_config.Server.Auth.Grants.{continues_segment-starts_with, starts_below_iff}
use sovereign_config.Server.Values.Exec.{PathRow, lowercase_path}
use sovereign_config.Server.Values.Store.{nests_with}
use sovereign_config.Server.Values.Paths.{paths_collide}

-- `paths_collide` decides whether two fold paths are the same, or one continues the other after a
-- separator.
pub paths_collide_iff :
    (first second : Text)
    → (paths_collide first second ≡ true) ↔ (
        (first ≡ second)
        ⊎ (((rest : Text) × (first ≡ second ++ (slash ∷ rest)))
            ⊎ ((rest : Text) × (second ≡ first ++ (slash ∷ rest)))))
unfolding paths_collide
paths_collide_iff first second = (to, from)
  where
    to :
        paths_collide first second ≡ true
        → (first ≡ second)
          ⊎ (((rest : Text) × (first ≡ second ++ (slash ∷ rest)))
              ⊎ ((rest : Text) × (second ≡ first ++ (slash ∷ rest))))
    to h =
        let above = continues_segment-starts_with first second in
        let below = continues_segment-starts_with second first in
        elim (Bool-cases (text_eq first second)) [
          | inl e ↦ inl (text_eq_sound first second e)
          | inr e ↦ elim (Bool-cases (starts_with first (second ++ (slash ∷ [])))) [
            | inl e' ↦ inr (inl ((starts_below_iff first second).0 e'))
            | inr e' ↦ inr (inr ((starts_below_iff second first).0 (ground arith)))
          ]
        ]

    from :
        (first ≡ second)
          ⊎ (((rest : Text) × (first ≡ second ++ (slash ∷ rest)))
              ⊎ ((rest : Text) × (second ≡ first ++ (slash ∷ rest))))
        → paths_collide first second ≡ true
    from (inl same) = let e = (text_eq_iff first second).1 same in ground arith
    from (inr (inl h)) =
        let above = continues_segment-starts_with first second in
        let e = (starts_below_iff first second).1 h in ground arith
    from (inr (inr h)) =
        let below = continues_segment-starts_with second first in
        let e = (starts_below_iff second first).1 h in ground arith

-- The collision test of the code and that of the statement agree on a row: a path collides with it
-- exactly where it is the row's path or the statement finds the two nested.
pub paths_collide-nests_with :
    (key : Text) (row : PathRow)
    → paths_collide (lowercase_path row) key
      ≡ (text_eq (lowercase_path row) key || nests_with key row)
unfolding paths_collide nests_with
paths_collide-nests_with key row =
    let above = continues_segment-starts_with (lowercase_path row) key in
    let below = continues_segment-starts_with key (lowercase_path row) in ground arith
