-- ===== src/Core/Path/Scope.antt =====
-- What "at or below" means, and that `is_at_or_below` decides it.
use sovereign_config.Prelude.{
  ℕ, zero, suc, ◌≤◌, ◌≡◌, refl, sym, ap, ◌∙◌, ◌↔◌, ◌⊎◌, inl, inr, true, false, ◌&&◌, [], ◌∷◌, ◌++◌,
  append-nil, arith, leb, ==_iff, Bool-cases, length, take, drop, length-append, take-append_length,
  drop-append_length, take-append-drop, Text, slash, text_eq, text_eq_sound, text_eq_iff, lower,
  fold, eq_ignore_ascii_case, lower-eq_slash, fold-append, length-fold,
}
use sovereign_config.Core.Path.{ConfigPath, ends_segment, is_at_or_below, fold_key}

-- The fold key `path` is `base` itself or continues it with a separator; everything is below the
-- tree root.
abbrev pub Covers : Text → Text → Type 0
Covers base path =
    (base ≡ slash ∷ []) ⊎ ((path ≡ base) ⊎ ((rest : Text) × (path ≡ base ++ (slash ∷ rest))))

fold-take : (n : ℕ) (s : Text) → fold (take n s) ≡ take n (fold s)
unfolding fold
fold-take zero s = refl
fold-take (suc n) [] = refl
fold-take (suc n) (c ∷ s) = ap (λ r. lower c ∷ r) (fold-take n s)

fold-drop : (n : ℕ) (s : Text) → fold (drop n s) ≡ drop n (fold s)
unfolding fold
fold-drop zero s = refl
fold-drop (suc n) [] = refl
fold-drop (suc n) (c ∷ s) = fold-drop n s

ends_segment-fold : (s : Text) → ends_segment (fold s) ≡ ends_segment s
unfolding fold
ends_segment-fold [] = refl
ends_segment-fold (c ∷ s) = lower-eq_slash c

ends_segment_cases :
    (s : Text) → ends_segment s ≡ true → (s ≡ []) ⊎ ((rest : Text) × (s ≡ slash ∷ rest))
ends_segment_cases [] h = inl refl
ends_segment_cases (c ∷ s) h = inr (s, ap (λ b. b ∷ s) ((==_iff c slash).0 h))

length-le-append : (s t : Text) → length s ≤ length (s ++ t)
length-le-append s t = omega (arith, length-append {0} s t)

pub text_eq-slash-fold : (s : Text) → text_eq (fold s) (slash ∷ []) ≡ text_eq s (slash ∷ [])
unfolding text_eq fold
text_eq-slash-fold [] = refl
text_eq-slash-fold (c ∷ []) = ap (λ b. b && true) (lower-eq_slash c)
text_eq-slash-fold (c ∷ (d ∷ s)) = ap (λ b. b && false) (lower-eq_slash c)

-- A path that continues `base` at a segment boundary passes the three tests of `is_at_or_below`.
continues :
    (base path more : Text)
    → fold path ≡ fold base ++ more
    → ends_segment more ≡ true
    → (leb (length base) (length path)
        && eq_ignore_ascii_case (take (length base) path) base
        && ends_segment (drop (length base) path))
      ≡ true
continues base path more e h =
    let long : length base ≤ length path = omega (
      arith,
      ap length e,
      length-append {0} (fold base) more,
      length-fold base,
      length-fold path,
    ) in
    let same : fold (take (length base) path) ≡ fold base =
      fold-take (length base) path
      ∙ (rw (e, ← length-fold base) (take-append_length (fold base) more)) in
    let ends : ends_segment (drop (length base) path) ≡ true =
      sym (ends_segment-fold (drop (length base) path))
      ∙ rw (fold-drop, e, ← length-fold base, drop-append_length) h in
    ground (arith, text_eq_iff (fold (take (length base) path)) (fold base))

starts :
    (base path : Text)
    → length base ≤ length path
    → fold (take (length base) path) ≡ fold base
    → fold path ≡ fold base ++ fold (drop (length base) path)
starts base path long same =
    sym (ap fold (take-append-drop (length base) path))
    ∙ fold-append (take (length base) path) (drop (length base) path)
    ∙ ap (λ r. r ++ fold (drop (length base) path)) same

-- `is_at_or_below` decides `Covers` on the fold keys: the case that either path was written in does
-- not matter, and a sibling such as `/a/bc` is not below `/a/b`.
pub is_at_or_below_iff :
    (p base : ConfigPath) → (is_at_or_below p base ≡ true) ↔ Covers (fold_key base) (fold_key p)
unfolding is_at_or_below
is_at_or_below_iff p base = elim (Bool-cases (text_eq base.path (slash ∷ []))) [
  | inl e ↦ (
    λ _. inl (text_eq_sound (fold base.path) (slash ∷ []) (text_eq-slash-fold base.path ∙ e)),
    λ _. rw e,
  )
  | inr e ↦ rw e (to, from e)
]
  where
    to :
        (leb (length base.path) (length p.path)
            && eq_ignore_ascii_case (take (length base.path) p.path) base.path
            && ends_segment (drop (length base.path) p.path))
          ≡ true
        → Covers (fold base.path) (fold p.path)
    to h =
        let long : length base.path ≤ length p.path = ground arith in
        let same : fold (take (length base.path) p.path) ≡ fold base.path =
          text_eq_sound (fold (take (length base.path) p.path)) (fold base.path) (ground arith) in
        let split_at = starts base.path p.path long same in
        let ends : ends_segment (fold (drop (length base.path) p.path)) ≡ true =
          ends_segment-fold (drop (length base.path) p.path) ∙ ground arith in
        elim (ends_segment_cases (fold (drop (length base.path) p.path)) ends) [
          | inl nothing ↦ inr (inl (split_at ∙ rw nothing (append-nil (fold base.path))))
          | inr (rest, more) ↦ inr (inr (rest, split_at ∙ rw more))
        ]

    from :
        text_eq base.path (slash ∷ []) ≡ false
        → Covers (fold base.path) (fold p.path)
        → (leb (length base.path) (length p.path)
            && eq_ignore_ascii_case (take (length base.path) p.path) base.path
            && ends_segment (drop (length base.path) p.path))
          ≡ true
    from e (inl same) =
        absurd
          (ground (arith, text_eq-slash-fold base.path, text_eq_iff (fold base.path) (slash ∷ [])))
    from e (inr (inl same)) =
        continues base.path p.path [] (same ∙ sym (append-nil (fold base.path))) refl
    from e (inr (inr (rest, same))) = continues base.path p.path (slash ∷ rest) same refl
