-- ===== src/Server/Audit/Quoting.antt =====
-- audit/narrative.rs: a quoted value is bounded and on one line.
use sovereign_config.Prelude.{
  ℕ, zero, suc, ◌+◌, ◌≤◌, ◌≡◌, refl, ◌∙◌, inl, inr, Bool, false, ◌||◌, [], ◌∷◌, ◌++◌, map, arith,
  ltb, Bool-cases, length, take, any, length-append, Text, is_control, concat,
}
use sovereign_config.Server.Audit.Narrative.{quoted, quoted_value_characters, blank_control}

blank_control-visible : (character : ℕ) → is_control (blank_control character) ≡ false
blank_control-visible character = elim (Bool-cases (is_control character)) [
  | inl e ↦ rw e refl
  | inr e ↦ rw e e
]

any_control : (value : Text) (n : ℕ) → any is_control (map blank_control (take n value)) ≡ false
unfolding any
any_control value zero = refl
any_control [] (suc n) = refl
any_control (c ∷ value) (suc n) = ground (arith, blank_control-visible c, any_control value n)

length-blank : (value : Text) (n : ℕ) → length (map blank_control (take n value)) ≤ n
length-blank value zero = omega arith
length-blank [] (suc n) = omega arith
length-blank (c ∷ value) (suc n) = omega (arith, length-blank value n)

any-append : (p : ℕ → Bool) (s t : Text) → any p (s ++ t) ≡ (any p s || any p t)
unfolding any
any-append p [] t = refl
any-append p (c ∷ s) t = ground (arith, any-append p s t)

-- However long a value is and whatever it holds, its quotation in a narrative has no control
-- character, such as a line break, and at most three characters more than the limit.
pub quoted-bounded :
    (value : Text)
    → (any is_control (quoted value) ≡ false)
      × (length (quoted value) ≤ quoted_value_characters + 3)
unfolding quoted any concat
quoted-bounded value =
    let blank = map blank_control (take quoted_value_characters value) in
    let clean = any_control value quoted_value_characters in
    let short = length-blank value quoted_value_characters in
    elim (Bool-cases (ltb quoted_value_characters (length value))) [
      | inl e ↦ rw e (
        any-append is_control blank _ ∙ ground arith,
        omega (arith, length-append {0} blank (0x2026 ∷ (b'"' ∷ []))),
      )
      | inr e ↦ rw e (
        any-append is_control blank _ ∙ ground arith,
        omega (arith, length-append {0} blank (b'"' ∷ [])),
      )
    ]
