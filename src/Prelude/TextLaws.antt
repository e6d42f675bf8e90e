-- ===== src/Prelude/TextLaws.antt =====
-- Laws of the text operations: folding case, prefixes, and splitting at a separator.
use Prim.Native.Nat.{ℕ}
use mathlib.Core.Path.{◌≡◌, refl, sym, ap, ◌∙◌}
use mathlib.Core.Logic.{◌≢◌, inl, inr}
use mathlib.Core.Bool.{true, false, ◌||◌}
use mathlib.Core.Option.{some}
use mathlib.Core.List.{List, [], ◌∷◌, ◌++◌, map}
use native.Mathlib.Omega.{arith}
use sovereign_config.Prelude.Tests.{◌==◌, ==_iff, Bool-cases}
use sovereign_config.Prelude.Lists.{All, length}
use sovereign_config.Prelude.Texts.{
  Text, slash, lower, fold, strip_prefix, starts_with, contains, extend_head, split, join,
}

pub lower_idem : (c : ℕ) → lower (lower c) ≡ lower c
unfolding lower
lower_idem c = ground arith

pub lower-eq_slash : (c : ℕ) → (lower c == slash) ≡ (c == slash)
unfolding lower
lower-eq_slash c = ground arith

pub fold_idem : (s : Text) → fold (fold s) ≡ fold s
unfolding fold
fold_idem [] = refl
fold_idem (c ∷ s) = cc (lower_idem c, fold_idem s)

pub fold-append : (s t : Text) → fold (s ++ t) ≡ fold s ++ fold t
unfolding fold
fold-append [] t = refl
fold-append (c ∷ s) t = ap (λ r. lower c ∷ r) (fold-append s t)

pub length-fold : (s : Text) → length (fold s) ≡ length s
unfolding fold
length-fold [] = refl
length-fold (c ∷ s) = omega (arith, length-fold s)

pub strip_prefix-append : (p r : Text) → strip_prefix (p ++ r) p ≡ some r
unfolding strip_prefix
strip_prefix-append [] [] = refl
strip_prefix-append [] (a ∷ r) = refl
strip_prefix-append (b ∷ p) r = ground (arith, strip_prefix-append p r)

pub strip_prefix_sound : (s p : Text) {r : Text} → strip_prefix s p ≡ some r → s ≡ p ++ r
unfolding strip_prefix
strip_prefix_sound [] [] h = ground arith
strip_prefix_sound (a ∷ s) [] h = ground arith
strip_prefix_sound [] (b ∷ p) h = cc
strip_prefix_sound (a ∷ s) (b ∷ p) {r} h = ground (arith, strip_prefix_sound s p {r = r})

pub starts_with-append : (p r : Text) → starts_with (p ++ r) p ≡ true
unfolding starts_with
starts_with-append [] [] = refl
starts_with-append [] (a ∷ r) = refl
starts_with-append (b ∷ p) r = ground (arith, starts_with-append p r)

pub starts_with_sound : (s p : Text) → starts_with s p ≡ true → (r : Text) × (s ≡ p ++ r)
unfolding starts_with
starts_with_sound [] [] h = ([], refl)
starts_with_sound (a ∷ s) [] h = (a ∷ s, refl)
starts_with_sound [] (b ∷ p) h = cc
starts_with_sound (a ∷ s) (b ∷ p) h =
    let (r, e) = starts_with_sound s p (ground arith) in (r, ground arith)

pub extend_head-map-fold :
    (c : ℕ) (parts : List Text)
    → map fold (extend_head c parts) ≡ extend_head (lower c) (map fold parts)
unfolding fold
extend_head-map-fold c [] = refl
extend_head-map-fold c (part ∷ parts) = refl

-- Folding neither makes nor removes a separator.
pub split-fold : (s : Text) → split slash (fold s) ≡ map fold (split slash s)
unfolding split fold
split-fold [] = refl
split-fold (c ∷ s) = elim (Bool-cases (c == slash)) [
  | inl e ↦ rw (lower-eq_slash c, e) (ap (λ r. [] ∷ r) (split-fold s))
  | inr e ↦
      rw (lower-eq_slash c, e)
        (ap (extend_head (lower c)) (split-fold s) ∙ sym (extend_head-map-fold c (split slash s)))
]

pub split-ne-nil : (c : ℕ) (s : Text) → split c s ≢ []
unfolding split
split-ne-nil c [] = cc
split-ne-nil c (a ∷ s) = elim (Bool-cases (a == c)) [
  | inl e ↦ rw e (cc)
  | inr e ↦ rw e (extend (split c s))
]
  where
    extend : (parts : List Text) → extend_head a parts ≢ []
    extend [] = cc
    extend (part ∷ parts) = cc

join-extend_head :
    (c a : ℕ) (parts : List Text)
    → parts ≢ []
    → join (c ∷ []) (extend_head a parts) ≡ a ∷ join (c ∷ []) parts
unfolding join
join-extend_head c a [] h = absurd (h refl)
join-extend_head c a (part ∷ []) h = refl
join-extend_head c a (part ∷ (next ∷ parts)) h = refl

join-cons_nil :
    (c : ℕ) (parts : List Text) → parts ≢ [] → join (c ∷ []) ([] ∷ parts) ≡ c ∷ join (c ∷ []) parts
unfolding join
join-cons_nil c [] h = absurd (h refl)
join-cons_nil c (part ∷ parts) h = refl

-- Joining what was split gives the text back.
pub join-split : (c : ℕ) (s : Text) → join (c ∷ []) (split c s) ≡ s
unfolding split
join-split c [] = unfold join in refl
join-split c (a ∷ s) = elim (Bool-cases (a == c)) [
  | inl e ↦
      rw e (join-cons_nil c (split c s) (split-ne-nil c s) ∙ cc (join-split c s, (==_iff a c).0 e))
  | inr e ↦
      rw e (join-extend_head c a (split c s) (split-ne-nil c s) ∙ ap (λ r. a ∷ r) (join-split c s))
]

-- A text without the separator is one part, and so is what stands before the first separator.
pub split_part : (c : ℕ) (s : Text) → contains s c ≡ false → split c s ≡ s ∷ []
unfolding split contains
split_part c [] h = refl
split_part c (a ∷ s) h = ground (arith, split_part c s)

pub split-append :
    (c : ℕ) (s rest : Text) → contains s c ≡ false → split c (s ++ (c ∷ rest)) ≡ s ∷ split c rest
unfolding split contains
split-append c [] rest h = ground arith
split-append c (a ∷ s) rest h = ground (arith, split-append c s rest)

extend_head_free :
    (c a : ℕ) (parts : List Text)
    → (a == c) ≡ false
    → All (λ part. contains part c ≡ false) parts
    → All (λ part. contains part c ≡ false) (extend_head a parts)
unfolding contains
extend_head_free c a [] e h = (ground arith, tt)
extend_head_free c a (part ∷ parts) e h = (ground arith, h.1)

-- No part holds the separator.
pub split_free : (c : ℕ) (s : Text) → All (λ part. contains part c ≡ false) (split c s)
unfolding split
split_free c [] = (unfold contains in refl, tt)
split_free c (a ∷ s) = elim (Bool-cases (a == c)) [
  | inl e ↦ rw e (unfold contains in refl, split_free c s)
  | inr e ↦ rw e (extend_head_free c a (split c s) e (split_free c s))
]

pub contains-append : (s t : Text) (c : ℕ) → contains (s ++ t) c ≡ (contains s c || contains t c)
unfolding contains
contains-append [] t c = refl
contains-append (a ∷ s) t c = ground (arith, contains-append s t c)
