-- ===== src/Core/Path/Grammar.antt =====
-- The grammar of path.rs as a set of texts, and that the parsers accept exactly that set.
use sovereign_config.Prelude.{
  ℕ, ◌≡◌, refl, sym, ap, ◌∙◌, ◌≢◌, ◌↔◌, inl, inr, Bool, true, false, List, [], ◌∷◌, ◌++◌, map,
  append-nil, arith, ◌==◌, ==_iff, Bool-cases, All, ok, is_empty, all, all_iff, Text, slash,
  text_eq, lower, fold, strip_prefix, contains, split, join, split-fold, split-ne-nil, join-split,
  split_part, split-append,
}
use sovereign_config.Core.Path.{
  ConfigPath, root, is_path_byte, is_fold_byte, is_segment, parse, parse_operation, parse_selection,
  fold_key,
}

-- `/segment/segment…`
abbrev pub render : List Text → Text
render [] = []
render (segment ∷ segments) = slash ∷ segment ++ render segments

-- `^/[A-Za-z0-9_-]+(/[A-Za-z0-9_-]+)*$`: one or more segments, each not empty and of the admitted
-- bytes.
pub record IsRendered (admits : ℕ → Bool) (value : Text) : Type 0 where
  pub segments : List Text
  pub some_segment : segments ≢ []
  pub each : All (λ segment. is_segment admits segment ≡ true) segments
  pub spelled : value ≡ render segments

pub path_byte-ne-slash : (byte : ℕ) → is_path_byte byte ≡ true → (byte == slash) ≡ false
unfolding is_path_byte
path_byte-ne-slash byte h = ground arith

pub fold_byte-path_byte : (byte : ℕ) → is_fold_byte byte ≡ true → is_path_byte byte ≡ true
unfolding is_path_byte is_fold_byte
fold_byte-path_byte byte h = ground arith

segment-free :
    (admits : ℕ → Bool)
    → ((byte : ℕ) → admits byte ≡ true → (byte == slash) ≡ false)
    → (segment : Text) → All (λ byte. admits byte ≡ true) segment
    → contains segment slash ≡ false
unfolding contains
segment-free admits apart [] h = refl
segment-free admits apart (byte ∷ segment) h =
    ground (arith, apart byte h.0, segment-free admits apart segment h.1)

is_segment-free :
    (admits : ℕ → Bool)
    → ((byte : ℕ) → admits byte ≡ true → (byte == slash) ≡ false)
    → (segment : Text) → is_segment admits segment ≡ true
    → contains segment slash ≡ false
unfolding is_segment
is_segment-free admits apart segment h =
    segment-free admits apart segment ((all_iff admits segment).0 (ground arith))

render-join :
    (segments : List Text) → segments ≢ [] → slash ∷ join (slash ∷ []) segments ≡ render segments
unfolding join
render-join [] h = absurd (h refl)
render-join (segment ∷ []) h = ap (λ r. slash ∷ r) (sym (append-nil segment))
render-join (segment ∷ (next ∷ segments)) h =
    ap (λ r. slash ∷ (segment ++ r)) (render-join (next ∷ segments) (cc))

pub split-render :
    (admits : ℕ → Bool)
    → ((byte : ℕ) → admits byte ≡ true → (byte == slash) ≡ false)
    → (segment : Text) (segments : List Text)
    → All (λ s. is_segment admits s ≡ true) (segment ∷ segments)
    → split slash (segment ++ render segments) ≡ segment ∷ segments
split-render admits apart segment [] h =
    rw append-nil (split_part slash segment (is_segment-free admits apart segment h.0))
split-render admits apart segment (next ∷ segments) h =
    split-append slash segment (next ++ render segments) (is_segment-free admits apart segment h.0)
    ∙ ap (λ r. segment ∷ r) (split-render admits apart next segments h.1)

-- What the parsers test of the text behind the first slash.
module _ (admits : ℕ → Bool)
    (apart : (byte : ℕ) → admits byte ≡ true → (byte == slash) ≡ false) where
  pub IsRendered-of_split :
      (relative : Text)
      → all (is_segment admits) (split slash relative) ≡ true
      → IsRendered admits (slash ∷ relative)
  IsRendered-of_split relative h = record {
    segments = split slash relative;
    some_segment = split-ne-nil slash relative;
    each = (all_iff (is_segment admits) (split slash relative)).0 h;
    spelled =
        ap (λ r. slash ∷ r) (sym (join-split slash relative))
        ∙ render-join (split slash relative) (split-ne-nil slash relative);
  }

  split_of_IsRendered :
      (value : Text)
      → IsRendered admits value
      → (relative : Text) × (value ≡ slash ∷ relative)
        × (is_empty relative ≡ false)
        × (all (is_segment admits) (split slash relative) ≡ true)
  split_of_IsRendered value r = go r.segments r.some_segment r.each r.spelled
    where
      go :
          (segments : List Text)
          → segments ≢ []
          → All (λ segment. is_segment admits segment ≡ true) segments
          → value ≡ render segments
          → (relative : Text) × (value ≡ slash ∷ relative)
            × (is_empty relative ≡ false)
            × (all (is_segment admits) (split slash relative) ≡ true)
      go [] nonempty each spelled = absurd (nonempty refl)
      go ([] ∷ segments) nonempty each spelled = absurd (unfold is_segment in cc (each.0))
      go ((byte ∷ segment) ∷ segments) nonempty each spelled = (
        (byte ∷ segment) ++ render segments,
        spelled,
        refl,
        rw (split-render admits apart (byte ∷ segment) segments each)
            ((all_iff (is_segment admits) ((byte ∷ segment) ∷ segments)).1 each),
      )

-- `parse_operation` accepts exactly the texts of the grammar, and keeps the text as written.
pub parse_operation_sound :
    (value : Text) (p : ConfigPath)
    → parse_operation value ≡ ok p
    → (p.path ≡ value) × IsRendered is_path_byte value
unfolding parse_operation strip_prefix
parse_operation_sound [] p h = cc
parse_operation_sound (byte ∷ relative) p h = elim (Bool-cases (byte == slash)) [
  | inl e ↦
      let same : byte ≡ slash = (==_iff byte slash).0 e in
      elim (Bool-cases (all (is_segment is_path_byte) (split slash relative))) [
        | inl each ↦ (
          ground arith,
          rw same (IsRendered-of_split is_path_byte path_byte-ne-slash relative each),
        )
        | inr bad ↦ absurd (ground arith)
      ]
  | inr e ↦ absurd (ground arith)
]

pub parse_operation_complete :
    (value : Text)
    → IsRendered is_path_byte value
    → parse_operation value ≡ ok (record { path = value })
unfolding parse_operation strip_prefix
parse_operation_complete value r =
    let (relative, spelled, filled, each) =
      split_of_IsRendered is_path_byte path_byte-ne-slash value r in
    rw spelled (ground arith)

-- `parse_operation` accepts exactly the grammar `^/[A-Za-z0-9_-]+(/[A-Za-z0-9_-]+)*$`, and the path
-- that it returns holds the text exactly as it was written.
pub parse_operation_iff :
    (value : Text) (p : ConfigPath)
    → (parse_operation value ≡ ok p) ↔ ((p.path ≡ value) × IsRendered is_path_byte value)
parse_operation_iff value p = (
  parse_operation_sound value p,
  λ (same, r).
      parse_operation_complete value r ∙ ap (λ (t : Text). ok (record { path = t })) (sym same),
)

lower-fold_byte : (byte : ℕ) → is_path_byte byte ≡ true → is_fold_byte (lower byte) ≡ true
unfolding is_path_byte is_fold_byte lower
lower-fold_byte byte h = ground arith

all-fold_byte :
    (segment : Text) → all is_path_byte segment ≡ true → all is_fold_byte (fold segment) ≡ true
unfolding all fold
all-fold_byte [] h = refl
all-fold_byte (byte ∷ segment) h = ground (arith, lower-fold_byte byte, all-fold_byte segment)

is_segment-fold :
    (segment : Text)
    → is_segment is_path_byte segment ≡ true
    → is_segment is_fold_byte (fold segment) ≡ true
unfolding is_segment fold all
is_segment-fold [] h = cc
is_segment-fold (byte ∷ segment) h = ground (arith, lower-fold_byte byte, all-fold_byte segment)

all_segments-fold :
    (segments : List Text)
    → all (is_segment is_path_byte) segments ≡ true
    → all (is_segment is_fold_byte) (map fold segments) ≡ true
unfolding all
all_segments-fold [] h = refl
all_segments-fold (segment ∷ segments) h =
    ground (arith, is_segment-fold segment, all_segments-fold segments)

parse-fold_relative :
    (relative : Text)
    → is_empty relative ≡ false
    → all (is_segment is_path_byte) (split slash relative) ≡ true
    → parse (fold (slash ∷ relative)) ≡ ok (record { path = fold (slash ∷ relative) })
unfolding parse
parse-fold_relative [] filled each = cc
parse-fold_relative (byte ∷ relative) filled each =
    let e : all (is_segment is_fold_byte) (split slash (fold (byte ∷ relative))) ≡ true =
      rw split-fold (all_segments-fold (split slash (byte ∷ relative)) each) in
    unfold fold lower strip_prefix in ground (arith, e)

-- The fold key of a path that a caller may select is itself accepted by `parse`, unchanged: what
-- the store keeps as a fold key can be read back as a path.
pub parse-fold_key :
    (value : Text) (p : ConfigPath)
    → parse_selection value ≡ ok p
    → parse (fold_key p) ≡ ok (record { path = fold_key p })
unfolding parse_selection
parse-fold_key value p h = elim (Bool-cases (text_eq value (slash ∷ []))) [
  | inl e ↦ let same : p ≡ root = ground arith in rw same (unfold parse text_eq fold lower in refl)
  | inr e ↦
      let (same, r) = parse_operation_sound value p (ground arith) in
      let (relative, spelled, filled, each) =
        split_of_IsRendered is_path_byte path_byte-ne-slash value r in
      rw (same, spelled) (parse-fold_relative relative filled each)
]
