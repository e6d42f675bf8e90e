-- ===== src/Server/Auth/Validation.antt =====
-- auth.rs: what `validate_grants` makes of the grants of a token.
use sovereign_config.Prelude.{
  ◌≡◌, refl, sym, subst, ◌↔◌, ◌⊎◌, inl, inr, true, ◌||◌, some, List, [], ◌∷◌, ◌++◌, arith,
  Bool-cases, Option-cases, Any, here, ok, there, is_empty, Text, text_eq, text_eq_sound, text_le,
}
use sovereign_config.Core.Path.Scope.{Covers}
use sovereign_config.Server.Auth.{
  Permission, Grant, has_permission, RawGrant, canonical_prefix, merge_grant, collect_grants,
  validate_grants,
}

-- A grant with a permission that covers a fold key.
abbrev pub Gives : Permission → Text → Grant → Type 0
Gives permission path grant =
    (has_permission grant.permissions permission ≡ true) × Covers grant.prefix path

-- The same of a grant as the token carries it: its prefix counts in its canonical form.
abbrev pub GivesRaw : Permission → Text → RawGrant → Type 0
GivesRaw permission path raw =
    (prefix : Text) × (canonical_prefix raw.prefix ≡ some prefix)
    × (has_permission raw.permissions permission ≡ true)
    × Covers prefix path

has_permission-append :
    (ps qs : List Permission) (permission : Permission)
    → has_permission (ps ++ qs) permission
      ≡ (has_permission ps permission || has_permission qs permission)
has_permission-append [] qs permission = refl
has_permission-append (p ∷ ps) qs permission =
    ground (arith, has_permission-append ps qs permission)

module _ (permission : Permission) (path : Text) where
  merge_grant-keeps :
      (prefix : Text) (permissions : List Permission) (grants : List Grant)
      → Any (Gives permission path) grants
      → Any (Gives permission path) (merge_grant prefix permissions grants)
  unfolding merge_grant
  merge_grant-keeps prefix permissions [] m = elim m [ ]
  merge_grant-keeps prefix permissions (grant ∷ grants) (here (has, covers)) =
      elim (Bool-cases (text_eq grant.prefix prefix)) [
        | inl e ↦ rw e (
            here (
              ground (arith, has_permission-append grant.permissions permissions permission),
              covers,
            ))
        | inr e ↦ elim (Bool-cases (text_le prefix grant.prefix)) [
          | inl e' ↦ rw (e, e') (there (here (has, covers)))
          | inr e' ↦ rw (e, e') (here (has, covers))
        ]
      ]
  merge_grant-keeps prefix permissions (grant ∷ grants) (there m) =
      let later = merge_grant-keeps prefix permissions grants m in
      elim (Bool-cases (text_eq grant.prefix prefix)) [
        | inl e ↦ rw e (there m)
        | inr e ↦ elim (Bool-cases (text_le prefix grant.prefix)) [
          | inl e' ↦ rw (e, e') (there (there m))
          | inr e' ↦ rw (e, e') (there later)
        ]
      ]

  merge_grant-adds :
      (prefix : Text) (permissions : List Permission) (grants : List Grant)
      → has_permission permissions permission ≡ true
      → Covers prefix path
      → Any (Gives permission path) (merge_grant prefix permissions grants)
  unfolding merge_grant
  merge_grant-adds prefix permissions [] has covers = here (has, covers)
  merge_grant-adds prefix permissions (grant ∷ grants) has covers =
      let later = merge_grant-adds prefix permissions grants has covers in
      elim (Bool-cases (text_eq grant.prefix prefix)) [
        | inl e ↦ rw e (
            here (
              ground (arith, has_permission-append grant.permissions permissions permission),
              subst (λ t. Covers t path) (sym (text_eq_sound grant.prefix prefix e)) covers,
            ))
        | inr e ↦ elim (Bool-cases (text_le prefix grant.prefix)) [
          | inl e' ↦ rw (e, e') (here (has, covers))
          | inr e' ↦ rw (e, e') (there later)
        ]
      ]

  abbrev Added : Text → List Permission → List Grant → Type 0
  Added prefix permissions grants =
      ((has_permission permissions permission ≡ true) × Covers prefix path)
      ⊎ Any (Gives permission path) grants

  -- What a merged first grant gives was added or was there.
  split_merged :
      (prefix : Text) (permissions : List Permission) (grant : Grant) (grants : List Grant)
      → text_eq grant.prefix prefix ≡ true
      → Any
          (Gives permission path)
          (record grant { permissions = grant.permissions ++ permissions } ∷ grants)
      → Added prefix permissions (grant ∷ grants)
  split_merged prefix permissions grant grants e (there m) = inr (there m)
  split_merged prefix permissions grant grants e (here (has, covers)) =
      elim (Bool-cases (has_permission grant.permissions permission)) [
        | inl had ↦ inr (here (had, covers))
        | inr lacked ↦ inl (
          ground (arith, has_permission-append grant.permissions permissions permission),
          subst (λ t. Covers t path) (text_eq_sound grant.prefix prefix e) covers,
        )
      ]

  split_inserted :
      (prefix : Text) (permissions : List Permission) (grants : List Grant)
      → Any (Gives permission path) (record { prefix = prefix; permissions = permissions } ∷ grants)
      → Added prefix permissions grants
  split_inserted prefix permissions grants (here g) = inl g
  split_inserted prefix permissions grants (there m) = inr m

  split_later :
      (prefix : Text) (permissions : List Permission) (grant : Grant) (grants merged : List Grant)
      → (Any (Gives permission path) merged → Added prefix permissions grants)
      → Any (Gives permission path) (grant ∷ merged)
      → Added prefix permissions (grant ∷ grants)
  split_later prefix permissions grant grants merged rest (here g) = inr (here g)
  split_later prefix permissions grant grants merged rest (there m) = elim (rest m) [
    | inl added ↦ inl added
    | inr had ↦ inr (there had)
  ]

  merge_grant-only :
      (prefix : Text) (permissions : List Permission) (grants : List Grant)
      → Any (Gives permission path) (merge_grant prefix permissions grants)
      → Added prefix permissions grants
  unfolding merge_grant
  merge_grant-only prefix permissions [] m = split_inserted prefix permissions [] m
  merge_grant-only prefix permissions (grant ∷ grants) m =
      let rest = merge_grant-only prefix permissions grants in
      elim (Bool-cases (text_eq grant.prefix prefix)) [
        | inl e ↦ split_merged prefix permissions grant grants e (rw (e, merge_grant) at m)
        | inr e ↦ elim (Bool-cases (text_le prefix grant.prefix)) [
          | inl e' ↦
              split_inserted prefix permissions (grant ∷ grants) (rw (e, e', merge_grant) at m)
          | inr e' ↦
              split_later prefix permissions grant grants _ rest (rw (e, e', merge_grant) at m)
        ]
      ]

collect_grants-nil :
    (grants : List Grant) {collected : List Grant}
    → collect_grants grants [] ≡ ok collected
    → grants ≡ collected
unfolding collect_grants
collect_grants-nil grants h = cc

collect_grants-step :
    (grants : List Grant) (raw : RawGrant) (raws : List RawGrant) {collected : List Grant}
    → collect_grants grants (raw ∷ raws) ≡ ok collected
    → (prefix : Text) × (canonical_prefix raw.prefix ≡ some prefix)
      × (collect_grants (merge_grant prefix raw.permissions grants) raws ≡ ok collected)
unfolding collect_grants
collect_grants-step grants raw raws h = elim (Option-cases (canonical_prefix raw.prefix)) [
  | inl bad ↦ absurd (ground arith)
  | inr (prefix, e) ↦ elim (Bool-cases (is_empty raw.permissions)) [
    | inl bare ↦ absurd (ground arith)
    | inr some_permission ↦ (prefix, e, ground arith)
  ]
]

module _ (permission : Permission) (path : Text) where
  collect_grants-keeps :
      (grants : List Grant) (raws : List RawGrant) {collected : List Grant}
      → collect_grants grants raws ≡ ok collected
      → Any (Gives permission path) grants
      → Any (Gives permission path) collected
  collect_grants-keeps grants [] h m =
      subst (Any (Gives permission path)) (collect_grants-nil grants h) m
  collect_grants-keeps grants (raw ∷ raws) h m =
      let (prefix, e, rest) = collect_grants-step grants raw raws h in
      collect_grants-keeps (merge_grant prefix raw.permissions grants) raws rest
        (merge_grant-keeps permission path prefix raw.permissions grants m)

  collect_grants-adds :
      (grants : List Grant) (raws : List RawGrant) {collected : List Grant}
      → collect_grants grants raws ≡ ok collected
      → Any (GivesRaw permission path) raws
      → Any (Gives permission path) collected
  collect_grants-adds grants [] h m = elim m [ ]
  collect_grants-adds grants (raw ∷ raws) h (there m) =
      let (prefix, e, rest) = collect_grants-step grants raw raws h in
      collect_grants-adds (merge_grant prefix raw.permissions grants) raws rest m
  collect_grants-adds grants (raw ∷ raws) h (here (named, known, has, covers)) =
      let (prefix, e, rest) = collect_grants-step grants raw raws h in
      let same : named ≡ prefix = cc (known, e) in
      collect_grants-keeps (merge_grant prefix raw.permissions grants) raws rest (
        merge_grant-adds permission path prefix raw.permissions grants has
          (subst (λ t. Covers t path) same covers))

  collect_grants-only :
      (grants : List Grant) (raws : List RawGrant) {collected : List Grant}
      → collect_grants grants raws ≡ ok collected
      → Any (Gives permission path) collected
      → Any (Gives permission path) grants ⊎ Any (GivesRaw permission path) raws
  collect_grants-only grants [] h m =
      inl (subst (Any (Gives permission path)) (sym (collect_grants-nil grants h)) m)
  collect_grants-only grants (raw ∷ raws) h m =
      let (prefix, e, rest) = collect_grants-step grants raw raws h in
      elim (collect_grants-only (merge_grant prefix raw.permissions grants) raws rest m) [
        | inr later ↦ inr (there later)
        | inl merged ↦
            elim (merge_grant-only permission path prefix raw.permissions grants merged) [
              | inl (has, covers) ↦ inr (here (prefix, e, has, covers))
              | inr had ↦ inl had
            ]
      ]

-- The grants that `validate_grants` makes of a token's give a permission at a fold key exactly where
-- one of the token's grants does, its prefix taken in its canonical form: merging the grants of one
-- prefix loses no permission and adds none.
pub validate_grants_iff :
    (permission : Permission) (path : Text) (raws : List RawGrant) (grants : List Grant)
    → validate_grants raws ≡ ok grants
    → Any (Gives permission path) grants ↔ Any (GivesRaw permission path) raws
unfolding validate_grants
validate_grants_iff permission path raws grants h =
    (only, collect_grants-adds permission path [] raws h)
  where
    only : Any (Gives permission path) grants → Any (GivesRaw permission path) raws
    only m = elim (collect_grants-only permission path [] raws h m) [
      | inl none_yet ↦ elim none_yet [ ]
      | inr raw ↦ raw
    ]
