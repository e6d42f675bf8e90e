-- ===== src/Server/Auth/Grants.antt =====
-- auth.rs: what a grant covers, as a relation of fold keys.
use sovereign_config.Prelude.{
  ℕ, ◌≡◌, refl, sym, ap, ◌∙◌, subst, ◌≢◌, ◌↔◌, inl, inr, true, ◌||◌, List, [], ◌∷◌, ◌++◌,
  append_assoc, arith, Bool-cases, Any, here, ok, there, any_sound, any_complete, Text, slash,
  text_eq, text_eq_sound, text_eq_iff, lower, fold, strip_prefix, starts_with, starts_with-append,
  starts_with_sound,
}
use sovereign_config.Core.Path.{ConfigPath, fold_key, parse_operation, is_at_or_below}
use sovereign_config.Core.Path.Grammar.{render, parse_operation_sound}
use sovereign_config.Core.Path.Scope.{Covers, is_at_or_below_iff}
use sovereign_config.Server.Auth.{
  Permission, Grant, AuthenticatedPrincipal, has_permission, continues_segment, grant_covers,
  allows,
}

-- What remains of a text after a prefix starts with a separator exactly where the text starts with
-- the prefix and a separator.
pub continues_segment-starts_with :
    (s p : Text) → continues_segment (strip_prefix s p) ≡ starts_with s (p ++ (slash ∷ []))
unfolding strip_prefix starts_with
continues_segment-starts_with [] [] = refl
continues_segment-starts_with (a ∷ s) [] = ground arith
continues_segment-starts_with [] (b ∷ p) = refl
continues_segment-starts_with (a ∷ s) (b ∷ p) = ground (arith, continues_segment-starts_with s p)

append-cons : (p r : Text) (c : ℕ) → (p ++ (c ∷ [])) ++ r ≡ p ++ (c ∷ r)
append-cons [] r c = refl
append-cons (a ∷ p) r c = ap (λ t. a ∷ t) (append-cons p r c)

pub starts_below_iff :
    (s p : Text)
    → (starts_with s (p ++ (slash ∷ [])) ≡ true) ↔ ((rest : Text) × (s ≡ p ++ (slash ∷ rest)))
starts_below_iff s p = (
  λ h.
      let (rest, e) = starts_with_sound s (p ++ (slash ∷ [])) h in
      (rest, e ∙ append-cons p rest slash),
  λ (rest, e). rw (e, ← append-cons p rest slash) (starts_with-append (p ++ (slash ∷ [])) rest),
)

-- The test that grants, statements and paths share decides `Covers`.
pub Covers-iff :
    (base path : Text)
    → ((text_eq base (slash ∷ []) || (text_eq path base || starts_with path (base ++ (slash ∷ []))))
        ≡ true)
      ↔ Covers base path
Covers-iff base path = (to, from)
  where
    to :
        (text_eq base (slash ∷ [])
            || (text_eq path base || starts_with path (base ++ (slash ∷ []))))
          ≡ true
        → Covers base path
    to h = elim (Bool-cases (text_eq base (slash ∷ []))) [
      | inl e ↦ inl (text_eq_sound base (slash ∷ []) e)
      | inr e ↦ elim (Bool-cases (text_eq path base)) [
        | inl e' ↦ inr (inl (text_eq_sound path base e'))
        | inr e' ↦ inr (inr ((starts_below_iff path base).0 (rw (e, e') at h)))
      ]
    ]

    from :
        Covers base path
        → (text_eq base (slash ∷ [])
            || (text_eq path base || starts_with path (base ++ (slash ∷ []))))
          ≡ true
    from (inl e) = rw ((text_eq_iff base (slash ∷ [])).1 e) refl
    from (inr (inl e)) = let same = (text_eq_iff path base).1 e in ground arith
    from (inr (inr h)) = let below = (starts_below_iff path base).1 h in ground arith

grant_covers_iff :
    (path : Text) (permission : Permission) (grant : Grant)
    → (grant_covers path permission grant ≡ true)
      ↔ ((has_permission grant.permissions permission ≡ true) × Covers grant.prefix path)
unfolding grant_covers
grant_covers_iff path permission grant = (to, from)
  where
    to :
        grant_covers path permission grant ≡ true
        → (has_permission grant.permissions permission ≡ true) × Covers grant.prefix path
    to h =
        let below = continues_segment-starts_with path grant.prefix in
        (ground arith, (Covers-iff grant.prefix path).0 (ground arith))

    from :
        (has_permission grant.permissions permission ≡ true) × Covers grant.prefix path
        → grant_covers path permission grant ≡ true
    from (has, covers) =
        let below = continues_segment-starts_with path grant.prefix in
        let covered = (Covers-iff grant.prefix path).1 covers in ground arith

pub Any-map_of {ℓ κ μ} :
    {A : Type ℓ} {P : A → Type κ} {Q : A → Type μ} (f : (x : A) → P x → Q x) {xs : List A}
    → Any P xs
    → Any Q xs
Any-map_of f (here p) = here (f _ p)
Any-map_of f (there m) = there (Any-map_of f m)

-- `allows` holds exactly where one grant has the permission and covers the fold key of the path:
-- permissions of different grants do not add up to cover a path, and the case of the path does not
-- matter.
pub allows_iff :
    (caller : AuthenticatedPrincipal) (path : ConfigPath) (permission : Permission)
    → (allows caller path permission ≡ true)
      ↔ Any
          (λ grant.
            (has_permission grant.permissions permission ≡ true)
            × Covers grant.prefix (fold_key path))
          caller.grants
unfolding allows
allows_iff caller path permission = (
  λ h.
      Any-map_of (λ grant. (grant_covers_iff (fold_key path) permission grant).0)
        (any_sound (grant_covers (fold_key path) permission) caller.grants h),
  λ h.
      any_complete (grant_covers (fold_key path) permission)
        (Any-map_of (λ grant. (grant_covers_iff (fold_key path) permission grant).1) h),
)

append-ne-nil : (prefix more : Text) → prefix ++ (slash ∷ more) ≢ []
append-ne-nil [] more = cc
append-ne-nil (a ∷ prefix) more = cc

-- Coverage carries over from a path to what is below it, for paths that start with a separator.
Covers-below :
    (prefix base path rest : Text)
    → path ≡ slash ∷ rest
    → Covers prefix base
    → Covers base path
    → Covers prefix path
Covers-below prefix base path rest rooted (inl top) below = inl top
Covers-below prefix base path rest rooted (inr (inl same)) below =
    subst (λ b. Covers b path) same below
Covers-below prefix base path rest rooted (inr (inr (more, e))) (inr (inl same)) =
    inr (inr (more, same ∙ e))
Covers-below prefix base path rest rooted (inr (inr (more, e))) (inr (inr (tail, e'))) = inr (
    inr (
      more ++ (slash ∷ tail),
      e' ∙ ap (λ b. b ++ (slash ∷ tail)) e ∙ append_assoc prefix (slash ∷ more) (slash ∷ tail),
    ))
Covers-below [] base path rest rooted (inr (inr (more, e))) (inl top) = inr (inr (rest, rooted))
Covers-below (a ∷ prefix) base path rest rooted (inr (inr (more, e))) (inl top) =
    absurd (append-ne-nil prefix more (cons-eq (sym e ∙ top)))
  where
    cons-eq : {c d : ℕ} {s t : Text} → c ∷ s ≡ d ∷ t → s ≡ t
    cons-eq h = cc

-- The fold key of a parsed path starts with a separator.
parse_operation-rooted :
    (value : Text) (p : ConfigPath)
    → parse_operation value ≡ ok p
    → (rest : Text) × (fold_key p ≡ slash ∷ rest)
unfolding fold lower
parse_operation-rooted value p h =
    let (same, rendered) = parse_operation_sound value p h in
    rw same (rooted rendered.segments rendered.some_segment rendered.spelled)
  where
    rooted :
        (segments : List Text) {value : Text}
        → segments ≢ []
        → value ≡ render segments
        → (rest : Text) × (fold value ≡ slash ∷ rest)
    rooted [] some_segment e = absurd (some_segment refl)
    rooted (segment ∷ segments) some_segment e = (fold (segment ++ render segments), ap fold e)

-- A caller that is allowed at a path is allowed at every path at or below it, for paths that
-- `parse_operation` accepts.
pub allows_below :
    (caller : AuthenticatedPrincipal) (base p : ConfigPath) (permission : Permission) (value : Text)
    → parse_operation value ≡ ok p
    → is_at_or_below p base ≡ true
    → allows caller base permission ≡ true
    → allows caller p permission ≡ true
allows_below caller base p permission value parsed below allowed =
    let (rest, rooted) = parse_operation-rooted value p parsed in
    (allows_iff caller p permission).1 (
      Any-map_of
        (λ grant (has, covers). (
          has,
          Covers-below grant.prefix (fold_key base) (fold_key p) rest rooted covers
              ((is_at_or_below_iff p base).0 below),
        ))
        ((allows_iff caller base permission).0 allowed))
