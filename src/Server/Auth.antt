-- ===== src/Server/Auth.antt =====
-- auth.rs: the authenticated principal, its grants, and what they allow.
pub mod Grants
pub mod Token
pub mod Routing
mod Tests
pub mod Validation
use sovereign_config.Prelude.{
  ℕ, zero, suc, ◌+◌, ◌-◌, ◌*◌, ◌/◌, ◌%◌, ◌^◌, ◌≤◌, ◌<◌, min, max, String, ◌≡◌, refl, sym, ap, ◌∙◌,
  subst, ◌≡⟨◌⟩◌, ◌∎, ◌≢◌, ◌↔◌, ◌⊎◌, inl, inr, Bool, true, false, not, ◌&&◌, ◌||◌, Option, none,
  some, List, [], ◌∷◌, ◌++◌, map, append_assoc, append-nil, arith, ltb, leb, ◌==◌, if◌then◌else◌,
  ==_iff, Bool-cases, Option-cases, is_some, is_none, get_or, All, Any, here, ok, err, there,
  length, is_empty, take, drop, get_elem?, all, any, keep_if, length-append, length-take-le,
  take-append_length, drop-append_length, take-append-drop, all-append, all_iff, any_sound,
  any_complete, All-append, All-left, All-right, All-keep_if, All-map_of, insert_by, sort_by, find,
  filter_map, Text, codes, slash, text_eq, text_eq_refl, text_eq_sound, text_eq_iff, lower, fold,
  eq_ignore_ascii_case, strip_prefix, starts_with, contains, extend_head, split, trim_start_matches,
  join, rsplit_once, is_ascii_lowercase, is_ascii_uppercase, is_ascii_alphabetic, is_ascii_digit,
  is_control, concat, decimal_digits, decimal, text_le, Result, ◌>>=◌, ◌>>◌, ok_or, map_err, is_ok,
  >>=-eq-ok, lower_idem, lower-eq_slash, fold_idem, fold-append, length-fold, strip_prefix-append,
  strip_prefix_sound, starts_with-append, starts_with_sound, extend_head-map-fold, split-fold,
  split-ne-nil, join-split, split_part, split-append, split_free, contains-append,
}
use sovereign_config.Core.Path.{ConfigPath, parse_selection, fold_key}

pub data Permission : Type 0 where
  read write manage : Permission

abbrev pub permission_eq : Permission → Permission → Bool
permission_eq read read = true
permission_eq write write = true
permission_eq manage manage = true
permission_eq _ _ = false

-- `permissions` is a `BTreeSet`: only membership is asked of it.
pub record Grant : Type 0 where
  pub prefix : Text
  pub permissions : List Permission

pub record AuthenticatedPrincipal : Type 0 where
  pub subject : Text
  pub name : Option Text
  pub grants : List Grant

abbrev pub has_permission : List Permission → Permission → Bool
has_permission [] permission = false
has_permission (p ∷ ps) permission = permission_eq p permission || has_permission ps permission

-- `is_some_and(|suffix| suffix.starts_with('/'))`
abbrev pub continues_segment : Option Text → Bool
continues_segment none = false
continues_segment (some []) = false
continues_segment (some (byte ∷ _)) = byte == slash

unfoldable pub grant_covers : Text → Permission → Grant → Bool
grant_covers fold_path permission grant =
    has_permission grant.permissions permission
    && (text_eq grant.prefix (slash ∷ [])
        || text_eq fold_path grant.prefix
        || continues_segment (strip_prefix fold_path grant.prefix))

-- `AuthenticatedPrincipal::allows`
unfoldable pub allows : AuthenticatedPrincipal → ConfigPath → Permission → Bool
unfolding grant_covers any
allows principal path permission = any (grant_covers (fold_key path) permission) principal.grants

-- A grant as the token's claim carries it, before validation.
pub record RawGrant : Type 0 where
  pub prefix : Text
  pub permissions : List Permission

pub data AuthenticationResult : Type 0 where
  missing_bearer malformed_bearer wrong_algorithm invalid_claims bad_signature :
      AuthenticationResult
  inactive unavailable : AuthenticationResult

unfoldable pub canonical_prefix : Text → Option Text
canonical_prefix prefix = elim (parse_selection prefix) [
  | ok path ↦ some (fold_key path)
  | err _ ↦ none
]

-- `grants.entry(prefix).or_default().extend(permissions)` on a map kept in key order
unfoldable pub merge_grant : Text → List Permission → List Grant → List Grant
merge_grant prefix permissions [] = record { prefix = prefix; permissions = permissions } ∷ []
merge_grant prefix permissions (grant ∷ grants) =
    let rest = merge_grant prefix permissions grants in
    if text_eq grant.prefix prefix
    then record grant { permissions = grant.permissions ++ permissions } ∷ grants
    else if text_le prefix grant.prefix
    then record { prefix = prefix; permissions = permissions } ∷ (grant ∷ grants)
    else grant ∷ rest

unfoldable pub collect_grants :
    List Grant → List RawGrant → Result AuthenticationResult (List Grant)
collect_grants grants [] = ok grants
collect_grants grants (raw ∷ raws) = elim (canonical_prefix raw.prefix) [
  | none ↦ err invalid_claims
  | some prefix ↦ elim (is_empty raw.permissions) [
    | true ↦ err invalid_claims
    | false ↦ collect_grants (merge_grant prefix raw.permissions grants) raws
  ]
]

unfoldable pub validate_grants : List RawGrant → Result AuthenticationResult (List Grant)
unfolding collect_grants
validate_grants raws = collect_grants [] raws
