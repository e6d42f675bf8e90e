-- ===== src/Core/Path.antt =====
-- crates/sovereign-config-core/src/path.rs: the canonical configuration path.
pub mod Grammar
pub mod Scope
mod Tests
use sovereign_config.Prelude.{
  ℕ, zero, suc, ◌+◌, ◌-◌, ◌*◌, ◌/◌, ◌%◌, ◌^◌, ◌≤◌, ◌<◌, min, max, String, ◌≡◌, refl, sym, ap, ◌∙◌,
  subst, ◌≡⟨◌⟩◌, ◌∎, ◌≢◌, ◌↔◌, ◌⊎◌, inl, inr, Bool, true, false, not, ◌&&◌, ◌||◌, Option, none,
  some, List, [], ◌∷◌, ◌++◌, map, append_assoc, append-nil, arith, ltb, leb, ◌==◌, if◌then◌else◌,
  ==_iff, Bool-cases, Option-cases, is_some, is_none, get_or, All, Any, here, ok, err, there,
  length, is_empty, take, drop, get_elem?, all, any, keep_if, length-append, length-take-le,
  take-append_length, drop-append_length, take-append-drop, all-append, all_iff, any_sound,
  any_complete, All-append, All-left, All-right, All-keep_if, All-map_of, insert_by, sort_by, find,
  filter_map, Text, codes, slash, text_eq, text_eq_refl, text_eq_sound, text_eq_iff, lower, fold,
  eq_ignore_ascii_case, strip_prefix, starts_with, contains, extend_head, split, trim_start_matches,
  join, rsplit_once, is_ascii_lowercase, is_ascii_uppercase, is_ascii_alphabetic, is_ascii_digit,
  is_control, concat, decimal_digits, decimal, text_le, Result, ◌>>=◌, ◌>>◌, ok_or, map_err, is_ok,
  >>=-eq-ok, lower_idem, lower-eq_slash, fold_idem, fold-append, length-fold, strip_prefix-append,
  strip_prefix_sound, starts_with-append, starts_with_sound, extend_head-map-fold, split-fold,
  split-ne-nil, join-split, split_part, split-append, split_free, contains-append,
}

pub data PathError : Type 0 where
  non_canonical : PathError

-- A path is one text, exactly as it was written; the fold is derived, never stored.
pub record ConfigPath : Type 0 where
  pub path : Text

abbrev pub root : ConfigPath
root = record { path = slash ∷ [] }

-- What `parse` admits in a segment, and what the operation parsers admit.
unfoldable pub is_fold_byte : ℕ → Bool
is_fold_byte byte = is_ascii_lowercase byte || is_ascii_digit byte || byte == b'-' || byte == b'_'

unfoldable pub is_path_byte : ℕ → Bool
is_path_byte byte = is_ascii_alphabetic byte || is_ascii_digit byte || byte == b'-' || byte == b'_'

-- One part between separators: not empty, and every byte admitted.
unfoldable pub is_segment : (ℕ → Bool) → Text → Bool
is_segment admits segment = not (is_empty segment) && all admits segment

abbrev relative_ok : (ℕ → Bool) → Text → Bool
relative_ok admits relative =
    not (is_empty relative) && all (is_segment admits) (split slash relative)

abbrev rooted_ok : (ℕ → Bool) → Option Text → Bool
rooted_ok admits none = false
rooted_ok admits (some relative) = relative_ok admits relative

unfoldable pub parse : Text → Result PathError ConfigPath
parse value =
    if text_eq value (slash ∷ []) || rooted_ok is_fold_byte (strip_prefix value (slash ∷ []))
    then ok (record { path = value })
    else err non_canonical

unfoldable pub parse_operation : Text → Result PathError ConfigPath
parse_operation value = elim (strip_prefix value (slash ∷ [])) [
  | none ↦ err non_canonical
  | some relative ↦
      if is_empty relative || not (all (is_segment is_path_byte) (split slash relative))
      then err non_canonical
      else ok (record { path = value })
]

unfoldable pub parse_selection : Text → Result PathError ConfigPath
parse_selection value = if text_eq value (slash ∷ []) then ok root else parse_operation value

unfoldable pub join_name : ConfigPath → Text → Result PathError ConfigPath
join_name p name =
    if is_empty name || not (all is_path_byte name)
    then err non_canonical
    else ok (record {
      path = if text_eq p.path (slash ∷ []) then slash ∷ name else p.path ++ (slash ∷ name);
    })

-- `ConfigPath::fold`
abbrev pub fold_key : ConfigPath → Text
fold_key p = fold p.path

-- What follows the root in a path below it: nothing, or a separator.
abbrev ends_segment : Text → Bool
ends_segment [] = true
ends_segment (byte ∷ rest) = byte == slash

unfoldable pub is_at_or_below : ConfigPath → ConfigPath → Bool
is_at_or_below p base =
    if text_eq base.path (slash ∷ [])
    then true
    else leb (length base.path) (length p.path)
      && eq_ignore_ascii_case (take (length base.path) p.path) base.path
      && ends_segment (drop (length base.path) p.path)

-- `PartialEq` and `Ord` of a path: both on the fold.
unfoldable pub path_eq : ConfigPath → ConfigPath → Bool
path_eq p q = eq_ignore_ascii_case p.path q.path

unfoldable pub path_le : ConfigPath → ConfigPath → Bool
path_le p q = text_le (fold p.path) (fold q.path)
