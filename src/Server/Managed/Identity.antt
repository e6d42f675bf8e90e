-- ===== src/Server/Managed/Identity.antt =====
-- managed/identity.rs: the generated identifier and username of a connection.
pub mod Usernames
use sovereign_config.Prelude.{
  ℕ, zero, suc, ◌+◌, ◌-◌, ◌*◌, ◌/◌, ◌%◌, ◌^◌, ◌≤◌, ◌<◌, min, max, String, ◌≡◌, refl, sym, ap, ◌∙◌,
  subst, ◌≡⟨◌⟩◌, ◌∎, ◌≢◌, ◌↔◌, ◌⊎◌, inl, inr, Bool, true, false, not, ◌&&◌, ◌||◌, Option, none,
  some, List, [], ◌∷◌, ◌++◌, map, append_assoc, append-nil, arith, ltb, leb, ◌==◌, if◌then◌else◌,
  ==_iff, Bool-cases, Option-cases, is_some, is_none, get_or, All, Any, here, ok, err, there,
  length, is_empty, take, drop, get_elem?, all, any, keep_if, length-append, length-take-le,
  take-append_length, drop-append_length, take-append-drop, all-append, all_iff, any_sound,
  any_complete, any-not, All-append, All-left, All-right, All-keep_if, All-map_of, insert_by,
  sort_by, find, filter_map, All-sort_by, All-filter_map, Text, codes, slash, text_eq, text_eq_refl,
  text_eq_sound, text_eq_iff, lower, fold, eq_ignore_ascii_case, strip_prefix, starts_with,
  contains, extend_head, split, trim_start_matches, join, rsplit_once, is_ascii_lowercase,
  is_ascii_uppercase, is_ascii_alphabetic, is_ascii_digit, is_control, concat, decimal_digits,
  decimal, text_le, Result, ok_or, map_err, is_ok, map_err-eq-ok, ok_or-eq-ok, Result-cases,
  lower_idem, lower-eq_slash, fold_idem, fold-append, length-fold, strip_prefix-append,
  strip_prefix_sound, starts_with-append, starts_with_sound, extend_head-map-fold, split-fold,
  split-ne-nil, join-split, split_part, split-append, split_free, contains-append,
}
use sovereign_config.Core.Managed.{ConnectionId, parse_connection_id}
use sovereign_config.Server.Rpc.{Status, status, internal}

abbrev pub connection_id_chars : ℕ
connection_id_chars = 32

abbrev pub username_prefix : Text
username_prefix = codes "sc-managed-"

abbrev pub username_slug_max_chars : ℕ
username_slug_max_chars = 32

-- wire.rs `internal_error`
abbrev pub internal_error : Status
internal_error = status internal "managed connection state is invalid"

unfoldable pub is_ascii_alphanumeric : ℕ → Bool
is_ascii_alphanumeric c = is_ascii_alphabetic c || is_ascii_digit c

unfoldable pub ends_with_hyphen : Text → Bool
ends_with_hyphen [] = false
ends_with_hyphen (c ∷ []) = c == b'-'
ends_with_hyphen (c ∷ (d ∷ s)) = ends_with_hyphen (d ∷ s)

-- One round of the loop over the characters, for one that ends no loop.
unfoldable pub slug_step : Text → ℕ → Text
unfolding lower ends_with_hyphen
slug_step slug character =
    if is_ascii_alphanumeric (lower character)
    then slug ++ (lower character ∷ [])
    else if not (is_empty slug)
        && not (ends_with_hyphen slug)
        && ltb (length slug) username_slug_max_chars
    then slug ++ (b'-' ∷ [])
    else slug

-- The loop; `break` at the first letter or digit that no longer fits.
unfoldable pub slug_loop : Text → Text → Text
unfolding slug_step lower is_ascii_alphanumeric
slug_loop slug [] = slug
slug_loop slug (character ∷ characters) =
    let rest = slug_loop (slug_step slug character) characters in
    if is_ascii_alphanumeric (lower character) && leb username_slug_max_chars (length slug)
    then slug
    else rest

abbrev pub drop_hyphen : ℕ → Text → Text
drop_hyphen c [] = if c == b'-' then [] else c ∷ []
drop_hyphen c (d ∷ s) = c ∷ (d ∷ s)

-- `while slug.ends_with('-') { slug.pop(); }`
unfoldable pub pop_hyphens : Text → Text
pop_hyphens [] = []
pop_hyphens (c ∷ s) = drop_hyphen c (pop_hyphens s)

unfoldable pub username_slug : Text → Text
unfolding slug_loop pop_hyphens
username_slug display_name = pop_hyphens (slug_loop [] display_name)

unfoldable pub managed_username : ConnectionId → Text → Text
unfolding username_slug concat
managed_username connection_id display_name =
    let slug = username_slug display_name in
    if is_empty slug
    then concat (username_prefix ∷ (connection_id ∷ []))
    else concat (username_prefix ∷ (slug ∷ (codes "-" ∷ (connection_id ∷ []))))

abbrev pub id_alphabet : Text
id_alphabet = codes "abcdefghijklmnopqrstuvwxyz0123456789"

abbrev pub character_at : Text → ℕ → ℕ
character_at alphabet index = get_or (get_elem? alphabet index) 0

-- The bytes of one buffer: those below the limit extend the value until it is long enough.
unfoldable pub take_characters : Text → ℕ → Text → List ℕ → Text
take_characters alphabet length_wanted value [] = value
take_characters alphabet length_wanted value (byte ∷ bytes) =
    take_characters alphabet length_wanted
      (if ltb byte (255 - 255 % length alphabet) && ltb (length value) length_wanted
        then value ++ (character_at alphabet (byte % length alphabet) ∷ [])
        else value)
      bytes

-- `random_string`: each round takes the next buffer of the random source, which fails past the
-- last one; the buffers that are left come with the value.
unfoldable pub random_string : Text → ℕ → Text → List (List ℕ) → Result Status Text × List (List ℕ)
unfolding take_characters
random_string alphabet length_wanted value [] =
    (if ltb (length value) length_wanted then err internal_error else ok value, [])
random_string alphabet length_wanted value (buffer ∷ buffers) =
    let rest =
      random_string alphabet length_wanted
        (take_characters alphabet length_wanted value (take 64 buffer)) buffers in
    if ltb (length value) length_wanted then rest else (ok value, buffer ∷ buffers)

abbrev accepted_id : Result Status Text → Result Status ConnectionId
accepted_id (err e) = err e
accepted_id (ok value) = map_err (parse_connection_id value) internal_error

unfoldable pub generate_connection_id : List (List ℕ) → Result Status ConnectionId × List (List ℕ)
unfolding random_string parse_connection_id
generate_connection_id buffers =
    let drawn = random_string id_alphabet connection_id_chars [] buffers in
    (accepted_id drawn.0, drawn.1)
