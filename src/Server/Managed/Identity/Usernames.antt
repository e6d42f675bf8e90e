-- ===== src/Server/Managed/Identity/Usernames.antt =====
-- managed/identity.rs: usernames are apart where connections are, and the slug is bounded.
use sovereign_config.Prelude.{
  ℕ, suc, ◌≤◌, ◌<◌, ◌≡◌, refl, sym, ap, ◌∙◌, inl, inr, Bool, true, false, not, ◌&&◌, ◌||◌, Option,
  none, some, [], ◌∷◌, ◌++◌, append_assoc, append-nil, arith, ltb, leb, ◌==◌, if◌then◌else◌,
  Bool-cases, ok, length, is_empty, all, length-append, all-append, Text, codes, lower, contains,
  rsplit_once, concat,
}
use sovereign_config.Core.Managed.{ConnectionId, is_id_byte, parse_connection_id}
use sovereign_config.Server.Managed.Identity.{
  username_prefix, is_ascii_alphanumeric, ends_with_hyphen, slug_step, slug_loop, pop_hyphens,
  drop_hyphen, username_slug, managed_username, username_slug_max_chars,
}

rsplit_once-none : (c : ℕ) (s : Text) → contains s c ≡ false → rsplit_once c s ≡ none
unfolding rsplit_once contains
rsplit_once-none c [] h = refl
rsplit_once-none c (a ∷ s) h = rw (rsplit_once-none c s (ground arith)) (ground arith)

rsplit_once-append :
    (c : ℕ) (s t : Text) → contains t c ≡ false → rsplit_once c (s ++ (c ∷ t)) ≡ some (s, t)
unfolding rsplit_once
rsplit_once-append c [] t h = rw (rsplit_once-none c t h) (ground arith)
rsplit_once-append c (a ∷ s) t h = rw (rsplit_once-append c s t h) refl

-- A username is its connection's identifier after the last hyphen.
abbrev stem : Text → Text
stem slug = if is_empty slug then codes "sc-managed" else username_prefix ++ slug

managed_username-stem :
    (id : ConnectionId) (name : Text)
    → managed_username id name ≡ stem (username_slug name) ++ (b'-' ∷ id)
unfolding managed_username concat
managed_username-stem id name = split_on (username_slug name)
  where
    split_on :
        (slug : Text)
        → (if is_empty slug
            then concat (username_prefix ∷ (id ∷ []))
            else concat (username_prefix ∷ (slug ∷ (codes "-" ∷ (id ∷ [])))))
          ≡ stem slug ++ (b'-' ∷ id)
    split_on [] = simp (append-nil) refl
    split_on (c ∷ slug) = simp (append-nil, append_assoc) refl

id_free : (id : Text) → all is_id_byte id ≡ true → contains id b'-' ≡ false
unfolding all contains is_id_byte
id_free [] h = refl
id_free (c ∷ id) h = ground (arith, id_free id)

parsed_id :
    (value : Text) (id : ConnectionId)
    → parse_connection_id value ≡ ok id
    → contains id b'-' ≡ false
unfolding parse_connection_id
parsed_id value id h = id_free id (ground arith)

-- Two connections never share a username, whatever their display names: the usernames of two
-- identifiers that `ConnectionId::parse` admits are equal only if the identifiers are.
pub managed_username-injective :
    (value value' : Text) (id id' : ConnectionId) (name name' : Text)
    → parse_connection_id value ≡ ok id
    → parse_connection_id value' ≡ ok id'
    → managed_username id name ≡ managed_username id' name'
    → id ≡ id'
managed_username-injective value value' id id' name name' p p' h = second (
    sym (rsplit_once-append b'-' (stem (username_slug name)) id (parsed_id value id p))
    ∙ ap (rsplit_once b'-')
        (sym (managed_username-stem id name) ∙ (h ∙ managed_username-stem id' name'))
    ∙ rsplit_once-append b'-' (stem (username_slug name')) id' (parsed_id value' id' p'))
  where
    second : {a b c d : Text} → ◌≡◌ {A = Option (Text × Text)} (some (a, b)) (some (c, d)) → b ≡ d
    second e = cc

-- What a slug is made of.
unfoldable pub is_slug_byte : ℕ → Bool
unfolding is_id_byte
is_slug_byte c = is_id_byte c || c == b'-'

record Fits (slug : Text) : Type 0 where
  short : length slug ≤ 32
  spelled : all is_slug_byte slug ≡ true

lower-slug_byte : (c : ℕ) → is_ascii_alphanumeric (lower c) ≡ true → is_slug_byte (lower c) ≡ true
unfolding is_ascii_alphanumeric is_slug_byte is_id_byte lower
lower-slug_byte c h = ground arith

Fits-push :
    (slug : Text) (c : ℕ)
    → length slug < 32
    → is_slug_byte c ≡ true
    → Fits slug
    → Fits (slug ++ (c ∷ []))
unfolding all
Fits-push slug c room admitted f = record {
  short = omega (arith, length-append {0} slug (c ∷ []));
  spelled = rw (all-append is_slug_byte slug (c ∷ [])) (ground (arith, f.spelled, admitted));
}

Fits-slug_step :
    (slug : Text) (c : ℕ)
    → (is_ascii_alphanumeric (lower c) && leb username_slug_max_chars (length slug)) ≡ false
    → Fits slug
    → Fits (slug_step slug c)
unfolding slug_step
Fits-slug_step slug c going f = elim (Bool-cases (is_ascii_alphanumeric (lower c))) [
  | inl e ↦ rw e (Fits-push slug (lower c) (ground arith) (lower-slug_byte c e) f)
  | inr e ↦ rw e (
      hyphen
        (not (is_empty slug)
          && not (ends_with_hyphen slug)
          && ltb (length slug) username_slug_max_chars)
        (λ h. ground arith))
]
  where
    hyphen :
        (b : Bool) → (b ≡ true → length slug < 32) → Fits (if b then slug ++ (b'-' ∷ []) else slug)
    hyphen true k = Fits-push slug b'-' (k refl) (unfold is_slug_byte in refl) f
    hyphen false k = f

Fits-slug_loop : (slug characters : Text) → Fits slug → Fits (slug_loop slug characters)
unfolding slug_loop
Fits-slug_loop slug [] f = f
Fits-slug_loop slug (c ∷ characters) f =
    elim (Bool-cases
      (is_ascii_alphanumeric (lower c) && leb username_slug_max_chars (length slug))) [
        | inl stop ↦ rw stop f
        | inr going ↦
            rw going (Fits-slug_loop (slug_step slug c) characters (Fits-slug_step slug c going f))
      ]

length-drop_hyphen : (c : ℕ) (t : Text) → length (drop_hyphen c t) ≤ suc (length t)
length-drop_hyphen c [] = ground arith
length-drop_hyphen c (d ∷ t) = omega arith

length-pop_hyphens : (s : Text) → length (pop_hyphens s) ≤ length s
unfolding pop_hyphens
length-pop_hyphens [] = omega arith
length-pop_hyphens (c ∷ s) =
    omega (arith, length-pop_hyphens s, length-drop_hyphen c (pop_hyphens s))

all-drop_hyphen :
    (c : ℕ) (t : Text)
    → is_slug_byte c ≡ true
    → all is_slug_byte t ≡ true
    → all is_slug_byte (drop_hyphen c t) ≡ true
unfolding all
all-drop_hyphen c [] h k = ground arith
all-drop_hyphen c (d ∷ t) h k = ground arith

all-pop_hyphens : (s : Text) → all is_slug_byte s ≡ true → all is_slug_byte (pop_hyphens s) ≡ true
unfolding pop_hyphens all
all-pop_hyphens [] h = refl
all-pop_hyphens (c ∷ s) h =
    all-drop_hyphen c (pop_hyphens s) (ground arith) (all-pop_hyphens s (ground arith))

ends-drop_hyphen :
    (c : ℕ) (t : Text) → ends_with_hyphen t ≡ false → ends_with_hyphen (drop_hyphen c t) ≡ false
unfolding ends_with_hyphen
ends-drop_hyphen c [] h = ground arith
ends-drop_hyphen c (d ∷ t) h = h

ends-pop_hyphens : (s : Text) → ends_with_hyphen (pop_hyphens s) ≡ false
unfolding pop_hyphens ends_with_hyphen
ends-pop_hyphens [] = refl
ends-pop_hyphens (c ∷ s) = ends-drop_hyphen c (pop_hyphens s) (ends-pop_hyphens s)

-- Whatever a display name holds and however long it is, its slug has at most
-- `username_slug_max_chars` characters, each of them a lowercase letter, a digit or a hyphen, and
-- does not end with a hyphen.
pub username_slug-bounded :
    (name : Text)
    → (length (username_slug name) ≤ username_slug_max_chars)
      × (all is_slug_byte (username_slug name) ≡ true)
      × (ends_with_hyphen (username_slug name) ≡ false)
unfolding username_slug all
username_slug-bounded name =
    let fits : Fits (slug_loop [] name) =
      Fits-slug_loop [] name (record { short = omega arith; spelled = refl }) in
    (
      omega (arith, fits.short, length-pop_hyphens (slug_loop [] name)),
      all-pop_hyphens (slug_loop [] name) fits.spelled,
      ends-pop_hyphens (slug_loop [] name),
    )
