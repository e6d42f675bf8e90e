-- ===== src/Core/Managed.antt =====
-- crates/sovereign-config-core/src/managed.rs: the identifier, the display name, the lifecycle
-- states and the permission set of a managed connection.
pub mod Storage
use sovereign_config.Prelude.{
  ℕ, zero, suc, ◌+◌, ◌-◌, ◌*◌, ◌/◌, ◌%◌, ◌^◌, ◌≤◌, ◌<◌, min, max, String, ◌≡◌, refl, sym, ap, ◌∙◌,
  subst, ◌≡⟨◌⟩◌, ◌∎, ◌≢◌, ◌↔◌, ◌⊎◌, inl, inr, Bool, true, false, not, ◌&&◌, ◌||◌, Option, none,
  some, List, [], ◌∷◌, ◌++◌, map, append_assoc, append-nil, arith, ltb, leb, ◌==◌, if◌then◌else◌,
  ==_iff, Bool-cases, Option-cases, is_some, is_none, get_or, All, Any, here, ok, err, there,
  length, is_empty, take, drop, get_elem?, all, any, keep_if, length-append, length-take-le,
  take-append_length, drop-append_length, take-append-drop, all-append, all_iff, any_sound,
  any_complete, any-not, All-append, All-left, All-right, All-keep_if, All-map_of, insert_by,
  sort_by, find, filter_map, All-sort_by, All-filter_map, Text, codes, slash, text_eq, text_eq_refl,
  text_eq_sound, text_eq_iff, lower, fold, eq_ignore_ascii_case, strip_prefix, starts_with,
  contains, extend_head, split, trim_start_matches, join, rsplit_once, is_ascii_lowercase,
  is_ascii_uppercase, is_ascii_alphabetic, is_ascii_digit, is_control, concat, decimal_digits,
  decimal, text_le, Result, ◌>>=◌, ok_or, map_err, is_ok, map_err-eq-ok, ok_or-eq-ok, Result-cases,
  lower_idem, lower-eq_slash, fold_idem, fold-append, length-fold, strip_prefix-append,
  strip_prefix_sound, starts_with-append, starts_with_sound, extend_head-map-fold, split-fold,
  split-ne-nil, join-split, split_part, split-append, split_free, contains-append,
}

pub data ManagedError : Type 0 where
  invalid_connection invalid_permissions : ManagedError

abbrev pub min_connection_id_chars : ℕ
min_connection_id_chars = 16

abbrev pub max_connection_id_chars : ℕ
max_connection_id_chars = 64

abbrev pub max_display_name_chars : ℕ
max_display_name_chars = 100

-- A value that `ConnectionId::parse` or `DisplayName::parse` let through is its text.
abbrev pub ConnectionId : Type 0
ConnectionId = Text

abbrev pub DisplayName : Type 0
DisplayName = Text

unfoldable pub is_id_byte : ℕ → Bool
is_id_byte byte = is_ascii_lowercase byte || is_ascii_digit byte

-- `ConnectionId::parse`. What it admits is ASCII, so that the length in bytes is that of the text.
unfoldable pub parse_connection_id : Text → Result ManagedError ConnectionId
unfolding is_id_byte all
parse_connection_id value =
    if leb min_connection_id_chars (length value)
      && leb (length value) max_connection_id_chars
      && all is_id_byte value
    then ok value
    else err invalid_connection

-- `char::is_whitespace`: the Unicode property White_Space.
unfoldable pub is_whitespace : ℕ → Bool
is_whitespace c =
    (leb 9 c && leb c 13)
    || c == 32
    || c == 133
    || c == 160
    || c == 5760
    || (leb 8192 c && leb c 8202)
    || c == 8232
    || c == 8233
    || c == 8239
    || c == 8287
    || c == 12288

unfoldable pub trim_start : Text → Text
trim_start [] = []
trim_start (c ∷ s) = let rest = trim_start s in if is_whitespace c then rest else c ∷ s

abbrev keep_character : ℕ → Text → Text
keep_character c [] = if is_whitespace c then [] else c ∷ []
keep_character c (d ∷ s) = c ∷ (d ∷ s)

unfoldable pub trim_end : Text → Text
trim_end [] = []
trim_end (c ∷ s) = keep_character c (trim_end s)

-- `DisplayName::parse`
unfoldable pub parse_display_name : Text → Result ManagedError DisplayName
unfolding trim_start trim_end
parse_display_name value =
    if not (is_empty value)
      && text_eq (trim_start (trim_end value)) value
      && leb (length value) max_display_name_chars
      && not (any is_control value)
    then ok value
    else err invalid_connection

pub data ManagedConnectionState : Type 0 where
  provisioning active rotation_unknown revoking cleanup_required : ManagedConnectionState

-- `ManagedConnectionState::as_str`
abbrev pub state_text : ManagedConnectionState → Text
state_text provisioning = codes "provisioning"
state_text active = codes "active"
state_text rotation_unknown = codes "rotation_unknown"
state_text revoking = codes "revoking"
state_text cleanup_required = codes "cleanup_required"

-- `ManagedConnectionState::parse`
unfoldable pub parse_state : Text → Result ManagedError ManagedConnectionState
unfolding text_eq
parse_state value =
    if text_eq value (state_text provisioning)
    then ok provisioning
    else if text_eq value (state_text active)
    then ok active
    else if text_eq value (state_text rotation_unknown)
    then ok rotation_unknown
    else if text_eq value (state_text revoking)
    then ok revoking
    else if text_eq value (state_text cleanup_required)
    then ok cleanup_required
    else err invalid_connection

pub data ManagedPermission : Type 0 where
  read write manage : ManagedPermission

-- `ManagedPermission::as_grant_token`
abbrev pub grant_token : ManagedPermission → Text
grant_token read = codes "read"
grant_token write = codes "write"
grant_token manage = codes "manage"

-- `ManagedPermission::as_proto`
abbrev pub permission_tag : ManagedPermission → ℕ
permission_tag read = 1
permission_tag write = 2
permission_tag manage = 3

-- `ManagedPermission::from_proto`; a tag is the bit pattern of its `i32`.
unfoldable pub permission_of_tag : ℕ → Result ManagedError ManagedPermission
permission_of_tag value =
    if value == 1
    then ok read
    else if value == 2
    then ok write
    else if value == 3
    then ok manage
    else err invalid_permissions

-- `ManagedPermission::parse`
unfoldable pub parse_permission : Text → Result ManagedError ManagedPermission
unfolding text_eq
parse_permission value =
    if text_eq value (grant_token read)
    then ok read
    else if text_eq value (grant_token write)
    then ok write
    else if text_eq value (grant_token manage)
    then ok manage
    else err invalid_permissions

-- A `BTreeSet<ManagedPermission>`: which of its three elements it holds.
pub record PermissionSet : Type 0 where
  pub reads : Bool
  pub writes : Bool
  pub manages : Bool

-- What `ManagedPermissions::new` let through.
abbrev pub ManagedPermissions : Type 0
ManagedPermissions = PermissionSet

abbrev pub no_permission : PermissionSet
no_permission = record { reads = false; writes = false; manages = false }

-- `BTreeSet::insert`
abbrev pub insert_permission : PermissionSet → ManagedPermission → PermissionSet
insert_permission set read = record set { reads = true }
insert_permission set write = record set { writes = true }
insert_permission set manage = record set { manages = true }

-- `ManagedPermissions::contains`
abbrev pub holds : PermissionSet → ManagedPermission → Bool
holds set read = set.reads
holds set write = set.writes
holds set manage = set.manages

-- `ManagedPermissions::iter`, in the order of the variants
abbrev pub members : PermissionSet → List ManagedPermission
members set =
    (if set.reads then read ∷ [] else [])
    ++ ((if set.writes then write ∷ [] else []) ++ (if set.manages then manage ∷ [] else []))

-- `ManagedPermissions::new` of what was collected
unfoldable pub permissions_of : PermissionSet → Result ManagedError ManagedPermissions
permissions_of set =
    if set.reads || set.writes || set.manages then ok set else err invalid_permissions

-- The loop of `from_proto` and of `parse`: each entry is read and inserted, the first bad one ends it.
unfoldable pub collect_permissions {ℓ} :
    {A : Type ℓ}
    → (A → Result ManagedError ManagedPermission)
    → PermissionSet
    → List A
    → Result ManagedError PermissionSet
collect_permissions parse_one set [] = ok set
collect_permissions parse_one set (entry ∷ entries) = parse_one entry >>= λ permission.
    collect_permissions parse_one (insert_permission set permission) entries

-- `ManagedPermissions::from_proto` and `to_proto`
unfoldable pub permissions_of_tags : List ℕ → Result ManagedError ManagedPermissions
unfolding collect_permissions permission_of_tag permissions_of
permissions_of_tags tags =
    collect_permissions permission_of_tag no_permission tags >>= permissions_of

unfoldable pub permission_tags : ManagedPermissions → List ℕ
permission_tags permissions = map permission_tag (members permissions)

-- `ManagedPermissions::parse`, `grant_tokens` and `as_storage`
unfoldable pub parse_permissions : Text → Result ManagedError ManagedPermissions
unfolding collect_permissions parse_permission permissions_of split
parse_permissions value =
    collect_permissions parse_permission no_permission (split b',' value) >>= permissions_of

unfoldable pub grant_tokens : ManagedPermissions → List Text
grant_tokens permissions = map grant_token (members permissions)

unfoldable pub permissions_text : ManagedPermissions → Text
unfolding grant_tokens join
permissions_text permissions = join (codes ",") (grant_tokens permissions)
