-- ===== src/Core/Managed/Storage.antt =====
-- core/src/managed.rs: what is stored or sent of a state and of a permission set reads back.
use sovereign_config.Prelude.{
  ◌≡◌, refl, Bool, true, false, arith, ok, Text, text_eq, text_eq_sound, split, join,
}
use sovereign_config.Core.Managed.{
  ManagedConnectionState, state_text, parse_state, provisioning, active, rotation_unknown, revoking,
  cleanup_required, PermissionSet, permissions_of, permissions_text, parse_permissions,
  permission_tags, permissions_of_tags, collect_permissions, parse_permission, permission_of_tag,
  grant_tokens,
}

pub parse_state-state_text : (s : ManagedConnectionState) → parse_state (state_text s) ≡ ok s
unfolding parse_state text_eq
parse_state-state_text provisioning = refl
parse_state-state_text active = refl
parse_state-state_text rotation_unknown = refl
parse_state-state_text revoking = refl
parse_state-state_text cleanup_required = refl

stored :
    (r w m : Bool)
    → (let set : PermissionSet = record { reads = r; writes = w; manages = m } in
        parse_permissions (permissions_text set) ≡ permissions_of set)
unfolding parse_permissions permissions_text collect_permissions parse_permission permissions_of
    split grant_tokens join text_eq
stored true true true = refl
stored true true false = refl
stored true false true = refl
stored true false false = refl
stored false true true = refl
stored false true false = refl
stored false false true = refl
stored false false false = refl

sent :
    (r w m : Bool)
    → (let set : PermissionSet = record { reads = r; writes = w; manages = m } in
        permissions_of_tags (permission_tags set) ≡ permissions_of set)
unfolding permissions_of_tags permission_tags collect_permissions permission_of_tag permissions_of
sent true true true = refl
sent true true false = refl
sent true false true = refl
sent true false false = refl
sent false true true = refl
sent false true false = refl
sent false false true = refl
sent false false false = refl

-- A permission set reads back, from its stored text and from its tags, as `permissions_of` that set:
-- the same set, or the refusal of the empty one.
pub parse_permissions-permissions_text :
    (set : PermissionSet)
    → (parse_permissions (permissions_text set) ≡ permissions_of set)
      × (permissions_of_tags (permission_tags set) ≡ permissions_of set)
parse_permissions-permissions_text set =
    (stored set.reads set.writes set.manages, sent set.reads set.writes set.manages)

pub parse_state_sound :
    (t : Text) (s : ManagedConnectionState) → parse_state t ≡ ok s → t ≡ state_text s
unfolding parse_state
parse_state_sound t s h = ground (
  arith,
  text_eq_sound t (state_text provisioning),
  text_eq_sound t (state_text active),
  text_eq_sound t (state_text rotation_unknown),
  text_eq_sound t (state_text revoking),
  text_eq_sound t (state_text cleanup_required),
)
