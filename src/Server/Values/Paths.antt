-- ===== src/Server/Values/Paths.antt =====
-- values/paths.rs: collisions, parents and ancestors of fold paths.
pub mod Collision
use sovereign_config.Prelude.{
  Bool, not, ◌&&◌, ◌||◌, none, some, List, [], ◌∷◌, ◌++◌, ltb, ◌==◌, if◌then◌else◌, Text, slash,
  text_eq, strip_prefix, split, trim_start_matches, rsplit_once, text_le,
}
use sovereign_config.Server.Auth.{continues_segment}
use sovereign_config.Server.Rpc.{OffsetDateTime}

unfoldable pub paths_collide : Text → Text → Bool
paths_collide first second =
    text_eq first second
    || continues_segment (strip_prefix first second)
    || continues_segment (strip_prefix second first)

abbrev or_slash : Text → Text
or_slash [] = slash ∷ []
or_slash (byte ∷ parent) = byte ∷ parent

unfoldable pub parent_path : Text → Text
unfolding rsplit_once
parent_path fold_path = elim (rsplit_once slash fold_path) [
  | none ↦ slash ∷ []
  | some (parent, _) ↦ or_slash parent
]

-- A `BTreeMap` from fold key to the earliest creation time and the display form that goes with it,
-- in key order.
abbrev pub Ancestors : Type 0
Ancestors = List (Text × (OffsetDateTime × Text))

-- The order of the pairs `(created_at, display)`: strictly before.
abbrev pub established_before : OffsetDateTime → Text → OffsetDateTime → Text → Bool
established_before at display old_at old_display =
    ltb at old_at
    || (at == old_at && (text_le display old_display && not (text_eq display old_display)))

unfoldable pub upsert_ancestor : Ancestors → Text → OffsetDateTime → Text → Ancestors
unfolding text_eq text_le
upsert_ancestor [] key at display = (key, (at, display)) ∷ []
upsert_ancestor ((k, (old_at, old_display)) ∷ paths) key at display =
    let rest = upsert_ancestor paths key at display in
    if text_eq k key
    then (
      k,
      (if established_before at display old_at old_display
          then (at, display)
          else (old_at, old_display)),
    )
      ∷ paths
    else if text_le key k
    then (key, (at, display)) ∷ ((k, (old_at, old_display)) ∷ paths)
    else (k, (old_at, old_display)) ∷ rest

-- The loop over the segments of the parent, fold and display form in lockstep. The display form
-- has at least as many segments as the fold form of its parent; the code indexes it unchecked.
unfoldable pub add_prefixes :
    Ancestors → OffsetDateTime → Text → Text → List Text → List Text → Ancestors
unfolding upsert_ancestor
add_prefixes paths at fold_prefix display_prefix [] _ = paths
add_prefixes paths at fold_prefix display_prefix (_ ∷ _) [] = paths
add_prefixes paths at fold_prefix display_prefix (f ∷ fs) (d ∷ ds) =
    let fold_next = fold_prefix ++ (slash ∷ f) in
    let display_next = display_prefix ++ (slash ∷ d) in
    add_prefixes (upsert_ancestor paths fold_next at display_next) at fold_next display_next fs ds

unfoldable pub add_parent_paths : Ancestors → Text → Text → OffsetDateTime → Ancestors
unfolding add_prefixes parent_path trim_start_matches split
add_parent_paths paths fold_path display_path at =
    let with_root = upsert_ancestor paths (slash ∷ []) at (slash ∷ []) in
    let fold_parent = parent_path fold_path in
    if text_eq fold_parent (slash ∷ [])
    then with_root
    else add_prefixes with_root at [] [] (split slash (trim_start_matches slash fold_parent))
        (split slash (trim_start_matches slash display_path))
