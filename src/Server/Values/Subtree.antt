-- ===== src/Server/Values/Subtree.antt =====
-- values/subtree.rs: the validation of a `ReplaceSubTree` mutation, without storage.
use sovereign_config.Prelude.{
  ℕ, zero, suc, Bool, true, false, not, ◌||◌, Option, none, some, List, [], ◌∷◌, if◌then◌else◌, ok,
  err, length, is_empty, all, any, sort_by, filter_map, Text, slash, text_eq, fold, strip_prefix,
  contains, rsplit_once, text_le, Result, ◌>>=◌,
}
use sovereign_config.Core.Path.{ConfigPath, parse_operation, is_at_or_below, fold_key}
use sovereign_config.Core.Value.{masked_secret_text}
use sovereign_config.Server.Rpc.{Status, status, invalid_argument}
use sovereign_config.Server.Values.Paths.{paths_collide}

pub data SubTreeEntryContent : Type 0 where
  plain_value : Text → SubTreeEntryContent
  preserve_secret : SubTreeEntryContent

pub record SubTreeEntry : Type 0 where
  pub path : Text
  pub content : Option SubTreeEntryContent

pub record NormalizedSubtree : Type 0 where
  pub values : List SubTreeEntry
  pub displays : List (Text × Text)

abbrev pub invalid_subtree : Status
invalid_subtree = status invalid_argument "configuration subtree is invalid"

abbrev admitted_content : Option SubTreeEntryContent → Bool
admitted_content (some (plain_value content)) = not (contains content 0)
admitted_content (some preserve_secret) = true
admitted_content none = false

-- `BTreeMap::insert` of a display form; only looked up afterwards.
unfoldable pub insert_display : Text → Text → List (Text × Text) → List (Text × Text)
unfolding text_eq
insert_display key display [] = (key, display) ∷ []
insert_display key display ((k, d) ∷ rest) =
    let later = insert_display key display rest in
    if text_eq k key then (k, display) ∷ rest else (k, d) ∷ later

unfoldable pub lookup_display : Text → List (Text × Text) → Option Text
unfolding text_eq
lookup_display key [] = none
lookup_display key ((k, d) ∷ rest) = if text_eq k key then some d else lookup_display key rest

-- One entry of the first loop: its fold path, and its display form where that differs.
unfoldable pub fold_entry : ConfigPath → SubTreeEntry → Result Status (SubTreeEntry × Option Text)
unfolding contains text_eq fold
fold_entry root entry = elim (parse_operation entry.path) [
  | err _ ↦ err invalid_subtree
  | ok path ↦
      if not (is_at_or_below path root)
      then err invalid_subtree
      else if not (admitted_content entry.content)
      then err invalid_subtree
      else ok (
        record entry { path = fold_key path },
        (if text_eq (fold_key path) path.path then none else some path.path),
      )
]

unfoldable pub fold_entries :
    ConfigPath
    → List SubTreeEntry
    → List (Text × Text)
    → Result Status (List SubTreeEntry × List (Text × Text))
unfolding fold_entry insert_display
fold_entries root [] displays = ok ([], displays)
fold_entries root (entry ∷ entries) displays = elim (fold_entry root entry) [
  | err status ↦ err status
  | ok (folded, display) ↦
      elim (fold_entries root entries
        (elim display [ none ↦ displays | some d ↦ insert_display folded.path d displays ])) [
          | err status ↦ err status
          | ok (rest, found) ↦ ok (folded ∷ rest, found)
        ]
]

-- The ancestors of a fold path below the tree root, nearest first: what the `while let` walks.
-- Each is shorter than the one before, so the length of the path is fuel enough.
unfoldable pub ancestors_of : ℕ → Text → List Text
unfolding rsplit_once
ancestors_of zero path = []
ancestors_of (suc fuel) path = elim (rsplit_once slash path) [
  | none ↦ []
  | some (parent, _) ↦ elim (is_empty parent) [
    | true ↦ []
    | false ↦ parent ∷ ancestors_of fuel parent
  ]
]

abbrev pub member : List Text → Text → Bool
member [] path = false
member (p ∷ ps) path = text_eq p path || member ps path

-- The second loop: each path must be new, with no accepted ancestor.
unfoldable pub accept_paths : List Text → List SubTreeEntry → Bool
unfolding ancestors_of any text_eq
accept_paths accepted [] = true
accept_paths accepted (entry ∷ entries) =
    let rest = accept_paths (entry.path ∷ accepted) entries in
    if any (member accepted) (ancestors_of (length entry.path) entry.path)
    then false
    else if member accepted entry.path
    then false
    else rest

abbrev by_path : SubTreeEntry → SubTreeEntry → Bool
by_path first second = text_le first.path second.path

unfoldable pub normalize : ConfigPath → List SubTreeEntry → Result Status NormalizedSubtree
unfolding fold_entries accept_paths sort_by text_le
normalize root values = fold_entries root values [] >>= λ (folded, displays).
    let sorted = sort_by by_path folded in
    if accept_paths [] sorted
    then ok (record { values = sorted; displays = displays })
    else err invalid_subtree

abbrev resolve_marker : List Text → Option SubTreeEntryContent → Text → Option SubTreeEntryContent
resolve_marker secret_paths (some preserve_secret) path =
    if member secret_paths path then some preserve_secret else some (plain_value masked_secret_text)
resolve_marker secret_paths content path = content

unfoldable pub resolve_preserve_markers : List SubTreeEntry → List Text → List SubTreeEntry
unfolding text_eq
resolve_preserve_markers [] secret_paths = []
resolve_preserve_markers (entry ∷ entries) secret_paths =
    record entry { content = resolve_marker secret_paths entry.content entry.path }
    ∷ resolve_preserve_markers entries secret_paths

abbrev pub plain_path : SubTreeEntry → Option Text
plain_path entry = elim entry.content [ some (plain_value _) ↦ some entry.path | _ ↦ none ]

abbrev pub preserve_path : SubTreeEntry → Option Text
preserve_path entry = elim entry.content [ some preserve_secret ↦ some entry.path | _ ↦ none ]

unfoldable pub plain_paths : List SubTreeEntry → List Text → Result Status (List Text)
unfolding filter_map any all paths_collide text_eq strip_prefix
plain_paths values secret_paths =
    if any (λ plain. any (paths_collide plain) secret_paths) (filter_map plain_path values)
      || not (all (member secret_paths) (filter_map preserve_path values))
    then err invalid_subtree
    else ok (filter_map plain_path values)
