-- ===== src/Server/Values/Store.antt =====
-- values/store.rs: the statements behind the service, and the constraints of the schema
-- (migrations/0007 to 0009) that they run under.
pub mod Leaves
pub mod Kept
use sovereign_config.Prelude.{
  leb, ℕ, ◌+◌, Bool, true, false, not, ◌&&◌, ◌||◌, Option, none, some, List, [], ◌∷◌, ◌++◌, map,
  ltb, ◌==◌, if◌then◌else◌, is_some, ok, err, any, keep_if, sort_by, filter_map, Text, codes, slash,
  text_eq, fold, starts_with, split, trim_start_matches, concat, decimal, text_le,
}
use sovereign_config.Core.Path.{ConfigPath, fold_key, parse_operation}
use sovereign_config.Server.Rpc.{OffsetDateTime}
use sovereign_config.Server.Audit.Narrative.{plain, secret}
use sovereign_config.Server.Values.Paths.{parent_path}
use sovereign_config.Server.Values.Exec.{
  PathRow, lowercase_path, ContentRow, Db, Exec, nextval, pure, ◌>>◌, statement, direct, reading,
  lock_path, Effect,
}

pub record ListedValueRow : Type 0 where
  pub path : Text
  pub lowercase_path : Text
  pub content_id : ℕ
  pub value : Text
  pub classification : Text
  pub created_at : OffsetDateTime
  pub updated_at : OffsetDateTime

pub record PathContentClassRow : Type 0 where
  pub content_id : ℕ
  pub value : Text
  pub classification : Text
  pub path_count : ℕ

pub record DeletedPathRow : Type 0 where
  pub path : Text
  pub content_id : ℕ
  pub value : Text
  pub classification : Text

pub record MutationRow : Type 0 where
  pub created_at : OffsetDateTime
  pub updated_at : OffsetDateTime

-- `c.id = …`
unfoldable pub content_of : ℕ → List ContentRow → Option ContentRow
content_of id [] = none
content_of id (row ∷ rows) =
    let rest = content_of id rows in if row.id == id then some row else rest

-- `p.lowercase_path = …`
unfoldable pub path_at : Text → List PathRow → Option PathRow
path_at key [] = none
path_at key (row ∷ rows) =
    let rest = path_at key rows in if text_eq (fold row.path) key then some row else rest

-- `starts_with(text, base || '/')`
abbrev pub strictly_below : Text → Text → Bool
strictly_below base text = starts_with text (base ++ (slash ∷ []))

-- `$1 = '/' OR p.lowercase_path = $1 OR starts_with(p.lowercase_path, $1 || '/')`
unfoldable pub selects : Text → PathRow → Bool
selects base row =
    text_eq base (slash ∷ [])
    || text_eq (lowercase_path row) base
    || strictly_below base (lowercase_path row)

abbrev by_fold : PathRow → PathRow → Bool
by_fold a b = text_le (lowercase_path a) (lowercase_path b)

-- A row other than `path` that is above or below it.
unfoldable pub nests_with : Text → PathRow → Bool
nests_with path row =
    not (text_eq (lowercase_path row) path)
    && (strictly_below path (lowercase_path row) || strictly_below (lowercase_path row) path)

unfoldable pub path_collides : Text → Exec Bool
unfolding nests_with any
path_collides path = statement (reading (λ db. any (nests_with path) db.paths))

-- `nextval` of the identity sequence.
unfoldable pub reserve_content_id : Exec ℕ
unfolding nextval
reserve_content_id = nextval

-- The primary key refuses an identity that is taken.
unfoldable pub insert_content_row : ContentRow → Effect ContentRow
insert_content_row row db = elim (content_of row.id db.contents) [
  | some _ ↦ none
  | none ↦ some (row, record db { contents = row ∷ db.contents })
]

unfoldable pub insert_content : ℕ → Text → Text → OffsetDateTime → Exec ContentRow
insert_content content_id value classification now = statement (
    insert_content_row (record {
      id = content_id;
      value = value;
      classification = classification;
      created_at = now;
      updated_at = now;
    }))

-- The grammar of `path` is checked, `lowercase_path` is unique, and the content must exist.
unfoldable pub insert_path_row : PathRow → Effect (Unit {0})
insert_path_row row db = elim (parse_operation row.path) [
  | err _ ↦ none
  | ok _ ↦ elim (path_at (lowercase_path row) db.paths) [
    | some _ ↦ none
    | none ↦ elim (content_of row.content_id db.contents) [
      | none ↦ none
      | some _ ↦ some (tt, record db { paths = row ∷ db.paths })
    ]
  ]
]

unfoldable pub insert_path : Text → ℕ → OffsetDateTime → Exec (Unit {0})
insert_path path content_id now =
    statement (insert_path_row (record { path = path; content_id = content_id; created_at = now }))

abbrev insert_id : ℕ → List ℕ → List ℕ
insert_id id [] = id ∷ []
insert_id id (x ∷ xs) =
    let rest = insert_id id xs in
    if id == x then x ∷ xs else if ltb id x then id ∷ (x ∷ xs) else x ∷ rest

-- `sort_unstable` and `dedup`
unfoldable pub content_ids : List DeletedPathRow → List ℕ
content_ids [] = []
content_ids (row ∷ rows) = insert_id row.content_id (content_ids rows)

abbrev pub refers_to : ℕ → PathRow → Bool
refers_to id row = row.content_id == id

abbrev pub has_id : List ℕ → ℕ → Bool
has_id [] id = false
has_id (x ∷ xs) id = x == id || has_id xs id

abbrev survives_prune : List ℕ → List PathRow → ContentRow → Bool
survives_prune ids paths row = not (has_id ids row.id) || any (refers_to row.id) paths

unfoldable pub prune_contents : List ℕ → Effect (Unit {0})
unfolding any keep_if
prune_contents ids db =
    some (tt, record db { contents = keep_if (survives_prune ids db.paths) db.contents })

unfoldable pub lock_contents : List ℕ → Exec (Unit {0})
unfolding concat decimal
lock_contents [] = pure tt
lock_contents (id ∷ ids) =
    lock_path (concat (codes "content:" ∷ (decimal id ∷ []))) true >> lock_contents ids

unfoldable pub prune_orphan_contents : List ℕ → Exec (Unit {0})
unfolding lock_contents
prune_orphan_contents [] = pure tt
prune_orphan_contents (id ∷ ids) = lock_contents (id ∷ ids) >> statement (prune_contents (id ∷ ids))

-- The ancestors of the target below the tree root, outermost first: each prefix of its parent.
unfoldable pub lock_prefixes : Text → List Text → Exec (Unit {0})
lock_prefixes prefix [] = pure tt
lock_prefixes prefix (segment ∷ segments) =
    let next = prefix ++ (slash ∷ segment) in lock_path next false >> lock_prefixes next segments

unfoldable pub lock_ancestors : Text → Exec (Unit {0})
unfolding lock_prefixes trim_start_matches split
lock_ancestors parent =
    if text_eq parent (slash ∷ [])
    then pure tt
    else lock_prefixes [] (split slash (trim_start_matches slash parent))

unfoldable pub lock_mutation_path : ConfigPath → Exec (Unit {0})
unfolding lock_ancestors parent_path
lock_mutation_path path =
    (if text_eq (fold_key path) (slash ∷ [])
      then pure tt
      else lock_path (slash ∷ []) false >> lock_ancestors (parent_path (fold_key path)))
    >> lock_path (fold_key path) true

unfoldable pub path_candidates : Exec (List PathRow)
unfolding sort_by text_le
path_candidates = direct (reading (λ db. sort_by by_fold db.paths))

-- A path with its content, as the joins select it.
abbrev pub join_content : Db → PathRow → Option (PathRow × ContentRow)
join_content db row = elim (content_of row.content_id db.contents) [
  | none ↦ none
  | some content ↦ some (row, content)
]

unfoldable pub joined : (PathRow → Bool) → Db → List (PathRow × ContentRow)
unfolding content_of filter_map keep_if sort_by text_le
joined p db = filter_map (join_content db) (sort_by by_fold (keep_if p db.paths))

abbrev pub listed_row : PathRow × ContentRow → ListedValueRow
listed_row (path_row, content) = record {
  path = path_row.path;
  lowercase_path = fold path_row.path;
  content_id = path_row.content_id;
  value = content.value;
  classification = content.classification;
  created_at = content.created_at;
  updated_at = content.updated_at;
}

abbrev pub among : List Text → Text → Bool
among [] key = false
among (k ∷ ks) key = text_eq k key || among ks key

unfoldable pub listed_values : List Text → Exec (List ListedValueRow)
unfolding joined text_eq
listed_values keys =
    direct (reading (λ db. map listed_row (joined (λ row. among keys (lowercase_path row)) db)))

unfoldable pub sub_tree_rows : Text → Exec (List (PathRow × ContentRow))
unfolding joined selects
sub_tree_rows base = direct (reading (joined (selects base)))

abbrev count_paths : ℕ → List PathRow → ℕ
count_paths id [] = 0
count_paths id (row ∷ rows) = (if row.content_id == id then 1 else 0) + count_paths id rows

unfoldable pub content_class_at : Text → Db → Option PathContentClassRow
unfolding path_at content_of
content_class_at key db = elim (path_at key db.paths) [
  | none ↦ none
  | some row ↦ elim (content_of row.content_id db.contents) [
    | none ↦ none
    | some content ↦ some (record {
      content_id = row.content_id;
      value = content.value;
      classification = content.classification;
      path_count = count_paths row.content_id db.paths;
    })
  ]
]

unfoldable pub path_content_class : Text → Exec (Option PathContentClassRow)
unfolding content_class_at
path_content_class key = statement (reading (content_class_at key))

unfoldable pub write_content : ℕ → Text → Text → OffsetDateTime → List ContentRow → List ContentRow
write_content id value classification now [] = []
write_content id value classification now (row ∷ rows) =
    (if row.id == id
      then record row { value = value; classification = classification; updated_at = now }
      else row)
    ∷ write_content id value classification now rows

-- `UPDATE … RETURNING`: no row to update is an error of `fetch_one`, and a content is not updated
-- before it was created (a CHECK of migration 0007).
unfoldable pub update_content_row : ℕ → Text → Text → OffsetDateTime → Effect MutationRow
update_content_row id value classification now db = elim (content_of id db.contents) [
  | none ↦ none
  | some row ↦
      if leb row.created_at now
      then some (
        record { created_at = row.created_at; updated_at = now },
        record db { contents = write_content id value classification now db.contents },
      )
      else none
]

unfoldable pub update_content : ℕ → Text → Text → OffsetDateTime → Exec MutationRow
update_content id stored classification now =
    statement (update_content_row id stored classification now)

-- The secrets at, below or above a fold path.
abbrev is_secret_touching : Text → PathRow × ContentRow → Option Text
is_secret_touching base (row, content) =
    if text_eq content.classification secret
      && (selects base row || strictly_below (lowercase_path row) base)
    then some (fold row.path)
    else none

unfoldable pub secret_paths_touching : Text → Exec (List Text)
unfolding joined selects filter_map text_eq starts_with
secret_paths_touching base =
    statement (reading (λ db. filter_map (is_secret_touching base) (joined (λ _. true) db)))

abbrev pub deleted_row : PathRow × ContentRow → DeletedPathRow
deleted_row (row, content) = record {
  path = row.path;
  content_id = row.content_id;
  value = content.value;
  classification = content.classification;
}

abbrev by_display : DeletedPathRow → DeletedPathRow → Bool
by_display left right = text_le left.path right.path

-- `DELETE … USING … RETURNING`: the rows that are chosen, with their contents; they leave the table.
unfoldable pub delete_chosen : (Db → PathRow → Bool) → Effect (List DeletedPathRow)
unfolding joined keep_if filter_map sort_by text_le
delete_chosen chosen db = some (
  sort_by by_display (map deleted_row (joined (chosen db) db)),
  record db { paths = keep_if (λ row. not (chosen db row)) db.paths },
)

abbrev pub is_plain_content : Option ContentRow → Bool
is_plain_content none = false
is_plain_content (some content) = text_eq content.classification plain

abbrev pub has_content : Option ContentRow → Bool
has_content content = is_some content

abbrev pub chosen_plain : Text → List Text → Db → PathRow → Bool
chosen_plain base keep db row =
    selects base row
    && is_plain_content (content_of row.content_id db.contents)
    && not (among keep (lowercase_path row))

unfoldable pub delete_plain_paths_except : Text → List Text → Exec (List DeletedPathRow)
unfolding delete_chosen selects content_of text_eq starts_with
delete_plain_paths_except base keep = statement (delete_chosen (chosen_plain base keep))

abbrev pub chosen_delete : Text → Bool → Db → PathRow → Bool
chosen_delete base recurse db row =
    (if recurse then selects base row else text_eq (lowercase_path row) base)
    && has_content (content_of row.content_id db.contents)

unfoldable pub delete_paths : Text → Bool → Exec (List DeletedPathRow)
unfolding delete_chosen selects content_of text_eq starts_with
delete_paths base recurse = statement (delete_chosen (chosen_delete base recurse))

abbrev pub id_of : Option PathRow → Option ℕ
id_of none = none
id_of (some row) = some row.content_id

-- Asked inside a transaction or on the pool.
unfoldable pub content_id_at : (Effect (Option ℕ) → Exec (Option ℕ)) → Text → Exec (Option ℕ)
content_id_at run key = run (reading (λ db. id_of (path_at key db.paths)))

-- Overwrites a content with a plain value; the result is the value and classification before.
unfoldable pub update_plain_row : ℕ → Text → OffsetDateTime → Effect (Text × Text)
update_plain_row id value now db = elim (content_of id db.contents) [
  | none ↦ none
  | some row ↦
      if leb row.created_at now
      then some (
        (row.value, row.classification),
        record db { contents = write_content id value plain now db.contents },
      )
      else none
]

unfoldable pub update_plain_content : ℕ → Text → OffsetDateTime → Exec (Text × Text)
update_plain_content id value now = statement (update_plain_row id value now)

unfoldable pub revealed_row : Text → Exec (Option PathContentClassRow)
unfolding content_class_at
revealed_row key = direct (reading (content_class_at key))

unfoldable pub path_is_occupied : Text → Exec Bool
path_is_occupied key = statement (reading (λ db. is_some (path_at key db.paths)))

unfoldable pub paths_of_content : ℕ → Exec (List PathRow)
unfolding sort_by keep_if text_le
paths_of_content id = direct (reading (λ db. sort_by by_fold (keep_if (refers_to id) db.paths)))
