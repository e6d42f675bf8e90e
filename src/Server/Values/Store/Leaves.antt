-- ===== src/Server/Values/Store/Leaves.antt =====
-- values/store.rs: the stored paths as the leaves of a tree, and the statements that change them.
use sovereign_config.Prelude.{
  ℕ, ◌≡◌, sym, ap, ◌∙◌, subst, ◌≢◌, inl, inr, false, none, some, List, [], ◌∷◌, ◌++◌, arith,
  Bool-cases, Option-cases, All, any, Text, slash, text_eq, text_eq_iff, fold, Result-cases,
}
use sovereign_config.Core.Path.{parse_operation}
use sovereign_config.Server.Auth.Grants.{starts_below_iff}
use sovereign_config.Server.Rpc.{OffsetDateTime}
use sovereign_config.Server.Values.Exec.{Db, PathRow, lowercase_path}
use sovereign_config.Server.Values.Exec.Commits.{Leads, Leads-statement}
use sovereign_config.Server.Values.Exec.Steady.{answer_of}
use sovereign_config.Server.Values.Store.{
  path_at, content_of, nests_with, path_collides, insert_path_row, insert_path, strictly_below,
}

abbrev pub Below : Text → Text → Type 0
Below base path = (rest : Text) × (path ≡ base ++ (slash ∷ rest))

abbrev pub Apart : Text → Text → Type 0
Apart a b = (a ≢ b) × (¬ Below a b) × (¬ Below b a)

abbrev pub IsLeafTree : List PathRow → Type 0
IsLeafTree [] = Unit
IsLeafTree (row ∷ rows) =
    All (λ (other : PathRow). Apart (lowercase_path row) (lowercase_path other)) rows
    × IsLeafTree rows

not-Below : (base path : Text) → strictly_below base path ≡ false → ¬ Below base path
not-Below base path h below = let e = (starts_below_iff path base).1 below in absurd (ground arith)

Apart-nests_with :
    (key : Text) (row : PathRow)
    → text_eq (lowercase_path row) key ≡ false
    → nests_with key row ≡ false
    → Apart key (lowercase_path row)
unfolding nests_with
Apart-nests_with key row other apart = (
  λ same. let e = (text_eq_iff (lowercase_path row) key).1 (sym same) in absurd (ground arith),
  not-Below key (lowercase_path row) (ground arith),
  not-Below (lowercase_path row) key (ground arith),
)

-- A key that is not stored and nests with nothing stands apart from every row.
Apart-rows :
    (key : Text) (rows : List PathRow)
    → any (nests_with key) rows ≡ false
    → path_at key rows ≡ none
    → All (λ (row : PathRow). Apart key (lowercase_path row)) rows
unfolding any path_at
Apart-rows key [] apart new = tt
Apart-rows key (row ∷ rows) apart new = elim (Bool-cases (text_eq (lowercase_path row) key)) [
  | inl e ↦ absurd (ground arith)
  | inr e ↦
      (Apart-nests_with key row e (ground arith), Apart-rows key rows (ground arith) (ground arith))
]

-- What an inserted path went through.
pub insert_path_row-some :
    (row : PathRow) (db : Db) {a : Unit {0}} {db' : Db}
    → insert_path_row row db ≡ some (a, db')
    → (path_at (lowercase_path row) db.paths ≡ none) × (db' ≡ record db { paths = row ∷ db.paths })
unfolding insert_path_row
insert_path_row-some row db h = elim (Result-cases (parse_operation row.path)) [
  | inr (e, bad) ↦ absurd (ground arith)
  | inl (p, good) ↦ elim (Option-cases (path_at (lowercase_path row) db.paths)) [
    | inr (other, taken) ↦ absurd (ground arith)
    | inl new ↦ elim (Option-cases (content_of row.content_id db.contents)) [
      | inl dangling ↦ absurd (ground arith)
      | inr (content, found) ↦ (new, ground arith)
    ]
  ]
]

abbrev pub Tree : Db → Type 0
Tree db = IsLeafTree db.paths

pub Leads-path_collides :
    (key : Text)
    → Leads Tree
        (path_collides key)
        (λ collides db. Tree db × (any (nests_with key) db.paths ≡ collides))
unfolding path_collides
Leads-path_collides key = Leads-statement _ (λ db tree collides db' h.
    let (same, unchanged) = answer_of h in
    (
      subst Tree unchanged tree,
      ap (λ (d : Db). any (nests_with key) d.paths) (sym unchanged) ∙ same,
    ))

pub Leads-insert_path :
    (path : Text) (content_id : ℕ) (now : OffsetDateTime)
    → Leads
        (λ db. Tree db × (any (nests_with (fold path)) db.paths ≡ false))
        (insert_path path content_id now)
        (λ _. Tree)
unfolding insert_path
Leads-insert_path path content_id now =
    let row : PathRow = record { path = path; content_id = content_id; created_at = now } in
    Leads-statement _ (λ db (tree, apart) a db' h.
      let (new, grown) = insert_path_row-some row db h in
      subst Tree (sym grown) (Apart-rows (fold path) db.paths apart new, tree))
