-- ===== src/Server/Values/Service/Visible.antt =====
-- values/service.rs: what `get_sub_tree` and `list_value_paths` show to a caller.
use sovereign_config.Prelude.{
  ◌≡◌, refl, sym, ap, ◌∙◌, subst, inl, inr, Bool, true, some, List, [], ◌∷◌, map, arith,
  if◌then◌else◌, Bool-cases, Option-cases, All, ok, all, any, keep_if, All-sort_by, All-filter_map,
  Text, text_eq, text_eq_sound, fold, map_err-eq-ok, ok_or-eq-ok, Result-cases, fold_idem,
}
use sovereign_config.Core.Path.{ConfigPath, fold_key, parse, parse_operation}
use sovereign_config.Core.Path.Grammar.{parse_operation_sound}
use sovereign_config.Core.Path.Scope.{Covers, is_at_or_below_iff}
use sovereign_config.Core.Value.{SubTreeValue}
use sovereign_config.Server.Auth.{AuthenticatedPrincipal, read, allows, grant_covers}
use sovereign_config.Server.Auth.Grants.{Covers-iff, allows_below}
use sovereign_config.Server.Rpc.{CallContext, OffsetDateTime, principal, storage_unavailable}
use sovereign_config.Server.Values.Authz.{authorize, authorize_sound}
use sovereign_config.Server.Audit.Narrative.{secret}
use sovereign_config.Server.Values.Content.{masked_content, masked_content-secret}
use sovereign_config.Server.Values.Exec.{Db, PathRow, ContentRow, World, direct, reading, fault_now}
use sovereign_config.Server.Values.Exec.Rules.{
  Ensures, Ensures-bind, Ensures-lift_bind, Ensures-lift, Ensures-pure,
}
use sovereign_config.Server.Values.Store.{selects, joined, join_content, content_of, sub_tree_rows}
use sovereign_config.Server.Values.Service.Common.{ConfigurationService, stored_path}
use sovereign_config.Server.Values.Service.Reads.{
  subtree_values, get_sub_tree, readable_paths, list_value_paths,
}

-- A read outside a transaction answers with what it reads of the committed tables.
direct-reading-eq-ok :
    {A : Type 0} (f : Db → A) (w : World) {a : A}
    → (direct (reading f) w).0 ≡ ok a
    → a ≡ f w.committed
unfolding direct
direct-reading-eq-ok f w h = elim (Bool-cases (fault_now w.faults)) [
  | inl failed ↦ absurd (ground arith)
  | inr fine ↦ ground arith
]

keep_if-All :
    (p : PathRow → Bool) (rows : List PathRow) → All (λ row. p row ≡ true) (keep_if p rows)
unfolding keep_if
keep_if-All p [] = tt
keep_if-All p (row ∷ rows) = elim (Bool-cases (p row)) [
  | inl e ↦ rw e (e, keep_if-All p rows)
  | inr e ↦ rw e (keep_if-All p rows)
]

-- A row that the join selects is the row that it joins.
join_content-row :
    (db : Db) (row : PathRow) (found : PathRow × ContentRow)
    → join_content db row ≡ some found
    → found.0 ≡ row
join_content-row db row found h = elim (Option-cases (content_of row.content_id db.contents)) [
  | inl missing ↦ absurd (ground arith)
  | inr (content, e) ↦ ground arith
]

joined-selected :
    (p : PathRow → Bool) (db : Db)
    → All (λ (found : PathRow × ContentRow). p found.0 ≡ true) (joined p db)
unfolding joined
joined-selected p db =
    All-filter_map (λ row. p row ≡ true) (λ (found : PathRow × ContentRow). p found.0 ≡ true)
      (join_content db)
      (λ row found e h. subst (λ r. p r ≡ true) (sym (join_content-row db row found e)) h) _
      (All-sort_by _ _ (keep_if p db.paths) (keep_if-All p db.paths))

selects-Covers :
    (base : Text) (row : PathRow) → selects base row ≡ true → Covers base (fold row.path)
unfolding selects
selects-Covers base row h = (Covers-iff base (fold row.path)).0 (ground arith)

-- A stored path under the selected root is allowed wherever the root is.
allowed_row :
    (caller : AuthenticatedPrincipal) (base p : ConfigPath) (row : PathRow)
    → allows caller base read ≡ true
    → selects (fold_key base) row ≡ true
    → stored_path row.path ≡ ok p
    → allows caller p read ≡ true
unfolding stored_path
allowed_row caller base p row allowed selected parsed =
    let parsed_row = map_err-eq-ok (parse_operation row.path) storage_unavailable parsed in
    let (same, _) = parse_operation_sound row.path p parsed_row in
    let covered : Covers (fold_key base) (fold_key p) =
      subst (λ t. Covers (fold_key base) (fold t)) (sym same)
        (selects-Covers (fold_key base) row selected) in
    allows_below caller base p read row.path parsed_row ((is_at_or_below_iff p base).1 covered)
      allowed

subtree_values-allowed :
    (caller : AuthenticatedPrincipal) (base : ConfigPath) (rows : List (PathRow × ContentRow))
    {values : List SubTreeValue}
    → allows caller base read ≡ true
    → All (λ (found : PathRow × ContentRow). selects (fold_key base) found.0 ≡ true) rows
    → subtree_values rows ≡ ok values
    → All (λ (value : SubTreeValue). allows caller value.path read ≡ true) values
unfolding subtree_values
subtree_values-allowed caller base [] {values} allowed selected h =
    let none_left : [] ≡ values = ground arith in
    subst (All (λ (value : SubTreeValue). allows caller value.path read ≡ true)) none_left tt
subtree_values-allowed caller base ((row, content) ∷ rows) {values} allowed (first, rest) h =
    elim (Option-cases (masked_content content.value content.classification)) [
      | inl bad ↦ absurd (ground arith)
      | inr (value, shown) ↦ elim (Result-cases (stored_path row.path)) [
        | inr (e, bad) ↦ absurd (ground arith)
        | inl (p, parsed) ↦ elim (Result-cases (subtree_values rows)) [
          | inr (e, bad) ↦ absurd (ground arith)
          | inl (others, more) ↦
              let same : record { path = p; value = value } ∷ others ≡ values = ground arith in
              subst (All (λ (v : SubTreeValue). allows caller v.path read ≡ true)) same (
                allowed_row caller base p row allowed first parsed,
                subtree_values-allowed caller base rows allowed rest more,
              )
        ]
      ]
    ]

-- A value that the caller may read.
abbrev Readable : AuthenticatedPrincipal → SubTreeValue → Type 0
Readable caller value = allows caller value.path read ≡ true

-- What the statement of `get_sub_tree` answers with lies at or below the root.
sub_tree_rows-selected :
    (base : Text) (w : World) {rows : List (PathRow × ContentRow)}
    → (sub_tree_rows base w).0 ≡ ok rows
    → All (λ (found : PathRow × ContentRow). selects base found.0 ≡ true) rows
unfolding sub_tree_rows
sub_tree_rows-selected base w h =
    subst (All (λ (found : PathRow × ContentRow). selects base found.0 ≡ true))
      (sym (direct-reading-eq-ok (joined (selects base)) w h))
      (joined-selected (selects base) w.committed)

parse-path : (value : Text) (p : ConfigPath) → parse value ≡ ok p → p.path ≡ value
unfolding parse
parse-path value p h = ground arith

-- The candidate that is asked about and the path that is answered have one fold key.
allowed_as_stored :
    (caller : AuthenticatedPrincipal) (row : PathRow) (candidate path : ConfigPath)
    → parse (fold row.path) ≡ ok candidate
    → stored_path row.path ≡ ok path
    → allows caller candidate read ≡ true
    → allows caller path read ≡ true
unfolding stored_path allows
allowed_as_stored caller row candidate path parsed stored allowed =
    let (same, _) =
      parse_operation_sound row.path path
        (map_err-eq-ok (parse_operation row.path) storage_unavailable stored) in
    let folded : fold candidate.path ≡ fold path.path =
      ap fold (parse-path (fold row.path) candidate parsed)
      ∙ fold_idem row.path
      ∙ ap fold (sym same) in
    subst (λ key. any (grant_covers key read) caller.grants ≡ true) folded allowed

readable_paths-allowed :
    (caller : AuthenticatedPrincipal) (rows : List PathRow) {paths : List ConfigPath}
    → readable_paths caller rows ≡ ok paths
    → All (λ path. allows caller path read ≡ true) paths
unfolding readable_paths
readable_paths-allowed caller [] {paths} h =
    let none_left : [] ≡ paths = ground arith in
    subst (All (λ path. allows caller path read ≡ true)) none_left tt
readable_paths-allowed caller (row ∷ rows) {paths} h = elim (Result-cases (parse (fold row.path))) [
  | inr (e, bad) ↦ absurd (ground arith)
  | inl (candidate, parsed) ↦ elim (Bool-cases (allows caller candidate read)) [
    | inr hidden ↦ readable_paths-allowed caller rows (ground arith)
    | inl allowed ↦ elim (Result-cases (stored_path row.path)) [
      | inr (e, bad) ↦ absurd (ground arith)
      | inl (path, stored) ↦ elim (Result-cases (readable_paths caller rows)) [
        | inr (e, bad) ↦ absurd (ground arith)
        | inl (others, more) ↦
            let same : path ∷ others ≡ paths = ground arith in
            subst (All (λ p. allows caller p read ≡ true)) same (
              allowed_as_stored caller row candidate path parsed stored allowed,
              readable_paths-allowed caller rows more,
            )
      ]
    ]
  ]
]

reader_of :
    (context : CallContext) (path : Text) (allow_root : Bool) (p : ConfigPath)
    → authorize context path (read ∷ []) allow_root ≡ ok p
    → (caller : AuthenticatedPrincipal) × (context.principal ≡ some caller)
      × (allows caller p read ≡ true)
unfolding all
reader_of context path allow_root p h =
    let (caller, known, allowed, _) = authorize_sound context path (read ∷ []) allow_root p h in
    (caller, known, ground arith)

module _ (service : ConfigurationService) where
  get_sub_tree-Ensures :
      (context : CallContext) (now : OffsetDateTime) (path : Text)
      → Ensures
          (λ values.
            (caller : AuthenticatedPrincipal) × (context.principal ≡ some caller)
            × All (Readable caller) values)
          (get_sub_tree service context now path)
  unfolding get_sub_tree
  get_sub_tree-Ensures context now path = Ensures-lift_bind _ _ (λ root authorized.
      Ensures-lift_bind _ _ (λ by _.
        Ensures-bind
          (All (λ (found : PathRow × ContentRow). selects (fold_key root) found.0 ≡ true)) _ _
          (record { at = λ w rows h. sub_tree_rows-selected (fold_key root) w h })
          (λ rows selected. Ensures-lift_bind _ _ (λ values shown.
            Ensures-bind (λ _. Unit {0}) _ _ (record { at = λ w _ h. tt })
              (λ _ _. Ensures-pure values (
                let (caller, known, allowed) = reader_of context path true root authorized in
                (
                  caller,
                  known,
                  subtree_values-allowed caller root rows allowed selected shown,
                )))))))

  -- `get_sub_tree` answers only with values at paths that its caller may read.
  pub get_sub_tree-allowed :
      (context : CallContext) (now : OffsetDateTime) (path : Text) (w : World)
      (values : List SubTreeValue)
      → (get_sub_tree service context now path w).0 ≡ ok values
      → (caller : AuthenticatedPrincipal) × (context.principal ≡ some caller)
        × All (λ (value : SubTreeValue). allows caller value.path read ≡ true) values
  get_sub_tree-allowed context now path = (get_sub_tree-Ensures context now path).at

  list_value_paths-Ensures :
      (context : CallContext) (path : Text)
      → Ensures
          (λ paths.
            (caller : AuthenticatedPrincipal) × (context.principal ≡ some caller)
            × All (λ p. allows caller p read ≡ true) paths)
          (list_value_paths service context path)
  unfolding list_value_paths principal
  list_value_paths-Ensures context path = Ensures-lift_bind _ _ (λ root authorized.
      Ensures-lift_bind _ _ (λ caller known.
        Ensures-bind (λ _. Unit {0}) _ _ (record { at = λ w _ h. tt })
          (λ found _. Ensures-lift_bind _ _ (λ id _.
            Ensures-bind (λ _. Unit {0}) _ _ (record { at = λ w _ h. tt })
              (λ rows _. Ensures-lift _ (λ paths shown. (
                caller,
                ok_or-eq-ok context.principal _ known,
                readable_paths-allowed caller rows shown,
              )))))))

  -- `list_value_paths` answers only with paths that its caller may read, though the value may have
  -- others.
  pub list_value_paths-allowed :
      (context : CallContext) (path : Text) (w : World) (paths : List ConfigPath)
      → (list_value_paths service context path w).0 ≡ ok paths
      → (caller : AuthenticatedPrincipal) × (context.principal ≡ some caller)
        × All (λ p. allows caller p read ≡ true) paths
  list_value_paths-allowed context path = (list_value_paths-Ensures context path).at

-- The row of a secret with another stored text; a row of another classification as it is.
abbrev pub reseal : (ContentRow → Text) → PathRow × ContentRow → PathRow × ContentRow
reseal text (row, content) = (
  row,
  record content {
    value = if text_eq content.classification secret then text content else content.value;
  },
)

reseal-value :
    (text : ContentRow → Text) (content : ContentRow)
    → masked_content
        (if text_eq content.classification secret then text content else content.value)
        content.classification
      ≡ masked_content content.value content.classification
unfolding masked_content
reseal-value text content = elim (Bool-cases (text_eq content.classification secret)) [
  | inl e ↦
      rw (e, text_eq_sound content.classification secret e)
        (masked_content-secret (text content) content.value)
  | inr e ↦ rw e refl
]

-- What `get_sub_tree` shows of some rows does not depend on what is stored for the secrets among
-- them.
pub subtree_values-reseal :
    (text : ContentRow → Text) (rows : List (PathRow × ContentRow))
    → subtree_values (map (reseal text) rows) ≡ subtree_values rows
unfolding subtree_values
subtree_values-reseal text [] = refl
subtree_values-reseal text ((row, content) ∷ rows) =
    rw (reseal-value text content, subtree_values-reseal text rows) refl
