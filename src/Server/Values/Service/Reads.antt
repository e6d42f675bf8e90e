-- ===== src/Server/Values/Service/Reads.antt =====
-- values/service.rs: `reveal_secret`, `get_sub_tree` and `list_value_paths`.
use sovereign_config.Prelude.{
  true, false, Option, none, some, List, [], ◌∷◌, if◌then◌else◌, ok, err, length, Text, text_eq,
  Result, ok_or, map_err,
}
use sovereign_config.Core.Path.{ConfigPath, parse, fold_key}
use sovereign_config.Core.Value.{SubTreeValue, ValueContent}
use sovereign_config.Server.Auth.{AuthenticatedPrincipal, read, allows}
use sovereign_config.Server.Rpc.{
  Status, status, invalid_argument, storage_unavailable, CallContext, principal, actor,
  OffsetDateTime,
}
use sovereign_config.Server.Audit.Narrative.{secret}
use sovereign_config.Server.Audit.Events.{on_secret_revealed, on_subtree_read}
use sovereign_config.Server.Encryption.{decrypt}
use sovereign_config.Server.Values.Authz.{authorize}
use sovereign_config.Server.Values.Content.{masked_content}
use sovereign_config.Server.Values.Exec.{
  PathRow, ContentRow, Exec, pure, lift, ◌>>=◌, ◌>>◌, direct, ignoring, lowercase_path,
}
use sovereign_config.Server.Values.Store.{
  sub_tree_rows, content_id_at, revealed_row, paths_of_content,
}
use sovereign_config.Server.Values.Service.Common.{
  ConfigurationService, decryption_failed, record_now, stored_path, value_not_found,
}

-- One round of the loop, with what the rounds after it answer.
abbrev pub show_value :
    Option ValueContent
    → Result Status ConfigPath
    → Result Status (List SubTreeValue)
    → Result Status (List SubTreeValue)
show_value none path later = err storage_unavailable
show_value (some value) (err status) later = err status
show_value (some value) (ok path) (err status) = err status
show_value (some value) (ok path) (ok values) = ok (record { path = path; value = value } ∷ values)

-- `for row in rows { masked_content(…)?; stored_path(…)? }`
unfoldable pub subtree_values : List (PathRow × ContentRow) → Result Status (List SubTreeValue)
subtree_values [] = ok []
subtree_values ((row, content) ∷ rows) =
    show_value (masked_content content.value content.classification) (stored_path row.path)
      (subtree_values rows)

-- The paths of one value that the caller may read.
unfoldable pub readable_paths :
    AuthenticatedPrincipal → List PathRow → Result Status (List ConfigPath)
readable_paths caller [] = ok []
readable_paths caller (row ∷ rows) = elim (parse (lowercase_path row)) [
  | err _ ↦ err storage_unavailable
  | ok candidate ↦ elim (allows caller candidate read) [
    | false ↦ readable_paths caller rows
    | true ↦ elim (stored_path row.path) [
      | err status ↦ err status
      | ok path ↦ elim (readable_paths caller rows) [
        | err status ↦ err status
        | ok paths ↦ ok (path ∷ paths)
      ]
    ]
  ]
]

module _ (service : ConfigurationService) where
  unfoldable pub reveal_secret : CallContext → OffsetDateTime → Text → Exec Text
  reveal_secret context now path = do
    path ← lift (authorize context path (read ∷ []) false)
    caller ← lift (actor context)
    found ← revealed_row (fold_key path)
    row ← lift (ok_or found value_not_found)
    lift (
        if text_eq row.classification secret
        then ok tt
        else err (status invalid_argument "configuration value is not a secret"))
    value ← lift (
        map_err (decrypt service.cipher row.content_id row.classification row.value)
          decryption_failed)
    record_now service caller now (on_secret_revealed caller path.path)
    pure value

  unfoldable pub get_sub_tree : CallContext → OffsetDateTime → Text → Exec (List SubTreeValue)
  get_sub_tree context now path = do
    path ← lift (authorize context path (read ∷ []) true)
    caller ← lift (actor context)
    rows ← sub_tree_rows (fold_key path)
    values ← lift (subtree_values rows)
    ignoring (record_now service caller now (on_subtree_read caller path.path (length values)))
    pure values

  unfoldable pub list_value_paths : CallContext → Text → Exec (List ConfigPath)
  list_value_paths context path = do
    path ← lift (authorize context path (read ∷ []) false)
    caller ← lift (principal context)
    found ← content_id_at direct (fold_key path)
    content_id ← lift (ok_or found value_not_found)
    rows ← paths_of_content content_id
    lift (readable_paths caller rows)
