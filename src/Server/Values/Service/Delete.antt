-- ===== src/Server/Values/Service/Delete.antt =====
-- values/service.rs `delete_values`.
use sovereign_config.Prelude.{Bool, [], ◌∷◌, if◌then◌else◌, ok, err, length, is_empty, Text}
use sovereign_config.Core.Path.{fold_key}
use sovereign_config.Server.Auth.{write}
use sovereign_config.Server.Rpc.{CallContext, actor, OffsetDateTime, to_timestamp}
use sovereign_config.Server.Values.Authz.{authorize}
use sovereign_config.Server.Values.Exec.{Exec, pure, lift, ◌>>=◌, ◌>>◌, begin, commit}
use sovereign_config.Server.Values.Store.{
  content_ids, prune_orphan_contents, lock_mutation_path, delete_paths,
}
use sovereign_config.Server.Values.Service.Common.{
  ConfigurationService, DeleteMetadata, record_in, value_not_found,
}
use sovereign_config.Server.Values.Service.Itemize.{deletion_events}

module _ (service : ConfigurationService) where
  unfoldable pub delete_values : CallContext → OffsetDateTime → Text → Bool → Exec DeleteMetadata
  delete_values context now path recurse = do
    path ← lift (authorize context path (write ∷ []) recurse)
    caller ← lift (actor context)
    begin
    lock_mutation_path path
    deleted ← delete_paths (fold_key path) recurse
    lift (if is_empty deleted then err value_not_found else ok tt)
    prune_orphan_contents (content_ids deleted)
    record_in service caller now (deletion_events caller path deleted recurse)
    commit
    deleted_at ← lift (to_timestamp now)
    pure (record { deleted_at = deleted_at; deleted_count = length deleted })
