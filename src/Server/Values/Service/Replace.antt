-- ===== src/Server/Values/Service/Replace.antt =====
-- values/service.rs `replace_sub_tree`.
use sovereign_config.Prelude.{true, List, [], ◌∷◌, length, Text}
use sovereign_config.Core.Path.{fold_key}
use sovereign_config.Server.Auth.{write, manage}
use sovereign_config.Server.Rpc.{CallContext, actor, OffsetDateTime, to_timestamp}
use sovereign_config.Server.Values.Authz.{authorize}
use sovereign_config.Server.Values.Subtree.{
  SubTreeEntry, normalize, resolve_preserve_markers, plain_paths,
}
use sovereign_config.Server.Values.Exec.{Exec, pure, lift, ◌>>=◌, ◌>>◌, begin, commit}
use sovereign_config.Server.Values.Store.{
  content_ids, prune_orphan_contents, lock_mutation_path, secret_paths_touching,
  delete_plain_paths_except,
}
use sovereign_config.Server.Values.Service.Common.{ConfigurationService, ReplaceMetadata, record_in}
use sovereign_config.Server.Values.Service.Itemize.{replacement_events}
use sovereign_config.Server.Values.Service.Writes.{resolve_plain_writes, write_shared, write_fresh}

module _ (service : ConfigurationService) where
  unfoldable pub replace_sub_tree :
      CallContext → OffsetDateTime → Text → List SubTreeEntry → Exec ReplaceMetadata
  replace_sub_tree context now path entries = do
    path ← lift (authorize context path (write ∷ (manage ∷ [])) true)
    normalized ← lift (normalize path entries)
    caller ← lift (actor context)
    begin
    lock_mutation_path path
    secret_paths ← secret_paths_touching (fold_key path)
    let values = resolve_preserve_markers normalized.values secret_paths
    plain_keys ← lift (plain_paths values secret_paths)
    cleared ← delete_plain_paths_except (fold_key path) plain_keys
    prune_orphan_contents (content_ids cleared)
    writes ← resolve_plain_writes (record { shared = []; shared_paths = []; fresh = [] }) values
    previous ← write_shared now writes.shared
    write_fresh now normalized.displays writes.fresh
    record_in service caller now
        (replacement_events caller path cleared writes previous normalized.displays)
    commit
    updated_at ← lift (to_timestamp now)
    pure (record { updated_at = updated_at; value_count = length values })
