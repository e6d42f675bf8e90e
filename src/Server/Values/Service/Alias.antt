-- ===== src/Server/Values/Service/Alias.antt =====
-- values/service.rs `add_value_path`: expose a value at one more path.
use sovereign_config.Prelude.{not, ◌||◌, if◌then◌else◌, ok, err, Text, ok_or, map_err}
use sovereign_config.Core.Path.{ConfigPath, parse_operation, fold_key, path_eq, path_le}
use sovereign_config.Server.Auth.{read, write, allows}
use sovereign_config.Server.Rpc.{
  status, invalid_argument, already_exists, CallContext, principal, actor, OffsetDateTime,
  to_timestamp,
}
use sovereign_config.Server.Audit.Events.{on_path_added}
use sovereign_config.Server.Values.Authz.{path_is_invalid, not_permitted}
use sovereign_config.Server.Values.Exec.{Exec, pure, lift, ◌>>=◌, ◌>>◌, statement, begin, commit}
use sovereign_config.Server.Values.Store.{
  path_collides, insert_path, lock_mutation_path, content_id_at, path_is_occupied,
}
use sovereign_config.Server.Values.Service.Common.{
  AddPathMetadata, ConfigurationService, record_in, value_collides, value_not_found,
}

-- Locks both hierarchies in the order of the fold keys.
unfoldable pub lock_both : ConfigPath → ConfigPath → Exec (Unit {0})
unfolding ◌>>=◌
lock_both source new_path =
    if path_le source new_path
    then lock_mutation_path source >> lock_mutation_path new_path
    else lock_mutation_path new_path >> lock_mutation_path source

module _ (service : ConfigurationService) where
  unfoldable pub add_value_path : CallContext → OffsetDateTime → Text → Text → Exec AddPathMetadata
  add_value_path context now source_text new_text = do
    caller ← lift (principal context)
    by ← lift (actor context)
    source ← lift (map_err (parse_operation source_text) path_is_invalid)
    new_path ← lift (map_err (parse_operation new_text) path_is_invalid)
    lift (
        if not (allows caller source read)
          || not (allows caller source write)
          || not (allows caller new_path write)
        then err not_permitted
        else ok tt)
    lift (
        if path_eq source new_path
        then err (status invalid_argument "configuration value already has that path")
        else ok tt)
    begin
    lock_both source new_path
    found ← content_id_at statement (fold_key source)
    content_id ← lift (ok_or found value_not_found)
    occupied ← path_is_occupied (fold_key new_path)
    lift (
        if occupied then err (status already_exists "configuration path already exists") else ok tt)
    collides ← path_collides (fold_key new_path)
    lift (if collides then err value_collides else ok tt)
    insert_path new_path.path content_id now
    record_in service by now (on_path_added by source new_path)
    commit
    created_at ← lift (to_timestamp now)
    pure (record { created_at = created_at })
