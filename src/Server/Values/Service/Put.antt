-- ===== src/Server/Values/Service/Put.antt =====
-- values/service.rs `put_value`: create or overwrite one value.
use sovereign_config.Prelude.{
  ℕ, false, not, ◌&&◌, Option, none, some, [], ◌∷◌, ltb, if◌then◌else◌, ok, err, Text, text_eq,
  contains, Result, map_err,
}
use sovereign_config.Core.Path.{ConfigPath, fold_key}
use sovereign_config.Server.Auth.{write}
use sovereign_config.Server.Rpc.{
  Status, status, invalid_argument, CallContext, Actor, actor, OffsetDateTime, to_timestamp,
}
use sovereign_config.Server.Audit.Narrative.{Recorded, recorded_of, plain, secret}
use sovereign_config.Server.Audit.Events.{AuditEvent, on_value_created, on_value_updated}
use sovereign_config.Server.Encryption.{encrypt}
use sovereign_config.Server.Values.Authz.{authorize}
use sovereign_config.Server.Values.Exec.{
  Exec, pure, lift, ◌>>=◌, ◌>>◌, statement, begin, commit, draw,
}
use sovereign_config.Server.Values.Store.{
  PathContentClassRow, MutationRow, path_collides, reserve_content_id, insert_content, insert_path,
  lock_mutation_path, path_content_class, update_content,
}
use sovereign_config.Server.Values.Service.Common.{
  ConfigurationService, PutContent, PutMetadata, encryption_failed, plain_put, record_in,
  secret_put, value_collides,
}

abbrev pub put_event : Actor → ConfigPath → Option PathContentClassRow → Recorded → AuditEvent
put_event caller path (some existing) written =
    on_value_updated caller path.path (recorded_of existing.classification existing.value) written
put_event caller path none written = on_value_created caller path.path written

-- What `put_value` is asked to write: the text and its classification.
abbrev pub put_text : Option PutContent → Result Status (Text × Text)
put_text (some (plain_put value)) = ok (value, plain)
put_text (some (secret_put value)) = ok (value, secret)
put_text none = err (status invalid_argument "configuration value is invalid")

abbrev pub refuse_nul : Text → Result Status (Unit {0})
refuse_nul value =
    if contains value 0
    then err (status invalid_argument "configuration value contains an invalid character")
    else ok tt

module _ (service : ConfigurationService) where
  unfoldable pub stored_representation : ℕ → Text → Text → Exec Text
  unfolding ◌>>=◌ draw
  stored_representation content_id classification value =
      if text_eq classification secret
      then (draw >>= λ nonce. lift (
          map_err (encrypt service.cipher nonce content_id classification value) encryption_failed))
      else pure value

  unfoldable pub overwrite_existing :
      PathContentClassRow → Text → Text → OffsetDateTime → Exec MutationRow
  unfolding ◌>>=◌ stored_representation update_content statement
  overwrite_existing existing value classification now =
      if ltb 1 existing.path_count && not (text_eq existing.classification classification)
      then lift (
          err (
            status invalid_argument
              "configuration value has multiple paths and cannot change classification"))
      else stored_representation existing.content_id classification value >>= λ stored.
          update_content existing.content_id stored classification now

  unfoldable pub create_value : ConfigPath → Text → Text → OffsetDateTime → Exec MutationRow
  unfolding ◌>>=◌ path_collides reserve_content_id stored_representation insert_content insert_path
      statement
  create_value path value classification now = path_collides (fold_key path) >>= λ collides.
      if collides
      then lift (err value_collides)
      else reserve_content_id >>= λ content_id.
          stored_representation content_id classification value >>= λ stored.
          insert_content content_id stored classification now >>= λ content.
          insert_path path.path content.id now >>= λ _.
          pure (record { created_at = content.created_at; updated_at = content.updated_at })

  abbrev pub put_or_overwrite :
      Option PathContentClassRow → ConfigPath → Text → Text → OffsetDateTime → Exec MutationRow
  put_or_overwrite (some existing) path value classification now =
      overwrite_existing existing value classification now
  put_or_overwrite none path value classification now = create_value path value classification now

  unfoldable pub put_value :
      CallContext → OffsetDateTime → Text → Option PutContent → Exec PutMetadata
  put_value context now path written = do
    path ← lift (authorize context path (write ∷ []) false)
    (value, classification) ← lift (put_text written)
    lift (refuse_nul value)
    caller ← lift (actor context)
    begin
    lock_mutation_path path
    existing ← path_content_class (fold_key path)
    row ← put_or_overwrite existing path value classification now
    record_in service caller now
        (put_event caller path existing (recorded_of classification value) ∷ [])
    commit
    created_at ← lift (to_timestamp row.created_at)
    updated_at ← lift (to_timestamp row.updated_at)
    pure (record { created_at = created_at; updated_at = updated_at })
