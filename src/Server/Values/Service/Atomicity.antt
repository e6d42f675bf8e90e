-- ===== src/Server/Values/Service/Atomicity.antt =====
-- values/service.rs: the committed tables after a mutation that fails.
use sovereign_config.Prelude.{
  ℕ, ◌≡◌, Bool, Option, none, some, List, [], ◌∷◌, ◌++◌, err, Text, slash,
}
use sovereign_config.Core.Path.{ConfigPath}
use sovereign_config.Server.Rpc.{Status, CallContext, OffsetDateTime, Actor}
use sovereign_config.Server.Audit.Narrative.{plain}
use sovereign_config.Server.Audit.Events.{AuditEvent}
use sovereign_config.Server.Values.Subtree.{
  SubTreeEntry, SubTreeEntryContent, plain_value, preserve_secret,
}
use sovereign_config.Server.Values.Exec.{World}
use sovereign_config.Server.Values.Exec.Rules.{
  Quiet, Atomic, Quiet-statement, Quiet-bind, Quiet-lock_path, Quiet-pure, quiet_rules,
  atomic_rules,
}
use sovereign_config.Server.Values.Store.{
  lock_prefixes, lock_ancestors, lock_mutation_path, PathContentClassRow, path_content_class,
  lock_contents, prune_orphan_contents, update_content, path_collides, reserve_content_id,
  insert_content, insert_path, content_id_at, update_plain_content, delete_paths, path_is_occupied,
  secret_paths_touching, delete_plain_paths_except,
}
use sovereign_config.Server.Values.Service.Common.{
  ConfigurationService, PutContent, ResolvedWrites, record_in,
}
use sovereign_config.Server.Values.Service.Put.{
  stored_representation, overwrite_existing, create_value, put_or_overwrite, put_value,
}
use sovereign_config.Server.Values.Service.Writes.{
  resolve_entry, resolve_plain_writes, write_shared, write_fresh,
}
use sovereign_config.Server.Values.Service.Delete.{delete_values}
use sovereign_config.Server.Values.Service.Alias.{lock_both, add_value_path}
use sovereign_config.Server.Values.Service.Replace.{replace_sub_tree}

Quiet-lock_prefixes : (prefix : Text) (segments : List Text) → Quiet (lock_prefixes prefix segments)
unfolding lock_prefixes
Quiet-lock_prefixes prefix [] = Quiet-pure tt
Quiet-lock_prefixes prefix (segment ∷ segments) =
    Quiet-bind _ _ (Quiet-lock_path _ _)
      (λ _. Quiet-lock_prefixes (prefix ++ (slash ∷ segment)) segments)

Quiet-lock_ancestors : (parent : Text) → Quiet (lock_ancestors parent)
unfolding lock_ancestors
Quiet-lock_ancestors parent = search (quiet_rules, Quiet-lock_prefixes)

Quiet-lock_mutation_path : (path : ConfigPath) → Quiet (lock_mutation_path path)
unfolding lock_mutation_path
Quiet-lock_mutation_path path = search (quiet_rules, Quiet-lock_ancestors)

Quiet-lock_contents : (ids : List ℕ) → Quiet (lock_contents ids)
unfolding lock_contents
Quiet-lock_contents [] = Quiet-pure tt
Quiet-lock_contents (id ∷ ids) = Quiet-bind _ _ (Quiet-lock_path _ _) (λ _. Quiet-lock_contents ids)

Quiet-prune_orphan_contents : (ids : List ℕ) → Quiet (prune_orphan_contents ids)
unfolding prune_orphan_contents
Quiet-prune_orphan_contents [] = Quiet-pure tt
Quiet-prune_orphan_contents (id ∷ ids) = search (quiet_rules, Quiet-lock_contents)

Quiet-lock_both : (source new_path : ConfigPath) → Quiet (lock_both source new_path)
unfolding lock_both
Quiet-lock_both source new_path = search (quiet_rules, Quiet-lock_mutation_path)

Quiet-resolve_entry :
    (writes : ResolvedWrites) (path : Text) (content : Option SubTreeEntryContent)
    → Quiet (resolve_entry writes path content)
unfolding resolve_entry content_id_at
Quiet-resolve_entry writes path (some (plain_value content)) = search quiet_rules
Quiet-resolve_entry writes path (some preserve_secret) = Quiet-pure writes
Quiet-resolve_entry writes path none = Quiet-pure writes

Quiet-resolve_plain_writes :
    (writes : ResolvedWrites) (entries : List SubTreeEntry)
    → Quiet (resolve_plain_writes writes entries)
unfolding resolve_plain_writes
Quiet-resolve_plain_writes writes [] = Quiet-pure writes
Quiet-resolve_plain_writes writes (entry ∷ entries) =
    Quiet-bind _ _ (Quiet-resolve_entry writes entry.path entry.content)
      (λ resolved. Quiet-resolve_plain_writes resolved entries)

Quiet-write_shared :
    (now : OffsetDateTime) (shared : List (ℕ × Text)) → Quiet (write_shared now shared)
unfolding write_shared update_plain_content
Quiet-write_shared now [] = Quiet-pure []
Quiet-write_shared now ((id, content) ∷ rest) =
    Quiet-bind _ _ (Quiet-statement _)
      (λ replaced. Quiet-bind _ _ (Quiet-write_shared now rest) (λ previous. Quiet-pure _))

Quiet-reserve_content_id : Quiet reserve_content_id
unfolding reserve_content_id
Quiet-reserve_content_id = search quiet_rules

Quiet-insert_content :
    (id : ℕ) (value classification : Text) (now : OffsetDateTime)
    → Quiet (insert_content id value classification now)
unfolding insert_content
Quiet-insert_content id value classification now = search quiet_rules

Quiet-insert_path : (path : Text) (id : ℕ) (now : OffsetDateTime) → Quiet (insert_path path id now)
unfolding insert_path
Quiet-insert_path path id now = search quiet_rules

Quiet-write_fresh :
    (now : OffsetDateTime) (displays fresh : List (Text × Text))
    → Quiet (write_fresh now displays fresh)
unfolding write_fresh
Quiet-write_fresh now displays [] = Quiet-pure tt
Quiet-write_fresh now displays ((path, content) ∷ rest) =
    Quiet-bind _ _ Quiet-reserve_content_id (λ id.
      Quiet-bind _ _ (Quiet-insert_content id content plain now) (λ inserted.
        Quiet-bind _ _ (Quiet-insert_path _ inserted.id now)
          (λ _. Quiet-write_fresh now displays rest)))

module _ (service : ConfigurationService) where
  Quiet-record_in :
      (caller : Actor) (at : OffsetDateTime) (events : List AuditEvent)
      → Quiet (record_in service caller at events)
  unfolding record_in
  Quiet-record_in caller at [] = Quiet-pure tt
  Quiet-record_in caller at (event ∷ events) = search quiet_rules

  Quiet-overwrite_existing :
      (existing : PathContentClassRow) (value classification : Text) (now : OffsetDateTime)
      → Quiet (overwrite_existing service existing value classification now)
  unfolding overwrite_existing stored_representation update_content
  Quiet-overwrite_existing existing value classification now = search quiet_rules

  Quiet-create_value :
      (path : ConfigPath) (value classification : Text) (now : OffsetDateTime)
      → Quiet (create_value service path value classification now)
  unfolding create_value stored_representation path_collides reserve_content_id insert_content
      insert_path
  Quiet-create_value path value classification now = search (quiet_rules) depth 16

  Quiet-put_or_overwrite :
      (existing : Option PathContentClassRow) (path : ConfigPath) (value classification : Text)
      (now : OffsetDateTime)
      → Quiet (put_or_overwrite service existing path value classification now)
  Quiet-put_or_overwrite (some existing) path value classification now =
      Quiet-overwrite_existing existing value classification now
  Quiet-put_or_overwrite none path value classification now =
      Quiet-create_value path value classification now

  pub Atomic-put_value :
      (context : CallContext) (now : OffsetDateTime) (path : Text) (written : Option PutContent)
      → Atomic (put_value service context now path written)
  unfolding put_value path_content_class
  Atomic-put_value context now path written =
      search (atomic_rules, Quiet-lock_mutation_path, Quiet-put_or_overwrite, Quiet-record_in) depth
        20

  pub Atomic-delete_values :
      (context : CallContext) (now : OffsetDateTime) (path : Text) (recurse : Bool)
      → Atomic (delete_values service context now path recurse)
  unfolding delete_values delete_paths
  Atomic-delete_values context now path recurse =
      search (atomic_rules, Quiet-lock_mutation_path, Quiet-prune_orphan_contents, Quiet-record_in)
        depth 20

  pub Atomic-add_value_path :
      (context : CallContext) (now : OffsetDateTime) (source new_path : Text)
      → Atomic (add_value_path service context now source new_path)
  unfolding add_value_path content_id_at path_is_occupied path_collides insert_path
  Atomic-add_value_path context now source new_path =
      search (atomic_rules, Quiet-lock_both, Quiet-record_in) depth 24

  pub Atomic-replace_sub_tree :
      (context : CallContext) (now : OffsetDateTime) (path : Text) (entries : List SubTreeEntry)
      → Atomic (replace_sub_tree service context now path entries)
  unfolding replace_sub_tree secret_paths_touching delete_plain_paths_except
  Atomic-replace_sub_tree context now path entries =
      search
        (
          atomic_rules, Quiet-lock_mutation_path, Quiet-prune_orphan_contents,
          Quiet-resolve_plain_writes, Quiet-write_shared, Quiet-write_fresh, Quiet-record_in,
        )
        depth 24

  -- A `put_value` that answers with an error leaves the committed tables as they were, whichever of
  -- its statements failed.
  pub put_value_atomic :
      (context : CallContext) (now : OffsetDateTime) (path : Text) (written : Option PutContent)
      (w : World) (e : Status)
      → (put_value service context now path written w).0 ≡ err e
      → (put_value service context now path written w).1.committed ≡ w.committed
  put_value_atomic context now path written = (Atomic-put_value context now path written).at

  -- A `delete_values` that answers with an error leaves the committed tables as they were, whichever
  -- of its statements failed.
  pub delete_values_atomic :
      (context : CallContext) (now : OffsetDateTime) (path : Text) (recurse : Bool) (w : World)
      (e : Status)
      → (delete_values service context now path recurse w).0 ≡ err e
      → (delete_values service context now path recurse w).1.committed ≡ w.committed
  delete_values_atomic context now path recurse = (Atomic-delete_values context now path recurse).at

  -- An `add_value_path` that answers with an error leaves the committed tables as they were,
  -- whichever of its statements failed.
  pub add_value_path_atomic :
      (context : CallContext) (now : OffsetDateTime) (source new_path : Text) (w : World)
      (e : Status)
      → (add_value_path service context now source new_path w).0 ≡ err e
      → (add_value_path service context now source new_path w).1.committed ≡ w.committed
  add_value_path_atomic context now source new_path =
      (Atomic-add_value_path context now source new_path).at

  -- A `replace_sub_tree` that answers with an error leaves the committed tables as they were,
  -- whichever of its statements failed.
  pub replace_sub_tree_atomic :
      (context : CallContext) (now : OffsetDateTime) (path : Text) (entries : List SubTreeEntry)
      (w : World) (e : Status)
      → (replace_sub_tree service context now path entries w).0 ≡ err e
      → (replace_sub_tree service context now path entries w).1.committed ≡ w.committed
  replace_sub_tree_atomic context now path entries =
      (Atomic-replace_sub_tree context now path entries).at
