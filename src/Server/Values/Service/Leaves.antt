-- ===== src/Server/Values/Service/Leaves.antt =====
-- values/service.rs: the tree of stored paths under `put_value` and `add_value_path`.
use sovereign_config.Prelude.{
  ℕ, ◌≡◌, Bool, true, false, Option, none, some, List, if◌then◌else◌, ok, err, any, Text,
}
use sovereign_config.Core.Path.{ConfigPath, fold_key}
use sovereign_config.Server.Rpc.{CallContext, OffsetDateTime, Actor, to_timestamp}
use sovereign_config.Server.Audit.Events.{AuditEvent}
use sovereign_config.Server.Values.Service.Atomicity.{Atomic-put_value, Atomic-add_value_path}
use sovereign_config.Server.Values.Exec.{Db, World, Exec, pure, lift, ◌>>=◌, ◌>>◌, commit}
use sovereign_config.Server.Values.Exec.Commits.{
  always, Leads, Leads-if, Leads-bind, Leads-lift, Leads-pure, Keeps, Keeps-Steady, Commits, Within,
  Within-bind, commit_rules,
}
use sovereign_config.Server.Values.Exec.Steady.{Steady, Steady-draw, steady_rules}
use sovereign_config.Server.Values.Store.{
  PathContentClassRow, nests_with, path_collides, insert_path,
}
use sovereign_config.Server.Values.Store.Leaves.{
  IsLeafTree, Tree, Leads-path_collides, Leads-insert_path,
}
use sovereign_config.Server.Values.Service.Common.{
  ConfigurationService, AddPathMetadata, PutContent, record_in, value_collides,
}
use sovereign_config.Server.Values.Service.Put.{
  stored_representation, overwrite_existing, create_value, put_or_overwrite, put_value,
}
use sovereign_config.Server.Values.Service.Alias.{lock_both, add_value_path}
use sovereign_config.Server.Values.Service.Steady.{
  stored_paths, Steady-lock_mutation_path, Steady-reserve_content_id, Steady-insert_content,
  Steady-update_content, Steady-path_content_class, Steady-content_id_at, Steady-path_is_occupied,
  Steady-record_in,
}

module _ {A : Type 0} where
  Keeps-Tree : (m : Exec A) → Steady stored_paths m → Keeps Tree m
  Keeps-Tree = Keeps-Steady stored_paths IsLeafTree

-- Whether a key nests with a stored path.
abbrev Free : Text → Bool → Db → Type 0
Free key collides db = Tree db × (any (nests_with key) db.paths ≡ collides)

module _ (service : ConfigurationService) where
  Steady-stored_representation :
      (id : ℕ) (classification value : Text)
      → Steady stored_paths (stored_representation service id classification value)
  unfolding stored_representation
  Steady-stored_representation id classification value = search (steady_rules, Steady-draw) depth 8

  Steady-overwrite_existing :
      (existing : PathContentClassRow) (value classification : Text) (now : OffsetDateTime)
      → Steady stored_paths (overwrite_existing service existing value classification now)
  unfolding overwrite_existing
  Steady-overwrite_existing existing value classification now =
      search (steady_rules, Steady-stored_representation, Steady-update_content) depth 8

  Keeps-create_value :
      (path : ConfigPath) (value classification : Text) (now : OffsetDateTime)
      → Keeps Tree (create_value service path value classification now)
  unfolding create_value
  Keeps-create_value path value classification now = record {
    leads =
        Leads-bind (λ collides db. Free (fold_key path) collides db) _ _
          (Leads-path_collides (fold_key path))
          (λ collides. Leads-if (Free (fold_key path)) collides _ _ (Leads-lift _ (λ a h. cc)) (
            Leads-bind (λ _. Free (fold_key path) false) _ _
              (Keeps-Free _ Steady-reserve_content_id)
              (λ id.
                Leads-bind (λ _. Free (fold_key path) false) _ _
                  (Keeps-Free _ (Steady-stored_representation id classification value))
                  (λ stored.
                    Leads-bind (λ _. Free (fold_key path) false) _ _
                      (Keeps-Free _ (Steady-insert_content id stored classification now))
                      (λ content.
                        Leads-bind (λ _. Tree) _ _ (Leads-insert_path path.path content.id now)
                          (λ _. Leads-pure _ (λ db tree. tree)))))));
  }
    where
      Keeps-Free :
          {A : Type 0} (m : Exec A)
          → Steady stored_paths m
          → Leads (Free (fold_key path) false) m (λ _. Free (fold_key path) false)
      Keeps-Free m steady =
          (Keeps-Steady stored_paths
            (λ rows. IsLeafTree rows × (any (nests_with (fold_key path)) rows ≡ false)) m
            steady).leads

  Keeps-put_or_overwrite :
      (existing : Option PathContentClassRow) (path : ConfigPath) (value classification : Text)
      (now : OffsetDateTime)
      → Keeps Tree (put_or_overwrite service existing path value classification now)
  Keeps-put_or_overwrite (some existing) path value classification now =
      Keeps-Tree _ (Steady-overwrite_existing existing value classification now)
  Keeps-put_or_overwrite none path value classification now =
      Keeps-create_value path value classification now

  Commits-put_value :
      (context : CallContext) (now : OffsetDateTime) (path : Text) (written : Option PutContent)
      → Commits Tree (put_value service context now path written)
  unfolding put_value
  Commits-put_value context now path written =
      search
        (
          commit_rules, Keeps-Tree, Keeps-put_or_overwrite, Steady-lock_mutation_path,
          Steady-path_content_class, Steady-record_in,
        )
        depth 24

  Steady-lock_both :
      (source new_path : ConfigPath) → Steady stored_paths (lock_both source new_path)
  unfolding lock_both
  Steady-lock_both source new_path = search (steady_rules, Steady-lock_mutation_path)

  refuse_collision :
      (key : Text) (collides : Bool)
      → Leads
          (Free key collides)
          (lift (if collides then err value_collides else ok tt))
          (λ (_ : Unit {0}). Free key false)
  refuse_collision key true = Leads-lift _ (λ a h. cc)
  refuse_collision key false = Leads-lift _ (λ a h db free. free)

  -- What `add_value_path` does once it holds its locks.
  Within-add_value_path :
      (new_path : ConfigPath) (content_id : ℕ) (now : OffsetDateTime) (by : Actor)
      (event : List AuditEvent)
      → Within {A = AddPathMetadata} Tree Tree (do
        collides ← path_collides (fold_key new_path)
        lift (if collides then err value_collides else ok tt)
        insert_path new_path.path content_id now
        record_in service by now event
        commit
        created_at ← lift (to_timestamp now)
        pure (record { created_at = created_at }))
  Within-add_value_path new_path content_id now by event =
      let key = fold_key new_path in
      Within-bind (λ collides. Free key collides) _ _ (Leads-path_collides key)
        (λ collides.
          Within-bind (λ _. Free key false) _ _ (refuse_collision key collides)
            (λ _.
              Within-bind (λ _. Tree) _ _ (Leads-insert_path new_path.path content_id now)
                (λ _. search (commit_rules, Keeps-Tree, Steady-record_in) depth 8)))

  Commits-add_value_path :
      (context : CallContext) (now : OffsetDateTime) (source new_path : Text)
      → Commits Tree (add_value_path service context now source new_path)
  unfolding add_value_path
  Commits-add_value_path context now source new_path =
      search
        (
          commit_rules, Keeps-Tree, Within-add_value_path, Steady-lock_both, Steady-content_id_at,
          Steady-path_is_occupied,
        )
        depth 24

  -- If no stored path equals or lies below another, then none does after a `put_value`, whatever it
  -- answers.
  pub put_value-IsLeafTree :
      (context : CallContext) (now : OffsetDateTime) (path : Text) (written : Option PutContent)
      (w : World)
      → IsLeafTree w.committed.paths
      → IsLeafTree (put_value service context now path written w).1.committed.paths
  put_value-IsLeafTree context now path written =
      always Tree _ (Atomic-put_value service context now path written)
        (Commits-put_value context now path written)

  -- If no stored path equals or lies below another, then none does after an `add_value_path`,
  -- whatever it answers.
  pub add_value_path-IsLeafTree :
      (context : CallContext) (now : OffsetDateTime) (source new_path : Text) (w : World)
      → IsLeafTree w.committed.paths
      → IsLeafTree (add_value_path service context now source new_path w).1.committed.paths
  add_value_path-IsLeafTree context now source new_path =
      always Tree _ (Atomic-add_value_path service context now source new_path)
        (Commits-add_value_path context now source new_path)
