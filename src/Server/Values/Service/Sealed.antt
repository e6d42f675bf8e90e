-- ===== src/Server/Values/Service/Sealed.antt =====
-- values/service.rs: the stored contents under each mutation, as to whether secrets are sealed.
use sovereign_config.Prelude.{
  ℕ, ◌≡◌, refl, inl, inr, Bool, true, Option, none, some, List, [], ◌∷◌, arith, Bool-cases, ok,
  Text, text_eq, text_eq_refl, map_err, map_err-eq-ok,
}
use sovereign_config.Core.Path.{ConfigPath}
use sovereign_config.Server.Rpc.{CallContext, OffsetDateTime}
use sovereign_config.Server.Audit.Narrative.{plain, secret}
use sovereign_config.Server.Encryption.{AreCorrect, encrypt, decrypt, decrypt-encrypt}
use sovereign_config.Server.Values.Subtree.{
  SubTreeEntry, SubTreeEntryContent, plain_value, preserve_secret,
}
use sovereign_config.Server.Values.Exec.{Db, World, Exec, draw}
use sovereign_config.Server.Values.Exec.Commits.{
  always, Leads, Leads-bind, Leads-from, Leads-lift, Leads-pure, Keeps, Keeps-bind, Keeps-if,
  Keeps-lift, Commits-lift, Keeps-Steady, Commits, commit_rules,
}
use sovereign_config.Server.Values.Exec.Steady.{
  Steady-pure, Steady, Steady-draw, Steady-bind, steady_rules,
}
use sovereign_config.Server.Values.Store.{
  PathContentClassRow, insert_content, prune_orphan_contents, delete_paths,
  delete_plain_paths_except,
}
use sovereign_config.Server.Values.Service.Common.{
  ConfigurationService, PutContent, ResolvedWrites, plain_put, secret_put, encryption_failed,
}
use sovereign_config.Server.Values.Service.Put.{
  stored_representation, overwrite_existing, create_value, put_or_overwrite, put_text, put_value,
}
use sovereign_config.Server.Values.Service.SteadyContents.{
  stored_contents, Steady-reserve_content_id, Steady-insert_path, Steady-delete_chosen,
  Steady-record_in,
}
use sovereign_config.Server.Values.Service.Steady.{
  Steady-path_collides, Steady-lock_mutation_path, Steady-path_content_class, Steady-lock_contents,
  Steady-secret_paths_touching, Steady-content_id_at, Steady-path_is_occupied,
}
use sovereign_config.Server.Values.Service.Writes.{
  resolve_entry, resolve_plain_writes, write_shared, write_fresh,
}
use sovereign_config.Server.Values.Service.Atomicity.{
  Atomic-put_value, Atomic-delete_values, Atomic-add_value_path, Atomic-replace_sub_tree,
}
use sovereign_config.Server.Values.Service.Delete.{delete_values}
use sovereign_config.Server.Values.Service.Alias.{lock_both, add_value_path}
use sovereign_config.Server.Values.Service.Replace.{replace_sub_tree}
use sovereign_config.Server.Values.Store.Kept.{
  kept, IsKept, Sealed, Classified, Ready, Leads-insert_content, Leads-update_content,
  Keeps-update_plain_content, Keeps-prune_contents,
}

module _ (service : ConfigurationService) (correct : AreCorrect service.cipher) where
  abbrev Kept : Db → Type 0
  Kept = Sealed service.cipher

  Keeps-Sealed : {A : Type 0} (m : Exec A) → Steady stored_contents m → Keeps Kept m
  Keeps-Sealed = Keeps-Steady stored_contents (IsKept service.cipher)

  seal_kept :
      (id : ℕ) (classification value : Text) (random : Option (List ℕ)) {stored : Text}
      → text_eq classification secret ≡ true
      → map_err (encrypt service.cipher random id classification value) encryption_failed
        ≡ ok stored
      → kept service.cipher id classification stored ≡ true
  seal_kept id classification value none e h = absurd (unfold encrypt in cc h)
  seal_kept id classification value (some random) {stored} e h =
      let opens : decrypt service.cipher id classification stored ≡ ok value =
        decrypt-encrypt service.cipher correct random id classification value (
          map_err-eq-ok (encrypt service.cipher (some random) id classification value)
            encryption_failed h) in
      rw opens (ground (arith, e))

  Leads-stored_representation :
      (id : ℕ) (classification value : Text)
      → Classified classification
      → Leads Kept
          (stored_representation service id classification value)
          (Ready service.cipher id classification)
  unfolding stored_representation
  Leads-stored_representation id classification value known =
      elim (Bool-cases (text_eq classification secret)) [
        | inl e ↦ rw e (
            Leads-bind (λ _. Kept) _ _ ((Keeps-Sealed draw (Steady-draw stored_contents)).leads)
              (λ nonce. Leads-lift _ (λ stored h db rows_kept.
                (rows_kept, seal_kept id classification value nonce e h))))
        | inr e ↦ rw e (Leads-pure value (λ db rows_kept. (rows_kept, ground arith)))
      ]

  Keeps-overwrite_existing :
      (existing : PathContentClassRow) (value classification : Text) (now : OffsetDateTime)
      → Classified classification
      → Keeps Kept (overwrite_existing service existing value classification now)
  unfolding overwrite_existing
  Keeps-overwrite_existing existing value classification now known =
      Keeps-if _ _ _ (Keeps-lift _) (record {
        leads =
            Leads-bind (λ stored. Ready service.cipher existing.content_id classification stored) _
              _ (Leads-stored_representation existing.content_id classification value known)
              (λ stored.
                Leads-update_content service.cipher existing.content_id stored classification now);
      })

  Keeps-create_value :
      (path : ConfigPath) (value classification : Text) (now : OffsetDateTime)
      → Classified classification
      → Keeps Kept (create_value service path value classification now)
  unfolding create_value
  Keeps-create_value path value classification now known =
      Keeps-bind _ _ (Keeps-Sealed _ (Steady-path_collides stored_contents _)) (λ collides.
        Keeps-if collides _ _ (Keeps-lift _) (
          Keeps-bind _ _ (Keeps-Sealed _ Steady-reserve_content_id) (λ id. record {
            leads =
                Leads-bind (λ stored. Ready service.cipher id classification stored) _ _
                  (Leads-stored_representation id classification value known)
                  (λ stored.
                    Leads-bind (λ _. Kept) _ _
                      (Leads-insert_content service.cipher id stored classification now)
                      (λ content.
                        Leads-bind (λ _. Kept) _ _
                          (Keeps-Sealed _ (Steady-insert_path path.path content.id now)).leads
                          (λ _. Leads-pure _ (λ db rows_kept. rows_kept))));
          })))

  Keeps-put_or_overwrite :
      (existing : Option PathContentClassRow) (path : ConfigPath) (value classification : Text)
      (now : OffsetDateTime)
      → Classified classification
      → Keeps Kept (put_or_overwrite service existing path value classification now)
  Keeps-put_or_overwrite (some existing) path value classification now known =
      Keeps-overwrite_existing existing value classification now known
  Keeps-put_or_overwrite none path value classification now known =
      Keeps-create_value path value classification now known

  put_text-Classified :
      (written : Option PutContent) (value classification : Text)
      → put_text written ≡ ok (value, classification)
      → Classified classification
  put_text-Classified (some (plain_put v)) value classification h =
      let e : plain ≡ classification = cc in rw (← e) (rw (text_eq_refl plain) refl)
  put_text-Classified (some (secret_put v)) value classification h =
      let e : secret ≡ classification = cc in rw (← e) (unfold text_eq in refl)
  put_text-Classified none value classification h = cc

  Commits-put_value :
      (context : CallContext) (now : OffsetDateTime) (path : Text) (written : Option PutContent)
      → Commits Kept (put_value service context now path written)
  unfolding put_value
  Commits-put_value context now path written = Commits-lift _ _ (λ path _.
      Commits-lift _ _ (λ (value, classification) known.
        let classified = put_text-Classified written value classification known in
        search
          (
            commit_rules, Keeps-Sealed, Keeps-put_or_overwrite, Steady-lock_mutation_path,
            Steady-path_content_class, Steady-record_in,
          )
          depth 24))

  Keeps-prune_orphan_contents : (ids : List ℕ) → Keeps Kept (prune_orphan_contents ids)
  unfolding prune_orphan_contents
  Keeps-prune_orphan_contents [] = Keeps-Sealed _ (Steady-pure stored_contents tt)
  Keeps-prune_orphan_contents (id ∷ ids) =
      Keeps-bind _ _ (Keeps-Sealed _ (Steady-lock_contents stored_contents (id ∷ ids)))
        (λ _. Keeps-prune_contents service.cipher (id ∷ ids))

  Keeps-write_shared :
      (now : OffsetDateTime) (shared : List (ℕ × Text)) → Keeps Kept (write_shared now shared)
  unfolding write_shared
  Keeps-write_shared now [] = Keeps-Sealed _ (Steady-pure stored_contents [])
  Keeps-write_shared now ((id, content) ∷ rest) =
      Keeps-bind _ _ (Keeps-update_plain_content service.cipher id content now) (λ replaced.
        Keeps-bind _ _ (Keeps-write_shared now rest)
          (λ previous. Keeps-Sealed _ (Steady-pure stored_contents _)))

  Keeps-insert_plain :
      (id : ℕ) (content : Text) (now : OffsetDateTime)
      → Keeps Kept (insert_content id content plain now)
  Keeps-insert_plain id content now = record {
    leads =
        Leads-from (Ready service.cipher id plain content) _
          (λ db rows_kept. (rows_kept, rw (text_eq_refl plain) refl))
          (Leads-insert_content service.cipher id content plain now);
  }

  Keeps-write_fresh :
      (now : OffsetDateTime) (displays fresh : List (Text × Text))
      → Keeps Kept (write_fresh now displays fresh)
  unfolding write_fresh
  Keeps-write_fresh now displays [] = Keeps-Sealed _ (Steady-pure stored_contents tt)
  Keeps-write_fresh now displays ((path, content) ∷ rest) =
      Keeps-bind _ _ (Keeps-Sealed _ Steady-reserve_content_id) (λ id.
        Keeps-bind _ _ (Keeps-insert_plain id content now) (λ inserted.
          Keeps-bind _ _ (Keeps-Sealed _ (Steady-insert_path _ inserted.id now))
            (λ _. Keeps-write_fresh now displays rest)))

  Steady-lock_both :
      (source new_path : ConfigPath) → Steady stored_contents (lock_both source new_path)
  unfolding lock_both
  Steady-lock_both source new_path = search (steady_rules, Steady-lock_mutation_path)

  Steady-resolve_entry :
      (writes : ResolvedWrites) (path : Text) (content : Option SubTreeEntryContent)
      → Steady stored_contents (resolve_entry writes path content)
  unfolding resolve_entry
  Steady-resolve_entry writes path (some (plain_value content)) = search steady_rules
  Steady-resolve_entry writes path (some preserve_secret) = Steady-pure stored_contents writes
  Steady-resolve_entry writes path none = Steady-pure stored_contents writes

  Steady-resolve_plain_writes :
      (writes : ResolvedWrites) (entries : List SubTreeEntry)
      → Steady stored_contents (resolve_plain_writes writes entries)
  unfolding resolve_plain_writes
  Steady-resolve_plain_writes writes [] = Steady-pure stored_contents writes
  Steady-resolve_plain_writes writes (entry ∷ entries) =
      Steady-bind stored_contents _ _ (Steady-resolve_entry writes entry.path entry.content)
        (λ resolved. Steady-resolve_plain_writes resolved entries)

  Steady-delete_paths :
      (key : Text) (recurse : Bool) → Steady stored_contents (delete_paths key recurse)
  unfolding delete_paths
  Steady-delete_paths key recurse = Steady-delete_chosen _

  Steady-delete_plain_paths_except :
      (key : Text) (keep : List Text) → Steady stored_contents (delete_plain_paths_except key keep)
  unfolding delete_plain_paths_except
  Steady-delete_plain_paths_except key keep = Steady-delete_chosen _

  Commits-delete_values :
      (context : CallContext) (now : OffsetDateTime) (path : Text) (recurse : Bool)
      → Commits Kept (delete_values service context now path recurse)
  unfolding delete_values
  Commits-delete_values context now path recurse =
      search
        (
          commit_rules, Keeps-Sealed, Keeps-prune_orphan_contents, Steady-delete_paths,
          Steady-lock_mutation_path, Steady-record_in,
        )
        depth 24

  Commits-add_value_path :
      (context : CallContext) (now : OffsetDateTime) (source new_path : Text)
      → Commits Kept (add_value_path service context now source new_path)
  unfolding add_value_path
  Commits-add_value_path context now source new_path =
      search
        (
          commit_rules, Keeps-Sealed, Steady-lock_both, Steady-content_id_at,
          Steady-path_is_occupied, Steady-path_collides, Steady-insert_path, Steady-record_in,
        )
        depth 32

  Commits-replace_sub_tree :
      (context : CallContext) (now : OffsetDateTime) (path : Text) (entries : List SubTreeEntry)
      → Commits Kept (replace_sub_tree service context now path entries)
  unfolding replace_sub_tree
  Commits-replace_sub_tree context now path entries =
      search
        (
          commit_rules, Keeps-Sealed, Keeps-prune_orphan_contents, Keeps-write_shared,
          Keeps-write_fresh, Steady-resolve_plain_writes, Steady-delete_plain_paths_except,
          Steady-secret_paths_touching, Steady-lock_mutation_path, Steady-record_in,
        )
        depth 32

  -- With a correct cipher, if every stored content is plain, or secret and sealed so that the
  -- service's cipher opens it for its own identifier as a secret, then so it is after a
  -- `put_value`, whatever it answers.
  pub put_value-IsKept :
      (context : CallContext) (now : OffsetDateTime) (path : Text) (written : Option PutContent)
      (w : World)
      → IsKept service.cipher w.committed.contents
      → IsKept service.cipher (put_value service context now path written w).1.committed.contents
  put_value-IsKept context now path written =
      always Kept _ (Atomic-put_value service context now path written)
        (Commits-put_value context now path written)

  -- With a correct cipher, if every stored content is plain, or secret and sealed so that the
  -- service's cipher opens it for its own identifier as a secret, then so it is after a
  -- `delete_values`, whatever it answers.
  pub delete_values-IsKept :
      (context : CallContext) (now : OffsetDateTime) (path : Text) (recurse : Bool) (w : World)
      → IsKept service.cipher w.committed.contents
      → IsKept service.cipher
          (delete_values service context now path recurse w).1.committed.contents
  delete_values-IsKept context now path recurse =
      always Kept _ (Atomic-delete_values service context now path recurse)
        (Commits-delete_values context now path recurse)

  -- With a correct cipher, if every stored content is plain, or secret and sealed so that the
  -- service's cipher opens it for its own identifier as a secret, then so it is after an
  -- `add_value_path`, whatever it answers.
  pub add_value_path-IsKept :
      (context : CallContext) (now : OffsetDateTime) (source new_path : Text) (w : World)
      → IsKept service.cipher w.committed.contents
      → IsKept service.cipher
          (add_value_path service context now source new_path w).1.committed.contents
  add_value_path-IsKept context now source new_path =
      always Kept _ (Atomic-add_value_path service context now source new_path)
        (Commits-add_value_path context now source new_path)

  -- With a correct cipher, if every stored content is plain, or secret and sealed so that the
  -- service's cipher opens it for its own identifier as a secret, then so it is after a
  -- `replace_sub_tree`, whatever it answers.
  pub replace_sub_tree-IsKept :
      (context : CallContext) (now : OffsetDateTime) (path : Text) (entries : List SubTreeEntry)
      (w : World)
      → IsKept service.cipher w.committed.contents
      → IsKept service.cipher
          (replace_sub_tree service context now path entries w).1.committed.contents
  replace_sub_tree-IsKept context now path entries =
      always Kept _ (Atomic-replace_sub_tree service context now path entries)
        (Commits-replace_sub_tree context now path entries)
