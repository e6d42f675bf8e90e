-- ===== src/Server/Values/Service/Writes.antt =====
-- values/service.rs: the plain writes of a subtree replacement.
use sovereign_config.Prelude.{
  ℕ, Option, none, some, List, [], ◌∷◌, ◌++◌, ltb, if◌then◌else◌, get_or, ok, err, Text, text_eq,
  Result,
}
use sovereign_config.Server.Rpc.{Status, OffsetDateTime}
use sovereign_config.Server.Audit.Narrative.{plain}
use sovereign_config.Server.Values.Subtree.{
  SubTreeEntry, SubTreeEntryContent, plain_value, preserve_secret, lookup_display,
}
use sovereign_config.Server.Values.Exec.{Exec, pure, lift, ◌>>=◌, statement}
use sovereign_config.Server.Values.Store.{
  reserve_content_id, insert_content, insert_path, content_id_at, update_plain_content,
}
use sovereign_config.Server.Values.Service.Common.{ResolvedWrites, conflicting_values, lookup_id}

unfoldable pub insert_shared : ℕ → Text → List (ℕ × Text) → List (ℕ × Text)
insert_shared id content [] = (id, content) ∷ []
insert_shared id content ((k, v) ∷ rest) =
    let later = insert_shared id content rest in
    if ltb id k then (id, content) ∷ ((k, v) ∷ rest) else (k, v) ∷ later

-- One plain write on the content that its path resolves to, or on none.
unfoldable pub resolve_write :
    ResolvedWrites → Text → Text → Option ℕ → Result Status ResolvedWrites
unfolding lookup_id insert_shared text_eq
resolve_write writes path content none =
    ok (record writes { fresh = writes.fresh ++ ((path, content) ∷ []) })
resolve_write writes path content (some id) = elim (lookup_id id writes.shared) [
  | some assigned ↦
      if text_eq assigned content
      then ok (record writes { shared_paths = writes.shared_paths ++ ((path, id) ∷ []) })
      else err conflicting_values
  | none ↦ ok (record writes {
    shared = insert_shared id content writes.shared;
    shared_paths = writes.shared_paths ++ ((path, id) ∷ []);
  })
]

unfoldable pub resolve_entry :
    ResolvedWrites → Text → Option SubTreeEntryContent → Exec ResolvedWrites
unfolding ◌>>=◌ resolve_write content_id_at statement
resolve_entry writes path (some (plain_value content)) =
    content_id_at statement path >>= λ found. lift (resolve_write writes path content found)
resolve_entry writes path (some preserve_secret) = pure writes
resolve_entry writes path none = pure writes

unfoldable pub resolve_plain_writes : ResolvedWrites → List SubTreeEntry → Exec ResolvedWrites
unfolding ◌>>=◌ resolve_entry
resolve_plain_writes writes [] = pure writes
resolve_plain_writes writes (entry ∷ entries) =
    resolve_entry writes entry.path entry.content >>= λ resolved.
    resolve_plain_writes resolved entries

-- Overwrites each shared content once, in the order of the ids; what each held before.
unfoldable pub write_shared : OffsetDateTime → List (ℕ × Text) → Exec (List (ℕ × (Text × Text)))
unfolding ◌>>=◌ update_plain_content statement
write_shared now [] = pure []
write_shared now ((id, content) ∷ rest) = update_plain_content id content now >>= λ replaced.
    write_shared now rest >>= λ previous. pure ((id, replaced) ∷ previous)

unfoldable pub write_fresh :
    OffsetDateTime → List (Text × Text) → List (Text × Text) → Exec (Unit {0})
unfolding ◌>>=◌ reserve_content_id insert_content insert_path lookup_display statement
write_fresh now displays [] = pure tt
write_fresh now displays ((path, content) ∷ rest) = reserve_content_id >>= λ id.
    insert_content id content plain now >>= λ inserted.
    insert_path (get_or (lookup_display path displays) path) inserted.id now >>= λ _.
    write_fresh now displays rest
