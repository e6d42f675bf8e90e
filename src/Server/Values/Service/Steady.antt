-- ===== src/Server/Values/Service/Steady.antt =====
-- values/service.rs and store.rs: the statements and blocks that leave the stored paths alone.
use sovereign_config.Prelude.{
  ℕ, sym, ap, inl, inr, List, [], ◌∷◌, ◌++◌, arith, Option-cases, Text, slash,
}
use sovereign_config.Core.Path.{ConfigPath}
use sovereign_config.Server.Rpc.{OffsetDateTime, Actor}
use sovereign_config.Server.Audit.Events.{AuditEvent}
use sovereign_config.Server.Values.Exec.{Db, PathRow, statement}
use sovereign_config.Server.Values.Exec.Steady.{
  Steady-nextval, Steady, Steady-statement, Steady-reading, Steady-bind, Steady-pure,
  Steady-lock_path, answer_of, steady_rules,
}
use sovereign_config.Server.Values.Store.{
  content_of, reserve_content_id, insert_content_row, insert_content, prune_contents, lock_contents,
  prune_orphan_contents, lock_prefixes, lock_ancestors, lock_mutation_path, path_content_class,
  update_content_row, update_content, path_collides, secret_paths_touching, content_id_at,
  path_is_occupied,
}
use sovereign_config.Server.Values.Service.Common.{
  append_events-some, ConfigurationService, record_in, append_events,
}

abbrev pub stored_paths : Db → List PathRow
stored_paths db = db.paths

module _ {X : Type 0} (f : Db → X) where
  Steady-lock_prefixes :
      (prefix : Text) (segments : List Text) → Steady f (lock_prefixes prefix segments)
  unfolding lock_prefixes
  Steady-lock_prefixes prefix [] = Steady-pure f tt
  Steady-lock_prefixes prefix (segment ∷ segments) =
      Steady-bind f _ _ (Steady-lock_path f _ _)
        (λ _. Steady-lock_prefixes (prefix ++ (slash ∷ segment)) segments)

  Steady-lock_ancestors : (parent : Text) → Steady f (lock_ancestors parent)
  unfolding lock_ancestors
  Steady-lock_ancestors parent = search (steady_rules, Steady-lock_prefixes)

  pub Steady-lock_mutation_path : (path : ConfigPath) → Steady f (lock_mutation_path path)
  unfolding lock_mutation_path
  Steady-lock_mutation_path path = search (steady_rules, Steady-lock_ancestors)

  pub Steady-lock_contents : (ids : List ℕ) → Steady f (lock_contents ids)
  unfolding lock_contents
  Steady-lock_contents [] = Steady-pure f tt
  Steady-lock_contents (id ∷ ids) =
      Steady-bind f _ _ (Steady-lock_path f _ _) (λ _. Steady-lock_contents ids)

  pub Steady-path_content_class : (key : Text) → Steady f (path_content_class key)
  unfolding path_content_class
  Steady-path_content_class key = Steady-reading f _

  pub Steady-content_id_at : (key : Text) → Steady f (content_id_at statement key)
  unfolding content_id_at
  Steady-content_id_at key = Steady-reading f _

  pub Steady-path_is_occupied : (key : Text) → Steady f (path_is_occupied key)
  unfolding path_is_occupied
  Steady-path_is_occupied key = Steady-reading f _

  pub Steady-path_collides : (key : Text) → Steady f (path_collides key)
  unfolding path_collides
  Steady-path_collides key = Steady-reading f _

  pub Steady-secret_paths_touching : (key : Text) → Steady f (secret_paths_touching key)
  unfolding secret_paths_touching
  Steady-secret_paths_touching key = Steady-reading f _

Steady-prune_contents : (ids : List ℕ) → Steady stored_paths (statement (prune_contents ids))
unfolding prune_contents
Steady-prune_contents ids =
    Steady-statement stored_paths _ (λ db a db' h. ap stored_paths (sym (answer_of h).1))

pub Steady-prune_orphan_contents : (ids : List ℕ) → Steady stored_paths (prune_orphan_contents ids)
unfolding prune_orphan_contents
Steady-prune_orphan_contents [] = Steady-pure stored_paths tt
Steady-prune_orphan_contents (id ∷ ids) =
    Steady-bind stored_paths _ _ (Steady-lock_contents stored_paths (id ∷ ids))
      (λ _. Steady-prune_contents (id ∷ ids))

pub Steady-reserve_content_id : Steady stored_paths reserve_content_id
unfolding reserve_content_id
Steady-reserve_content_id = Steady-nextval stored_paths

pub Steady-insert_content :
    (id : ℕ) (value classification : Text) (now : OffsetDateTime)
    → Steady stored_paths (insert_content id value classification now)
unfolding insert_content insert_content_row
Steady-insert_content id value classification now = Steady-statement stored_paths _ (λ db a db' h.
    elim (Option-cases (content_of id db.contents)) [
      | inl new ↦ ground arith
      | inr (row, taken) ↦ absurd (ground arith)
    ])

pub Steady-update_content :
    (id : ℕ) (value classification : Text) (now : OffsetDateTime)
    → Steady stored_paths (update_content id value classification now)
unfolding update_content update_content_row
Steady-update_content id value classification now = Steady-statement stored_paths _ (λ db a db' h.
    elim (Option-cases (content_of id db.contents)) [
      | inl missing ↦ absurd (ground arith)
      | inr (row, found) ↦ ground arith
    ])

pub Steady-record_in :
    (service : ConfigurationService) (caller : Actor) (at : OffsetDateTime)
    (events : List AuditEvent)
    → Steady stored_paths (record_in service caller at events)
unfolding record_in append_events
Steady-record_in service caller at [] = Steady-pure stored_paths tt
Steady-record_in service caller at (event ∷ events) =
    Steady-statement stored_paths (append_events service caller at (event ∷ events)) (λ db a db' h.
      ap stored_paths (sym (append_events-some service caller at (event ∷ events) db h).2))
