-- ===== src/Server/Values/Service/Audited.antt =====
-- values/service.rs: how many events a `put_value` leaves in the trail.
use sovereign_config.Prelude.{
  ℕ, ◌+◌, ◌≡◌, refl, ap, ◌∙◌, subst, inl, inr, Option, none, some, List, [], ◌∷◌, arith,
  Option-cases, ok, Text,
}
use sovereign_config.Core.Path.{ConfigPath}
use sovereign_config.Server.Rpc.{CallContext, OffsetDateTime, Actor}
use sovereign_config.Server.Audit.Events.{AuditEvent}
use sovereign_config.Server.Audit.Store.{EventRow}
use sovereign_config.Server.Audit.Coalescing.{occurrences, insert_events-occurrences}
use sovereign_config.Server.Values.Exec.{Db, World, Exec}
use sovereign_config.Server.Values.Exec.Turns.{Turns, Turns-lift, Turns-begin}
use sovereign_config.Server.Values.Exec.Rules.{quiet_rules}
use sovereign_config.Server.Values.Exec.Steady.{
  Steady-nextval, Steady, Steady-statement, Steady-draw, steady_rules,
}
use sovereign_config.Server.Values.Exec.Commits.{
  Leads, Leads-statement, Keeps-Steady, Within-bind, Within-commit,
}
use sovereign_config.Server.Values.Store.{
  content_of, PathContentClassRow, reserve_content_id, insert_content, insert_content_row,
  insert_path, update_content, update_content_row,
}
use sovereign_config.Server.Values.Store.Leaves.{insert_path_row-some}
use sovereign_config.Server.Values.Service.Common.{
  append_events-some, ConfigurationService, PutContent, PutMetadata, append_events, record_in,
}
use sovereign_config.Server.Values.Service.Steady.{
  Steady-lock_mutation_path, Steady-path_content_class,
}
use sovereign_config.Server.Values.Service.Put.{
  stored_representation, overwrite_existing, create_value, put_or_overwrite, put_value,
}

abbrev trail : Db → List EventRow
trail db = db.events

-- The trail stands for `n` occurrences.
abbrev Counts : ℕ → Db → Type 0
Counts n db = occurrences db.events ≡ n

Steady-reserve_content_id : Steady trail reserve_content_id
unfolding reserve_content_id
Steady-reserve_content_id = Steady-nextval trail

Steady-insert_path :
    (path : Text) (id : ℕ) (now : OffsetDateTime) → Steady trail (insert_path path id now)
unfolding insert_path
Steady-insert_path path id now = Steady-statement trail _ (λ db a db' h.
    ap trail
      (insert_path_row-some (record { path = path; content_id = id; created_at = now }) db h).1)

Steady-insert_content :
    (id : ℕ) (value classification : Text) (now : OffsetDateTime)
    → Steady trail (insert_content id value classification now)
unfolding insert_content insert_content_row
Steady-insert_content id value classification now = Steady-statement trail _ (λ db a db' h.
    elim (Option-cases (content_of id db.contents)) [
      | inl new ↦ ground arith
      | inr (row, taken) ↦ absurd (ground arith)
    ])

Steady-update_content :
    (id : ℕ) (value classification : Text) (now : OffsetDateTime)
    → Steady trail (update_content id value classification now)
unfolding update_content update_content_row
Steady-update_content id value classification now = Steady-statement trail _ (λ db a db' h.
    elim (Option-cases (content_of id db.contents)) [
      | inl missing ↦ absurd (ground arith)
      | inr (row, found) ↦ ground arith
    ])

module _ (service : ConfigurationService) where
  Steady-stored_representation :
      (id : ℕ) (classification value : Text)
      → Steady trail (stored_representation service id classification value)
  unfolding stored_representation
  Steady-stored_representation id classification value = search (steady_rules, Steady-draw) depth 8

  Steady-put_or_overwrite :
      (existing : Option PathContentClassRow) (path : ConfigPath) (value classification : Text)
      (now : OffsetDateTime)
      → Steady trail (put_or_overwrite service existing path value classification now)
  unfolding overwrite_existing create_value
  Steady-put_or_overwrite (some existing) path value classification now =
      search (steady_rules, Steady-stored_representation, Steady-update_content) depth 8
  Steady-put_or_overwrite none path value classification now =
      search
        (
          steady_rules, Steady-reserve_content_id, Steady-stored_representation,
          Steady-insert_content, Steady-insert_path,
        )
        depth 16

  Leads-record_in :
      (n : ℕ) (caller : Actor) (at : OffsetDateTime) (event : AuditEvent)
      → Leads (Counts n) (record_in service caller at (event ∷ [])) (λ _. Counts (n + 1))
  unfolding record_in append_events
  Leads-record_in n caller at event =
      Leads-statement (append_events service caller at (event ∷ [])) (λ db counted a db' h.
        let (trail, done, same) = append_events-some service caller at (event ∷ []) db h in
        subst (Counts (n + 1)) same (
          insert_events-occurrences service.sha256 service.coalesce_window caller at (event ∷ [])
            db.events done
          ∙ ap (λ k. k + 1) counted))

module _ (service : ConfigurationService) where
  Turns-put_value :
      (n : ℕ) (context : CallContext) (now : OffsetDateTime) (path : Text)
      (written : Option PutContent)
      → Turns (Counts n) (Counts (n + 1)) (put_value service context now path written)
  unfolding put_value
  Turns-put_value n context now path written = Turns-lift _ _ (λ path.
      Turns-lift _ _ (λ (value, classification). Turns-lift _ _ (λ _. Turns-lift _ _ (λ caller.
        Turns-begin _ (
          Within-bind (λ _. Counts n) _ _ (steady _ (Steady-lock_mutation_path trail path))
            (λ _.
              Within-bind (λ _. Counts n) _ _ (steady _ (Steady-path_content_class trail _))
                (λ existing.
                  Within-bind (λ _. Counts n) _ _
                    (steady _
                      (Steady-put_or_overwrite service existing path value classification now))
                    (λ row.
                      Within-bind (λ _. Counts (n + 1)) _ _ (Leads-record_in service n caller now _)
                        (λ _. Within-commit _ (λ db counted. counted) (search quiet_rules))))))))))
    where
      steady : {A : Type 0} (m : Exec A) → Steady trail m → Leads (Counts n) m (λ _. Counts n)
      steady m still = (Keeps-Steady trail (λ rows. occurrences rows ≡ n) m still).leads

  -- A `put_value` that answers with success leaves one more occurrence in the audit trail than
  -- there was: the event is committed with the change.
  pub put_value-occurrences :
      (context : CallContext) (now : OffsetDateTime) (path : Text) (written : Option PutContent)
      (w : World) (metadata : PutMetadata)
      → (put_value service context now path written w).0 ≡ ok metadata
      → occurrences (put_value service context now path written w).1.committed.events
        ≡ occurrences w.committed.events + 1
  put_value-occurrences context now path written w metadata =
      (Turns-put_value (occurrences w.committed.events) context now path written).at w metadata refl
