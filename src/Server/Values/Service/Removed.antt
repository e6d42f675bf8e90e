-- ===== src/Server/Values/Service/Removed.antt =====
-- values/service.rs: which stored paths a `delete_values` leaves.
use sovereign_config.Prelude.{
  ◌≡◌, refl, sym, ap, ◌∙◌, Bool, true, false, not, ◌&&◌, is_some, arith, List, [], ◌∷◌, text_eq,
  keep_if, ok, Text,
}
use sovereign_config.Core.Path.{ConfigPath, fold_key, is_at_or_below}
use sovereign_config.Core.Path.Scope.{is_at_or_below_iff}
use sovereign_config.Server.Auth.Grants.{Covers-iff}
use sovereign_config.Server.Auth.{write}
use sovereign_config.Server.Rpc.{CallContext, OffsetDateTime}
use sovereign_config.Server.Values.Authz.{authorize}
use sovereign_config.Server.Values.Exec.{Db, PathRow, World, Exec}
use sovereign_config.Server.Values.Exec.Rules.{quiet_rules}
use sovereign_config.Server.Values.Exec.Steady.{Steady, answer_of}
use sovereign_config.Server.Values.Exec.Commits.{
  Leads, Leads-statement, Leads-lift, Keeps-Steady, Within-bind, Within-commit,
}
use sovereign_config.Server.Values.Exec.Turns.{Turns, Turns-lift, Turns-lift_known, Turns-begin}
use sovereign_config.Server.Values.Store.{
  selects, content_of, chosen_delete, delete_chosen, delete_paths,
}
use sovereign_config.Server.Values.Service.Common.{ConfigurationService, DeleteMetadata}
use sovereign_config.Server.Values.Service.Delete.{delete_values}
use sovereign_config.Server.Values.Service.Steady.{
  stored_paths, Steady-lock_mutation_path, Steady-prune_orphan_contents, Steady-record_in,
}

module _ (start : Db) where
  -- The tables are those at the start.
  abbrev Starts : Db → Type 0
  Starts db = db ≡ start

  -- The paths are those of the start but for what a deletion at `key` chooses.
  abbrev Left : Text → Bool → Db → Type 0
  Left key recurse db =
      db.paths ≡ keep_if (λ row. not (chosen_delete key recurse start row)) start.paths

  Leads-delete_paths :
      (key : Text) (recurse : Bool)
      → Leads Starts (delete_paths key recurse) (λ _. Left key recurse)
  unfolding delete_paths delete_chosen
  Leads-delete_paths key recurse = Leads-statement _ (λ db same a db' h.
      ap (λ (d : Db). d.paths) (sym (answer_of h).1)
      ∙ ap (λ (d : Db). keep_if (λ row. not (chosen_delete key recurse d row)) d.paths) same)

  module _ (service : ConfigurationService) (context : CallContext) (now : OffsetDateTime)
      (path : Text) (recurse : Bool) where
    abbrev Removed : Db → Type 0
    Removed db =
        (target : ConfigPath) × (authorize context path (write ∷ []) recurse ≡ ok target)
        × Left (fold_key target) recurse db

    Turns-delete_values : Turns Starts Removed (delete_values service context now path recurse)
    unfolding delete_values
    Turns-delete_values = Turns-lift_known _ _ (λ target authorized. Turns-lift _ _ (λ caller.
        Turns-begin _ (
          Within-bind (λ _. Starts) _ _
            (Keeps-Steady (λ db. db) Starts _ (Steady-lock_mutation_path (λ db. db) target)).leads
            (λ _.
              Within-bind (λ _. Left (fold_key target) recurse) _ _
                (Leads-delete_paths (fold_key target) recurse)
                (λ deleted.
                  Within-bind (λ _. Left (fold_key target) recurse) _ _
                    (Leads-lift _ (λ a h db left. left))
                    (λ _.
                      Within-bind (λ _. Left (fold_key target) recurse) _ _
                        (still target _ (Steady-prune_orphan_contents _))
                        (λ _.
                          Within-bind (λ _. Left (fold_key target) recurse) _ _
                            (still target _ (Steady-record_in service caller now _))
                            (λ _.
                              Within-commit _ (λ db left. (target, authorized, left))
                                (search quiet_rules)))))))))
      where
        still :
            {A : Type 0} (target : ConfigPath) (m : Exec A)
            → Steady stored_paths m
            → Leads (Left (fold_key target) recurse) m (λ _. Left (fold_key target) recurse)
        still target m steady =
            (Keeps-Steady stored_paths
              (λ rows.
                rows
                ≡ keep_if (λ row. not (chosen_delete (fold_key target) recurse start row))
                    start.paths)
              m steady).leads

-- What the caller asks to remove: the requested path, or, with `recurse`, what lies at or below it.
abbrev pub asked : Bool → ConfigPath → PathRow → Bool
asked true target row = is_at_or_below (record { path = row.path }) target
asked false target row = text_eq (fold_key (record { path = row.path })) (fold_key target)

same_tests : (a b : Bool) → (a ≡ true → b ≡ true) → (b ≡ true → a ≡ true) → a ≡ b
same_tests true true to from = refl
same_tests true false to from = sym (to refl)
same_tests false true to from = from refl
same_tests false false to from = refl

keep_if-same :
    {A : Type 0} (p q : A → Bool)
    → ((x : A) → p x ≡ q x)
    → (xs : List A) → keep_if p xs ≡ keep_if q xs
unfolding keep_if
keep_if-same p q same [] = refl
keep_if-same p q same (x ∷ xs) = rw (same x, keep_if-same p q same xs) refl

-- The statement's test of a subtree is the one by which paths are authorized.
selects-is_at_or_below :
    (target : ConfigPath) (row : PathRow)
    → selects (fold_key target) row ≡ is_at_or_below (record { path = row.path }) target
unfolding selects
selects-is_at_or_below target row =
    let p : ConfigPath = record { path = row.path } in
    same_tests (selects (fold_key target) row) (is_at_or_below p target)
      (λ h.
        (is_at_or_below_iff p target).1
          ((Covers-iff (fold_key target) (fold_key p)).0 (ground (arith, h))))
      (λ h.
        let covered =
          (Covers-iff (fold_key target) (fold_key p)).1 ((is_at_or_below_iff p target).0 h) in
        ground (arith, covered))

chosen_delete-asked :
    (recurse : Bool) (target : ConfigPath) (db : Db) (row : PathRow)
    → not (chosen_delete (fold_key target) recurse db row)
      ≡ not (asked recurse target row && is_some (content_of row.content_id db.contents))
chosen_delete-asked true target db row =
    ap (λ b. not (b && is_some (content_of row.content_id db.contents)))
      (selects-is_at_or_below target row)
chosen_delete-asked false target db row = refl

-- A `delete_values` that answers with success leaves in force, of the stored paths, all but those
-- that have a content and are the requested path, whatever their case, or, where it recurses, lie at
-- or below it by the test that authorization uses; and the caller was authorized to write there.
pub delete_values-paths :
    (service : ConfigurationService) (context : CallContext) (now : OffsetDateTime) (path : Text)
    (recurse : Bool) (w : World) (metadata : DeleteMetadata)
    → (delete_values service context now path recurse w).0 ≡ ok metadata
    → (target : ConfigPath) × (authorize context path (write ∷ []) recurse ≡ ok target)
      × ((delete_values service context now path recurse w).1.committed.paths
          ≡ keep_if
              (λ row. not (
                asked recurse target row
                && is_some (content_of row.content_id w.committed.contents)))
              w.committed.paths)
delete_values-paths service context now path recurse w metadata done =
    let (target, authorized, left) =
      (Turns-delete_values w.committed service context now path recurse).at w metadata refl done in
    (
      target,
      authorized,
      left ∙ keep_if-same _ _ (chosen_delete-asked recurse target w.committed) w.committed.paths,
    )
