-- ===== src/Server/Values/Service/Itemize.antt =====
-- values/service.rs: the audit events of a bulk operation, itemized up to a cap.
use sovereign_config.Prelude.{
  ℕ, ◌+◌, ◌-◌, Bool, not, ◌||◌, Option, none, some, List, [], ◌∷◌, ◌++◌, map, ltb, if◌then◌else◌,
  get_or, length, filter_map, Text, text_eq,
}
use sovereign_config.Core.Path.{ConfigPath}
use sovereign_config.Server.Rpc.{Actor}
use sovereign_config.Server.Audit.Narrative.{recorded_of, plain}
use sovereign_config.Server.Audit.Events.{
  AuditEvent, on_value_created, on_value_updated, on_value_deleted, on_subtree_replaced,
  on_subtree_deleted,
}
use sovereign_config.Server.Values.Subtree.{lookup_display}
use sovereign_config.Server.Values.Store.{DeletedPathRow}
use sovereign_config.Server.Values.Service.Common.{ResolvedWrites, lookup_id}

abbrev pub bulk_event_cap : ℕ
bulk_event_cap = 1000

unfoldable pub push_capped : List AuditEvent → AuditEvent → List AuditEvent
push_capped events event =
    if ltb (length events) bulk_event_cap then events ++ (event ∷ []) else events

unfoldable pub push_all : List AuditEvent → List AuditEvent → List AuditEvent
unfolding push_capped
push_all events [] = events
push_all events (event ∷ more) = push_all (push_capped events event) more

unfoldable pub event_of_deleted : Actor → DeletedPathRow → AuditEvent
unfolding on_value_deleted recorded_of
event_of_deleted caller row =
    on_value_deleted caller row.path (recorded_of row.classification row.value)

unfoldable pub deletion_events : Actor → ConfigPath → List DeletedPathRow → Bool → List AuditEvent
unfolding push_all event_of_deleted on_subtree_deleted
deletion_events caller root deleted recurse =
    let events = push_all [] (map (event_of_deleted caller) deleted) in
    if recurse
    then events
      ++ (on_subtree_deleted caller root.path (length deleted) (length deleted - length events)
          ∷ [])
    else events

-- The change of one written path, if its value is not what it was.
unfoldable pub event_of_shared :
    Actor
    → List (ℕ × (Text × Text))
    → List (ℕ × Text)
    → List (Text × Text)
    → Text × ℕ
    → Option AuditEvent
unfolding lookup_id on_value_updated recorded_of lookup_display text_eq
event_of_shared caller previous shared displays (path, id) = elim (lookup_id id previous) [
  | none ↦ none
  | some (old_value, old_classification) ↦ elim (lookup_id id shared) [
    | none ↦ none
    | some after ↦
        if not (text_eq old_value after) || not (text_eq old_classification plain)
        then some (
            on_value_updated caller (get_or (lookup_display path displays) path)
              (recorded_of old_classification old_value) (recorded_of plain after))
        else none
  ]
]

unfoldable pub event_of_fresh : Actor → List (Text × Text) → Text × Text → AuditEvent
unfolding on_value_created recorded_of lookup_display text_eq
event_of_fresh caller displays (path, content) =
    on_value_created caller (get_or (lookup_display path displays) path) (recorded_of plain content)

unfoldable pub replacement_events :
    Actor
    → ConfigPath
    → List DeletedPathRow
    → ResolvedWrites
    → List (ℕ × (Text × Text))
    → List (Text × Text)
    → List AuditEvent
unfolding push_all event_of_deleted event_of_shared event_of_fresh filter_map on_subtree_replaced
replacement_events caller root cleared writes previous displays =
    let updated =
      filter_map (event_of_shared caller previous writes.shared displays) writes.shared_paths in
    let created = map (event_of_fresh caller displays) writes.fresh in
    let itemized =
      push_all (push_all (push_all [] (map (event_of_deleted caller) cleared)) updated) created in
    let total = length cleared + length updated + length created in
    itemized
    ++ (on_subtree_replaced caller root.path (length created) (length updated) (length cleared)
          (total - length itemized)
        ∷ [])
