-- ===== src/Server/Audit/Events.antt =====
-- audit/mod.rs: the events of the configuration service, one function for each kind.
use sovereign_config.Prelude.{
  ℕ, Bool, true, false, Option, none, some, List, [], ◌∷◌, get_or, Text, codes,
}
use sovereign_config.Core.Path.{ConfigPath}
use sovereign_config.Server.Rpc.{Actor}
use sovereign_config.Server.Audit.Narrative
use sovereign_config.Server.Audit.Narrative.{Recorded, recorded_plain}

pub data EventKind : Type 0 where
  value_created value_updated value_deleted value_path_added : EventKind
  subtree_replaced subtree_deleted secret_revealed subtree_read values_listed : EventKind
  connection_created connection_rotated connection_revoked : EventKind

-- `EventKind::as_str`
abbrev pub kind_label : EventKind → Text
kind_label value_created = codes "value.created"
kind_label value_updated = codes "value.updated"
kind_label value_deleted = codes "value.deleted"
kind_label value_path_added = codes "value.path_added"
kind_label subtree_replaced = codes "subtree.replaced"
kind_label subtree_deleted = codes "subtree.deleted"
kind_label secret_revealed = codes "secret.revealed"
kind_label subtree_read = codes "subtree.read"
kind_label values_listed = codes "values.listed"
kind_label connection_created = codes "connection.created"
kind_label connection_rotated = codes "connection.rotated"
kind_label connection_revoked = codes "connection.revoked"

abbrev pub coalesces : EventKind → Bool
coalesces secret_revealed = true
coalesces subtree_read = true
coalesces values_listed = true
coalesces _ = false

-- `Actor::shown`
abbrev pub shown : Actor → Text
shown actor = get_or actor.name actor.subject

pub record AuditEvent : Type 0 where
  pub kind : EventKind
  pub path : Text
  pub counterpart : Option Text
  pub old_value : Option Text
  pub new_value : Option Text
  pub narrative : Text

-- An event that carries no value.
abbrev pub bare : EventKind → Text → Text → AuditEvent
bare kind path narrative = record {
  kind = kind;
  path = path;
  counterpart = none;
  old_value = none;
  new_value = none;
  narrative = narrative;
}

unfoldable pub on_value_created : Actor → Text → Recorded → AuditEvent
on_value_created actor path new =
    record (bare value_created path (Narrative.value_created (shown actor) path new)) {
      new_value = recorded_plain new;
    }

unfoldable pub on_value_updated : Actor → Text → Recorded → Recorded → AuditEvent
on_value_updated actor path old new =
    record (bare value_updated path (Narrative.value_updated (shown actor) path old new)) {
      old_value = recorded_plain old;
      new_value = recorded_plain new;
    }

unfoldable pub on_value_deleted : Actor → Text → Recorded → AuditEvent
on_value_deleted actor path old =
    record (bare value_deleted path (Narrative.value_deleted (shown actor) path old)) {
      old_value = recorded_plain old;
    }

-- The two events of one alias: one on each path, each naming the other.
unfoldable pub on_path_added : Actor → ConfigPath → ConfigPath → List AuditEvent
on_path_added actor source new_path =
    record (bare value_path_added new_path.path
      (Narrative.path_added (shown actor) new_path.path source.path)) {
        counterpart = some source.path;
      }
    ∷ (record (bare value_path_added source.path
          (Narrative.path_exposed (shown actor) source.path new_path.path)) {
            counterpart = some new_path.path;
          }
        ∷ [])

unfoldable pub on_subtree_replaced : Actor → Text → ℕ → ℕ → ℕ → ℕ → AuditEvent
on_subtree_replaced actor root created updated deleted unrecorded =
    bare subtree_replaced root
      (Narrative.subtree_replaced (shown actor) root created updated deleted unrecorded)

unfoldable pub on_subtree_deleted : Actor → Text → ℕ → ℕ → AuditEvent
on_subtree_deleted actor root deleted unrecorded =
    bare subtree_deleted root (Narrative.subtree_deleted (shown actor) root deleted unrecorded)

unfoldable pub on_secret_revealed : Actor → Text → AuditEvent
on_secret_revealed actor path =
    bare secret_revealed path (Narrative.secret_revealed (shown actor) path)

unfoldable pub on_subtree_read : Actor → Text → ℕ → AuditEvent
on_subtree_read actor root value_count =
    bare subtree_read root (Narrative.subtree_read (shown actor) root value_count)

unfoldable pub on_values_listed : Actor → Text → ℕ → AuditEvent
on_values_listed actor namespace value_count =
    bare values_listed namespace (Narrative.values_listed (shown actor) namespace value_count)

pub record ConnectionSubject : Type 0 where
  pub root : Text
  pub display_name : Text
  pub connection_id : Text

unfoldable pub on_connection_created : Actor → ConnectionSubject → Text → AuditEvent
on_connection_created actor connection permissions = bare connection_created connection.root (
    Narrative.connection_created (shown actor) connection.root connection.display_name
      connection.connection_id permissions)

unfoldable pub on_connection_rotated : Actor → ConnectionSubject → AuditEvent
on_connection_rotated actor connection = bare connection_rotated connection.root (
    Narrative.connection_rotated (shown actor) connection.root connection.display_name
      connection.connection_id)

unfoldable pub on_connection_revoked : Actor → ConnectionSubject → AuditEvent
on_connection_revoked actor connection = bare connection_revoked connection.root (
    Narrative.connection_revoked (shown actor) connection.root connection.display_name
      connection.connection_id)
