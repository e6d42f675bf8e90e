-- ===== src/Server/Values/Service/Common.antt =====
-- values/service.rs: what the operations share, and the recording of audit events.
use sovereign_config.Prelude.{
  ◌≡◌, refl, ℕ, Option, none, some, List, [], ◌∷◌, map, ◌==◌, if◌then◌else◌, Text, Result, map_err,
}
use sovereign_config.Core.Path.{ConfigPath, parse_operation}
use sovereign_config.Core.Value.{ValueContent}
use sovereign_config.Server.Rpc.{
  Status, status, invalid_argument, not_found, internal, storage_unavailable, Actor, OffsetDateTime,
  Timestamp,
}
use sovereign_config.Server.Audit.Events.{AuditEvent}
use sovereign_config.Server.Audit.Store.{EventRow, Hash, event_row, insert_events}
use sovereign_config.Server.Encryption.{Primitives}
use sovereign_config.Server.Values.Exec.{Db, Exec, pure, Effect, statement, direct}

pub record ConfigurationService : Type 0 where
  pub cipher : Primitives
  pub sha256 : Hash
  pub coalesce_window : ℕ

-- What a caller asks `put_value` to store.
pub data PutContent : Type 0 where
  plain_put secret_put : Text → PutContent

pub record PutMetadata : Type 0 where
  pub created_at : Timestamp
  pub updated_at : Timestamp

pub record DeleteMetadata : Type 0 where
  pub deleted_at : Timestamp
  pub deleted_count : ℕ

pub record ReplaceMetadata : Type 0 where
  pub updated_at : Timestamp
  pub value_count : ℕ

pub record AddPathMetadata : Type 0 where
  pub created_at : Timestamp

pub record ListedValue : Type 0 where
  pub path : ConfigPath
  pub value : ValueContent
  pub created_at : Timestamp
  pub updated_at : Timestamp
  pub alias_paths : List ConfigPath

pub record ValueListing : Type 0 where
  pub values : List ListedValue
  pub paths : List ConfigPath

abbrev pub encryption_failed : Status
encryption_failed = status internal "configuration value could not be encrypted"

abbrev pub decryption_failed : Status
decryption_failed = status internal "configuration value could not be decrypted"

abbrev pub value_not_found : Status
value_not_found = status not_found "configuration value not found"

abbrev pub value_collides : Status
value_collides = status invalid_argument "configuration value collides with an existing value"

abbrev pub conflicting_values : Status
conflicting_values =
    status invalid_argument "configuration subtree assigns conflicting values to one stored value"

unfoldable pub stored_path : Text → Result Status ConfigPath
stored_path path = map_err (parse_operation path) storage_unavailable

-- The plain writes of a subtree, resolved against what is stored. `shared` is a map in the order of
-- the content ids.
pub record ResolvedWrites : Type 0 where
  pub shared : List (ℕ × Text)
  pub shared_paths : List (Text × ℕ)
  pub fresh : List (Text × Text)

unfoldable pub lookup_id {ℓ} : {A : Type ℓ} → ℕ → List (ℕ × A) → Option A
lookup_id id [] = none
lookup_id id ((k, v) ∷ rest) = if k == id then some v else lookup_id id rest

-- The answer of the statement that makes these events of the trail.
abbrev pub with_events : Db → Option (List EventRow) → Option (Unit {0} × Db)
with_events db none = none
with_events db (some events) = some (tt, record db { events = events })

module _ (service : ConfigurationService) where
  -- `AuditRecorder::rows` and the insertion, as a statement of the transaction or on the pool.
  unfoldable pub append_events : Actor → OffsetDateTime → List AuditEvent → Effect (Unit {0})
  unfolding event_row insert_events
  append_events caller at events db = with_events db (
      insert_events (map (event_row service.sha256 service.coalesce_window caller at) events)
        db.events)

  unfoldable pub record_in : Actor → OffsetDateTime → List AuditEvent → Exec (Unit {0})
  unfolding statement append_events
  record_in caller at [] = pure tt
  record_in caller at (event ∷ events) = statement (append_events caller at (event ∷ events))

  -- `AuditRecorder::record`
  unfoldable pub record_now : Actor → OffsetDateTime → AuditEvent → Exec (Unit {0})
  unfolding direct append_events
  record_now caller at event = direct (append_events caller at (event ∷ []))

  -- What the recording of events makes of the tables.
  pub append_events-some :
      (caller : Actor) (at : OffsetDateTime) (events : List AuditEvent) (db : Db) {a : Unit {0}}
      {db' : Db}
      → append_events caller at events db ≡ some (a, db')
      → (trail : List EventRow) × (insert_events
            (map (event_row service.sha256 service.coalesce_window caller at) events)
            db.events
          ≡ some trail)
        × (record db { events = trail } ≡ db')
  unfolding append_events
  append_events-some caller at events db {a} {db'} h =
      recorded
        (insert_events (map (event_row service.sha256 service.coalesce_window caller at) events)
          db.events)
        refl h
    where
      recorded :
          (done : Option (List EventRow))
          → insert_events
              (map (event_row service.sha256 service.coalesce_window caller at) events)
              db.events
            ≡ done
          → with_events db done ≡ some (a, db')
          → (trail : List EventRow) × (insert_events
                (map (event_row service.sha256 service.coalesce_window caller at) events)
                db.events
              ≡ some trail)
            × (record db { events = trail } ≡ db')
      recorded none e k = absurd (cc)
      recorded (some trail) e k = (trail, e, cc)
