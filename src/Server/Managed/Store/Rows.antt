-- ===== src/Server/Managed/Store/Rows.antt =====
-- managed/store.rs: what the statements do to the state of each connection.
use sovereign_config.Prelude.{
  ℕ, ◌≡◌, refl, subst, ◌↔◌, inl, inr, Bool, true, false, not, Option, none, some, List, [], ◌∷◌,
  arith, if◌then◌else◌, Bool-cases, any, keep_if, find, Text, text_eq, text_eq_sound, text_eq_iff,
}
use sovereign_config.Core.Managed.{ConnectionId}
use sovereign_config.Server.Rpc.{Actor, OffsetDateTime}
use sovereign_config.Server.Audit.Events.{AuditEvent}
use sovereign_config.Server.Audit.Store.{EventRow, Hash, event_row, insert_events}
use sovereign_config.Server.Managed.Exec.{ConnectionRow, Tables}
use sovereign_config.Server.Managed.Store.{names, update_where, append_event, with_events}

abbrev pub row_of : ConnectionId → List ConnectionRow → Option ConnectionRow
row_of id rows = find (names id) rows

abbrev pub row_state : Option ConnectionRow → Option Text
row_state none = none
row_state (some row) = some row.state

-- The state that a connection is in, if there is one.
unfoldable pub state_at : ConnectionId → Tables → Option Text
unfolding find names text_eq
state_at id tables = row_state (row_of id tables.connections)

abbrev pub changed_if :
    (ConnectionRow → Bool)
    → (ConnectionRow → ConnectionRow)
    → Option ConnectionRow
    → Option ConnectionRow
changed_if chosen change none = none
changed_if chosen change (some row) = some (if chosen row then change row else row)

module _ (change : ConnectionRow → ConnectionRow)
    (keeps : (row : ConnectionRow) → (change row).connection_id ≡ row.connection_id) where
  pub find-update_where :
      (id : ConnectionId) (chosen : ConnectionRow → Bool) (rows : List ConnectionRow)
      → row_of id (update_where chosen change rows) ≡ changed_if chosen change (row_of id rows)
  unfolding update_where find names
  find-update_where id chosen [] = refl
  find-update_where id chosen (row ∷ rows) =
      ground (arith, find-update_where id chosen rows, keeps row)

pub names_iff :
    (id : ConnectionId) (row : ConnectionRow) → (names id row ≡ true) ↔ (row.connection_id ≡ id)
unfolding names
names_iff id row = text_eq_iff row.connection_id id

pub row_of-named :
    (id : ConnectionId) (rows : List ConnectionRow) (row : ConnectionRow)
    → row_of id rows ≡ some row
    → row.connection_id ≡ id
unfolding find
row_of-named id [] row h = absurd (cc)
row_of-named id (r ∷ rows) row h = elim (Bool-cases (names id r)) [
  | inl e ↦
      let same : r ≡ row = ground arith in
      subst (λ (x : ConnectionRow). x.connection_id ≡ id) same ((names_iff id r).0 e)
  | inr e ↦ row_of-named id rows row (ground arith)
]

-- A deletion takes its own connection away and leaves the others.
pub find-keep_if :
    (id other : ConnectionId) (rows : List ConnectionRow)
    → row_of other (keep_if (λ row. not (names id row)) rows)
      ≡ (if text_eq other id then none else row_of other rows)
unfolding keep_if find names
find-keep_if id other [] = ground arith
find-keep_if id other (row ∷ rows) = ground (
  arith,
  find-keep_if id other rows,
  text_eq_sound row.connection_id id,
  text_eq_sound row.connection_id other,
  text_eq_iff other id,
  text_eq_iff row.connection_id id,
)

pub find-any :
    (id : ConnectionId) (rows : List ConnectionRow)
    → any (names id) rows ≡ false
    → row_of id rows ≡ none
unfolding any find
find-any id [] h = refl
find-any id (row ∷ rows) h = ground (arith, find-any id rows)

-- The recording of an event changes the trail alone.
pub append_event-some :
    (sha256 : Hash) (window : ℕ) (actor : Actor) (at : OffsetDateTime) (event : AuditEvent)
    (before : Tables) {a : Unit {0}} {after : Tables}
    → append_event sha256 window actor at event before ≡ some (a, after)
    → (trail : List EventRow) × (record before { events = trail } ≡ after)
unfolding append_event
append_event-some sha256 window actor at event before {a} {after} h =
    recorded (insert_events (event_row sha256 window actor at event ∷ []) before.events) h
  where
    recorded :
        (done : Option (List EventRow))
        → with_events before done ≡ some (a, after)
        → (trail : List EventRow) × (record before { events = trail } ≡ after)
    recorded none k = absurd (cc)
    recorded (some trail) k = (trail, cc)
