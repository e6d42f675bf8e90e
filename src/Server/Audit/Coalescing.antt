-- ===== src/Server/Audit/Coalescing.antt =====
-- audit/store.rs: how many occurrences the rows of the trail stand for.
use sovereign_config.Prelude.{
  ℕ, ◌+◌, ◌≡◌, refl, subst, inl, inr, Option, none, some, Option-cases, List, [], ◌∷◌, map, arith,
  Bool-cases, length,
}
use sovereign_config.Server.Rpc.{Actor, OffsetDateTime}
use sovereign_config.Server.Audit.Events.{AuditEvent}
use sovereign_config.Server.Audit.Store.{
  EventRow, Hash, event_row, same_digest, bump, meets_checks, upsert, insert_event, insert_each,
  distinct_digests, insert_events,
}

-- The occurrences that rows of the trail stand for.
unfoldable pub occurrences : List EventRow → ℕ
occurrences [] = 0
occurrences (row ∷ rows) = row.event_count + occurrences rows

upsert-occurrences :
    (new : EventRow) (table : List EventRow) {after : List EventRow}
    → new.event_count ≡ 1
    → upsert new table ≡ some after
    → occurrences after ≡ occurrences table + 1
unfolding occurrences upsert
upsert-occurrences new [] {after} one h =
    let same : new ∷ [] ≡ after = cc in rw (← same) (omega (arith, one))
upsert-occurrences new (row ∷ rows) {after} one h =
    elim (Bool-cases (same_digest row.coalesce_digest new.coalesce_digest)) [
      | inl e ↦ elim (Bool-cases (meets_checks (bump new row))) [
        | inl fine ↦
            let same : bump new row ∷ rows ≡ after = ground (arith, e, fine, h) in
            rw (← same) (omega arith)
        | inr refused ↦ absurd (ground (arith, e, refused, h))
      ]
      | inr e ↦ elim (Option-cases (upsert new rows)) [
        | inl failed ↦ absurd (ground (arith, e, failed, h))
        | inr (rest, done) ↦
            let same : row ∷ rest ≡ after = ground (arith, e, done, h) in
            rw (← same) (omega (arith, upsert-occurrences new rows one done))
      ]
    ]

insert_event-occurrences :
    (new : EventRow) (table : List EventRow) {after : List EventRow}
    → new.event_count ≡ 1
    → insert_event new table ≡ some after
    → occurrences after ≡ occurrences table + 1
unfolding insert_event
insert_event-occurrences new table one h = elim (Bool-cases (meets_checks new)) [
  | inl fine ↦ upsert-occurrences new table one (ground (arith, fine, h))
  | inr refused ↦ absurd (ground (arith, refused, h))
]

module _ (sha256 : Hash) (window_seconds : ℕ) (caller : Actor) (at : OffsetDateTime) where
  insert_each-from :
      (news : List EventRow) (found : Option (List EventRow)) {after : List EventRow}
      → insert_each news found ≡ some after
      → (table : List EventRow) × (found ≡ some table)
  unfolding insert_each
  insert_each-from news (some table) h = (table, refl)
  insert_each-from [] none h = absurd (cc)
  insert_each-from (new ∷ news) none h = absurd (cc)

  insert_each-occurrences :
      (events : List AuditEvent) (table : List EventRow) {after : List EventRow}
      → insert_each (map (event_row sha256 window_seconds caller at) events) (some table)
        ≡ some after
      → occurrences after ≡ occurrences table + length events
  unfolding insert_each event_row
  insert_each-occurrences [] table {after} h =
      let same : table ≡ after = cc in rw (← same) (omega arith)
  insert_each-occurrences (event ∷ events) table {after} h =
      let rows = map (event_row sha256 window_seconds caller at) events in
      let new = event_row sha256 window_seconds caller at event in
      let (next, done) = insert_each-from rows (insert_event new table) h in
      let rest : insert_each rows (some next) ≡ some after =
        subst (λ (t : Option (List EventRow)). insert_each rows t ≡ some after) done h in
      omega (
        arith,
        insert_each-occurrences events next rest,
        insert_event-occurrences new table refl done,
      )

  -- Coalescing loses no event: where `insert_events` of the rows of some events succeeds, the
  -- counts of the trail add up to what they were and one for each event.
  pub insert_events-occurrences :
      (events : List AuditEvent) (table : List EventRow) {after : List EventRow}
      → insert_events (map (event_row sha256 window_seconds caller at) events) table ≡ some after
      → occurrences after ≡ occurrences table + length events
  unfolding insert_events
  insert_events-occurrences events table h =
      elim (Bool-cases
        (distinct_digests (map (event_row sha256 window_seconds caller at) events))) [
          | inl fine ↦ insert_each-occurrences events table (rw fine at h)
          | inr shared ↦ absurd (ground (arith, shared, h))
        ]
