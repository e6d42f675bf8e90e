-- ===== src/Server/Values/Service/Itemized.antt =====
-- values/service.rs: which events a bulk operation itemizes.
use sovereign_config.Prelude.{
  ℕ, zero, suc, ◌-◌, ◌≤◌, ◌<◌, min, ◌≡◌, refl, sym, ap, ◌∙◌, inl, inr, true, List, [], ◌∷◌, ◌++◌,
  map, append_assoc, append-nil, arith, ltb, Bool-cases, length, take, length-append,
  take-append_length,
}
use sovereign_config.Core.Path.{ConfigPath}
use sovereign_config.Server.Audit.Events.{AuditEvent, on_subtree_deleted}
use sovereign_config.Server.Rpc.{Actor}
use sovereign_config.Server.Values.Store.{DeletedPathRow}
use sovereign_config.Server.Values.Service.Itemize.{
  bulk_event_cap, push_capped, push_all, event_of_deleted, deletion_events,
}

take-append_long : {A : Type 0} (n : ℕ) (xs ys : List A) → length xs ≡ n → take n (xs ++ ys) ≡ xs
take-append_long n xs ys full = rw (← full) (take-append_length xs ys)

take-within : {A : Type 0} (n : ℕ) (xs : List A) → length xs ≤ n → take n xs ≡ xs
take-within n [] h = take-nil n
  where
    take-nil : {B : Type 0} (k : ℕ) → ◌≡◌ {A = List B} (take k []) []
    take-nil zero = refl
    take-nil (suc n) = refl
take-within zero (x ∷ xs) h = absurd (ground arith)
take-within (suc n) (x ∷ xs) h = ap (λ r. x ∷ r) (take-within n xs (omega arith))

length-take-map :
    {A B : Type 0} (n : ℕ) (f : A → B) (xs : List A)
    → length (take n (map f xs)) ≡ min n (length xs)
length-take-map zero f [] = refl
length-take-map zero f (x ∷ xs) = omega arith
length-take-map (suc n) f [] = omega arith
length-take-map (suc n) f (x ∷ xs) = omega (arith, length-take-map n f xs)

-- Pushing goes on up to the cap: what is kept are the first events.
push_all-take :
    (events more : List AuditEvent)
    → length events ≤ bulk_event_cap
    → push_all events more ≡ take bulk_event_cap (events ++ more)
unfolding push_all push_capped
push_all-take events [] within =
    rw (append-nil events) (sym (take-within bulk_event_cap events within))
push_all-take events (event ∷ more) within =
    elim (Bool-cases (ltb (length events) bulk_event_cap)) [
      | inl room ↦
          let below : length events < bulk_event_cap = ground arith in
          rw room (
            push_all-take (events ++ (event ∷ [])) more
              (omega (arith, length-append {0} events (event ∷ [])))
            ∙ ap (take bulk_event_cap) (append_assoc events (event ∷ []) more))
      | inr full ↦
          let at_cap : length events ≡ bulk_event_cap = ground arith in
          rw full (
            push_all-take events more within
            ∙ take-append_long bulk_event_cap events more at_cap
            ∙ sym (take-append_long bulk_event_cap events (event ∷ more) at_cap))
    ]

-- A recursive deletion itemizes the first `bulk_event_cap` of the deleted rows in order, and closes
-- with one summary that says how many were deleted and how many of them are not itemized.
pub deletion_events-itemized :
    (caller : Actor) (root : ConfigPath) (deleted : List DeletedPathRow)
    → deletion_events caller root deleted true
      ≡ take bulk_event_cap (map (event_of_deleted caller) deleted)
        ++ (on_subtree_deleted caller root.path
              (length deleted)
              (length deleted - min bulk_event_cap (length deleted))
            ∷ [])
unfolding deletion_events
deletion_events-itemized caller root deleted =
    let items = map (event_of_deleted caller) deleted in
    let kept : push_all [] items ≡ take bulk_event_cap items =
      push_all-take [] items (omega arith) in
    let count : length (take bulk_event_cap items) ≡ min bulk_event_cap (length deleted) =
      length-take-map bulk_event_cap (event_of_deleted caller) deleted in
    rw (kept, count) refl
