-- ===== src/Server/Values/Exec.antt =====
-- The database that the service runs on, as a monad. A transaction works on a copy of the tables,
-- and the committed tables take it over at the commit; a statement fails where the schedule of
-- faults says so, or where a constraint of the schema refuses it. An error drops the transaction.
pub mod Rules
pub mod Steady
pub mod Commits
pub mod Turns
use sovereign_config.Prelude.{
  ℕ, zero, suc, ◌+◌, ◌-◌, ◌*◌, ◌/◌, ◌%◌, ◌^◌, ◌≤◌, ◌<◌, min, max, String, ◌≡◌, refl, sym, ap, ◌∙◌,
  subst, ◌≡⟨◌⟩◌, ◌∎, ◌≢◌, ◌↔◌, ◌⊎◌, inl, inr, Bool, true, false, not, ◌&&◌, ◌||◌, Option, none,
  some, List, [], ◌∷◌, ◌++◌, map, append_assoc, append-nil, arith, ltb, leb, ◌==◌, if◌then◌else◌,
  ==_iff, Bool-cases, Option-cases, is_some, is_none, get_or, All, Any, here, ok, err, there,
  length, is_empty, take, drop, get_elem?, all, any, keep_if, length-append, length-take-le,
  take-append_length, drop-append_length, take-append-drop, all-append, all_iff, any_sound,
  any_complete, All-append, All-left, All-right, All-keep_if, All-map_of, insert_by, sort_by, find,
  filter_map, Text, codes, slash, text_eq, text_eq_refl, text_eq_sound, text_eq_iff, lower, fold,
  eq_ignore_ascii_case, strip_prefix, starts_with, contains, extend_head, split, trim_start_matches,
  join, rsplit_once, is_ascii_lowercase, is_ascii_uppercase, is_ascii_alphabetic, is_ascii_digit,
  is_control, concat, decimal_digits, decimal, text_le, Result, ok_or, map_err, is_ok, >>=-eq-ok,
  lower_idem, lower-eq_slash, fold_idem, fold-append, length-fold, strip_prefix-append,
  strip_prefix_sound, starts_with-append, starts_with_sound, extend_head-map-fold, split-fold,
  split-ne-nil, join-split, split_part, split-append, split_free, contains-append,
}
use sovereign_config.Server.Rpc.{Status, storage_unavailable, OffsetDateTime}
use sovereign_config.Server.Audit.Store.{EventRow}

-- A row of `configuration_paths`; its primary key `lowercase_path` is generated from `path`.
pub record PathRow : Type 0 where
  pub path : Text
  pub content_id : ℕ
  pub created_at : OffsetDateTime

abbrev pub lowercase_path : PathRow → Text
lowercase_path row = fold row.path

-- A row of `configuration_value_contents`.
pub record ContentRow : Type 0 where
  pub id : ℕ
  pub value : Text
  pub classification : Text
  pub created_at : OffsetDateTime
  pub updated_at : OffsetDateTime

pub record Db : Type 0 where
  pub paths : List PathRow
  pub contents : List ContentRow
  pub events : List EventRow

-- `locks` is the trace of advisory locks of the transaction, each with whether it is exclusive.
-- `faults` says of each statement to come whether it fails; past its end none does. `entropy` holds
-- what the random source will give; past its end it fails. `next_content_id` is the sequence of the
-- content ids, which no transaction gives back.
pub record World : Type 0 where
  pub committed : Db
  pub working : Db
  pub locks : List (Text × Bool)
  pub faults : List Bool
  pub entropy : List (List ℕ)
  pub next_content_id : ℕ

abbrev pub Exec : Type 0 → Type 0
Exec A = World → Result Status A × World

unfoldable pub pure : {A : Type 0} → A → Exec A
pure a w = (ok a, w)

unfoldable pub lift : {A : Type 0} → Result Status A → Exec A
lift r w = (r, w)

abbrev pub continue_with :
    {A B : Type 0} → (A → Exec B) → Result Status A × World → Result Status B × World
continue_with f (ok a, w) = f a w
continue_with f (err e, w) = (err e, w)

infixl 5 ◌>>=◌ ◌>>◌
unfoldable pub ◌>>=◌ : {A B : Type 0} → Exec A → (A → Exec B) → Exec B
◌>>=◌ m f w = continue_with f (m w)

abbrev pub ◌>>◌ : {B : Type 0} → Exec (Unit {0}) → Exec B → Exec B
m >> k = m >>= λ _. k

-- The next entry of the schedule, taken off.
abbrev pub fault_now : List Bool → Bool
fault_now [] = false
fault_now (fault ∷ faults) = fault

abbrev pub faults_later : List Bool → List Bool
faults_later [] = []
faults_later (fault ∷ faults) = faults

abbrev pub tick : World → World
tick w = record w { faults = faults_later w.faults }

-- What a statement makes of the tables: a result and the new tables, or a refused constraint.
abbrev pub Effect : Type 0 → Type 0
Effect A = Db → Option (A × Db)

abbrev pub in_transaction : {A : Type 0} → Option (A × Db) → World → Result Status A × World
in_transaction none w = (err storage_unavailable, w)
in_transaction (some (a, db)) w = (ok a, record w { working = db })

abbrev pub on_database : {A : Type 0} → Option (A × Db) → World → Result Status A × World
on_database none w = (err storage_unavailable, w)
on_database (some (a, db)) w = (ok a, record w { committed = db })

-- A statement of the open transaction.
unfoldable pub statement : {A : Type 0} → Effect A → Exec A
statement effect w =
    if fault_now w.faults
    then (err storage_unavailable, tick w)
    else in_transaction (effect w.working) (tick w)

-- A statement outside any transaction.
unfoldable pub direct : {A : Type 0} → Effect A → Exec A
direct effect w =
    if fault_now w.faults
    then (err storage_unavailable, tick w)
    else on_database (effect w.committed) (tick w)

-- A statement that only reads.
abbrev pub reading : {A : Type 0} → (Db → A) → Effect A
reading f db = some (f db, db)

unfoldable pub begin : Exec (Unit {0})
begin w =
    if fault_now w.faults
    then (err storage_unavailable, tick w)
    else (ok tt, record (tick w) { working = w.committed; locks = [] })

unfoldable pub commit : Exec (Unit {0})
commit w =
    if fault_now w.faults
    then (err storage_unavailable, tick w)
    else (ok tt, record (tick w) { committed = w.working })

-- `pg_advisory_xact_lock` and its shared form.
unfoldable pub lock_path : Text → Bool → Exec (Unit {0})
lock_path path exclusive w =
    if fault_now w.faults
    then (err storage_unavailable, tick w)
    else (ok tt, record (tick w) { locks = w.locks ++ ((path, exclusive) ∷ []) })

-- `nextval` of the sequence, which stays advanced whatever becomes of the transaction.
unfoldable pub nextval : Exec ℕ
nextval w =
    if fault_now w.faults
    then (err storage_unavailable, tick w)
    else (ok w.next_content_id, record (tick w) { next_content_id = w.next_content_id + 1 })

abbrev pub take_bytes : List (List ℕ) → World → Result Status (Option (List ℕ)) × World
take_bytes [] w = (ok none, w)
take_bytes (bytes ∷ rest) w = (ok (some bytes), record w { entropy = rest })

-- Bytes from the random source.
unfoldable pub draw : Exec (Option (List ℕ))
draw w = take_bytes w.entropy w

-- `let _ = …`: the outcome is dropped, its effect is kept.
abbrev forget : {A : Type 0} → Result Status A × World → Result Status (Unit {0}) × World
forget (_, w) = (ok tt, w)

unfoldable pub ignoring : {A : Type 0} → Exec A → Exec (Unit {0})
ignoring m w = forget (m w)
