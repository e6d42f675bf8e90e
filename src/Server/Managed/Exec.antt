-- ===== src/Server/Managed/Exec.antt =====
-- What an operation on managed connections runs on: the tables, the identity provider, a clock, and
-- what else happens meanwhile. A transaction works on a copy of the tables, which the commit puts
-- in force; an error drops it.
pub mod Rules
pub mod Phases
use sovereign_config.Prelude.{
  ℕ, zero, suc, ◌+◌, ◌-◌, ◌*◌, ◌/◌, ◌%◌, ◌^◌, ◌≤◌, ◌<◌, min, max, String, ◌≡◌, refl, sym, ap, ◌∙◌,
  subst, ◌≡⟨◌⟩◌, ◌∎, ◌≢◌, ◌↔◌, ◌⊎◌, inl, inr, Bool, true, false, not, ◌&&◌, ◌||◌, Option, none,
  some, List, [], ◌∷◌, ◌++◌, map, append_assoc, append-nil, arith, ltb, leb, ◌==◌, if◌then◌else◌,
  ==_iff, Bool-cases, Option-cases, is_some, is_none, get_or, All, Any, here, ok, err, there,
  length, is_empty, take, drop, get_elem?, all, any, keep_if, length-append, length-take-le,
  take-append_length, drop-append_length, take-append-drop, all-append, all_iff, any_sound,
  any_complete, any-not, All-append, All-left, All-right, All-keep_if, All-map_of, insert_by,
  sort_by, find, filter_map, All-sort_by, All-filter_map, Text, codes, slash, text_eq, text_eq_refl,
  text_eq_sound, text_eq_iff, lower, fold, eq_ignore_ascii_case, strip_prefix, starts_with,
  contains, extend_head, split, trim_start_matches, join, rsplit_once, is_ascii_lowercase,
  is_ascii_uppercase, is_ascii_alphabetic, is_ascii_digit, is_control, concat, decimal_digits,
  decimal, text_le, Result, ok_or, map_err, is_ok, map_err-eq-ok, ok_or-eq-ok, Result-cases,
  lower_idem, lower-eq_slash, fold_idem, fold-append, length-fold, strip_prefix-append,
  strip_prefix_sound, starts_with-append, starts_with_sound, extend_head-map-fold, split-fold,
  split-ne-nil, join-split, split_part, split-append, split_free, contains-append,
}
use sovereign_config.Server.Rpc.{Status, storage_unavailable, OffsetDateTime}
use sovereign_config.Server.Audit.Store.{EventRow}
use sovereign_config.Server.Managed.Provider.{ProviderError, Answer}

-- A row of `managed_connections`.
pub record ConnectionRow : Type 0 where
  pub connection_id : Text
  pub display_name : Text
  pub root : Text
  pub provider_user_id : Option Text
  pub provider_user_uid : Option Text
  pub credential_identifier : Option Text
  pub state : Text
  pub permissions : Text
  pub created_at : OffsetDateTime
  pub updated_at : OffsetDateTime

pub record Tables : Type 0 where
  pub connections : List ConnectionRow
  pub events : List EventRow

-- What other operations do before a step of this one, and how long they take.
pub record Meanwhile (P : Type 0) : Type 0 where
  pub elapsed : ℕ
  pub change_tables : Tables → Tables
  pub change_provider : P → P

-- `others` says what happens before each access of the database outside the open transaction; past
-- its end nothing does. `faults` says of each statement whether it fails.
pub record World (P : Type 0) : Type 0 where
  pub committed : Tables
  pub working : Tables
  pub provider : P
  pub now : OffsetDateTime
  pub others : List (Meanwhile P)
  pub faults : List Bool
  pub entropy : List (List ℕ)

abbrev pub fault_now : List Bool → Bool
fault_now [] = false
fault_now (fault ∷ faults) = fault

abbrev pub faults_later : List Bool → List Bool
faults_later [] = []
faults_later (fault ∷ faults) = faults

-- What a statement makes of the tables; `none` is a refused constraint.
abbrev pub Effect : Type 0 → Type 0
Effect A = Tables → Option (A × Tables)

abbrev pub reading : {A : Type 0} → (Tables → A) → Effect A
reading f tables = some (f tables, tables)

abbrev pub Exec : Type 0 → Type 0 → Type 0
Exec P A = World P → Result Status A × World P

module _ {P : Type 0} where
  unfoldable pub pure : {A : Type 0} → A → Exec P A
  pure a w = (ok a, w)

  unfoldable pub lift : {A : Type 0} → Result Status A → Exec P A
  lift r w = (r, w)

  abbrev pub continue_with :
      {A B : Type 0} → (A → Exec P B) → Result Status A × World P → Result Status B × World P
  continue_with f (ok a, w) = f a w
  continue_with f (err e, w) = (err e, w)

  infixl 5 ◌>>=◌
  unfoldable pub ◌>>=◌ : {A B : Type 0} → Exec P A → (A → Exec P B) → Exec P B
  ◌>>=◌ m f w = continue_with f (m w)

  abbrev pub tick : World P → World P
  tick w = record w { faults = faults_later w.faults }

  abbrev pub happens : List (Meanwhile P) → World P → World P
  happens [] w = w
  happens (m ∷ later) w = record w {
    committed = m.change_tables w.committed;
    provider = m.change_provider w.provider;
    now = w.now + m.elapsed;
    others = later;
  }

  -- What the others do next.
  unfoldable pub meanwhile : World P → World P
  meanwhile w = happens w.others w

  abbrev pub in_transaction :
      {A : Type 0} → Option (A × Tables) → World P → Result Status A × World P
  in_transaction none w = (err storage_unavailable, w)
  in_transaction (some (a, tables)) w = (ok a, record w { working = tables })

  abbrev pub on_database : {A : Type 0} → Option (A × Tables) → World P → Result Status A × World P
  on_database none w = (err storage_unavailable, w)
  on_database (some (a, tables)) w = (ok a, record w { committed = tables })

  -- A statement of the open transaction.
  unfoldable pub statement : {A : Type 0} → Effect A → Exec P A
  statement effect w =
      if fault_now w.faults
      then (err storage_unavailable, tick w)
      else in_transaction (effect w.working) (tick w)

  -- A wait, during which the others go on.
  unfoldable pub pause : Exec P (Unit {0})
  unfolding meanwhile
  pause w = (ok tt, meanwhile w)

  abbrev pub run_direct : {A : Type 0} → Effect A → World P → Result Status A × World P
  run_direct effect w =
      if fault_now w.faults
      then (err storage_unavailable, tick w)
      else on_database (effect w.committed) (tick w)

  -- A statement outside any transaction.
  unfoldable pub direct : {A : Type 0} → Effect A → Exec P A
  unfolding meanwhile
  direct effect w = run_direct effect (meanwhile w)

  abbrev pub run_begin : World P → Result Status (Unit {0}) × World P
  run_begin w =
      if fault_now w.faults
      then (err storage_unavailable, tick w)
      else (ok tt, record (tick w) { working = w.committed })

  unfoldable pub begin : Exec P (Unit {0})
  unfolding meanwhile
  begin w = run_begin (meanwhile w)

  unfoldable pub commit : Exec P (Unit {0})
  commit w =
      if fault_now w.faults
      then (err storage_unavailable, tick w)
      else (ok tt, record (tick w) { committed = w.working })

  -- `OffsetDateTime::now_utc`
  unfoldable pub now_utc : Exec P OffsetDateTime
  now_utc w = (ok w.now, w)

  abbrev pub after_call :
      {A : Type 0} → Answer P A → World P → Result Status (Result ProviderError A) × World P
  after_call answer w = (ok answer.0, record w { provider = answer.1 })

  -- A call on the identity provider; its failure is a value that the caller looks at.
  unfoldable pub call : {A : Type 0} → (P → Answer P A) → Exec P (Result ProviderError A)
  call ask w = after_call (ask w.provider) w

  abbrev pub after_draw :
      {A : Type 0} → Result Status A × List (List ℕ) → World P → Result Status A × World P
  after_draw drawn w = (drawn.0, record w { entropy = drawn.1 })

  -- A draw from the random source.
  unfoldable pub draw : {A : Type 0} → (List (List ℕ) → Result Status A × List (List ℕ)) → Exec P A
  draw take_from w = after_draw (take_from w.entropy) w

  abbrev pub caught :
      {A : Type 0} → Result Status A × World P → Result Status (Result Status A) × World P
  caught (r, w) = (ok r, w)

  -- The outcome of `m` as a value, for a caller that handles its failure.
  unfoldable pub attempt : {A : Type 0} → Exec P A → Exec P (Result Status A)
  attempt m w = caught (m w)
