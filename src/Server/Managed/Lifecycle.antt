-- ===== src/Server/Managed/Lifecycle.antt =====
-- The lifecycle of a connection as a step relation on the state that its row stores, `none` where
-- there is no row; and that each statement of managed/store.rs makes such a step.
pub mod Rules
use sovereign_config.Prelude.{
  ℕ, zero, suc, ◌+◌, ◌-◌, ◌*◌, ◌/◌, ◌%◌, ◌^◌, ◌≤◌, ◌<◌, min, max, String, ◌≡◌, refl, sym, ap, ◌∙◌,
  subst, ◌≡⟨◌⟩◌, ◌∎, ◌≢◌, ◌↔◌, ◌⊎◌, inl, inr, Bool, true, false, not, ◌&&◌, ◌||◌, Option, none,
  some, List, [], ◌∷◌, ◌++◌, map, append_assoc, append-nil, arith, ltb, leb, ◌==◌, if◌then◌else◌,
  ==_iff, Bool-cases, Option-cases, is_some, is_none, get_or, All, Any, here, ok, err, there,
  length, is_empty, take, drop, get_elem?, all, any, keep_if, length-append, length-take-le,
  take-append_length, drop-append_length, take-append-drop, all-append, all_iff, any_sound,
  any_complete, any-not, All-append, All-left, All-right, All-keep_if, All-map_of, insert_by,
  sort_by, find, filter_map, All-sort_by, All-filter_map, Text, codes, slash, text_eq, text_eq_refl,
  text_eq_sound, text_eq_iff, lower, fold, eq_ignore_ascii_case, strip_prefix, starts_with,
  contains, extend_head, split, trim_start_matches, join, rsplit_once, is_ascii_lowercase,
  is_ascii_uppercase, is_ascii_alphabetic, is_ascii_digit, is_control, concat, decimal_digits,
  decimal, text_le, Result, ok_or, map_err, is_ok, map_err-eq-ok, ok_or-eq-ok, Result-cases,
  lower_idem, lower-eq_slash, fold_idem, fold-append, length-fold, strip_prefix-append,
  strip_prefix_sound, starts_with-append, starts_with_sound, extend_head-map-fold, split-fold,
  split-ne-nil, join-split, split_part, split-append, split_free, contains-append,
}
use sovereign_config.Core.Managed.{
  ConnectionId, ManagedConnectionState, state_text, provisioning, active, rotation_unknown,
  revoking, cleanup_required,
}
use sovereign_config.Server.Rpc.{OffsetDateTime}
use sovereign_config.Server.Managed.Exec.{ConnectionRow, Tables, Effect}
use sovereign_config.Server.Managed.Store.{
  names, stands_in, update_where, with_state, compare_and_set, delete_where, update_connection,
  insert_row,
}
use sovereign_config.Server.Managed.Store.Rows.{
  row_of, row_state, state_at, changed_if, find-update_where, find-keep_if, find-any, row_of-named,
  names_iff,
}

abbrev pub in_state : ManagedConnectionState → Option Text
in_state state = some (state_text state)

-- One step; none of them makes a connection.
pub data Move : Option Text → Option Text → Type 0 where
  activated : {a b : Option Text} → a ≡ in_state provisioning → b ≡ in_state active → Move a b
  stranded :
      {a b : Option Text} → a ≡ in_state provisioning → b ≡ in_state cleanup_required → Move a b
  rotating :
      {a b : Option Text}
      → (a ≡ in_state active) ⊎ (a ≡ in_state rotation_unknown)
      → b ≡ in_state rotation_unknown
      → Move a b
  restored : {a b : Option Text} → a ≡ in_state rotation_unknown → b ≡ in_state active → Move a b
  lost :
      {a b : Option Text} → a ≡ in_state rotation_unknown → b ≡ in_state cleanup_required → Move a b
  claimed : {a b : Option Text} {row : Text} → a ≡ some row → b ≡ in_state revoking → Move a b
  discarded : {a b : Option Text} → b ≡ none → Move a b

-- Any number of steps.
pub data Moves : Option Text → Option Text → Type 0 where
  stays : {a b : Option Text} → a ≡ b → Moves a b
  moves : {a b c : Option Text} → Move a b → Moves b c → Moves a c

pub Moves-trans : {a b c : Option Text} → Moves a b → Moves b c → Moves a c
Moves-trans {a} {b} {c} (stays e) n = subst (λ (x : Option Text). Moves x c) (sym e) n
Moves-trans (moves m rest) n = moves m (Moves-trans rest n)

pub one-Move : {a b : Option Text} → Move a b → Moves a b
one-Move m = moves m (stays refl)

-- A step leads from a claimed or absent connection only to such.
ended-Move :
    {a b : Option Text}
    → Move a b
    → (a ≡ in_state revoking) ⊎ (a ≡ none)
    → (b ≡ in_state revoking) ⊎ (b ≡ none)
ended-Move (activated from into) h = absurd (ground (arith, from, h))
ended-Move (stranded from into) h = absurd (ground (arith, from, h))
ended-Move (rotating from into) h = absurd (ground (arith, from, h))
ended-Move (restored from into) h = absurd (ground (arith, from, h))
ended-Move (lost from into) h = absurd (ground (arith, from, h))
ended-Move (claimed from into) h = inl into
ended-Move (discarded into) h = inr into

pub ended-Moves :
    {a b : Option Text}
    → Moves a b
    → (a ≡ in_state revoking) ⊎ (a ≡ none)
    → (b ≡ in_state revoking) ⊎ (b ≡ none)
ended-Moves (stays e) h = subst (λ (x : Option Text). (x ≡ in_state revoking) ⊎ (x ≡ none)) e h
ended-Moves (moves m rest) h = ended-Moves rest (ended-Move m h)

-- Every connection moves from the one tables to the other.
pub record AllMove (before after : Tables) : Type 0 where
  pub at : (id : ConnectionId) → Moves (state_at id before) (state_at id after)

pub AllMove-refl : (tables : Tables) → AllMove tables tables
AllMove-refl tables = record { at = λ id. stays refl }

pub AllMove-trans : {a b c : Tables} → AllMove a b → AllMove b c → AllMove a c
AllMove-trans m n = record { at = λ id. Moves-trans (m.at id) (n.at id) }

-- An update of some rows, each of them a step.
pub AllMove-update_where :
    (chosen : ConnectionRow → Bool) (change : ConnectionRow → ConnectionRow)
    (keeps : (row : ConnectionRow) → (change row).connection_id ≡ row.connection_id)
    (tables : Tables)
    → ((id : ConnectionId) (row : ConnectionRow)
        → row_of id tables.connections ≡ some row
        → chosen row ≡ true
        → Moves (some row.state) (some (change row).state))
    → AllMove tables (record tables { connections = update_where chosen change tables.connections })
unfolding state_at
AllMove-update_where chosen change keeps tables each = record {
  at = λ id.
      subst
        (λ (found : Option ConnectionRow).
          Moves (row_state (row_of id tables.connections)) (row_state found))
        (sym (find-update_where change keeps id chosen tables.connections))
        (changed (row_of id tables.connections) (λ row e. each id row e));
}
  where
    changed :
        (found : Option ConnectionRow)
        → ((row : ConnectionRow)
            → found ≡ some row
            → chosen row ≡ true
            → Moves (some row.state) (some (change row).state))
        → Moves (row_state found) (row_state (changed_if chosen change found))
    changed none k = stays refl
    changed (some row) k = elim (Bool-cases (chosen row)) [
      | inl e ↦ rw e (k row refl e)
      | inr e ↦ rw e (stays refl)
    ]

pub AllMove-compare_and_set :
    (id : ConnectionId) (expected state : ManagedConnectionState) (now : OffsetDateTime)
    (tables : Tables)
    → Move (in_state expected) (in_state state)
    → AllMove tables (record tables {
      connections =
          update_where
            (stands_in id expected)
            (with_state (state_text state) now)
            tables.connections;
    })
AllMove-compare_and_set id expected state now tables m =
    AllMove-update_where _ _ (λ row. refl) tables
      (λ other row e chosen.
        subst (λ (t : Text). Moves (some t) (in_state state)) (sym (stood row chosen)) (one-Move m))
  where
    stood :
        (row : ConnectionRow) → stands_in id expected row ≡ true → row.state ≡ state_text expected
    stood row chosen =
        text_eq_sound row.state (state_text expected) (unfold stands_in in ground arith)

-- An update that leaves the state alone.
pub AllMove-annotate :
    (id : ConnectionId) (change : ConnectionRow → ConnectionRow)
    (keeps : (row : ConnectionRow) → (change row).connection_id ≡ row.connection_id)
    (same : (row : ConnectionRow) → (change row).state ≡ row.state) (tables : Tables)
    → AllMove tables
        (record tables { connections = update_where (names id) change tables.connections })
AllMove-annotate id change keeps same tables =
    AllMove-update_where _ change keeps tables
      (λ other row e chosen. stays (ap (λ (t : Text). some t) (sym (same row))))

pub AllMove-delete :
    (id : ConnectionId) (tables : Tables)
    → AllMove tables
        (record tables { connections = keep_if (λ row. not (names id row)) tables.connections })
unfolding state_at
AllMove-delete id tables = record {
  at = λ other.
      subst
        (λ (found : Option ConnectionRow).
          Moves (row_state (row_of other tables.connections)) (row_state found))
        (sym (find-keep_if id other tables.connections))
        (gone (text_eq other id) (row_of other tables.connections));
}
  where
    gone :
        (b : Bool) (found : Option ConnectionRow)
        → Moves (row_state found) (row_state (if b then none else found))
    gone true found = one-Move (discarded refl)
    gone false found = stays refl
