-- ===== src/Server/Managed/Store/Tracking.antt =====
-- managed/store.rs: which accounts the rows lead to, and that the statements on one connection keep
-- the rows of the others.
use sovereign_config.Prelude.{
  ◌≡◌, refl, ap, ◌∙◌, subst, inl, inr, Bool, true, false, not, some, List, [], ◌∷◌, arith,
  Bool-cases, Any, here, there, any, keep_if, find, Text,
}
use sovereign_config.Core.Managed.{ConnectionId}
use sovereign_config.Server.Managed.Identity.{managed_username}
use sovereign_config.Server.Managed.Exec.{ConnectionRow, Tables}
use sovereign_config.Server.Managed.Store.{names, update_where}
use sovereign_config.Server.Managed.Store.Rows.{row_of, find-update_where, row_of-named}

-- The username under which a revocation of the row looks for its account.
abbrev pub username_of : ConnectionRow → Text
username_of row = managed_username row.connection_id row.display_name

abbrev pub Tracked : Text → List ConnectionRow → Type 0
Tracked u rows = Any (λ (row : ConnectionRow). username_of row ≡ u) rows

-- A row of another connection than `id` leads to the account.
abbrev pub Elsewhere : ConnectionId → Text → List ConnectionRow → Type 0
Elsewhere id u rows =
    Any (λ (row : ConnectionRow). (names id row ≡ false) × (username_of row ≡ u)) rows

pub Elsewhere-Tracked :
    (id : ConnectionId) (u : Text) {rows : List ConnectionRow}
    → Elsewhere id u rows
    → Tracked u rows
Elsewhere-Tracked id u (here (apart, e)) = here e
Elsewhere-Tracked id u (there later) = there (Elsewhere-Tracked id u later)

-- The tables during an operation on `id`: its row has the display name `name`, and what other rows
-- led to when the row was inserted they still lead to.
pub record Held (id : ConnectionId) (name : Text) (Others : Text → Type 0) (tables : Tables)
    : Type 0 where
  pub row : ConnectionRow
  pub found : row_of id tables.connections ≡ some row
  pub named : row.display_name ≡ name
  pub others : (u : Text) → Others u → Elsewhere id u tables.connections

pub row_of-Tracked :
    (id : ConnectionId) (rows : List ConnectionRow) (row : ConnectionRow)
    → row_of id rows ≡ some row
    → Tracked (username_of row) rows
unfolding find
row_of-Tracked id [] row h = absurd (cc)
row_of-Tracked id (r ∷ rows) row h = elim (Bool-cases (names id r)) [
  | inl e ↦ let same : r ≡ row = ground arith in here (ap username_of same)
  | inr e ↦ there (row_of-Tracked id rows row (ground arith))
]

pub Held-Tracked :
    (id : ConnectionId) (name : Text) (Others : Text → Type 0) (tables : Tables)
    → Held id name Others tables
    → Tracked (managed_username id name) tables.connections
Held-Tracked id name Others tables h =
    subst (λ (u : Text). Tracked u tables.connections) same
      (row_of-Tracked id tables.connections h.row h.found)
  where
    same : username_of h.row ≡ managed_username id name
    same = rw (row_of-named id tables.connections h.row h.found) (rw h.named refl)

module _ (id : ConnectionId) (chosen : ConnectionRow → Bool)
    (change : ConnectionRow → ConnectionRow)
    (mine : (row : ConnectionRow) → chosen row ≡ true → names id row ≡ true)
    (same_id : (row : ConnectionRow) → (change row).connection_id ≡ row.connection_id)
    (same_name : (row : ConnectionRow) → (change row).display_name ≡ row.display_name) where
  Elsewhere-update_where :
      (u : Text) {rows : List ConnectionRow}
      → Elsewhere id u rows
      → Elsewhere id u (update_where chosen change rows)
  unfolding update_where
  Elsewhere-update_where u {rows = row ∷ rows} (here (apart, e)) =
      let kept : chosen row ≡ false = ground (arith, mine row, apart) in here (rw kept (apart, e))
  Elsewhere-update_where u (there later) = there (Elsewhere-update_where u later)

  pub Held-update_where :
      (name : Text) (Others : Text → Type 0) (tables : Tables)
      → Held id name Others tables
      → Held id name Others
          (record tables { connections = update_where chosen change tables.connections })
  Held-update_where name Others tables h = elim (Bool-cases (chosen h.row)) [
    | inl e ↦ record {
      row = change h.row;
      found =
          find-update_where change same_id id chosen tables.connections ∙ (rw h.found (rw e refl));
      named = same_name h.row ∙ h.named;
      others = λ u o. Elsewhere-update_where u (h.others u o);
    }
    | inr e ↦ record {
      row = h.row;
      found =
          find-update_where change same_id id chosen tables.connections ∙ (rw h.found (rw e refl));
      named = h.named;
      others = λ u o. Elsewhere-update_where u (h.others u o);
    }
  ]

pub Elsewhere-keep_if :
    (id : ConnectionId) (u : Text) {rows : List ConnectionRow}
    → Elsewhere id u rows
    → Tracked u (keep_if (λ row. not (names id row)) rows)
unfolding keep_if
Elsewhere-keep_if id u (here (apart, e)) = rw apart (here e)
Elsewhere-keep_if id u {rows = row ∷ rows} (there later) = elim (Bool-cases (names id row)) [
  | inl e ↦ rw e (Elsewhere-keep_if id u later)
  | inr e ↦ rw e (there (Elsewhere-keep_if id u later))
]

-- Before the row of `id` is inserted, every row is another's.
pub Tracked-Elsewhere :
    (id : ConnectionId) (u : Text) {rows : List ConnectionRow}
    → any (names id) rows ≡ false
    → Tracked u rows
    → Elsewhere id u rows
unfolding any
Tracked-Elsewhere id u {rows = row ∷ rows} free (here e) = here (ground arith, e)
Tracked-Elsewhere id u {rows = row ∷ rows} free (there later) =
    there (Tracked-Elsewhere id u (ground arith) later)
Tracked-Elsewhere id u {rows = []} free tracked = elim tracked [ ]
