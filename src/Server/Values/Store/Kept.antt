-- ===== src/Server/Values/Store/Kept.antt =====
-- values/store.rs: the stored contents that are plain, or secret and sealed for their row, and the
-- statements that keep them so.
use sovereign_config.Prelude.{
  leb, ℕ, ◌≡◌, refl, sym, subst, ==_iff, is_ok, inl, inr, Bool, true, ◌&&◌, ◌||◌, List, [], ◌∷◌,
  arith, ◌==◌, Bool-cases, Option-cases, All, All-keep_if, Text, text_eq, text_eq_refl,
}
use sovereign_config.Server.Rpc.{OffsetDateTime}
use sovereign_config.Server.Audit.Narrative.{plain, secret}
use sovereign_config.Server.Encryption.{Primitives, decrypt}
use sovereign_config.Server.Values.Exec.{Db, ContentRow, statement}
use sovereign_config.Server.Values.Exec.Commits.{Leads, Leads-statement, Keeps}
use sovereign_config.Server.Values.Exec.Steady.{answer_of}
use sovereign_config.Server.Values.Store.{
  content_of, write_content, insert_content, insert_content_row, update_content, update_content_row,
  update_plain_content, update_plain_row, prune_contents,
}

-- What a request may classify a value as.
abbrev pub Classified : Text → Type 0
Classified classification = (text_eq classification plain || text_eq classification secret) ≡ true

module _ (cipher : Primitives) where
  -- A content as it may be stored for a row: plain, or secret and of such a form that the cipher
  -- opens it, for that row's identifier and as a secret.
  abbrev pub kept : ℕ → Text → Text → Bool
  kept id classification stored =
      text_eq classification plain
      || (text_eq classification secret && is_ok (decrypt cipher id classification stored))

  abbrev pub IsKept : List ContentRow → Type 0
  IsKept = All (λ row. kept row.id row.classification row.value ≡ true)

  abbrev pub Sealed : Db → Type 0
  Sealed db = IsKept db.contents

  pub write_content-IsKept :
      (id : ℕ) (value classification : Text) (now : OffsetDateTime) (rows : List ContentRow)
      → kept id classification value ≡ true
      → IsKept rows
      → IsKept (write_content id value classification now rows)
  unfolding write_content
  write_content-IsKept id value classification now [] fine rows_kept = tt
  write_content-IsKept id value classification now (row ∷ rows) fine (row_kept, rows_kept) =
      let rest = write_content-IsKept id value classification now rows fine rows_kept in
      elim (Bool-cases (row.id == id)) [
        | inl e ↦ rw e (
          subst (λ (n : ℕ). kept n classification value ≡ true) (sym ((==_iff row.id id).0 e)) fine,
          rest,
        )
        | inr e ↦ rw e (row_kept, rest)
      ]

  -- A row to be stored, beside the rows that are.
  abbrev pub Ready : ℕ → Text → Text → Db → Type 0
  Ready id classification stored db = Sealed db × (kept id classification stored ≡ true)

  pub Leads-insert_content :
      (id : ℕ) (value classification : Text) (now : OffsetDateTime)
      → Leads
          (Ready id classification value)
          (insert_content id value classification now)
          (λ _. Sealed)
  unfolding insert_content insert_content_row
  Leads-insert_content id value classification now =
      Leads-statement _ (λ db (rows_kept, fine) a db' h.
        elim (Option-cases (content_of id db.contents)) [
          | inr (row, taken) ↦ absurd (ground arith)
          | inl new ↦
              subst Sealed (answer_of (rw (new, insert_content_row) at h)).1 (fine, rows_kept)
        ])

  pub Leads-update_content :
      (id : ℕ) (value classification : Text) (now : OffsetDateTime)
      → Leads
          (Ready id classification value)
          (update_content id value classification now)
          (λ _. Sealed)
  unfolding update_content update_content_row
  Leads-update_content id value classification now =
      Leads-statement _ (λ db (rows_kept, fine) a db' h.
        elim (Option-cases (content_of id db.contents)) [
          | inl missing ↦ absurd (ground arith)
          | inr (row, found) ↦ elim (Bool-cases (leb row.created_at now)) [
            | inl timely ↦
                subst Sealed (answer_of (rw (found, update_content_row, timely) at h)).1
                  (write_content-IsKept id value classification now db.contents fine rows_kept)
            | inr early ↦ absurd (ground (arith, found, early, h))
          ]
        ])

  pub Keeps-update_plain_content :
      (id : ℕ) (value : Text) (now : OffsetDateTime)
      → Keeps Sealed (update_plain_content id value now)
  unfolding update_plain_content update_plain_row
  Keeps-update_plain_content id value now = record {
    leads = Leads-statement _ (λ db rows_kept a db' h.
        elim (Option-cases (content_of id db.contents)) [
          | inl missing ↦ absurd (ground arith)
          | inr (row, found) ↦ elim (Bool-cases (leb row.created_at now)) [
            | inl timely ↦
                subst Sealed (answer_of (rw (found, update_plain_row, timely) at h)).1
                  (write_content-IsKept id value plain now db.contents kept_plain rows_kept)
            | inr early ↦ absurd (ground (arith, found, early, h))
          ]
        ]);
  }
    where
      kept_plain : kept id plain value ≡ true
      kept_plain = rw (text_eq_refl plain) refl

  pub Keeps-prune_contents : (ids : List ℕ) → Keeps Sealed (statement (prune_contents ids))
  unfolding prune_contents
  Keeps-prune_contents ids = record {
    leads = Leads-statement _ (λ db rows_kept a db' h.
        subst Sealed (answer_of h).1 (All-keep_if _ _ db.contents rows_kept));
  }
