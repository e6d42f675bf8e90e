-- ===== src/Server/Managed/Service/Marking.antt =====
-- managed/service.rs `begin_rotation` and `claim_for_revocation`: the row that a transaction locks and
-- marks takes a step of its lifecycle.
use sovereign_config.Prelude.{
  ◌≡◌, refl, sym, ap, ◌∙◌, subst, ◌⊎◌, inl, inr, Bool, true, false, Option, none, some, arith,
  is_some, ok, err, find, Text, Result, map_err, map_err-eq-ok, Result-cases,
}
use sovereign_config.Core.Path.{ConfigPath, parse}
use sovereign_config.Core.Managed.{
  ConnectionId, ManagedConnectionState, state_text, parse_state, provisioning, active,
  rotation_unknown, revoking, cleanup_required,
}
use sovereign_config.Core.Managed.Storage.{parse_state_sound}
use sovereign_config.Server.Auth.{AuthenticatedPrincipal}
use sovereign_config.Server.Rpc.{Status, CallContext, OffsetDateTime}
use sovereign_config.Server.Managed.Identity.{internal_error}
use sovereign_config.Server.Managed.Exec.{
  World, Tables, ConnectionRow, Exec, pure, lift, ◌>>=◌, tick, reading, statement, commit, now_utc,
}
use sovereign_config.Server.Managed.Exec.Rules.{
  Triple, Triple-bind, Triple-pure, Triple-lift, Triple-statement, Triple-now_utc,
}
use sovereign_config.Server.Managed.Lifecycle.{
  in_state, Moves, rotating, claimed, one-Move, AllMove, AllMove-trans, AllMove-update_where,
}
use sovereign_config.Server.Managed.Store.{
  names, update_where, lock_manageable, mark_rotation_unknown, mark_revoking, update_connection,
  check_manageable, with_state,
}
use sovereign_config.Server.Managed.Store.Rows.{row_of, names_iff, row_of-named}
use sovereign_config.Server.Managed.Lifecycle.Rules.{
  Out, In, Locked, Stays, Stays-pure, Stays-lift, Stays-bind, Stays-begin, In-commit, failed-In,
}
use sovereign_config.Server.Managed.Store.Lifecycle.{some_eq}
use sovereign_config.Server.Managed.Wire.{conflict_error}
use sovereign_config.Server.Managed.Provisioning.{ManagedConnectionsService}
use sovereign_config.Server.Managed.Service
use sovereign_config.Server.Managed.Service.{
  not_permitted, create, may_rotate, begin_rotation, credential_verdict, settle_failed_rotation,
  report_rotated, rotate, claim_for_revocation, revocation_target, delete_account_confirmed,
  delete_target, revoke,
}

-- The row that passes the check of the caller is the one that was read.
pub granted_row :
    (caller : AuthenticatedPrincipal) (found : Option ConnectionRow) (row : ConnectionRow)
    → check_manageable caller found ≡ ok row
    → found ≡ some row
unfolding check_manageable
granted_row caller none row h = absurd (cc)
granted_row caller (some r) row h = elim (Result-cases (parse r.root)) [
  | inl (root, e) ↦ ground (arith, e, h)
  | inr (failure, e) ↦ absurd (ground (arith, e, h))
]

abbrev Rotatable : ConnectionRow → Type 0
Rotatable row = (some row.state ≡ in_state active) ⊎ (some row.state ≡ in_state rotation_unknown)

module _ {P : Type 0} (service : ManagedConnectionsService P) (start : Tables) where
  -- Between the lock and the commit, with the row that was read.
  Stays-Locked :
      {B : Type 0} (id : ConnectionId) (caller : AuthenticatedPrincipal)
      (f : ConnectionRow → Exec P B)
      → ((row : ConnectionRow) → Triple (Locked start id row) (f row) (λ _. Out start) (Out start))
      → Triple (In start) (lock_manageable id caller >>= f) (λ _. Out start) (Out start)
  unfolding lock_manageable
  Stays-Locked id caller f kf =
      Triple-bind (λ row. Locked start id row) _ f
        (Triple-bind (λ found w. In start w × (row_of id w.working.connections ≡ found))
          (statement (reading (λ tables. find (names id) tables.connections))) _
          (Triple-statement (reading (λ tables. find (names id) tables.connections))
            (λ w found tables i e. read_row w found tables i e) (failed-In start))
          (λ found. checked found))
        kf
    where
      read_row :
          (w : World P) (found : Option ConnectionRow) (tables : Tables)
          → In start w
          → ◌≡◌ {A = Option (Option ConnectionRow × Tables)}
              (some (row_of id w.working.connections, w.working))
              (some (found, tables))
          → In start (record (tick w) { working = tables }) × (row_of id tables.connections ≡ found)
      read_row w found tables i e =
          let same : w.working ≡ tables = cc in
          let read : row_of id w.working.connections ≡ found = cc in
          (
            record {
              out = record { others = i.out.others; moved = i.out.moved };
              pending = subst (λ (t : Tables). AllMove w.committed t) same i.pending;
            },
            subst (λ (t : Tables). row_of id t.connections ≡ found) same read,
          )

      checked :
          (found : Option ConnectionRow)
          → Triple
              (λ w. In start w × (row_of id w.working.connections ≡ found))
              (lift {P = P} (check_manageable caller found))
              (λ row. Locked start id row)
              (Out start)
      checked found =
          Triple-lift (check_manageable caller found)
            (λ row w h (i, e). record { inside = i; found = e ∙ granted_row caller found row h })
            (λ w (i, e). record { others = i.out.others; moved = i.out.moved })

  failed-Locked :
      (id : ConnectionId) (row : ConnectionRow) (w : World P) → Locked start id row w → Out start w
  failed-Locked id row w l = record { others = l.inside.out.others; moved = l.inside.out.moved }

  module _ {B : Type 0} (id : ConnectionId) (row : ConnectionRow) where
    Locked-lift :
        {A : Type 0} (r : Result Status A) (f : A → Exec P B)
        → ((a : A) → r ≡ ok a → Triple (Locked start id row) (f a) (λ _. Out start) (Out start))
        → Triple (Locked start id row) (lift r >>= f) (λ _. Out start) (Out start)
    Locked-lift r f k =
        Triple-bind (λ a w. Locked start id row w × (r ≡ ok a)) (lift r) f
          (Triple-lift r (λ a w h l. (l, h)) (failed-Locked id row))
          (λ a. record { at = λ w (l, h). (k a h).at w l })

    Locked-require :
        (allowed : Bool) (f : Unit {0} → Exec P B)
        → (allowed ≡ true → Triple (Locked start id row) (f tt) (λ _. Out start) (Out start))
        → Triple
            (Locked start id row)
            (Service.require_rotatable service allowed >>= f)
            (λ _. Out start)
            (Out start)
    Locked-require true f k =
        Triple-bind (λ _. Locked start id row) (pure tt) f (Triple-pure tt (λ w l. l)) (λ _. k refl)
    Locked-require false f k = Locked-lift (err conflict_error) f (λ a h. absurd (cc))

    Locked-mark :
        (state : ManagedConnectionState) (f : Unit {0} → Exec P B)
        → Moves (some row.state) (in_state state)
        → Triple (In start) (f tt) (λ _. Out start) (Out start)
        → Triple
            (Locked start id row)
            ((now_utc >>= λ now.
                statement (update_connection id (with_state (state_text state) now)))
              >>= f)
            (λ _. Out start)
            (Out start)
    unfolding update_connection
    Locked-mark state f m k =
        Triple-bind (λ _. In start) _ f
          (Triple-bind (λ now w. Locked start id row w) now_utc _ (Triple-now_utc (λ w l. l))
            (λ now.
              Triple-statement (update_connection id (with_state (state_text state) now))
                (λ w a tables l e. record {
                  out = record { others = l.inside.out.others; moved = l.inside.out.moved };
                  pending = AllMove-trans l.inside.pending (
                      subst (λ (t : Tables). AllMove w.working t) (some_eq e)
                        (marked now w.working l.found));
                })
                (λ w l. failed-In start w l.inside)))
          (λ _. k)
      where
        marked :
            (now : OffsetDateTime) (tables : Tables)
            → row_of id tables.connections ≡ some row
            → AllMove tables (record tables {
              connections =
                  update_where (names id) (with_state (state_text state) now) tables.connections;
            })
        marked now tables found =
            AllMove-update_where (names id) (with_state (state_text state) now) (λ other. refl)
              tables
              (λ other r e chosen.
                let named : r.connection_id ≡ other = row_of-named other tables.connections r e in
                let mine : r.connection_id ≡ id = (names_iff id r).0 chosen in
                let same : r ≡ row = cc in
                subst (λ (x : ConnectionRow). Moves (some x.state) (in_state state)) (sym same) m)

  Rotatable-row :
      (row : ConnectionRow) (state : ManagedConnectionState) (now : OffsetDateTime)
      → map_err (parse_state row.state) internal_error ≡ ok state
      → may_rotate service state row.updated_at now ≡ true
      → Rotatable row
  unfolding may_rotate
  Rotatable-row row active now h r =
      inl (ap (λ (t : Text). some t) (parse_state_sound row.state active (map_err-eq-ok _ _ h)))
  Rotatable-row row rotation_unknown now h r = inr (
      ap (λ (t : Text). some t)
        (parse_state_sound row.state rotation_unknown (map_err-eq-ok _ _ h)))
  Rotatable-row row provisioning now h r = absurd (cc)
  Rotatable-row row revoking now h r = absurd (cc)
  Rotatable-row row cleanup_required now h r = absurd (cc)

  pub Stays-begin_rotation :
      (id : ConnectionId) (context : CallContext) → Stays start (begin_rotation service id context)
  unfolding begin_rotation mark_rotation_unknown
  Stays-begin_rotation id context = Stays-bind start _ _ (Stays-lift start _) (λ caller.
      Stays-begin start _ (
        Stays-Locked id caller _ (λ row. Locked-lift id row _ _ (λ root _.
          Locked-lift id row _ _ (λ state parsed.
            Triple-bind (λ _. Locked start id row) now_utc _ (Triple-now_utc (λ w l. l))
              (λ now.
                Locked-require id row (may_rotate service state row.updated_at now)
                  (λ _.
                    Service.require_rotatable service (is_some row.credential_identifier) >>= λ _.
                    marking row root)
                  (λ may.
                    Locked-require id row (is_some row.credential_identifier)
                      (λ _. marking row root)
                      (λ _.
                        Locked-mark id row rotation_unknown (λ _. commit >>= λ _. pure (row, root))
                          (one-Move (rotating (Rotatable-row row state now parsed may) refl))
                          (In-commit start (λ _. pure (row, root))
                            (Stays-pure start (row, root)))))))))))
    where
      marking : ConnectionRow → ConfigPath → Exec P (ConnectionRow × ConfigPath)
      marking row root = mark_rotation_unknown id >>= λ _. commit >>= λ _. pure (row, root)

  pub Stays-claim_for_revocation :
      (context : CallContext) (id : ConnectionId)
      → Stays start (claim_for_revocation service context id)
  unfolding claim_for_revocation mark_revoking
  Stays-claim_for_revocation context id = Stays-bind start _ _ (Stays-lift start _) (λ caller.
      Stays-begin start _ (
        Stays-Locked id caller _ (λ row.
          Locked-mark id row revoking (λ _. commit >>= λ _. pure row) (one-Move (claimed refl refl))
            (In-commit start (λ _. pure row) (Stays-pure start row)))))
