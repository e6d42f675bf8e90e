-- ===== src/Server/Managed/Service/Revocation.antt =====
-- managed/service.rs `revoke`: what its success proves of the account and of the row.
use sovereign_config.Prelude.{
  ℕ, ◌≡◌, refl, sym, ◌∙◌, subst, Bool, true, false, Option, none, some, List, [], ◌∷◌, ok, err,
  find, Text, text_eq_refl, Result, map_err,
}
use sovereign_config.Core.Managed.{ConnectionId, parse_connection_id, revoking, state_text}
use sovereign_config.Server.Audit.Events.{AuditEvent}
use sovereign_config.Server.Audit.Store.{Hash}
use sovereign_config.Server.Rpc.{CallContext, Actor, OffsetDateTime}
use sovereign_config.Server.Managed.Identity.{managed_username}
use sovereign_config.Server.Managed.Provider.{ProviderError, AccountId, CredentialId}
use sovereign_config.Server.Managed.Provider.Contract.{Contract}
use sovereign_config.Server.Managed.Exec.{
  World, Tables, ConnectionRow, Exec, lift, ◌>>=◌, begin, statement, commit, now_utc, reading,
  meanwhile, happens,
}
use sovereign_config.Server.Managed.Exec.Rules.{
  Triple, Outcome, outcome-ok, Triple-bind, Triple-pure, Triple-lift, Triple-call, Triple-statement,
  Triple-begin, Triple-commit, Triple-now_utc,
}
use sovereign_config.Server.Managed.Store
use sovereign_config.Server.Managed.Store.{
  names, account_of, delete_where, delete_connection_recorded, lock_manageable, mark_revoking,
  update_connection, check_manageable, append_event, with_state,
}
use sovereign_config.Server.Managed.Store.Lifecycle.{some_eq}
use sovereign_config.Server.Managed.Store.Rows.{append_event-some, row_of, find-keep_if}
use sovereign_config.Server.Managed.Provisioning.{
  ManagedConnectionsService, credential_is_gone, credential_gone,
}
use sovereign_config.Server.Managed.Provisioning
use sovereign_config.Server.Managed.Service
use sovereign_config.Server.Managed.Service.{
  claim_for_revocation, revocation_target, delete_account_confirmed, delete_target, revoke,
}
use sovereign_config.Server.Managed.Service.Marking.{granted_row}

module _ {P : Type 0} (service : ManagedConnectionsService P) (Live : Text → P → Type 0)
    (Owns : AccountId → Text → Type 0) (contract : Contract service.provider Live Owns)
    (id : ConnectionId) (row : ConnectionRow) (account : AccountId) where
  abbrev Anything : World P → Type 0
  Anything w = Unit {0}

  abbrev Starts : World P → Type 0
  Starts w = (w.others ≡ []) × (row_of id w.committed.connections ≡ some row)

  abbrev Opened : World P → Type 0
  Opened w = (w.others ≡ []) × (row_of id w.working.connections ≡ some row)

  abbrev Alone : World P → Type 0
  Alone w = w.others ≡ []

  Starts-meanwhile : (w : World P) → Starts w → Starts (meanwhile w)
  unfolding meanwhile
  Starts-meanwhile w (alone, found) = subst Starts (sym same) (alone, found)
    where
      same : happens w.others w ≡ w
      same = rw alone refl

  read_row :
      (w : World P) (found : Option ConnectionRow) (tables : Tables)
      → Opened w
      → ◌≡◌ {A = Option (Option ConnectionRow × Tables)}
          (some (row_of id w.working.connections, w.working))
          (some (found, tables))
      → found ≡ some row
  read_row w found tables (alone, held) e = cc

  some_row : {a b : ConnectionRow} → ◌≡◌ {A = Option ConnectionRow} (some a) (some b) → a ≡ b
  some_row h = cc

  claims :
      (context : CallContext)
      → Triple Starts
          (claim_for_revocation service context id)
          (λ claimed w. Alone w × (claimed ≡ row))
          Anything
  unfolding claim_for_revocation lock_manageable mark_revoking
  claims context =
      Triple-bind (λ _. Starts) (lift (Service.principal context)) _
        (Triple-lift _ (λ a w h k. k) (λ w k. tt))
        (λ caller.
          Triple-bind (λ _. Opened) begin _ (Triple-begin (λ w k. Starts-meanwhile w k) (λ w k. tt))
            (λ _.
              Triple-bind (λ claimed w. Alone w × (claimed ≡ row)) _ _
                (Triple-bind (λ found w. Alone w × (found ≡ some row)) _ _
                  (Triple-statement (reading (λ tables. find (names id) tables.connections))
                    (λ w found tables k e. (k.0, read_row w found tables k e)) (λ w k. tt))
                  (λ found.
                    Triple-lift (check_manageable caller found)
                      (λ a w h (alone, e).
                        (alone, some_row (sym (granted_row caller found a h) ∙ e)))
                      (λ w k. tt)))
                (λ claimed.
                  Triple-bind (λ _ w. Alone w × (claimed ≡ row)) _ _
                    (Triple-bind (λ _ w. Alone w × (claimed ≡ row)) now_utc _
                      (Triple-now_utc (λ w k. k))
                      (λ now.
                        Triple-statement
                          (update_connection id (with_state (state_text revoking) now))
                          (λ w a tables k e. k) (λ w k. tt)))
                    (λ _.
                      Triple-bind (λ _ w. Alone w × (claimed ≡ row)) commit _
                        (Triple-commit (λ w k. k) (λ w k. tt))
                        (λ _. Triple-pure claimed (λ w k. k))))))

  -- No usable credential is left under the username.
  abbrev Dead : World P → Type 0
  Dead w = Alone w × (¬ Live (managed_username id row.display_name) w.provider)

  verdict :
      (found : Result ProviderError (List CredentialId))
      → Provisioning.is_true (Provisioning.gone_answer found) ≡ true
      → found ≡ ok []
  verdict (ok []) h = refl
  verdict (ok (c ∷ cs)) h = absurd (cc)
  verdict (err e) h = absurd (cc)

  looks_up :
      Triple Alone
        (credential_is_gone service (managed_username id row.display_name))
        (λ gone w.
          Alone w × (gone ≡ true → ¬ Live (managed_username id row.display_name) w.provider))
        Anything
  unfolding credential_is_gone credential_gone
  looks_up =
      Triple-bind
        (λ gone w.
          Alone w
          × (Provisioning.is_true gone ≡ true
              → ¬ Live (managed_username id row.display_name) w.provider))
        _ _
        (Triple-bind
          (λ found w.
            Alone w × (found ≡ ok [] → ¬ Live (managed_username id row.display_name) w.provider))
          _ _
          (Triple-call (service.provider.find_credentials (managed_username id row.display_name))
            (λ w alone. (alone, contract.none_left _ w.provider)))
          (λ found.
            Triple-pure (Provisioning.gone_answer found)
              (λ w (alone, k). (alone, λ h. k (verdict found h)))))
        (λ gone. Triple-pure (Provisioning.is_true gone) (λ w k. k))

  confirms_gone :
      (gone : Bool)
      → Triple
          (λ w. Alone w × (gone ≡ true → ¬ Live (managed_username id row.display_name) w.provider))
          (Service.confirmed_gone service gone)
          (λ _. Dead)
          Anything
  confirms_gone true = Triple-pure tt (λ w (alone, k). (alone, k refl))
  confirms_gone false =
      Triple-lift (err Service.dependency_error) (λ a w h k. absurd (cc)) (λ w k. tt)

  confirms :
      (deletion : Result ProviderError (Unit {0}))
      → Triple
          (λ w.
            Alone w × (deletion ≡ ok tt → ¬ Live (managed_username id row.display_name) w.provider))
          (Service.confirmed service (managed_username id row.display_name) deletion)
          (λ _. Dead)
          Anything
  confirms (ok tt) = Triple-pure tt (λ w (alone, k). (alone, k refl))
  confirms (err e) =
      Triple-bind
        (λ gone w.
          Alone w × (gone ≡ true → ¬ Live (managed_username id row.display_name) w.provider))
        _ _ (record { at = λ w (alone, k). looks_up.at w alone }) confirms_gone

  deletes :
      Owns account (managed_username id row.display_name)
      → Triple Alone
          (delete_account_confirmed service account (managed_username id row.display_name))
          (λ _. Dead)
          Anything
  unfolding delete_account_confirmed
  deletes owns =
      Triple-bind
        (λ deletion w.
          Alone w × (deletion ≡ ok tt → ¬ Live (managed_username id row.display_name) w.provider))
        _ _
        (Triple-call (service.provider.delete_account account)
          (λ w alone. (alone, λ done. contract.deleted account w.provider _ done owns)))
        confirms

  -- The account is dead and the row is gone from the copy, or from the tables.
  abbrev Removed : World P → Type 0
  Removed w =
      (¬ Live (managed_username id row.display_name) w.provider)
      × (row_of id w.working.connections ≡ none)

  abbrev Finished : World P → Type 0
  Finished w =
      (¬ Live (managed_username id row.display_name) w.provider)
      × (row_of id w.committed.connections ≡ none)

  Dead-meanwhile : (w : World P) → Dead w → Dead (meanwhile w)
  unfolding meanwhile
  Dead-meanwhile w (alone, dead) = subst Dead (sym same) (alone, dead)
    where
      same : happens w.others w ≡ w
      same = rw alone refl

  records :
      (sha256 : Hash) (window : ℕ) (acting : Actor) (at : OffsetDateTime) (event : AuditEvent)
      (deleted : Bool)
      → Triple Removed
          (Store.record_if sha256 window acting at event deleted)
          (λ _. Removed)
          Anything
  unfolding append_event
  records sha256 window acting at event false = Triple-pure tt (λ w k. k)
  records sha256 window acting at event true =
      Triple-statement (append_event sha256 window acting at event)
        (λ w a tables k e. (
          k.0,
          subst (λ (t : Tables). row_of id t.connections ≡ none)
              (append_event-some sha256 window acting at event w.working e).1 k.1,
        ))
        (λ w k. tt)

  removes :
      (sha256 : Hash) (window : ℕ) (acting : Actor) (event : AuditEvent)
      → Triple Dead
          (delete_connection_recorded sha256 window id acting event)
          (λ _. Finished)
          Anything
  unfolding delete_connection_recorded delete_where
  removes sha256 window acting event =
      Triple-bind (λ _. Dead) begin _ (Triple-begin (λ w k. Dead-meanwhile w k) (λ w k. tt))
        (λ _.
          Triple-bind (λ _. Removed) (statement (delete_where id)) _
            (Triple-statement (delete_where id)
              (λ w a tables k e. (
                k.1,
                subst (λ (t : Tables). row_of id t.connections ≡ none) (some_eq e)
                    (find-keep_if id id w.working.connections ∙ (rw (text_eq_refl id) refl)),
              ))
              (λ w k. tt))
            (λ deleted.
              Triple-bind (λ _. Removed) now_utc _ (Triple-now_utc (λ w k. k))
                (λ now.
                  Triple-bind (λ _. Removed) _ _ (records sha256 window acting now event deleted)
                    (λ _. Triple-commit (λ w k. k) (λ w k. tt)))))

  abbrev finish : Actor → ConnectionRow → Exec P (Unit {0})
  finish acting claimed =
      revocation_target service claimed (managed_username id claimed.display_name) >>= λ target.
      delete_target service (managed_username id claimed.display_name) target >>= λ _.
      delete_connection_recorded service.sha256 service.coalesce_window id acting
        (Service.on_connection_revoked acting (Service.subject_of id claimed))

  finishes :
      account_of row ≡ some account
      → Owns account (managed_username id row.display_name)
      → (acting : Actor) → Triple Alone (finish acting row) (λ _. Finished) Anything
  unfolding revocation_target delete_target
  finishes recorded owns acting =
      Triple-bind (λ target w. Alone w × (target ≡ some account)) _ _
        (subst
          (λ (o : Option AccountId).
            Triple Alone (Service.target_of service (managed_username id row.display_name) o)
              (λ target w. Alone w × (target ≡ some account)) Anything)
          (sym recorded) (Triple-pure (some account) (λ w k. (k, refl))))
        (λ target.
          Triple-bind (λ _. Dead) _ _
            (record {
              at = λ w (alone, e).
                  subst
                    (λ (o : Option AccountId).
                      Outcome (λ _. Dead) Anything
                        (delete_target service (managed_username id row.display_name) o w))
                    (sym e) ((deletes owns).at w alone);
            })
            (λ _. removes _ _ acting _))

  revokes :
      account_of row ≡ some account
      → Owns account (managed_username id row.display_name)
      → (context : CallContext) (connection_id : Text) → parse_connection_id connection_id ≡ ok id
      → Triple Starts (revoke service context connection_id) (λ _. Finished) Anything
  unfolding revoke
  revokes recorded owns context connection_id parsed =
      Triple-bind (λ named w. Starts w × (named ≡ id)) _ _
        (Triple-lift _ (λ named w h k. (k, same named h)) (λ w k. tt))
        (λ named. record {
          at = λ w (k, e).
              subst (λ (n : ConnectionId). Outcome (λ _. Finished) Anything (rest n w)) (sym e)
                (resting.at w k);
        })
    where
      same :
          (named : ConnectionId)
          → map_err (parse_connection_id connection_id) Service.invalid_request ≡ ok named
          → named ≡ id
      same named h = cc

      rest : ConnectionId → Exec P (Unit {0})
      rest named = claim_for_revocation service context named >>= λ claimed.
          lift (Service.actor context) >>= λ acting.
          revocation_target service claimed (managed_username named claimed.display_name)
          >>= λ target.
              delete_target service (managed_username named claimed.display_name) target >>= λ _.
              delete_connection_recorded service.sha256 service.coalesce_window named acting
                (Service.on_connection_revoked acting (Service.subject_of named claimed))

      resting : Triple Starts (rest id) (λ _. Finished) Anything
      resting =
          Triple-bind (λ claimed w. Alone w × (claimed ≡ row)) _ _ (claims context)
            (λ claimed.
              Triple-bind (λ acting w. Alone w × (claimed ≡ row)) _ _
                (Triple-lift (Service.actor context) (λ a w h k. k) (λ w k. tt))
                (λ acting. record {
                  at = λ w (alone, e).
                      subst
                        (λ (r : ConnectionRow).
                          Outcome (λ _. Finished) Anything (finish acting r w))
                        (sym e) ((finishes recorded owns acting).at w alone);
                }))

  -- With a provider that honours its contract, and no other operation beside it, a `revoke` that
  -- succeeds on a connection whose account is recorded leaves no usable credential under the
  -- account's username, and no row of the connection.
  pub revoke-gone :
      (context : CallContext) (connection_id : Text) (w : World P)
      → parse_connection_id connection_id ≡ ok id
      → w.others ≡ []
      → row_of id w.committed.connections ≡ some row
      → account_of row ≡ some account
      → Owns account (managed_username id row.display_name)
      → (revoke service context connection_id w).0 ≡ ok tt
      → (¬ Live
          (managed_username id row.display_name)
          (revoke service context connection_id w).1.provider)
        × (row_of id (revoke service context connection_id w).1.committed.connections ≡ none)
  revoke-gone context connection_id w parsed alone found recorded owns done =
      outcome-ok (λ _. Finished) Anything (revoke service context connection_id w)
        ((revokes recorded owns context connection_id parsed).at w (alone, found)) tt done
