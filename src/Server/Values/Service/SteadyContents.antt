-- ===== src/Server/Values/Service/SteadyContents.antt =====
-- values/service.rs and store.rs: the statements and blocks that leave the stored contents alone.
use sovereign_config.Prelude.{ℕ, sym, ap, Bool, List, [], ◌∷◌, Text}
use sovereign_config.Server.Rpc.{OffsetDateTime, Actor}
use sovereign_config.Server.Audit.Events.{AuditEvent}
use sovereign_config.Server.Values.Exec.{Db, PathRow, ContentRow, statement}
use sovereign_config.Server.Values.Exec.Steady.{
  Steady-nextval, Steady, Steady-statement, Steady-pure, answer_of,
}
use sovereign_config.Server.Values.Store.{reserve_content_id, insert_path, delete_chosen}
use sovereign_config.Server.Values.Store.Leaves.{insert_path_row-some}
use sovereign_config.Server.Values.Service.Common.{
  append_events-some, ConfigurationService, record_in, append_events,
}

abbrev pub stored_contents : Db → List ContentRow
stored_contents db = db.contents

pub Steady-reserve_content_id : Steady stored_contents reserve_content_id
unfolding reserve_content_id
Steady-reserve_content_id = Steady-nextval stored_contents

pub Steady-insert_path :
    (path : Text) (id : ℕ) (now : OffsetDateTime) → Steady stored_contents (insert_path path id now)
unfolding insert_path
Steady-insert_path path id now = Steady-statement stored_contents _ (λ db a db' h.
    ap stored_contents
      (insert_path_row-some (record { path = path; content_id = id; created_at = now }) db h).1)

pub Steady-delete_chosen :
    (chosen : Db → PathRow → Bool) → Steady stored_contents (statement (delete_chosen chosen))
unfolding delete_chosen
Steady-delete_chosen chosen =
    Steady-statement stored_contents _ (λ db a db' h. ap stored_contents (sym (answer_of h).1))

pub Steady-record_in :
    (service : ConfigurationService) (caller : Actor) (at : OffsetDateTime)
    (events : List AuditEvent)
    → Steady stored_contents (record_in service caller at events)
unfolding record_in append_events
Steady-record_in service caller at [] = Steady-pure stored_contents tt
Steady-record_in service caller at (event ∷ events) =
    Steady-statement stored_contents (append_events service caller at (event ∷ events))
      (λ db a db' h.
        ap stored_contents (sym (append_events-some service caller at (event ∷ events) db h).2))
