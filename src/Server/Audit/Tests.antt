-- ===== src/Server/Audit/Tests.antt =====
-- The theorems on the trail, at concrete events.
use sovereign_config.Prelude.{
  refl, all, keep_if, strip_prefix, split, text_eq, fold, concat, decimal, ◌+◌, ◌≤◌, ◌≡◌, false,
  none, [], ◌∷◌, length, any, codes, is_control,
}
use sovereign_config.Server.Rpc.{Actor}
use sovereign_config.Server.Audit.Narrative.{quoted, quoted_value_characters}
use sovereign_config.Server.Audit.Events.{on_secret_revealed}
use sovereign_config.Server.Audit.Store.{
  EventRow, Hash, bump, coalesce_digest, event_row, insert_events, insert_each, insert_event,
  upsert, meets_checks, is_path_text, shares_digest, distinct_digests,
}
use sovereign_config.Core.Path.{is_segment, is_path_byte}
use sovereign_config.Server.Audit.Coalescing.{occurrences, insert_events-occurrences}
use sovereign_config.Server.Audit.Quoting.{quoted-bounded}

-- Everything that an insertion computes through.
unfoldable inserting : Unit {0}
unfolding on_secret_revealed sovereign_config.Server.Audit.Narrative.secret_revealed insert_events
    insert_each insert_event upsert meets_checks is_path_text shares_digest distinct_digests
    event_row coalesce_digest concat decimal any all keep_if strip_prefix split is_segment
    is_path_byte text_eq fold
inserting = tt

abbrev someone : Actor
someone = record { subject = codes "subject"; name = none; protocol_version = codes "v5" }

abbrev digest : Hash
digest text = codes "aaaaaaaaaaaaaaaaaaaaaaaaaaaaaaaaaaaaaaaaaaaaaaaaaaaaaaaaaaaaaaaa"

-- A secret was revealed, and is revealed again in the same window.
abbrev revealed : EventRow
revealed = event_row digest 60 someone 5000000000 (on_secret_revealed someone (codes "/a"))

abbrev revealed_twice : EventRow
revealed_twice = bump revealed revealed

insert_events-occurrences_example :
    occurrences (revealed_twice ∷ []) ≡ occurrences (revealed ∷ []) + 1
unfolding inserting
insert_events-occurrences_example =
    insert_events-occurrences digest 60 someone 5000000000
      (on_secret_revealed someone (codes "/a") ∷ []) (revealed ∷ []) refl

-- Two rows of one statement that share a window make it fail.
two_reveals_refused : insert_events (revealed ∷ (revealed ∷ [])) [] ≡ none
unfolding inserting
two_reveals_refused = refl

quoted-bounded_example :
    (any is_control (quoted (codes "one two")) ≡ false)
    × (length (quoted (codes "one two")) ≤ quoted_value_characters + 3)
quoted-bounded_example = quoted-bounded (codes "one two")
