-- ===== src/Server/Values/Tests/Details.antt =====
-- The theorems on parts of the service, at concrete values.
use sovereign_config.Prelude.{
  ◌-◌, min, ◌≡◌, ◌↔◌, ◌⊎◌, true, ◌||◌, none, [], ◌∷◌, ◌++◌, map, take, Text, codes, slash, text_eq,
}
use sovereign_config.Core.Path.{ConfigPath}
use sovereign_config.Server.Rpc.{Actor}
use sovereign_config.Server.Audit.Narrative.{plain, secret}
use sovereign_config.Server.Audit.Events.{on_subtree_deleted}
use sovereign_config.Server.Values.Exec.{PathRow, ContentRow, lowercase_path}
use sovereign_config.Server.Values.Store.{DeletedPathRow, nests_with}
use sovereign_config.Server.Values.Paths.{paths_collide}
use sovereign_config.Server.Values.Paths.Collision.{paths_collide_iff, paths_collide-nests_with}
use sovereign_config.Server.Values.Service.Itemize.{
  bulk_event_cap, event_of_deleted, deletion_events,
}
use sovereign_config.Server.Values.Service.Itemized.{deletion_events-itemized}
use sovereign_config.Server.Values.Service.Alias.{lock_both}
use sovereign_config.Server.Values.Service.LockOrder.{lock_both_comm}
use sovereign_config.Server.Values.Service.Reads.{subtree_values}
use sovereign_config.Server.Values.Service.Visible.{reseal, subtree_values-reseal}

abbrev row_b : PathRow
row_b = record { path = codes "/A/b"; content_id = 1; created_at = 0 }

abbrev secret_b : ContentRow
secret_b = record {
  id = 1;
  value = codes "enc:v1:x";
  classification = secret;
  created_at = 0;
  updated_at = 0;
}

abbrev deleted_b : DeletedPathRow
deleted_b = record {
  path = codes "/A/b";
  content_id = 1;
  value = codes "old";
  classification = plain;
}

abbrev by_someone : Actor
by_someone = record { subject = codes "subject"; name = none; protocol_version = codes "v5" }

abbrev root_a : ConfigPath
root_a = record { path = codes "/A" }

paths_collide_iff_example : (paths_collide (codes "/a/b") (codes "/a") ≡ true) ↔ (
    (codes "/a/b" ≡ codes "/a")
    ⊎ (((rest : Text) × (codes "/a/b" ≡ codes "/a" ++ (slash ∷ rest)))
        ⊎ ((rest : Text) × (codes "/a" ≡ codes "/a/b" ++ (slash ∷ rest)))))
paths_collide_iff_example = paths_collide_iff (codes "/a/b") (codes "/a")

paths_collide-nests_with_example :
    paths_collide (lowercase_path row_b) (codes "/a")
    ≡ (text_eq (lowercase_path row_b) (codes "/a") || nests_with (codes "/a") row_b)
paths_collide-nests_with_example = paths_collide-nests_with (codes "/a") row_b

deletion_events-itemized_example :
    deletion_events by_someone root_a (deleted_b ∷ []) true
    ≡ take bulk_event_cap (map (event_of_deleted by_someone) (deleted_b ∷ []))
      ++ (on_subtree_deleted by_someone root_a.path 1 (1 - min bulk_event_cap 1) ∷ [])
deletion_events-itemized_example = deletion_events-itemized by_someone root_a (deleted_b ∷ [])

subtree_values-reseal_example :
    subtree_values (map (reseal (λ _. [])) ((row_b, secret_b) ∷ []))
    ≡ subtree_values ((row_b, secret_b) ∷ [])
subtree_values-reseal_example = subtree_values-reseal (λ _. []) ((row_b, secret_b) ∷ [])

abbrev alias_b : ConfigPath
alias_b = record { path = codes "/b" }

lock_both_comm_example : lock_both root_a alias_b ≡ lock_both alias_b root_a
lock_both_comm_example = lock_both_comm root_a alias_b
