-- ===== src/Server/Values/Tests/Witnesses.antt =====
-- The theorems on the service, at concrete runs.
use sovereign_config.Prelude.{
  ◌<◌, arith, length, ap, sym, subst, ℕ, Option, none, not, keep_if, ◌&&◌, is_some, ◌+◌, ◌≡◌, refl,
  Bool, true, false, some, List, [], ◌∷◌, All, ok, all, codes, text_eq,
}
use sovereign_config.Core.Path.{ConfigPath}
use sovereign_config.Server.Auth.{AuthenticatedPrincipal, read, write, allows}
use sovereign_config.Server.Rpc.{storage_unavailable}
use sovereign_config.Server.Values.Subtree.{plain_value}
use sovereign_config.Server.Values.Exec.{World, Db}
use sovereign_config.Server.Values.Authz.{authorize, request_path, authorize_sound}
use sovereign_config.Server.Values.Service.Common.{plain_put, secret_put}
use sovereign_config.Server.Values.Service.Put.{put_value}
use sovereign_config.Server.Values.Service.Delete.{delete_values}
use sovereign_config.Server.Values.Service.Alias.{add_value_path}
use sovereign_config.Server.Values.Service.Replace.{replace_sub_tree}
use sovereign_config.Server.Values.Service.Atomicity.{
  put_value_atomic, delete_values_atomic, add_value_path_atomic, replace_sub_tree_atomic,
}
use sovereign_config.Core.Value.{ValueContent, SubTreeValue}
use sovereign_config.Server.Values.Service.Leaves.{put_value-IsLeafTree, add_value_path-IsLeafTree}
use sovereign_config.Server.Values.Store.Leaves.{IsLeafTree}
use sovereign_config.Server.Values.Service.Sealed.{put_value-IsKept}
use sovereign_config.Server.Values.Service.Visible.{get_sub_tree-allowed, list_value_paths-allowed}
use sovereign_config.Server.Values.Exec.{direct, ignoring}
use sovereign_config.Server.Values.Content.{masked_content}
use sovereign_config.Server.Values.Store.{paths_of_content, content_of}
use sovereign_config.Server.Values.Service.Removed.{asked, delete_values-paths}
use sovereign_config.Server.Values.Service.Common.{stored_path}
use sovereign_config.Server.Encryption.{AreCorrect}
use sovereign_config.Server.Values.Store.Kept.{IsKept}
use sovereign_config.Server.Audit.Coalescing.{occurrences}
use sovereign_config.Server.Values.Service.Audited.{put_value-occurrences}
use sovereign_config.Server.Values.Store.{update_content_row}
use sovereign_config.Server.Values.Tests.{run, service, fresh_world, admin, above}

-- The fifth statement of the transaction fails, or the sixth.
abbrev failing : List Bool → Db → World
failing faults db = record (fresh_world db) { faults = faults }

abbrev fifth : List Bool
fifth = false ∷ (false ∷ (false ∷ (false ∷ (true ∷ []))))

put_value_atomic_example :
    (put_value service admin 7
      (codes "/a")
      (some (plain_put (codes "new")))
      (failing fifth above)).1.committed
    ≡ above
unfolding run
put_value_atomic_example =
    put_value_atomic service admin 7 (codes "/a") (some (plain_put (codes "new")))
      (failing fifth above) storage_unavailable refl

delete_values_atomic_example :
    (delete_values service admin 7 (codes "/a") false (failing fifth above)).1.committed ≡ above
unfolding run
delete_values_atomic_example =
    delete_values_atomic service admin 7 (codes "/a") false (failing fifth above)
      storage_unavailable refl

add_value_path_atomic_example :
    (add_value_path service admin 7 (codes "/a") (codes "/b") (failing fifth above)).1.committed
    ≡ above
unfolding run
add_value_path_atomic_example =
    add_value_path_atomic service admin 7 (codes "/a") (codes "/b") (failing fifth above)
      storage_unavailable refl

replace_sub_tree_atomic_example :
    (replace_sub_tree service admin 7
      (codes "/a/b")
      (record { path = codes "/a/b/c"; content = some (plain_value (codes "x")) } ∷ [])
      (failing fifth above)).1.committed
    ≡ above
unfolding run
replace_sub_tree_atomic_example =
    replace_sub_tree_atomic service admin 7 (codes "/a/b")
      (record { path = codes "/a/b/c"; content = some (plain_value (codes "x")) } ∷ [])
      (failing fifth above) storage_unavailable refl

abbrev apps_x : ConfigPath
apps_x = record { path = codes "/Apps/x" }

authorize_sound_example :
    (caller : AuthenticatedPrincipal) × (admin.principal ≡ some caller)
    × (all (allows caller apps_x) (read ∷ []) ≡ true)
    × (request_path false (codes "/Apps/x") ≡ ok apps_x)
unfolding run
authorize_sound_example = authorize_sound admin (codes "/Apps/x") (read ∷ []) false apps_x refl

some-eq : {A : Type 0} {a b : A} → ◌≡◌ {A = Option A} (some a) (some b) → a ≡ b
some-eq h = cc

opened : List ℕ → Option (List ℕ)
opened [] = none
opened (tag ∷ message) = some message

service-AreCorrect : AreCorrect service.cipher
unfolding opened
service-AreCorrect = record {
  open-seal = λ nonce aad message ciphertext h. ap opened (sym (some-eq h));
  tagged = λ nonce aad message ciphertext h. subst (λ c. 0 < length c) (some-eq h) (omega arith);
  base64-decode-encode = λ bytes. refl;
  utf8-decode-encode = λ text. refl;
}

above-IsKept : IsKept service.cipher above.contents
unfolding text_eq
above-IsKept = (refl, tt)

put_value-IsLeafTree_example :
    IsLeafTree
      (put_value service admin 7
        (codes "/b")
        (some (secret_put (codes "hunter2")))
        (fresh_world above)).1.committed.paths
put_value-IsLeafTree_example =
    put_value-IsLeafTree service admin 7 (codes "/b") (some (secret_put (codes "hunter2")))
      (fresh_world above) (tt, tt)

put_value-IsKept_example :
    IsKept service.cipher
      (put_value service admin 7
        (codes "/b")
        (some (secret_put (codes "hunter2")))
        (fresh_world above)).1.committed.contents
put_value-IsKept_example =
    put_value-IsKept service service-AreCorrect admin 7 (codes "/b")
      (some (secret_put (codes "hunter2"))) (fresh_world above) above-IsKept

add_value_path-IsLeafTree_example :
    IsLeafTree
      (add_value_path service admin 7
        (codes "/a")
        (codes "/b")
        (fresh_world above)).1.committed.paths
add_value_path-IsLeafTree_example =
    add_value_path-IsLeafTree service admin 7 (codes "/a") (codes "/b") (fresh_world above) (tt, tt)

get_sub_tree-allowed_example :
    (caller : AuthenticatedPrincipal) × (admin.principal ≡ some caller)
    × All
        (λ (value : SubTreeValue). allows caller value.path read ≡ true)
        (record {
          path = record { path = codes "/a" };
          value = ValueContent.plain_value (codes "old");
        }
          ∷ [])
unfolding run direct masked_content stored_path ignoring
get_sub_tree-allowed_example =
    get_sub_tree-allowed service admin 7 (codes "/") (fresh_world above) _ refl

list_value_paths-allowed_example :
    (caller : AuthenticatedPrincipal) × (admin.principal ≡ some caller)
    × All (λ p. allows caller p read ≡ true) (record { path = codes "/a" } ∷ [])
unfolding run direct paths_of_content stored_path
list_value_paths-allowed_example =
    list_value_paths-allowed service admin (codes "/a") (fresh_world above) _ refl

put_value-occurrences_example :
    occurrences
      (put_value service admin 7
        (codes "/a")
        (some (plain_put (codes "new")))
        (fresh_world above)).1.committed.events
    ≡ occurrences [] + 1
unfolding run update_content_row
put_value-occurrences_example =
    put_value-occurrences service admin 7 (codes "/a") (some (plain_put (codes "new")))
      (fresh_world above) _ refl

delete_values-paths_example :
    (target : ConfigPath) × (authorize admin (codes "/A") (write ∷ []) true ≡ ok target)
    × ((delete_values service admin 7 (codes "/A") true (fresh_world above)).1.committed.paths
        ≡ keep_if
            (λ row.
              not (asked true target row && is_some (content_of row.content_id above.contents)))
            above.paths)
unfolding run sovereign_config.Server.Values.Store.prune_contents
    sovereign_config.Server.Values.Service.Itemize.deletion_events
delete_values-paths_example =
    delete_values-paths service admin 7 (codes "/A") true (fresh_world above) _ refl
