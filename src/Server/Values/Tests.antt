-- ===== src/Server/Values/Tests.antt =====
-- Runs of the service on a small database.
pub mod Witnesses
pub mod Details
use sovereign_config.Prelude.{
  ℕ, zero, suc, ◌+◌, ◌-◌, ◌*◌, ◌/◌, ◌%◌, ◌^◌, ◌≤◌, ◌<◌, min, max, String, ◌≡◌, refl, sym, ap, ◌∙◌,
  subst, ◌≡⟨◌⟩◌, ◌∎, ◌≢◌, ◌↔◌, ◌⊎◌, inl, inr, Bool, true, false, not, ◌&&◌, ◌||◌, Option, none,
  some, List, [], ◌∷◌, ◌++◌, map, append_assoc, append-nil, arith, ltb, leb, ◌==◌, if◌then◌else◌,
  ==_iff, Bool-cases, Option-cases, is_some, is_none, get_or, All, Any, here, ok, err, there,
  length, is_empty, take, drop, get_elem?, all, any, keep_if, length-append, length-take-le,
  take-append_length, drop-append_length, take-append-drop, all-append, all_iff, any_sound,
  any_complete, any-not, All-append, All-left, All-right, All-keep_if, All-map_of, insert_by,
  sort_by, find, filter_map, Text, codes, slash, text_eq, text_eq_refl, text_eq_sound, text_eq_iff,
  lower, fold, eq_ignore_ascii_case, strip_prefix, starts_with, contains, extend_head, split,
  trim_start_matches, join, rsplit_once, is_ascii_lowercase, is_ascii_uppercase,
  is_ascii_alphabetic, is_ascii_digit, is_control, concat, decimal_digits, decimal, text_le, Result,
  ok_or, map_err, is_ok, map_err-eq-ok, ok_or-eq-ok, lower_idem, lower-eq_slash, fold_idem,
  fold-append, length-fold, strip_prefix-append, strip_prefix_sound, starts_with-append,
  starts_with_sound, extend_head-map-fold, split-fold, split-ne-nil, join-split, split_part,
  split-append, split_free, contains-append,
}
use sovereign_config.Server.Auth.{Permission, read, write, manage, AuthenticatedPrincipal, allows}
use sovereign_config.Server.Rpc.{CallContext, to_timestamp, actor, principal, Status}
use sovereign_config.Core.Path.{
  parse_operation, parse_selection, is_at_or_below, path_eq, path_le, is_segment, is_path_byte,
  parse, is_fold_byte,
}
use sovereign_config.Server.Audit.Narrative.{plain, secret}
use sovereign_config.Server.Encryption.{Primitives, Bytes, encrypt, decrypt}
use sovereign_config.Server.Values.Authz.{authorize}
use sovereign_config.Server.Values.Exec.{
  nextval, pure, lift, Db, PathRow, ContentRow, World, ◌>>=◌, begin, commit, lock_path,
}
use sovereign_config.Server.Values.Store.{
  lock_mutation_path, path_content_class, delete_paths, prune_orphan_contents, content_ids,
  path_collides, insert_content_row, insert_path_row,
}
use sovereign_config.Server.Values.Subtree.{SubTreeEntry, plain_value, preserve_secret}
use sovereign_config.Server.Values.Service.Common.{
  ConfigurationService, PutContent, plain_put, secret_put, record_in,
}
use sovereign_config.Server.Values.Service.Put.{put_value, create_value, overwrite_existing}
use sovereign_config.Server.Values.Service.Delete.{delete_values}
use sovereign_config.Server.Values.Service.Alias.{add_value_path, lock_both}
use sovereign_config.Server.Values.Service.Reads.{
  reveal_secret, get_sub_tree, list_value_paths, subtree_values, readable_paths,
}
use sovereign_config.Server.Values.Service.Replace.{replace_sub_tree}
use sovereign_config.Server.Values.Service.Writes.{
  resolve_entry, resolve_plain_writes, write_shared, write_fresh,
}
use sovereign_config.Server.Values.Service.Itemize.{replacement_events}
use sovereign_config.Server.Values.Subtree.{normalize, plain_paths, resolve_preserve_markers}
use sovereign_config.Server.Values.Store.{
  secret_paths_touching, delete_plain_paths_except, content_id_at, path_is_occupied, sub_tree_rows,
  revealed_row,
}

-- Everything that a run of the service computes through.
unfoldable pub run : Unit {0}
unfolding sovereign_config.Server.Audit.Narrative.value_created
    sovereign_config.Server.Audit.Narrative.value_updated
    sovereign_config.Server.Audit.Narrative.value_deleted
    sovereign_config.Server.Audit.Narrative.subtree_replaced
    sovereign_config.Server.Audit.Narrative.subtree_deleted
    sovereign_config.Server.Audit.Narrative.path_added
    sovereign_config.Server.Audit.Narrative.secret_revealed pure lift put_value delete_values
    replace_sub_tree authorize parse_operation parse_selection is_segment is_path_byte
    is_at_or_below all any text_eq strip_prefix split allows principal actor to_timestamp contains
    begin commit lock_path lock_mutation_path path_content_class create_value overwrite_existing
    record_in ◌>>=◌ starts_with encrypt delete_paths prune_orphan_contents content_ids fold
    insert_content_row insert_path_row normalize plain_paths resolve_preserve_markers
    secret_paths_touching delete_plain_paths_except resolve_plain_writes resolve_entry
    add_value_path lock_both path_eq path_le content_id_at path_is_occupied path_collides
    write_shared write_fresh replacement_events reveal_secret get_sub_tree list_value_paths
    subtree_values readable_paths sub_tree_rows revealed_row parse is_fold_byte decrypt
run = tt

-- A cipher that only marks what it seals.
abbrev pub marks : Primitives
marks = record {
  aead_encrypt = λ nonce aad message. some (0 ∷ message);
  aead_decrypt =
      λ nonce aad ciphertext. elim ciphertext [ [] ↦ none | tag ∷ message ↦ some message ];
  base64_encode = λ bytes. bytes;
  base64_decode = λ text. some text;
  utf8_encode = λ text. text;
  utf8_decode = λ bytes. some bytes;
}

abbrev pub service : ConfigurationService
service = record {
  cipher = marks;
  sha256 = λ t. codes "aaaaaaaaaaaaaaaaaaaaaaaaaaaaaaaaaaaaaaaaaaaaaaaaaaaaaaaaaaaaaaaa";
  coalesce_window = 60;
}

abbrev pub empty_db : Db
empty_db = record { paths = []; contents = []; events = [] }

abbrev pub fresh_world : Db → World
fresh_world db = record {
  committed = db;
  working = db;
  locks = [];
  faults = [];
  next_content_id = 2;
  entropy = codes "abcdefghijklmnopqrstuvwx" ∷ [];
}

abbrev pub admin : CallContext
admin = record {
  principal = some (record {
    subject = codes "subject";
    name = some (codes "ann");
    grants = record { prefix = codes "/"; permissions = read ∷ (write ∷ (manage ∷ [])) } ∷ [];
  });
  protocol_version = some (codes "v5");
}

abbrev pub path_texts : World → List Text
path_texts w = map (λ (row : PathRow). row.path) w.committed.paths

abbrev after_put : World
after_put =
    (put_value service admin 5000000000 (codes "/A/b") (some (plain_put (codes "x")))
      (fresh_world empty_db)).1

put_paths : path_texts after_put ≡ codes "/A/b" ∷ []
unfolding run
put_paths = refl

abbrev pub above : Db
above = record {
  paths = record { path = codes "/a"; content_id = 1; created_at = 0 } ∷ [];
  contents =
      record { id = 1; value = codes "old"; classification = plain; created_at = 0; updated_at = 0 }
      ∷ [];
  events = [];
}

-- A replacement below a stored plain value leaves a value nested under it.
abbrev after_replace : World
after_replace =
    (replace_sub_tree service admin 5000000000 (codes "/a/b")
      (record { path = codes "/a/b/c"; content = some (plain_value (codes "x")) } ∷ [])
      (fresh_world above)).1

replace_paths : path_texts after_replace ≡ codes "/a/b/c" ∷ (codes "/a" ∷ [])
unfolding run
replace_paths = refl
