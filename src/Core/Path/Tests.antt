-- ===== src/Core/Path/Tests.antt =====
-- The theorems on paths, at concrete paths.
use sovereign_config.Prelude.{
  String, ◌≡◌, refl, ◌↔◌, true, ok, all, codes, text_eq, strip_prefix, split,
}
use sovereign_config.Core.Path.{
  ConfigPath, parse, parse_operation, parse_selection, fold_key, is_at_or_below, is_segment,
  is_path_byte,
}
use sovereign_config.Core.Path.Grammar.{IsRendered, parse_operation_iff, parse-fold_key}
use sovereign_config.Core.Path.Scope.{Covers, is_at_or_below_iff}

abbrev pub path_of : String → ConfigPath
path_of s = record { path = codes s }

parse_operation_iff_example :
    (parse_operation (codes "/A/b-1") ≡ ok (path_of "/A/b-1"))
    ↔ ((codes "/A/b-1" ≡ codes "/A/b-1") × IsRendered is_path_byte (codes "/A/b-1"))
parse_operation_iff_example = parse_operation_iff (codes "/A/b-1") (path_of "/A/b-1")

parse-fold_key_example :
    parse (fold_key (path_of "/A/b")) ≡ ok (record { path = fold_key (path_of "/A/b") })
unfolding parse_selection parse_operation text_eq strip_prefix split all is_segment is_path_byte
parse-fold_key_example = parse-fold_key (codes "/A/b") (path_of "/A/b") refl

is_at_or_below_iff_example :
    (is_at_or_below (path_of "/A/b/c") (path_of "/a/B") ≡ true)
    ↔ Covers (fold_key (path_of "/a/B")) (fold_key (path_of "/A/b/c"))
is_at_or_below_iff_example = is_at_or_below_iff (path_of "/A/b/c") (path_of "/a/B")
