-- ===== src/Server/Audit/Narrative.antt =====
-- audit/narrative.rs: the sentence an event is stored with; and what of a value it may hold.
use sovereign_config.Prelude.{
  ℕ, Option, none, some, [], ◌∷◌, map, ltb, ◌==◌, if◌then◌else◌, length, take, Text, codes, text_eq,
  is_control, concat, decimal,
}

-- The classifications of values.rs.
abbrev pub plain : Text
plain = codes "plain"

abbrev pub secret : Text
secret = codes "secret"

-- `Recorded` of audit/mod.rs: the text of a plain value, and nothing of any other.
pub data Recorded : Type 0 where
  plain_text : Text → Recorded
  withheld : Recorded

-- `Recorded::of` and `Recorded::plain`
unfoldable pub recorded_of : Text → Text → Recorded
recorded_of classification value =
    if text_eq classification plain then plain_text value else withheld

abbrev pub recorded_plain : Recorded → Option Text
recorded_plain (plain_text value) = some value
recorded_plain withheld = none

abbrev pub quoted_value_characters : ℕ
quoted_value_characters = 80

abbrev pub blank_control : ℕ → ℕ
blank_control character = if is_control character then b' ' else character

-- 0x2026 is the ellipsis.
unfoldable pub quoted : Text → Text
unfolding concat
quoted value =
    let shown = map blank_control (take quoted_value_characters value) in
    concat (
      (b'"' ∷ [])
      ∷ (shown
          ∷ ((if ltb quoted_value_characters (length value) then 0x2026 ∷ [] else [])
              ∷ ((b'"' ∷ []) ∷ []))))

unfoldable pub counted : ℕ → Text → Text → Text
unfolding decimal concat
counted count singular plural =
    if count == 1
    then concat (codes "1 " ∷ (singular ∷ []))
    else concat (decimal count ∷ (codes " " ∷ (plural ∷ [])))

unfoldable pub value_created : Text → Text → Recorded → Text
unfolding quoted concat
value_created actor path (plain_text value) =
    concat (actor ∷ (codes " created " ∷ (path ∷ (codes " as " ∷ (quoted value ∷ [])))))
value_created actor path withheld = concat (actor ∷ (codes " created secret " ∷ (path ∷ [])))

unfoldable pub value_updated : Text → Text → Recorded → Recorded → Text
unfolding quoted concat
value_updated actor path (plain_text old) (plain_text new) = concat (
    actor
    ∷ (codes " changed "
        ∷ (path ∷ (codes " from " ∷ (quoted old ∷ (codes " to " ∷ (quoted new ∷ [])))))))
value_updated actor path withheld withheld =
    concat (actor ∷ (codes " replaced secret " ∷ (path ∷ [])))
value_updated actor path (plain_text old) withheld = concat (
    actor
    ∷ (codes " replaced "
        ∷ (path ∷ (codes ", previously " ∷ (quoted old ∷ (codes ", with a secret" ∷ []))))))
value_updated actor path withheld (plain_text new) = concat (
    actor ∷ (codes " replaced secret " ∷ (path ∷ (codes " with plain value " ∷ (quoted new ∷ [])))))

unfoldable pub value_deleted : Text → Text → Recorded → Text
unfolding quoted concat
value_deleted actor path (plain_text value) =
    concat (actor ∷ (codes " deleted " ∷ (path ∷ (codes ", previously " ∷ (quoted value ∷ [])))))
value_deleted actor path withheld = concat (actor ∷ (codes " deleted secret " ∷ (path ∷ [])))

unfoldable pub path_added : Text → Text → Text → Text
unfolding concat
path_added actor new_path source =
    concat (
      actor
      ∷ (codes " added " ∷ (new_path ∷ (codes " as a path to the value at " ∷ (source ∷ [])))))

unfoldable pub path_exposed : Text → Text → Text → Text
unfolding concat
path_exposed actor source new_path =
    concat (actor ∷ (codes " exposed the value at " ∷ (source ∷ (codes " at " ∷ (new_path ∷ [])))))

-- The clause that a capped operation adds: how many of its changes have no event of their own.
unfoldable pub not_itemized : ℕ → Text → Text → Text
unfolding counted concat
not_itemized unrecorded singular plural =
    if ltb 0 unrecorded
    then concat (
        codes "; "
        ∷ (counted unrecorded singular plural ∷ (codes " not recorded individually" ∷ [])))
    else []

unfoldable pub subtree_replaced : Text → Text → ℕ → ℕ → ℕ → ℕ → Text
unfolding not_itemized decimal concat
subtree_replaced actor root created updated deleted unrecorded = concat (
    actor
    ∷ (codes " replaced subtree "
        ∷ (root
            ∷ (codes ": "
                ∷ (decimal created
                    ∷ (codes " created, "
                        ∷ (decimal updated
                            ∷ (codes " changed, "
                                ∷ (decimal deleted
                                    ∷ (codes " deleted"
                                        ∷ (not_itemized unrecorded (codes "change")
                                              (codes "changes")
                                            ∷ [])))))))))))

unfoldable pub subtree_deleted : Text → Text → ℕ → ℕ → Text
unfolding not_itemized counted concat
subtree_deleted actor root deleted unrecorded = concat (
    actor
    ∷ (codes " deleted "
        ∷ (counted deleted (codes "value") (codes "values")
            ∷ (codes " at or below "
                ∷ (root ∷ (not_itemized unrecorded (codes "deletion") (codes "deletions") ∷ []))))))

unfoldable pub secret_revealed : Text → Text → Text
unfolding concat
secret_revealed actor path = concat (actor ∷ (codes " revealed secret " ∷ (path ∷ [])))

unfoldable pub subtree_read : Text → Text → ℕ → Text
unfolding counted concat
subtree_read actor root value_count = concat (
    actor
    ∷ (codes " read subtree "
        ∷ (root
            ∷ (codes " ("
                ∷ (counted value_count (codes "value") (codes "values") ∷ (codes ")" ∷ []))))))

unfoldable pub values_listed : Text → Text → ℕ → Text
unfolding counted concat
values_listed actor namespace value_count = concat (
    actor
    ∷ (codes " listed "
        ∷ (namespace
            ∷ (codes " ("
                ∷ (counted value_count (codes "value") (codes "values") ∷ (codes ")" ∷ []))))))

-- The name and the identifier of a connection, as the narratives give them.
abbrev named_connection : Text → Text → Text
named_connection display_name connection_id =
    concat (quoted display_name ∷ (codes " (" ∷ (connection_id ∷ (codes ")" ∷ []))))

unfoldable pub connection_created : Text → Text → Text → Text → Text → Text
unfolding quoted concat
connection_created actor root display_name connection_id permissions = concat (
    actor
    ∷ (codes " created managed connection "
        ∷ (named_connection display_name connection_id
            ∷ (codes " on " ∷ (root ∷ (codes " with " ∷ (permissions ∷ [])))))))

unfoldable pub connection_rotated : Text → Text → Text → Text → Text
unfolding quoted concat
connection_rotated actor root display_name connection_id = concat (
    actor
    ∷ (codes " rotated managed connection "
        ∷ (named_connection display_name connection_id ∷ (codes " on " ∷ (root ∷ [])))))

unfoldable pub connection_revoked : Text → Text → Text → Text → Text
unfolding quoted concat
connection_revoked actor root display_name connection_id = concat (
    actor
    ∷ (codes " revoked managed connection "
        ∷ (named_connection display_name connection_id ∷ (codes " on " ∷ (root ∷ [])))))
