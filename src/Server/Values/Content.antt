-- ===== src/Server/Values/Content.antt =====
-- values/content.rs: what a listing or a subtree read shows of a stored value.
use sovereign_config.Prelude.{◌≡◌, refl, Option, none, some, if◌then◌else◌, Text, text_eq}
use sovereign_config.Core.Value.{ValueContent, plain_value, masked_secret}
use sovereign_config.Server.Audit.Narrative.{plain, secret}

unfoldable pub masked_content : Text → Text → Option ValueContent
unfolding text_eq
masked_content value classification =
    if text_eq classification plain
    then some (plain_value value)
    else if text_eq classification secret
    then some masked_secret
    else none

-- Two secrets, whatever is stored, look the same to a reader.
pub masked_content-secret : (v w : Text) → masked_content v secret ≡ masked_content w secret
unfolding masked_content
masked_content-secret v w = refl
