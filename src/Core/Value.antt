-- ===== src/Core/Value.antt =====
-- value.rs and listing.rs: values as clients see them.
use sovereign_config.Prelude.{Text, codes}
use sovereign_config.Core.Path.{ConfigPath}

abbrev pub masked_secret_text : Text
masked_secret_text = codes "********"

pub data ValueClassification : Type 0 where
  plain secret : ValueClassification

-- `ValueContent`: a masked secret carries nothing.
pub data ValueContent : Type 0 where
  plain_value : Text → ValueContent
  masked_secret : ValueContent

unfoldable pub classification : ValueContent → ValueClassification
classification (plain_value _) = plain
classification masked_secret = secret

unfoldable pub display_text : ValueContent → Text
display_text (plain_value value) = value
display_text masked_secret = masked_secret_text

pub record SubTreeValue : Type 0 where
  pub path : ConfigPath
  pub value : ValueContent

pub data SubTreeMutationContent : Type 0 where
  plain_content : Text → SubTreeMutationContent
  preserve_secret : SubTreeMutationContent

pub record SubTreeMutationValue : Type 0 where
  pub path : ConfigPath
  pub value : SubTreeMutationContent
