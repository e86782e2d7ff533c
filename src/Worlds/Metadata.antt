-- ===== src/Worlds/Metadata.antt =====
-- crates/liaozhai-worlds/src/metadata.rs
use liaozhai.Common.{Text}
use liaozhai.Core.Id.{WorldId}

pub record WorldMetadata : Type 0 where
  pub id : WorldId
  pub slug : Text
  pub name : Text
  pub short_description : Text

-- `WorldMetadata::new`; the random identifier that it draws is an argument.
abbrev pub new_world : WorldId → Text → Text → Text → WorldMetadata
new_world id slug name short_description = record {
  id = id;
  slug = slug;
  name = name;
  short_description = short_description;
}

pub record WorldEntryDto : Type 0 where
  pub slug : Text
  pub name : Text
  pub short : Text
