-- ===== src/Worlds/Registry.antt =====
-- crates/liaozhai-worlds/src/registry.rs. The file system and the `toml` crate are arguments, and so
-- are the identifiers that `WorldId::new` draws: the one of an entry, by its index.
pub mod Lookup
pub mod Valid
use liaozhai.Common.{
  Bool, List, Option, Text, [], codes, eq_list, false, get_elem?, if◌then◌else◌, is_empty, length,
  none, ℕ, ◌++◌, ◌+◌, ◌-◌, ◌==◌, ◌||◌, ◌∷◌,
}
use liaozhai.Core.Error.{Error, Result, err, map_err, ok, world, ◌>>=◌}
use liaozhai.Core.Id.{WorldId}
use liaozhai.Text.Decimal.{to_string}
use liaozhai.Text.Trim.{trim}
use liaozhai.Worlds.Metadata.{WorldEntryDto, WorldMetadata, new_world}

pub record WorldRegistry : Type 0 where
  pub worlds : List WorldMetadata

abbrev pub new_registry : List WorldMetadata → WorldRegistry
new_registry worlds = record { worlds = worlds }

abbrev pub registry_len : WorldRegistry → ℕ
registry_len r = length r.worlds

-- `get_by_position`
unfoldable pub get_by_position : WorldRegistry → ℕ → Option WorldMetadata
get_by_position r one_based_index =
    if one_based_index == 0 then none else get_elem? r.worlds (one_based_index - 1)

-- `HashSet::contains`
unfoldable pub contains : Text → List Text → Bool
contains slug [] = false
contains slug (s ∷ slugs) = eq_list s slug || contains slug slugs

abbrev entry_error : ℕ → Text → Result Text WorldMetadata
entry_error pos what = err (codes "entry " ++ (to_string pos ++ what))

-- The body of the loop for the entry of index `i`, with the slugs of the entries before it.
unfoldable pub check_entry :
    (ℕ → WorldId) → ℕ → List Text → WorldEntryDto → Result Text WorldMetadata
unfolding contains
check_entry fresh i slugs entry =
    if is_empty (trim entry.slug)
    then entry_error (i + 1) (codes ": slug is empty")
    else if is_empty (trim entry.name)
    then entry_error (i + 1) (codes ": name is empty")
    else if is_empty (trim entry.short)
    then entry_error (i + 1) (codes ": short description is empty")
    else if contains (trim entry.slug) slugs
    then entry_error (i + 1) (codes ": duplicate slug '" ++ (trim entry.slug ++ codes "'"))
    else ok (new_world (fresh i) (trim entry.slug) (trim entry.name) (trim entry.short))

unfoldable pub check_entries :
    (ℕ → WorldId)
    → ℕ
    → List Text
    → List WorldMetadata
    → List WorldEntryDto
    → Result Text (List WorldMetadata)
unfolding check_entry
check_entries fresh i slugs worlds [] = ok worlds
check_entries fresh i slugs worlds (entry ∷ entries) = check_entry fresh i slugs entry >>= λ w.
    check_entries fresh (i + 1) (w.slug ∷ slugs) (worlds ++ w ∷ []) entries

-- `parse_worlds_toml`; `from_toml` is `toml::from_str`.
unfoldable pub parse_worlds_toml :
    (ℕ → WorldId)
    → (Text → Result Text (List WorldEntryDto))
    → Text
    → Result Text (List WorldMetadata)
unfolding check_entries
parse_worlds_toml fresh from_toml content = do
  entries ← from_toml content
  check_entries fresh 0 [] [] entries

abbrev pub refuse_empty : Text → List WorldMetadata → Result Error WorldRegistry
refuse_empty path [] = err (Error.world (codes "world registry is empty: " ++ path))
refuse_empty path (w ∷ ws) = ok (new_registry (w ∷ ws))

abbrev pub world_error : Text → Text → Text → Error
world_error what path e = Error.world (what ++ (path ++ (codes ": " ++ e)))

-- `WorldRegistry::load_from_toml`; `read` is `std::fs::read_to_string`.
unfoldable pub load_from_toml :
    (ℕ → WorldId)
    → (Text → Result Text (List WorldEntryDto))
    → (Text → Result Text Text)
    → Text
    → Result Error WorldRegistry
unfolding parse_worlds_toml
load_from_toml fresh from_toml read path = do
  content ← map_err (world_error (codes "reading ") path) (read path)
  worlds ← map_err (world_error (codes "parsing ") path) (parse_worlds_toml fresh from_toml content)
  refuse_empty path worlds
