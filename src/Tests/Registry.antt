-- ===== src/Tests/Registry.antt =====
-- The tests of crates/liaozhai-worlds/src/registry.rs whose outcome is the crate's. A TOML text stands
-- for the entries that it is decoded to.
use liaozhai.Auth.RateLimiter.{is_some}
use liaozhai.Common.{
  Bool, List, Text, [], codes, eq_list, false, get_elem?, is_empty, length, none, not, refl, some,
  true, ℕ, ◌&&◌, ◌==◌, ◌∷◌, ◌≡◌,
}
use liaozhai.Core.Error.{Error, Result, display, err, ok}
use liaozhai.Core.Id.{WorldId}
use liaozhai.Tests.{contains_text, every, starts_with}
use liaozhai.Text.Decimal.{digits_onto, to_string}
use liaozhai.Text.Template.{strip_prefix}
use liaozhai.Text.Trim.{is_whitespace, trim, trim_end, trim_start}
use liaozhai.Worlds.Metadata.{WorldEntryDto, WorldMetadata, new_world}
use liaozhai.Worlds.Registry.{
  WorldRegistry, check_entries, check_entry, contains, get_by_position, load_from_toml,
  new_registry, parse_worlds_toml, registry_len,
}

abbrev entry : Text → Text → Text → WorldEntryDto
entry slug name short = record { slug = slug; name = name; short = short }

abbrev fresh_ids : ℕ → WorldId
fresh_ids i = record { uuid = i }

abbrev parse_entries : List WorldEntryDto → Result Text (List WorldMetadata)
parse_entries entries = parse_worlds_toml fresh_ids (λ content. ok entries) []

abbrev valid_toml : List WorldEntryDto
valid_toml =
    entry (codes "studio-dusk") (codes "The Studio at Dusk") (codes "A small interior, warmly lit.")
    ∷ entry (codes "mountain-trail") (codes "The Mountain Trail")
        (codes "A path winding into mist.")
    ∷ entry (codes "library-echoes") (codes "The Library of Echoes")
        (codes "A reading room of recursive proportions.")
    ∷ []

-- `unwrap` and `unwrap_err`: the other outcome fails the test.
abbrev unwraps : {E A : Type 0} → (A → Bool) → Result E A → Bool
unwraps asserted (ok a) = asserted a
unwraps asserted (err e) = false

abbrev unwraps_err : {E A : Type 0} → (E → Bool) → Result E A → Bool
unwraps_err asserted (ok a) = false
unwraps_err asserted (err e) = asserted e

-- What is asserted of a world by its index.
abbrev at_index : (WorldMetadata → Bool) → ℕ → List WorldMetadata → Bool
at_index asserted i worlds = elim (get_elem? worlds i) [ none ↦ false | some w ↦ asserted w ]

abbrev has_slug : Text → WorldMetadata → Bool
has_slug slug w = eq_list w.slug slug

abbrev has_name : Text → WorldMetadata → Bool
has_name name w = eq_list w.name name

abbrev refused_with : Text → List WorldEntryDto → Bool
refused_with part entries = unwraps_err (λ e. contains_text e part) (parse_entries entries)

abbrev parses_three_worlds_from_valid_toml : Bool
parses_three_worlds_from_valid_toml =
    unwraps
      (λ worlds.
        length worlds == 3
        && at_index (has_slug (codes "studio-dusk")) 0 worlds
        && at_index (has_slug (codes "mountain-trail")) 1 worlds
        && at_index (has_slug (codes "library-echoes")) 2 worlds)
      (parse_entries valid_toml)

abbrev preserves_declaration_order : Bool
preserves_declaration_order =
    unwraps
      (λ worlds.
        length worlds == 3
        && at_index (has_name (codes "The Studio at Dusk")) 0 worlds
        && at_index (has_name (codes "The Mountain Trail")) 1 worlds
        && at_index (has_name (codes "The Library of Echoes")) 2 worlds)
      (parse_entries valid_toml)

abbrev rejects_empty_slug : Bool
rejects_empty_slug =
    refused_with (codes "slug is empty") (entry [] (codes "Test") (codes "Desc") ∷ [])

abbrev rejects_empty_name : Bool
rejects_empty_name =
    refused_with (codes "name is empty") (entry (codes "test") [] (codes "Desc") ∷ [])

abbrev rejects_empty_short : Bool
rejects_empty_short =
    refused_with (codes "short description is empty") (entry (codes "test") (codes "Test") [] ∷ [])

abbrev rejects_duplicate_slug : Bool
rejects_duplicate_slug = refused_with (codes "duplicate slug 'same'") (
    entry (codes "same") (codes "First") (codes "Desc")
    ∷ entry (codes "same") (codes "Second") (codes "Desc")
    ∷ [])

abbrev rejects_whitespace_only_slug : Bool
rejects_whitespace_only_slug =
    refused_with (codes "slug is empty") (entry (codes "   ") (codes "Test") (codes "Desc") ∷ [])

abbrev slug_is_trimmed_before_storage : Bool
slug_is_trimmed_before_storage =
    unwraps
      (at_index
        (λ w.
          has_slug (codes "abc") w
          && has_name (codes "Alpha") w
          && eq_list w.short_description (codes "First"))
        0)
      (parse_entries (entry (codes "  abc  ") (codes "  Alpha  ") (codes "  First  ") ∷ []))

abbrev duplicate_detection_after_trim : Bool
duplicate_detection_after_trim = refused_with (codes "duplicate slug 'abc'") (
    entry (codes "abc") (codes "First") (codes "Desc")
    ∷ entry (codes "  abc  ") (codes "Second") (codes "Desc")
    ∷ [])

abbrev alpha : WorldMetadata
alpha = new_world (fresh_ids 0) (codes "a") (codes "Alpha") (codes "First")

abbrev beta : WorldMetadata
beta = new_world (fresh_ids 1) (codes "b") (codes "Beta") (codes "Second")

abbrev named_at : Text → ℕ → List WorldMetadata → Bool
named_at name position worlds = elim (get_by_position (new_registry worlds) position) [
  | none ↦ false
  | some w ↦ has_name name w
]

abbrev new_with_worlds_preserves_order : Bool
new_with_worlds_preserves_order =
    let reg = new_registry (alpha ∷ beta ∷ []) in
    at_index (has_slug (codes "a")) 0 reg.worlds && at_index (has_slug (codes "b")) 1 reg.worlds

abbrev len_and_is_empty_match : Bool
len_and_is_empty_match =
    registry_len (new_registry (alpha ∷ [])) == 1
    && not (is_empty (new_registry (alpha ∷ [])).worlds)
    && registry_len (new_registry []) == 0
    && is_empty (new_registry []).worlds

abbrev get_by_position_valid : Bool
get_by_position_valid =
    named_at (codes "Alpha") 1 (alpha ∷ beta ∷ [])
    && named_at (codes "Beta") 2 (alpha ∷ beta ∷ [])
    && not (is_some (get_by_position (new_registry (alpha ∷ beta ∷ [])) 0))
    && not (is_some (get_by_position (new_registry (alpha ∷ beta ∷ [])) 3))

abbrev load_entries :
    Result Text Text → Result Text (List WorldEntryDto) → Result Error WorldRegistry
load_entries content entries =
    load_from_toml fresh_ids (λ c. entries) (λ path. content) (codes "worlds.toml")

abbrev loads_valid_file : Bool
loads_valid_file =
    unwraps
      (λ reg.
        registry_len reg == 3 && at_index (has_name (codes "The Studio at Dusk")) 0 reg.worlds)
      (load_entries (ok []) (ok valid_toml))

abbrev errors_on_missing_file : Bool
errors_on_missing_file =
    unwraps_err (λ e. contains_text (display e) (codes "reading"))
      (load_entries (err (codes "No such file or directory (os error 2)")) (ok []))

abbrev errors_on_invalid_toml : Bool
errors_on_invalid_toml =
    unwraps_err (λ e. contains_text (display e) (codes "parsing"))
      (load_entries (ok (codes "not valid toml {{{{")) (err (codes "TOML parse error")))

abbrev errors_on_empty_registry : Bool
errors_on_empty_registry =
    unwraps_err (λ e. contains_text (display e) (codes "empty"))
      (load_entries (ok (codes "world = []")) (ok []))

parse_worlds_toml_tests :
    every (
      parses_three_worlds_from_valid_toml ∷ preserves_declaration_order ∷ rejects_empty_slug
      ∷ rejects_empty_name ∷ rejects_empty_short ∷ rejects_duplicate_slug
      ∷ rejects_whitespace_only_slug ∷ slug_is_trimmed_before_storage
      ∷ duplicate_detection_after_trim ∷ [])
    ≡ true
unfolding every eq_list codes parse_worlds_toml check_entries check_entry contains trim trim_start
    trim_end is_whitespace contains_text starts_with strip_prefix to_string digits_onto
parse_worlds_toml_tests = refl

registry_tests :
    every (new_with_worlds_preserves_order ∷ len_and_is_empty_match ∷ get_by_position_valid ∷ [])
    ≡ true
unfolding every eq_list codes get_by_position
registry_tests = refl

load_from_toml_tests :
    every (
      loads_valid_file ∷ errors_on_missing_file ∷ errors_on_invalid_toml ∷ errors_on_empty_registry
      ∷ [])
    ≡ true
unfolding every eq_list codes parse_worlds_toml check_entries check_entry contains trim trim_start
    trim_end is_whitespace contains_text starts_with strip_prefix to_string digits_onto
    load_from_toml display
load_from_toml_tests = refl
