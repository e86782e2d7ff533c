-- ===== src/Examples/Session.antt =====
-- The theorems on session.rs and the registry of worlds at concrete inputs.
use liaozhai.Auth.Account.{Account, new_account}
use liaozhai.Common.{
  All, List, Text, [], arith, codes, eq_list, get_elem?, refl, some, ℕ, ◌-◌, ◌<◌, ◌↔◌, ◌∷◌, ◌≡◌,
  ◌≤◌, ◌⊎◌,
}
use liaozhai.Core.Constants.{password_prompt}
use liaozhai.Core.Error.{Result, ok}
use liaozhai.Core.Id.{WorldId}
use liaozhai.Net.Session.{
  Session, advance, auth_pending, authenticating, disconnect, handle_input, handle_state,
  handle_username_input, is_session_terminator, new_session, stay,
}
use liaozhai.Net.Session.Input.{Pending, auth_pending_iff}
use liaozhai.Net.Session.Selection.{handle_input-to_string, selected_goodbye, selecting}
use liaozhai.Text.Decimal.{to_string}
use liaozhai.Text.Trim.{is_whitespace, to_ascii_lowercase, trim, trim_end, trim_start}
use liaozhai.Worlds.Metadata.{WorldEntryDto, WorldMetadata, new_world}
use liaozhai.Worlds.Registry.{WorldRegistry, new_registry, parse_worlds_toml, registry_len}
use liaozhai.Worlds.Registry.Valid.{Distinct, IsFilled, parse_worlds_toml_iff, worlds_of}

abbrev alice : Account
alice = new_account (record { uuid = 7 }) 100 (codes "alice")

abbrev dusk : WorldMetadata
dusk = new_world (record { uuid = 1 }) (codes "dusk") (codes "Dusk") (codes "A room.")

abbrev trail : WorldMetadata
trail = new_world (record { uuid = 2 }) (codes "trail") (codes "Trail") (codes "A path.")

-- The registry that the tests of session.rs share, with two worlds.
abbrev pub test_registry : WorldRegistry
test_registry = new_registry (dusk ∷ trail ∷ [])

abbrev asking : Session
asking = record { state = authenticating (some (codes "alice")); registry = test_registry }

abbrev padded : Text
padded = b' ' ∷ b'p' ∷ b'w' ∷ b' ' ∷ []

auth_pending_iff_example :
    (handle_input asking padded ≡ auth_pending (codes "alice") (b'p' ∷ b'w' ∷ []))
    ↔ Pending asking.state padded (codes "alice") (b'p' ∷ b'w' ∷ [])
auth_pending_iff_example = auth_pending_iff asking padded (codes "alice") (b'p' ∷ b'w' ∷ [])

-- A name that is typed.
typed_name :
    handle_input (new_session test_registry) (b'p' ∷ b'w' ∷ [])
    ≡ advance (authenticating (some (b'p' ∷ b'w' ∷ []))) password_prompt
unfolding handle_input handle_state handle_username_input is_session_terminator trim trim_start
    trim_end is_whitespace to_ascii_lowercase eq_list codes
typed_name = refl

handle_input-to_string_example :
    ((w : WorldMetadata) × (get_elem? test_registry.worlds (2 - 1) ≡ some w)
      × (1 ≤ 2)
      × (2 ≤ registry_len test_registry)
      × (handle_input (selecting test_registry alice) (to_string 2)
          ≡ disconnect (selected_goodbye w)))
    ⊎ (((◌≡◌ {A = ℕ} 2 0) ⊎ (registry_len test_registry < 2))
        × ((output : Text) × (handle_input (selecting test_registry alice) (to_string 2)
              ≡ stay output)))
handle_input-to_string_example = handle_input-to_string test_registry alice 2 (omega arith)

-- A file with one world, whose fields have whitespace around them, and its reading.
abbrev entry : WorldEntryDto
entry = record { slug = b' ' ∷ b'd' ∷ []; name = b'D' ∷ b' ' ∷ []; short = b'r' ∷ [] }

abbrev fresh_world : ℕ → WorldId
fresh_world i = record { uuid = i }

abbrev reads_entry : Text → Result Text (List WorldEntryDto)
reads_entry content = ok (entry ∷ [])

entry-IsFilled : All IsFilled (entry ∷ [])
unfolding trim trim_start trim_end is_whitespace
entry-IsFilled = (record { slug = λ e. cc; name = λ e. cc; short = λ e. cc }, tt)

parse_worlds_toml_iff_example :
    (parse_worlds_toml fresh_world reads_entry [] ≡ ok (worlds_of fresh_world 0 (entry ∷ []))) ↔ (
      All IsFilled (entry ∷ [])
      × Distinct (entry ∷ [])
      × (worlds_of fresh_world 0 (entry ∷ []) ≡ worlds_of fresh_world 0 (entry ∷ [])))
parse_worlds_toml_iff_example =
    parse_worlds_toml_iff fresh_world reads_entry [] (entry ∷ []) refl
      (worlds_of fresh_world 0 (entry ∷ []))
