-- ===== src/Tests/Session.antt =====
-- The tests of crates/liaozhai-net/src/session.rs.
use liaozhai.Auth.Account.{Account, new_account}
use liaozhai.Common.{
  Bool, Option, Text, [], codes, eq_list, false, none, not, refl, some, true, ℕ, ◌&&◌, ◌+◌, ◌∷◌,
  ◌≡◌,
}
use liaozhai.Core.Id.{WorldId}
use liaozhai.Net.Session.{
  Session, SessionState, Transition, advance, apply_state, auth_pending, authenticating,
  complete_auth, disconnect, format_world_list, format_world_select_prompt, format_worlds,
  handle_input, handle_password_input, handle_state, handle_username_input,
  handle_world_selection_input, is_password_input, is_session_terminator, max_name_len, new_session,
  select_position, stay, world_selection,
}
use liaozhai.Tests.{contains_text, every, starts_with}
use liaozhai.Text.Decimal.{
  digits_onto, parse_digits, parse_unsigned, parse_usize, push_digit, to_string,
}
use liaozhai.Text.Template.{replace, strip_prefix}
use liaozhai.Text.Trim.{is_whitespace, to_ascii_lowercase, trim, trim_end, trim_start}
use liaozhai.Text.Utf8.{as_bytes, utf8_char}
use liaozhai.Worlds.Metadata.{new_world}
use liaozhai.Worlds.Registry.{WorldRegistry, get_by_position, new_registry}

abbrev studio : Text
studio = codes "The Studio at Dusk"

abbrev mountain : Text
mountain = codes "The Mountain Trail"

abbrev library : Text
library = codes "The Library of Echoes"

abbrev no_id : WorldId
no_id = record { uuid = 0 }

abbrev pub test_registry : WorldRegistry
test_registry = new_registry (
    new_world no_id (codes "studio-dusk") studio (codes "A small interior, warmly lit.")
    ∷ new_world no_id (codes "mountain-trail") mountain (codes "A path winding into mist.")
    ∷ new_world no_id (codes "library-echoes") library
        (codes "A reading room of recursive proportions.")
    ∷ [])

abbrev test_session : Session
test_session = new_session test_registry

abbrev test_account : Account
test_account = new_account (record { uuid = 0 }) 0 (codes "alice")

abbrev for_password : Session
for_password = apply_state test_session (authenticating (some (codes "alice")))

abbrev for_world : Session
for_world = apply_state test_session (world_selection test_account)

-- The arms of the matches on a transition; another transition fails the test.
abbrev stay_with : (Text → Bool) → Transition → Bool
stay_with asserted (stay output) = asserted output
stay_with asserted _ = false

abbrev advance_with : (SessionState → Text → Bool) → Transition → Bool
advance_with asserted (advance next output) = asserted next output
advance_with asserted _ = false

abbrev disconnect_with : (Text → Bool) → Transition → Bool
disconnect_with asserted (disconnect goodbye) = asserted goodbye
disconnect_with asserted _ = false

abbrev is_disconnect : Transition → Bool
is_disconnect t = disconnect_with (λ goodbye. true) t

abbrev pending_with : Text → Text → Transition → Bool
pending_with username password (auth_pending u p) = eq_list u username && eq_list p password
pending_with username password _ = false

abbrev is_authenticating : Option Text → SessionState → Bool
is_authenticating none (authenticating none) = true
is_authenticating (some name) (authenticating (some given)) = eq_list given name
is_authenticating _ _ = false

abbrev is_world_selection : SessionState → Bool
is_world_selection (world_selection account) = true
is_world_selection _ = false

abbrev session_terminator_quit : Bool
session_terminator_quit = is_session_terminator (codes "quit")

abbrev session_terminator_exit : Bool
session_terminator_exit = is_session_terminator (codes "exit")

abbrev session_terminator_bye : Bool
session_terminator_bye = is_session_terminator (codes "bye")

abbrev session_terminator_disconnect : Bool
session_terminator_disconnect = is_session_terminator (codes "disconnect")

abbrev session_terminator_case_insensitive : Bool
session_terminator_case_insensitive =
    is_session_terminator (codes "QUIT")
    && is_session_terminator (codes "Exit")
    && is_session_terminator (codes "BYE")

abbrev session_terminator_whitespace : Bool
session_terminator_whitespace = is_session_terminator (codes "  quit  ")

abbrev session_terminator_rejects_other : Bool
session_terminator_rejects_other =
    not (is_session_terminator (codes "hello"))
    && not (is_session_terminator (codes ""))
    && not (is_session_terminator (codes "quitting"))

abbrev username_accepts_non_empty : Bool
username_accepts_non_empty =
    advance_with
      (λ next output.
        is_authenticating (some (codes "alice")) next && contains_text output (codes "Password"))
      (handle_input test_session (codes "alice"))

abbrev username_rejects_empty : Bool
username_rejects_empty =
    stay_with
      (λ output.
        contains_text output (codes "cannot be empty") && contains_text output (codes "Username: "))
      (handle_input test_session (codes ""))

abbrev username_rejects_whitespace_only : Bool
username_rejects_whitespace_only =
    stay_with (λ output. contains_text output (codes "cannot be empty"))
      (handle_input test_session (codes "   "))

abbrev username_quit_disconnects : Bool
username_quit_disconnects = is_disconnect (handle_input test_session (codes "quit"))

abbrev username_exit_disconnects : Bool
username_exit_disconnects = is_disconnect (handle_input test_session (codes "exit"))

abbrev password_returns_auth_pending : Bool
password_returns_auth_pending =
    pending_with (codes "alice") (codes "secret") (handle_input for_password (codes "secret"))

abbrev complete_auth_success_advances_to_world_selection : Bool
complete_auth_success_advances_to_world_selection =
    advance_with
      (λ next output.
        is_world_selection next
        && contains_text output (codes "Welcome, alice")
        && contains_text output (codes "Available worlds:"))
      (complete_auth test_session (some test_account))

abbrev complete_auth_failure_returns_to_username : Bool
complete_auth_failure_returns_to_username =
    advance_with
      (λ next output.
        is_authenticating none next
        && contains_text output (codes "Authentication failed")
        && contains_text output (codes "Username: "))
      (complete_auth test_session none)

abbrev password_rejects_empty : Bool
password_rejects_empty =
    stay_with
      (λ output.
        contains_text output (codes "cannot be empty") && contains_text output (codes "Password: "))
      (handle_input for_password (codes ""))

abbrev password_quit_disconnects : Bool
password_quit_disconnects = is_disconnect (handle_input for_password (codes "quit"))

abbrev is_password_input_when_waiting_for_password : Bool
is_password_input_when_waiting_for_password =
    not (is_password_input test_session) && is_password_input for_password

abbrev world_selection_valid_choice : Bool
world_selection_valid_choice =
    disconnect_with
      (λ goodbye. contains_text goodbye studio && contains_text goodbye (codes "Disconnecting"))
      (handle_input for_world (codes "1"))

abbrev chooses : Text → ℕ → Bool
chooses name i =
    disconnect_with (λ goodbye. contains_text goodbye name)
      (handle_input for_world (to_string (i + 1)))

abbrev world_selection_all_valid_choices : Bool
world_selection_all_valid_choices = chooses studio 0 && chooses mountain 1 && chooses library 2

abbrev world_selection_zero_rejected : Bool
world_selection_zero_rejected =
    stay_with (λ output. contains_text output (codes "between 1 and 3"))
      (handle_input for_world (codes "0"))

abbrev world_selection_out_of_range_rejected : Bool
world_selection_out_of_range_rejected =
    stay_with (λ output. contains_text output (codes "between 1 and 3"))
      (handle_input for_world (codes "4"))

abbrev world_selection_non_numeric_rejected : Bool
world_selection_non_numeric_rejected =
    stay_with (λ output. contains_text output (codes "Please enter a number"))
      (handle_input for_world (codes "abc"))

abbrev world_selection_empty_rejected : Bool
world_selection_empty_rejected =
    stay_with
      (λ output.
        contains_text output (codes "Please enter a number")
        && contains_text output (codes "Select a world"))
      (handle_input for_world (codes ""))

abbrev world_selection_quit_disconnects : Bool
world_selection_quit_disconnects =
    disconnect_with (λ goodbye. contains_text goodbye (codes "strange tale"))
      (handle_input for_world (codes "quit"))

abbrev format_world_list_matches_demo : Bool
format_world_list_matches_demo =
    let output = format_world_list test_registry.worlds in
    starts_with output (codes "Available worlds:\r\n")
    && contains_text output (codes "  1. The Studio at Dusk")
    && contains_text output (codes "  2. The Mountain Trail")
    && contains_text output (codes "  3. The Library of Echoes")

abbrev format_world_list_empty_registry : Bool
format_world_list_empty_registry = eq_list (format_world_list []) (codes "Available worlds:\r\n")

abbrev world_select_prompt_shows_range : Bool
world_select_prompt_shows_range =
    eq_list (format_world_select_prompt 3) (codes "Select a world (1-3, or 'quit'): ")

session_terminator_tests :
    every (
      session_terminator_quit ∷ session_terminator_exit ∷ session_terminator_bye
      ∷ session_terminator_disconnect ∷ session_terminator_case_insensitive
      ∷ session_terminator_whitespace ∷ session_terminator_rejects_other ∷ [])
    ≡ true
unfolding is_session_terminator eq_list trim trim_start trim_end is_whitespace to_ascii_lowercase
    codes every
session_terminator_tests = refl

username_tests :
    every (
      username_accepts_non_empty ∷ username_rejects_empty ∷ username_rejects_whitespace_only
      ∷ username_quit_disconnects ∷ username_exit_disconnects ∷ [])
    ≡ true
unfolding is_session_terminator eq_list trim trim_start trim_end is_whitespace to_ascii_lowercase
    codes every handle_input handle_state handle_username_input contains_text starts_with
    strip_prefix
username_tests = refl

password_tests :
    every (
      password_returns_auth_pending ∷ complete_auth_success_advances_to_world_selection
      ∷ complete_auth_failure_returns_to_username ∷ password_rejects_empty
      ∷ password_quit_disconnects ∷ is_password_input_when_waiting_for_password ∷ [])
    ≡ true
unfolding is_session_terminator eq_list trim trim_start trim_end is_whitespace to_ascii_lowercase
    codes every handle_input handle_state handle_password_input contains_text starts_with
    strip_prefix complete_auth replace format_world_list format_worlds max_name_len as_bytes
    utf8_char format_world_select_prompt to_string digits_onto
password_tests = refl

world_selection_tests :
    every (
      world_selection_valid_choice ∷ world_selection_all_valid_choices
      ∷ world_selection_zero_rejected ∷ world_selection_out_of_range_rejected
      ∷ world_selection_non_numeric_rejected ∷ world_selection_empty_rejected
      ∷ world_selection_quit_disconnects ∷ [])
    ≡ true
unfolding is_session_terminator eq_list trim trim_start trim_end is_whitespace to_ascii_lowercase
    codes every handle_input handle_state handle_world_selection_input select_position
    get_by_position parse_usize parse_unsigned parse_digits push_digit contains_text starts_with
    strip_prefix replace format_world_select_prompt to_string digits_onto
world_selection_tests = refl

format_tests :
    every (
      format_world_list_matches_demo ∷ format_world_list_empty_registry
      ∷ world_select_prompt_shows_range ∷ [])
    ≡ true
unfolding eq_list codes every contains_text starts_with strip_prefix replace format_world_list
    format_worlds max_name_len as_bytes utf8_char format_world_select_prompt to_string digits_onto
format_tests = refl
