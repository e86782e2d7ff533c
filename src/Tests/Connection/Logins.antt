-- ===== src/Tests/Connection/Logins.antt =====
-- The tests of connection.rs on logging in and leaving.
use liaozhai.Auth.RateLimiter.{
  get, is_throttled, make_room, pop_before, prune, put, record_failure, remove, reset,
}
use liaozhai.Auth.Store.{
  account_of, accounts_of, check_dummy, check_hash, create_account, create_parent, generate_hash,
  list_accounts, open_store, record_login, verify_credentials,
}
use liaozhai.Common.{Bool, [], codes, eq_list, refl, true, ◌∷◌, ◌≡◌}
use liaozhai.Core.Constants.{iac_will_echo, iac_wont_echo}
use liaozhai.Examples.Memory.{find_row, memory, plain_kdf, plain_uuids, update_rows}
use liaozhai.Net.Codec.{decode, new_codec}
use liaozhai.Net.Connection.{
  after_verification, complete, count_failure, count_success, echo_prefix, handle_connection,
  handle_transition, run, send, send_last, start, step,
}
use liaozhai.Net.Output.{write_raw}
use liaozhai.Net.Session.{
  complete_auth, format_world_list, format_world_select_prompt, format_worlds, handle_input,
  handle_password_input, handle_state, handle_username_input, handle_world_selection_input,
  is_session_terminator, max_name_len, select_position,
}
use liaozhai.Tests.{contains_text, every, starts_with}
use liaozhai.Tests.Connection.{
  converses, drained_items, drops, fail_times, frames_from, happens, logged_in_before, quits,
  quits_politely, received_each, talks, talks_over, test_password, types_line, types_name,
  types_password,
}
use liaozhai.Tests.Session.{test_registry}
use liaozhai.Text.Decimal.{
  digits_onto, parse_digits, parse_unsigned, parse_usize, push_digit, to_string,
}
use liaozhai.Text.Template.{replace, strip_prefix}
use liaozhai.Text.Trim.{is_whitespace, to_ascii_lowercase, trim, trim_end, trim_start}
use liaozhai.Text.Utf8.{as_bytes, from_utf8_lossy, utf8_char}
use liaozhai.Worlds.Registry.{
  check_entries, check_entry, contains, get_by_position, load_from_toml, parse_worlds_toml,
}

abbrev full_v01_demo : Bool
full_v01_demo = talks (
    types_name
    ∷ types_line test_password (
        codes "Welcome, alice"
        ∷ codes "Available worlds:"
        ∷ codes "Select a world (1-3, or 'quit'):"
        ∷ [])
    ∷ types_line (codes "1") (codes "Disconnecting" ∷ codes "The Studio at Dusk" ∷ [])
    ∷ [])

abbrev failed_login_re_prompts_for_username : Bool
failed_login_re_prompts_for_username = talks (
    types_name
    ∷ types_line (codes "wrongpass") (codes "Authentication failed" ∷ codes "Username: " ∷ [])
    ∷ quits
    ∷ [])

abbrev three_failed_logins_disconnects : Bool
three_failed_logins_disconnects = talks (
    types_name
    ∷ types_line (codes "wrong") (codes "Username: " ∷ [])
    ∷ types_name
    ∷ types_line (codes "wrong") (codes "Username: " ∷ [])
    ∷ types_name
    ∷ types_line (codes "wrong") (codes "Too many failed attempts. Disconnecting." ∷ [])
    ∷ [])

abbrev unknown_user_returns_auth_failed : Bool
unknown_user_returns_auth_failed = talks (
    types_line (codes "nobody") (codes "Password: " ∷ [])
    ∷ types_line (codes "whatever") (codes "Username: " ∷ codes "Authentication failed" ∷ [])
    ∷ quits
    ∷ [])

abbrev iac_will_echo_before_password_prompt : Bool
iac_will_echo_before_password_prompt =
    talks (types_line (codes "alice") (codes "Password: " ∷ iac_will_echo ∷ []) ∷ quits ∷ [])

abbrev iac_wont_echo_after_password : Bool
iac_wont_echo_after_password =
    talks
      (types_name ∷ types_line test_password (codes "Welcome" ∷ iac_wont_echo ∷ []) ∷ quits ∷ [])

abbrev successful_login_records_last_login_at : Bool
successful_login_records_last_login_at =
    talks_over (λ d. logged_in_before (list_accounts memory plain_kdf plain_uuids d.store))
      test_registry new_codec (types_name ∷ types_password ∷ quits ∷ [])

abbrev quit_at_username_state : Bool
quit_at_username_state = talks (quits_politely ∷ [])

abbrev quit_at_password_state : Bool
quit_at_password_state = talks (types_name ∷ quits_politely ∷ [])

abbrev quit_at_world_selection_state : Bool
quit_at_world_selection_state = talks (types_name ∷ types_password ∷ quits_politely ∷ [])

abbrev invalid_username_re_prompts : Bool
invalid_username_re_prompts =
    talks (types_line (codes "") (codes "Username: " ∷ codes "cannot be empty" ∷ []) ∷ quits ∷ [])

abbrev invalid_world_selection_re_prompts : Bool
invalid_world_selection_re_prompts = talks (
    types_name
    ∷ types_password
    ∷ types_line (codes "4") (codes "Select a world" ∷ codes "between 1 and 3" ∷ [])
    ∷ types_line (codes "2") (codes "Disconnecting" ∷ codes "The Mountain Trail" ∷ [])
    ∷ [])

abbrev client_disconnect_without_quit : Bool
client_disconnect_without_quit = talks ((drops, []) ∷ [])

connection_logins_tests :
    every (
      full_v01_demo ∷ failed_login_re_prompts_for_username ∷ three_failed_logins_disconnects
      ∷ unknown_user_returns_auth_failed ∷ iac_will_echo_before_password_prompt
      ∷ iac_wont_echo_after_password ∷ successful_login_records_last_login_at
      ∷ quit_at_username_state ∷ quit_at_password_state ∷ quit_at_world_selection_state
      ∷ invalid_username_re_prompts ∷ invalid_world_selection_re_prompts
      ∷ client_disconnect_without_quit ∷ [])
    ≡ true
unfolding every codes eq_list converses received_each frames_from happens drained_items decode
    handle_connection start run step handle_transition send send_last write_raw echo_prefix
    is_throttled get put remove reset record_failure make_room prune pop_before handle_input
    handle_state handle_username_input handle_password_input handle_world_selection_input
    select_position get_by_position parse_usize parse_unsigned parse_digits push_digit
    is_session_terminator trim trim_start trim_end is_whitespace to_ascii_lowercase contains_text
    starts_with strip_prefix after_verification complete complete_auth count_success count_failure
    replace format_world_list format_worlds max_name_len as_bytes utf8_char from_utf8_lossy
    format_world_select_prompt to_string digits_onto open_store create_parent generate_hash
    create_account verify_credentials check_hash check_dummy account_of accounts_of list_accounts
    record_login find_row update_rows logged_in_before fail_times load_from_toml parse_worlds_toml
    check_entries check_entry contains
connection_logins_tests = refl
