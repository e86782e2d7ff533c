-- ===== src/Tests/Connection/Streams.antt =====
-- The tests of connection.rs on the bytes of a client, its address and the shutdown.
use liaozhai.Auth.RateLimiter.{
  get, is_throttled, make_room, pop_before, prune, put, record_failure, remove, reset,
}
use liaozhai.Auth.Store.{
  account_of, accounts_of, check_dummy, check_hash, create_account, create_parent, generate_hash,
  list_accounts, open_store, record_login, verify_credentials,
}
use liaozhai.Common.{Bool, [], codes, eq_list, refl, replicate, true, ◌∷◌, ◌≡◌}
use liaozhai.Examples.Memory.{find_row, update_rows}
use liaozhai.Net.Codec.{decode, new_codec, with_limits}
use liaozhai.Net.Connection.{
  after_verification, complete, count_failure, count_success, echo_prefix, handle_connection,
  handle_transition, run, send, send_last, start, step,
}
use liaozhai.Net.Output.{write_raw}
use liaozhai.Net.Session.{
  complete_auth, format_world_list, format_world_select_prompt, format_worlds, handle_input,
  handle_password_input, handle_state, handle_username_input, handle_world_selection_input,
  is_session_terminator, max_name_len, select_position,
}
use liaozhai.Tests.{contains_text, every, starts_with}
use liaozhai.Tests.Connection.{
  Creds, closes_studio, converses, ctx_limiter, drained_items, fail_times, frames_from, happens,
  logged_in_before, on_registry, on_store, quits, received_each, rejected_with, talks, talks_over,
  test_password, test_store, toml_worlds, types_line, types_name, types_password, writes,
}
use liaozhai.Tests.Session.{test_registry}
use liaozhai.Text.Decimal.{
  digits_onto, parse_digits, parse_unsigned, parse_usize, push_digit, to_string,
}
use liaozhai.Text.Template.{replace, strip_prefix}
use liaozhai.Text.Trim.{is_whitespace, to_ascii_lowercase, trim, trim_end, trim_start}
use liaozhai.Text.Utf8.{as_bytes, from_utf8_lossy, utf8_char}
use liaozhai.Worlds.Registry.{
  check_entries, check_entry, contains, get_by_position, load_from_toml, parse_worlds_toml,
}

abbrev iac_bytes_stripped_during_session : Bool
iac_bytes_stripped_during_session =
    talks ((writes (0xFF ∷ 0xFB ∷ 0x01 ∷ codes "alice\r\n"), codes "Password: " ∷ []) ∷ quits ∷ [])

abbrev buffer_overflow_disconnects_client : Bool
buffer_overflow_disconnects_client =
    talks_over (λ d. true) test_registry (with_limits 4096 256)
      ((writes (replicate 300 b'x'), codes "Buffer overflow; disconnecting." ∷ []) ∷ [])

abbrev rate_limited_connection_rejected_immediately : Bool
rate_limited_connection_rejected_immediately =
    on_store
      (λ s.
        rejected_with (codes "Too many failed attempts from your IP")
          (handle_connection Creds 3 1 test_registry [] 1000000 (fail_times 15 ctx_limiter) s []))
      test_store

abbrev world_list_loaded_from_toml : Bool
world_list_loaded_from_toml =
    on_registry
      (λ registry.
        talks_over (λ d. true) registry new_codec
          (types_name
            ∷ types_line test_password (
                codes "Test World Alpha"
                ∷ codes "Test World Bravo"
                ∷ codes "Select a world (1-2, or 'quit'):"
                ∷ [])
            ∷ quits
            ∷ []))
      toml_worlds

abbrev shutdown_cancels_active_session : Bool
shutdown_cancels_active_session = talks (closes_studio ∷ [])

abbrev shutdown_during_auth : Bool
shutdown_during_auth = talks (types_name ∷ closes_studio ∷ [])

abbrev shutdown_during_world_selection : Bool
shutdown_during_world_selection = talks (types_name ∷ types_password ∷ closes_studio ∷ [])

abbrev shutdown_at_idle_session : Bool
shutdown_at_idle_session = talks (types_name ∷ types_password ∷ closes_studio ∷ [])

connection_streams_tests :
    every (
      iac_bytes_stripped_during_session ∷ buffer_overflow_disconnects_client
      ∷ rate_limited_connection_rejected_immediately ∷ world_list_loaded_from_toml
      ∷ shutdown_cancels_active_session ∷ shutdown_during_auth ∷ shutdown_during_world_selection
      ∷ shutdown_at_idle_session ∷ [])
    ≡ true
unfolding every codes eq_list converses received_each frames_from happens drained_items decode
    handle_connection start run step handle_transition send send_last write_raw echo_prefix
    is_throttled get put remove reset record_failure make_room prune pop_before handle_input
    handle_state handle_username_input handle_password_input handle_world_selection_input
    select_position get_by_position parse_usize parse_unsigned parse_digits push_digit
    is_session_terminator trim trim_start trim_end is_whitespace to_ascii_lowercase contains_text
    starts_with strip_prefix after_verification complete complete_auth count_success count_failure
    replace format_world_list format_worlds max_name_len as_bytes utf8_char from_utf8_lossy
    format_world_select_prompt to_string digits_onto open_store create_parent generate_hash
    create_account verify_credentials check_hash check_dummy account_of accounts_of list_accounts
    record_login find_row update_rows logged_in_before fail_times load_from_toml parse_worlds_toml
    check_entries check_entry contains
connection_streams_tests = refl
