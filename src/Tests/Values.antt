-- ===== src/Tests/Values.antt =====
-- The tests of the small files: constants.rs and error.rs of crates/liaozhai-core, account.rs and
-- params.rs of crates/liaozhai-auth, metadata.rs of crates/liaozhai-worlds, and output.rs of
-- crates/liaozhai-net, as far as the crates decide their outcome.
use liaozhai.Auth.Account.{from_row, new_account}
use liaozhai.Auth.Params.{default_params}
use liaozhai.Auth.RateLimiter.{is_some}
use liaozhai.Common.{
  Bool, Bytes, [], codes, eq_list, false, is_empty, length, ltb, none, not, refl, some, true, ◌&&◌,
  ◌*◌, ◌==◌, ◌∷◌, ◌≡◌,
}
use liaozhai.Core.Constants.{
  auth_failed_msg, auth_max_retries_msg, auth_rate_limited_msg, banner, iac_will_echo,
  iac_wont_echo, max_buffer_size, max_line_length, password_prompt, username_prompt, version,
  welcome_template, world_select_prompt_template, world_selected_template,
  world_selection_out_of_range_msg,
}
use liaozhai.Core.Error.{Error, display}
use liaozhai.Core.Id.{AccountId}
use liaozhai.Net.Output.{LineWriter, new_writer, shut_down, write_line, write_raw}
use liaozhai.Tests.{contains_text, every, starts_with}
use liaozhai.Text.Template.{strip_prefix}
use liaozhai.Text.Utf8.{as_bytes, utf8_char}
use liaozhai.Worlds.Metadata.{new_world}

abbrev version_is_non_empty : Bool
version_is_non_empty = not (is_empty version)

abbrev banner_contains_version : Bool
banner_contains_version = contains_text banner version

abbrev max_line_length_is_4096 : Bool
max_line_length_is_4096 = max_line_length == 4096

abbrev max_buffer_size_is_10mb : Bool
max_buffer_size_is_10mb = max_buffer_size == 10 * 1024 * 1024

abbrev username_prompt_is_non_empty : Bool
username_prompt_is_non_empty = not (is_empty username_prompt)

abbrev password_prompt_is_non_empty : Bool
password_prompt_is_non_empty = not (is_empty password_prompt)

abbrev templates_contain_placeholders : Bool
templates_contain_placeholders =
    contains_text welcome_template (codes "{username}")
    && contains_text world_selected_template (codes "{world}")
    && contains_text world_select_prompt_template (codes "{n}")
    && contains_text world_selection_out_of_range_msg (codes "{n}")

abbrev iac_echo_sequences_are_3_bytes : Bool
iac_echo_sequences_are_3_bytes = length iac_will_echo == 3 && length iac_wont_echo == 3

abbrev auth_messages_non_empty : Bool
auth_messages_non_empty =
    not (is_empty auth_failed_msg)
    && not (is_empty auth_max_retries_msg)
    && not (is_empty auth_rate_limited_msg)

abbrev banner_contains_project_name : Bool
banner_contains_project_name =
    contains_text banner (codes "Liaozhai MUX")
    && contains_text banner (codes "Multi-User eXegesis")

abbrev error_display_formatting : Bool
error_display_formatting =
    eq_list (display (Error.config (codes "missing field")))
      (codes "configuration error: missing field")

abbrev codec_error_display : Bool
codec_error_display =
    eq_list (display (Error.codec (codes "line too long"))) (codes "codec error: line too long")

abbrev id_5 : AccountId
id_5 = record { uuid = 5 }

abbrev account_new_getters : Bool
account_new_getters =
    let acct = new_account id_5 1000 (codes "alice") in
    eq_list acct.username (codes "alice")
    && ltb 0 acct.created_at
    && not (is_some acct.last_login_at)

abbrev account_from_row_getters : Bool
account_from_row_getters =
    let acct = from_row id_5 (codes "bob") 1000 (some 2000) in
    acct.id.uuid == 5
    && eq_list acct.username (codes "bob")
    && acct.created_at == 1000
    && elim acct.last_login_at [ none ↦ false | some t ↦ t == 2000 ]

abbrev default_params_match_owasp : Bool
default_params_match_owasp =
    default_params.m_cost == 19456 && default_params.t_cost == 2 && default_params.p_cost == 1

abbrev new_and_getters : Bool
new_and_getters =
    let meta =
      new_world (record { uuid = 0 }) (codes "studio-dusk") (codes "The Studio at Dusk")
        (codes "A small interior, warmly lit.") in
    eq_list meta.slug (codes "studio-dusk")
    && eq_list meta.name (codes "The Studio at Dusk")
    && eq_list meta.short_description (codes "A small interior, warmly lit.")

-- The writer succeeds, has sent the bytes in one write, and is shut down.
sends : LineWriter × Bool → Bytes → Bool
unfolding eq_list
sends (w, success) bytes =
    success
    && (shut_down w).closed
    && elim w.sent [ [] ↦ false | frame ∷ frames ↦ eq_list frame bytes && is_empty frames ]

abbrev write_line_appends_crlf : Bool
write_line_appends_crlf = sends (write_line (new_writer []) (codes "hello")) (codes "hello\r\n")

abbrev write_raw_sends_exact_bytes : Bool
write_raw_sends_exact_bytes = sends (write_raw (new_writer []) (codes "raw\n")) (codes "raw\n")

constant_tests :
    every (
      version_is_non_empty ∷ banner_contains_version ∷ max_line_length_is_4096
      ∷ max_buffer_size_is_10mb ∷ username_prompt_is_non_empty ∷ password_prompt_is_non_empty
      ∷ templates_contain_placeholders ∷ iac_echo_sequences_are_3_bytes ∷ auth_messages_non_empty
      ∷ banner_contains_project_name ∷ [])
    ≡ true
unfolding every codes contains_text starts_with strip_prefix
constant_tests = refl

error_tests : every (error_display_formatting ∷ codec_error_display ∷ []) ≡ true
unfolding every codes eq_list display
error_tests = refl

record_tests :
    every (
      account_new_getters ∷ account_from_row_getters ∷ default_params_match_owasp ∷ new_and_getters
      ∷ [])
    ≡ true
unfolding every codes eq_list
record_tests = refl

writer_tests : every (write_line_appends_crlf ∷ write_raw_sends_exact_bytes ∷ []) ≡ true
unfolding every codes eq_list write_line write_raw as_bytes utf8_char sends
writer_tests = refl
