-- ===== src/Examples/Logins.antt =====
-- The theorems on whole logins over connection.rs at concrete inputs.
use liaozhai.Auth.RateLimiter.{reset}
use liaozhai.Common.{Text, [], arith, codes, eq_list, false, refl, true, ◌++◌, ◌∷◌, ◌≡◌}
use liaozhai.Core.Constants.{goodbye_msg, iac_will_echo, iac_wont_echo, password_prompt}
use liaozhai.Examples.Connection.{
  Conn, alice, asked-Reached, asked_alice, greeted, greeted-Fresh, named, noon, one_account, right,
}
use liaozhai.Net.Codec.{line}
use liaozhai.Net.Connection.{finished, handle_transition, item, run, running, send_last, step}
use liaozhai.Net.Connection.Lockout.{Attempt, IsWrong, events_of, run-max_login_attempts}
use liaozhai.Net.Connection.Login.{Gives, run-world_selection}
use liaozhai.Net.Connection.Reached.{echo_masked}
use liaozhai.Net.Connection.Restored.{line-echo_masked}
use liaozhai.Net.Output.{write_raw}
use liaozhai.Net.Session.{
  apply_state, handle_input, handle_password_input, handle_state, is_session_terminator,
  welcome_output, world_selection,
}
use liaozhai.Text.Trim.{is_whitespace, to_ascii_lowercase, trim, trim_end, trim_start}
use liaozhai.Text.Utf8.{as_bytes}

abbrev pub letter_a : Text
letter_a = b'a' ∷ []

abbrev pub letter_p : Text
letter_p = b'p' ∷ []

abbrev pub letter_x : Text
letter_x = b'x' ∷ []

pub a-Gives : Gives letter_a letter_a
unfolding trim trim_start trim_end is_whitespace is_session_terminator to_ascii_lowercase eq_list
    codes
a-Gives = record { typed = refl; given = refl; no_quit = refl }

pub p-Gives : Gives letter_p letter_p
unfolding trim trim_start trim_end is_whitespace is_session_terminator to_ascii_lowercase eq_list
    codes
p-Gives = record { typed = refl; given = refl; no_quit = refl }

x-Gives : Gives letter_x letter_x
unfolding trim trim_start trim_end is_whitespace is_session_terminator to_ascii_lowercase eq_list
    codes
x-Gives = record { typed = refl; given = refl; no_quit = refl }

run-world_selection_example :
    (d : Conn) × (run one_account 3 1 greeted (named ∷ right ∷ []) ≡ running d)
    × (d.session ≡ apply_state greeted.session (world_selection alice))
    × (d.writer.sent
        ≡ ((greeted.writer.sent ++ (iac_will_echo ++ as_bytes password_prompt) ∷ [])
            ++ iac_wont_echo ∷ [])
          ++ as_bytes (welcome_output greeted.session alice) ∷ [])
    × (d.auth_failures ≡ greeted.auth_failures)
    × (d.limiter ≡ reset greeted.limiter 1)
unfolding eq_list
run-world_selection_example =
    run-world_selection one_account 3 1 greeted noon noon letter_a letter_p letter_a letter_p alice
      refl refl a-Gives p-Gives refl

abbrev pub wrong : Attempt
wrong = record {
  named_at = noon;
  answered_at = noon;
  first = letter_a;
  second = letter_x;
  name = letter_a;
  password = letter_x;
}

pub wrong-IsWrong : IsWrong one_account 3 1 tt wrong
unfolding eq_list
wrong-IsWrong = record { gives_name = a-Gives; gives_password = x-Gives; refuses = refl }

run-max_login_attempts_example :
    (d : Conn) × (run one_account 3 1 greeted (events_of (wrong ∷ wrong ∷ wrong ∷ []) (named ∷ []))
      ≡ finished d)
    × (d.auth_failures ≡ 3)
    × (d.writer.closed ≡ true)
    × (d.store ≡ greeted.store)
run-max_login_attempts_example =
    run-max_login_attempts one_account 3 1 greeted (wrong ∷ wrong ∷ wrong ∷ []) (named ∷ []) refl
      refl (wrong-IsWrong, (wrong-IsWrong, (wrong-IsWrong, tt))) (omega arith) (omega arith)
      (omega arith)

abbrev quit : Text
quit = b'q' ∷ b'u' ∷ b'i' ∷ b't' ∷ []

abbrev quit_alice : Conn
quit_alice = record asked_alice {
  line_count = 2;
  writer = record asked_alice.writer {
    sent = (asked_alice.writer.sent ++ iac_wont_echo ∷ []) ++ as_bytes goodbye_msg ∷ [];
  };
}

quits : step one_account 3 1 asked_alice (item noon (line quit)) ≡ finished quit_alice
unfolding step handle_transition send_last write_raw handle_input handle_state handle_password_input
    is_session_terminator trim trim_start trim_end is_whitespace to_ascii_lowercase eq_list codes
quits = refl

line-echo_masked_example : echo_masked false quit_alice.writer.sent ≡ false
line-echo_masked_example =
    line-echo_masked one_account 3 1 greeted asked_alice quit_alice noon (line quit) greeted-Fresh
      asked-Reached refl quits
