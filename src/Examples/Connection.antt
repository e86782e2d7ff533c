-- ===== src/Examples/Connection.antt =====
-- The theorems on connection.rs at concrete inputs. One name and password are known.
use liaozhai.Auth.Account.{Account, new_account}
use liaozhai.Auth.RateLimiter.{AuthRateLimiter, new_limiter, remove, reset}
use liaozhai.Common.{
  [], codes, eq_list, false, if◌then◌else◌, none, refl, some, true, ◌++◌, ◌∷◌, ◌≡◌,
}
use liaozhai.Core.Constants.{banner, iac_will_echo, iac_wont_echo, password_prompt}
use liaozhai.Core.Error.{ok}
use liaozhai.Net.Codec.{line}
use liaozhai.Net.Connection.{
  Clock, Connection, Credentials, Event, after_verification, complete, count_success, echo_prefix,
  eof, finished, handle_transition, item, running, send, step,
}
use liaozhai.Net.Connection.Outcomes.{ends-echo_masked}
use liaozhai.Net.Connection.Passes.{Passed, step-Passed}
use liaozhai.Net.Connection.Reached.{
  Fresh, Reached, begin_, echo_masked, echo_masked-is_password_input, pass,
}
use liaozhai.Net.Output.{write_raw}
use liaozhai.Net.Session.{
  apply_state, authenticating, complete_auth, handle_input, handle_password_input, handle_state,
  handle_username_input, initial_prompt, is_password_input, is_session_terminator, new_session,
  welcome_output, world_selection,
}
use liaozhai.Text.Trim.{is_whitespace, to_ascii_lowercase, trim, trim_end, trim_start}
use liaozhai.Text.Utf8.{as_bytes}
use liaozhai.Worlds.Registry.{WorldRegistry, new_registry}

abbrev pub alice : Account
alice = new_account (record { uuid = 7 }) 100 (b'a' ∷ [])

abbrev pub one_account : Credentials
one_account = record {
  Store = Unit;
  verify = λ s name password. if eq_list password (b'p' ∷ []) then ok (some alice) else ok none;
  log_in = λ s now id. ok s;
}

abbrev pub limiter : AuthRateLimiter
limiter = new_limiter 60 1 10

abbrev pub registry : WorldRegistry
registry = new_registry []

abbrev pub Conn : Type 0
Conn = Connection one_account 3 1

abbrev pub greeted : Conn
greeted = record {
  session = new_session registry;
  auth_failures = 0;
  line_count = 0;
  writer = record { sent = as_bytes (banner ++ initial_prompt) ∷ []; results = []; closed = false };
  limiter = limiter;
  store = tt;
}

pub greeted-Fresh : Fresh one_account 3 1 greeted
greeted-Fresh = (refl, refl, refl)

abbrev pub noon : Clock
noon = record { pruned_at = 100; now = 100; unix_now = 1000 }

abbrev pub named : Event
named = item noon (line (b'a' ∷ []))

abbrev pub right : Event
right = item noon (line (b'p' ∷ []))

abbrev pub asked_alice : Conn
asked_alice = record greeted {
  session = apply_state greeted.session (authenticating (some (b'a' ∷ [])));
  line_count = 1;
  writer = record greeted.writer {
    sent = as_bytes (banner ++ initial_prompt) ∷ (iac_will_echo ++ as_bytes password_prompt) ∷ [];
  };
}

pub asks : step one_account 3 1 greeted named ≡ running asked_alice
unfolding step handle_transition send write_raw echo_prefix handle_input handle_state
    handle_username_input is_session_terminator trim trim_start trim_end is_whitespace
    to_ascii_lowercase eq_list codes
asks = refl

pub asked-Reached : Reached one_account 3 1 greeted asked_alice
asked-Reached = pass greeted asked_alice named begin_ asks

abbrev pub logged_in_alice : Conn
logged_in_alice = record asked_alice {
  session = apply_state greeted.session (world_selection alice);
  line_count = 2;
  writer = record greeted.writer {
    sent =
        as_bytes (banner ++ initial_prompt)
        ∷ (iac_will_echo ++ as_bytes password_prompt)
        ∷ iac_wont_echo
        ∷ as_bytes (welcome_output greeted.session alice)
        ∷ [];
  };
}

pub logs_in : step one_account 3 1 asked_alice right ≡ running logged_in_alice
unfolding step handle_transition send write_raw echo_prefix handle_input handle_state
    handle_password_input is_session_terminator trim trim_start trim_end is_whitespace
    to_ascii_lowercase eq_list codes after_verification complete complete_auth count_success reset
    remove
logs_in = refl

logged_in-Reached : Reached one_account 3 1 greeted logged_in_alice
logged_in-Reached = pass asked_alice logged_in_alice right asked-Reached logs_in

echo_masked-is_password_input_example :
    echo_masked false asked_alice.writer.sent ≡ is_password_input asked_alice.session
echo_masked-is_password_input_example =
    echo_masked-is_password_input one_account 3 1 greeted asked_alice greeted-Fresh asked-Reached

step-Passed_example : Passed one_account 3 1 asked_alice logged_in_alice right
step-Passed_example = step-Passed one_account 3 1 asked_alice logged_in_alice right logs_in

leaves : step one_account 3 1 asked_alice eof ≡ finished asked_alice
unfolding step
leaves = refl

ends-echo_masked_example : echo_masked false asked_alice.writer.sent ≡ true
ends-echo_masked_example =
    ends-echo_masked one_account 3 1 greeted asked_alice asked_alice eof greeted-Fresh asked-Reached
      refl tt leaves
