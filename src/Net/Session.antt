-- ===== src/Net/Session.antt =====
-- crates/liaozhai-net/src/session.rs: the session is pure, and so is the model.
pub mod Input
pub mod Selection
pub mod Outputs
use Prim.Native.Nat.{max}
use liaozhai.Auth.Account.{Account}
use liaozhai.Common.{
  Bool, List, Option, Text, [], codes, eq_list, false, if◌then◌else◌, is_empty, length, none, some,
  true, ℕ, ◌++◌, ◌+◌, ◌||◌, ◌∷◌,
}
use liaozhai.Core.Constants.{
  auth_failed_msg, empty_password_msg, empty_username_msg, goodbye_msg, password_prompt,
  username_prompt, welcome_template, world_select_prompt_template, world_selected_template,
  world_selection_non_numeric_msg, world_selection_out_of_range_msg, worlds_header,
}
use liaozhai.Text.Decimal.{parse_usize, to_string}
use liaozhai.Text.Template.{pad_right, replace}
use liaozhai.Text.Trim.{to_ascii_lowercase, trim}
use liaozhai.Text.Utf8.{as_bytes}
use liaozhai.Worlds.Metadata.{WorldMetadata}
use liaozhai.Worlds.Registry.{WorldRegistry, get_by_position, registry_len}

pub data SessionState : Type 0 where
  authenticating : (username : Option Text) → SessionState
  world_selection : (account : Account) → SessionState

pub data Transition : Type 0 where
  stay : (output : Text) → Transition
  advance : (next : SessionState) (output : Text) → Transition
  disconnect : (goodbye : Text) → Transition
  auth_pending : (username password : Text) → Transition

pub record Session : Type 0 where
  pub state : SessionState
  pub registry : WorldRegistry

abbrev pub new_session : WorldRegistry → Session
new_session registry = record { state = authenticating none; registry = registry }

abbrev pub initial_prompt : Text
initial_prompt = username_prompt

-- `Session::apply`
abbrev pub apply_state : Session → SessionState → Session
apply_state s next = record s { state = next }

abbrev pub is_password_state : SessionState → Bool
is_password_state (authenticating (some name)) = true
is_password_state _ = false

-- `Session::is_password_input`
abbrev pub is_password_input : Session → Bool
is_password_input s = is_password_state s.state

unfoldable pub is_session_terminator : Text → Bool
unfolding eq_list
is_session_terminator input =
    let word = to_ascii_lowercase (trim input) in
    eq_list word (codes "quit")
    || eq_list word (codes "exit")
    || eq_list word (codes "bye")
    || eq_list word (codes "disconnect")

-- `worlds.iter().map(|w| w.name().len()).max().unwrap_or(0)`, in bytes
unfoldable pub max_name_len : List WorldMetadata → ℕ
max_name_len [] = 0
max_name_len (w ∷ ws) = max (length (as_bytes w.name)) (max_name_len ws)

unfoldable pub format_worlds : ℕ → ℕ → List WorldMetadata → Text
format_worlds name_width i [] = []
format_worlds name_width i (w ∷ ws) =
    codes "  "
    ++ (to_string (i + 1)
        ++ (codes ". "
            ++ (pad_right name_width w.name
                ++ (w.short_description ++ (codes "\r\n" ++ format_worlds name_width (i + 1) ws)))))

unfoldable pub format_world_list : List WorldMetadata → Text
unfolding format_worlds max_name_len
format_world_list worlds =
    worlds_header ++ (codes "\r\n" ++ format_worlds (max_name_len worlds + 1) 0 worlds)

unfoldable pub format_world_select_prompt : ℕ → Text
format_world_select_prompt count =
    replace world_select_prompt_template (codes "{n}") (to_string count)

unfoldable pub handle_username_input : Text → Transition
handle_username_input input =
    let trimmed = trim input in
    if is_session_terminator trimmed
    then disconnect goodbye_msg
    else if is_empty trimmed
    then stay (empty_username_msg ++ username_prompt)
    else advance (authenticating (some trimmed)) password_prompt

unfoldable pub handle_password_input : Text → Text → Transition
handle_password_input username input =
    let trimmed = trim input in
    if is_session_terminator trimmed
    then disconnect goodbye_msg
    else if is_empty trimmed
    then stay (empty_password_msg ++ password_prompt)
    else auth_pending username trimmed

abbrev pub not_a_number : WorldRegistry → Transition
not_a_number r =
    stay (world_selection_non_numeric_msg ++ format_world_select_prompt (registry_len r))

-- `get_by_position(n)`, where `n` is what the client typed.
unfoldable pub select_position : WorldRegistry → ℕ → Transition
select_position r n = elim (get_by_position r n) [
  | some w ↦ disconnect (codes "\r\n" ++ replace world_selected_template (codes "{world}") w.name)
  | none ↦ stay (
      replace world_selection_out_of_range_msg (codes "{n}") (to_string (registry_len r))
      ++ format_world_select_prompt (registry_len r))
]

unfoldable pub handle_world_selection_input : WorldRegistry → Account → Text → Transition
unfolding select_position
handle_world_selection_input r account input =
    let trimmed = trim input in
    if is_session_terminator trimmed
    then disconnect goodbye_msg
    else if is_empty trimmed
    then not_a_number r
    else elim (parse_usize trimmed) [ some n ↦ select_position r n | none ↦ not_a_number r ]

unfoldable pub handle_state : SessionState → WorldRegistry → Text → Transition
unfolding handle_username_input handle_password_input handle_world_selection_input
handle_state (authenticating none) r input = handle_username_input input
handle_state (authenticating (some name)) r input = handle_password_input name input
handle_state (world_selection account) r input = handle_world_selection_input r account input

-- `Session::handle_input`
unfoldable pub handle_input : Session → Text → Transition
unfolding handle_state
handle_input s input = handle_state s.state s.registry input

abbrev pub welcome_output : Session → Account → Text
welcome_output s account =
    replace welcome_template (codes "{username}") account.username
    ++ (format_world_list s.registry.worlds
        ++ (codes "\r\n" ++ format_world_select_prompt (registry_len s.registry)))

-- `Session::complete_auth`
unfoldable pub complete_auth : Session → Option Account → Transition
complete_auth s (some account) = advance (world_selection account) (welcome_output s account)
complete_auth s none = advance (authenticating none) (auth_failed_msg ++ username_prompt)
