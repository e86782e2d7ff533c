-- ===== src/Net/Session/Outputs.antt =====
-- How the texts begin that the session gives: with an ASCII character, whatever names they contain.
use mathlib.Core.Path.{subst}
use mathlib.Core.Path.{subst}
use liaozhai.Common.{
  Bool, Bool-cases, List, Option-cases, Text, [], arith, codes, false, inl, inr, is_empty, ltb,
  none, refl, some, true, ℕ, ◌++◌, ◌∷◌, ◌≡◌,
}
use liaozhai.Core.Constants.{
  auth_failed_msg, auth_internal_error_msg, auth_max_retries_msg, banner, buffer_overflow_msg,
  empty_password_msg, empty_username_msg, goodbye_msg, line_too_long_msg, password_prompt,
  shutdown_msg, username_prompt, welcome_template, world_selected_template,
  world_selection_non_numeric_msg, world_selection_out_of_range_msg,
}
use liaozhai.Net.Session.{
  SessionState, authenticating, disconnect, format_world_select_prompt, handle_state,
  is_session_terminator, select_position, stay, world_selection,
}
use liaozhai.Text.Decimal.{parse_usize, to_string}
use liaozhai.Text.Template.{replace}
use liaozhai.Text.Trim.{trim}
use liaozhai.Text.Utf8.{as_bytes, utf8_char}
use liaozhai.Worlds.Registry.{WorldRegistry, get_by_position, registry_len}

abbrev pub starts_ascii : List ℕ → Bool
starts_ascii [] = false
starts_ascii (c ∷ cs) = ltb c 128

-- A text, or its bytes, that begin with a character below 128.
abbrev pub StartsAscii : List ℕ → Type 0
StartsAscii t = starts_ascii t ≡ true

pub as_bytes-StartsAscii : (t : Text) → StartsAscii t → StartsAscii (as_bytes t)
unfolding as_bytes utf8_char
as_bytes-StartsAscii [] h = h
as_bytes-StartsAscii (c ∷ t) h = rw (h, h) refl

pub username_text-StartsAscii : StartsAscii (empty_username_msg ++ username_prompt)
unfolding codes
username_text-StartsAscii = refl

pub password_text-StartsAscii : StartsAscii (empty_password_msg ++ password_prompt)
unfolding codes
password_text-StartsAscii = refl

pub failed_text-StartsAscii : StartsAscii (auth_failed_msg ++ username_prompt)
unfolding codes
failed_text-StartsAscii = refl

pub non_numeric_text-StartsAscii : (t : Text) → StartsAscii (world_selection_non_numeric_msg ++ t)
unfolding codes
non_numeric_text-StartsAscii t = refl

pub out_of_range_text-StartsAscii :
    (n t : Text) → StartsAscii (replace world_selection_out_of_range_msg (codes "{n}") n ++ t)
unfolding codes replace
out_of_range_text-StartsAscii n t = refl

pub welcome_text-StartsAscii :
    (name t : Text) → StartsAscii (replace welcome_template (codes "{username}") name ++ t)
unfolding codes replace
welcome_text-StartsAscii name t = refl

pub long_line_text-StartsAscii : StartsAscii line_too_long_msg
unfolding codes
long_line_text-StartsAscii = refl

pub shutdown_text-StartsAscii : StartsAscii shutdown_msg
unfolding codes
shutdown_text-StartsAscii = refl

pub overflow_text-StartsAscii : StartsAscii buffer_overflow_msg
unfolding codes
overflow_text-StartsAscii = refl

pub banner_text-StartsAscii : (t : Text) → StartsAscii (banner ++ t)
unfolding codes
banner_text-StartsAscii t = refl

carry : (t u : Text) → t ≡ u → StartsAscii t → StartsAscii u
carry t u e s = subst StartsAscii e s

select_position-stay :
    (r : WorldRegistry) (n : ℕ) (output : Text)
    → select_position r n ≡ stay output
    → StartsAscii output
unfolding select_position
select_position-stay r n output h = elim (Option-cases (get_by_position r n)) [
  | inl e ↦
      carry
        (replace world_selection_out_of_range_msg (codes "{n}") (to_string (registry_len r))
          ++ format_world_select_prompt (registry_len r))
        output (ground arith) (out_of_range_text-StartsAscii _ _)
  | inr (w, e) ↦ ground arith
]

pub handle_state-stay :
    (st : SessionState) (r : WorldRegistry) (input output : Text)
    → handle_state st r input ≡ stay output
    → StartsAscii output
unfolding handle_state
handle_state-stay (authenticating none) r input output h =
    carry (empty_username_msg ++ username_prompt) output (ground arith) username_text-StartsAscii
handle_state-stay (authenticating (some name)) r input output h =
    carry (empty_password_msg ++ password_prompt) output (ground arith) password_text-StartsAscii
handle_state-stay (world_selection account) r input output h =
    let not_number : StartsAscii
        (world_selection_non_numeric_msg ++ format_world_select_prompt (registry_len r)) =
      non_numeric_text-StartsAscii _ in
    elim (Option-cases (parse_usize (trim input))) [
      | inl e ↦
          carry (world_selection_non_numeric_msg ++ format_world_select_prompt (registry_len r))
            output (ground arith) not_number
      | inr (n, e) ↦ elim (Bool-cases (is_empty (trim input))) [
        | inl empty ↦
            carry (world_selection_non_numeric_msg ++ format_world_select_prompt (registry_len r))
              output (ground arith) not_number
        | inr given ↦ select_position-stay r n output (ground arith)
      ]
    ]

goodbye_text-StartsAscii : StartsAscii goodbye_msg
unfolding codes
goodbye_text-StartsAscii = refl

pub internal_error_text-StartsAscii : StartsAscii auth_internal_error_msg
unfolding codes
internal_error_text-StartsAscii = refl

pub max_retries_text-StartsAscii : StartsAscii auth_max_retries_msg
unfolding codes
max_retries_text-StartsAscii = refl

selected_text-StartsAscii : (t : Text) → StartsAscii (codes "\r\n" ++ t)
unfolding codes
selected_text-StartsAscii t = refl

select_position-disconnect :
    (r : WorldRegistry) (n : ℕ) (goodbye : Text)
    → select_position r n ≡ disconnect goodbye
    → StartsAscii goodbye
unfolding select_position
select_position-disconnect r n goodbye h = elim (Option-cases (get_by_position r n)) [
  | inl e ↦ ground arith
  | inr (w, e) ↦
      carry (codes "\r\n" ++ replace world_selected_template (codes "{world}") w.name) goodbye
        (ground arith) (selected_text-StartsAscii _)
]

pub handle_state-disconnect :
    (st : SessionState) (r : WorldRegistry) (input goodbye : Text)
    → handle_state st r input ≡ disconnect goodbye
    → StartsAscii goodbye
unfolding handle_state
handle_state-disconnect (authenticating none) r input goodbye h =
    carry goodbye_msg goodbye (ground arith) goodbye_text-StartsAscii
handle_state-disconnect (authenticating (some name)) r input goodbye h =
    carry goodbye_msg goodbye (ground arith) goodbye_text-StartsAscii
handle_state-disconnect (world_selection account) r input goodbye h =
    elim (Bool-cases (is_session_terminator (trim input))) [
      | inl quits ↦ carry goodbye_msg goodbye (ground arith) goodbye_text-StartsAscii
      | inr stays ↦ elim (Option-cases (parse_usize (trim input))) [
        | inl e ↦ ground arith
        | inr (n, e) ↦ elim (Bool-cases (is_empty (trim input))) [
          | inl empty ↦ ground arith
          | inr given ↦ select_position-disconnect r n goodbye (ground arith)
        ]
      ]
    ]
