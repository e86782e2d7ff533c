-- ===== src/Net/Session/Selection.antt =====
-- Typing the number of a world selects it.
use liaozhai.Auth.Account.{Account}
use liaozhai.Common.{
  All, Bool-cases, Text, [], arith, codes, false, get_elem?, inl, inr, is_empty, ltb, none, refl,
  some, suc, zero, ℕ, ◌++◌, ◌-◌, ◌/◌, ◌<◌, ◌∙◌, ◌∷◌, ◌≡◌, ◌≤◌, ◌⊎◌,
}
use liaozhai.Core.Constants.{world_selected_template, world_selection_out_of_range_msg}
use liaozhai.Net.Codec.Stream.Typed.{IsTyped}
use liaozhai.Net.Session.{
  Session, disconnect, format_world_select_prompt, handle_input, handle_state,
  handle_world_selection_input, is_session_terminator, select_position, stay, world_selection,
}
use liaozhai.Text.Decimal.{digits_onto, parse_usize, to_string, usize_mod}
use liaozhai.Text.Decimal.RoundTrip.{parse_usize-to_string}
use liaozhai.Text.Template.{replace}
use liaozhai.Text.Trim.{is_whitespace, push_front, to_ascii_lowercase, trim, trim_end, trim_start}
use liaozhai.Text.Utf8.RoundTrip.{IsLineChar}
use liaozhai.Worlds.Metadata.{WorldMetadata}
use liaozhai.Worlds.Registry.{WorldRegistry, get_by_position, registry_len}
use liaozhai.Worlds.Registry.Lookup.{get_by_position-bounds}

abbrev IsDigit : ℕ → Type 0
IsDigit c = (b'0' ≤ c) × (c ≤ b'9')

digits_onto-IsDigit :
    (fuel n : ℕ) (rest : Text) → All IsDigit rest → All IsDigit (digits_onto fuel n rest)
unfolding digits_onto
digits_onto-IsDigit zero n rest h = h
digits_onto-IsDigit (suc fuel) n rest h = elim (Bool-cases (ltb n 10)) [
  | inl last ↦ rw last (omega arith, h)
  | inr more ↦ rw more (digits_onto-IsDigit fuel (n / 10) _ (omega arith, h))
]

to_string-IsDigit : (n : ℕ) → All IsDigit (to_string n)
unfolding to_string
to_string-IsDigit n = digits_onto-IsDigit 20 n [] tt

digit-is_whitespace : (c : ℕ) → IsDigit c → is_whitespace c ≡ false
unfolding is_whitespace
digit-is_whitespace c h = ground arith

trim_end-digits : (s : Text) → All IsDigit s → trim_end s ≡ s
unfolding trim_end
trim_end-digits [] h = refl
trim_end-digits (c ∷ []) h = rw (digit-is_whitespace c h.0, push_front)
trim_end-digits (c ∷ d ∷ s) h = rw (trim_end-digits (d ∷ s) h.1)

trim-digits : (s : Text) → All IsDigit s → trim s ≡ s
unfolding trim trim_start
trim-digits [] h = refl
trim-digits (c ∷ s) h = rw (digit-is_whitespace c h.0) (trim_end-digits (c ∷ s) h)

digits-no_terminator : (s : Text) → All IsDigit s → is_session_terminator s ≡ false
unfolding is_session_terminator to_ascii_lowercase codes
digits-no_terminator [] h = unfold trim trim_start trim_end in refl
digits-no_terminator (c ∷ s) h = rw (trim-digits (c ∷ s) h) (ground arith)

digits-IsLineChar : (s : Text) → All IsDigit s → All IsLineChar s
digits-IsLineChar [] h = tt
digits-IsLineChar (c ∷ s) h = (ground (arith, h.0), digits-IsLineChar s h.1)

parse_usize-empty : (s : Text) (n : ℕ) → parse_usize s ≡ some n → is_empty s ≡ false
unfolding parse_usize
parse_usize-empty [] n h = cc
parse_usize-empty (c ∷ s) n h = refl

-- A number in decimal is read as that number.
handle_number :
    (r : WorldRegistry) (a : Account) (n : ℕ)
    → n < usize_mod
    → handle_world_selection_input r a (to_string n) ≡ select_position r n
unfolding handle_world_selection_input
handle_number r a n h =
    let read = parse_usize-to_string n h in
    rw (
      trim-digits (to_string n) (to_string-IsDigit n),
      digits-no_terminator (to_string n) (to_string-IsDigit n),
      parse_usize-empty (to_string n) n read,
      read,
    )

abbrev pub selecting : WorldRegistry → Account → Session
selecting r a = record { state = world_selection a; registry = r }

abbrev pub selected_goodbye : WorldMetadata → Text
selected_goodbye w = codes "\r\n" ++ replace world_selected_template (codes "{world}") w.name

select_known :
    (r : WorldRegistry) (n : ℕ) (w : WorldMetadata)
    → get_by_position r n ≡ some w
    → select_position r n ≡ disconnect (selected_goodbye w)
unfolding select_position
select_known r n w e = rw (e, select_position)

select_unknown :
    (r : WorldRegistry) (n : ℕ)
    → get_by_position r n ≡ none
    → select_position r n
      ≡ stay (
          replace world_selection_out_of_range_msg (codes "{n}") (to_string (registry_len r))
          ++ format_world_select_prompt (registry_len r))
unfolding select_position
select_unknown r n e = rw (e, select_position)

-- The number of a world selects it.
pub handle_state-to_string :
    (r : WorldRegistry) (a : Account) (n : ℕ) (w : WorldMetadata)
    → n < usize_mod
    → get_by_position r n ≡ some w
    → handle_state (world_selection a) r (to_string n) ≡ disconnect (selected_goodbye w)
unfolding handle_state
handle_state-to_string r a n w h e = handle_number r a n h ∙ select_known r n w e

pub to_string-IsTyped : (n : ℕ) → n < usize_mod → IsTyped (to_string n)
to_string-IsTyped n h = (
  digits-IsLineChar (to_string n) (to_string-IsDigit n),
  parse_usize-empty (to_string n) n (parse_usize-to_string n h),
)

-- Every number that the list of worlds shows selects the world that stands there, and the session
-- ends with its name; every other number below 2 ^ 64 keeps the session where it is.
pub handle_input-to_string :
    (r : WorldRegistry) (a : Account) (n : ℕ)
    → n < usize_mod
    → ((w : WorldMetadata) × (get_elem? r.worlds (n - 1) ≡ some w)
        × (1 ≤ n)
        × (n ≤ registry_len r)
        × (handle_input (selecting r a) (to_string n) ≡ disconnect (selected_goodbye w)))
      ⊎ (((n ≡ 0) ⊎ (registry_len r < n))
          × ((output : Text) × (handle_input (selecting r a) (to_string n) ≡ stay output)))
unfolding handle_input
handle_input-to_string r a n h = elim (get_by_position-bounds r n) [
  | inl (w, e, lo, hi) ↦ inl (w, position n e, lo, hi, handle_number r a n h ∙ select_known r n w e)
  | inr (e, out) ↦ inr (out, (_, handle_number r a n h ∙ select_unknown r n e))
]
  where
    position :
        (m : ℕ) {w : WorldMetadata}
        → get_by_position r m ≡ some w
        → get_elem? r.worlds (m - 1) ≡ some w
    position m e = unfold get_by_position in ground arith
