-- ===== src/Text/Decimal.antt =====
-- `usize::to_string` and `str::parse::<usize>` on a 64-bit machine.
use mathlib.Core.Option
pub mod RoundTrip
use liaozhai.Common.{
  Option, Text, [], if◌then◌else◌, leb, ltb, none, some, suc, zero, ℕ, ◌%◌, ◌&&◌, ◌*◌, ◌+◌, ◌-◌,
  ◌/◌, ◌==◌, ◌∷◌,
}

-- `2 ^ 64`
abbrev pub usize_mod : ℕ
usize_mod = 18446744073709551616

-- The digits of a number in front of `rest`; `fuel` bounds their number.
unfoldable pub digits_onto : ℕ → ℕ → Text → Text
digits_onto zero n rest = rest
digits_onto (suc fuel) n rest =
    let digit : ℕ = b'0' + n % 10 in
    let more = digits_onto fuel (n / 10) (digit ∷ rest) in if ltb n 10 then digit ∷ rest else more

-- A number below 2 ^ 64 has at most twenty digits.
unfoldable pub to_string : ℕ → Text
unfolding digits_onto
to_string n = digits_onto 20 n []

-- The value after one more character. `none` is an error: a character that is no digit, or a value
-- that does not fit.
unfoldable pub push_digit : ℕ → ℕ → Option ℕ
push_digit acc c =
    if leb b'0' c && leb c b'9'
    then (if ltb (acc * 10 + (c - b'0')) usize_mod then some (acc * 10 + (c - b'0')) else none)
    else none

unfoldable pub parse_digits : ℕ → Text → Option ℕ
unfolding push_digit Option.bind
parse_digits acc [] = some acc
parse_digits acc (c ∷ cs) = Option.bind (push_digit acc c) (λ n. parse_digits n cs)

-- The digits are not allowed to be empty.
unfoldable pub parse_unsigned : Text → Option ℕ
unfolding parse_digits
parse_unsigned [] = none
parse_unsigned (c ∷ cs) = parse_digits 0 (c ∷ cs)

-- `str::parse::<usize>`: one `+` in front is allowed.
unfoldable pub parse_usize : Text → Option ℕ
unfolding parse_unsigned
parse_usize [] = none
parse_usize (c ∷ cs) = if c == b'+' then parse_unsigned cs else parse_unsigned (c ∷ cs)
