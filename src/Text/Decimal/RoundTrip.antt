-- ===== src/Text/Decimal/RoundTrip.antt =====
-- Reading back a number that was written.
use native.Mathlib.Nat.{pow-suc}
use liaozhai.Common.{
  Bool-cases, Text, [], arith, inl, inr, ltb, ltb→lt, refl, some, suc, zero, ℕ, ◌%◌, ◌+◌, ◌/◌, ◌<◌,
  ◌^◌, ◌∙◌, ◌∷◌, ◌≡◌,
}
use liaozhai.Text.Decimal.{digits_onto, parse_digits, parse_usize, push_digit, to_string, usize_mod}

push_digit_lem : (n : ℕ) → n < usize_mod → push_digit (n / 10) (b'0' + n % 10) ≡ some n
unfolding push_digit
push_digit_lem n k = ground arith

push_digit_small : (n : ℕ) → n < 10 → push_digit 0 (b'0' + n % 10) ≡ some n
unfolding push_digit
push_digit_small n h = ground arith

-- What the digits stand for that were written in front of `rest`.
digits_onto-parse_digits :
    (fuel n : ℕ) (rest : Text)
    → n < 10 ^ fuel
    → n < usize_mod
    → parse_digits 0 (digits_onto fuel n rest) ≡ parse_digits n rest
unfolding digits_onto parse_digits
digits_onto-parse_digits zero n rest h k = let e : n ≡ 0 = omega arith in rw e
digits_onto-parse_digits (suc fuel) n rest h k = elim (Bool-cases (ltb n 10)) [
  | inl last ↦ rw last (rw (push_digit_small n (ltb→lt n 10 last)))
  | inr more ↦ rw more (
      digits_onto-parse_digits fuel (n / 10) _ (omega (arith, pow-suc 10 fuel)) (omega arith)
      ∙ rw (push_digit_lem n k))
]

-- The first character is a digit, so that there is one and it is no sign.
abbrev DigitFirst : Text → Type 0
DigitFirst [] = ⊥
DigitFirst (c ∷ cs) = (c ≡ b'+') → ⊥

digits_onto-DigitFirst :
    (fuel n : ℕ) (rest : Text) → DigitFirst rest → DigitFirst (digits_onto fuel n rest)
unfolding digits_onto
digits_onto-DigitFirst zero n rest h = h
digits_onto-DigitFirst (suc fuel) n rest h = elim (Bool-cases (ltb n 10)) [
  | inl last ↦ rw last (λ e. omega arith)
  | inr more ↦ rw more (digits_onto-DigitFirst fuel (n / 10) _ (λ e. omega arith))
]

digits_onto-suc-DigitFirst : (fuel n : ℕ) → DigitFirst (digits_onto (suc fuel) n [])
unfolding digits_onto
digits_onto-suc-DigitFirst fuel n = elim (Bool-cases (ltb n 10)) [
  | inl last ↦ rw last (λ e. omega arith)
  | inr more ↦ rw more (digits_onto-DigitFirst fuel (n / 10) _ (λ e. omega arith))
]

parse_usize-of-DigitFirst : (s : Text) → DigitFirst s → parse_usize s ≡ parse_digits 0 s
unfolding parse_usize
parse_usize-of-DigitFirst [] h = absurd h
parse_usize-of-DigitFirst (c ∷ cs) h = ground (arith, h)

-- Every number below 2 ^ 64 is read back from its decimal digits.
pub parse_usize-to_string : (n : ℕ) → n < usize_mod → parse_usize (to_string n) ≡ some n
unfolding to_string
parse_usize-to_string n k =
    parse_usize-of-DigitFirst _ (digits_onto-suc-DigitFirst 19 n)
    ∙ digits_onto-parse_digits 20 n [] (omega arith) k
    ∙ unfold parse_digits in refl
