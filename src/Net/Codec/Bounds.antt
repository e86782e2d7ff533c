-- ===== src/Net/Codec/Bounds.antt =====
-- The buffer never grows in `strip_iac`, and a terminator is found where there is one.
use mathlib.Core.Option
use liaozhai.Common.{
  All, Bool-cases, Bytes, Option, [], ap, arith, drop, false, inl, inr, length, length-append, none,
  some, suc, true, zero, ℕ, ◌++◌, ◌+◌, ◌-◌, ◌<◌, ◌∷◌, ◌≡◌, ◌≤◌,
}
use liaozhai.Net.Codec.{find_line_terminator, is_terminator}
use liaozhai.Net.Codec.Telnet.{
  Mode, command, feed, feed_byte, leftover, option, strip, sub, sub_iac, text,
}

feed_byte-length :
    (m : Mode) (b : ℕ)
    → length (feed_byte m b).0 + length (leftover (feed_byte m b).1) ≤ length (leftover m) + 1
unfolding feed_byte
feed_byte-length text b = ground arith
feed_byte-length command b = ground arith
feed_byte-length (option verb) b = ground arith
feed_byte-length sub b = ground arith
feed_byte-length sub_iac b = ground arith

feed-length :
    (m : Mode) (bs : Bytes)
    → length (feed m bs).0 + length (leftover (feed m bs).1) ≤ length (leftover m) + length bs
unfolding feed
feed-length m [] = omega arith
feed-length m (b ∷ bs) = omega (
  arith,
  feed_byte-length m b,
  feed-length (feed_byte m b).1 bs,
  length-append (feed_byte m b).0 (feed (feed_byte m b).1 bs).0,
)

pub length-strip-le : (m : Mode) (bs : Bytes) → leftover m ≡ [] → length (strip m bs) ≤ length bs
unfolding strip
length-strip-le m bs h =
    omega
      (arith, feed-length m bs, length-append (feed m bs).0 (leftover (feed m bs).1), ap length h)

-- No byte ends a line.
abbrev pub NoTerminator : Bytes → Type 0
NoTerminator = All (λ b. is_terminator b ≡ false)

pub find_line_terminator-none : (bs : Bytes) → find_line_terminator bs ≡ none → NoTerminator bs
unfolding find_line_terminator
find_line_terminator-none [] h = tt
find_line_terminator-none (b ∷ bs) h = ground (arith, find_line_terminator-none bs)

pub find_line_terminator-append :
    (xs : Bytes) (b : ℕ) (ys : Bytes)
    → NoTerminator xs
    → is_terminator b ≡ true
    → find_line_terminator (xs ++ b ∷ ys) ≡ some (length xs)
unfolding find_line_terminator
find_line_terminator-append [] b ys h t = rw t
find_line_terminator-append (x ∷ xs) b ys h t = rw (h.0, find_line_terminator-append xs b ys h.1 t)

abbrev Below : ℕ → Option ℕ → Type 0
Below n none = Unit
Below n (some pos) = pos < n

Below-suc : (n : ℕ) (o : Option ℕ) → Below n o → Below (suc n) (Option.map suc o)
Below-suc n none h = tt
Below-suc n (some pos) h = omega arith

find_line_terminator-Below : (bs : Bytes) → Below (length bs) (find_line_terminator bs)
unfolding find_line_terminator
find_line_terminator-Below [] = tt
find_line_terminator-Below (b ∷ bs) = elim (Bool-cases (is_terminator b)) [
  | inl t ↦ rw t (omega arith)
  | inr f ↦ rw f (Below-suc (length bs) (find_line_terminator bs) (find_line_terminator-Below bs))
]

pub find_line_terminator-lt :
    (bs : Bytes) (pos : ℕ) → find_line_terminator bs ≡ some pos → pos < length bs
find_line_terminator-lt bs pos h = rw h at (find_line_terminator-Below bs)

pub length-drop : (n : ℕ) (xs : Bytes) → length (drop n xs) ≡ length xs - n
length-drop zero xs = omega arith
length-drop (suc n) [] = omega arith
length-drop (suc n) (x ∷ xs) = omega (arith, length-drop n xs)
