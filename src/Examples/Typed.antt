-- ===== src/Examples/Typed.antt =====
-- The theorem on what a client types at a concrete input: "a" and "p", cut between the CR and the LF
-- of the first line, so that an empty line is given in between.
use liaozhai.Common.{Bytes, List, Text, [], arith, inl, none, refl, some, ◌∷◌, ◌≡◌}
use liaozhai.Examples.Logins.{letter_a, letter_p}
use liaozhai.Net.Codec.{decode, line, new_codec, reply}
use liaozhai.Net.Codec.RoundTrip.{IsReading}
use liaozhai.Net.Codec.Stream.{Framed, begin_, gave, received}
use liaozhai.Net.Codec.Stream.Typed.{Framed-Spaced, IsTyped, Spaced, typed}
use liaozhai.Net.Iac.{strip_iac}
use liaozhai.Text.Utf8.{as_bytes}

abbrev one_piece : Bytes
one_piece = b'a' ∷ b'\r' ∷ []

abbrev other_piece : Bytes
other_piece = b'\n' ∷ b'p' ∷ b'\r' ∷ b'\n' ∷ []

abbrev last_bytes : Bytes
last_bytes = b'p' ∷ b'\r' ∷ b'\n' ∷ []

reading : IsReading new_codec
reading = record { text_mode = refl; no_pending = refl; kept = refl }

gives_a : decode new_codec one_piece ≡ some (reply new_codec [] (some (line letter_a)))
unfolding decode strip_iac
gives_a = refl

gives_empty : decode new_codec other_piece ≡ some (reply new_codec last_bytes (some (line [])))
unfolding decode strip_iac
gives_empty = refl

gives_p : decode new_codec last_bytes ≡ some (reply new_codec [] (some (line letter_p)))
unfolding decode strip_iac
gives_p = refl

waits : decode new_codec [] ≡ some (reply new_codec [] none)
unfolding decode
waits = refl

abbrev given : List Text
given = letter_a ∷ [] ∷ letter_p ∷ []

reads_lines : Framed new_codec (typed (letter_a ∷ letter_p ∷ [])) given new_codec []
unfolding as_bytes
reads_lines =
    gave _ (letter_a ∷ [] ∷ []) new_codec last_bytes new_codec [] letter_p
      (gave _ (letter_a ∷ []) new_codec other_piece new_codec last_bytes []
        (received one_piece (letter_a ∷ []) new_codec [] other_piece (
          gave one_piece [] new_codec one_piece new_codec [] letter_a
            (received [] [] new_codec [] one_piece begin_) gives_a))
        gives_empty)
      gives_p

a-IsTyped : IsTyped letter_a
a-IsTyped = ((((omega arith, inl (omega arith)), (omega arith, omega arith)), tt), refl)

p-IsTyped : IsTyped letter_p
p-IsTyped = ((((omega arith, inl (omega arith)), (omega arith, omega arith)), tt), refl)

Framed-Spaced_example : Spaced given (letter_a ∷ letter_p ∷ []) × (◌≡◌ {A = Bytes} [] [])
Framed-Spaced_example =
    Framed-Spaced new_codec (letter_a ∷ letter_p ∷ []) given new_codec [] new_codec [] reading
      (a-IsTyped, (p-IsTyped, tt)) reads_lines waits
