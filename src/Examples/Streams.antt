-- ===== src/Examples/Streams.antt =====
-- The theorem on whole streams of codec.rs at a concrete input.
use mathlib.Core.List.{map}
use liaozhai.Common.{Bytes, List, Text, [], arith, none, refl, some, ◌++◌, ◌∷◌, ◌≡◌}
use liaozhai.Net.Codec.{decode, line, new_codec, reply}
use liaozhai.Net.Codec.RoundTrip.{IsReading}
use liaozhai.Net.Codec.Stream.{Framed, begin_, gave, kept_runs, received, runs_of, waited}
use liaozhai.Net.Codec.Stream.Delivered.{Framed-runs_of}
use liaozhai.Net.Iac.{strip_iac}
use liaozhai.Text.Utf8.{from_utf8_lossy}

-- "ab", and then "c", an end of line and "d"
abbrev first_piece : Bytes
first_piece = b'a' ∷ b'b' ∷ []

abbrev second_piece : Bytes
second_piece = b'c' ∷ b'\n' ∷ b'd' ∷ []

abbrev abc : Text
abc = b'a' ∷ b'b' ∷ b'c' ∷ []

reading : IsReading new_codec
reading = record { text_mode = refl; no_pending = refl; kept = refl }

gives_abc :
    decode new_codec (first_piece ++ second_piece)
    ≡ some (reply new_codec (b'd' ∷ []) (some (line abc)))
unfolding decode strip_iac
gives_abc = refl

waits_first : decode new_codec first_piece ≡ some (reply new_codec first_piece none)
unfolding decode
waits_first = refl

waits_last : decode new_codec (b'd' ∷ []) ≡ some (reply new_codec (b'd' ∷ []) none)
unfolding decode
waits_last = refl

reads : Framed new_codec (first_piece ++ second_piece) (abc ∷ []) new_codec (b'd' ∷ [])
reads =
    gave _ [] new_codec (first_piece ++ second_piece) new_codec (b'd' ∷ []) abc
      (received first_piece [] new_codec first_piece second_piece (
        waited first_piece [] new_codec first_piece new_codec first_piece
          (received [] [] new_codec [] first_piece begin_) waits_first))
      gives_abc

Framed-runs_of_example :
    (raw : List Bytes) × (abc ∷ [] ≡ map from_utf8_lossy raw)
    × (runs_of (first_piece ++ second_piece) ≡ (kept_runs [] raw, b'd' ∷ []))
Framed-runs_of_example =
    Framed-runs_of new_codec (first_piece ++ second_piece) (abc ∷ []) new_codec (b'd' ∷ [])
      new_codec (b'd' ∷ []) reading
      (omega arith, (omega arith, (omega arith, (omega arith, (omega arith, tt))))) reads waits_last
