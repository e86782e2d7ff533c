-- ===== src/Text/Utf8.antt =====
-- UTF-8: `str::as_bytes` and `String::from_utf8_lossy`, the latter as a machine that reads one byte
-- at a time, with the ranges that the standard library accepts for the byte after the first.
pub mod RoundTrip
use liaozhai.Common.{
  Bytes, Text, [], if◌then◌else◌, leb, ltb, ℕ, ◌%◌, ◌&&◌, ◌*◌, ◌++◌, ◌+◌, ◌-◌, ◌/◌, ◌==◌, ◌∷◌,
}

-- The bytes of one character.
unfoldable pub utf8_char : ℕ → Bytes
utf8_char c =
    if ltb c 0x80
    then c ∷ []
    else if ltb c 0x800
    then (0xC0 + c / 64) ∷ (0x80 + c % 64) ∷ []
    else if ltb c 0x10000
    then (0xE0 + c / 4096) ∷ (0x80 + c / 64 % 64) ∷ (0x80 + c % 64) ∷ []
    else (0xF0 + c / 262144) ∷ (0x80 + c / 4096 % 64) ∷ (0x80 + c / 64 % 64) ∷ (0x80 + c % 64) ∷ []

-- `str::as_bytes`
unfoldable pub as_bytes : Text → Bytes
unfolding utf8_char
as_bytes [] = []
as_bytes (c ∷ cs) = utf8_char c ++ as_bytes cs

-- U+FFFD
abbrev pub replacement : ℕ
replacement = 0xFFFD

-- Between characters, or inside one: so many bytes are missing, the next of them has to lie between
-- `lo` and `hi`, and the bits read so far are `acc`.
pub data Utf8State : Type 0 where
  start : Utf8State
  inside : (missing lo hi acc : ℕ) → Utf8State

-- The first byte of a character.
unfoldable pub lead : ℕ → Text × Utf8State
lead b =
    if ltb b 0x80
    then (b ∷ [], start)
    else if leb 0xC2 b && leb b 0xDF
    then ([], inside 1 0x80 0xBF (b - 0xC0))
    else if b == 0xE0
    then ([], inside 2 0xA0 0xBF 0)
    else if b == 0xED
    then ([], inside 2 0x80 0x9F 0xD)
    else if leb 0xE1 b && leb b 0xEF
    then ([], inside 2 0x80 0xBF (b - 0xE0))
    else if b == 0xF0
    then ([], inside 3 0x90 0xBF 0)
    else if leb 0xF1 b && leb b 0xF3
    then ([], inside 3 0x80 0xBF (b - 0xF0))
    else if b == 0xF4
    then ([], inside 3 0x80 0x8F 4)
    else (replacement ∷ [], start)

-- A byte that is out of range ends the character, which is replaced, and begins the next one.
unfoldable pub next_byte : Utf8State → ℕ → Text × Utf8State
unfolding lead
next_byte start b = lead b
next_byte (inside missing lo hi acc) b =
    if leb lo b && leb b hi
    then (if missing == 1
        then ((acc * 64 + (b - 0x80)) ∷ [], start)
        else ([], inside (missing - 1) 0x80 0xBF (acc * 64 + (b - 0x80))))
    else (replacement ∷ (lead b).0, (lead b).1)

unfoldable pub decode_from : Utf8State → Bytes → Text
unfolding next_byte
decode_from start [] = []
decode_from (inside _ _ _ _) [] = replacement ∷ []
decode_from s (b ∷ bs) = (next_byte s b).0 ++ decode_from (next_byte s b).1 bs

-- `String::from_utf8_lossy`
unfoldable pub from_utf8_lossy : Bytes → Text
unfolding decode_from
from_utf8_lossy = decode_from start
