-- ===== src/Text/Utf8/RoundTrip.antt =====
-- Decoding what was encoded, and the bytes that never occur in UTF-8.
use liaozhai.Common.{
  All, All-append, Bytes, Text, [], ap, append-nil, append_assoc, arith, refl, sym, ℕ, ◌++◌, ◌<◌,
  ◌∙◌, ◌∷◌, ◌≡◌, ◌≢◌, ◌≤◌, ◌⊎◌,
}
use liaozhai.Text.Utf8.{as_bytes, decode_from, from_utf8_lossy, lead, next_byte, start, utf8_char}

-- A Unicode scalar value, which is what a Rust `char` holds.
abbrev pub IsScalar : ℕ → Type 0
IsScalar c = (c < 0x110000) × ((c < 0xD800) ⊎ (0xE000 ≤ c))

decode_from-utf8_char :
    (c : ℕ) (rest : Bytes)
    → IsScalar c
    → decode_from start (utf8_char c ++ rest) ≡ c ∷ decode_from start rest
unfolding decode_from next_byte lead utf8_char
decode_from-utf8_char c rest h = ground arith

from_utf8_lossy-append :
    (s : Text) (rest : Bytes)
    → All IsScalar s
    → decode_from start (as_bytes s ++ rest) ≡ s ++ decode_from start rest
unfolding as_bytes
from_utf8_lossy-append [] rest h = refl
from_utf8_lossy-append (c ∷ cs) rest h = rw append_assoc (
    decode_from-utf8_char c (as_bytes cs ++ rest) h.0
    ∙ ap (◌∷◌ c) (from_utf8_lossy-append cs rest h.1))

-- Decoding the UTF-8 bytes of a text of Unicode scalar values gives the text back.
pub from_utf8_lossy-as_bytes : (s : Text) → All IsScalar s → from_utf8_lossy (as_bytes s) ≡ s
unfolding from_utf8_lossy decode_from
from_utf8_lossy-as_bytes s h =
    ap (decode_from start) (sym (append-nil (as_bytes s)))
    ∙ from_utf8_lossy-append s [] h
    ∙ append-nil s

-- A byte that is neither IAC nor ends a line.
abbrev pub IsPlain : ℕ → Type 0
IsPlain b = (b < 0xFF) × (b ≢ b'\n') × (b ≢ b'\r')

-- A character of a line of text.
abbrev pub IsLineChar : ℕ → Type 0
IsLineChar c = IsScalar c × ((c ≢ b'\n') × (c ≢ b'\r'))

utf8_char-IsPlain : (c : ℕ) → IsLineChar c → All IsPlain (utf8_char c)
unfolding utf8_char
utf8_char-IsPlain c h = ground arith

pub as_bytes-IsPlain : (s : Text) → All IsLineChar s → All IsPlain (as_bytes s)
unfolding as_bytes
as_bytes-IsPlain [] h = tt
as_bytes-IsPlain (c ∷ cs) h =
    All-append IsPlain (utf8_char c) (as_bytes cs) (utf8_char-IsPlain c h.0)
      (as_bytes-IsPlain cs h.1)

pub All-IsScalar : (s : Text) → All IsLineChar s → All IsScalar s
All-IsScalar [] h = tt
All-IsScalar (c ∷ cs) h = (h.0.0, All-IsScalar cs h.1)
