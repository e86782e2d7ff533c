-- ===== src/Net/Codec/RoundTrip.antt =====
-- A line that a client sends in UTF-8 reaches the session as it was typed.
use liaozhai.Common.{
  All, All-append, Bytes, Text, [], append-nil, arith, drop, false, get_elem?,
  get_elem?-append_length, length, length-append, ltb, refl, some, suc, take-append_length, true, ℕ,
  ◌++◌, ◌+◌, ◌∙◌, ◌∷◌, ◌≡◌, ◌≢◌, ◌≤◌,
}
use liaozhai.Net.Codec.{decode, decode_fuel, is_terminator, line, reply}
use liaozhai.Net.Codec.Bounds.{NoTerminator, find_line_terminator-append}
use liaozhai.Net.Codec.InBounds.{after_strip-cut_line, cut_line, terminator_end}
use liaozhai.Net.Codec.Stripped.{codec_mode, strip_iac-strip, with_mode}
use liaozhai.Net.Codec.Telnet.{NoIac, feed-NoIac, strip, text}
use liaozhai.Net.Iac.{TelnetLineCodec, iac, strip_iac}
use liaozhai.Text.Utf8.{as_bytes, from_utf8_lossy}
use liaozhai.Text.Utf8.RoundTrip.{
  All-IsScalar, IsLineChar, IsPlain, as_bytes-IsPlain, from_utf8_lossy-as_bytes,
}

with_mode-text :
    (c : TelnetLineCodec)
    → c.in_subnegotiation ≡ false
    → c.subneg_iac_pending ≡ false
    → with_mode c text ≡ c
with_mode-text c i p = ground (arith, i, p)

strip-NoIac : (bs : Bytes) → NoIac bs → strip text bs ≡ bs
unfolding strip
strip-NoIac bs h = rw feed-NoIac (append-nil bs)

pub All-plain-NoIac : (bs : Bytes) → All IsPlain bs → NoIac bs
All-plain-NoIac [] h = tt
All-plain-NoIac (b ∷ bs) h = (omega arith, All-plain-NoIac bs h.1)

pub All-plain-NoTerminator : (bs : Bytes) → All IsPlain bs → NoTerminator bs
All-plain-NoTerminator [] h = tt
All-plain-NoTerminator (b ∷ bs) h = (ground arith, All-plain-NoTerminator bs h.1)

-- A codec that is at the begin of a line.
pub record IsReading (c : TelnetLineCodec) : Type 0 where
  pub text_mode : c.in_subnegotiation ≡ false
  pub no_pending : c.subneg_iac_pending ≡ false
  pub kept : c.discarding ≡ false

strip_iac-NoIac :
    (c : TelnetLineCodec) (buf : Bytes) → IsReading c → NoIac buf → strip_iac c buf ≡ some (c, buf)
strip_iac-NoIac c buf r n =
    let in_text : codec_mode c ≡ text = rw r.text_mode in
    strip_iac-strip c buf (λ _. r.no_pending)
    ∙ rw (in_text, feed-NoIac buf n, strip-NoIac buf n, with_mode-text c r.text_mode r.no_pending)

ltb_of_le : (a b : ℕ) → b ≤ a → ltb a b ≡ false
ltb_of_le a b h = ground arith

-- `decode` on a buffer with no IAC is the search for a line.
pub decode-NoIac :
    (c : TelnetLineCodec) (buf : Bytes)
    → IsReading c
    → NoIac buf
    → length buf ≤ c.max_buffer_size
    → decode c buf ≡ cut_line (decode_fuel 1) c buf
unfolding decode
decode-NoIac c buf r n small =
    rw (ltb_of_le c.max_buffer_size (length buf) small, strip_iac-NoIac c buf r n, decode_fuel)
      (after_strip-cut_line (decode_fuel 1) c buf)

pub get_elem?-append_suc :
    (xs : Bytes) (x y : ℕ) (ys : Bytes) → get_elem? (xs ++ x ∷ y ∷ ys) (length xs + 1) ≡ some y
get_elem?-append_suc [] x y ys = refl
get_elem?-append_suc (z ∷ zs) x y ys =
    let e : suc (length zs) + 1 ≡ suc (length zs + 1) = omega arith in
    rw e (get_elem?-append_suc zs x y ys)

consume_crlf :
    (xs rest : Bytes) → terminator_end (xs ++ b'\r' ∷ b'\n' ∷ rest) (length xs) ≡ length xs + 2
unfolding terminator_end
consume_crlf xs rest = ground (
  arith,
  get_elem?-append_length xs b'\r' (b'\n' ∷ rest),
  get_elem?-append_suc xs b'\r' b'\n' rest,
  length-append xs (b'\r' ∷ b'\n' ∷ rest),
)

pub consume_lf : (xs rest : Bytes) → terminator_end (xs ++ b'\n' ∷ rest) (length xs) ≡ length xs + 1
unfolding terminator_end
consume_lf xs rest = ground (arith, get_elem?-append_length xs b'\n' rest)

pub drop-append_more : (n : ℕ) (xs ys : Bytes) → drop (length xs + n) (xs ++ ys) ≡ drop n ys
drop-append_more n [] ys = let e : 0 + n ≡ n = omega arith in rw e
drop-append_more n (x ∷ xs) ys =
    let e : suc (length xs) + n ≡ suc (length xs + n) = omega arith in
    rw e (drop-append_more n xs ys)

-- A terminator behind plain bytes ends a line; `n` bytes are taken as the terminator.
decode_line :
    (c : TelnetLineCodec) (xs : Bytes) (b : ℕ) (ys : Bytes) (n : ℕ)
    → IsReading c
    → NoTerminator xs
    → NoIac (xs ++ b ∷ ys)
    → is_terminator b ≡ true
    → length (xs ++ b ∷ ys) ≤ c.max_buffer_size
    → terminator_end (xs ++ b ∷ ys) (length xs) ≡ length xs + n
    → decode c (xs ++ b ∷ ys) ≡ some (reply c (drop n (b ∷ ys)) (some (line (from_utf8_lossy xs))))
unfolding cut_line
decode_line c xs b ys n r plain clean t small taken =
    decode-NoIac c (xs ++ b ∷ ys) r clean small
    ∙ rw (
      find_line_terminator-append xs b ys plain t,
      r.kept,
      taken,
      drop-append_more n xs (b ∷ ys),
      take-append_length xs (b ∷ ys),
      cut_line,
    )

-- A text sent in UTF-8 and ended by CR LF, or by LF alone, is decoded to the same text, and what the
-- client sent behind it stays in the buffer, if that holds no IAC, the buffer fits its limit, and
-- the codec is at the begin of a line.
pub decode-as_bytes :
    (c : TelnetLineCodec) (s : Text) (rest : Bytes)
    → IsReading c
    → All IsLineChar s
    → NoIac rest
    → length (as_bytes s) + 2 + length rest ≤ c.max_buffer_size
    → (decode c (as_bytes s ++ b'\r' ∷ b'\n' ∷ rest) ≡ some (reply c rest (some (line s))))
      × (decode c (as_bytes s ++ b'\n' ∷ rest) ≡ some (reply c rest (some (line s))))
decode-as_bytes c s rest r h n small =
    let plain = as_bytes-IsPlain s h in
    let clean = All-plain-NoIac _ plain in
    let breaks = All-plain-NoTerminator _ plain in
    (
      decode_line c (as_bytes s) b'\r' (b'\n' ∷ rest) 2 r breaks
            (All-append _ (as_bytes s) _ clean (cr-ne-iac, (lf-ne-iac, n))) refl
            (omega (arith, length-append (as_bytes s) (b'\r' ∷ b'\n' ∷ rest)))
            (consume_crlf (as_bytes s) rest)
          ∙ rw (from_utf8_lossy-as_bytes s (All-IsScalar s h)),
      decode_line c (as_bytes s) b'\n' rest 1 r breaks
            (All-append _ (as_bytes s) _ clean (lf-ne-iac, n)) refl
            (omega (arith, length-append (as_bytes s) (b'\n' ∷ rest)))
            (consume_lf (as_bytes s) rest)
          ∙ rw (from_utf8_lossy-as_bytes s (All-IsScalar s h)),
    )
  where
    cr-ne-iac : b'\r' ≢ iac
    cr-ne-iac = omega arith

    lf-ne-iac : b'\n' ≢ iac
    lf-ne-iac = omega arith
