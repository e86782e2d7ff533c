-- ===== src/Net/Codec/Documented.antt =====
-- The telnet framing as docs/dev/0002 describes it, where a doubled IAC inside a subnegotiation is
-- escaped data, against what `strip_iac` does.
use liaozhai.Common.{
  Bool, Bytes, Option, [], ap, append-nil, arith, false, if◌then◌else◌, refl, some, true, ℕ, ◌++◌,
  ◌==◌, ◌∙◌, ◌∷◌, ◌≡◌,
}
use liaozhai.Net.Codec.Stripped.{IsCoherent, codec_mode, strip_iac-strip, with_mode}
use liaozhai.Net.Codec.Telnet.{
  Mode, NoIac, command, feed, feed-NoIac, feed_byte, leftover, option, strip, sub, sub_iac, text,
}
use liaozhai.Net.Iac.{TelnetLineCodec, iac, is_negotiation, sb, se, strip_iac}

-- One byte of the documented framing: behind an IAC inside a subnegotiation, SE closes it and every
-- other byte, an IAC too, is dropped with the IAC.
unfoldable pub documented_byte : Mode → ℕ → Bytes × Mode
documented_byte text b = if b == iac then ([], command) else (b ∷ [], text)
documented_byte command b =
    if b == iac
    then (iac ∷ [], text)
    else if is_negotiation b
    then ([], option b)
    else if b == sb
    then ([], sub)
    else ([], text)
documented_byte (option verb) b = ([], text)
documented_byte sub b = if b == iac then ([], sub_iac) else ([], sub)
documented_byte sub_iac b = if b == se then ([], text) else ([], sub)

unfoldable pub documented : Mode → Bytes → Bytes × Mode
unfolding documented_byte
documented m [] = ([], m)
documented m (b ∷ bs) =
    let (out, m') = documented_byte m b in
    let (rest, last) = documented m' bs in (out ++ rest, last)

-- A doubled IAC inside a subnegotiation.
unfoldable pub is_doubled : Mode → ℕ → Bool
is_doubled sub_iac b = b == iac
is_doubled _ b = false

-- The bytes have none.
abbrev pub NoDoubled : Mode → Bytes → Type 0
NoDoubled m [] = Unit
NoDoubled m (b ∷ bs) = (is_doubled m b ≡ false) × NoDoubled (documented_byte m b).1 bs

feed_byte-documented :
    (m : Mode) (b : ℕ) → is_doubled m b ≡ false → feed_byte m b ≡ documented_byte m b
unfolding feed_byte documented_byte is_doubled
feed_byte-documented text b h = refl
feed_byte-documented command b h = refl
feed_byte-documented (option verb) b h = refl
feed_byte-documented sub b h = refl
feed_byte-documented sub_iac b h = rw h refl

feed-documented : (m : Mode) (bs : Bytes) → NoDoubled m bs → feed m bs ≡ documented m bs
unfolding feed documented
feed-documented m [] h = refl
feed-documented m (b ∷ bs) h =
    rw (feed_byte-documented m b h.0, feed-documented (documented_byte m b).1 bs h.1) refl

-- For a codec that awaits the end of a subnegotiation only inside one, and a buffer with no doubled IAC
-- inside a subnegotiation, `strip_iac` never panics and always ends, and its loop leaves the text of
-- the buffer as the documented telnet framing gives it, byte by byte: escapes undone, negotiations and
-- subnegotiations dropped, and a sequence that is cut off kept behind the text.
pub strip_iac-documented :
    (c : TelnetLineCodec) (buf : Bytes)
    → IsCoherent c
    → NoDoubled (codec_mode c) buf
    → let (out, m) = documented (codec_mode c) buf in
      strip_iac c buf ≡ some (with_mode c m, out ++ leftover m)
unfolding strip
strip_iac-documented c buf h n =
    strip_iac-strip c buf h ∙ ap given_by (feed-documented (codec_mode c) buf n)
  where
    given_by : Bytes × Mode → Option (TelnetLineCodec × Bytes)
    given_by r = some (with_mode c r.1, r.0 ++ leftover r.1)

-- A doubled IAC inside a subnegotiation, which is documented as escaped data, with the byte SE behind
-- it, ends the subnegotiation: the bytes behind it, which have no IAC, are taken as text, and by the
-- documented framing are still inside the subnegotiation and dropped.
pub doubled_iac_ends_subnegotiation :
    (c : TelnetLineCodec) (rest : Bytes)
    → c.in_subnegotiation ≡ true
    → c.subneg_iac_pending ≡ false
    → NoIac rest
    → (strip_iac c (iac ∷ iac ∷ se ∷ rest) ≡ some (with_mode c text, rest))
      × (documented (codec_mode c) (iac ∷ iac ∷ se ∷ rest) ≡ ([], sub))
unfolding strip feed feed_byte documented documented_byte
doubled_iac_ends_subnegotiation c rest inside settled n =
    let inside_mode : codec_mode c ≡ sub = rw (inside, settled) refl in
    (
      strip_iac-strip c (iac ∷ iac ∷ se ∷ rest) (λ e. settled)
          ∙ rw (inside_mode, feed-NoIac rest n, append-nil) refl,
      rw inside_mode (dropped rest n),
    )
  where
    dropped : (bs : Bytes) → NoIac bs → documented sub bs ≡ ([], sub)
    dropped [] h = refl
    dropped (b ∷ bs) h = ground (arith, dropped bs h.1)
