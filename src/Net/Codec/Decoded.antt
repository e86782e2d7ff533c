-- ===== src/Net/Codec/Decoded.antt =====
-- Every call of `decode` returns, and what it leaves.
use liaozhai.Common.{
  Bool-cases, Bytes, Option-cases, arith, false, inl, inr, length, ltb, refl, some, suc, ℕ, ◌≡◌,
  ◌≤◌,
}
use liaozhai.Core.Error.{err}
use liaozhai.Net.Codec.{Reply, buffer_overflow, decode, decode_fuel, find_line_terminator}
use liaozhai.Net.Codec.Bounds.{length-strip-le}
use liaozhai.Net.Codec.InBounds.{after_strip-cut_line, cut_line}
use liaozhai.Net.Codec.Outcome.{Answers, Good, discarded_line, found_line, no_line}
use liaozhai.Net.Codec.Stripped.{
  IsCoherent, codec_mode, leftover-mode_of, strip_iac-strip, with_mode, with_mode-IsCoherent,
}
use liaozhai.Net.Codec.Telnet.{Mode, feed, strip}
use liaozhai.Net.Iac.{TelnetLineCodec}

-- From the stripped buffer to the one that `decode` was given.
Good-strip :
    (c : TelnetLineCodec) (m : Mode) (buf buf' : Bytes) (r : Reply)
    → length buf' ≤ length buf
    → Good (with_mode c m) buf' r
    → Good c buf r
Good-strip c m buf buf' r less g = record {
  shrinks = omega (arith, g.shrinks);
  coherent = g.coherent;
  line_limit = g.line_limit;
  buffer_limit = g.buffer_limit;
  waiting = g.waiting;
  too_long = λ p. ((g.too_long p).0, (g.too_long p).1, omega (arith, (g.too_long p).2));
  a_line = λ t p. ((g.a_line t p).0, omega (arith, (g.a_line t p).1));
  overflows = λ x p. ((g.overflows x p).0, omega (arith, (g.overflows x p).1));
}

decode_step :
    (fuel : ℕ) (c : TelnetLineCodec) (buf : Bytes)
    → IsCoherent c
    → ((m : Mode) (buf' : Bytes)
        → Answers (with_mode c m) buf' (cut_line (decode_fuel fuel) (with_mode c m) buf'))
    → Answers c buf (decode_fuel (suc fuel) c buf)
unfolding decode_fuel
decode_step fuel c buf h after = elim (Bool-cases (ltb c.max_buffer_size (length buf))) [
  | inl big ↦ (
    record { codec = c; buf = buf; result = err (buffer_overflow c.max_buffer_size) },
    rw big,
    record {
      shrinks = omega arith;
      coherent = h;
      line_limit = refl;
      buffer_limit = refl;
      waiting = λ p. cc;
      too_long = λ p. cc;
      a_line = λ t p. cc;
      overflows = λ x p. (ground arith, ground arith);
    },
  )
  | inr small ↦
      let m = (feed (codec_mode c) buf).1 in
      let (r, f, g) = after m (strip (codec_mode c) buf) in
      (
        r,
        rw (small, strip_iac-strip c buf h, after_strip-cut_line, decode_fuel) f,
        Good-strip c m buf (strip (codec_mode c) buf) r
            (length-strip-le (codec_mode c) buf
              (leftover-mode_of c.in_subnegotiation c.subneg_iac_pending))
            g,
      )
]

module _ (c : TelnetLineCodec) (buf : Bytes) (h : IsCoherent c) where
  decode_reading : (fuel : ℕ) → c.discarding ≡ false → Answers c buf (decode_fuel (suc fuel) c buf)
  decode_reading fuel d = decode_step fuel c buf h λ m buf'.
      elim (Option-cases (find_line_terminator buf')) [
        | inl e ↦ no_line (decode_fuel fuel) (with_mode c m) (with_mode-IsCoherent c m) buf' e
        | inr (pos, e) ↦
            found_line (decode_fuel fuel) (with_mode c m) (with_mode-IsCoherent c m) buf' pos e d
      ]

-- For a codec that awaits the end of a subnegotiation only inside one, `decode` always returns: it
-- does not panic, and calls itself at most once. The buffer never grows. When it waits for more,
-- what it keeps has no line terminator and at most `max_line_length` bytes; a line that was too
-- long leaves the buffer empty and the codec discarding; a line takes bytes from the buffer; and
-- the only error is a buffer above `max_buffer_size`. The codec that it leaves is of the same kind,
-- with the same limits.
pub decode-Good :
    (c : TelnetLineCodec) (buf : Bytes)
    → IsCoherent c
    → (r : Reply) × (decode c buf ≡ some r) × Good c buf r
unfolding decode
decode-Good c buf h = elim (Bool-cases c.discarding) [
  | inr d ↦ decode_reading c buf h 1 d
  | inl d ↦ decode_step 1 c buf h λ m buf'. elim (Option-cases (find_line_terminator buf')) [
    | inl e ↦ no_line (decode_fuel 1) (with_mode c m) (with_mode-IsCoherent c m) buf' e
    | inr (pos, e) ↦
        discarded_line (decode_fuel 1) (with_mode c m) (with_mode-IsCoherent c m) buf' pos e d
          λ rest.
            decode_reading (record (with_mode c m) { discarding = false }) rest
              (with_mode-IsCoherent c m) 0 refl
  ]
]
