-- ===== src/Net/Codec/Outcome.antt =====
-- What a call of `decode` leaves, by the cases of the buffer behind `strip_iac`.
use liaozhai.Common.{
  Bool-cases, Bytes, Option, Text, [], arith, drop, false, inl, inr, length, ltb, none, refl, some,
  take, true, ℕ, ◌<◌, ◌≡◌, ◌≤◌,
}
use liaozhai.Core.Error.{err, ok}
use liaozhai.Net.Codec.{
  Reply, TelnetCodecError, buffer_overflow, find_line_terminator, line, line_too_long, reply,
}
use liaozhai.Net.Codec.Bounds.{
  NoTerminator, find_line_terminator-lt, find_line_terminator-none, length-drop,
}
use liaozhai.Net.Codec.InBounds.{cut_line, terminator_end, terminator_end-gt}
use liaozhai.Net.Codec.Stripped.{IsCoherent}
use liaozhai.Net.Iac.{TelnetLineCodec}
use liaozhai.Text.Utf8.{from_utf8_lossy}

pub record Good (c : TelnetLineCodec) (buf : Bytes) (r : Reply) : Type 0 where
  -- The buffer never grows, and every item takes bytes from it.
  pub shrinks : length r.buf ≤ length buf
  pub coherent : IsCoherent r.codec
  pub line_limit : r.codec.max_line_length ≡ c.max_line_length
  pub buffer_limit : r.codec.max_buffer_size ≡ c.max_buffer_size
  pub waiting : r.result ≡ ok none → NoTerminator r.buf × (length r.buf ≤ c.max_line_length)
  pub too_long :
      r.result ≡ ok (some line_too_long)
      → (r.buf ≡ []) × (r.codec.discarding ≡ true) × (length r.buf < length buf)
  pub a_line :
      (t : Text)
      → r.result ≡ ok (some (line t))
      → (r.codec.discarding ≡ false) × (length r.buf < length buf)
  pub overflows :
      (e : TelnetCodecError)
      → r.result ≡ err e
      → (e ≡ buffer_overflow c.max_buffer_size) × (c.max_buffer_size < length buf)

abbrev pub Answers : TelnetLineCodec → Bytes → Option Reply → Type 0
Answers c buf o = (r : Reply) × (o ≡ some r) × Good c buf r

-- `decode` behind `strip_iac`, on a buffer that did not grow.
module _ (again : TelnetLineCodec → Bytes → Option Reply) (c : TelnetLineCodec)
    (h : IsCoherent c) where
  pub no_line :
      (buf : Bytes) → find_line_terminator buf ≡ none → Answers c buf (cut_line again c buf)
  unfolding cut_line
  no_line buf e = elim (Bool-cases c.discarding) [
    | inl d ↦ (
      reply c [] none,
      rw (e, d, cut_line),
      record {
        shrinks = omega arith;
        coherent = h;
        line_limit = refl;
        buffer_limit = refl;
        waiting = λ _. (tt, omega arith);
        too_long = λ p. cc;
        a_line = λ t p. cc;
        overflows = λ x p. cc;
      },
    )
    | inr d ↦ elim (Bool-cases (ltb c.max_line_length (length buf))) [
      | inl long ↦ (
        reply (record c { discarding = true }) [] (some line_too_long),
        rw (e, d, long, cut_line),
        record {
          shrinks = omega arith;
          coherent = h;
          line_limit = refl;
          buffer_limit = refl;
          waiting = λ p. cc;
          too_long = λ _. (refl, refl, ground arith);
          a_line = λ t p. cc;
          overflows = λ x p. cc;
        },
      )
      | inr short ↦ (
        reply c buf none,
        rw (e, d, short, cut_line),
        record {
          shrinks = omega arith;
          coherent = h;
          line_limit = refl;
          buffer_limit = refl;
          waiting = λ _. (find_line_terminator-none buf e, ground arith);
          too_long = λ p. cc;
          a_line = λ t p. cc;
          overflows = λ x p. cc;
        },
      )
    ]
  ]

  pub found_line :
      (buf : Bytes) (pos : ℕ)
      → find_line_terminator buf ≡ some pos
      → c.discarding ≡ false
      → Answers c buf (cut_line again c buf)
  unfolding cut_line
  found_line buf pos e d =
      let rest = drop (terminator_end buf pos) buf in
      (
        reply c rest (some (line (from_utf8_lossy (take pos buf)))),
        rw (e, d, cut_line),
        record {
          shrinks = omega (arith, length-drop (terminator_end buf pos) buf);
          coherent = h;
          line_limit = refl;
          buffer_limit = refl;
          waiting = λ p. cc;
          too_long = λ p. cc;
          a_line = λ t p. (
            d,
            omega (
              arith,
              length-drop (terminator_end buf pos) buf,
              terminator_end-gt buf pos,
              find_line_terminator-lt buf pos e,
            ),
          );
          overflows = λ x p. cc;
        },
      )

  -- The end of a line that was too long: the rest of the buffer is decoded.
  pub discarded_line :
      (buf : Bytes) (pos : ℕ)
      → find_line_terminator buf ≡ some pos
      → c.discarding ≡ true
      → ((rest : Bytes)
          → Answers
              (record c { discarding = false })
              rest
              (again (record c { discarding = false }) rest))
      → Answers c buf (cut_line again c buf)
  unfolding cut_line
  discarded_line buf pos e d ih =
      let (r, f, g) = ih (drop (terminator_end buf pos) buf) in
      let less = length-drop (terminator_end buf pos) buf in
      (
        r,
        rw (e, d, cut_line) f,
        record {
          shrinks = omega (arith, g.shrinks, less);
          coherent = g.coherent;
          line_limit = g.line_limit;
          buffer_limit = g.buffer_limit;
          waiting = g.waiting;
          too_long =
              λ p. ((g.too_long p).0, (g.too_long p).1, omega (arith, (g.too_long p).2, less));
          a_line = λ t p. ((g.a_line t p).0, omega (arith, (g.a_line t p).1, less));
          overflows = λ x p. ((g.overflows x p).0, omega (arith, (g.overflows x p).1, less));
        },
      )
