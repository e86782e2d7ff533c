-- ===== src/Net/Codec/Faults.antt =====
-- Where a buffer that was stripped already is stripped again. `decode` runs `strip_iac` over all
-- that it kept of earlier calls, text and all.
use liaozhai.Common.{
  All-append, Bytes, [], ap, append-nil, append_assoc, arith, false, length, length-append, ltb,
  none, refl, some, sym, take-append_length, ℕ, ◌++◌, ◌+◌, ◌∙◌, ◌∷◌, ◌≡◌, ◌≢◌, ◌≤◌,
}
use liaozhai.Net.Codec.{decode, decode_fuel, find_line_terminator, is_terminator, line, reply}
use liaozhai.Net.Codec.Bounds.{NoTerminator, find_line_terminator-append}
use liaozhai.Net.Codec.InBounds.{after_strip-cut_line, cut_line}
use liaozhai.Net.Codec.RoundTrip.{IsReading, consume_lf, drop-append_more}
use liaozhai.Net.Codec.Stripped.{
  IsCoherent, codec_mode, strip_iac-strip, with_mode, with_mode-IsCoherent,
}
use liaozhai.Net.Codec.Telnet.{
  Mode, NoIac, feed, feed-NoIac, feed-append, feed_byte, strip, sub, text,
}
use liaozhai.Net.Iac.{TelnetLineCodec, iac, is_negotiation, sb, se}
use liaozhai.Text.Utf8.{from_utf8_lossy}

-- A text with no IAC and no terminator, in the buffer of a codec at the begin of a line.
pub record Kept (c : TelnetLineCodec) (t : Bytes) : Type 0 where
  pub reading : IsReading c
  pub clean : NoIac t
  pub unbroken : NoTerminator t
  pub small : length t + 5 ≤ c.max_buffer_size
  pub short : length t + 3 ≤ c.max_line_length

IsCoherent-of-reading : (c : TelnetLineCodec) → IsReading c → IsCoherent c
IsCoherent-of-reading c r = λ _. r.no_pending

find-NoTerminator : (bs : Bytes) → NoTerminator bs → find_line_terminator bs ≡ none
unfolding find_line_terminator
find-NoTerminator [] h = refl
find-NoTerminator (b ∷ bs) h = rw (h.0, find-NoTerminator bs h.1)

ltb_of_le : (a b : ℕ) → b ≤ a → ltb a b ≡ false
ltb_of_le a b h = ground arith

decode-strip :
    (c : TelnetLineCodec) (buf : Bytes)
    → IsCoherent c
    → length buf ≤ c.max_buffer_size
    → decode c buf
      ≡ cut_line
          (decode_fuel 1)
          (with_mode c (feed (codec_mode c) buf).1)
          (strip (codec_mode c) buf)
unfolding decode
decode-strip c buf h small =
    rw (ltb_of_le c.max_buffer_size (length buf) small, strip_iac-strip c buf h, decode_fuel)
      (after_strip-cut_line (decode_fuel 1) _ _)

-- `decode` where nothing ends a line behind `strip_iac`.
decode_waits :
    (c : TelnetLineCodec) (buf kept : Bytes) (m : Mode)
    → IsCoherent c
    → c.discarding ≡ false
    → length buf ≤ c.max_buffer_size
    → strip (codec_mode c) buf ≡ kept
    → (feed (codec_mode c) buf).1 ≡ m
    → NoTerminator kept
    → length kept ≤ c.max_line_length
    → decode c buf ≡ some (reply (with_mode c m) kept none)
unfolding cut_line
decode_waits c buf kept m h d small e f n short =
    decode-strip c buf h small
    ∙ rw (e, f)
        (rw
          (find-NoTerminator kept n, d, ltb_of_le c.max_line_length (length kept) short, cut_line))

-- `decode` where an LF behind `strip_iac` ends a line.
decode_ends :
    (c : TelnetLineCodec) (buf xs ys : Bytes) (m : Mode)
    → IsCoherent c
    → c.discarding ≡ false
    → length buf ≤ c.max_buffer_size
    → strip (codec_mode c) buf ≡ xs ++ b'\n' ∷ ys
    → (feed (codec_mode c) buf).1 ≡ m
    → NoTerminator xs
    → decode c buf ≡ some (reply (with_mode c m) ys (some (line (from_utf8_lossy xs))))
unfolding cut_line
decode_ends c buf xs ys m h d small e f n =
    decode-strip c buf h small
    ∙ rw (e, f)
        (rw (
          find_line_terminator-append xs b'\n' ys n refl,
          d,
          consume_lf xs ys,
          drop-append_more 1 xs (b'\n' ∷ ys),
          take-append_length xs (b'\n' ∷ ys),
          cut_line,
        ))

module _ (t : Bytes) (n : NoIac t) where
  feed-text : (ys : Bytes) → feed text (t ++ ys) ≡ (t ++ (feed text ys).0, (feed text ys).1)
  feed-text ys = rw (feed-append text t ys, feed-NoIac t n)

  strip-text : (ys : Bytes) → strip text (t ++ ys) ≡ t ++ strip text ys
  unfolding strip
  strip-text ys = rw (feed-text ys, append_assoc)

escaped_pair : (b : ℕ) → b ≢ iac → strip text (iac ∷ iac ∷ b ∷ b'\n' ∷ []) ≡ iac ∷ b ∷ b'\n' ∷ []
unfolding strip feed feed_byte
escaped_pair b h = ground arith

module _ (c : TelnetLineCodec) (t : Bytes) (k : Kept c t) where
  in_text : codec_mode c ≡ text
  in_text = rw k.reading.text_mode

  feed-kept :
      (ys : Bytes) → feed (codec_mode c) (t ++ ys) ≡ (t ++ (feed text ys).0, (feed text ys).1)
  feed-kept ys = rw (in_text, feed-append text t ys, feed-NoIac t k.clean)

  strip-kept : (ys : Bytes) → strip (codec_mode c) (t ++ ys) ≡ t ++ strip text ys
  unfolding strip
  strip-kept ys = rw (feed-kept ys, append_assoc)

feed_sub-NoIac : (t ys : Bytes) → NoIac t → feed sub (t ++ ys) ≡ feed sub ys
unfolding feed feed_byte
feed_sub-NoIac [] ys h = refl
feed_sub-NoIac (b ∷ t) ys h = ground (arith, feed_sub-NoIac t ys h.1)

-- For a codec at the begin of a line and a text `t` that holds no IAC and no line end and fits the
-- limits: a client that sends `t`, opens a subnegotiation, and closes it and ends the line in a
-- second piece, has its text dropped, and the session gets an empty line. In one piece it gets `t`.
pub subnegotiation_drops_text :
    (c : TelnetLineCodec) (t : Bytes)
    → Kept c t
    → (decode c (t ++ iac ∷ sb ∷ []) ≡ some (reply (with_mode c sub) t none))
      × (decode (with_mode c sub) (t ++ iac ∷ se ∷ b'\n' ∷ [])
          ≡ some (reply (with_mode c text) [] (some (line []))))
      × (decode c (t ++ iac ∷ sb ∷ iac ∷ se ∷ b'\n' ∷ [])
          ≡ some (reply (with_mode c text) [] (some (line (from_utf8_lossy t)))))
unfolding strip from_utf8_lossy
subnegotiation_drops_text c t k =
    let h = IsCoherent-of-reading c k.reading in
    (
      decode_waits c (t ++ iac ∷ sb ∷ []) t sub h k.reading.kept
          (omega (arith, k.small, length-append t (iac ∷ sb ∷ [])))
          (strip-kept c t k (iac ∷ sb ∷ []) ∙ (unfold feed feed_byte in append-nil t))
          (rw (feed-kept c t k (iac ∷ sb ∷ [])) (unfold feed feed_byte in refl)) k.unbroken
          (omega (arith, k.short)),
      decode_ends (with_mode c sub) (t ++ iac ∷ se ∷ b'\n' ∷ []) [] [] text
          (with_mode-IsCoherent c sub) k.reading.kept
          (omega (arith, k.small, length-append t (iac ∷ se ∷ b'\n' ∷ [])))
          (rw (feed_sub-NoIac t (iac ∷ se ∷ b'\n' ∷ []) k.clean) (unfold feed feed_byte in refl))
          (rw (feed_sub-NoIac t (iac ∷ se ∷ b'\n' ∷ []) k.clean) (unfold feed feed_byte in refl))
          tt,
      decode_ends c (t ++ iac ∷ sb ∷ iac ∷ se ∷ b'\n' ∷ []) t [] text h k.reading.kept
          (omega (arith, k.small, length-append t (iac ∷ sb ∷ iac ∷ se ∷ b'\n' ∷ [])))
          (strip-kept c t k (iac ∷ sb ∷ iac ∷ se ∷ b'\n' ∷ []) ∙ (unfold feed feed_byte in refl))
          (rw (feed-kept c t k (iac ∷ sb ∷ iac ∷ se ∷ b'\n' ∷ [])) (unfold feed feed_byte in refl))
          k.unbroken,
    )

-- For a codec at the begin of a line and a text `t` that holds no IAC and no line end and fits the
-- limits: an escaped IAC behind `t`, and a byte `b` that is neither a line end nor one that goes on
-- with a telnet sequence, reach the session as text in one piece. If the line end comes in a second
-- piece, the IAC is taken for the begin of a command there, and `b` is dropped with it.
pub escaped_iac_dropped :
    (c : TelnetLineCodec) (t : Bytes) (b : ℕ)
    → Kept c t
    → b ≢ iac
    → b ≢ sb
    → is_negotiation b ≡ false
    → is_terminator b ≡ false
    → let c' = with_mode c text in
      (decode c (t ++ iac ∷ iac ∷ b ∷ []) ≡ some (reply c' (t ++ iac ∷ b ∷ []) none))
      × (decode c' (t ++ iac ∷ b ∷ b'\n' ∷ [])
          ≡ some (reply c' [] (some (line (from_utf8_lossy t)))))
      × (decode c (t ++ iac ∷ iac ∷ b ∷ b'\n' ∷ [])
          ≡ some (reply c' [] (some (line (from_utf8_lossy (t ++ iac ∷ b ∷ []))))))
unfolding strip
escaped_iac_dropped c t b k ni ns nn nt =
    let h = IsCoherent-of-reading c k.reading in
    (
      decode_waits c (t ++ iac ∷ iac ∷ b ∷ []) (t ++ iac ∷ b ∷ []) text h k.reading.kept
          (omega (arith, k.small, length-append t (iac ∷ iac ∷ b ∷ [])))
          (strip-kept c t k (iac ∷ iac ∷ b ∷ []) ∙ (unfold feed feed_byte in ground arith))
          (rw (feed-kept c t k (iac ∷ iac ∷ b ∷ [])) (unfold feed feed_byte in ground arith))
          (All-append _ t _ k.unbroken (refl, (nt, tt)))
          (omega (arith, k.short, length-append t (iac ∷ b ∷ []))),
      decode_ends (with_mode c text) (t ++ iac ∷ b ∷ b'\n' ∷ []) t [] text
          (with_mode-IsCoherent c text) k.reading.kept
          (omega (arith, k.small, length-append t (iac ∷ b ∷ b'\n' ∷ [])))
          (strip-text t k.clean (iac ∷ b ∷ b'\n' ∷ []) ∙ (unfold feed feed_byte in ground arith))
          (rw (feed-text t k.clean (iac ∷ b ∷ b'\n' ∷ [])) (unfold feed feed_byte in ground arith))
          k.unbroken,
      decode_ends c (t ++ iac ∷ iac ∷ b ∷ b'\n' ∷ []) (t ++ iac ∷ b ∷ []) [] text h k.reading.kept
          (omega (arith, k.small, length-append t (iac ∷ iac ∷ b ∷ b'\n' ∷ [])))
          (strip-kept c t k (iac ∷ iac ∷ b ∷ b'\n' ∷ [])
            ∙ ap (◌++◌ t) (escaped_pair b ni)
            ∙ sym (append_assoc t (iac ∷ b ∷ []) (b'\n' ∷ [])))
          (rw (feed-kept c t k (iac ∷ iac ∷ b ∷ b'\n' ∷ []))
            (unfold feed feed_byte in ground arith))
          (All-append _ t _ k.unbroken (refl, (nt, tt))),
    )
