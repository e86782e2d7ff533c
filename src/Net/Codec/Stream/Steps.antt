-- ===== src/Net/Codec/Stream/Steps.antt =====
-- What one call of `decode` does to the runs of the buffer, where there is no IAC.
use mathlib.Core.Path.{subst}
use liaozhai.Common.{
  Bool-cases, Bytes, List, Option, Option-cases, Text, [], ap, arith, drop, inl, inr, length, ltb,
  none, refl, some, suc, sym, take, take-append_length, true, zero, ℕ, ◌++◌, ◌∙◌, ◌∷◌, ◌≡◌,
}
use liaozhai.Net.Codec.{
  CodecItem, Reply, decode, decode_fuel, find_line_terminator, line, line_too_long, reply,
}
use liaozhai.Net.Codec.Bounds.{NoTerminator, find_line_terminator-none}
use liaozhai.Net.Codec.InBounds.{cut_line, terminator_end}
use liaozhai.Net.Codec.RoundTrip.{IsReading, decode-NoIac}
use liaozhai.Net.Codec.Stream.{close, scan}
use liaozhai.Net.Codec.Stream.Runs.{find_line_terminator-split, scan-consumed}
use liaozhai.Net.Codec.Telnet.{NoIac}
use liaozhai.Net.Iac.{TelnetLineCodec}
use liaozhai.Text.Utf8.{from_utf8_lossy}

NoIac-drop : (n : ℕ) (xs : Bytes) → NoIac xs → NoIac (drop n xs)
NoIac-drop zero xs h = h
NoIac-drop (suc n) [] h = tt
NoIac-drop (suc n) (x ∷ xs) h = NoIac-drop n xs h.1

pub NoIac-append : (xs ys : Bytes) → NoIac (xs ++ ys) → NoIac xs × NoIac ys
NoIac-append [] ys h = (tt, h)
NoIac-append (x ∷ xs) ys h = let r = NoIac-append xs ys h.1 in ((h.0, r.0), r.1)

-- What a call of `decode` did that gave an item or nothing, with no IAC in the buffer.
pub data Decoded (c : TelnetLineCodec) (buf : Bytes) (c' : TelnetLineCodec) (buf' : Bytes)
    : Option CodecItem → Type 0 where
  a_line :
      (xs : Bytes)
      → c' ≡ c
      → NoIac buf'
      → ((ended : List Bytes) → scan ended [] buf ≡ scan (close ended xs) [] buf')
      → Decoded c buf c' buf' (some (line (from_utf8_lossy xs)))
  no_line : c' ≡ c → buf' ≡ buf → NoTerminator buf → Decoded c buf c' buf' none
  long_line : Decoded c buf c' buf' (some line_too_long)

cut_line-Decoded :
    (again : TelnetLineCodec → Bytes → Option Reply) (c : TelnetLineCodec) (buf : Bytes)
    → IsReading c
    → NoIac buf
    → (c' : TelnetLineCodec) × (buf' : Bytes) × (i : Option CodecItem) × (cut_line again c buf
        ≡ some (reply c' buf' i))
      × Decoded c buf c' buf' i
unfolding cut_line
cut_line-Decoded again c buf r n = elim (Option-cases (find_line_terminator buf)) [
  | inl e ↦ elim (Bool-cases (ltb c.max_line_length (length buf))) [
    | inl long ↦ (
      record c { discarding = true },
      [],
      some line_too_long,
      rw (e, r.kept, long, cut_line),
      long_line,
    )
    | inr short ↦ (
      c,
      buf,
      none,
      rw (e, r.kept, short, cut_line),
      no_line refl refl (find_line_terminator-none buf e),
    )
  ]
  | inr (pos, e) ↦
      let (xs, b, rest, same, at_end, plain, t) = find_line_terminator-split buf pos e in
      let taken : take pos buf ≡ xs = rw (same, at_end) (take-append_length xs (b ∷ rest)) in
      let buf' = drop (terminator_end buf pos) buf in
      let left : drop (terminator_end (xs ++ b ∷ rest) (length xs)) (xs ++ b ∷ rest) ≡ buf' =
        rw (same, at_end) refl in
      let found : cut_line again c buf
          ≡ some (reply c buf' (some (line (from_utf8_lossy (take pos buf))))) =
        rw (e, r.kept, cut_line) in
      (
        c,
        buf',
        some (line (from_utf8_lossy xs)),
        found ∙ ap (λ w. some (reply c buf' (some (line (from_utf8_lossy w))))) taken,
        a_line xs refl (NoIac-drop (terminator_end buf pos) buf n) (λ ended.
            ap (scan ended []) same
            ∙ scan-consumed ended xs b rest plain t
            ∙ ap (scan (close ended xs) []) left),
      )
]

reply-inj :
    (c c' : TelnetLineCodec) (buf buf' : Bytes) (i i' : Option CodecItem)
    → ◌≡◌ {A = Option Reply} (some (reply c buf i)) (some (reply c' buf' i'))
    → (c ≡ c') × (buf ≡ buf') × (i ≡ i')
reply-inj c c' buf buf' i i' h = (cc, cc, cc)

pub decode-Decoded :
    (c : TelnetLineCodec) (buf : Bytes) (c' : TelnetLineCodec) (buf' : Bytes) (i : Option CodecItem)
    → IsReading c
    → NoIac buf
    → decode c buf ≡ some (reply c' buf' i)
    → Decoded c buf c' buf' i
unfolding decode
decode-Decoded c buf c' buf' i r n h = elim (Bool-cases (ltb c.max_buffer_size (length buf))) [
  | inl large ↦ ground arith
  | inr fits ↦
      let (d, left, j, e, done) = cut_line-Decoded (decode_fuel 1) c buf r n in
      let (p, q, s) =
        reply-inj d c' left buf' j i (sym e ∙ sym (decode-NoIac c buf r n (ground arith)) ∙ h) in
      subst (Decoded c buf c' buf') s
        (subst (λ x. Decoded c buf c' x j) q (subst (λ x. Decoded c buf x left j) p done))
]

pub Decoded-line :
    (c : TelnetLineCodec) (buf : Bytes) (c' : TelnetLineCodec) (buf' : Bytes) (i : Option CodecItem)
    (t : Text)
    → Decoded c buf c' buf' i
    → i ≡ some (line t)
    → (xs : Bytes) × (t ≡ from_utf8_lossy xs)
      × (c' ≡ c)
      × NoIac buf'
      × ((ended : List Bytes) → scan ended [] buf ≡ scan (close ended xs) [] buf')
Decoded-line c buf c' buf' _ t (a_line xs s n f) e = (xs, cc, s, n, f)
Decoded-line c buf c' buf' _ t (no_line s b n) e = ground arith
Decoded-line c buf c' buf' _ t long_line e = ground arith

pub Decoded-none :
    (c : TelnetLineCodec) (buf : Bytes) (c' : TelnetLineCodec) (buf' : Bytes) (i : Option CodecItem)
    → Decoded c buf c' buf' i
    → i ≡ none
    → (c' ≡ c) × (buf' ≡ buf) × NoTerminator buf
Decoded-none c buf c' buf' _ (a_line xs s n f) e = ground arith
Decoded-none c buf c' buf' _ (no_line s b n) e = (s, b, n)
Decoded-none c buf c' buf' _ long_line e = ground arith
