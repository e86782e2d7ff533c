-- ===== src/Net/Codec/InBounds.antt =====
-- No index of `decode` and of `decode_eof` is out of bounds: what they compute, without the panics.
use mathlib.Core.Option
use liaozhai.Common.{
  Bool, Bool-cases, Bytes, Option, Option-cases, [], arith, drop, false, get_elem?, if◌then◌else◌,
  inl, inr, length, ltb, none, refl, some, suc, take, true, zero, ℕ, ◌&&◌, ◌+◌, ◌<◌, ◌==◌, ◌∷◌, ◌≡◌,
  ◌≤◌,
}
use liaozhai.Net.Codec.{
  Reply, after_strip, and_test, consume_terminator, find_line_terminator, line, line_too_long,
  reply, slice_to, split_to,
}
use liaozhai.Net.Codec.Bounds.{find_line_terminator-lt}
use liaozhai.Net.Iac.{TelnetLineCodec}
use liaozhai.Text.Utf8.{from_utf8_lossy}

-- The byte at `i` is `b`.
abbrev has_byte : Bytes → ℕ → ℕ → Bool
has_byte buf i b = elim (get_elem? buf i) [ none ↦ false | some x ↦ x == b ]

-- Behind the line terminator at `pos`.
unfoldable pub terminator_end : Bytes → ℕ → ℕ
terminator_end buf pos =
    if has_byte buf pos b'\r' && ltb (pos + 1) (length buf) && has_byte buf (pos + 1) b'\n'
    then pos + 2
    else pos + 1

pub get_elem?-some : (xs : Bytes) (i : ℕ) → i < length xs → (x : ℕ) × (get_elem? xs i ≡ some x)
get_elem?-some [] i h = absurd (omega (arith, h))
get_elem?-some (x ∷ xs) zero h = (x, refl)
get_elem?-some (x ∷ xs) (suc i) h = get_elem?-some xs i (omega (arith, h))

get_elem?-none : (xs : Bytes) (i : ℕ) → length xs ≤ i → get_elem? xs i ≡ none
get_elem?-none [] i h = refl
get_elem?-none (x ∷ xs) zero h = absurd (omega (arith, h))
get_elem?-none (x ∷ xs) (suc i) h = get_elem?-none xs i (omega (arith, h))

pub consume_terminator-some :
    (buf : Bytes) (pos : ℕ)
    → pos < length buf
    → (consume_terminator buf pos ≡ some (terminator_end buf pos))
      × (terminator_end buf pos ≤ length buf)
unfolding consume_terminator terminator_end and_test
consume_terminator-some buf pos h =
    let (x, at_) = get_elem?-some buf pos h in
    elim (Bool-cases (ltb (pos + 1) (length buf))) [
      | inl more ↦
          let lt : pos + 1 < length buf = ground arith in
          let (y, next_) = get_elem?-some buf (pos + 1) lt in
          (ground (arith, at_, next_), ground (arith, at_, next_))
      | inr last ↦
          let ge : length buf ≤ pos + 1 = ground arith in
          let beyond = get_elem?-none buf (pos + 1) ge in
          (ground (arith, at_, beyond), ground (arith, at_, beyond))
    ]

pub slice_to-take : (n : ℕ) (buf : Bytes) → n ≤ length buf → slice_to n buf ≡ some (take n buf)
unfolding slice_to
slice_to-take n buf h = ground arith

pub split_to-drop : (n : ℕ) (buf : Bytes) → n ≤ length buf → split_to n buf ≡ some (drop n buf)
unfolding split_to
split_to-drop n buf h = ground arith

-- `after_strip` where no index is out of bounds.
unfoldable pub cut_line :
    (TelnetLineCodec → Bytes → Option Reply) → TelnetLineCodec → Bytes → Option Reply
unfolding find_line_terminator terminator_end from_utf8_lossy
cut_line again c buf = elim (find_line_terminator buf) [
  | some pos ↦
      if c.discarding
      then again (record c { discarding = false }) (drop (terminator_end buf pos) buf)
      else some (
          reply c (drop (terminator_end buf pos) buf)
            (some (line (from_utf8_lossy (take pos buf)))))
  | none ↦
      if c.discarding
      then some (reply c [] none)
      else if ltb c.max_line_length (length buf)
      then some (reply (record c { discarding = true }) [] (some line_too_long))
      else some (reply c buf none)
]

pub after_strip-cut_line :
    (again : TelnetLineCodec → Bytes → Option Reply) (c : TelnetLineCodec) (buf : Bytes)
    → after_strip again c buf ≡ cut_line again c buf
unfolding after_strip cut_line Option.bind
after_strip-cut_line again c buf = elim (Option-cases (find_line_terminator buf)) [
  | inl missing ↦ rw (missing, after_strip, cut_line) refl
  | inr (pos, found) ↦
      let lt = find_line_terminator-lt buf pos found in
      let (consumed, within) = consume_terminator-some buf pos lt in
      let rest = split_to-drop (terminator_end buf pos) buf within in
      let text = slice_to-take pos buf (omega (arith, lt)) in
      elim (Bool-cases c.discarding) [
        | inl skips ↦ rw (after_strip, cut_line, found, skips, consumed, rest) refl
        | inr reading ↦ rw (after_strip, cut_line, found, reading, text, consumed, rest) refl
      ]
]

-- A terminator has at least one byte.
pub terminator_end-gt : (bs : Bytes) (pos : ℕ) → pos < terminator_end bs pos
unfolding terminator_end
terminator_end-gt bs pos = ground arith
