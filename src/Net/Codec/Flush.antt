-- ===== src/Net/Codec/Flush.antt =====
-- What is left of the buffer at the end of the input: no index of `flush` is out of bounds.
use mathlib.Core.Option
use liaozhai.Auth.RateLimiter.Log.{fails}
use liaozhai.Common.{
  Bool, Bool-cases, Bytes, Option, [], ap, arith, false, inl, inr, leb, length, none, refl, some,
  take, true, ℕ, ◌&&◌, ◌-◌, ◌<◌, ◌==◌, ◌∙◌, ◌∷◌, ◌≡◌, ◌≢◌, ◌≤◌,
}
use liaozhai.Core.Error.{err, ok}
use liaozhai.Net.Codec.{
  CodecItem, Reply, TelnetCodecError, and_test, checked_sub, ends_in_iac, ends_in_verb, flush,
  last_line, line, line_end, reply, test_back,
}
use liaozhai.Net.Codec.InBounds.{get_elem?-some, slice_to-take}
use liaozhai.Net.Codec.Stripped.{IsCoherent}
use liaozhai.Net.Iac.{TelnetLineCodec, iac, is_negotiation}
use liaozhai.Text.Utf8.{from_utf8_lossy}

and_test-some : (a b : Bool) → and_test (some a) (some b) ≡ some (a && b)
unfolding and_test
and_test-some true b = refl
and_test-some false b = refl

-- The byte `k` before the end is there.
test_back-some :
    (buf : Bytes) (k : ℕ)
    → 0 < k
    → k ≤ length buf
    → (x : ℕ) × ((test : ℕ → Bool) → test_back buf k test ≡ some (test x))
unfolding test_back checked_sub Option.bind
test_back-some buf k pos h =
    let (x, at_) = get_elem?-some buf (length buf - k) (omega arith) in
    let enough : leb k (length buf) ≡ true = ground arith in (x, λ test. rw (enough, at_) refl)

abbrev behind_two : Bytes → Option Bool
behind_two buf = and_test (test_back buf 2 (λ b. b == iac)) (test_back buf 1 is_negotiation)

ends_in_verb-some :
    (buf : Bytes) → (v : Bool) × (ends_in_verb buf ≡ some v) × (v ≡ true → 2 ≤ length buf)
unfolding ends_in_verb and_test
ends_in_verb-some buf = elim (Bool-cases (leb 2 (length buf))) [
  | inl two ↦
      let h : 2 ≤ length buf = ground arith in
      let (x, before) = test_back-some buf 2 (omega arith) h in
      let (y, last) = test_back-some buf 1 (omega arith) (omega arith) in
      (
        (x == iac) && is_negotiation y,
        ap (λ a. and_test (some a) (behind_two buf)) two
            ∙ ap (λ a. and_test a (test_back buf 1 is_negotiation)) (before (λ b. b == iac))
            ∙ ap (and_test (some (x == iac))) (last is_negotiation)
            ∙ and_test-some (x == iac) (is_negotiation y),
        λ _. h,
      )
  | inr short ↦ (false, ap (λ a. and_test (some a) (behind_two buf)) short, λ e. cc)
]

ends_in_iac-some :
    (buf : Bytes) → (v : Bool) × (ends_in_iac buf ≡ some v) × (v ≡ true → 1 ≤ length buf)
unfolding ends_in_iac and_test
ends_in_iac-some buf = elim (Bool-cases (leb 1 (length buf))) [
  | inl one ↦
      let h : 1 ≤ length buf = ground arith in
      let (y, last) = test_back-some buf 1 (omega arith) h in
      (
        y == iac,
        ap (λ a. and_test (some a) (test_back buf 1 (λ b. b == iac))) one ∙ last (λ b. b == iac),
        λ _. h,
      )
  | inr short ↦
      (false, ap (λ a. and_test (some a) (test_back buf 1 (λ b. b == iac))) short, λ e. cc)
]

checked_sub-some : (a b : ℕ) → b ≤ a → checked_sub a b ≡ some (a - b)
unfolding checked_sub
checked_sub-some a b h = ground arith

line_end-some : (buf : Bytes) → (n : ℕ) × (line_end buf ≡ some n) × (n ≤ length buf)
unfolding line_end Option.bind
line_end-some buf =
    let (v, verb, two) = ends_in_verb-some buf in
    let (l, lone, one) = ends_in_iac-some buf in
    elim (Bool-cases v) [
      | inl holds ↦ (
        length buf - 2,
        rw (verb, holds) (checked_sub-some (length buf) 2 (two holds)),
        omega arith,
      )
      | inr fails ↦ elim (Bool-cases l) [
        | inl holds ↦ (
          length buf - 1,
          rw (verb, fails, lone, holds) (checked_sub-some (length buf) 1 (one holds)),
          omega arith,
        )
        | inr kept ↦ (length buf, rw (verb, fails, lone, kept) refl, omega arith)
      ]
    ]

-- What `flush` leaves.
pub record Flushes (c : TelnetLineCodec) (buf : Bytes) (r : Reply) : Type 0 where
  pub emptied : r.buf ≡ []
  pub no_error : (e : TelnetCodecError) → r.result ≢ err e
  pub coherent : IsCoherent c → IsCoherent r.codec
  pub takes : (item : CodecItem) → r.result ≡ ok (some item) → 0 < length buf

last_line-Flushes :
    (c : TelnetLineCodec) (buf : Bytes) (n : ℕ)
    → 0 < length buf
    → n ≤ length buf
    → (r : Reply) × (last_line c buf n ≡ some r) × Flushes c buf r
unfolding last_line
last_line-Flushes c buf n h le = elim (Bool-cases (n == 0)) [
  | inl empty ↦ (
    reply c [] none,
    rw empty refl,
    record { emptied = refl; no_error = λ e p. cc; coherent = λ i. i; takes = λ i p. cc },
  )
  | inr full ↦ (
    reply c [] (some (line (from_utf8_lossy (take n buf)))),
    rw (full, slice_to-take n buf le) refl,
    record { emptied = refl; no_error = λ e p. cc; coherent = λ i. i; takes = λ i p. h },
  )
]

flush-line :
    (c : TelnetLineCodec) (b : ℕ) (bs : Bytes)
    → c.discarding ≡ false
    → c.in_subnegotiation ≡ false
    → (b == iac) ≡ false
    → flush c (b ∷ bs) ≡ Option.bind (line_end (b ∷ bs)) (last_line c (b ∷ bs))
unfolding flush and_test Option.bind
flush-line c b bs reading in_text starts = rw (reading, in_text, starts) refl

pub flush-Flushes :
    (c : TelnetLineCodec) (buf : Bytes) → (r : Reply) × (flush c buf ≡ some r) × Flushes c buf r
unfolding flush and_test Option.bind
flush-Flushes c [] = (
  reply (record c { discarding = false }) [] none,
  refl,
  record { emptied = refl; no_error = λ e p. cc; coherent = λ i. i; takes = λ i p. cc },
)
flush-Flushes c (b ∷ bs) =
    let stopped : Reply =
      reply (record c { in_subnegotiation = false; subneg_iac_pending = false }) [] none in
    let stops : Flushes c (b ∷ bs) stopped = record {
      emptied = refl;
      no_error = λ e p. cc;
      coherent = λ i e. refl;
      takes = λ i p. cc;
    } in
    elim (Bool-cases c.discarding) [
      | inl skips ↦ (
        reply (record c { discarding = false }) [] none,
        rw skips refl,
        record { emptied = refl; no_error = λ e p. cc; coherent = λ i. i; takes = λ i p. cc },
      )
      | inr reading ↦ elim (Bool-cases c.in_subnegotiation) [
        | inl inside ↦ (stopped, rw (reading, inside) refl, stops)
        | inr in_text ↦ elim (Bool-cases (b == iac)) [
          | inl cut ↦ (stopped, rw (reading, in_text, cut) refl, stops)
          | inr starts ↦
              let (n, ends, le) = line_end-some (b ∷ bs) in
              let (r, e, f) = last_line-Flushes c (b ∷ bs) n (omega arith) le in
              (r, flush-line c b bs reading in_text starts ∙ rw ends e, f)
        ]
      ]
    ]
