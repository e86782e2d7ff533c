-- ===== src/Net/Codec/Loop.antt =====
-- The rounds of `strip_iac` outside a subnegotiation, and the whole loop.
use liaozhai.Common.{
  Bytes, [], ap, arith, false, get_elem?, leb, length, length-append, refl, some, sym, take,
  take-append_length, true, ℕ, ◌++◌, ◌+◌, ◌<◌, ◌==◌, ◌∙◌, ◌∷◌, ◌≡◌, ◌≤◌,
}
use liaozhai.Net.Codec.Strip.{
  Layout, Round, goes, move_byte-Layout, read-Layout, skip-Layout, stops, store-Layout,
  written-Layout,
}
use liaozhai.Net.Codec.Telnet.{
  Mode, feed, feed-cons, feed_byte, in_sub_of, leftover, pending_of, strip, text,
}
use liaozhai.Net.Iac.{Scan, command_round, iac, is_negotiation, next, normal_round}

pub take-of-length : (n : ℕ) (xs ys : Bytes) → n ≡ length xs → take n (xs ++ ys) ≡ xs
take-of-length n xs ys e = rw e (take-append_length xs ys)

pub leb_of_le : (a b : ℕ) → a ≤ b → leb a b ≡ true
leb_of_le a b h = ground arith

pub leb_of_lt : (a b : ℕ) → b < a → leb a b ≡ false
leb_of_lt a b h = ground arith

strip-last : (b : ℕ) → (b == iac) ≡ true → strip text (b ∷ []) ≡ b ∷ []
unfolding strip feed_byte
strip-last b e = ground arith

pub strip-verb :
    (b verb : ℕ)
    → (b == iac) ≡ true
    → is_negotiation verb ≡ true
    → strip text (b ∷ verb ∷ []) ≡ b ∷ verb ∷ []
unfolding strip feed_byte
strip-verb b verb e v = ground arith

module _ {len : ℕ} (w gap : Bytes) (s : Scan) where
  -- A byte of the text is moved.
  pub plain-Round :
      (b : ℕ) (rest : Bytes)
      → (b == iac) ≡ false
      → Layout len w gap (b ∷ rest) text s
      → Round len w (b ∷ rest) text (normal_round len s b)
  unfolding normal_round feed_byte
  plain-Round b rest e l =
      let (buf, gap', moved, split, n) = move_byte-Layout w gap b rest s l in
      goes (record s { buf = buf; write = s.write + 1; read = s.read + 1 }) (b ∷ []) (gap' ++ [])
        rest text (rw (e, moved))
        (written-Layout w gap gap' b b [] rest text _ l split n (omega arith) refl l.in_sub
          l.pending)
        (omega arith) (feed-cons text b rest ∙ rw (e, feed_byte)) refl

  -- The buffer ends behind an IAC.
  pub last-Round :
      (b : ℕ)
      → (b == iac) ≡ true
      → Layout len w gap (b ∷ []) text s
      → Round len w (b ∷ []) text (normal_round len s b)
  unfolding normal_round feed_byte
  last-Round b e l =
      let (buf, gap', moved, split, n) = move_byte-Layout w gap b [] s l in
      stops (record s { buf = buf; write = s.write + 1 })
        (rw (e, leb_of_le len (s.read + 1) (omega (arith, l.size, l.read)), moved))
        (rw split (
            take-of-length _ (w ++ b ∷ []) (gap' ++ [])
              (omega (arith, l.write, length-append w (b ∷ []))))
          ∙ ap (◌++◌ w) (sym (strip-last b e)))
        (l.in_sub ∙ (unfold feed_byte feed in ground arith))
        (l.pending ∙ (unfold feed_byte feed in ground arith))

  -- Behind an IAC: `b` is the IAC and `cmd` the byte behind it.
  pub command_round-eq :
      (b cmd : ℕ) (rest : Bytes)
      → (b == iac) ≡ true
      → Layout len w gap (b ∷ cmd ∷ rest) text s
      → normal_round len s b ≡ command_round len s cmd
  unfolding normal_round
  command_round-eq b cmd rest e l =
      rw (e, leb_of_lt len (s.read + 1) (omega (arith, l.size, l.read)), second)
    where
      second : get_elem? s.buf (s.read + 1) ≡ some cmd
      second = read-Layout (w ++ []) (gap ++ b ∷ []) cmd rest (
          skip-Layout w gap (b ∷ []) (cmd ∷ rest) text (record s { read = s.read + 1 }) l refl refl
            refl l.in_sub l.pending)

  -- IAC IAC stands for one byte of text.
  pub escape-Round :
      (b cmd : ℕ) (rest : Bytes)
      → (b == iac) ≡ true
      → (cmd == iac) ≡ true
      → Layout len w gap (b ∷ cmd ∷ rest) text s
      → Round len w (b ∷ cmd ∷ rest) text (normal_round len s b)
  unfolding command_round
  escape-Round b cmd rest e f l =
      let (buf, gap', stored, split, n) = store-Layout w gap b iac (cmd ∷ rest) s l in
      goes (record s { buf = buf; write = s.write + 1; read = s.read + 2 }) (iac ∷ [])
        (gap' ++ cmd ∷ []) rest text (command_round-eq b cmd rest e l ∙ rw (f, stored))
        (written-Layout w gap gap' b iac (cmd ∷ []) rest text _ l split n (omega arith) refl
          l.in_sub l.pending)
        (omega arith) (unfold feed feed_byte in rw (e, f)) refl

  -- A command of two bytes, or the begin of a subnegotiation.
  pub skip_two :
      (b cmd : ℕ) (rest : Bytes) (m' : Mode) (s' : Scan)
      → Layout len w gap (b ∷ cmd ∷ rest) text s
      → normal_round len s b ≡ next s'
      → feed text (b ∷ cmd ∷ rest) ≡ feed m' rest
      → leftover m' ≡ []
      → s'.buf ≡ s.buf
      → s'.read ≡ s.read + 2
      → s'.write ≡ s.write
      → s'.in_sub ≡ in_sub_of m'
      → s'.pending ≡ pending_of m'
      → Round len w (b ∷ cmd ∷ rest) text (normal_round len s b)
  skip_two b cmd rest m' s' l f e lo eb er ew ei ep =
      goes s' [] (gap ++ b ∷ cmd ∷ []) rest m' f
        (skip-Layout w gap (b ∷ cmd ∷ []) rest m' s' l eb er ew ei ep) (omega arith) e lo

  -- IAC, a verb and its option.
  pub verb-Round :
      (b cmd d : ℕ) (rest : Bytes)
      → (b == iac) ≡ true
      → is_negotiation cmd ≡ true
      → Layout len w gap (b ∷ cmd ∷ d ∷ rest) text s
      → Round len w (b ∷ cmd ∷ d ∷ rest) text (normal_round len s b)
  unfolding command_round feed_byte
  verb-Round b cmd d rest e v l =
      goes (record s { read = s.read + 3 }) [] (gap ++ b ∷ cmd ∷ d ∷ []) rest text
        (command_round-eq b cmd (d ∷ rest) e l
          ∙ rw (leb_of_lt len (s.read + 2) (omega (arith, l.size, l.read))) (ground arith))
        (skip-Layout w gap (b ∷ cmd ∷ d ∷ []) rest text _ l refl refl refl l.in_sub l.pending)
        (omega arith) (unfold feed in ground arith) refl
