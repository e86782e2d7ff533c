-- ===== src/Net/Codec/Rounds.antt =====
-- The rounds of `strip_iac` at an IAC, and every round.
use liaozhai.Common.{
  Bool, Bool-cases, Bytes, [], ap, append_assoc, arith, false, get_elem?, if◌then◌else◌, inl, inr,
  length-append, refl, some, sym, take, true, ℕ, ◌++◌, ◌+◌, ◌-◌, ◌==◌, ◌∙◌, ◌∷◌, ◌≡◌, ◌⊎◌,
}
use liaozhai.Net.Codec.Loop.{
  command_round-eq, escape-Round, last-Round, leb_of_le, plain-Round, skip_two, strip-verb,
  take-of-length, verb-Round,
}
use liaozhai.Net.Codec.Strip.{
  Layout, Round, read-Layout, stops, store-Layout, sub_round-Round, written-Layout,
}
use liaozhai.Net.Codec.Telnet.{
  Mode, command, feed, feed_byte, in_sub_of, leftover, option, sub, sub_iac, text,
}
use liaozhai.Net.Iac.{
  Scan, command_round, copy_down, iac, is_negotiation, normal_round, sb, strip_round, sub_round,
}

module _ {len : ℕ} (w gap : Bytes) (s : Scan) where
  -- The copy loop of a sequence that is cut off behind its verb.
  copy_two :
      (b cmd : ℕ)
      → Layout len w gap (b ∷ cmd ∷ []) text s
      → (buf : Bytes) × (copy_down 2 s.buf s.write s.read ≡ some buf)
        × (take (s.write + 2) buf ≡ w ++ b ∷ cmd ∷ [])
  unfolding copy_down
  copy_two b cmd l =
      let (buf, gap', stored, split, n) = store-Layout w gap b b (cmd ∷ []) s l in
      let s' : Scan = record s { buf = buf; write = s.write + 1; read = s.read + 1 } in
      let l' : Layout len (w ++ b ∷ []) (gap' ++ []) (cmd ∷ []) text s' =
        written-Layout w gap gap' b b [] (cmd ∷ []) text s' l split n (omega arith) refl l.in_sub
          l.pending in
      let (buf', gap'', stored', split', n') =
        store-Layout (w ++ b ∷ []) (gap' ++ []) cmd cmd [] s' l' in
      (
        buf',
        rw (read-Layout w gap b (cmd ∷ []) l, stored, read-Layout _ _ cmd [] l', stored'),
        rw split' (
              take-of-length _ ((w ++ b ∷ []) ++ cmd ∷ []) (gap'' ++ []) (
                omega (
                  arith,
                  l.write,
                  length-append w (b ∷ []),
                  length-append (w ++ b ∷ []) (cmd ∷ []),
                )))
            ∙ append_assoc w (b ∷ []) (cmd ∷ []),
      )

  cut-Round :
      (b cmd : ℕ)
      → (b == iac) ≡ true
      → is_negotiation cmd ≡ true
      → Layout len w gap (b ∷ cmd ∷ []) text s
      → Round len w (b ∷ cmd ∷ []) text (normal_round len s b)
  unfolding command_round feed_byte
  cut-Round b cmd e v l =
      let (buf, copied, kept) = copy_two b cmd l in
      let two : len - s.read ≡ 2 = omega (arith, l.size, l.read) in
      stops (record s { buf = buf; write = s.write + 2 })
        (command_round-eq w gap s b cmd [] e l
          ∙ rw (leb_of_le len (s.read + 2) (omega (arith, l.size, l.read)), two, copied)
              (ground arith))
        (kept ∙ ap (◌++◌ w) (sym (strip-verb b cmd e v)))
        (l.in_sub ∙ (unfold feed_byte feed in ground arith))
        (l.pending ∙ (unfold feed_byte feed in ground arith))

  -- The round at an IAC, with at least one byte behind it.
  iac-Round :
      (b cmd : ℕ) (rest : Bytes)
      → (b == iac) ≡ true
      → Layout len w gap (b ∷ cmd ∷ rest) text s
      → (is_negotiation cmd ≡ true) ⊎ (is_negotiation cmd ≡ false)
      → Round len w (b ∷ cmd ∷ rest) text (normal_round len s b)
  iac-Round b cmd [] e l (inl v) = cut-Round b cmd e v l
  iac-Round b cmd (d ∷ rest) e l (inl v) = verb-Round w gap s b cmd d rest e v l
  iac-Round b cmd rest e l (inr v) = elim (Bool-cases (cmd == iac)) [
    | inl f ↦ escape-Round w gap s b cmd rest e f l
    | inr f ↦ elim (Bool-cases (cmd == sb)) [
      | inl g ↦
          skip_two w gap s b cmd rest sub
            (record s { in_sub = true; pending = false; read = s.read + 2 }) l
            (command_round-eq w gap s b cmd rest e l ∙ (unfold command_round in ground arith))
            (unfold feed feed_byte in ground arith) refl refl refl refl refl refl
      | inr g ↦
          skip_two w gap s b cmd rest text (record s { read = s.read + 2 }) l
            (command_round-eq w gap s b cmd rest e l ∙ (unfold command_round in ground arith))
            (unfold feed feed_byte in ground arith) refl refl refl refl l.in_sub l.pending
    ]
  ]

  normal_round-Round :
      (b : ℕ) (rest : Bytes)
      → Layout len w gap (b ∷ rest) text s
      → ((b == iac) ≡ true) ⊎ ((b == iac) ≡ false)
      → Round len w (b ∷ rest) text (normal_round len s b)
  normal_round-Round b rest l (inr e) = plain-Round w gap s b rest e l
  normal_round-Round b [] l (inl e) = last-Round w gap s b e l
  normal_round-Round b (cmd ∷ rest) l (inl e) =
      iac-Round b cmd rest e l (Bool-cases (is_negotiation cmd))

if-true {ℓ} : {A : Type ℓ} (b : Bool) (x y : A) → b ≡ true → (if b then x else y) ≡ x
if-true b x y h = rw h

if-false {ℓ} : {A : Type ℓ} (b : Bool) (x y : A) → b ≡ false → (if b then x else y) ≡ y
if-false b x y h = rw h

strip_round-eq :
    (len : ℕ) (s : Scan) (b : ℕ)
    → get_elem? s.buf s.read ≡ some b
    → strip_round len s ≡ (if s.in_sub then sub_round s b else normal_round len s b)
unfolding strip_round
strip_round-eq len s b e = rw (e, strip_round)

module _ {len : ℕ} (w gap : Bytes) (s : Scan) where
  sub_mode-Round :
      (b : ℕ) (rest : Bytes) (m : Mode)
      → in_sub_of m ≡ true
      → Layout len w gap (b ∷ rest) m s
      → Round len w (b ∷ rest) m (strip_round len s)
  sub_mode-Round b rest m h l =
      rw (strip_round-eq len s b (read-Layout w gap b rest l) ∙ if-true _ _ _ (l.in_sub ∙ h))
        (sub_round-Round w gap b rest s m h l)

  -- Every round goes on with what the description gives, or ends the loop.
  pub strip_round-Round :
      (b : ℕ) (rest : Bytes) (m : Mode)
      → leftover m ≡ []
      → Layout len w gap (b ∷ rest) m s
      → Round len w (b ∷ rest) m (strip_round len s)
  strip_round-Round b rest text h l =
      rw (strip_round-eq len s b (read-Layout w gap b rest l) ∙ if-false _ _ _ l.in_sub)
        (normal_round-Round w gap s b rest l (Bool-cases (b == iac)))
  strip_round-Round b rest sub h l = sub_mode-Round b rest sub refl l
  strip_round-Round b rest sub_iac h l = sub_mode-Round b rest sub_iac refl l
  strip_round-Round b rest command h l = cc
  strip_round-Round b rest (option verb) h l = cc
