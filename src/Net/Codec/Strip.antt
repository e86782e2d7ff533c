-- ===== src/Net/Codec/Strip.antt =====
-- `strip_iac` rewrites the buffer in place with two indices. The loop computes what the byte by
-- byte description of the framing gives, and no index is ever out of bounds.
use liaozhai.Common.{
  Bool-cases, Bytes, [], ap, append-nil, append_assoc, arith, false, get_elem?,
  get_elem?-append_length, inl, inr, length, length-append, refl, some, sym, take, true, ℕ, ◌++◌,
  ◌+◌, ◌<◌, ◌==◌, ◌∙◌, ◌∷◌, ◌≡◌,
}
use liaozhai.Net.Codec.Telnet.{
  Mode, command, feed, feed-cons, feed_byte, in_sub_of, leftover, option, pending_of, strip, sub,
  sub_iac, text,
}
use liaozhai.Net.Iac.{Flow, Scan, break, iac, move_byte, next, se, store_at, sub_round}

pub store_at-append :
    (w : Bytes) (x : ℕ) (rest : Bytes) (b : ℕ)
    → store_at (w ++ x ∷ rest) (length w) b ≡ some (w ++ b ∷ rest)
unfolding store_at
store_at-append [] x rest b = refl
store_at-append (y ∷ w) x rest b = rw (store_at-append w x rest b)

-- The buffer in the loop: `w` is written, `gap` is free, `rest` is unread.
pub record Layout (len : ℕ) (w gap rest : Bytes) (m : Mode) (s : Scan) : Type 0 where
  pub buf : s.buf ≡ w ++ (gap ++ rest)
  pub read : s.read ≡ length w + length gap
  pub write : s.write ≡ length w
  pub size : len ≡ length w + length gap + length rest
  pub in_sub : s.in_sub ≡ in_sub_of m
  pub pending : s.pending ≡ pending_of m

-- What a round gives: `out` is written and the loop goes on at `rest'`, or the loop ends.
pub data Round (len : ℕ) (w rest : Bytes) (m : Mode) (flow : Flow) : Type 0 where
  goes :
      (s' : Scan) (out gap' rest' : Bytes) (m' : Mode)
      → flow ≡ next s'
      → Layout len (w ++ out) gap' rest' m' s'
      → length rest' < length rest
      → feed m rest ≡ (out ++ (feed m' rest').0, (feed m' rest').1)
      → leftover m' ≡ []
      → Round len w rest m flow
  stops :
      (s' : Scan)
      → flow ≡ break s'
      → take s'.write s'.buf ≡ w ++ strip m rest
      → s'.in_sub ≡ in_sub_of (feed m rest).1
      → s'.pending ≡ pending_of (feed m rest).1
      → Round len w rest m flow

pub read-Layout :
    {len : ℕ} (w gap : Bytes) (b : ℕ) (rest : Bytes) {m : Mode} {s : Scan}
    → Layout len w gap (b ∷ rest) m s
    → get_elem? s.buf s.read ≡ some b
read-Layout w gap b rest l =
    rw (l.buf, l.read, ← length-append w gap, ← append_assoc)
      (get_elem?-append_length (w ++ gap) b rest)

module _ {len : ℕ} (w gap : Bytes) where
  pub skip-Layout :
      (skipped rest : Bytes) {m : Mode} (m' : Mode) {s : Scan} (s' : Scan)
      → Layout len w gap (skipped ++ rest) m s
      → s'.buf ≡ s.buf
      → s'.read ≡ s.read + length skipped
      → s'.write ≡ s.write
      → s'.in_sub ≡ in_sub_of m'
      → s'.pending ≡ pending_of m'
      → Layout len (w ++ []) (gap ++ skipped) rest m' s'
  skip-Layout skipped rest m' s' l b r wr i p = rw append-nil (record {
    buf = b ∙ l.buf ∙ ap (◌++◌ w) (sym (append_assoc gap skipped rest));
    read = omega (arith, l.read, length-append gap skipped);
    write = wr ∙ l.write;
    size = omega (arith, l.size, length-append gap skipped, length-append skipped rest);
    in_sub = i;
    pending = p;
  })

==_of_eq : (a b : ℕ) → a ≡ b → (a == b) ≡ true
==_of_eq a b e = ground arith

==_of_lt : (a b : ℕ) → a < b → (a == b) ≡ false
==_of_lt a b e = ground arith

-- A store at the end of what is written takes the place of a byte that is free or at hand.
pub store-Layout :
    {len : ℕ} (w gap : Bytes) (b v : ℕ) (rest : Bytes) {m : Mode} (s : Scan)
    → Layout len w gap (b ∷ rest) m s
    → (buf : Bytes) × (gap' : Bytes) × (store_at s.buf s.write v ≡ some buf)
      × (buf ≡ (w ++ v ∷ []) ++ (gap' ++ rest))
      × (length gap' ≡ length gap)
store-Layout w [] b v rest s l = (
  w ++ v ∷ rest,
  [],
  rw (l.buf, l.write) (store_at-append w b rest v),
  sym (append_assoc w (v ∷ []) rest),
  refl,
)
store-Layout w (g ∷ gap) b v rest s l = (
  w ++ v ∷ (gap ++ b ∷ rest),
  gap ++ b ∷ [],
  rw (l.buf, l.write) (store_at-append w g (gap ++ b ∷ rest) v),
  simp append_assoc,
  omega (arith, length-append gap (b ∷ [])),
)

-- So does a move of the byte at hand, which is none where no byte is free.
pub move_byte-Layout :
    {len : ℕ} (w gap : Bytes) (b : ℕ) (rest : Bytes) {m : Mode} (s : Scan)
    → Layout len w gap (b ∷ rest) m s
    → (buf : Bytes) × (gap' : Bytes) × (move_byte s b ≡ some buf)
      × (buf ≡ (w ++ b ∷ []) ++ (gap' ++ rest))
      × (length gap' ≡ length gap)
unfolding move_byte
move_byte-Layout w [] b rest s l = (
  s.buf,
  [],
  rw (==_of_eq s.write s.read (omega (arith, l.read, l.write))),
  l.buf ∙ sym (append_assoc w (b ∷ []) rest),
  refl,
)
move_byte-Layout w (g ∷ gap) b rest s l =
    let (buf, gap', e, r, n) = store-Layout w (g ∷ gap) b b rest s l in
    (buf, gap', rw (==_of_lt s.write s.read (omega (arith, l.read, l.write))) e, r, n)

-- The layout after a byte was written and the bytes up to `rest` were read.
pub written-Layout :
    {len : ℕ} (w gap gap' : Bytes) (b v : ℕ) (skipped rest : Bytes) {m : Mode} (m' : Mode)
    {s : Scan} (s' : Scan)
    → Layout len w gap (b ∷ (skipped ++ rest)) m s
    → s'.buf ≡ (w ++ v ∷ []) ++ (gap' ++ (skipped ++ rest))
    → length gap' ≡ length gap
    → s'.read ≡ s.read + 1 + length skipped
    → s'.write ≡ s.write + 1
    → s'.in_sub ≡ in_sub_of m'
    → s'.pending ≡ pending_of m'
    → Layout len (w ++ v ∷ []) (gap' ++ skipped) rest m' s'
written-Layout w gap gap' b v skipped rest m' s' l e n r wr i p = record {
  buf = e ∙ ap (◌++◌ (w ++ v ∷ [])) (sym (append_assoc gap' skipped rest));
  read = omega (arith, l.read, length-append gap' skipped, length-append w (v ∷ []));
  write = omega (arith, l.write, length-append w (v ∷ []));
  size = omega (
    arith,
    l.size,
    length-append gap' skipped,
    length-append skipped rest,
    length-append w (v ∷ []),
  );
  in_sub = i;
  pending = p;
}

module _ {len : ℕ} (w gap : Bytes) (b : ℕ) (rest : Bytes) (s : Scan) where
  -- A round that writes nothing and reads one byte.
  skip_one :
      {m : Mode} (m' : Mode) {flow : Flow} (s' : Scan)
      → Layout len w gap (b ∷ rest) m s
      → flow ≡ next s'
      → feed_byte m b ≡ ([], m')
      → leftover m' ≡ []
      → s'.buf ≡ s.buf
      → s'.read ≡ s.read + 1
      → s'.write ≡ s.write
      → s'.in_sub ≡ in_sub_of m'
      → s'.pending ≡ pending_of m'
      → Round len w (b ∷ rest) m flow
  skip_one {m} m' s' l f e lo eb er ew ei ep =
      goes s' [] (gap ++ b ∷ []) rest m' f (skip-Layout w gap (b ∷ []) rest m' s' l eb er ew ei ep)
        (omega arith) (feed-cons m b rest ∙ rw e) lo

  pub sub_round-Round :
      (m : Mode)
      → in_sub_of m ≡ true
      → Layout len w gap (b ∷ rest) m s
      → Round len w (b ∷ rest) m (sub_round s b)
  unfolding sub_round feed_byte
  sub_round-Round text h l = cc
  sub_round-Round command h l = cc
  sub_round-Round (option verb) h l = cc
  sub_round-Round sub h l = elim (Bool-cases (b == iac)) [
    | inl e ↦
        skip_one sub_iac (record s { pending = true; read = s.read + 1 }) l (ground arith)
          (ground arith) refl refl refl refl l.in_sub refl
    | inr e ↦
        skip_one sub (record s { read = s.read + 1 }) l (ground arith) (ground arith) refl refl refl
          refl l.in_sub l.pending
  ]
  sub_round-Round sub_iac h l = elim (Bool-cases (b == se)) [
    | inl e ↦
        skip_one text (record s { pending = false; in_sub = false; read = s.read + 1 }) l
          (ground arith) (ground arith) refl refl refl refl refl refl
    | inr e ↦ elim (Bool-cases (b == iac)) [
      | inl f ↦
          skip_one sub_iac (record s { pending = true; read = s.read + 1 }) l (ground arith)
            (ground arith) refl refl refl refl l.in_sub refl
      | inr f ↦
          skip_one sub (record s { pending = false; read = s.read + 1 }) l (ground arith)
            (ground arith) refl refl refl refl l.in_sub refl
    ]
  ]
