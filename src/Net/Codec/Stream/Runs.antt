-- ===== src/Net/Codec/Stream/Runs.antt =====
-- The runs of a buffer, and what `decode` takes from it.
use liaozhai.Common.{
  Bool-cases, Bytes, List, Option-cases, [], ap, append-nil, append_assoc, arith, drop,
  get_elem?-append_length, if◌then◌else◌, inl, inr, length, length-append, refl, some, sym, true, ℕ,
  ◌&&◌, ◌++◌, ◌+◌, ◌==◌, ◌∙◌, ◌∷◌, ◌≡◌, ◌⊎◌,
}
use liaozhai.Net.Codec.{find_line_terminator, is_terminator}
use liaozhai.Net.Codec.Bounds.{NoTerminator}
use liaozhai.Net.Codec.InBounds.{terminator_end}
use liaozhai.Net.Codec.RoundTrip.{drop-append_more, get_elem?-append_suc}
use liaozhai.Net.Codec.Stream.{close, scan}

pub scan-append :
    (ended : List Bytes) (current xs ys : Bytes)
    → scan ended current (xs ++ ys) ≡ scan (scan ended current xs).0 (scan ended current xs).1 ys
unfolding scan
scan-append ended current [] ys = refl
scan-append ended current (x ∷ xs) ys =
    scan-append (if is_terminator x then close ended current else ended)
      (if is_terminator x then [] else current ++ x ∷ []) xs ys

pub scan-NoTerminator :
    (ended : List Bytes) (current xs ys : Bytes)
    → NoTerminator xs
    → scan ended current (xs ++ ys) ≡ scan ended (current ++ xs) ys
unfolding scan
scan-NoTerminator ended current [] ys h = ap (λ w. scan ended w ys) (sym (append-nil current))
scan-NoTerminator ended current (x ∷ xs) ys h =
    let step : scan ended current (x ∷ xs ++ ys) ≡ scan ended (current ++ x ∷ []) (xs ++ ys) =
      rw (h.0, scan) refl in
    step
    ∙ scan-NoTerminator ended (current ++ x ∷ []) xs ys h.1
    ∙ ap (λ w. scan ended w ys) (append_assoc current (x ∷ []) xs)

pub scan-terminator :
    (ended : List Bytes) (xs : Bytes) (b : ℕ) (rest : Bytes)
    → NoTerminator xs
    → is_terminator b ≡ true
    → scan ended [] (xs ++ b ∷ rest) ≡ scan (close ended xs) [] rest
unfolding scan
scan-terminator ended xs b rest h t = scan-NoTerminator ended [] xs (b ∷ rest) h ∙ rw t refl

-- Where `find_line_terminator` has found one.
pub find_line_terminator-split :
    (buf : Bytes) (pos : ℕ)
    → find_line_terminator buf ≡ some pos
    → (xs : Bytes) × (b : ℕ) × (rest : Bytes) × (buf ≡ xs ++ b ∷ rest)
      × (pos ≡ length xs)
      × NoTerminator xs
      × (is_terminator b ≡ true)
unfolding find_line_terminator
find_line_terminator-split [] pos h = ground arith
find_line_terminator-split (b ∷ bs) pos h = elim (Bool-cases (is_terminator b)) [
  | inl t ↦ ([], b, bs, refl, ground arith, tt, t)
  | inr f ↦ elim (Option-cases (find_line_terminator bs)) [
    | inl e ↦ ground arith
    | inr (n, e) ↦
        let (xs, b', rest, same, at_end, plain, t) = find_line_terminator-split bs n e in
        (b ∷ xs, b', rest, ap (◌∷◌ b) same, ground arith, (f, plain), t)
  ]
]

-- The terminator that is consumed, CR LF as one.
terminator_end-cases :
    (xs : Bytes) (b : ℕ) (rest : Bytes)
    → (terminator_end (xs ++ b ∷ rest) (length xs) ≡ length xs + 1)
      ⊎ ((rest' : Bytes) × (rest ≡ b'\n' ∷ rest')
          × (terminator_end (xs ++ b ∷ rest) (length xs) ≡ length xs + 2))
unfolding terminator_end
terminator_end-cases xs b [] =
    inl (ground (arith, get_elem?-append_length xs b [], length-append xs (b ∷ [])))
terminator_end-cases xs b (y ∷ ys) = elim (Bool-cases (b == b'\r' && y == b'\n')) [
  | inl crlf ↦ inr (
    ys,
    ground (arith, crlf),
    ground (
      arith,
      crlf,
      get_elem?-append_length xs b (y ∷ ys),
      get_elem?-append_suc xs b y ys,
      length-append xs (b ∷ y ∷ ys),
    ),
  )
  | inr one ↦ inl (
      ground (
        arith,
        one,
        get_elem?-append_length xs b (y ∷ ys),
        get_elem?-append_suc xs b y ys,
        length-append xs (b ∷ y ∷ ys),
      ))
]

pub scan-consumed :
    (ended : List Bytes) (xs : Bytes) (b : ℕ) (rest : Bytes)
    → NoTerminator xs
    → is_terminator b ≡ true
    → scan ended [] (xs ++ b ∷ rest)
      ≡ scan
          (close ended xs)
          []
          (drop (terminator_end (xs ++ b ∷ rest) (length xs)) (xs ++ b ∷ rest))
unfolding scan
scan-consumed ended xs b rest h t = elim (terminator_end-cases xs b rest) [
  | inl one ↦
      let left : drop (terminator_end (xs ++ b ∷ rest) (length xs)) (xs ++ b ∷ rest) ≡ rest =
        rw one (drop-append_more 1 xs (b ∷ rest)) in
      scan-terminator ended xs b rest h t ∙ ap (scan (close ended xs) []) (sym left)
  | inr (rest', lf, two) ↦
      let left : drop (terminator_end (xs ++ b ∷ rest) (length xs)) (xs ++ b ∷ rest) ≡ rest' =
        rw two (drop-append_more 2 xs (b ∷ rest) ∙ ap (drop 1) lf) in
      let skip : scan (close ended xs) [] rest ≡ scan (close ended xs) [] rest' =
        ap (scan (close ended xs) []) lf in
      scan-terminator ended xs b rest h t ∙ skip ∙ ap (scan (close ended xs) []) (sym left)
]
