-- ===== src/Text/Trim.antt =====
-- `str::trim` and `str::to_ascii_lowercase`.
use liaozhai.Common.{
  Bool, Text, [], ap, arith, false, if◌then◌else◌, leb, refl, ℕ, ◌&&◌, ◌+◌, ◌==◌, ◌||◌, ◌∙◌, ◌∷◌,
  ◌≡◌,
}

-- `char::is_whitespace`: the code points with the Unicode property White_Space.
unfoldable pub is_whitespace : ℕ → Bool
is_whitespace c =
    (leb 0x09 c && leb c 0x0D)
    || c == 0x20
    || c == 0x85
    || c == 0xA0
    || c == 0x1680
    || (leb 0x2000 c && leb c 0x200A)
    || c == 0x2028
    || c == 0x2029
    || c == 0x202F
    || c == 0x205F
    || c == 0x3000

unfoldable pub trim_start : Text → Text
trim_start [] = []
trim_start (c ∷ cs) = if is_whitespace c then trim_start cs else c ∷ cs

-- A character in front of what is left of the rest: it goes too if nothing is left.
unfoldable pub push_front : ℕ → Text → Text
push_front c [] = if is_whitespace c then [] else c ∷ []
push_front c (d ∷ ds) = c ∷ d ∷ ds

unfoldable pub trim_end : Text → Text
unfolding push_front
trim_end [] = []
trim_end (c ∷ cs) = push_front c (trim_end cs)

-- `str::trim`
unfoldable pub trim : Text → Text
unfolding trim_start trim_end
trim s = trim_end (trim_start s)

abbrev lower_char : ℕ → ℕ
lower_char c = if leb b'A' c && leb c b'Z' then c + 32 else c

-- `str::to_ascii_lowercase`
unfoldable pub to_ascii_lowercase : Text → Text
to_ascii_lowercase [] = []
to_ascii_lowercase (c ∷ cs) = lower_char c ∷ to_ascii_lowercase cs

push_front-trim_end :
    (c : ℕ) (s : Text) → trim_end s ≡ s → trim_end (push_front c s) ≡ push_front c s
unfolding push_front trim_end
push_front-trim_end c [] h = ground arith
push_front-trim_end c (d ∷ ds) h = rw h

trim_end_idem : (s : Text) → trim_end (trim_end s) ≡ trim_end s
unfolding trim_end
trim_end_idem [] = refl
trim_end_idem (c ∷ cs) = push_front-trim_end c (trim_end cs) (trim_end_idem cs)

-- The text does not begin with whitespace.
abbrev pub IsFlush : Text → Type 0
IsFlush [] = Unit
IsFlush (c ∷ cs) = is_whitespace c ≡ false

pub trim_start-IsFlush : (s : Text) → IsFlush (trim_start s)
unfolding trim_start
trim_start-IsFlush [] = tt
trim_start-IsFlush (c ∷ cs) = ground (arith, trim_start-IsFlush cs)

pub trim_start-of-IsFlush : (s : Text) → IsFlush s → trim_start s ≡ s
unfolding trim_start
trim_start-of-IsFlush [] h = refl
trim_start-of-IsFlush (c ∷ cs) h = rw h

push_front-IsFlush : (c : ℕ) (s : Text) → is_whitespace c ≡ false → IsFlush (push_front c s)
unfolding push_front
push_front-IsFlush c [] h = rw h h
push_front-IsFlush c (d ∷ ds) h = h

trim_end-IsFlush : (s : Text) → IsFlush s → IsFlush (trim_end s)
unfolding trim_end
trim_end-IsFlush [] h = tt
trim_end-IsFlush (c ∷ cs) h = push_front-IsFlush c (trim_end cs) h

pub trim-IsFlush : (s : Text) → IsFlush (trim s)
unfolding trim
trim-IsFlush s = trim_end-IsFlush (trim_start s) (trim_start-IsFlush s)

-- Trimming twice is trimming once.
pub trim_idem : (s : Text) → trim (trim s) ≡ trim s
unfolding trim
trim_idem s = ap trim_end (trim_start-of-IsFlush _ (trim-IsFlush s)) ∙ trim_end_idem (trim_start s)
