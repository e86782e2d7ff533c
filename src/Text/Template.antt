-- ===== src/Text/Template.antt =====
-- `str::replace` of a placeholder, which is no empty text, and the width of `format!`.
use liaozhai.Common.{
  Option, Text, [], if◌then◌else◌, length, none, replicate, some, suc, zero, ℕ, ◌++◌, ◌-◌, ◌==◌,
  ◌∷◌,
}

-- What is left behind a prefix of the text.
unfoldable pub strip_prefix : Text → Text → Option Text
strip_prefix [] s = some s
strip_prefix (p ∷ ps) [] = none
strip_prefix (p ∷ ps) (c ∷ cs) = if p == c then strip_prefix ps cs else none

-- The matches from the left that do not overlap are replaced; `skip` characters belong to a match
-- that is replaced already.
replace_from : ℕ → Text → Text → Text → Text
unfolding strip_prefix
replace_from skip pattern_ value [] = []
replace_from (suc skip) pattern_ value (c ∷ cs) = replace_from skip pattern_ value cs
replace_from zero pattern_ value (c ∷ cs) = elim (strip_prefix pattern_ (c ∷ cs)) [
  | some _ ↦ value ++ replace_from (length pattern_ - 1) pattern_ value cs
  | none ↦ c ∷ replace_from zero pattern_ value cs
]

unfoldable pub replace : Text → Text → Text → Text
unfolding replace_from
replace s pattern_ value = replace_from zero pattern_ value s

-- `{:<width$}`: filled up with spaces to a number of characters.
abbrev pub pad_right : ℕ → Text → Text
pad_right width s = s ++ replicate (width - length s) b' '
