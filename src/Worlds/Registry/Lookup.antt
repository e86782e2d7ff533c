-- ===== src/Worlds/Registry/Lookup.antt =====
-- Positions as they are shown to the client: from 1 on.
use liaozhai.Common.{
  Bool-cases, List, [], arith, get_elem?, inl, inr, length, ltb, ltb→lt, none, refl, some, suc,
  zero, ℕ, ◌-◌, ◌<◌, ◌∙◌, ◌∷◌, ◌≡◌, ◌≤◌, ◌⊎◌,
}
use liaozhai.Worlds.Metadata.{WorldMetadata}
use liaozhai.Worlds.Registry.{WorldRegistry, get_by_position, registry_len}

pub get_elem?-lt :
    (ws : List WorldMetadata) (i : ℕ)
    → i < length ws
    → (w : WorldMetadata) × (get_elem? ws i ≡ some w)
get_elem?-lt [] i h = elim h [ ]
get_elem?-lt (w ∷ ws) zero h = (w, refl)
get_elem?-lt (w ∷ ws) (suc i) h = get_elem?-lt ws i (omega arith)

pub get_elem?-ge : (ws : List WorldMetadata) (i : ℕ) → length ws ≤ i → get_elem? ws i ≡ none
get_elem?-ge [] i h = refl
get_elem?-ge (w ∷ ws) zero h = elim h [ ]
get_elem?-ge (w ∷ ws) (suc i) h = get_elem?-ge ws i (omega arith)

pub get_by_position-suc :
    (r : WorldRegistry) (i : ℕ) → get_by_position r (suc i) ≡ get_elem? r.worlds i
unfolding get_by_position
get_by_position-suc r i = let e : suc i - 1 ≡ i = omega arith in rw e (ground arith)

-- There is a world at a position exactly if that is at least 1 and at most the number of worlds.
pub get_by_position-bounds :
    (r : WorldRegistry) (n : ℕ)
    → ((w : WorldMetadata) × (get_by_position r n ≡ some w) × (1 ≤ n) × (n ≤ registry_len r))
      ⊎ ((get_by_position r n ≡ none) × ((n ≡ 0) ⊎ (registry_len r < n)))
unfolding get_by_position
get_by_position-bounds r zero = inr (refl, inl refl)
get_by_position-bounds r (suc i) = elim (Bool-cases (ltb i (registry_len r))) [
  | inl h ↦
      let (w, e) = get_elem?-lt r.worlds i (ltb→lt i _ h) in
      inl (w, get_by_position-suc r i ∙ e, omega arith, ltb→lt i _ h)
  | inr h ↦
      let out : registry_len r ≤ i = ground arith in
      inr (get_by_position-suc r i ∙ get_elem?-ge r.worlds i out, inr (omega arith))
]
