-- ===== src/Auth/RateLimiter/Entries.antt =====
-- The laws of the map.
use mathlib.Core.Path.{subst}
use liaozhai.Auth.RateLimiter.{Entry, Instant, IpAddr, get, is_some, put, remove}
use liaozhai.Common.{
  Bool-cases, List, [], arith, false, if◌then◌else◌, inl, inr, length, none, refl, some, true, ◌+◌,
  ◌==◌, ◌∷◌, ◌≡◌,
}

-- Each key has one entry.
abbrev pub Unique : List Entry → Type 0
Unique [] = Unit
Unique ((k, deque) ∷ map) = (get k map ≡ none) × Unique map

pub get-put :
    (i j : IpAddr) (value : List Instant) (map : List Entry)
    → get j (put i value map) ≡ (if i == j then some value else get j map)
unfolding get put
get-put i j value [] = refl
get-put i j value ((k, deque) ∷ map) = ground (arith, get-put i j value map)

pub get-remove_ne :
    (i j : IpAddr) (map : List Entry) → (i == j) ≡ false → get j (remove i map) ≡ get j map
unfolding get remove
get-remove_ne i j [] h = refl
get-remove_ne i j ((k, deque) ∷ map) h = ground (arith, get-remove_ne i j map h)

pub get-remove_self : (i : IpAddr) (map : List Entry) → Unique map → get i (remove i map) ≡ none
unfolding get remove
get-remove_self i [] u = refl
get-remove_self i ((k, deque) ∷ map) u = ground (arith, get-remove_self i map u.1)

pub length-put :
    (i : IpAddr) (value : List Instant) (map : List Entry)
    → length (put i value map) ≡ (if is_some (get i map) then length map else length map + 1)
unfolding get put
length-put i value [] = refl
length-put i value ((k, deque) ∷ map) = ground (arith, length-put i value map)

pub length-remove :
    (i : IpAddr) (map : List Entry)
    → is_some (get i map) ≡ true
    → length (remove i map) + 1 ≡ length map
unfolding get remove
length-remove i [] h = cc
length-remove i ((k, deque) ∷ map) h = ground (arith, length-remove i map)

pub Unique-put :
    (i : IpAddr) (value : List Instant) (map : List Entry) → Unique map → Unique (put i value map)
unfolding get put
Unique-put i value [] u = (refl, tt)
Unique-put i value ((k, deque) ∷ map) u =
    ground (arith, Unique-put i value map u.1, get-put i k value map)

pub Unique-remove : (i : IpAddr) (map : List Entry) → Unique map → Unique (remove i map)
unfolding get remove
Unique-remove i [] u = tt
Unique-remove i ((k, deque) ∷ map) u =
    ground (arith, Unique-remove i map u.1, get-remove_ne i k map)

-- A property of every deque of the map.
abbrev pub Each : (List Instant → Type 0) → List Entry → Type 0
Each P [] = Unit
Each P ((k, deque) ∷ map) = P deque × Each P map

pub Each-get :
    (P : List Instant → Type 0) (i : IpAddr) (map : List Entry) {deque : List Instant}
    → Each P map
    → get i map ≡ some deque
    → P deque
unfolding get
Each-get P i [] e h = cc
Each-get P i ((k, d) ∷ map) {deque} e h = elim (Bool-cases (k == i)) [
  | inl y ↦ let p : d ≡ deque = ground arith in subst P p e.0
  | inr n ↦ Each-get P i map e.1 (ground arith)
]

pub Each-put :
    (P : List Instant → Type 0) (i : IpAddr) (value : List Instant) (map : List Entry)
    → P value
    → Each P map
    → Each P (put i value map)
unfolding put
Each-put P i value [] p e = (p, tt)
Each-put P i value ((k, d) ∷ map) p e = elim (Bool-cases (k == i)) [
  | inl y ↦ rw (y, put) (p, e.1)
  | inr n ↦ rw (n, put) (e.0, Each-put P i value map p e.1)
]

pub Each-remove :
    (P : List Instant → Type 0) (i : IpAddr) (map : List Entry) → Each P map → Each P (remove i map)
unfolding remove
Each-remove P i [] e = tt
Each-remove P i ((k, d) ∷ map) e = elim (Bool-cases (k == i)) [
  | inl y ↦ rw (y, remove) e.1
  | inr n ↦ rw (n, remove) (e.0, Each-remove P i map e.1)
]
