-- ===== src/Auth/RateLimiter/SameMap.antt =====
-- Two lists of the entries of rate_limiter.rs that are the same map.
use mathlib.Core.Path.{subst}
use liaozhai.Auth.RateLimiter.{
  Entry, Instant, IpAddr, back, find_oldest_entry, get, is_some, make_room, min_by_back, put,
  remove,
}
use liaozhai.Auth.RateLimiter.Entries.{
  Each, Each-get, Unique, Unique-remove, get-put, get-remove_ne, get-remove_self, length-remove,
}
use liaozhai.Auth.RateLimiter.Eviction.{
  AtLeast, HasLast, Lasts, Lasts-HasLast, NoneBefore, min_by_back-Lasts,
}
use liaozhai.Common.{
  Bool-cases, List, Option, Option-cases, [], ap, arith, if◌then◌else◌, inl, inr, leb, length, none,
  not, refl, some, sym, true, ℕ, ◌&&◌, ◌==◌, ◌∙◌, ◌∷◌, ◌≡◌, ◌≤◌, ◌⊎◌,
}

-- Two lists of entries are the same map.
abbrev pub SameMap : List Entry → List Entry → Type 0
SameMap m n = (ip : IpAddr) → get ip m ≡ get ip n

-- No two addresses have the same last failure.
abbrev pub NoTies : List Entry → Type 0
NoTies m = (i j : IpAddr) (t : Instant) → HasLast m i (some t) → HasLast m j (some t) → i ≡ j

pub SameMap-put :
    (m n : List Entry) (ip : IpAddr) (value : List Instant)
    → SameMap m n
    → SameMap (put ip value m) (put ip value n)
SameMap-put m n ip value h j = get-put ip j value m ∙ rw (h j) (sym (get-put ip j value n))

get-remove :
    (i j : IpAddr) (m : List Entry)
    → Unique m
    → get j (remove i m) ≡ (if i == j then none else get j m)
get-remove i j m u = elim (Bool-cases (i == j)) [
  | inl same ↦
      let e : i ≡ j = ground arith in
      rw same (subst (λ x. get x (remove i m) ≡ none) e (get-remove_self i m u))
  | inr differs ↦ rw differs (get-remove_ne i j m differs)
]

pub SameMap-remove :
    (m n : List Entry) (ip : IpAddr)
    → Unique m
    → Unique n
    → SameMap m n
    → SameMap (remove ip m) (remove ip n)
SameMap-remove m n ip u v h j = get-remove ip j m u ∙ rw (h j) (sym (get-remove ip j n v))

SameMap-length : (m n : List Entry) → Unique m → Unique n → SameMap m n → length m ≡ length n
unfolding get
SameMap-length [] [] u v h = refl
SameMap-length [] ((k, deque) ∷ n) u v h = ground (arith, h k)
SameMap-length ((k, deque) ∷ m) n u v h =
    let there : get k n ≡ some deque = ground (arith, h k) in
    let known : is_some (get k n) ≡ true = rw there refl in
    let rest =
      SameMap-length m (remove k n) u.1 (Unique-remove k n v) (rest_of k deque m n u v h) in
    omega (arith, rest, length-remove k n known)
  where
    rest_of :
        (k : IpAddr) (deque : List Instant) (m n : List Entry)
        → Unique ((k, deque) ∷ m)
        → Unique n
        → SameMap ((k, deque) ∷ m) n
        → SameMap m (remove k n)
    rest_of k deque m n u v h j = elim (Bool-cases (k == j)) [
      | inl same ↦
          let e : k ≡ j = ground arith in
          let gone : get j m ≡ none = subst (λ x. get x m ≡ none) e u.0 in
          gone ∙ sym (get-remove k j n v ∙ rw same refl)
      | inr differs ↦ ground (arith, h j, get-remove k j n v)
    ]

SameMap-HasLast :
    (m n : List Entry) (ip : IpAddr) (last : Option Instant)
    → SameMap m n
    → HasLast m ip last
    → HasLast n ip last
SameMap-HasLast m n ip last h (deque, known, e) = (deque, sym (h ip) ∙ known, e)

abbrev NoLast : List Instant → Type 0
NoLast deque = back deque ≡ none

min_by_back-none :
    (Q : IpAddr → Option Instant → Type 0) (m : List Entry)
    → Lasts Q m
    → ((min_by_back none m ≡ none) × Each NoLast m)
      ⊎ ((ip : IpAddr) × (t : Instant) × (min_by_back none m ≡ some (ip, t))
          × Q ip (some t)
          × NoneBefore t m)
unfolding min_by_back
min_by_back-none Q [] h = inl (refl, tt)
min_by_back-none Q ((k, deque) ∷ m) h = elim (Option-cases (back deque)) [
  | inl e ↦ elim (min_by_back-none Q m h.1) [
    | inl (found, rest) ↦ inl (rw e found, (e, rest))
    | inr (ip, t, found, q, rest) ↦ inr (ip, t, rw e found, q, (rw e tt, rest))
  ]
  | inr (s, e) ↦
      let (ip, t, found, q, le, rest) = min_by_back-Lasts Q k s m (subst (Q k) e h.0) h.1 in
      inr (ip, t, rw e found, q, (rw e le, rest))
]

find_oldest_entry-IsOldest :
    (m : List Entry)
    → Unique m
    → ((find_oldest_entry m ≡ none) × Each NoLast m)
      ⊎ ((ip : IpAddr) × (t : Instant) × (find_oldest_entry m ≡ some ip)
          × HasLast m ip (some t)
          × NoneBefore t m)
unfolding find_oldest_entry
find_oldest_entry-IsOldest m u = elim (min_by_back-none (HasLast m) m (Lasts-HasLast m u)) [
  | inl (found, rest) ↦ inl (rw found refl, rest)
  | inr (ip, t, found, has, rest) ↦ inr (ip, t, rw found refl, has, rest)
]

NoLast-HasLast :
    (m : List Entry) (ip : IpAddr) (t : Instant) → Each NoLast m → HasLast m ip (some t) → ⊥
NoLast-HasLast m ip t e (deque, known, last) =
    let n : back deque ≡ none = Each-get NoLast ip m e known in cc

NoneBefore-le :
    (m : List Entry) (ip : IpAddr) (t u : Instant) → NoneBefore t m → HasLast m ip (some u) → t ≤ u
NoneBefore-le m ip t u b (deque, known, last) =
    subst (AtLeast t) last (Each-get (λ d. AtLeast t (back d)) ip m b known)

-- The entry that is given up does not depend on the order.
SameMap-find_oldest_entry :
    (m n : List Entry)
    → Unique m
    → Unique n
    → NoTies m
    → SameMap m n
    → find_oldest_entry m ≡ find_oldest_entry n
SameMap-find_oldest_entry m n u v d h = elim (find_oldest_entry-IsOldest m u) [
  | inl (e, none_m) ↦ elim (find_oldest_entry-IsOldest n v) [
    | inl (f, none_n) ↦ e ∙ sym f
    | inr (j, s, f, has_n, before_n) ↦
        absurd (NoLast-HasLast m j s none_m (SameMap-HasLast n m j (some s) back_to has_n))
  ]
  | inr (i, t, e, has_m, before_m) ↦ elim (find_oldest_entry-IsOldest n v) [
    | inl (f, none_n) ↦
        absurd (NoLast-HasLast n i t none_n (SameMap-HasLast m n i (some t) h has_m))
    | inr (j, s, f, has_n, before_n) ↦
        let has_j = SameMap-HasLast n m j (some s) back_to has_n in
        let le = NoneBefore-le m j t s before_m has_j in
        let ge = NoneBefore-le n i s t before_n (SameMap-HasLast m n i (some t) h has_m) in
        let same : s ≡ t = omega (arith, le, ge) in
        let address : i ≡ j = d i j t has_m (subst (λ x. HasLast m j (some x)) same has_j) in
        e ∙ ap some address ∙ sym f
  ]
]
  where
    back_to : SameMap n m
    back_to ip = sym (h ip)

pub SameMap-make_room :
    (max_entries : ℕ) (ip : IpAddr) (m n : List Entry)
    → Unique m
    → Unique n
    → SameMap m n
    → NoTies m
    → SameMap (make_room max_entries ip m) (make_room max_entries ip n)
unfolding make_room
SameMap-make_room max_entries ip m n u v h d j =
    let here = h ip in
    let size = SameMap-length m n u v h in
    let oldest = SameMap-find_oldest_entry m n u v d h in
    elim (Bool-cases (not (is_some (get ip n)) && leb max_entries (length n))) [
      | inl full ↦ elim (Option-cases (find_oldest_entry n)) [
        | inl e ↦ rw (here, size, full, oldest, e) (h j)
        | inr (i, e) ↦ rw (here, size, full, oldest, e) (SameMap-remove m n i u v h j)
      ]
      | inr room ↦ rw (here, size, room) (h j)
    ]
