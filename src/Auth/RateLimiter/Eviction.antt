-- ===== src/Auth/RateLimiter/Eviction.antt =====
-- Which entry of a full map rate_limiter.rs gives up, and when it gives up none.
use mathlib.Core.Path.{subst}
use liaozhai.Auth.RateLimiter.{
  AuthRateLimiter, Entry, Instant, IpAddr, back, deque_of, find_oldest_entry, get, make_room,
  min_by_back, pop_before, prune, put, record_failure, remove,
}
use liaozhai.Auth.RateLimiter.Bound.{IsFull, back-IsFull}
use liaozhai.Auth.RateLimiter.Entries.{Each, Unique, length-put}
use liaozhai.Common.{
  Bool-cases, List, Option, Option-cases, [], ap, arith, inl, inr, is_empty, leb, length, le→leb,
  ltb, none, refl, some, true, ◌++◌, ◌+◌, ◌<◌, ◌==◌, ◌∙◌, ◌∷◌, ◌≡◌, ◌≤◌,
}

abbrev pub AtLeast : Instant → Option Instant → Type 0
AtLeast t none = Unit
AtLeast t (some u) = t ≤ u

-- No entry has a last failure before `t`.
abbrev pub NoneBefore : Instant → List Entry → Type 0
NoneBefore t map = Each (λ deque. AtLeast t (back deque)) map

-- Something holds of every address with its last failure.
abbrev pub Lasts : (IpAddr → Option Instant → Type 0) → List Entry → Type 0
Lasts Q [] = Unit
Lasts Q ((k, deque) ∷ map) = Q k (back deque) × Lasts Q map

AtLeast-le : (t u : Instant) (o : Option Instant) → t ≤ u → AtLeast u o → AtLeast t o
AtLeast-le t u none h a = tt
AtLeast-le t u (some v) h a = omega arith

-- `min_by_key` gives an entry, and none has a smaller key.
pub min_by_back-Lasts :
    (Q : IpAddr → Option Instant → Type 0) (ip : IpAddr) (t : Instant) (map : List Entry)
    → Q ip (some t)
    → Lasts Q map
    → (oldest : IpAddr) × (u : Instant) × (min_by_back (some (ip, t)) map ≡ some (oldest, u))
      × Q oldest (some u)
      × (u ≤ t)
      × NoneBefore u map
unfolding min_by_back
min_by_back-Lasts Q ip t [] q h = (ip, t, refl, q, omega arith, tt)
min_by_back-Lasts Q ip t ((k, deque) ∷ map) q h = elim (Option-cases (back deque)) [
  | inl e ↦
      let (o, u, found, r, le, rest) = min_by_back-Lasts Q ip t map q h.1 in
      (o, u, rw e found, r, le, (rw e tt, rest))
  | inr (s, e) ↦ elim (Bool-cases (ltb s t)) [
    | inl before ↦
        let q' : Q k (some s) = subst (Q k) e h.0 in
        let (o, u, found, r, le, rest) = min_by_back-Lasts Q k s map q' h.1 in
        (o, u, rw (e, before) found, r, ground arith, (rw e le, rest))
    | inr later ↦
        let (o, u, found, r, le, rest) = min_by_back-Lasts Q ip t map q h.1 in
        (o, u, rw (e, later) found, r, le, (rw e (ground arith), rest))
  ]
]

-- The entry of an address, with its last failure.
abbrev pub HasLast : List Entry → IpAddr → Option Instant → Type 0
HasLast map k last = (deque : List Instant) × (get k map ≡ some deque) × (back deque ≡ last)

Lasts-weaken :
    (Q R : IpAddr → Option Instant → Type 0) (map : List Entry)
    → ((k : IpAddr) (o : Option Instant) → Q k o → R k o)
    → Lasts Q map
    → Lasts R map
Lasts-weaken Q R [] f h = tt
Lasts-weaken Q R ((k, deque) ∷ map) f h = (f k (back deque) h.0, Lasts-weaken Q R map f h.1)

get-cons :
    (k i : IpAddr) (deque value : List Instant) (map : List Entry)
    → get k map ≡ none
    → get i map ≡ some value
    → get i ((k, deque) ∷ map) ≡ some value
unfolding get
get-cons k i deque value map absent h = elim (Bool-cases (k == i)) [
  | inl same ↦
      let e : k ≡ i = ground arith in
      let n : get i map ≡ none = subst (λ x. get x map ≡ none) e absent in ground arith
  | inr differs ↦ rw differs h
]

pub Lasts-HasLast : (map : List Entry) → Unique map → Lasts (HasLast map) map
unfolding get
Lasts-HasLast [] u = tt
Lasts-HasLast ((k, deque) ∷ map) u = (
  (deque, ground arith, refl),
  Lasts-weaken (HasLast map) (HasLast ((k, deque) ∷ map)) map
      (λ i o h. (h.0, get-cons k i deque h.0 map u.0 h.1, h.2)) (Lasts-HasLast map u.1),
)

find_oldest_entry-HasLast :
    (map : List Entry)
    → Unique map
    → Each IsFull map
    → 0 < length map
    → (oldest : IpAddr) × (t : Instant) × (find_oldest_entry map ≡ some oldest)
      × HasLast map oldest (some t)
      × NoneBefore t map
unfolding find_oldest_entry min_by_back
find_oldest_entry-HasLast [] u e h = ground arith
find_oldest_entry-HasLast ((k, deque) ∷ map) u e h =
    let (t, last) = back-IsFull deque e.0 in
    let known = Lasts-HasLast ((k, deque) ∷ map) u in
    let (o, v, found, has, le, rest) =
      min_by_back-Lasts (HasLast ((k, deque) ∷ map)) k t map
        (subst (HasLast ((k, deque) ∷ map) k) last known.0) known.1 in
    (o, v, rw (last, found) refl, has, (rw last le, rest))

get-remove-none :
    (ip oldest : IpAddr) (map : List Entry) → get ip map ≡ none → get ip (remove oldest map) ≡ none
unfolding get remove
get-remove-none ip oldest [] h = refl
get-remove-none ip oldest ((k, deque) ∷ map) h = ground (arith, get-remove-none ip oldest map)

first_failure :
    (l : AuthRateLimiter) (pruned_at now : Instant) (ip : IpAddr) (map : List Entry)
    → get ip map ≡ none
    → put ip (prune l.window pruned_at (deque_of ip map) ++ now ∷ []) map ≡ put ip (now ∷ []) map
unfolding prune pop_before
first_failure l pruned_at now ip map new =
    let empty : deque_of ip map ≡ [] = ground arith in
    ap (λ deque. put ip (prune l.window pruned_at deque ++ now ∷ []) map) empty

-- A failure of a new address takes the place of an entry whose last failure is the oldest, where the
-- map is full, has one entry for each address, and every entry has a failure: that entry goes, the
-- new address has this failure only, and every other entry stays.
pub record_failure-oldest :
    (l : AuthRateLimiter) (pruned_at now : Instant) (ip : IpAddr)
    → Unique l.failures
    → Each IsFull l.failures
    → get ip l.failures ≡ none
    → 0 < l.max_entries
    → l.max_entries ≤ length l.failures
    → (oldest : IpAddr) × (t : Instant) × HasLast l.failures oldest (some t)
      × NoneBefore t l.failures
      × ((record_failure l pruned_at now ip).failures
          ≡ put ip (now ∷ []) (remove oldest l.failures))
unfolding record_failure make_room prune pop_before
record_failure-oldest l pruned_at now ip u e new pos full =
    let (o, t, found, has, none_before) = find_oldest_entry-HasLast l.failures u e (omega arith) in
    let at_limit : leb l.max_entries (length l.failures) ≡ true = le→leb _ _ full in
    let room : make_room l.max_entries ip l.failures ≡ remove o l.failures =
      rw (new, at_limit, found) refl in
    (
      o,
      t,
      has,
      none_before,
      ap (λ m. put ip (prune l.window pruned_at (deque_of ip m) ++ now ∷ []) m) room
          ∙ first_failure l pruned_at now ip (remove o l.failures)
              (get-remove-none ip o l.failures new),
    )

-- An entry that has lost its failures.
abbrev pub IsStale : List Instant → Type 0
IsStale deque = is_empty deque ≡ true

min_by_back-stale : (map : List Entry) → Each IsStale map → min_by_back none map ≡ none
unfolding min_by_back
min_by_back-stale [] e = refl
min_by_back-stale ((k, []) ∷ map) e = min_by_back-stale map e.1
min_by_back-stale ((k, t ∷ ts) ∷ map) e = ground (arith, e.0)

find_oldest_entry-stale : (map : List Entry) → Each IsStale map → find_oldest_entry map ≡ none
unfolding find_oldest_entry
find_oldest_entry-stale map e = rw (min_by_back-stale map e) refl

-- Where all entries have lost their failures, as `is_throttled` leaves them when their window is
-- over, a failure of a new address brings a full map above `max_entries`.
pub record_failure-IsStale :
    (l : AuthRateLimiter) (pruned_at now : Instant) (ip : IpAddr)
    → Each IsStale l.failures
    → get ip l.failures ≡ none
    → l.max_entries ≤ length l.failures
    → l.max_entries < length (record_failure l pruned_at now ip).failures
unfolding record_failure make_room
record_failure-IsStale l pruned_at now ip stale new full =
    let at_limit : leb l.max_entries (length l.failures) ≡ true = le→leb _ _ full in
    let kept : make_room l.max_entries ip l.failures ≡ l.failures =
      rw (new, at_limit, find_oldest_entry-stale l.failures stale) refl in
    let value = prune l.window pruned_at (deque_of ip l.failures) ++ now ∷ [] in
    let longer : length (put ip value l.failures) ≡ length l.failures + 1 =
      length-put ip value l.failures ∙ rw new refl in
    rw kept (omega (arith, longer))
