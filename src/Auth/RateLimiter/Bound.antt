-- ===== src/Auth/RateLimiter/Bound.antt =====
-- How many entries the map of rate_limiter.rs has.
use liaozhai.Auth.RateLimiter.{
  AuthRateLimiter, Entry, Instant, IpAddr, back, deque_of, find_oldest_entry, get, is_some,
  make_room, min_by_back, prune, put, record_failure,
}
use liaozhai.Auth.RateLimiter.Entries.{Each, Each-put, Each-remove, length-put, length-remove}
use liaozhai.Common.{
  Bool-cases, List, Option-cases, [], arith, false, inl, inr, is_empty, leb, length, ltb, not, refl,
  some, true, ℕ, ◌&&◌, ◌++◌, ◌+◌, ◌<◌, ◌∙◌, ◌∷◌, ◌≡◌, ◌≤◌, ◌⊎◌,
}

abbrev pub IsFull : List Instant → Type 0
IsFull deque = is_empty deque ≡ false

abbrev Keys : (IpAddr → Type 0) → List Entry → Type 0
Keys Q [] = Unit
Keys Q ((k, deque) ∷ map) = Q k × Keys Q map

Keys-weaken :
    (Q R : IpAddr → Type 0) (map : List Entry)
    → ((k : IpAddr) → Q k → R k)
    → Keys Q map
    → Keys R map
Keys-weaken Q R [] f h = tt
Keys-weaken Q R ((k, deque) ∷ map) f h = (f k h.0, Keys-weaken Q R map f h.1)

Keys-get : (map : List Entry) → Keys (λ k. is_some (get k map) ≡ true) map
unfolding get
Keys-get [] = tt
Keys-get ((k, deque) ∷ map) = (
  ground arith,
  Keys-weaken (λ i. is_some (get i map) ≡ true) _ map (λ i h. ground (arith, h)) (Keys-get map),
)

pub back-IsFull : (deque : List Instant) → IsFull deque → (t : Instant) × (back deque ≡ some t)
unfolding back
back-IsFull [] h = ground arith
back-IsFull (t ∷ []) h = (t, refl)
back-IsFull (t ∷ u ∷ ts) h = back-IsFull (u ∷ ts) refl

min_by_back-Keys :
    (Q : IpAddr → Type 0) (ip : IpAddr) (t : Instant) (map : List Entry)
    → Q ip
    → Keys Q map
    → (oldest : IpAddr) × (u : Instant) × (min_by_back (some (ip, t)) map ≡ some (oldest, u))
      × Q oldest
unfolding min_by_back
min_by_back-Keys Q ip t [] q h = (ip, t, refl, q)
min_by_back-Keys Q ip t ((k, deque) ∷ map) q h = elim (Option-cases (back deque)) [
  | inl e ↦
      let (oldest, u, found, r) = min_by_back-Keys Q ip t map q h.1 in (oldest, u, rw e found, r)
  | inr (s, e) ↦ elim (Bool-cases (ltb s t)) [
    | inl before ↦
        let (oldest, u, found, r) = min_by_back-Keys Q k s map h.0 h.1 in
        (oldest, u, rw (e, before) found, r)
    | inr later ↦
        let (oldest, u, found, r) = min_by_back-Keys Q ip t map q h.1 in
        (oldest, u, rw (e, later) found, r)
  ]
]

find_oldest_entry-known :
    (map : List Entry)
    → Each IsFull map
    → 0 < length map
    → (ip : IpAddr) × (find_oldest_entry map ≡ some ip) × (is_some (get ip map) ≡ true)
unfolding find_oldest_entry min_by_back
find_oldest_entry-known [] e h = ground arith
find_oldest_entry-known ((k, deque) ∷ map) e h =
    let (t, last) = back-IsFull deque e.0 in
    let known = Keys-get ((k, deque) ∷ map) in
    let (ip, u, found, r) =
      min_by_back-Keys (λ i. is_some (get i ((k, deque) ∷ map)) ≡ true) k t map known.0 known.1 in
    (ip, rw (last, found) refl, r)

-- No more entries than the limit, each with a failure.
abbrev pub IsBounded : AuthRateLimiter → Type 0
IsBounded l = Each IsFull l.failures × (length l.failures ≤ l.max_entries)

make_room-room :
    (l : AuthRateLimiter) (ip : IpAddr)
    → 0 < l.max_entries
    → IsBounded l
    → (is_some (get ip l.failures) ≡ true) × (make_room l.max_entries ip l.failures ≡ l.failures)
      ⊎ (length (make_room l.max_entries ip l.failures) < l.max_entries)
unfolding make_room
make_room-room l ip h (full, small) = elim (Bool-cases (is_some (get ip l.failures))) [
  | inl e ↦ inl (e, rw e refl)
  | inr e ↦ elim (Bool-cases (leb l.max_entries (length l.failures))) [
    | inl at_limit ↦
        let (oldest, found, known) = find_oldest_entry-known l.failures full (ground arith) in
        let shorter = length-remove oldest l.failures known in
        inr (rw (e, at_limit, found) (omega arith))
    | inr below ↦ inr (rw (e, below) (ground arith))
  ]
]

make_room-Each :
    (max_entries : ℕ) (ip : IpAddr) (map : List Entry)
    → Each IsFull map
    → Each IsFull (make_room max_entries ip map)
unfolding make_room
make_room-Each max_entries ip map full =
    elim (Bool-cases (not (is_some (get ip map)) && leb max_entries (length map))) [
      | inl e ↦ elim (Option-cases (find_oldest_entry map)) [
        | inl f ↦ rw (e, f) full
        | inr (oldest, f) ↦ rw (e, f) (Each-remove IsFull oldest map full)
      ]
      | inr e ↦ rw e full
    ]

length-put-known :
    (ip : IpAddr) (value : List Instant) (map : List Entry)
    → is_some (get ip map) ≡ true
    → length (put ip value map) ≡ length map
length-put-known ip value map e = length-put ip value map ∙ rw e refl

length-put-most :
    (ip : IpAddr) (value : List Instant) (map : List Entry)
    → length (put ip value map) ≤ length map + 1
length-put-most ip value map = elim (Bool-cases (is_some (get ip map))) [
  | inl e ↦ let n = length-put-known ip value map e in omega (arith, n)
  | inr e ↦
      let n : length (put ip value map) ≡ length map + 1 = length-put ip value map ∙ rw e refl in
      omega (arith, n)
]

snoc-IsFull : (ts : List Instant) (t : Instant) → IsFull (ts ++ t ∷ [])
snoc-IsFull [] t = refl
snoc-IsFull (u ∷ ts) t = refl

-- Recording a failure never brings the map above `max_entries`, for a limit above 0 and a map in
-- which every entry has a failure, and keeps it such a map.
pub record_failure-IsBounded :
    (l : AuthRateLimiter) (pruned_at now : Instant) (ip : IpAddr)
    → 0 < l.max_entries
    → IsBounded l
    → IsBounded (record_failure l pruned_at now ip)
unfolding record_failure
record_failure-IsBounded l pruned_at now ip h b =
    let room = make_room l.max_entries ip l.failures in
    let value = prune l.window pruned_at (deque_of ip room) ++ now ∷ [] in
    (
      Each-put IsFull ip value room (snoc-IsFull _ now)
          (make_room-Each l.max_entries ip l.failures b.0),
      elim (make_room-room l ip h b) [
        | inl (e, same) ↦ rw same (rw (length-put-known ip _ l.failures e) b.1)
        | inr less ↦ let most = length-put-most ip value room in omega (arith, most, less)
      ],
    )
