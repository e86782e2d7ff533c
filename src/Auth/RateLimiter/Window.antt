-- ===== src/Auth/RateLimiter/Window.antt =====
-- The sliding window: who is throttled, and when.
use mathlib.Core.Path.{subst}
use liaozhai.Auth.RateLimiter.{
  AuthRateLimiter, Entry, Instant, IpAddr, cutoff, deque_of, get, is_some, is_throttled, make_room,
  pop_before, prune, put, record_failure,
}
use liaozhai.Auth.RateLimiter.Entries.{get-put}
use liaozhai.Common.{
  All, Bool-cases, List, Option-cases, [], ap, arith, false, if◌then◌else◌, inl, inr, leb, length,
  ltb, none, refl, some, sym, true, ℕ, ◌++◌, ◌+◌, ◌<◌, ◌∙◌, ◌∷◌, ◌≡◌, ◌≤◌, ◌⊎◌,
}

-- Failures in the order in which they were recorded.
abbrev pub IsSorted : List Instant → Type 0
IsSorted [] = Unit
IsSorted (t ∷ ts) = All (λ u. t ≤ u) ts × IsSorted ts

-- How many failures are not older than `limit`.
abbrev pub count_since : Instant → List Instant → ℕ
count_since limit [] = 0
count_since limit (t ∷ ts) = if ltb t limit then count_since limit ts else count_since limit ts + 1

count_since-All :
    (limit : Instant) (ts : List Instant)
    → All (λ u. limit ≤ u) ts
    → count_since limit ts ≡ length ts
count_since-All limit [] h = refl
count_since-All limit (t ∷ ts) h = ground (arith, count_since-All limit ts h.1)

All-le_trans :
    (a b : Instant) (ts : List Instant) → a ≤ b → All (λ u. b ≤ u) ts → All (λ u. a ≤ u) ts
All-le_trans a b [] h k = tt
All-le_trans a b (t ∷ ts) h k = (omega arith, All-le_trans a b ts h k.1)

length-pop_before :
    (limit : Instant) (ts : List Instant)
    → IsSorted ts
    → length (pop_before limit ts) ≡ count_since limit ts
unfolding pop_before
length-pop_before limit [] s = refl
length-pop_before limit (t ∷ ts) s = elim (Bool-cases (ltb t limit)) [
  | inl old ↦ rw old (length-pop_before limit ts s.1)
  | inr new ↦
      let le : limit ≤ t = ground arith in
      rw new (omega (arith, count_since-All limit ts (All-le_trans limit t ts le s.0)))
]

pub deque_of-none : (ip : IpAddr) (map : List Entry) → get ip map ≡ none → deque_of ip map ≡ []
deque_of-none ip map e = rw (e, deque_of)

pub deque_of-some :
    (ip : IpAddr) (map : List Entry) (deque : List Instant)
    → get ip map ≡ some deque
    → deque_of ip map ≡ deque
deque_of-some ip map deque e = rw (e, deque_of)

pub is_throttled-none :
    (l : AuthRateLimiter) (now : Instant) (ip : IpAddr)
    → get ip l.failures ≡ none
    → is_throttled l now ip ≡ (l, false)
unfolding is_throttled
is_throttled-none l now ip e = rw (e, is_throttled)

pub is_throttled-some :
    (l : AuthRateLimiter) (now : Instant) (ip : IpAddr) (deque : List Instant)
    → get ip l.failures ≡ some deque
    → (is_throttled l now ip).1
      ≡ leb l.max_failures (length (pop_before (cutoff l.window now) deque))
unfolding is_throttled prune
is_throttled-some l now ip deque e = rw (e, is_throttled)

pub is_throttled-kept :
    (l : AuthRateLimiter) (now : Instant) (ip : IpAddr) (deque : List Instant)
    → get ip l.failures ≡ some deque
    → (is_throttled l now ip).0
      ≡ record l { failures = put ip (pop_before (cutoff l.window now) deque) l.failures }
unfolding is_throttled prune
is_throttled-kept l now ip deque e = rw (e, is_throttled)

pub leb_pos : (n : ℕ) → 0 < n → leb n 0 ≡ false
leb_pos n h = ground arith

-- An address is throttled exactly if at least `max_failures` of the failures recorded for it lie in
-- the window that ends now, for a limit above 0.
pub is_throttled-count_since :
    (l : AuthRateLimiter) (now : Instant) (ip : IpAddr)
    → 0 < l.max_failures
    → IsSorted (deque_of ip l.failures)
    → (is_throttled l now ip).1
      ≡ leb l.max_failures (count_since (cutoff l.window now) (deque_of ip l.failures))
is_throttled-count_since l now ip pos s = elim (Option-cases (get ip l.failures)) [
  | inl e ↦
      rw (is_throttled-none l now ip e, deque_of-none ip l.failures e)
        (sym (leb_pos l.max_failures pos))
  | inr (deque, e) ↦
      let d = deque_of-some ip l.failures deque e in
      is_throttled-some l now ip deque e
      ∙ ap (leb l.max_failures) (length-pop_before _ deque (subst IsSorted d s))
      ∙ ap (λ x. leb l.max_failures (count_since (cutoff l.window now) x)) (sym d)
]

pub pop_before-All :
    (limit : Instant) (ts : List Instant) → All (λ u. limit ≤ u) ts → pop_before limit ts ≡ ts
unfolding pop_before
pop_before-All limit [] h = refl
pop_before-All limit (t ∷ ts) h = ground arith

-- What the clock reads in `prune`, and behind it.
abbrev pub Reading : Type 0
Reading = Instant × Instant

-- The address is known, or there is room for it.
abbrev pub HasRoom : AuthRateLimiter → IpAddr → Type 0
HasRoom l ip = (is_some (get ip l.failures) ≡ true) ⊎ (length l.failures < l.max_entries)

pub make_room-HasRoom :
    (l : AuthRateLimiter) (ip : IpAddr)
    → HasRoom l ip
    → make_room l.max_entries ip l.failures ≡ l.failures
unfolding make_room
make_room-HasRoom l ip h = ground arith

pub record_failure-room :
    (l : AuthRateLimiter) (pruned_at t : Instant) (ip : IpAddr)
    → HasRoom l ip
    → All (λ u. cutoff l.window pruned_at ≤ u) (deque_of ip l.failures)
    → (record_failure l pruned_at t ip).failures
      ≡ put ip (deque_of ip l.failures ++ t ∷ []) l.failures
unfolding record_failure prune
record_failure-room l pruned_at t ip h k = rw (
  make_room-HasRoom l ip h,
  pop_before-All (cutoff l.window pruned_at) (deque_of ip l.failures) k,
)

pub deque_of-put :
    (ip : IpAddr) (value : List Instant) (map : List Entry)
    → (get ip (put ip value map) ≡ some value)
deque_of-put ip value map = get-put ip ip value map ∙ ground arith
