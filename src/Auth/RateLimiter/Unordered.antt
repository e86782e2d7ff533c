-- ===== src/Auth/RateLimiter/Unordered.antt =====
-- The map of rate_limiter.rs without the order of its entries: what a `HashMap` promises is what each
-- address maps to.
use mathlib.Core.Quot
use mathlib.Core.Quot.{Quot, Quot-set}
use liaozhai.Auth.RateLimiter.{
  AuthRateLimiter, Entry, Instant, IpAddr, deque_of, get, is_throttled, make_room, prune,
  record_failure, reset,
}
use liaozhai.Auth.RateLimiter.Entries.{Unique}
use liaozhai.Auth.RateLimiter.SameMap.{
  NoTies, SameMap, SameMap-make_room, SameMap-put, SameMap-remove,
}
use liaozhai.Common.{List, Option, Option-cases, ap, inl, inr, refl, ◌≡◌}

abbrev pub FailureMap : Type 0
FailureMap = Quot SameMap

abbrev pub map_of : List Entry → FailureMap
map_of = Quot.mk

unfoldable pub failures_of : IpAddr → FailureMap → Option (List Instant)
failures_of ip = Quot.lift (hlevel) (get ip) (λ m n h. h ip)

map_of-SameMap : (m n : List Entry) → map_of m ≡ map_of n → SameMap m n
unfolding failures_of
map_of-SameMap m n e ip = ap (failures_of ip) e

-- The limiter with these entries.
abbrev pub with_failures : AuthRateLimiter → List Entry → AuthRateLimiter
with_failures l m = record l { failures = m }

is_throttled-SameMap :
    (l : AuthRateLimiter) (m n : List Entry) (now : Instant) (ip : IpAddr)
    → SameMap m n
    → ((is_throttled (with_failures l m) now ip).1 ≡ (is_throttled (with_failures l n) now ip).1)
      × SameMap
          (is_throttled (with_failures l m) now ip).0.failures
          (is_throttled (with_failures l n) now ip).0.failures
unfolding is_throttled
is_throttled-SameMap l m n now ip h = elim (Option-cases (get ip n)) [
  | inl e ↦ rw (h ip, e, is_throttled) (refl, h)
  | inr (deque, e) ↦
      rw (h ip, e, is_throttled) (refl, SameMap-put m n ip (prune l.window now deque) h)
]

record_failure-SameMap :
    (l : AuthRateLimiter) (m n : List Entry) (pruned_at now : Instant) (ip : IpAddr)
    → Unique m
    → Unique n
    → SameMap m n
    → NoTies m
    → SameMap
        (record_failure (with_failures l m) pruned_at now ip).failures
        (record_failure (with_failures l n) pruned_at now ip).failures
unfolding record_failure
record_failure-SameMap l m n pruned_at now ip u v h d j =
    let room = SameMap-make_room l.max_entries ip m n u v h d in
    let deque : deque_of ip (make_room l.max_entries ip m)
        ≡ deque_of ip (make_room l.max_entries ip n) =
      rw (room ip, deque_of) refl in
    rw deque (SameMap-put _ _ ip _ room j)

-- What the limiter does depends on what each address maps to, and not on the order in which the map
-- keeps its entries: for two orders of a map in which each address has at most one entry, and no two
-- addresses have the same last failure, the answers are the same, and a check, a reset and a failure
-- leave the same map.
pub limiter-map_of :
    (l : AuthRateLimiter) (m n : List Entry) (pruned_at now : Instant) (ip : IpAddr)
    → Unique m
    → Unique n
    → NoTies m
    → map_of m ≡ map_of n
    → ((is_throttled (with_failures l m) now ip).1 ≡ (is_throttled (with_failures l n) now ip).1)
      × (map_of (is_throttled (with_failures l m) now ip).0.failures
          ≡ map_of (is_throttled (with_failures l n) now ip).0.failures)
      × (map_of (reset (with_failures l m) ip).failures
          ≡ map_of (reset (with_failures l n) ip).failures)
      × (map_of (record_failure (with_failures l m) pruned_at now ip).failures
          ≡ map_of (record_failure (with_failures l n) pruned_at now ip).failures)
unfolding reset
limiter-map_of l m n pruned_at now ip u v d e =
    let h = map_of-SameMap m n e in
    let (answer, kept) = is_throttled-SameMap l m n now ip h in
    (
      answer,
      Quot.sound kept,
      Quot.sound (SameMap-remove m n ip u v h),
      Quot.sound (record_failure-SameMap l m n pruned_at now ip u v h d),
    )
