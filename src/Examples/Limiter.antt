-- ===== src/Examples/Limiter.antt =====
-- The theorems on rate_limiter.rs and listener.rs at concrete inputs.
use mathlib.Core.Quot
use liaozhai.Auth.RateLimiter.{
  AuthRateLimiter, Entry, Instant, IpAddr, back, get, is_throttled, new_limiter, put,
  record_failure, remove, reset,
}
use liaozhai.Auth.RateLimiter.Bound.{IsBounded, record_failure-IsBounded}
use liaozhai.Auth.RateLimiter.Eviction.{
  HasLast, NoneBefore, record_failure-IsStale, record_failure-oldest,
}
use liaozhai.Auth.RateLimiter.Log.{LimiterOp, check, fail, forget, run_ops, since}
use liaozhai.Auth.RateLimiter.Log.Throttled.{is_throttled-since}
use liaozhai.Auth.RateLimiter.SameMap.{NoTies}
use liaozhai.Auth.RateLimiter.Unordered.{limiter-map_of, map_of, with_failures}
use liaozhai.Auth.RateLimiter.Window.{count_since}
use liaozhai.Common.{
  List, [], arith, if◌then◌else◌, leb, length, refl, some, ◌%◌, ◌++◌, ◌+◌, ◌-◌, ◌<◌, ◌==◌, ◌^◌, ◌∷◌,
  ◌≡◌, ◌⊎◌,
}
use liaozhai.Server.Listener.{
  ListenEvent, accept, accept-permits, accept_error, accept_loop, drop_task, has_task, listen_step,
  new_listener, task_done, turn_away,
}
use liaozhai.Server.Listener.Drain.{accepts, drain, drain-accepts, drained, early, remaining}

-- Two failures of one address with one of another in between, behind a reset, and a check.
abbrev calls : List LimiterOp
calls =
    fail 90 90 1 ∷ forget 1 ∷ fail 100 101 1 ∷ fail 105 105 2 ∷ check 108 1 ∷ fail 110 110 1 ∷ []

is_throttled-since_example :
    (is_throttled (run_ops (new_limiter 60 2 10) calls) 120 1).1
    ≡ leb 2 (count_since (120 - 60) (since 1 [] calls))
is_throttled-since_example =
    is_throttled-since 60 2 10 calls 80 120 1 (omega arith) (omega arith) (omega arith)
      (omega arith) (omega arith)

-- Three clients and two permits.
abbrev rush : List ListenEvent
rush = accept 0 ∷ accept_error ∷ accept 1 ∷ accept 2 ∷ task_done 0 ∷ []

accept-permits_example :
    let l = accept_loop (new_listener 2) rush in
    let l' = listen_step l (accept 3) in
    (l.permits + length l.active ≡ 2)
    × (((length l.active < 2) × (l'.active ≡ 3 ∷ l.active) × (l'.rejected ≡ l.rejected))
        ⊎ ((length l.active ≡ 2)
            × (l'.active ≡ l.active)
            × (l'.rejected ≡ l.rejected ++ turn_away ∷ [])))
accept-permits_example = accept-permits 2 rush 3

-- A map that is full with one entry.
abbrev full_limiter : AuthRateLimiter
full_limiter = record {
  window = 60;
  max_failures = 2;
  max_entries = 1;
  failures = (1, 90 ∷ []) ∷ [];
}

record_failure-IsBounded_example : IsBounded (record_failure full_limiter 100 100 2)
record_failure-IsBounded_example =
    record_failure-IsBounded full_limiter 100 100 2 (omega arith) ((refl, tt), omega arith)

record_failure-oldest_example :
    (oldest : IpAddr) × (t : Instant) × HasLast full_limiter.failures oldest (some t)
    × NoneBefore t full_limiter.failures
    × ((record_failure full_limiter 100 100 2).failures
        ≡ put 2 (100 ∷ []) (remove oldest full_limiter.failures))
unfolding get
record_failure-oldest_example =
    record_failure-oldest full_limiter 100 100 2 (refl, tt) (refl, tt) refl (omega arith)
      (omega arith)

-- The only entry has lost its failures.
abbrev stale_limiter : AuthRateLimiter
stale_limiter = record full_limiter { failures = (1, []) ∷ [] }

record_failure-IsStale_example :
    stale_limiter.max_entries < length (record_failure stale_limiter 100 100 2).failures
unfolding get
record_failure-IsStale_example =
    record_failure-IsStale stale_limiter 100 100 2 (refl, tt) refl (omega arith)

drain-accepts_example :
    let l = accept_loop (new_listener 2) rush in
    (drain 30 0 l.join_set ((0, 0) ∷ (45, 1) ∷ []) ≡ (
      if early 30 ((0, 0) ∷ (45, 1) ∷ []) == length l.join_set
      then drained (length l.join_set % 2 ^ 32)
      else remaining (length l.join_set - early 30 ((0, 0) ∷ (45, 1) ∷ []))))
    × (length l.join_set + length l.rejected ≡ accepts rush)
unfolding accept_loop listen_step drop_task has_task
drain-accepts_example =
    drain-accepts 2 30 rush ((0, 0) ∷ (45, 1) ∷ []) (refl, (refl, tt)) ((omega arith, tt), (tt, tt))

-- The same two entries in both orders.
abbrev in_order : List Entry
in_order = (1, 90 ∷ []) ∷ (2, 80 ∷ []) ∷ []

abbrev reversed : List Entry
reversed = (2, 80 ∷ []) ∷ (1, 90 ∷ []) ∷ []

in_order-NoTies : NoTies in_order
unfolding get back
in_order-NoTies i j t (d, known, last) (e, known', last') = ground arith

same_map : map_of in_order ≡ map_of reversed
unfolding get
same_map = Quot.sound (λ ip. ground arith)

abbrev two_entries : AuthRateLimiter
two_entries = new_limiter 60 2 2

limiter-map_of_example :
    ((is_throttled (with_failures two_entries in_order) 100 3).1
      ≡ (is_throttled (with_failures two_entries reversed) 100 3).1)
    × (map_of (is_throttled (with_failures two_entries in_order) 100 3).0.failures
        ≡ map_of (is_throttled (with_failures two_entries reversed) 100 3).0.failures)
    × (map_of (reset (with_failures two_entries in_order) 3).failures
        ≡ map_of (reset (with_failures two_entries reversed) 3).failures)
    × (map_of (record_failure (with_failures two_entries in_order) 100 100 3).failures
        ≡ map_of (record_failure (with_failures two_entries reversed) 100 100 3).failures)
unfolding get
limiter-map_of_example =
    limiter-map_of two_entries in_order reversed 100 100 3 (refl, (refl, tt)) (refl, (refl, tt))
      in_order-NoTies same_map
