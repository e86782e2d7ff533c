-- ===== src/Tests/RateLimiter.antt =====
-- The tests of crates/liaozhai-auth/src/rate_limiter.rs, in milliseconds, on a clock that stands still
-- but for the calls of `sleep`.
use liaozhai.Auth.RateLimiter.{
  AuthRateLimiter, Instant, IpAddr, back, find_oldest_entry, get, is_some, is_throttled, make_room,
  min_by_back, new_limiter, pop_before, prune, put, record_failure, remove, reset,
}
use liaozhai.Common.{Bool, [], length, not, refl, true, ◌&&◌, ◌+◌, ◌==◌, ◌∷◌, ◌≡◌}
use liaozhai.Tests.{every}

abbrev test_ip : IpAddr
test_ip = 1

abbrev other_ip : IpAddr
other_ip = 2

abbrev start_time : Instant
start_time = 1000000

abbrev fail_at : Instant → IpAddr → AuthRateLimiter → AuthRateLimiter
fail_at t ip l = record_failure l t t ip

abbrev fail_now : IpAddr → AuthRateLimiter → AuthRateLimiter
fail_now ip l = fail_at start_time ip l

abbrev minute_limiter : AuthRateLimiter
minute_limiter = new_limiter 60000 3 10000

abbrev fail_twice : AuthRateLimiter → AuthRateLimiter
fail_twice l = fail_now test_ip (fail_now test_ip l)

abbrev fail_thrice : AuthRateLimiter → AuthRateLimiter
fail_thrice l = fail_now test_ip (fail_twice l)

-- `contains_key`
abbrev contains_key : IpAddr → AuthRateLimiter → Bool
contains_key ip l = is_some (get ip l.failures)

abbrev not_throttled_initially : Bool
not_throttled_initially = not (is_throttled minute_limiter start_time test_ip).1

abbrev throttled_after_max_failures : Bool
throttled_after_max_failures = (is_throttled (fail_thrice minute_limiter) start_time test_ip).1

abbrev not_throttled_below_max : Bool
not_throttled_below_max = not (is_throttled (fail_twice minute_limiter) start_time test_ip).1

abbrev reset_clears_history : Bool
reset_clears_history =
    let (l, throttled) = is_throttled (fail_thrice minute_limiter) start_time test_ip in
    throttled && not (is_throttled (reset l test_ip) start_time test_ip).1

abbrev old_entries_pruned : Bool
old_entries_pruned =
    let (l, throttled) = is_throttled (fail_thrice (new_limiter 50 3 10000)) start_time test_ip in
    throttled && not (is_throttled l (start_time + 100) test_ip).1

abbrev different_ips_tracked_independently : Bool
different_ips_tracked_independently =
    let (l, throttled) = is_throttled (fail_thrice minute_limiter) start_time test_ip in
    throttled && not (is_throttled l start_time other_ip).1

abbrev eviction_when_at_cap : Bool
eviction_when_at_cap =
    let l = fail_at (start_time + 20) 4 (
      fail_at (start_time + 20) 3
        (fail_at (start_time + 10) 2 (fail_at start_time 1 (new_limiter 60000 3 3)))) in
    length l.failures == 3 && not (contains_key 1 l) && contains_key 4 l

abbrev no_eviction_below_cap : Bool
no_eviction_below_cap = length (fail_now 2 (fail_now 1 (new_limiter 60000 3 5))).failures == 2

abbrev existing_ip_not_evicted : Bool
existing_ip_not_evicted =
    let l = fail_now 1 (fail_now 2 (fail_now 1 (new_limiter 60000 3 2))) in
    length l.failures == 2 && contains_key 1 l && contains_key 2 l

rate_limiter_tests :
    every (
      not_throttled_initially ∷ throttled_after_max_failures ∷ not_throttled_below_max
      ∷ reset_clears_history ∷ old_entries_pruned ∷ different_ips_tracked_independently
      ∷ eviction_when_at_cap ∷ no_eviction_below_cap ∷ existing_ip_not_evicted ∷ [])
    ≡ true
unfolding every is_throttled record_failure make_room find_oldest_entry min_by_back back get put
    remove prune pop_before reset
rate_limiter_tests = refl
