-- ===== src/Auth/RateLimiter/Log/Throttled.antt =====
-- Who is throttled by rate_limiter.rs, after any calls of its operations.
use liaozhai.Auth.RateLimiter.{
  AuthRateLimiter, Instant, IpAddr, cutoff, deque_of, get, is_throttled, new_limiter,
}
use liaozhai.Auth.RateLimiter.Log.{
  InOrder, LimiterOp, Tracks-nil, check, fail, fails, fails_of, forget, last_time, run_op, run_ops,
  since, since_op, time_of,
}
use liaozhai.Auth.RateLimiter.Log.Tracked.{Keeps, check-Keeps, fail-Keeps, forget-Keeps}
use liaozhai.Auth.RateLimiter.Window.{count_since, is_throttled-count_since}
use liaozhai.Common.{List, [], ap, arith, leb, refl, ℕ, ◌+◌, ◌-◌, ◌<◌, ◌∙◌, ◌∷◌, ◌≡◌, ◌≤◌}

module _ (window max_failures : ℕ) where
  run_op-Keeps :
      (l : AuthRateLimiter) (log : IpAddr → List Instant) (t : Instant) (room : ℕ) (o : LimiterOp)
      (ops : List LimiterOp)
      → window ≤ t
      → InOrder t (o ∷ ops)
      → fails_of o ≤ room
      → Keeps window max_failures l log t room
      → Keeps window max_failures
          (run_op l o)
          (λ ip. since_op ip (log ip) o)
          (time_of t o)
          (room - fails_of o)
        × (window ≤ time_of t o)
        × InOrder (time_of t o) ops
  unfolding run_op
  run_op-Keeps l log t room (check now j) ops run i f k =
      let same : room - 0 ≡ room = omega arith in
      (
        rw same (check-Keeps window max_failures l log t room now j (omega arith) i.0 k),
        omega arith,
        i.1,
      )
  run_op-Keeps l log t room (fail pruned_at now j) ops run (i, i', rest) f k = (
    fail-Keeps window max_failures l log t room pruned_at now j (omega arith) i i' f k,
    omega arith,
    rest,
  )
  run_op-Keeps l log t room (forget j) ops run i f k =
      let same : room - 0 ≡ room = omega arith in
      (rw same (forget-Keeps window max_failures l log t room j k), run, i)

  run_ops-Keeps :
      (l : AuthRateLimiter) (log : IpAddr → List Instant) (t : Instant) (room : ℕ)
      (ops : List LimiterOp)
      → window ≤ t
      → InOrder t ops
      → fails ops ≤ room
      → Keeps window max_failures l log t room
      → Keeps window max_failures
          (run_ops l ops)
          (λ ip. since ip (log ip) ops)
          (last_time t ops)
          (room - fails ops)
        × (window ≤ last_time t ops)
  run_ops-Keeps l log t room [] run i f k =
      let same : room - 0 ≡ room = omega arith in (rw same k, run)
  run_ops-Keeps l log t room (o ∷ ops) run i f k =
      let (k', run', i') = run_op-Keeps l log t room o ops run i (omega arith) k in
      let (k'', run'') =
        run_ops-Keeps (run_op l o) (λ ip. since_op ip (log ip) o) (time_of t o) (room - fails_of o)
          ops run' i' (omega arith) k' in
      let left : room - fails_of o - fails ops ≡ room - (fails_of o + fails ops) = omega arith in
      (rw (← left) k'', run'')

-- After any checks, failures and resets of any addresses, on a clock that does not run backwards and
-- has run for a window at the begin, an address is throttled exactly if at least `max_failures` of its
-- failures since it was last reset lie in the window that ends now, for a limit above 0 and where no
-- more failures are recorded than the map has room for.
pub is_throttled-since :
    (window max_failures max_entries : ℕ) (ops : List LimiterOp) (start now : Instant) (ip : IpAddr)
    → 0 < max_failures
    → window ≤ start
    → InOrder start ops
    → last_time start ops ≤ now
    → fails ops ≤ max_entries
    → (is_throttled (run_ops (new_limiter window max_failures max_entries) ops) now ip).1
      ≡ leb max_failures (count_since (now - window) (since ip [] ops))
unfolding get
is_throttled-since window max_failures max_entries ops start now ip pos run i le room =
    let l = new_limiter window max_failures max_entries in
    let (k, run') =
      run_ops-Keeps window max_failures l (λ j. []) start max_entries ops run i room
        (record {
          same_window = refl;
          same_limit = refl;
          unique = tt;
          small = omega arith;
          tracks = λ j. Tracks-nil window start;
        }) in
    let l' = run_ops l ops in
    let tr = k.tracks ip in
    let c : cutoff l'.window now ≡ now - window = rw k.same_window (ground arith) in
    is_throttled-count_since l' now ip (rw k.same_limit pos) tr.sorted
    ∙ ap (λ x. leb l'.max_failures (count_since x (deque_of ip l'.failures))) c
    ∙ ap (leb l'.max_failures) (tr.counts (now - window) (omega arith))
    ∙ ap (λ m. leb m (count_since (now - window) (since ip [] ops))) k.same_limit
