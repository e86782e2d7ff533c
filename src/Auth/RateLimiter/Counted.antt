-- ===== src/Auth/RateLimiter/Counted.antt =====
-- The limiter of rate_limiter.rs while it counts the failures of one address, all of one window.
use mathlib.Core.Path.{subst}
use liaozhai.Auth.RateLimiter.{
  AuthRateLimiter, Instant, IpAddr, cutoff, deque_of, get, is_throttled, pop_before, put,
  record_failure,
}
use liaozhai.Auth.RateLimiter.History.{
  InWindow, cutoff_bound, is_throttled-deque, record_failure-deque,
}
use liaozhai.Auth.RateLimiter.Window.{
  HasRoom, deque_of-put, deque_of-some, is_throttled-kept, is_throttled-none, pop_before-All,
}
use liaozhai.Common.{
  All, All-append, List, Option-cases, [], ap, arith, inl, inr, leb, length, length-append, refl,
  sym, ℕ, ◌++◌, ◌+◌, ◌-◌, ◌<◌, ◌∙◌, ◌∷◌, ◌≡◌, ◌≤◌,
}

module _ (peer : IpAddr) (window max_failures : ℕ) (now : Instant) where
  -- The limiter has `n` failures of the peer, all of the window that ends at `now`.
  pub record Counted (l : AuthRateLimiter) (n : ℕ) : Type 0 where
    pub same_window : l.window ≡ window
    pub same_limit : l.max_failures ≡ max_failures
    pub count : length (deque_of peer l.failures) ≡ n
    pub recent : All (λ u. now - window ≤ u) (deque_of peer l.failures)
    pub room : HasRoom l peer

  pub record_failure-Counted :
      (l : AuthRateLimiter) (n : ℕ) (pruned_at t : Instant)
      → Counted l n
      → InWindow window now (pruned_at, t)
      → Counted (record_failure l pruned_at t peer) (n + 1)
  unfolding record_failure
  record_failure-Counted l n pruned_at t c w =
      let recent' : All (λ u. now - l.window ≤ u) (deque_of peer l.failures) =
        rw c.same_window c.recent in
      let w' : InWindow l.window now (pruned_at, t) = rw c.same_window w in
      let e = record_failure-deque now peer l pruned_at t c.room recent' w' in
      let d =
        deque_of-some peer (record_failure l pruned_at t peer).failures
          (deque_of peer l.failures ++ t ∷ []) e in
      record {
        same_window = c.same_window;
        same_limit = c.same_limit;
        count =
            ap length d
            ∙ length-append (deque_of peer l.failures) (t ∷ [])
            ∙ ap (λ k. k + 1) c.count;
        recent = rw d (
            All-append (λ u. now - window ≤ u) (deque_of peer l.failures) (t ∷ []) c.recent
              (omega arith));
        room = inl (rw e refl);
      }

  recent_cutoff :
      (l : AuthRateLimiter) (n : ℕ) (at_ : Instant)
      → Counted l n
      → window ≤ at_
      → at_ ≤ now
      → All (λ u. cutoff l.window at_ ≤ u) (deque_of peer l.failures)
  recent_cutoff l n at_ c ran past = rw c.same_window (
      cutoff_bound window now at_ now (deque_of peer l.failures)
        (ran, past, omega arith, omega arith) c.recent)

  kept_deque :
      (l : AuthRateLimiter) (n : ℕ) (deque : List Instant)
      → Counted l n
      → deque_of peer l.failures ≡ deque
      → Counted (record l { failures = put peer deque l.failures }) n
  kept_deque l n deque c same =
      let e = deque_of-put peer deque l.failures in
      let d = deque_of-some peer (put peer deque l.failures) deque e in
      record {
        same_window = c.same_window;
        same_limit = c.same_limit;
        count = ap length (d ∙ sym same) ∙ c.count;
        recent = subst (All (λ u. now - window ≤ u)) (same ∙ sym d) c.recent;
        room = inl (rw e refl);
      }

  pub is_throttled-Counted :
      (l : AuthRateLimiter) (n : ℕ) (at_ : Instant)
      → 0 < max_failures
      → Counted l n
      → window ≤ at_
      → at_ ≤ now
      → ((is_throttled l at_ peer).1 ≡ leb max_failures n) × Counted (is_throttled l at_ peer).0 n
  is_throttled-Counted l n at_ pos c ran past =
      let recent' = recent_cutoff l n at_ c ran past in
      (
        is_throttled-deque l peer at_ (deque_of peer l.failures) (rw c.same_limit pos) refl recent'
            ∙ rw (c.same_limit, c.count) refl,
        elim (Option-cases (get peer l.failures)) [
          | inl unknown ↦ rw (is_throttled-none l at_ peer unknown) c
          | inr (deque, known) ↦
              let same = deque_of-some peer l.failures deque known in
              let all : pop_before (cutoff l.window at_) deque ≡ deque =
                pop_before-All (cutoff l.window at_) deque
                  (subst (All (λ u. cutoff l.window at_ ≤ u)) same recent') in
              rw (is_throttled-kept l at_ peer deque known, all) (kept_deque l n deque c same)
        ],
      )
