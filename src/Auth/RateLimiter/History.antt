-- ===== src/Auth/RateLimiter/History.antt =====
-- Failures within one window add up.
use liaozhai.Auth.RateLimiter.{
  AuthRateLimiter, Instant, IpAddr, cutoff, deque_of, get, is_throttled, pop_before, record_failure,
}
use liaozhai.Auth.RateLimiter.Window.{
  HasRoom, Reading, deque_of-none, deque_of-put, deque_of-some, is_throttled-none,
  is_throttled-some, leb_pos, pop_before-All, record_failure-room,
}
use liaozhai.Common.{
  All, List, Option-cases, [], ap, arith, inl, inr, leb, length, some, sym, ℕ, ◌++◌, ◌-◌, ◌<◌, ◌∙◌,
  ◌∷◌, ◌≡◌, ◌≤◌,
}

-- In the window that ends at `now`, on a clock that has run for a whole window.
abbrev pub InWindow : ℕ → Instant → Reading → Type 0
InWindow window now (pruned_at, t) =
    (window ≤ pruned_at) × (pruned_at ≤ t) × (now - window ≤ t) × (t ≤ now)

module _ (window now : ℕ) where
  pub cutoff_bound :
      (pruned_at t : Instant) (ds : List Instant)
      → InWindow window now (pruned_at, t)
      → All (λ u. now - window ≤ u) ds
      → All (λ u. cutoff window pruned_at ≤ u) ds
  cutoff_bound pruned_at t [] h k = tt
  cutoff_bound pruned_at t (d ∷ ds) h k = (ground arith, cutoff_bound pruned_at t ds h k.1)

module _ (now : Instant) (ip : IpAddr) where
  pub record_failure-deque :
      (l : AuthRateLimiter) (pruned_at t : Instant)
      → HasRoom l ip
      → All (λ u. now - l.window ≤ u) (deque_of ip l.failures)
      → InWindow l.window now (pruned_at, t)
      → get ip (record_failure l pruned_at t ip).failures ≡ some (deque_of ip l.failures ++ t ∷ [])
  record_failure-deque l pruned_at t h k w =
      ap (get ip) (
        record_failure-room l pruned_at t ip h
          (cutoff_bound l.window now pruned_at t (deque_of ip l.failures) w k))
      ∙ deque_of-put ip (deque_of ip l.failures ++ t ∷ []) l.failures

pub is_throttled-deque :
    (l : AuthRateLimiter) (ip : IpAddr) (now : Instant) (ds : List Instant)
    → 0 < l.max_failures
    → deque_of ip l.failures ≡ ds
    → All (λ u. cutoff l.window now ≤ u) ds
    → (is_throttled l now ip).1 ≡ leb l.max_failures (length ds)
is_throttled-deque l ip now ds pos e h = elim (Option-cases (get ip l.failures)) [
  | inl unknown ↦
      rw (is_throttled-none l now ip unknown, sym e ∙ deque_of-none ip l.failures unknown)
        (sym (leb_pos l.max_failures pos))
  | inr (deque, known) ↦
      let d = sym (deque_of-some ip l.failures deque known) ∙ e in
      is_throttled-some l now ip deque known
      ∙ ap (λ x. leb l.max_failures (length (pop_before (cutoff l.window now) x))) d
      ∙ ap (λ x. leb l.max_failures (length x)) (pop_before-All (cutoff l.window now) ds h)
]
