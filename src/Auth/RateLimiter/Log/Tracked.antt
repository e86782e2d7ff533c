-- ===== src/Auth/RateLimiter/Log/Tracked.antt =====
-- The map of rate_limiter.rs keeps what the log says, operation by operation.
use mathlib.Core.Path.{subst}
use liaozhai.Auth.RateLimiter.{
  AuthRateLimiter, Entry, Instant, IpAddr, cutoff, deque_of, get, is_throttled, pop_before, prune,
  put, record_failure, remove, reset,
}
use liaozhai.Auth.RateLimiter.Entries.{
  Unique, Unique-put, Unique-remove, get-put, get-remove_ne, get-remove_self, length-put,
}
use liaozhai.Auth.RateLimiter.Log.{
  Tracks, Tracks-append, Tracks-later, Tracks-nil, Tracks-prune, fail, forget, since_op,
}
use liaozhai.Auth.RateLimiter.Window.{
  deque_of-some, is_throttled-kept, is_throttled-none, make_room-HasRoom,
}
use liaozhai.Common.{
  Bool-cases, List, Option-cases, [], arith, false, if◌then◌else◌, inl, inr, length, none, refl,
  true, ℕ, ◌++◌, ◌+◌, ◌-◌, ◌<◌, ◌==◌, ◌∙◌, ◌∷◌, ◌≡◌, ◌≤◌,
}

deque_of-put_if :
    (j ip : IpAddr) (value : List Instant) (m : List Entry)
    → deque_of ip (put j value m) ≡ (if j == ip then value else deque_of ip m)
deque_of-put_if j ip value m = elim (Bool-cases (j == ip)) [
  | inl same ↦ rw (get-put j ip value m, same, deque_of) refl
  | inr differs ↦ rw (get-put j ip value m, differs, deque_of) refl
]

deque_of-remove_if :
    (j ip : IpAddr) (m : List Entry)
    → Unique m
    → deque_of ip (remove j m) ≡ (if j == ip then [] else deque_of ip m)
deque_of-remove_if j ip m u = elim (Bool-cases (j == ip)) [
  | inl same ↦
      let e : j ≡ ip = ground arith in
      let gone : get ip (remove j m) ≡ none =
        subst (λ x. get x (remove j m) ≡ none) e (get-remove_self j m u) in
      rw (gone, same, deque_of) refl
  | inr differs ↦ rw (get-remove_ne j ip m differs, differs, deque_of) refl
]

length-remove-le : (j : IpAddr) (m : List Entry) → length (remove j m) ≤ length m
unfolding remove
length-remove-le j [] = omega arith
length-remove-le j ((k, deque) ∷ m) = ground (arith, length-remove-le j m)

length-put-le :
    (j : IpAddr) (value : List Instant) (m : List Entry) → length (put j value m) ≤ length m + 1
length-put-le j value m = let n = length-put j value m in ground arith

-- What is known of a limiter that has room for `room` failures of new addresses.
pub record Keeps (window max_failures : ℕ) (l : AuthRateLimiter) (log : IpAddr → List Instant)
    (t : Instant) (room : ℕ) : Type 0 where
  pub same_window : l.window ≡ window
  pub same_limit : l.max_failures ≡ max_failures
  pub unique : Unique l.failures
  pub small : length l.failures + room ≤ l.max_entries
  pub tracks : (ip : IpAddr) → Tracks window (deque_of ip l.failures) (log ip) t

module _ (window max_failures : ℕ) (l : AuthRateLimiter) (log : IpAddr → List Instant) (t : Instant)
    (room : ℕ) where
  -- The deque of one address is replaced, and those of the others stay.
  Tracks-put :
      (j : IpAddr) (value : List Instant) (log' : IpAddr → List Instant) (u : Instant)
      → t ≤ u
      → Keeps window max_failures l log t room
      → Tracks window value (log' j) u
      → ((ip : IpAddr) → (j == ip) ≡ false → log' ip ≡ log ip)
      → (ip : IpAddr) → Tracks window (deque_of ip (put j value l.failures)) (log' ip) u
  Tracks-put j value log' u le k h others ip =
      rw (deque_of-put_if j ip value l.failures) (elim (Bool-cases (j == ip)) [
        | inl same ↦
            let e : j ≡ ip = ground arith in
            rw same (subst (λ x. Tracks window value (log' x) u) e h)
        | inr differs ↦
            rw (differs, others ip differs)
              (Tracks-later window (deque_of ip l.failures) (log ip) t u le (k.tracks ip))
      ])

  pub check-Keeps :
      (now : Instant) (j : IpAddr)
      → window ≤ now
      → t ≤ now
      → Keeps window max_failures l log t room
      → Keeps window max_failures (is_throttled l now j).0 log now room
  check-Keeps now j run le k = elim (Option-cases (get j l.failures)) [
    | inl unknown ↦ rw (is_throttled-none l now j unknown) (record {
      same_window = k.same_window;
      same_limit = k.same_limit;
      unique = k.unique;
      small = k.small;
      tracks = λ ip. Tracks-later window (deque_of ip l.failures) (log ip) t now le (k.tracks ip);
    })
    | inr (deque, known) ↦
        let value = pop_before (cutoff l.window now) deque in
        let same = deque_of-some j l.failures deque known in
        let pruned : Tracks window value (log j) now =
          rw (k.same_window, ← same)
            (Tracks-prune window (deque_of j l.failures) (log j) t now run le (k.tracks j)) in
        let kept : length (put j value l.failures) ≡ length l.failures =
          length-put j value l.failures ∙ rw known refl in
        rw (is_throttled-kept l now j deque known) (record {
          same_window = k.same_window;
          same_limit = k.same_limit;
          unique = Unique-put j value l.failures k.unique;
          small = rw kept k.small;
          tracks = Tracks-put j value log now le k pruned (λ ip differs. refl);
        })
  ]

  pub forget-Keeps :
      (j : IpAddr)
      → Keeps window max_failures l log t room
      → Keeps window max_failures (reset l j) (λ ip. since_op ip (log ip) (forget j)) t room
  unfolding reset
  forget-Keeps j k = record {
    same_window = k.same_window;
    same_limit = k.same_limit;
    unique = Unique-remove j l.failures k.unique;
    small = let fewer = length-remove-le j l.failures in omega (arith, k.small);
    tracks = λ ip. rw (deque_of-remove_if j ip l.failures k.unique) (elim (Bool-cases (j == ip)) [
      | inl same ↦ rw same (Tracks-nil window t)
      | inr differs ↦ rw differs (k.tracks ip)
    ]);
  }

  -- Where the map is not full, a failure is recorded in it.
  recorded :
      (pruned_at now : Instant) (j : IpAddr)
      → length l.failures < l.max_entries
      → record_failure l pruned_at now j ≡ record l {
        failures =
            put j
              (pop_before (cutoff l.window pruned_at) (deque_of j l.failures) ++ now ∷ [])
              l.failures;
      }
  unfolding record_failure prune
  recorded pruned_at now j h = rw (make_room-HasRoom l j (inr h)) refl

  pub fail-Keeps :
      (pruned_at now : Instant) (j : IpAddr)
      → window ≤ pruned_at
      → t ≤ pruned_at
      → pruned_at ≤ now
      → 0 < room
      → Keeps window max_failures l log t room
      → Keeps window max_failures
          (record_failure l pruned_at now j)
          (λ ip. since_op ip (log ip) (fail pruned_at now j))
          now
          (room - 1)
  fail-Keeps pruned_at now j run le le' some_room k =
      let value = pop_before (cutoff l.window pruned_at) (deque_of j l.failures) ++ now ∷ [] in
      let self : (j == j) ≡ true = ground arith in
      let pruned : Tracks window (pop_before (cutoff l.window pruned_at) (deque_of j l.failures))
          (log j) pruned_at =
        rw k.same_window
          (Tracks-prune window (deque_of j l.failures) (log j) t pruned_at run le (k.tracks j)) in
      let added = Tracks-append window _ (log j) pruned_at now le' pruned in
      let longer = length-put-le j value l.failures in
      rw (recorded pruned_at now j (omega (arith, k.small))) (record {
        same_window = k.same_window;
        same_limit = k.same_limit;
        unique = Unique-put j value l.failures k.unique;
        small = omega (arith, k.small, longer);
        tracks =
            Tracks-put j value (λ ip. since_op ip (log ip) (fail pruned_at now j)) now (omega arith)
              k (rw self added) (λ ip differs. rw differs refl);
      })
