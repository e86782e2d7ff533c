-- ===== src/Auth/RateLimiter/Log.antt =====
-- rate_limiter.rs against the log of what it was told: who is throttled can be read off the failures
-- since the last reset.
pub mod Tracked
pub mod Throttled
use mathlib.Core.Path.{subst}
use liaozhai.Auth.RateLimiter.{
  AuthRateLimiter, Instant, IpAddr, cutoff, is_throttled, pop_before, record_failure, reset,
}
use liaozhai.Auth.RateLimiter.Window.{IsSorted, count_since}
use liaozhai.Common.{
  All, All-append, Bool-cases, List, [], ap, arith, if◌then◌else◌, inl, inr, ltb, refl, sym, ℕ,
  ◌++◌, ◌+◌, ◌-◌, ◌==◌, ◌∙◌, ◌∷◌, ◌≡◌, ◌≤◌,
}

-- A call of one of the three operations. A failure has two readings of the clock.
pub data LimiterOp : Type 0 where
  check : (now : Instant) (ip : IpAddr) → LimiterOp
  fail : (pruned_at now : Instant) (ip : IpAddr) → LimiterOp
  forget : (ip : IpAddr) → LimiterOp

unfoldable pub run_op : AuthRateLimiter → LimiterOp → AuthRateLimiter
run_op l (check now ip) = (is_throttled l now ip).0
run_op l (fail pruned_at now ip) = record_failure l pruned_at now ip
run_op l (forget ip) = reset l ip

abbrev pub run_ops : AuthRateLimiter → List LimiterOp → AuthRateLimiter
run_ops l [] = l
run_ops l (o ∷ ops) = run_ops (run_op l o) ops

-- The times of the failures of an address since it was last forgotten, behind earlier ones.
abbrev pub since_op : IpAddr → List Instant → LimiterOp → List Instant
since_op ip ts (check now j) = ts
since_op ip ts (fail pruned_at now j) = if j == ip then ts ++ now ∷ [] else ts
since_op ip ts (forget j) = if j == ip then [] else ts

abbrev pub since : IpAddr → List Instant → List LimiterOp → List Instant
since ip ts [] = ts
since ip ts (o ∷ ops) = since ip (since_op ip ts o) ops

-- The clock does not run backwards from `t`.
abbrev pub InOrder : Instant → List LimiterOp → Type 0
InOrder t [] = Unit
InOrder t (check now j ∷ ops) = (t ≤ now) × InOrder now ops
InOrder t (fail pruned_at now j ∷ ops) = (t ≤ pruned_at) × (pruned_at ≤ now) × InOrder now ops
InOrder t (forget j ∷ ops) = InOrder t ops

abbrev pub time_of : Instant → LimiterOp → Instant
time_of t (check now j) = now
time_of t (fail pruned_at now j) = now
time_of t (forget j) = t

abbrev pub last_time : Instant → List LimiterOp → Instant
last_time t [] = t
last_time t (o ∷ ops) = last_time (time_of t o) ops

-- How many failures are recorded.
abbrev pub fails_of : LimiterOp → ℕ
fails_of (check now j) = 0
fails_of (fail pruned_at now j) = 1
fails_of (forget j) = 0

abbrev pub fails : List LimiterOp → ℕ
fails [] = 0
fails (o ∷ ops) = fails_of o + fails ops

count_since-append :
    (x : Instant) (ts us : List Instant)
    → count_since x (ts ++ us) ≡ count_since x ts + count_since x us
count_since-append x [] us = omega arith
count_since-append x (t ∷ ts) us = ground (arith, count_since-append x ts us)

count_since-pop_before :
    (limit x : Instant) (ts : List Instant)
    → limit ≤ x
    → count_since x (pop_before limit ts) ≡ count_since x ts
unfolding pop_before
count_since-pop_before limit x [] h = refl
count_since-pop_before limit x (t ∷ ts) h = elim (Bool-cases (ltb t limit)) [
  | inl old ↦ let rest = count_since-pop_before limit x ts h in ground arith
  | inr new ↦ rw new refl
]

All-pop_before :
    (P : Instant → Type 0) (limit : Instant) (ts : List Instant)
    → All P ts
    → All P (pop_before limit ts)
unfolding pop_before
All-pop_before P limit [] h = tt
All-pop_before P limit (t ∷ ts) h = elim (Bool-cases (ltb t limit)) [
  | inl old ↦ rw old (All-pop_before P limit ts h.1)
  | inr new ↦ rw new h
]

IsSorted-pop_before :
    (limit : Instant) (ts : List Instant) → IsSorted ts → IsSorted (pop_before limit ts)
unfolding pop_before
IsSorted-pop_before limit [] h = tt
IsSorted-pop_before limit (t ∷ ts) h = elim (Bool-cases (ltb t limit)) [
  | inl old ↦ rw old (IsSorted-pop_before limit ts h.1)
  | inr new ↦ rw new h
]

IsSorted-append :
    (ts : List Instant) (u : Instant) → IsSorted ts → All (λ t. t ≤ u) ts → IsSorted (ts ++ u ∷ [])
IsSorted-append [] u s h = (tt, tt)
IsSorted-append (t ∷ ts) u s h =
    (All-append (λ v. t ≤ v) ts (u ∷ []) s.0 (h.0, tt), IsSorted-append ts u s.1 h.1)

All-le : (a b : Instant) (ts : List Instant) → a ≤ b → All (λ t. t ≤ a) ts → All (λ t. t ≤ b) ts
All-le a b [] h k = tt
All-le a b (t ∷ ts) h k = (omega arith, All-le a b ts h k.1)

module _ (window : ℕ) where
  -- The failures that are kept count as those of the log, in every window from time `t` on.
  pub record Tracks (kept log : List Instant) (t : Instant) : Type 0 where
    pub sorted : IsSorted kept
    pub past : All (λ u. u ≤ t) kept
    pub counts : (x : Instant) → t - window ≤ x → count_since x kept ≡ count_since x log

  pub Tracks-later :
      (kept log : List Instant) (t u : Instant) → t ≤ u → Tracks kept log t → Tracks kept log u
  Tracks-later kept log t u le h = record {
    sorted = h.sorted;
    past = All-le t u kept le h.past;
    counts = λ x k. h.counts x (omega arith);
  }

  pub Tracks-nil : (t : Instant) → Tracks [] [] t
  Tracks-nil t = record { sorted = tt; past = tt; counts = λ x k. refl }

  pub Tracks-prune :
      (kept log : List Instant) (t u : Instant)
      → window ≤ u
      → t ≤ u
      → Tracks kept log t
      → Tracks (pop_before (cutoff window u) kept) log u
  Tracks-prune kept log t u run le h =
      let e : cutoff window u ≡ u - window = ground arith in
      rw e (record {
        sorted = IsSorted-pop_before (u - window) kept h.sorted;
        past = All-pop_before (λ v. v ≤ u) (u - window) kept (All-le t u kept le h.past);
        counts = λ x k. count_since-pop_before (u - window) x kept k ∙ h.counts x (omega arith);
      })

  pub Tracks-append :
      (kept log : List Instant) (t u : Instant)
      → t ≤ u
      → Tracks kept log t
      → Tracks (kept ++ u ∷ []) (log ++ u ∷ []) u
  Tracks-append kept log t u le h = record {
    sorted = IsSorted-append kept u h.sorted (All-le t u kept le h.past);
    past = All-append (λ v. v ≤ u) kept (u ∷ []) (All-le t u kept le h.past) (omega arith);
    counts = λ x k.
        count_since-append x kept (u ∷ [])
        ∙ ap (λ n. n + count_since x (u ∷ [])) (h.counts x (omega arith))
        ∙ sym (count_since-append x log (u ∷ []));
  }
