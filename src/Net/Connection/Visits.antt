-- ===== src/Net/Connection/Visits.antt =====
-- A client that connects to connection.rs again and again and gives wrong passwords, one connection
-- after the other.
use mathlib.Core.Path.{subst}
use liaozhai.Auth.RateLimiter.{AuthRateLimiter, Instant, IpAddr, deque_of, get, is_throttled}
use liaozhai.Auth.RateLimiter.Counted.{Counted, is_throttled-Counted, record_failure-Counted}
use liaozhai.Auth.RateLimiter.History.{InWindow}
use liaozhai.Auth.RateLimiter.Window.{deque_of-none}
use liaozhai.Common.{
  All, Bool-cases, List, [], arith, inl, inr, leb, length, none, refl, ℕ, ◌%◌, ◌++◌, ◌+◌, ◌<◌, ◌^◌,
  ◌∙◌, ◌∷◌, ◌≡◌, ◌≤◌,
}
use liaozhai.Core.Constants.{banner}
use liaozhai.Net.Connection.{
  Connection, Credentials, Flow, Served, count_failure, finished, handle_connection, looped,
  no_banner, run, running, start, turned_away,
}
use liaozhai.Net.Connection.Lockout.{Attempt, IsWrong, events_of, run-attempt}
use liaozhai.Net.Connection.Login.{asked_for, refused_once}
use liaozhai.Net.Output.{new_writer, write_raw}
use liaozhai.Net.Session.{authenticating, initial_prompt, new_session}
use liaozhai.Text.Utf8.{as_bytes}
use liaozhai.Worlds.Registry.{WorldRegistry}

-- What one connection of the client brings: when it comes, and what it tries.
pub record Visit : Type 0 where
  pub connected_at : Instant
  pub attempts : List Attempt

module _ (creds : Credentials) (max_login_attempts : ℕ) (peer : IpAddr) where
  -- Where the loop stands, or has ended.
  abbrev pub last_of : Flow creds max_login_attempts peer → Connection creds max_login_attempts peer
  last_of (running d) = d
  last_of (finished d) = d

  -- The clocks behind the passwords read times of the window.
  abbrev pub AnsweredIn : ℕ → Instant → Attempt → Type 0
  AnsweredIn window now x = InWindow window now (x.answered_at.pruned_at, x.answered_at.now)

  run-Counted :
      (window max_failures : ℕ) (now : Instant) (c : Connection creds max_login_attempts peer)
      (n : ℕ) (attempts : List Attempt)
      → c.writer.results ≡ []
      → c.session.state ≡ authenticating none
      → All (IsWrong creds max_login_attempts peer c.store) attempts
      → All (AnsweredIn window now) attempts
      → c.auth_failures < max_login_attempts
      → max_login_attempts < 2 ^ 32
      → Counted peer window max_failures now c.limiter n
      → let d = last_of (run creds max_login_attempts peer c (events_of attempts [])) in
        (k : ℕ) × (d.auth_failures ≡ c.auth_failures + k)
        × (d.auth_failures ≤ max_login_attempts)
        × Counted peer window max_failures now d.limiter (n + k)
        × (d.store ≡ c.store)
  unfolding run count_failure
  run-Counted window max_failures now c n [] e st w i few small k =
      let same : n + 0 ≡ n = omega arith in (0, omega arith, omega arith, rw same k, refl)
  run-Counted window max_failures now c n (x ∷ xs) e st w i few small k =
      let counted : (c.auth_failures + 1) % 2 ^ 32 ≡ c.auth_failures + 1 = omega arith in
      let more =
        record_failure-Counted peer window max_failures now c.limiter n x.answered_at.pruned_at
          x.answered_at.now k i.0 in
      let r = run-attempt creds max_login_attempts peer c x (events_of xs []) e st w.0 in
      elim (Bool-cases (leb max_login_attempts ((c.auth_failures + 1) % 2 ^ 32))) [
        | inl full ↦ rw (r, full) (1, counted, omega (arith, counted), more, refl)
        | inr open_ ↦
            let few' : (c.auth_failures + 1) % 2 ^ 32 < max_login_attempts = ground arith in
            let c' =
              refused_once creds max_login_attempts peer
                (asked_for creds max_login_attempts peer c x.name) x.answered_at in
            let (j, added, bound, k', kept) =
              run-Counted window max_failures now c' (n + 1) xs e refl w.1 i.1 few' small more in
            let sum : n + 1 + j ≡ n + (1 + j) = omega arith in
            rw (r, open_)
              (
                1 + j,
                omega (arith, added, counted),
                bound,
                subst (Counted peer window max_failures now _) sum k',
                kept,
              )
      ]

  -- How many logins fail on a connection that is served.
  abbrev pub failed_on : Served creds max_login_attempts peer → ℕ
  failed_on (turned_away writer l) = 0
  failed_on (no_banner writer l) = 0
  failed_on (looped f) = (last_of f).auth_failures

  -- The limiter, the store, and how many logins have failed.
  pub record Visited : Type 0 where
    pub limiter : AuthRateLimiter
    pub store : creds.Store
    pub failed : ℕ

  abbrev pub behind_visit : Visited → Served creds max_login_attempts peer → Visited
  behind_visit w (turned_away writer l) = record w { limiter = l }
  behind_visit w (no_banner writer l) = record w { limiter = l }
  behind_visit w (looped f) = record {
    limiter = (last_of f).limiter;
    store = (last_of f).store;
    failed = w.failed + (last_of f).auth_failures;
  }

  -- One connection, whose writes succeed.
  abbrev serve_visit : WorldRegistry → Visited → Visit → Served creds max_login_attempts peer
  serve_visit registry w v =
      handle_connection creds max_login_attempts peer registry [] v.connected_at w.limiter w.store
        (events_of v.attempts [])

  -- One connection after the other.
  abbrev pub visits : WorldRegistry → Visited → List Visit → Visited
  visits registry w [] = w
  visits registry w (v ∷ vs) = visits registry (behind_visit w (serve_visit registry w v)) vs

  -- A visit in the window with passwords that the store refuses.
  pub record IsWrongVisit (window : ℕ) (now : Instant) (store : creds.Store) (v : Visit)
      : Type 0 where
    pub wrong : All (IsWrong creds max_login_attempts peer store) v.attempts
    pub answered : All (AnsweredIn window now) v.attempts
    pub since : window ≤ v.connected_at
    pub until : v.connected_at ≤ now

  module _ (window max_failures : ℕ) (now : Instant) (pos : 0 < max_failures)
      (some_login : 0 < max_login_attempts) (small : max_login_attempts < 2 ^ 32) where
    -- What is known between two connections.
    record Between (store : creds.Store) (w : Visited) : Type 0 where
      counted : Counted peer window max_failures now w.limiter w.failed
      bound : w.failed < max_failures + max_login_attempts
      same_store : w.store ≡ store

    serve_visit-Between :
        (registry : WorldRegistry) (store : creds.Store) (w : Visited) (v : Visit)
        → Between store w
        → IsWrongVisit window now store v
        → Between store (behind_visit w (serve_visit registry w v))
    unfolding handle_connection start write_raw
    serve_visit-Between registry store w v b x =
        let (answer, checked) =
          is_throttled-Counted peer window max_failures now w.limiter w.failed v.connected_at pos
            b.counted x.since x.until in
        elim (Bool-cases (leb max_failures w.failed)) [
          | inl many ↦
              rw (answer, many)
                (record { counted = checked; bound = b.bound; same_store = b.same_store })
          | inr few ↦
              let c =
                start creds max_login_attempts peer (new_session registry)
                  (write_raw (new_writer []) (as_bytes (banner ++ initial_prompt))).0
                  (is_throttled w.limiter v.connected_at peer).0 w.store in
              let (k, added, limit, counted', kept) =
                run-Counted window max_failures now c w.failed v.attempts refl refl
                  (rw b.same_store x.wrong) x.answered some_login small checked in
              let le : w.failed < max_failures = ground arith in
              let d = last_of (run creds max_login_attempts peer c (events_of v.attempts [])) in
              let is_k : k ≡ d.auth_failures = omega (arith, added) in
              rw (answer, few)
                (record {
                  counted =
                      subst (λ j. Counted peer window max_failures now d.limiter (w.failed + j))
                        is_k counted';
                  bound = omega (arith, limit);
                  same_store = kept ∙ b.same_store;
                })
        ]

    visits-Between :
        (registry : WorldRegistry) (store : creds.Store) (w : Visited) (vs : List Visit)
        → Between store w
        → All (IsWrongVisit window now store) vs
        → Between store (visits registry w vs)
    visits-Between registry store w [] b x = b
    visits-Between registry store w (v ∷ vs) b x =
        visits-Between registry store (behind_visit w (serve_visit registry w v)) vs
          (serve_visit-Between registry store w v b x.0) x.1

  -- A client that connects again and again, one connection after the other, and gives only passwords
  -- that the store refuses, as many as it likes on each, has fewer than
  -- `max_failures + max_login_attempts` logins fail within a window of the limiter. When it comes again
  -- it is throttled exactly if they are at least `max_failures`. Its address was unknown and the map not
  -- full before, its writes succeed, both limits are above 0, and the clock has run for a window.
  pub visits-bounds :
      (registry : WorldRegistry) (l : AuthRateLimiter) (store : creds.Store) (now : Instant)
      (vs : List Visit)
      → 0 < l.max_failures
      → 0 < max_login_attempts
      → max_login_attempts < 2 ^ 32
      → get peer l.failures ≡ none
      → length l.failures < l.max_entries
      → l.window ≤ now
      → All (IsWrongVisit l.window now store) vs
      → let w = visits registry (record { limiter = l; store = store; failed = 0 }) vs in
        (w.failed < l.max_failures + max_login_attempts)
        × ((is_throttled w.limiter now peer).1 ≡ leb l.max_failures w.failed)
  visits-bounds registry l store now vs pos some_login small unknown room ran x =
      let empty : deque_of peer l.failures ≡ [] = deque_of-none peer l.failures unknown in
      let first : Between l.window l.max_failures now pos some_login small store
          (record { limiter = l; store = store; failed = 0 }) =
        record {
          counted = record {
            same_window = refl;
            same_limit = refl;
            count = rw empty refl;
            recent = rw empty tt;
            room = inr room;
          };
          bound = omega arith;
          same_store = refl;
        } in
      let b =
        visits-Between l.window l.max_failures now pos some_login small registry store _ vs first
          x in
      (
        b.bound,
        (is_throttled-Counted peer l.window l.max_failures now _ _ now pos b.counted ran
            (omega arith)).0,
      )
