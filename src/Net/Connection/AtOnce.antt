-- ===== src/Net/Connection/AtOnce.antt =====
-- A client that opens many connections to connection.rs before it gives wrong passwords on any.
use liaozhai.Auth.RateLimiter.{AuthRateLimiter, Instant, IpAddr, is_throttled}
use liaozhai.Common.{
  All, Bool-cases, List, [], ap, arith, inl, inr, length, none, sym, ℕ, ◌*◌, ◌++◌, ◌+◌, ◌<◌, ◌^◌,
  ◌∙◌, ◌∷◌, ◌≡◌,
}
use liaozhai.Core.Constants.{banner}
use liaozhai.Net.Connection.{
  Connection, Credentials, Served, finished, handle_connection, looped, run, running, start,
}
use liaozhai.Net.Connection.Lockout.{Attempt, IsWrong, events_of, run-max_login_attempts}
use liaozhai.Net.Connection.Visits.{Visited, behind_visit}
use liaozhai.Net.Output.{new_writer, write_raw}
use liaozhai.Net.Session.{authenticating, initial_prompt, new_session}
use liaozhai.Text.Utf8.{as_bytes}
use liaozhai.Worlds.Registry.{WorldRegistry}

module _ (creds : Credentials) (max_login_attempts : ℕ) (peer : IpAddr) where
  -- A connection that was greeted while the limiter and the store were these.
  pub record IsGreeted (l : AuthRateLimiter) (s : creds.Store)
      (c : Connection creds max_login_attempts peer) : Type 0 where
    pub registry : WorldRegistry
    pub connected_at : Instant
    pub begins :
        handle_connection creds max_login_attempts peer registry [] connected_at l s []
        ≡ looped (running c)

  -- The connections run one after the other, each on the limiter and the store as the others have
  -- left them.
  abbrev pub run_each :
      Visited creds max_login_attempts peer
      → List Attempt
      → List (Connection creds max_login_attempts peer)
      → Visited creds max_login_attempts peer
  run_each w attempts [] = w
  run_each w attempts (c ∷ cs) =
      run_each
        (behind_visit creds max_login_attempts peer w (
          looped (
            run creds max_login_attempts peer (record c { limiter = w.limiter; store = w.store })
              (events_of attempts []))))
        attempts cs

  looped-inj :
      {a b : Connection creds max_login_attempts peer}
      → ◌≡◌ {A = Served creds max_login_attempts peer} (looped (running a)) (looped (running b))
      → a ≡ b
  looped-inj h = cc

  greeted-start :
      (l : AuthRateLimiter) (s : creds.Store) (c : Connection creds max_login_attempts peer)
      → IsGreeted l s c
      → (c.writer.results ≡ []) × (c.session.state ≡ authenticating none) × (c.auth_failures ≡ 0)
  unfolding handle_connection start write_raw run
  greeted-start l s c g = elim (Bool-cases (is_throttled l g.connected_at peer).1) [
    | inl throttled ↦ let h = rw throttled at (g.begins) in cc
    | inr free ↦
        let c' =
          start creds max_login_attempts peer (new_session g.registry)
            (write_raw (new_writer []) (as_bytes (banner ++ initial_prompt))).0
            (is_throttled l g.connected_at peer).0 s in
        let h : ◌≡◌ {A = Served creds max_login_attempts peer} (looped (running c'))
            (looped (running c)) =
          rw free at (g.begins) in
        let e : c' ≡ c = looped-inj h in
        (
          ap (λ x. x.writer.results) (sym e),
          ap (λ x. x.session.state) (sym e),
          ap (λ x. x.auth_failures) (sym e),
        )
  ]

  -- A client that is not throttled, and opens any number of connections before a password is refused
  -- on one of them, has `max_login_attempts` logins fail on each, whatever `max_failures` of the
  -- limiter is, and gives only passwords that the store refuses.
  pub run_each-failed :
      (l : AuthRateLimiter) (s : creds.Store) (w : Visited creds max_login_attempts peer)
      (attempts : List Attempt) (cs : List (Connection creds max_login_attempts peer))
      → w.store ≡ s
      → All (IsGreeted l s) cs
      → All (IsWrong creds max_login_attempts peer s) attempts
      → length attempts ≡ max_login_attempts
      → 0 < max_login_attempts
      → max_login_attempts < 2 ^ 32
      → (run_each w attempts cs).failed ≡ w.failed + length cs * max_login_attempts
  run_each-failed l s w attempts [] e g x n pos small = omega arith
  run_each-failed l s w attempts (c ∷ cs) e g x n pos small =
      let c' = record c { limiter = w.limiter; store = w.store } in
      let (results, state, none_failed) = greeted-start l s c g.0 in
      let (d, ends, count, closed, kept) =
        run-max_login_attempts creds max_login_attempts peer c' attempts [] results state (rw e x)
          (omega arith) (omega (arith, none_failed)) small in
      let w' = behind_visit creds max_login_attempts peer w (looped (finished d)) in
      let rest = run_each-failed l s w' attempts cs (kept ∙ e) g.1 x n pos small in
      let first : d.auth_failures ≡ max_login_attempts = count in
      ap
        (λ f.
          (run_each (behind_visit creds max_login_attempts peer w (looped f)) attempts cs).failed)
        ends
      ∙ rest
      ∙ grind arith
