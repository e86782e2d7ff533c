-- ===== src/Net/Connection/Outcomes.antt =====
-- How connections of connection.rs are accepted, who passes the login, and how they end.
use mathlib.Core.Path.{subst}
use liaozhai.Auth.RateLimiter.{AuthRateLimiter, Instant, IpAddr, is_throttled}
use liaozhai.Common.{
  Bool, Bool-cases, Bytes, List, Text, [], ap, arith, false, inl, inr, refl, sym, true, ℕ, ◌++◌,
  ◌∙◌, ◌∷◌, ◌≡◌,
}
use liaozhai.Core.Constants.{banner, buffer_overflow_msg, shutdown_msg}
use liaozhai.Net.Codec.{buffer_overflow, io}
use liaozhai.Net.Connection.{
  Connection, Credentials, Event, Flow, Served, eof, finished, handle_connection, item, looped,
  read_error, run, running, send_last, shutdown, start, step, then_run,
}
use liaozhai.Net.Connection.Passes.{running-inj, write_raw-cases, write_raw-sent}
use liaozhai.Net.Connection.Reached.{
  Fresh, Reached, begin_, echo_after-StartsAscii, echo_masked, echo_masked-append,
  echo_masked-is_password_input, pass,
}
use liaozhai.Net.Output.{new_writer, write_raw}
use liaozhai.Net.Session.{initial_prompt, is_password_input, new_session}
use liaozhai.Net.Session.Outputs.{
  StartsAscii, as_bytes-StartsAscii, overflow_text-StartsAscii, shutdown_text-StartsAscii,
}
use liaozhai.Text.Utf8.{as_bytes}
use liaozhai.Worlds.Registry.{WorldRegistry}

module _ (creds : Credentials) (max_login_attempts : ℕ) (peer : IpAddr) where
  then_run-running :
      (again : Connection creds max_login_attempts peer → Flow creds max_login_attempts peer)
      (f : Flow creds max_login_attempts peer) (d : Connection creds max_login_attempts peer)
      → then_run creds max_login_attempts peer again f ≡ running d
      → (b : Connection creds max_login_attempts peer) × (f ≡ running b) × (again b ≡ running d)
  then_run-running again (running b) d h = (b, refl, h)
  then_run-running again (finished b) d h = ground arith

  run-Reached :
      (c b d : Connection creds max_login_attempts peer) (es : List Event)
      → Reached creds max_login_attempts peer c b
      → run creds max_login_attempts peer b es ≡ running d
      → Reached creds max_login_attempts peer c d
  unfolding run
  run-Reached c b d [] r h =
      subst (Reached creds max_login_attempts peer c) (running-inj creds max_login_attempts peer h)
        r
  run-Reached c b d (e ∷ es) r h =
      let (b', s, rest) =
        then_run-running (λ x. run creds max_login_attempts peer x es)
          (step creds max_login_attempts peer b e) d h in
      run-Reached c b' d es (pass b b' e r s) rest

  looped-inj :
      {a b : Flow creds max_login_attempts peer}
      → ◌≡◌ {A = Served creds max_login_attempts peer} (looped a) (looped b)
      → a ≡ b
  looped-inj h = cc

  -- `handle_connection` with its loop going on has reached the state that it is in from behind the
  -- banner, where a name is asked for and no login has failed.
  pub handle_connection-Reached :
      (registry : WorldRegistry) (results : List Bool) (now : Instant) (limiter : AuthRateLimiter)
      (store : creds.Store) (events : List Event) (d : Connection creds max_login_attempts peer)
      → handle_connection creds max_login_attempts peer registry results now limiter store events
        ≡ looped (running d)
      → (c : Connection creds max_login_attempts peer) × Fresh creds max_login_attempts peer c
        × Reached creds max_login_attempts peer c d
  unfolding handle_connection start
  handle_connection-Reached registry results now limiter store events d h =
      elim (Bool-cases (is_throttled limiter now peer).1) [
        | inl e ↦ ground arith
        | inr e ↦ elim (Bool-cases (write_raw (new_writer results) hello).1) [
          | inl written ↦
              let c =
                start creds max_login_attempts peer (new_session registry)
                  (write_raw (new_writer results) hello).0 (is_throttled limiter now peer).0
                  store in
              let r : run creds max_login_attempts peer c events ≡ running d =
                looped-inj (sym (rw (e, written) refl) ∙ h) in
              (
                c,
                (refl, refl, write_raw-sent (new_writer results) hello written),
                run-Reached c c d events begin_ r,
              )
          | inr lost ↦ ground arith
        ]
      ]
    where
      hello : Bytes
      hello = as_bytes (banner ++ initial_prompt)

  pub finished-inj :
      {a b : Connection creds max_login_attempts peer}
      → ◌≡◌ {A = Flow creds max_login_attempts peer} (finished a) (finished b)
      → a ≡ b
  finished-inj h = cc

  -- When the loop has broken, the write half was shut down.
  pub run-closed :
      (c d : Connection creds max_login_attempts peer) (es : List Event)
      → run creds max_login_attempts peer c es ≡ finished d
      → d.writer.closed ≡ true
  unfolding run
  run-closed c d [] h = ground arith
  run-closed c d (e ∷ es) h =
      after (step creds max_login_attempts peer c e) (λ b. run-closed b d es) h
    where
      after :
          (f : Flow creds max_login_attempts peer)
          → ((b : Connection creds max_login_attempts peer)
              → run creds max_login_attempts peer b es ≡ finished d
              → d.writer.closed ≡ true)
          → then_run creds max_login_attempts peer (λ x. run creds max_login_attempts peer x es) f
            ≡ finished d
          → d.writer.closed ≡ true
      after (running b) again h = again b h
      after (finished b) again h = sym (ap (λ x. x.writer.closed) (finished-inj h))

  -- The events that end the loop without a line.
  abbrev pub EndsLoop : Event → Type 0
  EndsLoop shutdown = Unit
  EndsLoop (item t i) = ⊥
  EndsLoop (read_error e) = Unit
  EndsLoop eof = Unit

  pub send_last-masked :
      (c d : Connection creds max_login_attempts peer) (text : Text)
      → StartsAscii text
      → send_last creds max_login_attempts peer c (as_bytes text) ≡ finished d
      → echo_masked false d.writer.sent ≡ echo_masked false c.writer.sent
  unfolding send_last
  send_last-masked c d text a h =
      let e = ap (λ x. echo_masked false x.writer.sent) (sym (finished-inj h)) in
      elim (write_raw-cases c.writer (as_bytes text)) [
        | inl more ↦
            e
            ∙ ap (echo_masked false) more
            ∙ echo_masked-append false c.writer.sent (as_bytes text)
            ∙ echo_after-StartsAscii _ (as_bytes text) (as_bytes-StartsAscii text a)
        | inr same ↦ e ∙ ap (echo_masked false) same
      ]

  step-masked :
      (c d : Connection creds max_login_attempts peer) (e : Event)
      → EndsLoop e
      → step creds max_login_attempts peer c e ≡ finished d
      → echo_masked false d.writer.sent ≡ echo_masked false c.writer.sent
  unfolding step
  step-masked c d shutdown u h = send_last-masked c d shutdown_msg shutdown_text-StartsAscii h
  step-masked c d (item t i) u h = elim u [ ]
  step-masked c d (read_error (io e)) u h =
      ap (λ x. echo_masked false x.writer.sent) (sym (finished-inj h))
  step-masked c d (read_error (buffer_overflow max)) u h =
      send_last-masked c d buffer_overflow_msg overflow_text-StartsAscii h
  step-masked c d eof u h = ap (λ x. echo_masked false x.writer.sent) (sym (finished-inj h))

  -- Where the loop has gone on from behind the banner and the session waits for a password, a
  -- shutdown, an error of the reader or the end of its input ends the connection with the client
  -- still told to mask its input.
  pub ends-echo_masked :
      (c d d' : Connection creds max_login_attempts peer) (e : Event)
      → Fresh creds max_login_attempts peer c
      → Reached creds max_login_attempts peer c d
      → is_password_input d.session ≡ true
      → EndsLoop e
      → step creds max_login_attempts peer d e ≡ finished d'
      → echo_masked false d'.writer.sent ≡ true
  ends-echo_masked c d d' e f r p u h =
      step-masked d d' e u h
      ∙ echo_masked-is_password_input creds max_login_attempts peer c d f r
      ∙ p
