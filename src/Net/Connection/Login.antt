-- ===== src/Net/Connection/Login.antt =====
-- What a client that gives its name and password gets from connection.rs, where its writes succeed.
use liaozhai.Auth.Account.{Account}
use liaozhai.Auth.RateLimiter.{IpAddr, reset}
use liaozhai.Common.{
  Bool-cases, Bytes, Text, [], false, if◌then◌else◌, inl, inr, is_empty, leb, none, refl, some, ℕ,
  ◌%◌, ◌++◌, ◌+◌, ◌^◌, ◌∙◌, ◌∷◌, ◌≡◌,
}
use liaozhai.Core.Constants.{
  auth_failed_msg, auth_max_retries_msg, iac_will_echo, iac_wont_echo, password_prompt,
  username_prompt,
}
use liaozhai.Core.Error.{ok}
use liaozhai.Net.Codec.{line}
use liaozhai.Net.Connection.{
  Clock, Connection, Credentials, Flow, after_verification, apply_to, complete, count_failure,
  count_success, echo_prefix, finished, handle_transition, item, run, running, send, send_last,
  step,
}
use liaozhai.Net.Output.{write_raw}
use liaozhai.Net.Session.{
  Session, advance, apply_state, auth_pending, authenticating, complete_auth, handle_input,
  handle_state, handle_username_input, is_session_terminator, welcome_output, world_selection,
}
use liaozhai.Net.Session.Input.{auth_pending_iff}
use liaozhai.Text.Trim.{trim}
use liaozhai.Text.Utf8.{as_bytes}

-- A line from which the session takes a word: not empty and no command to quit.
pub record Gives (input word : Text) : Type 0 where
  pub typed : word ≡ trim input
  pub given : is_empty word ≡ false
  pub no_quit : is_session_terminator word ≡ false

handle_input-name :
    (s : Session) (input name : Text)
    → s.state ≡ authenticating none
    → Gives input name
    → handle_input s input ≡ advance (authenticating (some name)) password_prompt
unfolding handle_input handle_state handle_username_input
handle_input-name s input name st g = rw (st, ← g.typed, g.no_quit, g.given) refl

handle_input-password :
    (s : Session) (input name password : Text)
    → s.state ≡ authenticating (some name)
    → Gives input password
    → handle_input s input ≡ auth_pending name password
handle_input-password s input name password st g =
    (auth_pending_iff s input name password).1
      (record { state = st; typed = g.typed; given = g.given; no_quit = g.no_quit })

module _ (creds : Credentials) (max_login_attempts : ℕ) (peer : IpAddr) where
  -- A connection whose client has got one frame more.
  abbrev pub sent_frame :
      Connection creds max_login_attempts peer → Bytes → Connection creds max_login_attempts peer
  sent_frame c bytes = record c { writer = record c.writer { sent = c.writer.sent ++ bytes ∷ [] } }

  pub send-sent_frame :
      (c : Connection creds max_login_attempts peer) (bytes : Bytes)
      (k : Connection creds max_login_attempts peer → Flow creds max_login_attempts peer)
      → c.writer.results ≡ []
      → send creds max_login_attempts peer c bytes k ≡ k (sent_frame c bytes)
  unfolding send write_raw
  send-sent_frame c bytes k e = rw e refl

  pub send_last-sent_frame :
      (c : Connection creds max_login_attempts peer) (bytes : Bytes)
      → c.writer.results ≡ []
      → send_last creds max_login_attempts peer c bytes ≡ finished (sent_frame c bytes)
  unfolding send_last write_raw
  send_last-sent_frame c bytes e = rw e refl

  -- The connection behind the name.
  abbrev pub asked_for :
      Connection creds max_login_attempts peer → Text → Connection creds max_login_attempts peer
  asked_for c name = record (sent_frame c (iac_will_echo ++ as_bytes password_prompt)) {
    session = apply_state c.session (authenticating (some name));
    line_count = (c.line_count + 1) % 2 ^ 64;
  }

  pub step-name :
      (c : Connection creds max_login_attempts peer) (t : Clock) (input name : Text)
      → c.writer.results ≡ []
      → c.session.state ≡ authenticating none
      → Gives input name
      → step creds max_login_attempts peer c (item t (line input)) ≡ running (asked_for c name)
  unfolding step handle_transition echo_prefix
  step-name c t input name e st g = rw (handle_input-name c.session input name st g) (
      send-sent_frame (record c { line_count = (c.line_count + 1) % 2 ^ 64 })
        (iac_will_echo ++ as_bytes password_prompt)
        (λ x. running (apply_to creds max_login_attempts peer x (authenticating (some name)))) e)

  -- The connection behind the password.
  abbrev pub logged_in :
      Connection creds max_login_attempts peer
      → Clock
      → Account
      → Connection creds max_login_attempts peer
  logged_in c t account =
      let d = record (sent_frame c iac_wont_echo) { line_count = (c.line_count + 1) % 2 ^ 64 } in
      apply_to creds max_login_attempts peer
        (sent_frame (count_success creds max_login_attempts peer d t account)
          (as_bytes (welcome_output c.session account)))
        (world_selection account)

  pub step-password :
      (c : Connection creds max_login_attempts peer) (t : Clock) (input name password : Text)
      (account : Account)
      → c.writer.results ≡ []
      → c.session.state ≡ authenticating (some name)
      → Gives input password
      → creds.verify c.store name password ≡ ok (some account)
      → step creds max_login_attempts peer c (item t (line input)) ≡ running (logged_in c t account)
  unfolding step handle_transition after_verification complete complete_auth count_success
  step-password c t input name password account e st g v =
      let c' = record c { line_count = (c.line_count + 1) % 2 ^ 64 } in
      rw (handle_input-password c.session input name password st g) (
        send-sent_frame c' iac_wont_echo
          (λ d.
            after_verification creds max_login_attempts peer d t
              (creds.verify d.store name password))
          e
        ∙ rw v (
            send-sent_frame
              (count_success creds max_login_attempts peer (sent_frame c' iac_wont_echo) t account)
              (as_bytes (welcome_output c.session account))
              (λ x. running (apply_to creds max_login_attempts peer x (world_selection account)))
              e))

  -- A client that is asked for its name, gives it, and gives a password that the store verifies is
  -- sent three frames, the prompt with the echo masked, the echo back, and the welcome with the
  -- worlds, and comes to the selection of a world for the account. The limiter forgets the peer, and
  -- no failure is counted.
  pub run-world_selection :
      (c : Connection creds max_login_attempts peer) (t u : Clock)
      (first second name password : Text) (account : Account)
      → c.writer.results ≡ []
      → c.session.state ≡ authenticating none
      → Gives first name
      → Gives second password
      → creds.verify c.store name password ≡ ok (some account)
      → (d : Connection creds max_login_attempts peer) × (run creds max_login_attempts peer c
            (item t (line first) ∷ item u (line second) ∷ [])
          ≡ running d)
        × (d.session ≡ apply_state c.session (world_selection account))
        × (d.writer.sent
            ≡ ((c.writer.sent ++ (iac_will_echo ++ as_bytes password_prompt) ∷ [])
                ++ iac_wont_echo ∷ [])
              ++ as_bytes (welcome_output c.session account) ∷ [])
        × (d.auth_failures ≡ c.auth_failures)
        × (d.limiter ≡ reset c.limiter peer)
  unfolding run count_success
  run-world_selection c t u first second name password account e st g h v = (
    logged_in (asked_for c name) u account,
    rw
        (
          step-name c t first name e st g,
          step-password (asked_for c name) u second name password account e refl h v,
        )
        refl,
    refl,
    refl,
    refl,
    refl,
  )

  -- The connection behind a wrong password, where more attempts are left.
  abbrev pub refused_once :
      Connection creds max_login_attempts peer → Clock → Connection creds max_login_attempts peer
  refused_once c t =
      let d = record (sent_frame c iac_wont_echo) { line_count = (c.line_count + 1) % 2 ^ 64 } in
      apply_to creds max_login_attempts peer
        (sent_frame (count_failure creds max_login_attempts peer d t)
          (as_bytes (auth_failed_msg ++ username_prompt)))
        (authenticating none)

  -- The connection behind the last wrong password.
  abbrev pub refused_last :
      Connection creds max_login_attempts peer → Clock → Connection creds max_login_attempts peer
  refused_last c t =
      let d = record (sent_frame c iac_wont_echo) { line_count = (c.line_count + 1) % 2 ^ 64 } in
      sent_frame (count_failure creds max_login_attempts peer d t) (as_bytes auth_max_retries_msg)

  pub step-refused :
      (c : Connection creds max_login_attempts peer) (t : Clock) (input name password : Text)
      → c.writer.results ≡ []
      → c.session.state ≡ authenticating (some name)
      → Gives input password
      → creds.verify c.store name password ≡ ok none
      → step creds max_login_attempts peer c (item t (line input)) ≡ (
          if leb max_login_attempts ((c.auth_failures + 1) % 2 ^ 32)
          then finished (refused_last c t)
          else running (refused_once c t))
  unfolding step handle_transition after_verification complete complete_auth count_failure
  step-refused c t input name password e st g v =
      let c' = record c { line_count = (c.line_count + 1) % 2 ^ 64 } in
      rw (handle_input-password c.session input name password st g) (
        send-sent_frame c' iac_wont_echo
          (λ d.
            after_verification creds max_login_attempts peer d t
              (creds.verify d.store name password))
          e
        ∙ rw v (judged (record (sent_frame c' iac_wont_echo) { session = c.session }) e))
    where
      judged :
          (d : Connection creds max_login_attempts peer)
          → d.writer.results ≡ []
          → after_verification creds max_login_attempts peer d t (ok none) ≡ (
              if leb max_login_attempts ((d.auth_failures + 1) % 2 ^ 32)
              then finished (
                  sent_frame
                    (count_failure creds max_login_attempts peer d t)
                    (as_bytes auth_max_retries_msg))
              else running (
                  apply_to creds max_login_attempts peer
                    (sent_frame
                      (count_failure creds max_login_attempts peer d t)
                      (as_bytes (auth_failed_msg ++ username_prompt)))
                    (authenticating none)))
      judged d e =
          let f = count_failure creds max_login_attempts peer d t in
          elim (Bool-cases (leb max_login_attempts ((d.auth_failures + 1) % 2 ^ 32))) [
            | inl many ↦ rw many (send_last-sent_frame f (as_bytes auth_max_retries_msg) e)
            | inr few ↦ rw few (
                send-sent_frame f (as_bytes (auth_failed_msg ++ username_prompt))
                  (λ x. running (apply_to creds max_login_attempts peer x (authenticating none))) e)
          ]
