-- ===== src/Net/Connection/Typed.antt =====
-- What a client types, from the bytes that it sends to the decoder of codec.rs to the loop of
-- connection.rs, where its writes succeed.
use mathlib.Core.Path.{subst}
use liaozhai.Auth.Account.{Account}
use liaozhai.Auth.RateLimiter.{IpAddr, reset}
use liaozhai.Common.{
  List, Text, [], ap, codes, eq_list, none, refl, some, ℕ, ◌%◌, ◌+◌, ◌^◌, ◌∙◌, ◌∷◌, ◌≡◌,
}
use liaozhai.Core.Error.{ok}
use liaozhai.Net.Codec.{line}
use liaozhai.Net.Codec.Stream.Typed.{Spaced, blank, quiet, spoken}
use liaozhai.Net.Connection.{
  Clock, Connection, Credentials, Event, count_success, handle_transition, item, run, running, step,
}
use liaozhai.Net.Connection.Login.{
  Gives, asked_for, logged_in, send-sent_frame, sent_frame, step-name, step-password,
}
use liaozhai.Net.Session.{
  SessionState, apply_state, authenticating, handle_input, handle_password_input, handle_state,
  handle_username_input, handle_world_selection_input, is_session_terminator, stay, world_selection,
}
use liaozhai.Text.Trim.{to_ascii_lowercase, trim, trim_end, trim_start}
use liaozhai.Text.Utf8.{as_bytes}
use liaozhai.Worlds.Registry.{WorldRegistry}

-- The lines as events, each with what the clocks read then.
abbrev pub stamped : (ℕ → Clock) → ℕ → List Text → List Event
stamped clock i [] = []
stamped clock i (x ∷ xs) = item (clock i) (line x) ∷ stamped clock (i + 1) xs

handle_input-nil :
    (state : SessionState) (r : WorldRegistry)
    → (output : Text) × (handle_state state r [] ≡ stay output)
unfolding handle_state handle_username_input handle_password_input handle_world_selection_input
    is_session_terminator trim trim_start trim_end to_ascii_lowercase eq_list codes
handle_input-nil (authenticating none) r = (_, refl)
handle_input-nil (authenticating (some name)) r = (_, refl)
handle_input-nil (world_selection account) r = (_, refl)

module _ (creds : Credentials) (max_login_attempts : ℕ) (peer : IpAddr) where
  -- A connection that differs in what was sent and in the count of lines only.
  pub record Waits (c d : Connection creds max_login_attempts peer) : Type 0 where
    pub session : d.session ≡ c.session
    pub auth_failures : d.auth_failures ≡ c.auth_failures
    pub limiter : d.limiter ≡ c.limiter
    pub store : d.store ≡ c.store
    pub results : d.writer.results ≡ c.writer.results

  Waits-refl : (c : Connection creds max_login_attempts peer) → Waits c c
  Waits-refl c = record {
    session = refl;
    auth_failures = refl;
    limiter = refl;
    store = refl;
    results = refl;
  }

  Waits-trans :
      (b c d : Connection creds max_login_attempts peer) → Waits b c → Waits c d → Waits b d
  Waits-trans b c d w w' = record {
    session = w'.session ∙ w.session;
    auth_failures = w'.auth_failures ∙ w.auth_failures;
    limiter = w'.limiter ∙ w.limiter;
    store = w'.store ∙ w.store;
    results = w'.results ∙ w.results;
  }

  step-nil :
      (c : Connection creds max_login_attempts peer) (t : Clock)
      → c.writer.results ≡ []
      → (d : Connection creds max_login_attempts peer) × (step creds max_login_attempts peer c
            (item t (line []))
          ≡ running d)
        × Waits c d
  unfolding step handle_transition handle_input
  step-nil c t e =
      let (output, stays) = handle_input-nil c.session.state c.session.registry in
      let c' = record c { line_count = (c.line_count + 1) % 2 ^ 64 } in
      (
        sent_frame creds max_login_attempts peer c' (as_bytes output),
        rw stays (send-sent_frame creds max_login_attempts peer c' (as_bytes output) running e),
        record {
          session = refl;
          auth_failures = refl;
          limiter = refl;
          store = refl;
          results = refl;
        },
      )

  -- Empty lines change nothing but what was sent and the count of lines.
  pub run-blank :
      (clock : ℕ → Clock) (i : ℕ) (c : Connection creds max_login_attempts peer)
      (out ls : List Text)
      → c.writer.results ≡ []
      → ls ≡ []
      → Spaced out ls
      → (d : Connection creds max_login_attempts peer) × (run creds max_login_attempts peer c
            (stamped clock i out)
          ≡ running d)
        × Waits c d
  unfolding run
  run-blank clock i c _ _ e n quiet = (c, refl, Waits-refl c)
  run-blank clock i c _ ls e n (blank out _ s) =
      let (c', steps, w) = step-nil c (clock i) e in
      let (d, runs, w') = run-blank clock (i + 1) c' out ls (w.results ∙ e) n s in
      (d, rw steps runs, Waits-trans c c' d w w')
  run-blank clock i c _ _ e n (spoken l out ls s) = cc

  -- The empty lines in front of a line that was spoken.
  pub run-spoken :
      (clock : ℕ → Clock) (i : ℕ) (c : Connection creds max_login_attempts peer) (l : Text)
      (rest out ls : List Text)
      → c.writer.results ≡ []
      → ls ≡ l ∷ rest
      → Spaced out ls
      → (d : Connection creds max_login_attempts peer) × (j : ℕ) × (later : List Text) × (run creds
            max_login_attempts peer c
            (stamped clock i out)
          ≡ run creds max_login_attempts peer d (stamped clock j (l ∷ later)))
        × Waits c d
        × Spaced later rest
  unfolding run
  run-spoken clock i c l rest _ _ e n quiet = cc
  run-spoken clock i c l rest _ ls e n (blank out _ s) =
      let (c', steps, w) = step-nil c (clock i) e in
      let (d, j, later, runs, w', s') =
        run-spoken clock (i + 1) c' l rest out ls (w.results ∙ e) n s in
      (d, j, later, rw steps runs, Waits-trans c c' d w w', s')
  run-spoken clock i c l rest _ _ e n (spoken x out ls s) =
      let said : x ≡ l = cc in
      let others : ls ≡ rest = cc in
      (c, i, out, rw said refl, Waits-refl c, subst (Spaced out) others s)

  -- Behind a login: who has logged in, and that no failure was counted.
  pub record LoggedIn (account : Account) (c d : Connection creds max_login_attempts peer)
      : Type 0 where
    pub session : d.session ≡ apply_state c.session (world_selection account)
    pub auth_failures : d.auth_failures ≡ c.auth_failures
    pub limiter : d.limiter ≡ reset c.limiter peer
    pub results : d.writer.results ≡ []

  -- A name and a password, with whatever follows.
  pub run-login :
      (clock : ℕ → Clock) (c : Connection creds max_login_attempts peer)
      (first second name password : Text) (account : Account) (rest out : List Text)
      → c.writer.results ≡ []
      → c.session.state ≡ authenticating none
      → Gives first name
      → Gives second password
      → creds.verify c.store name password ≡ ok (some account)
      → Spaced out (first ∷ second ∷ rest)
      → (d : Connection creds max_login_attempts peer) × (j : ℕ) × (later : List Text) × (run creds
            max_login_attempts peer c
            (stamped clock 0 out)
          ≡ run creds max_login_attempts peer d (stamped clock j later))
        × LoggedIn account c d
        × Spaced later rest
  unfolding run count_success
  run-login clock c first second name password account rest out e st g g' v s =
      let (b, j, mid, runs, w, s') = run-spoken clock 0 c first (second ∷ rest) out _ e refl s in
      let b' = asked_for creds max_login_attempts peer b name in
      let steps =
        step-name creds max_login_attempts peer b (clock j) first name (w.results ∙ e)
          (ap (λ x. x.state) w.session ∙ st) g in
      let (a, k, later, runs', w', s'') =
        run-spoken clock (j + 1) b' second rest mid _ (w.results ∙ e) refl s' in
      let steps' =
        step-password creds max_login_attempts peer a (clock k) second name password account
          (w'.results ∙ w.results ∙ e) (ap (λ x. x.state) w'.session) g'
          (rw (w'.store, w.store) v) in
      (
        logged_in creds max_login_attempts peer a (clock k) account,
        k + 1,
        later,
        runs ∙ rw (steps, runs', steps') refl,
        record {
          session =
              ap (λ x. apply_state x (world_selection account)) (w'.session)
              ∙ ap (λ x. apply_state x (world_selection account)) w.session;
          auth_failures = w'.auth_failures ∙ w.auth_failures;
          limiter = ap (λ x. reset x peer) (w'.limiter ∙ w.limiter);
          results = w'.results ∙ w.results ∙ e;
        },
        s'',
      )
