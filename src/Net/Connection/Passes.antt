-- ===== src/Net/Connection/Passes.antt =====
-- What one pass of the loop in connection.rs does where the loop goes on: four kinds of passes.
use liaozhai.Auth.Account.{Account}
use liaozhai.Auth.RateLimiter.{IpAddr, record_failure, reset}
use liaozhai.Common.{
  Bool, Bool-cases, Bytes, List, Option, Text, [], ap, arith, false, inl, inr, leb, none, refl,
  some, sym, true, ℕ, ◌%◌, ◌++◌, ◌+◌, ◌<◌, ◌^◌, ◌∙◌, ◌∷◌, ◌≡◌, ◌⊎◌,
}
use liaozhai.Core.Constants.{
  auth_failed_msg, iac_will_echo, iac_wont_echo, line_too_long_msg, password_prompt,
  username_prompt,
}
use liaozhai.Core.Error.{Error, Result, err, ok}
use liaozhai.Net.Codec.{buffer_overflow, io, line, line_too_long}
use liaozhai.Net.Connection.{
  Clock, Connection, Credentials, Event, Flow, after_verification, apply_to, complete,
  count_failure, count_success, echo_prefix, eof, handle_transition, item, read_error, running,
  send, send_last, shutdown, step,
}
use liaozhai.Net.Output.{LineWriter, write_raw}
use liaozhai.Net.Session.{
  Session, SessionState, Transition, advance, apply_state, auth_pending, authenticating,
  complete_auth, disconnect, handle_input, stay, welcome_output, world_selection,
}
use liaozhai.Net.Session.Input.{advance-Moves, auth_pending_iff}
use liaozhai.Net.Session.Outputs.{
  StartsAscii, as_bytes-StartsAscii, handle_state-stay, long_line_text-StartsAscii,
}
use liaozhai.Text.Trim.{trim}
use liaozhai.Text.Utf8.{as_bytes}

pub write_raw-sent :
    (w : LineWriter) (bytes : Bytes)
    → (write_raw w bytes).1 ≡ true
    → (write_raw w bytes).0.sent ≡ w.sent ++ bytes ∷ []
unfolding write_raw
write_raw-sent w bytes h = frame w.results h
  where
    frame :
        (results : List Bool)
        → (write_raw (record w { results = results }) bytes).1 ≡ true
        → (write_raw (record w { results = results }) bytes).0.sent ≡ w.sent ++ bytes ∷ []
    frame [] h = refl
    frame (true ∷ rs) h = refl
    frame (false ∷ rs) h = ground arith

-- What was sent answers_line, with one frame more if the write succeeded.
pub write_raw-cases :
    (w : LineWriter) (bytes : Bytes)
    → ((write_raw w bytes).0.sent ≡ w.sent ++ bytes ∷ []) ⊎ ((write_raw w bytes).0.sent ≡ w.sent)
unfolding write_raw
write_raw-cases w bytes = frame w.results
  where
    frame :
        (results : List Bool)
        → ((write_raw (record w { results = results }) bytes).0.sent ≡ w.sent ++ bytes ∷ [])
          ⊎ ((write_raw (record w { results = results }) bytes).0.sent ≡ w.sent)
    frame [] = inl refl
    frame (true ∷ rs) = inl refl
    frame (false ∷ rs) = inr refl

-- The event is a line, which is `given` when it is trimmed.
pub record Types (e : Event) (t : Clock) (given : Text) : Type 0 where
  pub input : Text
  pub arrives : e ≡ item t (line input)
  pub trims : given ≡ trim input

-- What is shown: the answer to a line with which the session answers_line where it is, or the notice of a
-- line that was too long.
pub data Shows (s : Session) (e : Event) (text : Bytes) : Type 0 where
  answers_line :
      (t : Clock) (input output : Text)
      → e ≡ item t (line input)
      → handle_input s input ≡ stay output
      → text ≡ as_bytes output
      → Shows s e text
  notes_length :
      (t : Clock) → e ≡ item t line_too_long → text ≡ as_bytes line_too_long_msg → Shows s e text

module _ (creds : Credentials) (max_login_attempts : ℕ) (peer : IpAddr) where
  -- A send behind which the loop went on has succeeded.
  pub send-running :
      (c d : Connection creds max_login_attempts peer) (bytes : Bytes)
      (k : Connection creds max_login_attempts peer → Flow creds max_login_attempts peer)
      → send creds max_login_attempts peer c bytes k ≡ running d
      → (w : LineWriter) × (w.sent ≡ c.writer.sent ++ bytes ∷ [])
        × (k (record c { writer = w }) ≡ running d)
  unfolding send
  send-running c d bytes k h = elim (Bool-cases (write_raw c.writer bytes).1) [
    | inl e ↦ ((write_raw c.writer bytes).0, write_raw-sent c.writer bytes e, ground arith)
    | inr e ↦ ground arith
  ]

  -- The four ways for the loop to go on from an event: something is shown and nothing else changes; a
  -- name was given and its password is asked for, with the echo masked; the password was right; it
  -- was wrong.
  pub data Passed (c d : Connection creds max_login_attempts peer) (e : Event) : Type 0 where
    shown :
        (text : Bytes)
        → Shows c.session e text
        → StartsAscii text
        → d.session ≡ c.session
        → d.auth_failures ≡ c.auth_failures
        → d.writer.sent ≡ c.writer.sent ++ text ∷ []
        → Passed c d e
    asked :
        (t : Clock) (name : Text)
        → Types e t name
        → c.session.state ≡ authenticating none
        → d.session ≡ apply_state c.session (authenticating (some name))
        → d.auth_failures ≡ c.auth_failures
        → d.writer.sent ≡ c.writer.sent ++ (iac_will_echo ++ as_bytes password_prompt) ∷ []
        → Passed c d e
    logged_in :
        (t : Clock) (name password : Text) (account : Account)
        → Types e t password
        → c.session.state ≡ authenticating (some name)
        → creds.verify c.store name password ≡ ok (some account)
        → d.session ≡ apply_state c.session (world_selection account)
        → d.auth_failures ≡ c.auth_failures
        → d.limiter ≡ reset c.limiter peer
        → d.writer.sent
          ≡ (c.writer.sent ++ iac_wont_echo ∷ [])
            ++ as_bytes (welcome_output c.session account) ∷ []
        → Passed c d e
    refused :
        (t : Clock) (name password : Text)
        → Types e t password
        → c.session.state ≡ authenticating (some name)
        → creds.verify c.store name password ≡ ok none
        → d.session ≡ apply_state c.session (authenticating none)
        → d.auth_failures ≡ (c.auth_failures + 1) % 2 ^ 32
        → d.auth_failures < max_login_attempts
        → d.limiter ≡ record_failure c.limiter t.pruned_at t.now peer
        → d.writer.sent
          ≡ (c.writer.sent ++ iac_wont_echo ∷ [])
            ++ as_bytes (auth_failed_msg ++ username_prompt) ∷ []
        → Passed c d e

  pub running-inj :
      {a b : Connection creds max_login_attempts peer}
      → ◌≡◌ {A = Flow creds max_login_attempts peer} (running a) (running b)
      → a ≡ b
  running-inj h = cc

  send-shown :
      (c d : Connection creds max_login_attempts peer) (e : Event) (text : Text)
      → Shows c.session e (as_bytes text)
      → StartsAscii text
      → send creds max_login_attempts peer c (as_bytes text) running ≡ running d
      → Passed c d e
  send-shown c d e text how starts h =
      let (w, sent, last) = send-running c d (as_bytes text) running h in
      let same = running-inj last in
      shown (as_bytes text) how (as_bytes-StartsAscii text starts) (sym (ap (λ x. x.session) same))
        (sym (ap (λ x. x.auth_failures) same)) (ap (λ x. x.writer.sent) (sym same) ∙ sent)

  complete-running :
      (c d : Connection creds max_login_attempts peer) (next : SessionState) (output : Text)
      → complete creds max_login_attempts peer c (advance next output) ≡ running d
      → (w : LineWriter) × (w.sent ≡ c.writer.sent ++ as_bytes output ∷ [])
        × (d ≡ record c { writer = w; session = apply_state c.session next })
  unfolding complete
  complete-running c d next output h =
      let (w, sent, last) =
        send-running c d (as_bytes output)
          (λ x. running (apply_to creds max_login_attempts peer x next)) h in
      (w, sent, sym (running-inj last))

  verified-Passed :
      (c d : Connection creds max_login_attempts peer) (e : Event) (t : Clock) (w : LineWriter)
      (name password : Text) (result : Result Error (Option Account))
      → Types e t password
      → w.sent ≡ c.writer.sent ++ iac_wont_echo ∷ []
      → c.session.state ≡ authenticating (some name)
      → creds.verify c.store name password ≡ result
      → after_verification creds max_login_attempts peer (record c { writer = w }) t result
        ≡ running d
      → Passed c d e
  unfolding after_verification complete_auth count_failure count_success send_last
  verified-Passed c d e t w name password (err x) given sent st v h = ground arith
  verified-Passed c d e t w name password (ok (some a)) given sent st v h =
      let (w', sent', same) =
        complete-running (count_success creds max_login_attempts peer (record c { writer = w }) t a)
          d _ _ h in
      logged_in t name password a given st v (ap (λ x. x.session) same)
        (ap (λ x. x.auth_failures) same) (ap (λ x. x.limiter) same)
        (ap (λ x. x.writer.sent) same
          ∙ sent'
          ∙ ap (λ x. x ++ as_bytes (welcome_output c.session a) ∷ []) sent)
  verified-Passed c d e t w name password (ok none) given sent st v h =
      let c' = count_failure creds max_login_attempts peer (record c { writer = w }) t in
      elim (Bool-cases (leb max_login_attempts c'.auth_failures)) [
        | inl many ↦ ground arith
        | inr few ↦
            let (w', sent', same) =
              complete-running c' d (authenticating none) (auth_failed_msg ++ username_prompt)
                (ground arith) in
            refused t name password given st v (ap (λ x. x.session) same)
              (ap (λ x. x.auth_failures) same)
              (let f = ap (λ x. x.auth_failures) same in ground arith) (ap (λ x. x.limiter) same)
              (ap (λ x. x.writer.sent) same
                ∙ sent'
                ∙ ap (λ x. x ++ as_bytes (auth_failed_msg ++ username_prompt) ∷ []) sent)
      ]

  transition-Passed :
      (c d : Connection creds max_login_attempts peer) (t : Clock) (input : Text) (tr : Transition)
      → handle_input c.session input ≡ tr
      → handle_transition creds max_login_attempts peer c t tr ≡ running d
      → Passed c d (item t (line input))
  unfolding handle_transition send_last handle_input echo_prefix
  transition-Passed c d t input (stay output) g h =
      send-shown c d _ output (answers_line t input output refl g refl)
        (handle_state-stay c.session.state c.session.registry input output g) h
  transition-Passed c d t input (advance next output) g h =
      let m = advance-Moves c.session input next output g in
      let (w, sent, last) =
        send-running c d (echo_prefix next ++ as_bytes output)
          (λ x. running (apply_to creds max_login_attempts peer x next)) h in
      let same = sym (running-inj last) in
      asked t (trim input) (record { input = input; arrives = refl; trims = refl }) m.before
        (ap (λ x. x.session) same ∙ ap (apply_state c.session) m.behind)
        (ap (λ x. x.auth_failures) same)
        (ap (λ x. x.writer.sent) same
          ∙ sent
          ∙ ap (λ st. c.writer.sent ++ (echo_prefix st ++ as_bytes output) ∷ []) m.behind
          ∙ ap (λ o. c.writer.sent ++ (iac_will_echo ++ as_bytes o) ∷ []) m.prompts)
  transition-Passed c d t input (auth_pending username password) g h =
      let p = (auth_pending_iff c.session input username password).0 g in
      let (w, sent, last) =
        send-running c d iac_wont_echo
          (λ x.
            after_verification creds max_login_attempts peer x t
              (creds.verify x.store username password))
          h in
      verified-Passed c d _ t w username password _
        (record { input = input; arrives = refl; trims = p.typed }) sent p.state refl last
  transition-Passed c d t input (disconnect goodbye) g h = ground arith

  counted-Passed :
      (c d : Connection creds max_login_attempts peer) (e : Event) (n : ℕ)
      → Passed (record c { line_count = n }) d e
      → Passed c d e
  counted-Passed c d e n (shown text how a s f w) = shown text how a s f w
  counted-Passed c d e n (asked t name how st s f w) = asked t name how st s f w
  counted-Passed c d e n (logged_in t name password account how st v s f l w) =
      logged_in t name password account how st v s f l w
  counted-Passed c d e n (refused t name password how st v s f few l w) =
      refused t name password how st v s f few l w

  -- Wherever the loop goes on behind an event, one of four things has happened. A text was shown, the
  -- answer to a line with which the session answers_line or the notice of a line that was too long, and
  -- session and count of failures are the same. Or the client was asked for its name and typed one:
  -- the session keeps it, trimmed, and the prompt for the password was sent with the echo masked. Or
  -- the store has verified the line, trimmed, as the password of that name: the echo and then the
  -- welcome of that account were sent, the session is at the selection of a world for it, and the
  -- limiter has forgotten the peer. Or the store has refused it: the echo and then the notice with the
  -- prompt for a name were sent, the session asks for a name again, and the failure is counted, in the
  -- limiter too, at the times of the event, and below `max_login_attempts`.
  pub step-Passed :
      (c d : Connection creds max_login_attempts peer) (e : Event)
      → step creds max_login_attempts peer c e ≡ running d
      → Passed c d e
  unfolding step send_last
  step-Passed c d shutdown h = ground arith
  step-Passed c d (item t (line text)) h =
      let n = (c.line_count + 1) % 2 ^ 64 in
      counted-Passed c d _ n (transition-Passed (record c { line_count = n }) d t text _ refl h)
  step-Passed c d (item t line_too_long) h =
      send-shown c d _ line_too_long_msg (notes_length t refl refl) long_line_text-StartsAscii h
  step-Passed c d (read_error (buffer_overflow max)) h = ground arith
  step-Passed c d (read_error (io e)) h = ground arith
  step-Passed c d eof h = ground arith
