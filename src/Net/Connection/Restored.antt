-- ===== src/Net/Connection/Restored.antt =====
-- Where a line ends the loop of connection.rs, the client is told to show its input again.
use liaozhai.Auth.Account.{Account}
use liaozhai.Auth.RateLimiter.{IpAddr}
use liaozhai.Common.{
  Bool-cases, Bytes, Option, Text, [], arith, false, inl, inr, leb, none, refl, some, sym, ℕ, ◌%◌,
  ◌++◌, ◌+◌, ◌^◌, ◌∙◌, ◌≡◌, ◌≢◌,
}
use liaozhai.Core.Constants.{
  auth_failed_msg, auth_internal_error_msg, auth_max_retries_msg, iac_wont_echo, line_too_long_msg,
  username_prompt,
}
use liaozhai.Core.Error.{Error, Result, err, ok}
use liaozhai.Net.Codec.{CodecItem, line, line_too_long}
use liaozhai.Net.Connection.{
  Clock, Connection, Credentials, after_verification, apply_to, complete, count_failure,
  count_success, echo_prefix, finished, handle_transition, item, running, send, send_last, step,
}
use liaozhai.Net.Connection.Login.{send-sent_frame, sent_frame}
use liaozhai.Net.Connection.Outcomes.{send_last-masked}
use liaozhai.Net.Connection.Reached.{
  Fresh, Reached, echo_after-wont, echo_masked, echo_masked-append, echo_masked-is_password_input,
}
use liaozhai.Net.Output.{write_raw}
use liaozhai.Net.Session.{
  SessionState, Transition, advance, auth_pending, authenticating, complete_auth, disconnect,
  handle_input, is_password_input, stay,
}
use liaozhai.Net.Session.Outputs.{
  handle_state-disconnect, internal_error_text-StartsAscii, max_retries_text-StartsAscii,
}
use liaozhai.Text.Utf8.{as_bytes}

module _ (creds : Credentials) (max_login_attempts : ℕ) (peer : IpAddr) where
  -- A write that succeeds, and behind which the loop goes on, does not end it.
  sent-finished :
      (c d : Connection creds max_login_attempts peer) (bytes : Bytes)
      (f : Connection creds max_login_attempts peer → Connection creds max_login_attempts peer)
      → c.writer.results ≡ []
      → send creds max_login_attempts peer c bytes (λ x. running (f x)) ≢ finished d
  sent-finished c d bytes f e h =
      let goes_on = send-sent_frame creds max_login_attempts peer c bytes (λ x. running (f x)) e in
      ground arith

  complete-finished :
      (c d : Connection creds max_login_attempts peer) (next : SessionState) (output : Text)
      → c.writer.results ≡ []
      → complete creds max_login_attempts peer c (advance next output) ≢ finished d
  unfolding complete
  complete-finished c d next output e =
      sent-finished c d (as_bytes output) (λ x. apply_to creds max_login_attempts peer x next) e

  verified-shown :
      (c d : Connection creds max_login_attempts peer) (t : Clock)
      (result : Result Error (Option Account))
      → c.writer.results ≡ []
      → echo_masked false c.writer.sent ≡ false
      → after_verification creds max_login_attempts peer c t result ≡ finished d
      → echo_masked false d.writer.sent ≡ false
  unfolding after_verification complete_auth count_success count_failure
  verified-shown c d t (err x) e m h =
      send_last-masked creds max_login_attempts peer c d auth_internal_error_msg
        internal_error_text-StartsAscii h
      ∙ m
  verified-shown c d t (ok (some a)) e m h =
      absurd (complete-finished (count_success creds max_login_attempts peer c t a) d _ _ e h)
  verified-shown c d t (ok none) e m h =
      let f = count_failure creds max_login_attempts peer c t in
      elim (Bool-cases (leb max_login_attempts f.auth_failures)) [
        | inl many ↦
            send_last-masked creds max_login_attempts peer f d auth_max_retries_msg
              max_retries_text-StartsAscii (ground arith)
            ∙ m
        | inr few ↦ absurd (
            complete-finished f d (authenticating none) (auth_failed_msg ++ username_prompt) e
              (ground arith))
      ]

  restored :
      (c : Connection creds max_login_attempts peer)
      → echo_masked false (sent_frame creds max_login_attempts peer c iac_wont_echo).writer.sent
        ≡ false
  restored c = echo_masked-append false c.writer.sent iac_wont_echo ∙ echo_after-wont _

  transition-shown :
      (c d : Connection creds max_login_attempts peer) (t : Clock) (input : Text) (tr : Transition)
      → handle_input c.session input ≡ tr
      → c.writer.results ≡ []
      → echo_masked false c.writer.sent ≡ is_password_input c.session
      → handle_transition creds max_login_attempts peer c t tr ≡ finished d
      → echo_masked false d.writer.sent ≡ false
  unfolding handle_transition handle_input write_raw
  transition-shown c d t input (stay output) g e m h =
      absurd (sent-finished c d (as_bytes output) (λ x. x) e h)
  transition-shown c d t input (advance next output) g e m h = absurd (
      sent-finished c d (echo_prefix next ++ as_bytes output)
        (λ x. apply_to creds max_login_attempts peer x next) e h)
  transition-shown c d t input (auth_pending username password) g e m h =
      let c' = sent_frame creds max_login_attempts peer c iac_wont_echo in
      let sent =
        send-sent_frame creds max_login_attempts peer c iac_wont_echo
          (λ x.
            after_verification creds max_login_attempts peer x t
              (creds.verify x.store username password))
          e in
      verified-shown c' d t (creds.verify c.store username password) e (restored c) (sym sent ∙ h)
  transition-shown c d t input (disconnect goodbye) g e m h =
      let starts = handle_state-disconnect c.session.state c.session.registry input goodbye g in
      elim (Bool-cases (is_password_input c.session)) [
        | inl waits ↦
            let c' = sent_frame creds max_login_attempts peer c iac_wont_echo in
            let last : send_last creds max_login_attempts peer c' (as_bytes goodbye) ≡ finished d =
              sym (rw waits (rw e refl)) ∙ h in
            send_last-masked creds max_login_attempts peer c' d goodbye starts last ∙ restored c
        | inr shows ↦
            send_last-masked creds max_login_attempts peer c d goodbye starts
              (sym (rw shows refl) ∙ h)
            ∙ m
            ∙ shows
      ]

  -- A line with which the loop ends, where it has gone on from behind the banner and the writes
  -- succeed, leaves the client told to show its input: after a command to quit, the choice of a world,
  -- the last failure and an error of the store.
  pub line-echo_masked :
      (c d d' : Connection creds max_login_attempts peer) (t : Clock) (i : CodecItem)
      → Fresh creds max_login_attempts peer c
      → Reached creds max_login_attempts peer c d
      → d.writer.results ≡ []
      → step creds max_login_attempts peer d (item t i) ≡ finished d'
      → echo_masked false d'.writer.sent ≡ false
  unfolding step
  line-echo_masked c d d' t (line text) f r e h =
      transition-shown (record d { line_count = (d.line_count + 1) % 2 ^ 64 }) d' t text _ refl e
        (echo_masked-is_password_input creds max_login_attempts peer c d f r) h
  line-echo_masked c d d' t line_too_long f r e h =
      absurd (sent-finished d d' (as_bytes line_too_long_msg) (λ x. x) e h)
