-- ===== src/Net/Connection/Lockout.antt =====
-- A client that gives wrong passwords to connection.rs, where its writes succeed.
use liaozhai.Auth.RateLimiter.{IpAddr}
use liaozhai.Common.{
  All, List, Text, [], arith, false, if◌then◌else◌, leb, length, le→leb, none, refl, true, ℕ, ◌%◌,
  ◌+◌, ◌<◌, ◌^◌, ◌∙◌, ◌∷◌, ◌≡◌,
}
use liaozhai.Core.Error.{ok}
use liaozhai.Net.Codec.{line}
use liaozhai.Net.Connection.{
  Clock, Connection, Credentials, Event, count_failure, finished, item, run, running, then_run,
}
use liaozhai.Net.Connection.Login.{
  Gives, asked_for, refused_last, refused_once, step-name, step-refused,
}
use liaozhai.Net.Output.{shut_down}
use liaozhai.Net.Session.{authenticating}

-- A name and a password, with the lines that they are read from.
pub record Attempt : Type 0 where
  pub named_at : Clock
  pub answered_at : Clock
  pub first : Text
  pub second : Text
  pub name : Text
  pub password : Text

abbrev pub events_of : List Attempt → List Event → List Event
events_of [] later = later
events_of (x ∷ xs) later =
    item x.named_at (line x.first) ∷ item x.answered_at (line x.second) ∷ events_of xs later

module _ (creds : Credentials) (max_login_attempts : ℕ) (peer : IpAddr) where
  -- An attempt that the store refuses.
  pub record IsWrong (store : creds.Store) (x : Attempt) : Type 0 where
    pub gives_name : Gives x.first x.name
    pub gives_password : Gives x.second x.password
    pub refuses : creds.verify store x.name x.password ≡ ok none

  pub run-attempt :
      (c : Connection creds max_login_attempts peer) (x : Attempt) (es : List Event)
      → c.writer.results ≡ []
      → c.session.state ≡ authenticating none
      → IsWrong c.store x
      → run creds max_login_attempts peer c (events_of (x ∷ []) es)
        ≡ then_run creds max_login_attempts peer
            (λ d. run creds max_login_attempts peer d es)
            (if leb max_login_attempts ((c.auth_failures + 1) % 2 ^ 32)
              then finished (
                  refused_last creds max_login_attempts peer
                    (asked_for creds max_login_attempts peer c x.name)
                    x.answered_at)
              else running (
                  refused_once creds max_login_attempts peer
                    (asked_for creds max_login_attempts peer c x.name)
                    x.answered_at))
  unfolding run
  run-attempt c x es e st w =
      rw
        (
          step-name creds max_login_attempts peer c x.named_at x.first x.name e st w.gives_name,
          step-refused creds max_login_attempts peer
              (asked_for creds max_login_attempts peer c x.name) x.answered_at x.second x.name
              x.password e refl w.gives_password w.refuses,
        )
        refl

  -- A client is cut off at the wrong password that makes `max_login_attempts`: the loop ends there
  -- with the count at the limit, the write half shut down and the store as it was, whatever follows.
  pub run-max_login_attempts :
      (c : Connection creds max_login_attempts peer) (attempts : List Attempt) (later : List Event)
      → c.writer.results ≡ []
      → c.session.state ≡ authenticating none
      → All (IsWrong c.store) attempts
      → 0 < length attempts
      → c.auth_failures + length attempts ≡ max_login_attempts
      → max_login_attempts < 2 ^ 32
      → (d : Connection creds max_login_attempts peer) × (run creds max_login_attempts peer c
            (events_of attempts later)
          ≡ finished d)
        × (d.auth_failures ≡ max_login_attempts)
        × (d.writer.closed ≡ true)
        × (d.store ≡ c.store)
  unfolding count_failure
  run-max_login_attempts c [] later e st w pos n small = absurd (omega arith)
  run-max_login_attempts c (x ∷ []) later e st w pos n small =
      let reached : (c.auth_failures + 1) % 2 ^ 32 ≡ max_login_attempts = omega arith in
      let full : leb max_login_attempts ((c.auth_failures + 1) % 2 ^ 32) ≡ true =
        le→leb max_login_attempts _ (omega arith) in
      let c' =
        refused_last creds max_login_attempts peer
          (asked_for creds max_login_attempts peer c x.name) x.answered_at in
      (
        record c' { writer = shut_down c'.writer },
        run-attempt c x later e st w.0 ∙ rw full refl,
        reached,
        refl,
        refl,
      )
  run-max_login_attempts c (x ∷ y ∷ xs) later e st w pos n small =
      let counted : (c.auth_failures + 1) % 2 ^ 32 ≡ c.auth_failures + 1 = omega arith in
      let open_ : leb max_login_attempts ((c.auth_failures + 1) % 2 ^ 32) ≡ false =
        ground (arith, counted) in
      let c' =
        refused_once creds max_login_attempts peer
          (asked_for creds max_login_attempts peer c x.name) x.answered_at in
      let (d, ends, count, closed, kept) =
        run-max_login_attempts c' (y ∷ xs) later e refl w.1 (omega arith) (omega (arith, counted))
          small in
      (d, run-attempt c x (events_of (y ∷ xs) later) e st w.0 ∙ rw open_ ends, count, closed, kept)
