-- ===== src/Server/Startup/Hosted.antt =====
-- The server while it runs: the accept loop of listener.rs with the tasks that it spawns, each the
-- handler of connection.rs. A task holds its permit until the handler returns. The connections that
-- run stand in the order of their tasks.
use liaozhai.Auth.RateLimiter.{AuthRateLimiter, Instant, IpAddr}
use liaozhai.Common.{
  All, Bool, List, [], ap, arith, false, get_elem?, length, length-append, refl, some, suc, sym, ℕ,
  ◌++◌, ◌+◌, ◌<◌, ◌∙◌, ◌∷◌, ◌≡◌,
}
use liaozhai.Net.Connection.{
  Connection, Credentials, Event, finished, handle_connection, looped, no_banner, running, step,
  turned_away,
}
use liaozhai.Net.Connection.Interleaved.{
  IsSafe, Live, Serving, Serving-IsSafe, World, accepted, behind, idle, rejected, with_shared,
}
use liaozhai.Net.Output.{LineWriter}
use liaozhai.Server.Listener.{
  Listener, accept, accept_error, has_task, length-drop_task, listen_step, listen_step-permits,
  new_listener, task_done,
}
use liaozhai.Server.Listener.Active.{
  active-accept, active-accept-task_done, active-accept_error, active-full, active-task_done,
  has_task-get_elem?,
}
use liaozhai.Worlds.Registry.{WorldRegistry}

module _ (creds : Credentials) (max_login_attempts : ℕ) where
  -- The states of a server that was opened with `max_connections` permits. A client comes in for a
  -- task of its own; without a permit it is turned away, and with one it is served, or its handler
  -- returns at once; a connection takes a pass, with which it goes on, or its task ends.
  pub data Hosted (max_connections : ℕ) : Listener → World creds max_login_attempts → Type 0 where
    opens :
        (limiter : AuthRateLimiter) (s : creds.Store)
        → Hosted max_connections
            (new_listener max_connections)
            (record { limiter = limiter; store = s; live = [] })
    no_accept :
        (l : Listener) (w : World creds max_login_attempts)
        → Hosted max_connections l w
        → Hosted max_connections (listen_step l accept_error) w
    no_permit :
        (l : Listener) (w : World creds max_login_attempts) (task : ℕ)
        → Hosted max_connections l w
        → l.permits ≡ 0
        → Hosted max_connections (listen_step l (accept task)) w
    begins :
        (l : Listener) (w : World creds max_login_attempts) (task : ℕ) (peer : IpAddr)
        (registry : WorldRegistry) (results : List Bool) (now : Instant)
        (d : Connection creds max_login_attempts peer)
        → Hosted max_connections l w
        → 0 < l.permits
        → has_task task l.active ≡ false
        → handle_connection creds max_login_attempts peer registry results now w.limiter w.store []
          ≡ looped (running d)
        → Hosted max_connections
            (listen_step l (accept task))
            (behind creds max_login_attempts peer d ((peer, d) ∷ w.live))
    is_refused :
        (l : Listener) (w : World creds max_login_attempts) (task : ℕ) (peer : IpAddr)
        (registry : WorldRegistry) (results : List Bool) (now : Instant) (writer : LineWriter)
        (limiter : AuthRateLimiter)
        → Hosted max_connections l w
        → 0 < l.permits
        → has_task task l.active ≡ false
        → handle_connection creds max_login_attempts peer registry results now w.limiter w.store []
          ≡ turned_away writer limiter
        → Hosted max_connections
            (listen_step (listen_step l (accept task)) (task_done task))
            (record w { limiter = limiter })
    no_greeting :
        (l : Listener) (w : World creds max_login_attempts) (task : ℕ) (peer : IpAddr)
        (registry : WorldRegistry) (results : List Bool) (now : Instant) (writer : LineWriter)
        (limiter : AuthRateLimiter)
        → Hosted max_connections l w
        → 0 < l.permits
        → has_task task l.active ≡ false
        → handle_connection creds max_login_attempts peer registry results now w.limiter w.store []
          ≡ no_banner writer limiter
        → Hosted max_connections
            (listen_step (listen_step l (accept task)) (task_done task))
            (record w { limiter = limiter })
    passes :
        (l : Listener) (w : World creds max_login_attempts)
        (before after : List (Live creds max_login_attempts)) (peer : IpAddr)
        (c d : Connection creds max_login_attempts peer) (e : Event)
        → Hosted max_connections l w
        → w.live ≡ before ++ (peer, c) ∷ after
        → step creds max_login_attempts peer (with_shared creds max_login_attempts w peer c) e
          ≡ running d
        → Hosted max_connections l
            (behind creds max_login_attempts peer d (before ++ (peer, d) ∷ after))
    leaves :
        (l : Listener) (w : World creds max_login_attempts)
        (before after : List (Live creds max_login_attempts)) (peer : IpAddr)
        (c d : Connection creds max_login_attempts peer) (e : Event) (task : ℕ)
        → Hosted max_connections l w
        → w.live ≡ before ++ (peer, c) ∷ after
        → get_elem? l.active (length before) ≡ some task
        → step creds max_login_attempts peer (with_shared creds max_login_attempts w peer c) e
          ≡ finished d
        → Hosted max_connections
            (listen_step l (task_done task))
            (behind creds max_login_attempts peer d (before ++ after))

  Hosted-Serving :
      (max_connections : ℕ) (l : Listener) (w : World creds max_login_attempts)
      → Hosted max_connections l w
      → Serving creds max_login_attempts w
  Hosted-Serving n _ _ (opens limiter s) = idle limiter s
  Hosted-Serving n _ _ (no_accept l w h) = Hosted-Serving n l w h
  Hosted-Serving n _ _ (no_permit l w task h z) = Hosted-Serving n l w h
  Hosted-Serving n _ _ (begins l w task peer registry results now d h p f g) =
      accepted w peer registry results now d (Hosted-Serving n l w h) g
  Hosted-Serving n _ _ (is_refused l w task peer registry results now writer limiter h p f g) =
      rejected w peer registry results now writer limiter (Hosted-Serving n l w h) g
  Hosted-Serving n _ _ (no_greeting l w task peer registry results now writer limiter h p f g) =
      Serving.ungreeted w peer registry results now writer limiter (Hosted-Serving n l w h) g
  Hosted-Serving n _ _ (passes l w before after peer c d e h at_ g) =
      Serving.passed w before after peer c d e (Hosted-Serving n l w h) at_ g
  Hosted-Serving n _ _ (leaves l w before after peer c d e task h at_ here g) =
      Serving.ended w before after peer c d e (Hosted-Serving n l w h) at_ g

  -- Each connection has a task, and each task that runs a connection.
  Hosted-active :
      (max_connections : ℕ) (l : Listener) (w : World creds max_login_attempts)
      → Hosted max_connections l w
      → length l.active ≡ length w.live
  Hosted-active n _ _ (opens limiter s) = refl
  Hosted-active n _ _ (no_accept l w h) = ap length (active-accept_error l) ∙ Hosted-active n l w h
  Hosted-active n _ _ (no_permit l w task h z) =
      ap length (active-full l task z) ∙ Hosted-active n l w h
  Hosted-active n _ _ (begins l w task peer registry results now d h p f g) =
      ap length (active-accept l task p) ∙ ap (λ k. suc k) (Hosted-active n l w h)
  Hosted-active n _ _ (is_refused l w task peer registry results now writer limiter h p f g) =
      ap length (active-accept-task_done l task p) ∙ Hosted-active n l w h
  Hosted-active n _ _ (no_greeting l w task peer registry results now writer limiter h p f g) =
      ap length (active-accept-task_done l task p) ∙ Hosted-active n l w h
  Hosted-active n _ _ (passes l w before after peer c d e h at_ g) =
      Hosted-active n l w h
      ∙ ap length at_
      ∙ length-append before ((peer, c) ∷ after)
      ∙ sym (length-append before ((peer, d) ∷ after))
  Hosted-active n _ _ (leaves l w before after peer c d e task h at_ here g) =
      let there = has_task-get_elem? task l.active (length before) here in
      let fewer = length-drop_task task l.active there in
      let now = ap length (active-task_done l task there) in
      let old = Hosted-active n l w h in
      let all = ap length at_ ∙ length-append before ((peer, c) ∷ after) in
      omega (arith, length-append before after)

  Hosted-permits :
      (max_connections : ℕ) (l : Listener) (w : World creds max_login_attempts)
      → Hosted max_connections l w
      → l.permits + length l.active ≡ max_connections
  Hosted-permits n _ _ (opens limiter s) = omega arith
  Hosted-permits n _ _ (no_accept l w h) =
      listen_step-permits l accept_error ∙ Hosted-permits n l w h
  Hosted-permits n _ _ (no_permit l w task h z) =
      listen_step-permits l (accept task) ∙ Hosted-permits n l w h
  Hosted-permits n _ _ (begins l w task peer registry results now d h p f g) =
      listen_step-permits l (accept task) ∙ Hosted-permits n l w h
  Hosted-permits n _ _ (is_refused l w task peer registry results now writer limiter h p f g) =
      listen_step-permits (listen_step l (accept task)) (task_done task)
      ∙ listen_step-permits l (accept task)
      ∙ Hosted-permits n l w h
  Hosted-permits n _ _ (no_greeting l w task peer registry results now writer limiter h p f g) =
      listen_step-permits (listen_step l (accept task)) (task_done task)
      ∙ listen_step-permits l (accept task)
      ∙ Hosted-permits n l w h
  Hosted-permits n _ _ (passes l w before after peer c d e h at_ g) = Hosted-permits n l w h
  Hosted-permits n _ _ (leaves l w before after peer c d e task h at_ here g) =
      listen_step-permits l (task_done task) ∙ Hosted-permits n l w h

  -- Whatever clients come in and however the passes of their connections interleave, the free permits
  -- and the connections that run add up to `max_connections`. On each of them the client was last
  -- told to mask its input exactly if the session waits for a password, and fewer logins have failed
  -- than are allowed, or none.
  pub Hosted-IsSafe :
      (max_connections : ℕ) (l : Listener) (w : World creds max_login_attempts)
      → Hosted max_connections l w
      → (l.permits + length w.live ≡ max_connections) × All (IsSafe creds max_login_attempts) w.live
  Hosted-IsSafe n l w h =
      let tasks = Hosted-active n l w h in
      let permits = Hosted-permits n l w h in
      (
        omega (arith, tasks, permits),
        Serving-IsSafe creds max_login_attempts w (Hosted-Serving n l w h),
      )
