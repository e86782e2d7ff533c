-- ===== src/Net/Connection/Interleaved.antt =====
-- Many connections of connection.rs at once: their passes interleave in any order, each on the limiter
-- and the store as the passes before it have left them.
pub mod Vouched
use mathlib.Core.Path.{subst}
use liaozhai.Auth.RateLimiter.{AuthRateLimiter, Instant, IpAddr}
use liaozhai.Common.{All, All-append, Bool, List, [], false, ℕ, ◌++◌, ◌<◌, ◌∷◌, ◌≡◌, ◌⊎◌}
use liaozhai.Net.Connection.{
  Connection, Credentials, Event, finished, handle_connection, looped, no_banner, running, step,
  turned_away,
}
use liaozhai.Net.Connection.Outcomes.{handle_connection-Reached}
use liaozhai.Net.Connection.Reached.{
  Fresh, Reached, auth_failures-bounds, echo_masked, echo_masked-is_password_input, others, pass,
}
use liaozhai.Net.Output.{LineWriter}
use liaozhai.Net.Session.{is_password_input}
use liaozhai.Worlds.Registry.{WorldRegistry}

module _ (creds : Credentials) (max_login_attempts : ℕ) where
  -- A connection with its peer.
  abbrev pub Live : Type 0
  Live = (peer : IpAddr) × Connection creds max_login_attempts peer

  -- What is shared, and the connections whose loops run.
  pub record World : Type 0 where
    pub limiter : AuthRateLimiter
    pub store : creds.Store
    pub live : List Live

  -- A connection about to take its turn.
  abbrev pub with_shared :
      World
      → (peer : IpAddr) → Connection creds max_login_attempts peer
      → Connection creds max_login_attempts peer
  with_shared w peer c = record c { limiter = w.limiter; store = w.store }

  -- What is shared behind a turn, with the connections that are left.
  abbrev pub behind : (peer : IpAddr) → Connection creds max_login_attempts peer → List Live → World
  behind peer c live = record { limiter = c.limiter; store = c.store; live = live }

  -- The states of a server that began with no connection: clients are accepted, turned away, or
  -- gone before the banner is written, and the loop of some connection takes a pass, with which it
  -- goes on or ends. A pass is one step.
  pub data Serving : World → Type 0 where
    idle :
        (l : AuthRateLimiter) (s : creds.Store)
        → Serving (record { limiter = l; store = s; live = [] })
    accepted :
        (w : World) (peer : IpAddr) (registry : WorldRegistry) (results : List Bool) (now : Instant)
        (d : Connection creds max_login_attempts peer)
        → Serving w
        → handle_connection creds max_login_attempts peer registry results now w.limiter w.store []
          ≡ looped (running d)
        → Serving (behind peer d ((peer, d) ∷ w.live))
    rejected :
        (w : World) (peer : IpAddr) (registry : WorldRegistry) (results : List Bool) (now : Instant)
        (writer : LineWriter) (l : AuthRateLimiter)
        → Serving w
        → handle_connection creds max_login_attempts peer registry results now w.limiter w.store []
          ≡ turned_away writer l
        → Serving (record w { limiter = l })
    ungreeted :
        (w : World) (peer : IpAddr) (registry : WorldRegistry) (results : List Bool) (now : Instant)
        (writer : LineWriter) (l : AuthRateLimiter)
        → Serving w
        → handle_connection creds max_login_attempts peer registry results now w.limiter w.store []
          ≡ no_banner writer l
        → Serving (record w { limiter = l })
    passed :
        (w : World) (before after : List Live) (peer : IpAddr)
        (c d : Connection creds max_login_attempts peer) (e : Event)
        → Serving w
        → w.live ≡ before ++ (peer, c) ∷ after
        → step creds max_login_attempts peer (with_shared w peer c) e ≡ running d
        → Serving (behind peer d (before ++ (peer, d) ∷ after))
    ended :
        (w : World) (before after : List Live) (peer : IpAddr)
        (c d : Connection creds max_login_attempts peer) (e : Event)
        → Serving w
        → w.live ≡ before ++ (peer, c) ∷ after
        → step creds max_login_attempts peer (with_shared w peer c) e ≡ finished d
        → Serving (behind peer d (before ++ after))

  -- A connection that the model of a single one reaches from behind the banner.
  abbrev pub IsReached : Live → Type 0
  IsReached (peer, d) =
      (c : Connection creds max_login_attempts peer) × Fresh creds max_login_attempts peer c
      × Reached creds max_login_attempts peer c d

  All-split :
      (before : List Live) (x : Live) (after : List Live)
      → All IsReached (before ++ x ∷ after)
      → All IsReached before × IsReached x × All IsReached after
  All-split [] x after h = (tt, h.0, h.1)
  All-split (y ∷ before) x after h =
      let (b, i, a) = All-split before x after h.1 in ((h.0, b), i, a)

  -- Among connections that interleave in any order, each is one that the loop of a single connection
  -- reaches from behind the banner, with the others doing anything to what is shared.
  pub Serving-IsReached : (w : World) → Serving w → All IsReached w.live
  Serving-IsReached _ (idle l s) = tt
  Serving-IsReached _ (accepted w peer registry results now d s h) = (
    handle_connection-Reached creds max_login_attempts peer registry results now w.limiter w.store
        [] d h,
    Serving-IsReached w s,
  )
  Serving-IsReached _ (rejected w peer registry results now writer l s h) = Serving-IsReached w s
  Serving-IsReached _ (ungreeted w peer registry results now writer l s h) = Serving-IsReached w s
  Serving-IsReached _ (passed w before after peer c d e s at h) =
      let (b, (first, fresh, r), a) =
        All-split before (peer, c) after (subst (All IsReached) at (Serving-IsReached w s)) in
      All-append IsReached before ((peer, d) ∷ after) b
        ((first, fresh, pass (with_shared w peer c) d e (others c w.limiter w.store r) h), a)
  Serving-IsReached _ (ended w before after peer c d e s at h) =
      let (b, _, a) =
        All-split before (peer, c) after (subst (All IsReached) at (Serving-IsReached w s)) in
      All-append IsReached before after b a

  -- What holds of a connection of its own holds of each connection among many.
  abbrev pub IsSafe : Live → Type 0
  IsSafe (peer, d) =
      (echo_masked false d.writer.sent ≡ is_password_input d.session)
      × ((d.auth_failures ≡ 0) ⊎ (d.auth_failures < max_login_attempts))

  IsReached-IsSafe : (live : List Live) → All IsReached live → All IsSafe live
  IsReached-IsSafe [] h = tt
  IsReached-IsSafe ((peer, d) ∷ live) ((c, f, r), h) = (
    (
      echo_masked-is_password_input creds max_login_attempts peer c d f r,
      auth_failures-bounds creds max_login_attempts peer c d f r,
    ),
    IsReached-IsSafe live h,
  )

  -- However many connections there are and however their passes interleave, on each of them the client
  -- was last told to mask its input exactly if the session waits for a password, and fewer logins have
  -- failed than are allowed, or none.
  pub Serving-IsSafe : (w : World) → Serving w → All IsSafe w.live
  Serving-IsSafe w s = IsReached-IsSafe w.live (Serving-IsReached w s)
