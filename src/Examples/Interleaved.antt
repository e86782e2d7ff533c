-- ===== src/Examples/Interleaved.antt =====
-- The theorem on a server with its connections at a concrete input: two clients, one of which gives
-- its name.
use liaozhai.Auth.RateLimiter.{get, is_throttled}
use liaozhai.Common.{All, [], arith, length, refl, ◌+◌, ◌∷◌, ◌≡◌}
use liaozhai.Examples.Connection.{asked_alice, asks, greeted, limiter, named, one_account, registry}
use liaozhai.Net.Connection.{handle_connection, looped, run, running, start}
use liaozhai.Net.Connection.Interleaved.{IsSafe, World, behind}
use liaozhai.Net.Output.{write_raw}
use liaozhai.Server.Listener.{Listener, accept, listen_step, new_listener}
use liaozhai.Server.Startup.Hosted.{Hosted, Hosted-IsSafe, begins, no_permit, opens, passes}

abbrev pub empty_world : World one_account 3
empty_world = record { limiter = limiter; store = tt; live = [] }

pub first_greeted :
    handle_connection one_account 3 1 registry [] 100 limiter tt [] ≡ looped (running greeted)
unfolding handle_connection start run is_throttled get write_raw
first_greeted = refl

abbrev pub one_client : World one_account 3
one_client = behind one_account 3 1 greeted ((1, greeted) ∷ [])

-- A server with one permit, which the first client takes and the second does not get.
abbrev one_permit : Listener
one_permit = listen_step (listen_step (new_listener 1) (accept 0)) (accept 1)

abbrev pub named_alone : World one_account 3
named_alone = behind one_account 3 1 asked_alice ((1, asked_alice) ∷ [])

hosts : Hosted one_account 3 1 one_permit named_alone
unfolding listen_step
hosts =
    passes one_permit one_client [] [] 1 greeted asked_alice named
      (no_permit (listen_step (new_listener 1) (accept 0)) one_client 1
        (begins (new_listener 1) empty_world 0 1 registry [] 100 greeted (opens limiter tt)
          (omega arith) refl first_greeted)
        refl)
      refl asks

Hosted-IsSafe_example :
    (one_permit.permits + length named_alone.live ≡ 1) × All (IsSafe one_account 3) named_alone.live
Hosted-IsSafe_example = Hosted-IsSafe one_account 3 1 one_permit named_alone hosts
