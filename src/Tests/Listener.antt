-- ===== src/Tests/Listener.antt =====
-- The tests of crates/liaozhai-server/src/listener.rs, as far as they are about permits and the drain.
-- A client is a task, and what it does is when its task ends.
use liaozhai.Common.{
  Bool, List, Text, [], codes, false, is_empty, refl, true, ℕ, ◌&&◌, ◌==◌, ◌∷◌, ◌≡◌,
}
use liaozhai.Net.Output.{LineWriter, write_raw}
use liaozhai.Server.Listener.{
  accept, accept_loop, drop_task, has_task, listen_step, new_listener, task_done, turn_away,
}
use liaozhai.Server.Listener.Drain.{DrainResult, drain, drained, remaining}
use liaozhai.Tests.{contains_text, every, starts_with}
use liaozhai.Text.Template.{strip_prefix}
use liaozhai.Text.Utf8.{as_bytes, utf8_char}

abbrev turned_away_with : Text → List LineWriter → Bool
turned_away_with part [] = false
turned_away_with part (w ∷ ws) =
    is_empty ws
    && w.closed
    && elim w.sent [ [] ↦ false | frame ∷ frames ↦ contains_text frame part ]

abbrev max_connections_rejects_excess : Bool
max_connections_rejects_excess =
    turned_away_with (codes "Server is full")
      (accept_loop (new_listener 2) (accept 0 ∷ accept 1 ∷ accept 2 ∷ [])).rejected

abbrev semaphore_released_on_disconnect : Bool
semaphore_released_on_disconnect =
    let l = accept_loop (new_listener 1) (accept 0 ∷ task_done 0 ∷ accept 1 ∷ []) in
    has_task 1 l.active && is_empty l.rejected

abbrev is_drained : ℕ → DrainResult → Bool
is_drained n (drained m) = m == n
is_drained n (remaining m) = false

abbrev is_remaining : ℕ → DrainResult → Bool
is_remaining n (drained m) = false
is_remaining n (remaining m) = m == n

abbrev shutdown_signal_drains_active_connections : Bool
shutdown_signal_drains_active_connections =
    let l = accept_loop (new_listener 10) (accept 0 ∷ accept 1 ∷ []) in
    is_drained 2 (drain 5000 0 l.join_set ((1, 0) ∷ (1, 1) ∷ []))

abbrev shutdown_drain_timeout_abandons_stuck_clients : Bool
shutdown_drain_timeout_abandons_stuck_clients =
    let l = accept_loop (new_listener 10) (accept 0 ∷ []) in
    is_remaining 1 (drain 200 0 l.join_set [])

listener_tests :
    every (
      max_connections_rejects_excess ∷ semaphore_released_on_disconnect
      ∷ shutdown_signal_drains_active_connections ∷ shutdown_drain_timeout_abandons_stuck_clients
      ∷ [])
    ≡ true
unfolding every codes accept_loop listen_step has_task drop_task turn_away write_raw as_bytes
    utf8_char drain contains_text starts_with strip_prefix
listener_tests = refl
