-- ===== src/Server/Listener.antt =====
-- crates/liaozhai-server/src/listener.rs: the accept loop. What a task does is
-- in Net.Connection; here a task only begins and ends. Tasks are numbered by the caller.
pub mod Drain
pub mod Active
use liaozhai.Common.{
  Bool, Bool-cases, List, [], arith, false, if◌then◌else◌, inl, inr, length, ltb, refl, true, ℕ,
  ◌++◌, ◌+◌, ◌-◌, ◌<◌, ◌==◌, ◌∙◌, ◌∷◌, ◌≡◌, ◌≤◌, ◌⊎◌,
}
use liaozhai.Core.Constants.{server_full_msg}
use liaozhai.Net.Output.{LineWriter, new_writer, shut_down, write_raw}
use liaozhai.Text.Utf8.{as_bytes}

-- What happens while the loop runs: a client is accepted for the given task, accepting fails, or a
-- task ends, which gives its permit back.
pub data ListenEvent : Type 0 where
  accept : (task : ℕ) → ListenEvent
  accept_error : ListenEvent
  task_done : (task : ℕ) → ListenEvent

-- The free permits of the semaphore, the tasks that run, all tasks of the `JoinSet`, and the writers
-- of the clients that were turned away. A task that has ended stays in the set until it is joined,
-- which the loop does not do.
pub record Listener : Type 0 where
  pub permits : ℕ
  pub active : List ℕ
  pub join_set : List ℕ
  pub rejected : List LineWriter

abbrev pub new_listener : ℕ → Listener
new_listener max_connections = record {
  permits = max_connections;
  active = [];
  join_set = [];
  rejected = [];
}

unfoldable pub drop_task : ℕ → List ℕ → List ℕ
drop_task task [] = []
drop_task task (t ∷ ts) = if t == task then ts else t ∷ drop_task task ts

unfoldable pub has_task : ℕ → List ℕ → Bool
has_task task [] = false
has_task task (t ∷ ts) = if t == task then true else has_task task ts

-- What a client that finds no permit is sent, where the write succeeds.
unfoldable pub turn_away : LineWriter
unfolding write_raw
turn_away = shut_down (write_raw (new_writer []) (as_bytes server_full_msg)).0

unfoldable pub listen_step : Listener → ListenEvent → Listener
unfolding drop_task has_task turn_away
listen_step l (accept task) =
    if ltb 0 l.permits
    then record l {
      permits = l.permits - 1;
      active = task ∷ l.active;
      join_set = l.join_set ++ task ∷ [];
    }
    else record l { rejected = l.rejected ++ turn_away ∷ [] }
listen_step l accept_error = l
listen_step l (task_done task) =
    if has_task task l.active
    then record l { permits = l.permits + 1; active = drop_task task l.active }
    else l

-- `run_accept_loop` up to the shutdown.
unfoldable pub accept_loop : Listener → List ListenEvent → Listener
unfolding listen_step
accept_loop l [] = l
accept_loop l (e ∷ es) = accept_loop (listen_step l e) es

pub length-drop_task :
    (task : ℕ) (ts : List ℕ) → has_task task ts ≡ true → length (drop_task task ts) + 1 ≡ length ts
unfolding drop_task has_task
length-drop_task task [] h = ground arith
length-drop_task task (t ∷ ts) h = elim (Bool-cases (t == task)) [
  | inl e ↦ ground arith
  | inr e ↦ let rest = length-drop_task task ts (ground arith) in ground arith
]

pub listen_step-permits :
    (l : Listener) (e : ListenEvent)
    → (listen_step l e).permits + length (listen_step l e).active ≡ l.permits + length l.active
unfolding listen_step
listen_step-permits l (accept task) = ground arith
listen_step-permits l accept_error = refl
listen_step-permits l (task_done task) = elim (Bool-cases (has_task task l.active)) [
  | inl e ↦ let n = length-drop_task task l.active e in ground arith
  | inr e ↦ ground arith
]

accept_loop-permits :
    (l : Listener) (es : List ListenEvent)
    → (accept_loop l es).permits + length (accept_loop l es).active ≡ l.permits + length l.active
unfolding accept_loop
accept_loop-permits l [] = refl
accept_loop-permits l (e ∷ es) = accept_loop-permits (listen_step l e) es ∙ listen_step-permits l e

-- Whatever comes and ends, the free permits and the connections that are served add up to
-- `max_connections`, so that never more are served.
pub accept_loop-bounds :
    (max_connections : ℕ) (es : List ListenEvent)
    → ((accept_loop (new_listener max_connections) es).permits
          + length (accept_loop (new_listener max_connections) es).active
        ≡ max_connections)
      × (length (accept_loop (new_listener max_connections) es).active ≤ max_connections)
accept_loop-bounds max_connections es =
    let e = accept_loop-permits (new_listener max_connections) es in
    let e' = accept_loop-permits (new_listener max_connections) es in (ground arith, ground arith)

-- The free permits and the connections that are served add up to `max_connections`; a client is
-- served exactly if fewer than `max_connections` are at that moment, and otherwise it is turned away,
-- and those that are served stay as they are.
pub accept-permits :
    (max_connections : ℕ) (es : List ListenEvent) (task : ℕ)
    → let l = accept_loop (new_listener max_connections) es in
      let l' = listen_step l (accept task) in
      (l.permits + length l.active ≡ max_connections)
      × (((length l.active < max_connections)
            × (l'.active ≡ task ∷ l.active)
            × (l'.rejected ≡ l.rejected))
          ⊎ ((length l.active ≡ max_connections)
              × (l'.active ≡ l.active)
              × (l'.rejected ≡ l.rejected ++ turn_away ∷ [])))
unfolding listen_step
accept-permits max_connections es task =
    let l = accept_loop (new_listener max_connections) es in
    let e = accept_loop-permits (new_listener max_connections) es in
    (
      ground arith,
      elim (Bool-cases (ltb 0 l.permits)) [
        | inl free ↦ inl (ground arith, rw free refl, rw free refl)
        | inr full ↦ inr (ground arith, rw full refl, rw full refl)
      ],
    )
