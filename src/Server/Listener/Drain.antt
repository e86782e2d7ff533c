-- ===== src/Server/Listener/Drain.antt =====
-- listener.rs behind the accept loop: the tasks of the set are joined until all have ended or the time
-- is over. The tasks end in the given order, each at a time since the drain began; one that ended
-- before is there at time 0.
use liaozhai.Common.{
  All, Bool-cases, List, [], ap, arith, if◌then◌else◌, inl, inr, is_empty, length, length-append,
  ltb, ltb→lt, refl, true, ℕ, ◌%◌, ◌+◌, ◌-◌, ◌<◌, ◌==◌, ◌^◌, ◌∙◌, ◌∷◌, ◌≡◌, ◌≤◌,
}
use liaozhai.Server.Listener.{
  ListenEvent, Listener, accept, accept_error, accept_loop, drop_task, has_task, length-drop_task,
  listen_step, new_listener, task_done, turn_away,
}

-- What is logged: how many tasks were joined, in an unsigned number of 32 bits, or how many remain.
pub data DrainResult : Type 0 where
  drained remaining : ℕ → DrainResult

unfoldable pub drain : ℕ → ℕ → List ℕ → List (ℕ × ℕ) → DrainResult
unfolding drop_task
drain timeout count join_set [] =
    if is_empty join_set then drained count else remaining (length join_set)
drain timeout count join_set ((time, task) ∷ ends) =
    let rest = drain timeout ((count + 1) % 2 ^ 32) (drop_task task join_set) ends in
    if is_empty join_set
    then drained count
    else if ltb timeout time
    then remaining (length join_set)
    else rest

-- Each end is that of a task that is still in the set.
abbrev pub AreEnds : List ℕ → List (ℕ × ℕ) → Type 0
AreEnds join_set [] = Unit
AreEnds join_set ((time, task) ∷ ends) =
    (has_task task join_set ≡ true) × AreEnds (drop_task task join_set) ends

-- The ends come in the order of their times.
abbrev pub IsRising : List (ℕ × ℕ) → Type 0
IsRising [] = Unit
IsRising ((time, task) ∷ ends) = All (λ e. time ≤ e.0) ends × IsRising ends

-- How many of the ends are in time.
abbrev pub early : ℕ → List (ℕ × ℕ) → ℕ
early timeout [] = 0
early timeout ((time, task) ∷ ends) =
    if ltb timeout time then early timeout ends else early timeout ends + 1

early-late :
    (timeout time : ℕ) (ends : List (ℕ × ℕ))
    → timeout < time
    → All (λ e. time ≤ e.0) ends
    → early timeout ends ≡ 0
early-late timeout time [] late h = refl
early-late timeout time ((t, task) ∷ ends) late h =
    let rest = early-late timeout time ends late h.1 in ground (arith, h.0)

-- What the drain logs where `n` of the tasks end in time, and others were joined before.
abbrev pub drained_of : ℕ → List ℕ → ℕ → DrainResult
drained_of count join_set n =
    if n == length join_set
    then drained ((count + length join_set) % 2 ^ 32)
    else remaining (length join_set - n)

drained_of-drop :
    (count : ℕ) (ts us : List ℕ) (n : ℕ)
    → length us + 1 ≡ length ts
    → drained_of ((count + 1) % 2 ^ 32) us n ≡ drained_of count ts (n + 1)
drained_of-drop count ts us n h = elim (Bool-cases (n == length us)) [
  | inl all ↦ ground arith
  | inr some_ ↦ ground arith
]

drain-early :
    (timeout count : ℕ) (join_set : List ℕ) (ends : List (ℕ × ℕ))
    → AreEnds join_set ends
    → IsRising ends
    → count < 2 ^ 32
    → drain timeout count join_set ends ≡ drained_of count join_set (early timeout ends)
unfolding drain has_task
drain-early timeout count [] [] e r small = ap drained (ground arith)
drain-early timeout count (t ∷ ts) [] e r small = ground arith
drain-early timeout count [] ((time, task) ∷ ends) e r small = cc (e.0)
drain-early timeout count (t ∷ ts) ((time, task) ∷ ends) e r small =
    elim (Bool-cases (ltb timeout time)) [
      | inl late ↦
          let none_more = early-late timeout time ends (ltb→lt _ _ late) r.0 in
          rw (late, none_more) (ground arith)
      | inr in_time ↦
          let rest =
            drain-early timeout ((count + 1) % 2 ^ 32) (drop_task task (t ∷ ts)) ends e.1 r.1
              (ground arith) in
          rw in_time (
            rest
            ∙ drained_of-drop count (t ∷ ts) (drop_task task (t ∷ ts)) (early timeout ends)
                (length-drop_task task (t ∷ ts) e.0))
    ]

-- How many clients came.
abbrev pub accepts : List ListenEvent → ℕ
accepts [] = 0
accepts (accept task ∷ es) = accepts es + 1
accepts (accept_error ∷ es) = accepts es
accepts (task_done task ∷ es) = accepts es

listen_step-accepts :
    (l : Listener) (e : ListenEvent)
    → length (listen_step l e).join_set + length (listen_step l e).rejected
      ≡ length l.join_set + length l.rejected + accepts (e ∷ [])
unfolding listen_step
listen_step-accepts l (accept task) = elim (Bool-cases (ltb 0 l.permits)) [
  | inl free ↦ rw (free, length-append l.join_set (task ∷ [])) (ground arith)
  | inr full ↦ rw (full, length-append l.rejected (turn_away ∷ [])) (ground arith)
]
listen_step-accepts l accept_error = ground arith
listen_step-accepts l (task_done task) = elim (Bool-cases (has_task task l.active)) [
  | inl e ↦ rw e (ground arith)
  | inr e ↦ rw e (ground arith)
]

accepts-cons :
    (e : ListenEvent) (es : List ListenEvent) → accepts (e ∷ es) ≡ accepts (e ∷ []) + accepts es
accepts-cons (accept task) es = ground arith
accepts-cons accept_error es = ground arith
accepts-cons (task_done task) es = ground arith

accept_loop-accepts :
    (l : Listener) (es : List ListenEvent)
    → length (accept_loop l es).join_set + length (accept_loop l es).rejected
      ≡ length l.join_set + length l.rejected + accepts es
unfolding accept_loop
accept_loop-accepts l [] = ground arith
accept_loop-accepts l (e ∷ es) =
    let rest = accept_loop-accepts (listen_step l e) es in
    let now = listen_step-accepts l e in
    let all = accepts-cons e es in omega (arith, rest, now, all)

-- Behind an accept loop, where the tasks of its set end in the order of their times, the drain joins all
-- of them if all end before its time is over, and otherwise it gives up as many as do not. The tasks of
-- the set are all clients that came since the start and were not turned away; their number is logged
-- modulo 2 ^ 32.
pub drain-accepts :
    (max_connections timeout : ℕ) (es : List ListenEvent) (ends : List (ℕ × ℕ))
    → AreEnds (accept_loop (new_listener max_connections) es).join_set ends
    → IsRising ends
    → let l = accept_loop (new_listener max_connections) es in
      (drain timeout 0 l.join_set ends ≡ (
        if early timeout ends == length l.join_set
        then drained (length l.join_set % 2 ^ 32)
        else remaining (length l.join_set - early timeout ends)))
      × (length l.join_set + length l.rejected ≡ accepts es)
drain-accepts max_connections timeout es ends e r =
    let l = accept_loop (new_listener max_connections) es in
    let n = accept_loop-accepts (new_listener max_connections) es in
    let sum : 0 + length l.join_set ≡ length l.join_set = omega arith in
    let d = drain-early timeout 0 l.join_set ends e r (ground arith) in (rw sum at d, ground arith)
