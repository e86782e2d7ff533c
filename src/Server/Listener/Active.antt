-- ===== src/Server/Listener/Active.antt =====
-- Which tasks run behind a step of the accept loop in listener.rs.
use liaozhai.Common.{List, [], arith, get_elem?, refl, some, suc, true, zero, ℕ, ◌<◌, ◌∙◌, ◌∷◌, ◌≡◌}
use liaozhai.Server.Listener.{
  Listener, accept, accept_error, drop_task, has_task, listen_step, task_done,
}

pub has_task-get_elem? :
    (task : ℕ) (ts : List ℕ) (i : ℕ) → get_elem? ts i ≡ some task → has_task task ts ≡ true
unfolding has_task
has_task-get_elem? task [] i h = cc
has_task-get_elem? task (t ∷ ts) zero h = ground arith
has_task-get_elem? task (t ∷ ts) (suc i) h = ground (arith, has_task-get_elem? task ts i h)

pub active-accept :
    (l : Listener) (task : ℕ)
    → 0 < l.permits
    → (listen_step l (accept task)).active ≡ task ∷ l.active
unfolding listen_step
active-accept l task free = ground arith

pub active-full :
    (l : Listener) (task : ℕ) → l.permits ≡ 0 → (listen_step l (accept task)).active ≡ l.active
unfolding listen_step
active-full l task full = ground arith

pub active-task_done :
    (l : Listener) (task : ℕ)
    → has_task task l.active ≡ true
    → (listen_step l (task_done task)).active ≡ drop_task task l.active
unfolding listen_step
active-task_done l task there = rw there refl

-- A task that ends at once leaves the tasks as they were.
pub active-accept-task_done :
    (l : Listener) (task : ℕ)
    → 0 < l.permits
    → (listen_step (listen_step l (accept task)) (task_done task)).active ≡ l.active
unfolding has_task drop_task
active-accept-task_done l task free =
    let e = active-accept l task free in
    let there : has_task task (listen_step l (accept task)).active ≡ true = rw e (ground arith) in
    active-task_done (listen_step l (accept task)) task there ∙ rw e (ground arith)

pub active-accept_error : (l : Listener) → (listen_step l accept_error).active ≡ l.active
unfolding listen_step
active-accept_error l = refl
