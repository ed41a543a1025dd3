-- ===== src/Task/Schedule.antt =====
-- src/task.c, the scheduler: `switch_task`, `append_ready_task`, and the sleep on the keyboard. The
-- processor's registers are arguments; loading those of the chosen task is assembly, as are the
-- directory and the kernel stack that the processor is given. The search for a runnable task is a
-- loop round the queue; it runs on fuel, and `none` is a search that has not ended.
pub mod Laws
use my_own_os.Prelude.{
  ℕ, zero, suc, ◌+◌, Bool, true, false, not, ◌&&◌, ◌||◌, Option, none, some, List, [], ◌∷◌, ◌++◌,
  map, on_some, ◌==◌, if◌then◌else◌, length,
}
use my_own_os.Prelude.Outcome.{Outcome, ok, panic, ◌>>=◌, ◌>>◌, assert}
use my_own_os.Task.{State, Task, Kernel, is_runnable, current_task, store_task, put_task}

-- `do { candidate = candidate->next; if (candidate == 0) candidate = ready_queue; } while (...)`,
-- on the tasks behind the candidate.
unfoldable pub next_runnable : ℕ → List Task → List Task → Option Task
next_runnable zero rest queue = none
next_runnable (suc n) [] [] = none
next_runnable (suc n) [] (t ∷ ts) =
    let rest = next_runnable n ts (t ∷ ts) in if is_runnable t then some t else rest
next_runnable (suc n) (t ∷ ts) queue =
    let rest = next_runnable n ts queue in if is_runnable t then some t else rest

-- The tasks behind the one with this identifier.
unfoldable pub behind : ℕ → List Task → List Task
behind id [] = []
behind id (t ∷ ts) = if t.id == id then ts else behind id ts

-- `current_task == ready_queue && current_task->next == 0`
abbrev pub is_alone : ℕ → List Task → Bool
is_alone id [] = false
is_alone id (t ∷ []) = t.id == id
is_alone id (t ∷ u ∷ us) = false

abbrev pub save_registers : ℕ → ℕ → ℕ → Task → Task
save_registers esp ebp eip t = record t { eip = eip; esp = esp; ebp = ebp }

module _ {H : Type 0} where
  unfoldable pub switch_task : ℕ → ℕ → ℕ → Kernel H → Option (Kernel H)
  switch_task esp ebp eip k = on_some (current_task k) (some k) λ t.
      if is_alone t.id k.ready_queue
      then some k
      else (let queue = put_task (save_registers esp ebp eip t) k.ready_queue in
          on_some
            (next_runnable (length (behind t.id queue) + length queue) (behind t.id queue) queue)
            none λ candidate. some (record k { ready_queue = queue; current = some candidate.id }))

  -- The queue is not empty when a task is appended.
  unfoldable pub append_ready_task : Task → Kernel H → Kernel H
  append_ready_task t k = record k { ready_queue = k.ready_queue ++ (t ∷ []) }

  -- Up to the call of `switch_task`.
  pub task_wait_for_keyboard : Kernel H → Outcome (Kernel H)
  task_wait_for_keyboard k = on_some (current_task k) panic λ t. (do
    assert (t.is_user_process && is_runnable t)
    ok (store_task (record t { state = State.waiting_input }) k))

  pub task_has_pending_signal : Kernel H → Bool
  task_has_pending_signal k = on_some (current_task k) false λ t. not (t.pending_signals == 0)

abbrev pub woken : State → State
woken State.waiting_input = State.runnable
woken State.runnable = State.runnable
woken State.zombie = State.zombie

abbrev pub wake : Task → Task
wake t = record t { state = woken t.state }

pub task_wake_keyboard_waiters : {H : Type 0} → Kernel H → Kernel H
task_wake_keyboard_waiters k = record k { ready_queue = map wake k.ready_queue }
