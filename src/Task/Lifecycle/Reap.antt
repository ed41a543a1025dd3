-- ===== src/Task/Lifecycle/Reap.antt =====
-- `task_fork_from_frame` and `task_waitpid` of src/task.c: who a child is, and how it is collected.
use my_own_os.Prelude.{
  ℕ, ◌+◌, ◌-◌, ◌≡◌, ◌≢◌, refl, sym, ◌∙◌, ap, ◌⊎◌, inl, inr, true, false, not, ◌||◌, none, some, [],
  ◌∷◌, ◌++◌, arith, ◌==◌, if_true, if_false, Bool-cases, Option-cases,
}
use my_own_os.Prelude.Outcome.{ok, panic, Outcome-cases}
use my_own_os.Words.{minus_one, is_negative}
use my_own_os.Paging.Space.{Machine}
use my_own_os.Task.{Task, Kernel, is_zombie, is_runnable, find_task, kernel_stack_size}
use my_own_os.Task.Queue.{Running, Running-current_task}
use my_own_os.Task.Lifecycle.{Spaces, registers_size, is_head, unlink_task, task_waitpid}
use my_own_os.Task.Lifecycle.Pids.{
  PidsAreValid, find_task-unlink_task_self, find_task-unlink_task_ne, unlink_task-PidsAreValid,
}

-- The child `c` of the task `t` after a fork, in the space that was made for it.
pub record Forked {H : Type 0} (k : Kernel H) (t : Task) (directory stack resume : ℕ)
    (m : Machine H) (c : Task) (k' : Kernel H) : Type 0 where
  pub identifier : (c.id ≡ k.next_pid) × (k'.next_pid ≡ k.next_pid + 1)
  pub parent : c.parent_id ≡ t.id
  pub runs : is_runnable c ≡ true
  pub space : (c.page_directory ≡ directory) × (c.kernel_stack ≡ stack)
  pub resumes :
      (c.eip ≡ resume)
      × (c.esp ≡ stack + kernel_stack_size - registers_size)
      × (c.ebp ≡ stack + kernel_stack_size - registers_size)
  pub heap :
      (c.heap_start ≡ t.heap_start)
      × (c.heap_break ≡ t.heap_break)
      × (c.heap_mapped_end ≡ t.heap_mapped_end)
      × (c.heap_limit ≡ t.heap_limit)
  pub inherits :
      (c.is_user_process ≡ true)
      × (c.descriptors ≡ t.descriptors)
      × (c.working_directory ≡ t.working_directory)
  pub signals :
      (c.signal_handlers ≡ t.signal_handlers)
      × (c.signal_trampoline ≡ t.signal_trampoline)
      × (c.pending_signals ≡ 0)
      × (c.signal_active ≡ false)
  pub queue : k'.ready_queue ≡ k.ready_queue ++ (c ∷ [])
  pub machine : k'.machine ≡ m
  pub current : k'.current ≡ k.current
  pub pids : PidsAreValid k'

-- The child `c` has been collected.
pub record Reaped {H : Type 0} (k k' : Kernel H) (pid : ℕ) : Type 0 where
  pub gone : find_task pid k'.ready_queue ≡ none
  pub others : (id : ℕ) → pid ≢ id → find_task id k'.ready_queue ≡ find_task id k.ready_queue
  pub same_current : k'.current ≡ k.current
  pub pids : PidsAreValid k'

module _ {H : Type 0} (spaces : Spaces H) {k : Kernel H} {t : Task} (run : Running k t)
    (pids : PidsAreValid k) (pid : ℕ) (good : ((pid == 0) || is_negative pid) ≡ false) where
  refused :
      {c : Task}
      → find_task pid k.ready_queue ≡ some c
      → (c.parent_id == t.id) ≡ false
      → task_waitpid spaces pid k ≡ ok (minus_one, none, k)
  unfolding task_waitpid
  refused {c} found alien =
      rw (Running-current_task run) (if_false _ _ good ∙ rw found (if_true _ _ (ap not alien)))

  -- With identifiers that are unique, for a running task and a positive pid that is not that of
  -- the first task: waitpid returns -1 when no task has this pid or its parent is another, 0
  -- while the child is no zombie, and otherwise, unless releasing the child stops the kernel, it
  -- returns the pid with the child's exit status, the child is found no more, all other tasks are
  -- found as before, and identifiers stay unique.
  pub task_waitpid-Reaped :
      (is_head pid k.ready_queue ≡ false)
      → ((task_waitpid spaces pid k ≡ ok (minus_one, none, k))
          × ((c : Task) → find_task pid k.ready_queue ≡ some c → c.parent_id ≢ t.id))
        ⊎ ((c : Task) × (find_task pid k.ready_queue ≡ some c)
            × (c.parent_id ≡ t.id)
            × (((task_waitpid spaces pid k ≡ ok (0, none, k)) × (is_zombie c ≡ false))
                ⊎ ((is_zombie c ≡ true)
                    × (((spaces.release c k.machine ≡ panic) × (task_waitpid spaces pid k ≡ panic))
                        ⊎ ((k' : Kernel H) × (task_waitpid spaces pid k
                              ≡ ok (pid, some c.exit_status, k'))
                            × Reaped k k' pid)))))
  unfolding task_waitpid
  task_waitpid-Reaped below_head = elim (Option-cases (find_task pid k.ready_queue)) [
    | inl nobody ↦
        inl (rw (Running-current_task run) (if_false _ _ good ∙ rw nobody refl), λ c e. cc)
    | inr (c, found) ↦
        let start = Running-current_task run in
        elim (Bool-cases (c.parent_id == t.id)) [
          | inl mine ↦
              let child : c.parent_id ≡ t.id = ground arith in
              let own = if_false _ _ (ap not mine) in
              inr (
                c,
                found,
                child,
                elim (Bool-cases (is_zombie c)) [
                  | inl dead ↦ inr (
                    dead,
                    elim (Outcome-cases (spaces.release c k.machine)) [
                      | inl stuck ↦ inl (
                        stuck,
                        rw start (
                            if_false _ _ good
                            ∙ rw found
                                (own ∙ (if_false _ _ (ap not dead) ∙ rw (below_head, stuck) refl))),
                      )
                      | inr (m, freed) ↦ inr (
                        record k { ready_queue = unlink_task pid k.ready_queue; machine = m },
                        rw start (
                            if_false _ _ good
                            ∙ rw found
                                (own ∙ (if_false _ _ (ap not dead) ∙ rw (below_head, freed) refl))),
                        record {
                          gone = find_task-unlink_task_self pid k.ready_queue pids.unique;
                          others = λ id ne. find_task-unlink_task_ne pid id k.ready_queue ne;
                          same_current = refl;
                          pids = unlink_task-PidsAreValid pid pids refl refl;
                        },
                      )
                    ],
                  )
                  | inr alive ↦ inl (
                    rw start (if_false _ _ good ∙ rw found (own ∙ if_true _ _ (ap not alive))),
                    alive,
                  )
                ],
              )
          | inr alien ↦ inl (
            refused found alien,
            λ d e same.
                let cd : some c ≡ some d = sym found ∙ e in
                let other : c.parent_id ≡ d.parent_id = cc in ground (arith, other, same),
          )
        ]
  ]
