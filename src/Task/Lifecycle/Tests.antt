-- ===== src/Task/Lifecycle/Tests.antt =====
-- Runs of the scheduler, fork and waitpid of src/task.c on the idle task 0, the parent 7 and its
-- zombie child 8.
use my_own_os.Prelude.{◌≡◌, ◌≢◌, ◌⊎◌, refl, true, false, none, some, List, [], ◌∷◌, ◌++◌, arith}
use my_own_os.Prelude.Outcome.{ok, panic}
use my_own_os.Words.{minus_one}
use my_own_os.Task.{State, Task, Kernel, is_runnable, is_zombie, find_task}
use my_own_os.Task.Queue.{Running}
use my_own_os.Task.Tests.{kernel, process}
use my_own_os.Task.Schedule.{switch_task}
use my_own_os.Task.Schedule.Laws.{first_runnable, any_runnable, switch_task_lem}
use my_own_os.Task.Lifecycle.{Spaces, task_waitpid}
use my_own_os.Task.Lifecycle.Pids.{PidsAreValid}
use my_own_os.Task.Lifecycle.Reap.{Reaped, task_waitpid-Reaped}

abbrev idle : Task
idle = record process { id = 0; parent_id = minus_one; is_user_process = false }

abbrev child : Task
child = record process { id = 8; parent_id = 7; state = State.zombie; exit_status = 3 }

abbrev pub family : Kernel (Unit {0})
family = record kernel { ready_queue = idle ∷ process ∷ child ∷ []; next_pid = 9 }

-- Every space is directory 2 with its stack at 0xD0000000, and a release does nothing.
abbrev pub spaces : Spaces (Unit {0})
spaces = record {
  clone_directory = λ directory m. ok (2, m);
  kmalloc_task = λ m. ok m;
  kmalloc_stack = λ m. ok (0xD0000000, m);
  release = λ t m. ok m;
}

pub family-Running : Running family process
unfolding find_task
family-Running = record { current = refl; found = refl }

pub family-PidsAreValid : PidsAreValid family
unfolding find_task
family-PidsAreValid = record {
  unique = (refl, (refl, (refl, tt)));
  below = (omega arith, (omega arith, (omega arith, tt)));
}

family_runs : any_runnable family.ready_queue ≡ true
unfolding any_runnable
family_runs = refl

switch_example :
    (before : List Task) × (after : List Task) × (u : Task) × (family.ready_queue
      ≡ before ++ (process ∷ after))
    × (find_task 7 before ≡ none)
    × (switch_task 1 2 3 family
        ≡ some (record family {
          ready_queue = before ++ (record process { esp = 1; ebp = 2; eip = 3 } ∷ after);
          current = some u.id;
        }))
    × (first_runnable (after ++ (before ++ (record process { esp = 1; ebp = 2; eip = 3 } ∷ [])))
        ≡ some u)
    × (is_runnable u ≡ true)
switch_example = switch_task_lem family-Running 1 2 3 refl family_runs

waitpid_example :
    ((task_waitpid spaces 8 family ≡ ok (minus_one, none, family))
      × ((c : Task) → find_task 8 family.ready_queue ≡ some c → c.parent_id ≢ 7))
    ⊎ ((c : Task) × (find_task 8 family.ready_queue ≡ some c)
        × (c.parent_id ≡ 7)
        × (((task_waitpid spaces 8 family ≡ ok (0, none, family)) × (is_zombie c ≡ false))
            ⊎ ((is_zombie c ≡ true)
                × (((spaces.release c family.machine ≡ panic)
                      × (task_waitpid spaces 8 family ≡ panic))
                    ⊎ ((k' : Kernel (Unit {0})) × (task_waitpid spaces 8 family
                          ≡ ok (8, some c.exit_status, k'))
                        × Reaped family k' 8)))))
waitpid_example = task_waitpid-Reaped spaces family-Running family-PidsAreValid 8 refl refl
