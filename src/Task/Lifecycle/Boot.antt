-- ===== src/Task/Lifecycle/Boot.antt =====
-- `create_initial_user_process` of src/task.c: the first user process. Switching interrupts off and
-- on is assembly.
use my_own_os.Prelude.{ℕ, ◌-◌, true, not, on_some, ◌==◌}
use my_own_os.Prelude.Outcome.{Outcome, ok, panic, ◌>>=◌, ◌>>◌, assert}
use my_own_os.Words.{add32}
use my_own_os.Paging.Space.{Allocator}
use my_own_os.Task.{
  State, Task, Kernel, current_task, user_stack_top, task_stack_size, user_heap_start,
  user_heap_limit,
}
use my_own_os.Task.Break.{map_pages}
use my_own_os.Task.Schedule.{append_ready_task}
use my_own_os.Task.Lifecycle.{Spaces, blank_task}

abbrev pub initial_process : ℕ → ℕ → ℕ → ℕ → Task → Task
initial_process id directory stack entry t = record blank_task {
  id = id;
  state = State.runnable;
  page_directory = directory;
  esp = user_stack_top;
  ebp = user_stack_top;
  eip = entry;
  kernel_stack = stack;
  is_user_process = true;
  heap_start = user_heap_start;
  heap_break = user_heap_start;
  heap_mapped_end = user_heap_start;
  heap_limit = user_heap_limit;
  descriptors = t.descriptors;
  working_directory = t.working_directory;
}

module _ {H : Type 0} (spaces : Spaces H) where
  -- `entry` is an address; the loop over the stack's pages has two rounds.
  unfoldable pub create_initial_user_process :
      Allocator H → ℕ → ℕ → Kernel H → Outcome (ℕ × Kernel H)
  create_initial_user_process alloc kernel_directory entry k = on_some (current_task k) panic λ t.
      (do
        assert (not (entry == 0))
        m ← spaces.kmalloc_task k.machine
        (directory, m) ← spaces.clone_directory kernel_directory m
        m ← map_pages alloc directory 2 (user_stack_top - task_stack_size) m
        (stack, m) ← spaces.kmalloc_stack m
        let process = initial_process k.next_pid directory stack entry t
        ok (
          process.id,
          append_ready_task process (record k { next_pid = add32 k.next_pid 1; machine = m }),
        ))
