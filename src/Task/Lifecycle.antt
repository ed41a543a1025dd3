-- ===== src/Task/Lifecycle.antt =====
-- src/task.c, the life of a process: `task_fork_from_frame`, `task_exit`, `task_waitpid`. What they
-- need of paging.c and kheap.c is the interface `Spaces`. A child's interrupt frame, which is copied
-- to the top of its kernel stack, is a result.
pub mod Pids
pub mod Reap
pub mod Boot
pub mod Tests
use my_own_os.Prelude.{
  ℕ, zero, suc, ◌+◌, ◌-◌, ◌≡◌, Bool, true, false, not, ◌&&◌, ◌||◌, Option, none, some, List, [],
  ◌∷◌, ◌++◌, map, ltb, on_some, ◌==◌, if◌then◌else◌, replicate,
}
use my_own_os.Prelude.Outcome.{Outcome, ok, panic, ◌>>=◌, ◌>>◌, assert}
use my_own_os.Words.{minus_one, add32, is_negative}
use my_own_os.Paging.Space.{Machine}
use my_own_os.Task.{
  State, Descriptor, blank_descriptor, FsCall, opens, closes, Registers, Task, Kernel, is_zombie,
  is_runnable, find_task, current_task, store_task, kernel_stack_size, max_file_descriptors,
}
use my_own_os.Task.Descriptors.{is_node}
use my_own_os.Task.Schedule.{append_ready_task}
use my_own_os.Signals.{task_signal_send, task_signal_inherit, signal_chld}

-- `clone_directory`, `kmalloc(sizeof(task_t))`, `kmalloc_a(KERNEL_STACK_SIZE)` with the address of
-- the stack; and `release`, which is `destroy_directory` of the task's directory and `kfree` of its
-- kernel stack and of itself. What is allocated takes no page from anybody.
pub record Spaces (H : Type 0) : Type 0 where
  pub clone_directory : ℕ → Machine H → Outcome (ℕ × Machine H)
  pub kmalloc_task : Machine H → Outcome (Machine H)
  pub kmalloc_stack : Machine H → Outcome (ℕ × Machine H)
  pub release : Task → Machine H → Outcome (Machine H)

-- `sizeof(registers_t)`
abbrev pub registers_size : ℕ
registers_size = 64

-- `kind == FD_KIND_NODE && node != 0`
abbrev pub holds_node : Descriptor → Bool
holds_node d = is_node d && not (d.node == 0)

-- The loop over the descriptors that calls `open_fs`, and the one that calls `close_fs`.
pub open_inherited : List Descriptor → List FsCall → List FsCall
open_inherited [] calls = calls
open_inherited (d ∷ ds) calls =
    open_inherited ds (if holds_node d then opens d.node ∷ calls else calls)

pub close_all : List Descriptor → List FsCall → List FsCall
close_all [] calls = calls
close_all (d ∷ ds) calls = close_all ds (if holds_node d then closes d.node ∷ calls else calls)

-- The fields of the child, which `memset` zeroed before.
abbrev pub blank_task : Task
blank_task = record {
  id = 0;
  parent_id = 0;
  state = State.runnable;
  exit_status = 0;
  esp = 0;
  ebp = 0;
  eip = 0;
  page_directory = 0;
  kernel_stack = 0;
  heap_start = 0;
  heap_break = 0;
  heap_mapped_end = 0;
  heap_limit = 0;
  is_user_process = false;
  signal_handlers = replicate 32 0;
  pending_signals = 0;
  signal_trampoline = 0;
  signal_active = false;
  active_signal = 0;
  descriptors = replicate 16 blank_descriptor;
  working_directory = 0;
}

abbrev pub forked_task : ℕ → ℕ → ℕ → ℕ → Task → Task
forked_task id directory stack resume parent =
    let frame = stack + kernel_stack_size - registers_size in
    record (task_signal_inherit blank_task parent) {
      id = id;
      parent_id = parent.id;
      state = State.runnable;
      page_directory = directory;
      kernel_stack = stack;
      heap_start = parent.heap_start;
      heap_break = parent.heap_break;
      heap_mapped_end = parent.heap_mapped_end;
      heap_limit = parent.heap_limit;
      is_user_process = parent.is_user_process;
      descriptors = parent.descriptors;
      working_directory = parent.working_directory;
      esp = frame;
      ebp = frame;
      eip = resume;
    }

-- The task with this identifier unlinked, `previous->next = child->next`.
unfoldable pub unlink_task : ℕ → List Task → List Task
unlink_task id [] = []
unlink_task id (t ∷ ts) = if t.id == id then ts else t ∷ unlink_task id ts

-- `previous == 0`: the task found is the first.
abbrev pub is_head : ℕ → List Task → Bool
is_head id [] = false
is_head id (t ∷ ts) = t.id == id

-- `parent_id > 0` for an `int`
abbrev pub has_parent : Task → Bool
has_parent t = not (t.parent_id == 0) && not (is_negative t.parent_id)

abbrev pub exited_task : ℕ → Task → Task
exited_task status t = record t {
  descriptors = replicate 16 blank_descriptor;
  exit_status = status;
  state = State.zombie;
}

module _ {H : Type 0} (spaces : Spaces H) where
  -- The directory, the task and the kernel stack of a child, in the order in which they are made.
  abbrev pub make_space : ℕ → Machine H → Outcome (ℕ × ℕ × Machine H)
  make_space directory m = do
    (copy, m) ← spaces.clone_directory directory m
    m ← spaces.kmalloc_task m
    (stack, m) ← spaces.kmalloc_stack m
    ok (copy, stack, m)

  -- `resume` is the address of `resume_user_frame`, and `current_directory` the directory that the
  -- processor is given. The child's frame and where it is stored are
  -- given to the assembly that resumes the child.
  unfoldable pub task_fork_from_frame :
      ℕ → ℕ → Registers → Kernel H → Outcome (ℕ × Option (ℕ × Registers) × Kernel H)
  task_fork_from_frame current_directory resume frame k =
      on_some (current_task k) (ok (minus_one, none, k)) λ t.
        if not t.is_user_process || not (is_runnable t) then ok (minus_one, none, k) else (do
          (directory, stack, m) ← make_space current_directory k.machine
          let child = forked_task k.next_pid directory stack resume t
          ok (
            child.id,
            some (child.esp, record frame { eax = 0 }),
            append_ready_task child (record k {
              next_pid = add32 k.next_pid 1;
              machine = m;
              calls = open_inherited child.descriptors k.calls;
            }),
          ))

  unfoldable pub task_waitpid : ℕ → Kernel H → Outcome (ℕ × Option ℕ × Kernel H)
  task_waitpid pid k = on_some (current_task k) (ok (minus_one, none, k)) λ parent.
      if (pid == 0) || is_negative pid
      then ok (minus_one, none, k)
      else (on_some (find_task pid k.ready_queue) (ok (minus_one, none, k)) λ child.
          if not (child.parent_id == parent.id)
          then ok (minus_one, none, k)
          else (if not (is_zombie child) then ok (0, none, k) else (do
            assert (not (is_head pid k.ready_queue))
            m ← spaces.release child k.machine
            ok (
              pid,
              some child.exit_status,
              record k { ready_queue = unlink_task pid k.ready_queue; machine = m },
            ))))

module _ {H : Type 0} where
  -- Up to the call of `switch_task`, which does not come back.
  unfoldable pub task_exit : ℕ → Kernel H → Outcome (Kernel H)
  task_exit status k = on_some (current_task k) panic λ t. (do
    assert (not (t.id == 0) && t.is_user_process)
    let k' =
        store_task (exited_task status t) (record k { calls = close_all t.descriptors k.calls })
    ok (if has_parent t then (task_signal_send t.parent_id signal_chld k').1 else k'))
