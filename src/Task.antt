-- ===== src/Task.antt =====
-- src/task.h and src/isr.h: tasks, descriptors, the ready queue. The linked list from
-- `ready_queue` is a list of tasks in its order; `current_task` is the identifier of a task of the
-- list, `none` before `initialise_tasking`. Identifiers tell tasks apart, since `next_pid` only
-- grows. An `int` is its 32-bit pattern. The nodes of the file system are a table by address, and
-- `calls` records the `open_fs` and `close_fs` calls that tasks make, newest first.
pub mod Queue
pub mod Descriptors
pub mod Break
pub mod Schedule
pub mod Lifecycle
pub mod Tests
use my_own_os.Prelude.{
  ℕ, ◌≡◌, Bool, true, false, Option, none, some, List, [], ◌∷◌, on_some, ◌==◌, if◌then◌else◌,
}
use my_own_os.Prelude.Outcome.{Outcome, ok, panic}
use my_own_os.Fs.{FsNode}
use my_own_os.Paging.Space.{Machine}

abbrev pub kernel_stack_size : ℕ
kernel_stack_size = 8192

abbrev pub task_stack_size : ℕ
task_stack_size = 8192

abbrev pub max_file_descriptors : ℕ
max_file_descriptors = 16

abbrev pub user_heap_start : ℕ
user_heap_start = 0x40000000

abbrev pub user_heap_limit : ℕ
user_heap_limit = 0xBFF00000

abbrev pub user_stack_top : ℕ
user_stack_top = 0xC0000000

-- `FD_KIND_FREE`, `FD_KIND_KEYBOARD`, `FD_KIND_CONSOLE`, `FD_KIND_NODE`
pub data Kind : Type 0 where
  free keyboard console node : Kind

pub record Descriptor : Type 0 where
  pub kind : Kind
  pub node : ℕ
  pub offset : ℕ
  pub flags : ℕ

-- What `memset(descriptor, 0, sizeof(*descriptor))` leaves.
abbrev pub blank_descriptor : Descriptor
blank_descriptor = record { kind = Kind.free; node = 0; offset = 0; flags = 0 }

pub data State : Type 0 where
  runnable waiting_input zombie : State

-- `registers_t`
pub record Registers : Type 0 where
  pub ds : ℕ
  pub edi : ℕ
  pub esi : ℕ
  pub ebp : ℕ
  pub esp : ℕ
  pub ebx : ℕ
  pub edx : ℕ
  pub ecx : ℕ
  pub eax : ℕ
  pub int_no : ℕ
  pub err_code : ℕ
  pub eip : ℕ
  pub cs : ℕ
  pub eflags : ℕ
  pub useresp : ℕ
  pub ss : ℕ

pub record Task : Type 0 where
  pub id : ℕ
  pub parent_id : ℕ
  pub state : State
  pub exit_status : ℕ
  pub esp : ℕ
  pub ebp : ℕ
  pub eip : ℕ
  pub page_directory : ℕ
  pub kernel_stack : ℕ
  pub heap_start : ℕ
  pub heap_break : ℕ
  pub heap_mapped_end : ℕ
  pub heap_limit : ℕ
  pub is_user_process : Bool
  pub signal_handlers : List ℕ
  pub pending_signals : ℕ
  pub signal_trampoline : ℕ
  pub signal_active : Bool
  pub active_signal : ℕ
  pub descriptors : List Descriptor
  pub working_directory : ℕ

abbrev pub is_zombie : Task → Bool
is_zombie t = elim t.state [ State.zombie ↦ true | _ ↦ false ]

abbrev pub is_runnable : Task → Bool
is_runnable t = elim t.state [ State.runnable ↦ true | _ ↦ false ]

pub data FsCall : Type 0 where
  opens closes : ℕ → FsCall

pub record Kernel (H : Type 0) : Type 0 where
  pub ready_queue : List Task
  pub current : Option ℕ
  pub next_pid : ℕ
  pub machine : Machine H
  pub nodes : ℕ → FsNode
  pub calls : List FsCall

-- `find_task` of signal.c, and the search loop of `task_waitpid`
unfoldable pub find_task : ℕ → List Task → Option Task
find_task process_id [] = none
find_task process_id (t ∷ ts) = if t.id == process_id then some t else find_task process_id ts

-- The store through a pointer to the task with this identifier.
unfoldable pub put_task : Task → List Task → List Task
put_task t [] = []
put_task t (u ∷ us) = if u.id == t.id then t ∷ us else u ∷ put_task t us

module _ {H : Type 0} where
  -- `*current_task`
  unfoldable pub current_task : Kernel H → Option Task
  current_task k = on_some k.current none λ id. find_task id k.ready_queue

  unfoldable pub store_task : Task → Kernel H → Kernel H
  store_task t k = record k { ready_queue = put_task t k.ready_queue }
