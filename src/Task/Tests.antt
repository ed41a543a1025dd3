-- ===== src/Task/Tests.antt =====
-- Runs of src/task.c on one user process, 7, that holds a node, 16, in slot 3 and has no heap yet.
use my_own_os.Prelude.{
  ℕ, ◌≤◌, ◌≡◌, ◌⊎◌, refl, true, false, none, some, [], ◌∷◌, arith, ◌==◌, if◌then◌else◌, replicate,
}
use my_own_os.Prelude.Outcome.{ok, panic}
use my_own_os.Words.{minus_one, Moved, is_negative, align_up_page}
use my_own_os.Paging.Tests.{frames_33-IsValid, exhausted, machine, machine_after}
use my_own_os.Paging.Frames.{
  alloc_frame, first_frame, first_frame_from, find_in_word, test_frame, set_frame,
}
use my_own_os.Paging.Space.{HasTables, table_index, map_user_page, get_page, fill_page}
use my_own_os.Fs.{FsNode, fs_file}
use my_own_os.Task.{
  Kind, Descriptor, blank_descriptor, State, Task, Kernel, opens, closes, find_task, put_task,
  current_task, store_task, user_heap_start, user_heap_limit,
}
use my_own_os.Task.Queue.{Running}
use my_own_os.Task.Descriptors.{
  is_node, first_free, task_get_descriptor, task_open_descriptor, task_close_descriptor, seek_base,
  task_seek_descriptor, set_descriptor, log,
}
use my_own_os.Task.Descriptors.Laws.{AllTaken, Opened, task_open_descriptor-Opened}
use my_own_os.Task.Descriptors.Close.{
  task_close_descriptor-frees, task_close_descriptor-task_open_descriptor,
}
use my_own_os.Task.Descriptors.Seek.{
  Seekable, Sought, task_seek_descriptor-Moved, task_seek_descriptor_negative,
}
use my_own_os.Task.Break.{break_target, map_pages, task_sbrk}
use my_own_os.Task.Break.Laws.{HeapIsValid}
use my_own_os.Task.Break.Sbrk.{InRange, Granted, heap_pages, task_sbrk_lem}

abbrev pub held : Descriptor
held = record { kind = Kind.node; node = 16; offset = 0xC0000000; flags = 2 }

abbrev pub process : Task
process = record {
  id = 7;
  parent_id = 1;
  state = State.runnable;
  exit_status = 0;
  esp = 0;
  ebp = 0;
  eip = 0;
  page_directory = 1;
  kernel_stack = 0;
  heap_start = user_heap_start;
  heap_break = user_heap_start;
  heap_mapped_end = user_heap_start;
  heap_limit = user_heap_limit;
  is_user_process = true;
  signal_handlers = replicate 32 0;
  pending_signals = 0;
  signal_trampoline = 0;
  signal_active = false;
  active_signal = 0;
  descriptors =
      record blank_descriptor { kind = Kind.keyboard }
      ∷ record blank_descriptor { kind = Kind.console }
      ∷ record blank_descriptor { kind = Kind.console }
      ∷ held
      ∷ replicate 12 blank_descriptor;
  working_directory = 16;
}

abbrev pub any_node : FsNode
any_node = record {
  name = [];
  mask = 0;
  uid = 0;
  gid = 0;
  flags = fs_file;
  inode = 0;
  length = 100;
  impl = 0;
  has_read = true;
  has_write = false;
  has_open = false;
  has_close = false;
  has_readdir = false;
  has_finddir = false;
  has_mkdir = false;
  ptr = 0;
  parent = 0;
}

abbrev pub kernel : Kernel (Unit {0})
kernel = record {
  ready_queue = process ∷ [];
  current = some 7;
  next_pid = 8;
  machine = machine;
  nodes = λ a. any_node;
  calls = [];
}

pub process-Running : Running kernel process
unfolding find_task
process-Running = record { current = refl; found = refl }

open_example :
    ((task_open_descriptor 24 0 kernel ≡ (minus_one, kernel)) × AllTaken process 3 16)
    ⊎ ((fd : ℕ) × (k' : Kernel (Unit {0})) × (task_open_descriptor 24 0 kernel ≡ (fd, k'))
        × Opened kernel k' process 24 0 fd)
open_example = task_open_descriptor-Opened 24 0 process-Running refl (λ e. absurd (omega arith))

close_example :
    (k' : Kernel (Unit {0})) × (task_close_descriptor 3 kernel ≡ (0, k'))
    × ((g : ℕ) → task_get_descriptor g k' ≡ (if g == 3 then none else task_get_descriptor g kernel))
    × (k'.calls ≡ (if is_node held then closes 16 ∷ [] else []))
close_example = task_close_descriptor-frees 3 process-Running refl (omega arith) (omega arith) refl

abbrev opened : Kernel (Unit {0})
opened = log (opens 24) (record kernel {
  ready_queue =
      set_descriptor 4 (record { kind = Kind.node; node = 24; offset = 0; flags = 0 }) process ∷ [];
})

opens_4 : task_open_descriptor 24 0 kernel ≡ (4, opened)
unfolding task_open_descriptor store_task put_task current_task find_task first_free
opens_4 = refl

close_open_example :
    (k'' : Kernel (Unit {0})) × (task_close_descriptor 4 opened ≡ (0, k''))
    × ((g : ℕ) → task_get_descriptor g k'' ≡ task_get_descriptor g kernel)
    × (k''.calls ≡ closes 24 ∷ opens 24 ∷ [])
close_open_example =
    task_close_descriptor-task_open_descriptor 0 refl process-Running (λ e. absurd (omega arith))
      (λ e. absurd (omega arith)) opens_4

-- Seeking from the end of the file of slot 3, of 100 bytes.
from_end : Seekable kernel process 3 held 2 100
unfolding task_get_descriptor current_task find_task seek_base
from_end = record {
  running = process-Running;
  table = refl;
  small = omega arith;
  open_at = refl;
  is_node_kind = refl;
  not_null = λ e. absurd (omega arith);
  base_of = refl;
}

-- Seeking from the current offset of slot 3, which is 0xC0000000.
from_here : Seekable kernel process 3 held 1 0xC0000000
unfolding task_get_descriptor current_task find_task seek_base
from_here = record {
  running = process-Running;
  table = refl;
  small = omega arith;
  open_at = refl;
  is_node_kind = refl;
  not_null = λ e. absurd (omega arith);
  base_of = refl;
}

seek_example :
    ((task_seek_descriptor 3 0xFFFFFFF0 2 kernel ≡ (minus_one, kernel))
      × ((r : ℕ) → Moved 100 0xFFFFFFF0 r → ¬ (r ≤ 0x7FFFFFFF)))
    ⊎ ((r : ℕ) × (k' : Kernel (Unit {0})) × (task_seek_descriptor 3 0xFFFFFFF0 2 kernel ≡ (r, k'))
        × Moved 100 0xFFFFFFF0 r
        × (r ≤ 0x7FFFFFFF)
        × Sought kernel k' 3 held r)
seek_example = task_seek_descriptor-Moved from_end 0xFFFFFFF0 (omega arith) (omega arith)

seek_negative_example :
    (k' : Kernel (Unit {0})) × (task_seek_descriptor 3 0xFFFFFFFF 1 kernel ≡ (0xBFFFFFFF, k'))
    × (is_negative 0xBFFFFFFF ≡ true)
    × Sought kernel k' 3 held 0xBFFFFFFF
seek_negative_example =
    task_seek_descriptor_negative from_here 0xFFFFFFFF 0xBFFFFFFF (omega arith) (omega arith) refl
      (omega arith) (omega arith)

no_heap-HeapIsValid : HeapIsValid process machine
no_heap-HeapIsValid = record {
  above_start = omega arith;
  below_limit = omega arith;
  limit = omega arith;
  covered = omega arith;
  mapped_below = omega arith;
  aligned = refl;
  mapped = λ a l u. absurd (omega arith);
}

first_table : (b : ℕ) → Moved 0x40000000 9 b → HasTables machine 1 0x40000000 (align_up_page b)
first_table b moved a l u =
    let here : table_index a ≡ 256 = omega arith in rw here (λ e. absurd (omega arith))

sbrk_example :
    ((task_sbrk exhausted 9 kernel ≡ ok (minus_one, kernel))
      × ((b : ℕ) → Moved 0x40000000 9 b → ¬ InRange process b))
    ⊎ ((b : ℕ) × Moved 0x40000000 9 b
        × InRange process b
        × (((heap_pages exhausted kernel process b ≡ panic)
              × (task_sbrk exhausted 9 kernel ≡ panic))
            ⊎ ((k' : Kernel (Unit {0})) × (task_sbrk exhausted 9 kernel ≡ ok (0x40000000, k'))
                × Granted kernel k' process 9 b)))
sbrk_example =
    task_sbrk_lem exhausted process-Running refl no_heap-HeapIsValid frames_33-IsValid 9 first_table
      (omega arith)

-- The first 9 bytes cost the page at the start of the heap.
grows :
    task_sbrk exhausted 9 kernel
    ≡ ok (
      0x40000000,
      record kernel {
        ready_queue = record process { heap_mapped_end = 0x40001000; heap_break = 0x40000009 } ∷ [];
        machine = machine_after;
      },
    )
unfolding task_sbrk break_target map_pages store_task put_task current_task find_task map_user_page
    get_page fill_page alloc_frame first_frame first_frame_from find_in_word test_frame set_frame
grows = refl
