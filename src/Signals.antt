-- ===== src/Signals.antt =====
-- src/signal.c and src/signal.h: pending bits, dispositions, the frame on a process's stack. The
-- calls of `task_exit`, which does not return, are an outcome of a delivery. `Memory` is the
-- address space of the running process.
pub mod Frames
pub mod Pending
pub mod Delivered
pub mod RoundTrip
pub mod Tests
use Prim.Native.Nat.{bit_and}
use my_own_os.Prelude.{
  ℕ, zero, suc, ◌+◌, ◌-◌, ◌*◌, ◌/◌, ◌%◌, ◌^◌, Bool, true, false, not, ◌&&◌, ◌||◌, Option, none,
  some, List, [], ◌∷◌, ltb, leb, on_some, ◌==◌, if◌then◌else◌, get_or, set,
}
use my_own_os.Prelude.Outcome.{Outcome, ok, panic, ◌>>=◌}
use my_own_os.Words.{minus_one, set_bit, clear_bit}
use my_own_os.Words.Memory.{Memory, load32, store32, store_words}
use my_own_os.Paging.Frames.{Page}
use my_own_os.Paging.Space.{Allocator, Machine, get_page}
use my_own_os.Task.{
  State, Registers, Task, Kernel, is_zombie, is_runnable, find_task, current_task, store_task,
  user_stack_top, task_stack_size,
}
use my_own_os.Task.Schedule.{woken}

abbrev pub signal_count : ℕ
signal_count = 32

abbrev pub signal_kill : ℕ
signal_kill = 9

abbrev pub signal_chld : ℕ
signal_chld = 17

abbrev pub signal_default : ℕ
signal_default = 0

abbrev pub signal_ignore : ℕ
signal_ignore = 1

abbrev pub signal_frame_magic : ℕ
signal_frame_magic = 0x53494746

abbrev pub user_address_min : ℕ
user_address_min = 0x00400000

-- `sizeof(userspace_signal_frame_t)`: three words and sixteen registers.
abbrev pub frame_size : ℕ
frame_size = 76

abbrev pub stack_bottom : ℕ
stack_bottom = user_stack_top - task_stack_size

abbrev pub signal_number_is_valid : ℕ → Bool
signal_number_is_valid n = ltb 0 n && ltb n signal_count

abbrev pub signal_default_is_ignore : ℕ → Bool
signal_default_is_ignore n = n == signal_chld

abbrev pub handler_of : Task → ℕ → ℕ
handler_of t n = get_or t.signal_handlers n 0

-- `handler == SIGNAL_IGNORE || (handler == SIGNAL_DEFAULT && signal_default_is_ignore(n))`
abbrev pub ignores : Task → ℕ → Bool
ignores t n =
    (handler_of t n == signal_ignore)
    || ((handler_of t n == signal_default) && signal_default_is_ignore n)

-- The target of a send: an ignored signal takes no pending bit, and a blocking read ends.
abbrev pub notified : Task → ℕ → Task
notified t n = record t {
  pending_signals = if ignores t n then t.pending_signals else set_bit t.pending_signals n;
  state = woken t.state;
}

abbrev pub registers_words : Registers → List ℕ
registers_words r =
    r.ds ∷ r.edi ∷ r.esi ∷ r.ebp ∷ r.esp ∷ r.ebx ∷ r.edx ∷ r.ecx ∷ r.eax ∷ r.int_no ∷ r.err_code
    ∷ r.eip ∷ r.cs ∷ r.eflags ∷ r.useresp ∷ r.ss ∷ []

-- `memcpy(return_frame, &signal_frame->saved_registers, sizeof(*return_frame))`
unfoldable pub load_registers : Memory → ℕ → Registers
load_registers m a = record {
  ds = load32 m (a + 0 * 4);
  edi = load32 m (a + 1 * 4);
  esi = load32 m (a + 2 * 4);
  ebp = load32 m (a + 3 * 4);
  esp = load32 m (a + 4 * 4);
  ebx = load32 m (a + 5 * 4);
  edx = load32 m (a + 6 * 4);
  ecx = load32 m (a + 7 * 4);
  eax = load32 m (a + 8 * 4);
  int_no = load32 m (a + 9 * 4);
  err_code = load32 m (a + 10 * 4);
  eip = load32 m (a + 11 * 4);
  cs = load32 m (a + 12 * 4);
  eflags = load32 m (a + 13 * 4);
  useresp = load32 m (a + 14 * 4);
  ss = load32 m (a + 15 * 4);
}

-- The loop over the signal numbers, on the rounds left: the first whose bit is pending.
unfoldable pub first_pending : ℕ → ℕ → ℕ → Option ℕ
first_pending pending zero n = none
first_pending pending (suc k) n =
    let rest = first_pending pending k (n + 1) in
    if bit_and pending (2 ^ n) == 0 then rest else some n

unfoldable pub take_next_pending_signal : Task → ℕ × Task
take_next_pending_signal t =
    on_some (first_pending t.pending_signals 31 1) (0, t)
      λ n. (n, record t { pending_signals = clear_bit t.pending_signals n })

-- The frame that the handler finds on its stack.
unfoldable pub store_frame : Memory → ℕ → Task → ℕ → Registers → Memory
store_frame m a t n r =
    store_words m a (t.signal_trampoline ∷ n ∷ signal_frame_magic ∷ registers_words r)

pub data Delivery (H : Type 0) : Type 0 where
  resumes : Registers → Memory → Kernel H → Delivery H
  exits : ℕ → Kernel H → Delivery H

abbrev pub set_handler : Task → ℕ → ℕ → Task
set_handler t n handler = record t { signal_handlers = set t.signal_handlers n handler }

module _ {H : Type 0} where
  -- From the choice of the signal `n` on, for the task `t` whose bit for it is cleared.
  unfoldable pub deliver_signal : Registers → Memory → Kernel H → ℕ → Task → Delivery H
  deliver_signal frame mem k n t =
      let k' = store_task t k in
      let handler = handler_of t n in
      if ignores t n
      then resumes frame mem k'
      else (if (handler == signal_default) || n == signal_kill
          then exits (128 + n) k'
          else (if ltb frame.useresp (stack_bottom + frame_size)
                || ltb user_stack_top frame.useresp
                || t.signal_trampoline == 0
              then exits (128 + n) k'
              else (let unaligned = frame.useresp - frame_size in
                  let address = unaligned - unaligned % 16 in
                  if ltb address stack_bottom
                  then exits (128 + n) k'
                  else resumes (record frame { eip = handler; useresp = address })
                      (store_frame mem address t n frame)
                      (store_task (record t { signal_active = true; active_signal = n }) k))))

  unfoldable pub task_signal_deliver : Registers → Memory → Kernel H → Delivery H
  task_signal_deliver frame mem k = on_some (current_task k) (resumes frame mem k) λ t.
      if not t.is_user_process || not (is_runnable t) || t.signal_active || not (frame.cs % 4 == 3)
      then resumes frame mem k
      else (if (take_next_pending_signal t).0 == 0
          then resumes frame mem k
          else deliver_signal frame mem k (take_next_pending_signal t).0
              (take_next_pending_signal t).1)

  unfoldable pub task_signal_return : ℕ → Registers → Memory → Kernel H → ℕ × Registers × Kernel H
  task_signal_return context frame mem k =
      on_some (current_task k) (minus_one, frame, k)
        λ t.
          if not t.signal_active
            || ltb context (stack_bottom + 4)
            || ltb (user_stack_top - (frame_size - 4)) context
          then (minus_one, frame, k)
          else (if not (load32 mem (context - 4 + 8) == signal_frame_magic)
                || not (load32 mem (context - 4 + 4) == t.active_signal)
              then (minus_one, frame, k)
              else (
                0,
                load_registers mem (context - 4 + 12),
                store_task (record t { signal_active = false; active_signal = 0 }) k,
              ))

  unfoldable pub task_signal_send : ℕ → ℕ → Kernel H → ℕ × Kernel H
  task_signal_send process_id n k =
      on_some (find_task process_id k.ready_queue) (minus_one, k)
        λ t.
          if (t.id == 0) || not t.is_user_process || is_zombie t
          then (minus_one, k)
          else (if n == 0
              then (0, k)
              else (if not (signal_number_is_valid n)
                  then (minus_one, k)
                  else (0, store_task (notified t n) k)))

  -- The test of a page that is to hold code: it is there, present and for user mode.
  abbrev pub is_user_page : Option (ℕ × ℕ) → Machine H → Bool
  is_user_page none m = false
  is_user_page (some (table, index)) m =
      (m.entries table index).present && (m.entries table index).user

  unfoldable pub task_signal_set_handler :
      Allocator H → ℕ → ℕ → ℕ → Kernel H → Outcome (ℕ × Kernel H)
  task_signal_set_handler alloc n handler trampoline k =
      on_some (current_task k) (ok (minus_one, k)) λ t.
        if not t.is_user_process || not (signal_number_is_valid n) || n == signal_kill
        then ok (minus_one, k)
        else (if (handler == signal_default) || handler == signal_ignore
            then ok (handler_of t n, store_task (set_handler t n handler) k)
            else (if ltb handler user_address_min
                  || leb user_stack_top handler
                  || ltb trampoline user_address_min
                  || leb user_stack_top trampoline
                then ok (minus_one, k)
                else (do
                  (handler_page, m) ← get_page alloc handler false t.page_directory k.machine
                  (trampoline_page, m) ← get_page alloc trampoline false t.page_directory m
                  let refused =
                      not (is_user_page handler_page m) || not (is_user_page trampoline_page m)
                  let t' = set_handler (record t { signal_trampoline = trampoline }) n handler
                  ok (if refused then (minus_one, k) else (handler_of t n, store_task t' k)))))

unfoldable pub task_signal_inherit : Task → Task → Task
task_signal_inherit child parent = record child {
  signal_handlers = parent.signal_handlers;
  signal_trampoline = parent.signal_trampoline;
  pending_signals = 0;
  signal_active = false;
  active_signal = 0;
}

-- The loop of `task_signal_exec_reset` from signal 1 on.
abbrev pub reset_handlers : List ℕ → List ℕ
reset_handlers [] = []
reset_handlers (h ∷ hs) =
    (if not (h == signal_ignore) then signal_default else h) ∷ reset_handlers hs

abbrev pub reset_from_one : List ℕ → List ℕ
reset_from_one [] = []
reset_from_one (h ∷ hs) = h ∷ reset_handlers hs

pub task_signal_exec_reset : {H : Type 0} → Kernel H → Outcome (Kernel H)
task_signal_exec_reset k = on_some (current_task k) panic λ t. ok (
    store_task
      (record t {
        signal_handlers = reset_from_one t.signal_handlers;
        signal_trampoline = 0;
        signal_active = false;
        active_signal = 0;
      })
      k)
