-- ===== src/Signals/Tests.antt =====
-- Runs of src/signal.c on a process that handles signal 10 and has it pending.
use my_own_os.Prelude.{ℕ, ◌+◌, ◌≡◌, ◌⊎◌, refl, true, [], ◌∷◌, arith, set, replicate}
use my_own_os.Words.Memory.{Memory}
use my_own_os.Task.{State, Registers, Task, Kernel, find_task, put_task, current_task, store_task}
use my_own_os.Task.Queue.{Running}
use my_own_os.Task.Tests.{kernel, process}
use my_own_os.Signals.{
  resumes, first_pending, take_next_pending_signal, deliver_signal, task_signal_deliver,
  task_signal_return, task_signal_send, store_frame,
}
use my_own_os.Signals.Pending.{NonePending, Taken, Sent, task_signal_send-Sent}
use my_own_os.Signals.Delivered.{Delivered, task_signal_deliver-Delivered}
use my_own_os.Signals.RoundTrip.{idle_again, task_signal_return-task_signal_deliver}

abbrev handling : Task
handling = record process {
  signal_handlers = set (replicate 32 0) 10 0x400100;
  signal_trampoline = 0x400200;
  pending_signals = 0x400;
}

abbrev handling_kernel : Kernel (Unit {0})
handling_kernel = record kernel { ready_queue = handling ∷ [] }

handling-Running : Running handling_kernel handling
unfolding find_task
handling-Running = record { current = refl; found = refl }

abbrev pub interrupted : Registers
interrupted = record {
  ds = 35;
  edi = 1;
  esi = 2;
  ebp = 3;
  esp = 4;
  ebx = 5;
  edx = 6;
  ecx = 7;
  eax = 8;
  int_no = 128;
  err_code = 0;
  eip = 0x400300;
  cs = 27;
  eflags = 514;
  useresp = 0xBFFFF000;
  ss = 35;
}

abbrev empty : Memory
empty = λ a. 0

abbrev entered : Task
entered = record handling { pending_signals = 0; signal_active = true; active_signal = 10 }

abbrev entered_kernel : Kernel (Unit {0})
entered_kernel = record kernel { ready_queue = entered ∷ [] }

entered-Running : Running entered_kernel entered
unfolding find_task
entered-Running = record { current = refl; found = refl }

-- 0xBFFFF000 - 76 is rounded down to a multiple of 16.
enters :
    task_signal_deliver interrupted empty handling_kernel
    ≡ resumes
        (record interrupted { eip = 0x400100; useresp = 0xBFFFEFB0 })
        (store_frame empty 0xBFFFEFB0 (record handling { pending_signals = 0 }) 10 interrupted)
        entered_kernel
unfolding task_signal_deliver deliver_signal take_next_pending_signal first_pending store_task
    put_task current_task find_task
enters = refl

-- Process 7 waits for the keyboard.
abbrev waiting : Task
waiting = record process { state = State.waiting_input }

abbrev waiting_kernel : Kernel (Unit {0})
waiting_kernel = record kernel { ready_queue = waiting ∷ [] }

send_example :
    (k' : Kernel (Unit {0})) × (t' : Task) × (task_signal_send 7 10 waiting_kernel ≡ (0, k'))
    × Sent waiting_kernel waiting 10 k' t'
unfolding find_task
send_example = task_signal_send-Sent {k = waiting_kernel} {t = waiting} 10 refl refl refl

deliver_example :
    ((task_signal_deliver interrupted empty handling_kernel
        ≡ resumes interrupted empty handling_kernel)
      × NonePending 0x400 1 32)
    ⊎ ((n : ℕ) × (t' : Task) × Taken handling n t'
        × Delivered interrupted empty handling_kernel n t'
            (task_signal_deliver interrupted empty handling_kernel))
deliver_example =
    task_signal_deliver-Delivered handling-Running interrupted empty refl refl refl refl

sigreturn_example :
    task_signal_return
      (0xBFFFEFB0 + 4)
      interrupted
      (store_frame empty 0xBFFFEFB0 (record handling { pending_signals = 0 }) 10 interrupted)
      entered_kernel
    ≡ (0, interrupted, store_task (idle_again entered) entered_kernel)
sigreturn_example =
    task_signal_return-task_signal_deliver handling-Running refl interrupted interrupted empty refl
      refl refl
      (
        omega arith,
        (
          omega arith,
          (
            omega arith,
            (
              omega arith,
              (
                omega arith,
                (
                  omega arith,
                  (
                    omega arith,
                    (
                      omega arith,
                      (
                        omega arith,
                        (
                          omega arith,
                          (
                            omega arith,
                            (
                              omega arith,
                              (
                                omega arith,
                                (omega arith, (omega arith, (omega arith, (omega arith, tt)))),
                              ),
                            ),
                          ),
                        ),
                      ),
                    ),
                  ),
                ),
              ),
            ),
          ),
        ),
      )
      enters entered-Running refl
