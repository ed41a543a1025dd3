-- ===== src/Signals/Delivered.antt =====
-- `task_signal_deliver` and `task_signal_return` of src/signal.c: the interrupted program goes on
-- as if nothing had happened.
use my_own_os.Prelude.{
  ℕ, ◌+◌, ◌-◌, ◌%◌, ◌≤◌, ◌<◌, ◌≡◌, ◌≢◌, refl, sym, ◌∙◌, ◌⊎◌, inl, inr, true, false, not, ◌||◌,
  arith, ltb, ◌==◌, if_true, if_false, Bool-cases,
}
use my_own_os.Words.Memory.{Memory}
use my_own_os.Task.{is_runnable, Registers, Task, Kernel, store_task, user_stack_top}
use my_own_os.Task.Queue.{Running, Running-current_task}
use my_own_os.Signals.{
  stack_bottom, frame_size, signal_kill, signal_default, store_frame, handler_of, ignores, Delivery,
  resumes, exits, deliver_signal, task_signal_deliver,
}
use my_own_os.Signals.Pending.{NonePending, Taken, take_next_pending_signal-Taken}

-- The handler of signal `n` is entered with its frame at `a`.
abbrev pub handled : {H : Type 0} → Registers → Memory → Kernel H → ℕ → Task → ℕ → Delivery H
handled frame mem k n t a =
    resumes (record frame { eip = handler_of t n; useresp = a }) (store_frame mem a t n frame)
      (store_task (record t { signal_active = true; active_signal = n }) k)

-- Nothing is to happen: the disposition is SIG_IGN, or SIG_DFL and the signal is SIGCHLD.
abbrev pub Ignored : Task → ℕ → Type 0
Ignored t n = (handler_of t n ≡ 1) ⊎ ((handler_of t n ≡ 0) × (n ≡ 17))

-- The highest multiple of 16 that leaves room for a frame below the stack pointer.
abbrev pub frame_address : Registers → ℕ
frame_address frame = frame.useresp - frame_size - (frame.useresp - frame_size) % 16

-- The handler of the signal cannot be called: there is no trampoline, or the stack pointer is
-- outside the stack, or the frame would reach below it.
abbrev pub NoRoom : Registers → Task → Type 0
NoRoom frame t =
    (t.signal_trampoline ≡ 0)
    ⊎ ((frame.useresp < stack_bottom + frame_size)
        ⊎ ((user_stack_top < frame.useresp) ⊎ (frame_address frame < stack_bottom)))

-- The signal kills: it is SIGKILL, or has no handler, or the handler cannot be called.
abbrev pub Fatal : Registers → ℕ → Task → Type 0
Fatal frame n t = (handler_of t n ≡ 0) ⊎ ((n ≡ 9) ⊎ NoRoom frame t)

-- The conditions under which the handler of the signal is called.
pub record Handles (frame : Registers) (n : ℕ) (t : Task) : Type 0 where
  pub has_handler : (handler_of t n ≢ 0) × (handler_of t n ≢ 1)
  pub not_kill : n ≢ 9
  pub has_trampoline : t.signal_trampoline ≢ 0
  pub low : stack_bottom ≤ frame_address frame
  pub high : (frame_address frame + frame_size ≤ frame.useresp) × (frame.useresp ≤ user_stack_top)

-- What becomes of a signal, each outcome with its condition.
abbrev pub Delivered : {H : Type 0} → Registers → Memory → Kernel H → ℕ → Task → Delivery H → Type 0
Delivered frame mem k n t r =
    ((r ≡ resumes frame mem (store_task t k)) × Ignored t n)
    ⊎ (((r ≡ exits (128 + n) (store_task t k)) × ¬ (Ignored t n) × Fatal frame n t)
        ⊎ ((r ≡ handled frame mem k n t (frame_address frame)) × Handles frame n t))

ignores-Ignored : (t : Task) (n : ℕ) → ignores t n ≡ true → Ignored t n
ignores-Ignored t n h = ground arith

kept-Ignored : (t : Task) (n : ℕ) → ignores t n ≡ false → ¬ (Ignored t n)
kept-Ignored t n h (inl i) = ground arith
kept-Ignored t n h (inr (i, j)) = ground arith

module _ {H : Type 0} (frame : Registers) (mem : Memory) (k : Kernel H) (n : ℕ) (t : Task) where
  pub deliver_signal-Delivered :
      (r : Delivery H) → deliver_signal frame mem k n t ≡ r → Delivered frame mem k n t r
  unfolding deliver_signal
  deliver_signal-Delivered r e = elim (Bool-cases (ignores t n)) [
    | inl ig ↦ inl (sym e ∙ if_true _ _ ig, ignores-Ignored t n ig)
    | inr kept ↦
        let e1 = sym (if_false _ _ kept) ∙ e in
        let not_ignored = kept-Ignored t n kept in
        elim (Bool-cases ((handler_of t n == signal_default) || n == signal_kill)) [
          | inl dead ↦
              let why : (handler_of t n ≡ 0) ⊎ (n ≡ 9) = ground arith in
              inr (inl (sym e1 ∙ if_true _ _ dead, not_ignored, dead_lem why))
          | inr live ↦
              let e2 = sym (if_false _ _ live) ∙ e1 in
              elim (Bool-cases (
                ltb frame.useresp (stack_bottom + frame_size)
                || ltb user_stack_top frame.useresp
                || t.signal_trampoline == 0)) [
                  | inl stuck ↦
                      let why : (t.signal_trampoline ≡ 0)
                          ⊎ ((frame.useresp < stack_bottom + frame_size)
                              ⊎ (user_stack_top < frame.useresp)) =
                        ground arith in
                      inr (inl (sym e2 ∙ if_true _ _ stuck, not_ignored, inr (inr (stuck_lem why))))
                  | inr room ↦
                      let e3 = sym (if_false _ _ room) ∙ e2 in
                      elim (Bool-cases (ltb (frame_address frame) stack_bottom)) [
                        | inl low ↦ inr (
                            inl (
                              sym e3 ∙ if_true _ _ low,
                              not_ignored,
                              inr (inr (inr (inr (inr (ground arith))))),
                            ))
                        | inr high ↦ inr (
                            inr (
                              sym e3 ∙ if_false _ _ high,
                              record {
                                has_handler = (λ h. ground arith, λ h. not_ignored (inl h));
                                not_kill = λ h. ground arith;
                                has_trampoline = λ h. ground arith;
                                low = ground arith;
                                high = (ground arith, ground arith);
                              },
                            ))
                      ]
                ]
        ]
  ]
    where
      dead_lem : (handler_of t n ≡ 0) ⊎ (n ≡ 9) → Fatal frame n t
      dead_lem (inl h) = inl h
      dead_lem (inr h) = inr (inl h)

      stuck_lem :
          (t.signal_trampoline ≡ 0)
            ⊎ ((frame.useresp < stack_bottom + frame_size) ⊎ (user_stack_top < frame.useresp))
          → NoRoom frame t
      stuck_lem (inl h) = inl h
      stuck_lem (inr (inl h)) = inr (inl h)
      stuck_lem (inr (inr h)) = inr (inr (inl h))

module _ {H : Type 0} {k : Kernel H} {t : Task} (run : Running k t) where
  -- For a running, runnable user process with no handler active, about to return to user mode:
  -- either no signal is pending and nothing changes, or the lowest pending signal alone is taken,
  -- and it is ignored, its disposition being to ignore or the default one of SIGCHLD; or, no such
  -- signal, the process exits with 128 and its number, where it has no handler, is SIGKILL, or
  -- its handler cannot be called for lack of a trampoline or of room on the stack; or its handler
  -- is entered on a frame within the stack, where it has one, is not SIGKILL, and there is a
  -- trampoline.
  pub task_signal_deliver-Delivered :
      (frame : Registers) (mem : Memory)
      → t.is_user_process ≡ true
      → is_runnable t ≡ true
      → t.signal_active ≡ false
      → frame.cs % 4 ≡ 3
      → ((task_signal_deliver frame mem k ≡ resumes frame mem k)
          × NonePending t.pending_signals 1 32)
        ⊎ ((n : ℕ) × (t' : Task) × Taken t n t'
            × Delivered frame mem k n t' (task_signal_deliver frame mem k))
  unfolding task_signal_deliver
  task_signal_deliver-Delivered frame mem user runs idle ring =
      let guard : (not t.is_user_process
            || not (is_runnable t)
            || t.signal_active
            || not (frame.cs % 4 == 3))
          ≡ false =
        ground arith in
      elim (take_next_pending_signal-Taken t) [
        | inl (e, quiet) ↦
            inl (rw (Running-current_task run) (if_false _ _ guard ∙ rw e refl), quiet)
        | inr (n, t', e, taken) ↦
            let some_signal : (n == 0) ≡ false = ground (arith, taken.in_range) in
            inr (
              n,
              t',
              taken,
              deliver_signal-Delivered frame mem k n t' _ (
                  sym (
                    rw (Running-current_task run) (if_false _ _ guard ∙ rw (e, some_signal) refl))),
            )
      ]
