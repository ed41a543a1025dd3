-- ===== src/Signals/RoundTrip.antt =====
-- `task_signal_return` of src/signal.c after `task_signal_deliver`: the interrupted program goes on
-- as if nothing had happened.
use my_own_os.Prelude.{
  ℕ, ◌+◌, ◌-◌, ◌%◌, ◌≤◌, ◌≡◌, refl, sym, subst, ◌∙◌, ap, inl, inr, true, false, ◌∷◌, arith, ltb,
  ==_refl,
}
use my_own_os.Words.Memory.{Memory, AllWords}
use my_own_os.Task.{is_runnable, Registers, Task, Kernel, store_task, user_stack_top}
use my_own_os.Task.Queue.{Running, Running-current_task, Running-store_task, Running-unique}
use my_own_os.Signals.{
  stack_bottom, frame_size, registers_words, store_frame, Delivery, resumes, exits,
  task_signal_deliver, task_signal_return,
}
use my_own_os.Signals.Frames.{
  IsFrame, load_registers-store_frame, load32-store_frame_number, load32-store_frame_magic,
}
use my_own_os.Signals.Delivered.{frame_address, Delivered, task_signal_deliver-Delivered}

module _ {H : Type 0} {k : Kernel H} {t : Task} (run : Running k t) where
  -- What a return from the handler finds.
  return-handled :
      (frame frame1 : Registers) (mem : Memory) (n a : ℕ) (t' : Task)
      → t'.id ≡ t.id
      → IsFrame t' n frame
      → stack_bottom ≤ a
      → a + frame_size ≤ user_stack_top
      → let k' = store_task (record t' { signal_active = true; active_signal = n }) k in
        task_signal_return (a + 4) frame1 (store_frame mem a t' n frame) k'
        ≡ (0, frame, store_task (record t' { signal_active = false; active_signal = 0 }) k')
  unfolding task_signal_return
  return-handled frame frame1 mem n a t' same w lo hi =
      let t1 = record t' { signal_active = true; active_signal = n } in
      let run' = Running-store_task {k = k} {t = t} t1 same run in
      let saved : a + 4 - 4 + 12 ≡ a + 12 = omega arith in
      let number : a + 4 - 4 + 4 ≡ a + 4 = omega arith in
      let magic : a + 4 - 4 + 8 ≡ a + 8 = omega arith in
      let low : ltb (a + 4) (stack_bottom + 4) ≡ false = ground arith in
      let high : ltb (user_stack_top - (frame_size - 4)) (a + 4) ≡ false = ground arith in
      rw
        (
          Running-current_task run',
          low,
          high,
          saved,
          number,
          magic,
          load32-store_frame_number mem a n t' frame w,
          load32-store_frame_magic mem a n t' frame w,
          ==_refl n,
          load_registers-store_frame mem a n t' frame w,
        )
        refl

-- The task when its handler has returned.
abbrev pub idle_again : Task → Task
idle_again t = record t { signal_active = false; active_signal = 0 }

-- A return undoes a delivery that entered a handler.
abbrev Undone : {H : Type 0} → Registers → Registers → Delivery H → Type 0
Undone frame frame1 (resumes frame' mem' k') =
    (t1 : Task)
    → Running k' t1
    → t1.signal_active ≡ true
    → task_signal_return (frame'.useresp + 4) frame1 mem' k'
      ≡ (0, frame, store_task (idle_again t1) k')
Undone frame frame1 (exits status k') = Unit {0}

module _ {H : Type 0} {k : Kernel H} {t : Task} (run : Running k t) (idle : t.signal_active ≡ false)
    (frame frame1 : Registers) (mem : Memory) where
  not_entered :
      (t' : Task)
      → t'.signal_active ≡ false
      → (k' : Kernel H) → Running k' t'
      → Undone frame frame1 (resumes frame mem k')
  not_entered t' off k' run' t1 run1 on =
      let same = Running-unique run' run1 in cc (ap (λ (u : Task). u.signal_active) same)

  Delivered-Undone :
      (n : ℕ) (t' : Task) (r : Delivery H)
      → t'.id ≡ t.id
      → t'.signal_active ≡ false
      → IsFrame t' n frame
      → Delivered frame mem k n t' r
      → Undone frame frame1 r
  Delivered-Undone n t' r same off w (inl (e, _)) =
      subst (Undone frame frame1) (sym e)
        (not_entered t' off (store_task t' k) (Running-store_task {k = k} {t = t} t' same run))
  Delivered-Undone n t' r same off w (inr (inl (e, _, _))) = subst (Undone frame frame1) (sym e) tt
  Delivered-Undone n t' r same off w (inr (inr (e, h))) =
      let a = frame_address frame in
      subst (Undone frame frame1) (sym e) λ t1 run1 on.
        let u = record t' { signal_active = true; active_signal = n } in
        let is_u : u ≡ t1 = Running-unique (Running-store_task {k = k} {t = t} u same run) run1 in
        subst
          (λ (v : Task).
            task_signal_return (a + 4) frame1 (store_frame mem a t' n frame) (store_task u k)
            ≡ (0, frame, store_task (idle_again v) (store_task u k)))
          is_u (return-handled run frame frame1 mem n a t' same w h.low (omega (arith, h.high)))

  -- For a running user process with no handler active, about to return to user mode with
  -- registers and a trampoline of 32 bits: when a delivery resumes the process with a handler
  -- active, a sigreturn with the address above the frame's return address, on the stack as the
  -- delivery left it, restores all registers as they were and leaves the process with no handler
  -- active.
  pub task_signal_return-task_signal_deliver :
      {frame' : Registers} {mem' : Memory} {k' : Kernel H} {t1 : Task}
      → t.is_user_process ≡ true
      → is_runnable t ≡ true
      → frame.cs % 4 ≡ 3
      → AllWords (t.signal_trampoline ∷ registers_words frame)
      → task_signal_deliver frame mem k ≡ resumes frame' mem' k'
      → Running k' t1
      → t1.signal_active ≡ true
      → task_signal_return (frame'.useresp + 4) frame1 mem' k'
        ≡ (0, frame, store_task (idle_again t1) k')
  task_signal_return-task_signal_deliver {frame'} {mem'} {k'} {t1} user runs ring w e run1 on =
      let undone : Undone frame frame1 (resumes frame' mem' k') =
        subst (Undone frame frame1) e
          (elim (task_signal_deliver-Delivered run frame mem user runs idle ring) [
            | inl (same, _) ↦ subst (Undone frame frame1) (sym same) (not_entered t idle k run)
            | inr (n, t', taken, d) ↦
                Delivered-Undone n t' _ (ap (λ (v : Task). v.id) taken.same)
                  (ap (λ (v : Task). v.signal_active) taken.same ∙ idle)
                  (
                    rw (ap (λ (v : Task). v.signal_trampoline) taken.same) w.0,
                    (omega (arith, taken.in_range), (omega arith, w.1)),
                  )
                  d
          ]) in
      undone t1 run1 on
