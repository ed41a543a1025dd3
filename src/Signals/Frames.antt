-- ===== src/Signals/Frames.antt =====
-- What `task_signal_deliver` and `task_signal_return` of src/signal.c do to the interrupted program.
use my_own_os.Prelude.{ℕ, ◌+◌, ◌*◌, ◌<◌, ◌≡◌, refl, ◌∷◌, arith, get_or}
use my_own_os.Words.Memory.{Memory, AllWords, load32, load32-store_words}
use my_own_os.Task.{Registers, Task}
use my_own_os.Signals.{signal_frame_magic, registers_words, load_registers, store_frame}

-- Registers and addresses fit 32 bits.
abbrev pub IsFrame : Task → ℕ → Registers → Type 0
IsFrame t n r = AllWords (t.signal_trampoline ∷ n ∷ signal_frame_magic ∷ registers_words r)

module _ (m : Memory) (a n : ℕ) (t : Task) (r : Registers) (w : IsFrame t n r) where
  frame_word :
      (i b : ℕ)
      → i < 19
      → a + i * 4 ≡ b
      → load32 (store_frame m a t n r) b
        ≡ get_or (t.signal_trampoline ∷ n ∷ signal_frame_magic ∷ registers_words r) i 0
  unfolding store_frame
  frame_word i b h e = rw (← e) (
      load32-store_words m a (t.signal_trampoline ∷ n ∷ signal_frame_magic ∷ registers_words r) i w
        h)

  pub load_registers-store_frame : load_registers (store_frame m a t n r) (a + 12) ≡ r
  unfolding load_registers
  load_registers-store_frame =
      rw
        (
          frame_word 3 (a + 12 + 0 * 4) (omega arith) (omega arith),
          frame_word 4 (a + 12 + 1 * 4) (omega arith) (omega arith),
          frame_word 5 (a + 12 + 2 * 4) (omega arith) (omega arith),
          frame_word 6 (a + 12 + 3 * 4) (omega arith) (omega arith),
          frame_word 7 (a + 12 + 4 * 4) (omega arith) (omega arith),
          frame_word 8 (a + 12 + 5 * 4) (omega arith) (omega arith),
          frame_word 9 (a + 12 + 6 * 4) (omega arith) (omega arith),
          frame_word 10 (a + 12 + 7 * 4) (omega arith) (omega arith),
          frame_word 11 (a + 12 + 8 * 4) (omega arith) (omega arith),
          frame_word 12 (a + 12 + 9 * 4) (omega arith) (omega arith),
          frame_word 13 (a + 12 + 10 * 4) (omega arith) (omega arith),
          frame_word 14 (a + 12 + 11 * 4) (omega arith) (omega arith),
          frame_word 15 (a + 12 + 12 * 4) (omega arith) (omega arith),
          frame_word 16 (a + 12 + 13 * 4) (omega arith) (omega arith),
          frame_word 17 (a + 12 + 14 * 4) (omega arith) (omega arith),
          frame_word 18 (a + 12 + 15 * 4) (omega arith) (omega arith),
        )
        refl

  pub load32-store_frame_number : load32 (store_frame m a t n r) (a + 4) ≡ n
  load32-store_frame_number = frame_word 1 (a + 4) (omega arith) (omega arith)

  pub load32-store_frame_magic : load32 (store_frame m a t n r) (a + 8) ≡ signal_frame_magic
  load32-store_frame_magic = frame_word 2 (a + 8) (omega arith) (omega arith)
