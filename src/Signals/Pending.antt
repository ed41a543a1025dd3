-- ===== src/Signals/Pending.antt =====
-- `take_next_pending_signal` and `task_signal_send` of src/signal.c: which bits change.
use my_own_os.Prelude.{
  ℕ, zero, suc, ◌+◌, ◌≤◌, ◌<◌, ◌≡◌, ◌≢◌, refl, ◌∙◌, ◌⊎◌, inl, inr, Bool, true, false, not, ◌&&◌,
  ◌||◌, Option, none, some, arith, ◌==◌, if_false, Bool-cases, Option-cases,
}
use my_own_os.Words.{test_bit, clear_bit}
use my_own_os.Words.Bits.{bit_and-pow, test_bit-clear_bit, test_bit-set_bit}
use my_own_os.Task.{State, is_zombie, Task, Kernel, find_task, store_task}
use my_own_os.Task.Queue.{find_task-put_task_self, find_task-put_task_ne}
use my_own_os.Task.Schedule.{woken}
use my_own_os.Signals.{
  first_pending, take_next_pending_signal, task_signal_send, ignores, notified,
  signal_number_is_valid,
}

-- Signal `j` is pending for the task.
abbrev pub is_pending : Task → ℕ → Bool
is_pending t j = test_bit t.pending_signals j

-- No signal from `lo` up to `hi` is pending.
abbrev pub NonePending : ℕ → ℕ → ℕ → Type 0
NonePending pending lo hi = (j : ℕ) → lo ≤ j → j < hi → test_bit pending j ≡ false

abbrev pub Lowest : ℕ → ℕ → ℕ → Option ℕ → Type 0
Lowest pending lo hi none = NonePending pending lo hi
Lowest pending lo hi (some n) =
    (lo ≤ n) × (n < hi) × (test_bit pending n ≡ true) × NonePending pending lo n

NonePending-suc :
    (pending lo hi : ℕ)
    → test_bit pending lo ≡ false
    → NonePending pending (lo + 1) hi
    → NonePending pending lo hi
NonePending-suc pending lo hi h a j l u = elim (Bool-cases (lo == j)) [
  | inl here ↦ let e : lo ≡ j = ground arith in rw e at h
  | inr later ↦ a j (ground arith) u
]

Lowest-suc :
    (pending lo hi : ℕ) (r : Option ℕ)
    → test_bit pending lo ≡ false
    → Lowest pending (lo + 1) hi r
    → Lowest pending lo hi r
Lowest-suc pending lo hi none h a = NonePending-suc pending lo hi h a
Lowest-suc pending lo hi (some n) h (l, u, s, a) =
    (omega arith, u, s, NonePending-suc pending lo n h a)

pub first_pending-Lowest : (pending k n : ℕ) → Lowest pending n (n + k) (first_pending pending k n)
unfolding first_pending
first_pending-Lowest pending zero n = λ j l u. absurd (omega arith)
first_pending-Lowest pending (suc k) n =
    let e : n + 1 + k ≡ n + suc k = omega arith in
    let rest = rw e at (first_pending-Lowest pending k (n + 1)) in
    elim (Bool-cases (test_bit pending n)) [
      | inl set_here ↦
          rw (bit_and-pow pending n, set_here)
            (omega arith, omega arith, set_here, λ j l u. absurd (omega arith))
      | inr clear ↦
          rw (bit_and-pow pending n, clear)
            (Lowest-suc pending n (n + suc k) (first_pending pending k (n + 1)) clear rest)
    ]

-- What `take_next_pending_signal` makes of a task.
pub record Taken (t : Task) (n : ℕ) (t' : Task) : Type 0 where
  pub in_range : (1 ≤ n) × (n < 32)
  pub was_pending : is_pending t n ≡ true
  pub lowest : NonePending t.pending_signals 1 n
  pub rest : (j : ℕ) → j < 32 → is_pending t' j ≡ (is_pending t j && not (n == j))
  pub same : t' ≡ record t { pending_signals = clear_bit t.pending_signals n }

pub take_next_pending_signal-Taken :
    (t : Task)
    → ((take_next_pending_signal t ≡ (0, t)) × NonePending t.pending_signals 1 32)
      ⊎ ((n : ℕ) × (t' : Task) × (take_next_pending_signal t ≡ (n, t')) × Taken t n t')
unfolding take_next_pending_signal
take_next_pending_signal-Taken t =
    let found = first_pending-Lowest t.pending_signals 31 1 in
    elim (Option-cases (first_pending t.pending_signals 31 1)) [
      | inl e ↦ inl (rw e refl, rw e at found)
      | inr (n, e) ↦
          let (l, u, s, a) = rw e at found in
          inr (
            n,
            record t { pending_signals = clear_bit t.pending_signals n },
            rw e refl,
            record {
              in_range = (l, u);
              was_pending = s;
              lowest = a;
              rest = λ j h. test_bit-clear_bit t.pending_signals n j u h;
              same = refl;
            },
          )
    ]

woken_lem :
    (s : State)
    → ((s ≡ State.waiting_input) × (woken s ≡ State.runnable))
      ⊎ ((s ≢ State.waiting_input) × (woken s ≡ s))
woken_lem State.waiting_input = inl (refl, refl)
woken_lem State.runnable = inr (λ e. cc, refl)
woken_lem State.zombie = inr (λ e. cc, refl)

-- What a send to the process `t` does.
pub record Sent {H : Type 0} (k : Kernel H) (t : Task) (n : ℕ) (k' : Kernel H) (t' : Task)
    : Type 0 where
  pub target : find_task t.id k'.ready_queue ≡ some t'
  pub others : (id : ℕ) → t.id ≢ id → find_task id k'.ready_queue ≡ find_task id k.ready_queue
  pub pending : (j : ℕ) → is_pending t' j ≡ (is_pending t j || (not (ignores t n) && n == j))
  pub state :
      ((t.state ≡ State.waiting_input) × (t'.state ≡ State.runnable))
      ⊎ ((t.state ≢ State.waiting_input) × (t'.state ≡ t.state))
  pub same : t' ≡ record t { pending_signals = t'.pending_signals; state = t'.state }

-- For a valid signal number and a target that is a user process, not task 0 and no zombie: the
-- send returns 0, the bit of the signal and no other becomes pending unless the target ignores
-- the signal, a target that waits for input becomes runnable and any other keeps its state,
-- nothing else of the target changes, and no other task changes.
pub task_signal_send-Sent :
    {H : Type 0} {k : Kernel H} {t : Task} (n : ℕ)
    → find_task t.id k.ready_queue ≡ some t
    → ((t.id == 0) || not t.is_user_process || is_zombie t) ≡ false
    → signal_number_is_valid n ≡ true
    → (k' : Kernel H) × (t' : Task) × (task_signal_send t.id n k ≡ (0, k')) × Sent k t n k' t'
unfolding task_signal_send store_task
task_signal_send-Sent {H} {k} {t} n found alive valid =
    let not_probe : (n == 0) ≡ false = ground arith in
    let t' = notified t n in
    (
      store_task t' k,
      t',
      rw found (if_false _ _ alive ∙ rw (not_probe, valid) refl),
      record {
        target = find_task-put_task_self t' t k.ready_queue found;
        others = λ id ne. find_task-put_task_ne t' id k.ready_queue ne;
        pending = λ j. elim (Bool-cases (ignores t n)) [
          | inl e ↦ rw e (ground arith)
          | inr e ↦ rw e (test_bit-set_bit t.pending_signals n j)
        ];
        state = woken_lem t.state;
        same = refl;
      },
    )
