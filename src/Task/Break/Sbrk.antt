-- ===== src/Task/Break/Sbrk.antt =====
-- `task_sbrk` of src/task.c: it grants exactly the moves that stay in the heap's range.
use my_own_os.Prelude.{
  ℕ, ◌+◌, ◌*◌, ◌%◌, ◌≤◌, ◌<◌, ◌≡◌, refl, sym, ap, ◌∙◌, if_true, if_false, ◌⊎◌, inl, inr, true, not,
  ◌||◌, arith, ltb, if◌then◌else◌, Bool-cases, Option-cases,
}
use my_own_os.Prelude.Outcome.{Outcome, ok, panic, Outcome-cases, ◌>>=◌}
use my_own_os.Words.{u32_mod, minus_one, Moved, page_size, align_up_page}
use my_own_os.Paging.Frames.Search.{IsValid}
use my_own_os.Paging.Space.{Allocator, Machine, Extends, HasTables}
use my_own_os.Task.{Task, Kernel, store_task, user_heap_limit}
use my_own_os.Task.Queue.{Running, Running-current_task, Running-store_task}
use my_own_os.Task.Break.{break_target, page_rounds, map_pages, task_sbrk}
use my_own_os.Task.Break.Laws.{
  AllMapped-Extends, AllMapped-join, HeapIsValid, map_pages-AllMapped, break_target-Moved,
}

-- The break `b` lies in the range of the task's heap.
abbrev pub InRange : Task → ℕ → Type 0
InRange t b = (t.heap_start ≤ b) × (b ≤ t.heap_limit)

abbrev new_end : Task → ℕ → ℕ
new_end t b = if ltb t.heap_mapped_end (align_up_page b) then align_up_page b else t.heap_mapped_end

abbrev grown : Task → ℕ → Task
grown t b = record t { heap_mapped_end = new_end t b; heap_break = b }

-- The end of the last page that the loop maps.
new_end-rounds :
    (mapped_end b : ℕ)
    → b ≤ user_heap_limit
    → mapped_end % page_size ≡ 0
    → mapped_end + page_rounds mapped_end (align_up_page b) * page_size
      ≡ (if ltb mapped_end (align_up_page b) then align_up_page b else mapped_end)
new_end-rounds mapped_end b h al = ground arith

-- The mapping of the pages up to the break `b`.
abbrev pub heap_pages : {H : Type 0} → Allocator H → Kernel H → Task → ℕ → Outcome (Machine H)
heap_pages alloc k t b =
    map_pages alloc t.page_directory (page_rounds t.heap_mapped_end (align_up_page b))
      t.heap_mapped_end k.machine

-- What the process gets: the new break, with every page below it mapped, and nobody's pages changed.
pub record Granted {H : Type 0} (k k' : Kernel H) (t : Task) (increment b : ℕ) : Type 0 where
  pub moved : Moved t.heap_break increment b
  pub in_range : InRange t b
  pub running : Running k' (grown t b)
  pub heap : HeapIsValid (grown t b) k'.machine
  pub extends : Extends k.machine k'.machine

module _ {H : Type 0} (alloc : Allocator H) {k : Kernel H} {t : Task} (run : Running k t)
    (user : t.is_user_process ≡ true) (heap : HeapIsValid t k.machine)
    (frames : IsValid k.machine.frame_map) (increment : ℕ)
    (there : (b : ℕ)
      → Moved t.heap_break increment b
      → HasTables k.machine t.page_directory t.heap_mapped_end (align_up_page b)) where
  grant :
      (b : ℕ) (m : Machine H)
      → Moved t.heap_break increment b
      → InRange t b
      → heap_pages alloc k t b ≡ ok m
      → Granted k (store_task (grown t b) (record k { machine = m })) t increment b
  unfolding store_task
  grant b m moved range e =
      let rounds = page_rounds t.heap_mapped_end (align_up_page b) in
      let end =
        new_end-rounds t.heap_mapped_end b (omega (arith, range.1, heap.limit)) heap.aligned in
      let bound : new_end t b ≤ user_heap_limit =
        ground (arith, range.1, heap.limit, heap.mapped_below) in
      let tables : HasTables k.machine t.page_directory t.heap_mapped_end
          (t.heap_mapped_end + rounds * page_size) =
        λ a l u. there b moved a l (ground (arith, end)) in
      let (x, fresh) =
        map_pages-AllMapped alloc t.page_directory rounds t.heap_mapped_end k.machine frames
          heap.aligned (omega (arith, end, bound)) tables e in
      let stored =
        Running-store_task {k = record k { machine = m }} {t = t} (grown t b) refl
          (record { current = run.current; found = run.found }) in
      record {
        moved = moved;
        in_range = range;
        running = stored;
        heap = record {
          above_start = range.0;
          below_limit = range.1;
          limit = heap.limit;
          covered = ground (arith, range.1, heap.limit);
          mapped_below = bound;
          aligned = ground (arith, heap.aligned);
          mapped =
              AllMapped-join m t.page_directory t.heap_start t.heap_mapped_end (new_end t b)
                (AllMapped-Extends t.page_directory t.heap_start t.heap_mapped_end x heap.mapped)
                (rw end at fresh);
        };
        extends = x;
      }

  target_only :
      (b b' : ℕ) → Moved t.heap_break increment b → Moved t.heap_break increment b' → b ≡ b'
  target_only b b' h h' = omega arith

  abbrev Outcomes : Outcome (ℕ × Kernel H) → Type 0
  Outcomes r =
      ((r ≡ ok (minus_one, k)) × ((b : ℕ) → Moved t.heap_break increment b → ¬ InRange t b))
      ⊎ ((b : ℕ) × Moved t.heap_break increment b
          × InRange t b
          × (((heap_pages alloc k t b ≡ panic) × (r ≡ panic))
              ⊎ ((k' : Kernel H) × (r ≡ ok (t.heap_break, k')) × Granted k k' t increment b)))

  granted_or_panic :
      (b : ℕ) {r : Outcome (ℕ × Kernel H)}
      → Moved t.heap_break increment b
      → InRange t b
      → (heap_pages alloc k t b >>= λ m.
          ok (t.heap_break, store_task (grown t b) (record k { machine = m })))
        ≡ r
      → Outcomes r
  granted_or_panic b {r} moved range e = elim (Outcome-cases (heap_pages alloc k t b)) [
    | inl stuck ↦ inr (b, moved, range, inl (stuck, sym (rw stuck at e)))
    | inr (m, mapped) ↦ inr (
      b,
      moved,
      range,
      inr (
        store_task (grown t b) (record k { machine = m }),
        sym (rw mapped at e),
        grant b m moved range mapped,
      ),
    )
  ]

  task_sbrk-Outcomes :
      {r : Outcome (ℕ × Kernel H)}
      → increment < u32_mod
      → task_sbrk alloc increment k ≡ r
      → Outcomes r
  unfolding task_sbrk
  task_sbrk-Outcomes {r} small e =
      let old : t.heap_break < u32_mod = omega (arith, heap.below_limit, heap.limit) in
      let iff = λ (b : ℕ). break_target-Moved t.heap_break increment b old small in
      let e1 = rw (Running-current_task run) at e in
      let e2 = sym (if_false (not t.is_user_process) _ (ap not user)) ∙ e1 in
      elim (Option-cases (break_target t.heap_break increment)) [
        | inl stuck ↦ inl (
          sym (rw stuck at e2),
          λ b moved range. cc (stuck, (iff b).1 (moved, omega (arith, range.1, heap.limit))),
        )
        | inr (b, target) ↦
            let moved = ((iff b).0 target).0 in
            let e3 = rw target at e2 in
            elim (Bool-cases (ltb b t.heap_start || ltb t.heap_limit b)) [
              | inl outside ↦ inl (
                sym (sym (if_true _ _ outside) ∙ e3),
                λ b' moved' range.
                    let same = target_only b b' moved moved' in ground (arith, range.0, range.1),
              )
              | inr inside ↦
                  granted_or_panic b moved (ground arith) (sym (if_false _ _ inside) ∙ e3)
            ]
      ]

  -- For a running user process whose heap is valid, on a machine whose frame bitmap is valid, and
  -- any 32-bit increment read as a signed number, where the pages up to the moved break have a
  -- page table: either the moved break leaves the heap's range, and the call returns -1 and
  -- changes nothing; or it lies in the range, and then the call stops the kernel if mapping the
  -- new pages does, and otherwise returns the old break with the new one set, every page below it
  -- mapped, and no translation of anybody changed.
  pub task_sbrk_lem :
      increment < u32_mod
      → ((task_sbrk alloc increment k ≡ ok (minus_one, k))
          × ((b : ℕ) → Moved t.heap_break increment b → ¬ InRange t b))
        ⊎ ((b : ℕ) × Moved t.heap_break increment b
            × InRange t b
            × (((heap_pages alloc k t b ≡ panic) × (task_sbrk alloc increment k ≡ panic))
                ⊎ ((k' : Kernel H) × (task_sbrk alloc increment k ≡ ok (t.heap_break, k'))
                    × Granted k k' t increment b)))
  task_sbrk_lem small = task_sbrk-Outcomes small refl
