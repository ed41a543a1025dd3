-- ===== src/Task/Break.antt =====
-- `task_sbrk` of src/task.c: the end of a process's heap, and the pages under it. A counted loop
-- over page addresses runs on the number of its rounds.
pub mod Laws
pub mod Sbrk
use my_own_os.Prelude.{
  ℕ, zero, suc, ◌+◌, ◌-◌, ◌/◌, Bool, true, false, not, ◌||◌, Option, none, some, ltb, on_some,
  if◌then◌else◌,
}
use my_own_os.Prelude.Outcome.{Outcome, ok, panic, ◌>>=◌}
use my_own_os.Words.{minus_one, add32, sub32, is_negative, page_size, align_up_page}
use my_own_os.Paging.Space.{Allocator, Machine, map_user_page}
use my_own_os.Task.{Task, Kernel, current_task, store_task}

-- The signed movement of the break; `none` is `return (u32int)-1`.
unfoldable pub break_target : ℕ → ℕ → Option ℕ
break_target old_break increment =
    if not (is_negative increment)
    then (if ltb (0xFFFFFFFF - old_break) increment then none else some (old_break + increment))
    else (let shrink = sub32 0 increment in
        if ltb old_break shrink then none else some (old_break - shrink))

-- The rounds of `for (address = start; address < end; address += PAGE_SIZE)`.
abbrev pub page_rounds : ℕ → ℕ → ℕ
page_rounds start end = (end - start + (page_size - 1)) / page_size

module _ {H : Type 0} (alloc : Allocator H) where
  unfoldable pub map_pages : ℕ → ℕ → ℕ → Machine H → Outcome (Machine H)
  map_pages dir zero address m = ok m
  map_pages dir (suc n) address m = do
    m ← map_user_page alloc dir address m
    map_pages dir n (add32 address page_size) m

  unfoldable pub task_sbrk : ℕ → Kernel H → Outcome (ℕ × Kernel H)
  task_sbrk increment k = on_some (current_task k) (ok (minus_one, k)) λ t.
      if not t.is_user_process
      then ok (minus_one, k)
      else on_some (break_target t.heap_break increment) (ok (minus_one, k)) λ new_break.
        if ltb new_break t.heap_start || ltb t.heap_limit new_break then ok (minus_one, k) else (do
          let required = align_up_page new_break
          let rounds = page_rounds t.heap_mapped_end required
          m ← map_pages t.page_directory rounds t.heap_mapped_end k.machine
          let mapped = if ltb t.heap_mapped_end required then required else t.heap_mapped_end
          ok (
            t.heap_break,
            store_task (record t { heap_mapped_end = mapped; heap_break = new_break })
                (record k { machine = m }),
          ))
