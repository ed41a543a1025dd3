-- ===== src/KHeap/Resize.antt =====
-- `expand` and `contract` of src/kheap.c. Their loops run on the number of pages; the arena has one or
-- more.
use my_own_os.Prelude.{
  ℕ, zero, suc, ◌+◌, ◌-◌, ◌*◌, ◌/◌, ◌%◌, true, not, ◌&&◌, Option, none, some, on_some, ltb, leb,
  ◌==◌, if◌then◌else◌,
}
use my_own_os.Prelude.Outcome.{Outcome, ok, ◌>>=◌, ◌>>◌, assert}
use my_own_os.Words.{page_size, align_down_page}
use my_own_os.OrderedArray.{deref}
use my_own_os.KHeap.{heap_min_size, World, Pager}

abbrev pub with_end : {P : Type 0} → World P → ℕ → World P
with_end w e = record w { heap = record w.heap { end_address = e } }

-- `new_size` up to a multiple of the page size.
abbrev pub round_up : ℕ → ℕ
round_up size = if not (size % page_size == 0) then align_down_page size + page_size else size

-- The pages from offset `i` up to `new_size`.
abbrev pub pages_up_to : ℕ → ℕ → ℕ
pages_up_to i new_size = (new_size - i + (page_size - 1)) / page_size

-- The length that `contract` keeps.
abbrev pub kept_size : ℕ → ℕ
kept_size new_size =
    if ltb (round_up new_size) heap_min_size then heap_min_size else round_up new_size

module _ {P : Type 0} (pager : Pager P) where
  -- `get_page(address, 1, kernel_directory)`: where there is no table, `kmalloc_ap` takes one from
  -- this same heap. `none` is a recursion cut short.
  unfoldable pub make_table :
      (World P → Outcome (Option (ℕ × World P))) → ℕ → World P → Outcome (Option (World P))
  make_table kmalloc_ap address w = if pager.has_table address w.pages then ok (some w) else (do
    result ← kmalloc_ap w
    on_some result (ok none) λ r. (do
      frame ← deref (pager.frame_of r.0 r.1.pages)
      ok (
          some (record r.1 {
            memory = λ x. if leb r.0 x && ltb x (r.0 + page_size) then 0 else r.1.memory x;
            pages = pager.set_table address r.0 (frame * page_size + r.0 % page_size) r.1.pages;
          }))))

  unfoldable pub map_range :
      (World P → Outcome (Option (ℕ × World P))) → ℕ → ℕ → World P → Outcome (Option (World P))
  map_range kmalloc_ap zero address w = ok (some w)
  map_range kmalloc_ap (suc k) address w = do
    result ← make_table kmalloc_ap address w
    on_some result (ok none) λ w. (do
      (memory, pages) ←
          pager.map_page address w.heap.supervisor (not w.heap.readonly) w.memory w.pages
      map_range kmalloc_ap k (address + page_size) (record w { memory = memory; pages = pages }))

  unfoldable pub expand :
      (World P → Outcome (Option (ℕ × World P))) → ℕ → World P → Outcome (Option (World P))
  expand kmalloc_ap new_size w = do
    let old_size = w.heap.end_address - w.heap.start_address
    assert (ltb old_size new_size)
    assert (if new_size % page_size == 0 then true else leb new_size 0xFFFFF000)
    let rounded = round_up new_size
    assert (leb rounded (w.heap.max_address - w.heap.start_address))
    result ← map_range kmalloc_ap (pages_up_to old_size rounded) (w.heap.start_address + old_size) w
    on_some result (ok none) λ w. ok (some (with_end w (w.heap.start_address + rounded)))

  -- `while (i >= new_size) { ...; i -= 0x1000; }`, from the last page downward.
  unfoldable pub unmap_range : ℕ → ℕ → World P → Outcome (World P)
  unmap_range zero address w = ok w
  unmap_range (suc k) address w = do
    (memory, pages) ← pager.unmap_page address w.memory w.pages
    unmap_range k (address - page_size) (record w { memory = memory; pages = pages })

  unfoldable pub contract : ℕ → World P → Outcome (ℕ × World P)
  contract new_size w = do
    let old_size = w.heap.end_address - w.heap.start_address
    assert (ltb new_size old_size)
    let kept = kept_size new_size
    w ← unmap_range ((old_size - kept) / page_size) (w.heap.end_address - page_size) w
    ok (kept, with_end w (w.heap.start_address + kept))
