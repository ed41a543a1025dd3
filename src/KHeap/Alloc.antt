-- ===== src/KHeap/Alloc.antt =====
-- `alloc` of src/kheap.c. One call either places the block or makes the arena larger and calls
-- itself again; the second is the outcome `retry`. A larger arena may need a page table, for which
-- `kmalloc_ap` calls `alloc` on the same heap. The recursion runs on fuel, and `unfinished` is an
-- attempt in which that call was cut short.
use my_own_os.Prelude.{
  ℕ, zero, suc, ◌+◌, ◌-◌, Bool, true, false, not, Option, none, some, ltb, leb, on_some, ◌==◌,
  if◌then◌else◌,
}
use my_own_os.Prelude.Outcome.{Outcome, ok, ◌>>=◌, ◌>>◌, assert}
use my_own_os.Words.{page_size}
use my_own_os.Words.Memory.{Memory, store32}
use my_own_os.OrderedArray.{
  OrderedArray, lookup_ordered_array, insert_ordered_array, remove_ordered_array,
}
use my_own_os.KHeap.{
  heap_magic, header_size, footer_size, minimum_hole_size, size_at, World, Pager, write_tags,
  page_alignment_offset, find_smallest_hole, with_index, publish_hole,
}
use my_own_os.KHeap.Validate.{heap_validate}
use my_own_os.KHeap.Resize.{expand}

pub data Attempt (P : Type 0) : Type 0 where
  allocated : ℕ → World P → Attempt P
  retry : World P → Attempt P
  unfinished : Attempt P

-- The scan for the index entry with the greatest address, on the rounds left.
unfoldable pub last_hole : OrderedArray Memory ℕ → ℕ → ℕ → Option ℕ → ℕ → Outcome (Option ℕ)
last_hole index zero i best value = ok best
last_hole index (suc k) i best value = do
  entry ← lookup_ordered_array 0 i index
  if ltb value entry
      then last_hole index k (i + 1) (some i) entry
      else last_hole index k (i + 1) best value

-- A remainder that is too small goes with the block.
abbrev pub taken_size : ℕ → ℕ → ℕ
taken_size hole_size new_size =
    if ltb (hole_size - new_size) minimum_hole_size then hole_size else new_size

module _ {P : Type 0} where
  -- `end_hole == 0 || end_hole + end_hole->size != old_end_address` fails: the tail hole grows.
  unfoldable pub grow_hole : ℕ → ℕ → ℕ → World P → Outcome (World P)
  grow_hole i end_hole added w = do
    index ← remove_ordered_array 0 i w.heap.index
    let memory = store32 w.memory (end_hole + 8) (size_at w.memory end_hole + added)
    let footer = end_hole + size_at memory end_hole - footer_size
    let memory = store32 (store32 memory (footer + 4) end_hole) footer heap_magic
    index ← insert_ordered_array 0 memory end_hole index
    ok (record (with_index w index) { memory = memory })

  -- The new pages join the hole that ends at `old_end`, or are a hole of their own.
  unfoldable pub add_tail : ℕ → ℕ → World P → Outcome (World P)
  add_tail old_end added w = do
    last ← last_hole w.heap.index w.heap.index.size 0 none 0
    on_some last (publish_hole old_end added w) λ i. (do
      end_hole ← lookup_ordered_array 0 i w.heap.index
      if not (end_hole + size_at w.memory end_hole == old_end)
          then publish_hole old_end added w
          else grow_hole i end_hole added w)

  -- The leading hole of an aligned allocation.
  unfoldable pub split_leading : ℕ → ℕ → World P → Outcome (World P)
  split_leading header leading w = if leading == 0 then ok w else publish_hole header leading w

  -- The remainder, where it can hold its tags.
  unfoldable pub split_trailing : ℕ → ℕ → World P → Outcome (World P)
  split_trailing header size w =
      if leb minimum_hole_size size
      then (do
        assert (ltb (header + size - footer_size) w.heap.end_address)
        publish_hole header size w)
      else ok w

  -- From `orig_hole_header` on, for index entry `i`.
  unfoldable pub place_block : ℕ → ℕ → Bool → World P → Outcome (Attempt P)
  place_block i new_size page_align w = do
    hole ← lookup_ordered_array 0 i w.heap.index
    let hole_size = size_at w.memory hole
    index ← remove_ordered_array 0 i w.heap.index
    let leading = if page_align then page_alignment_offset hole else 0
    w ← split_leading hole leading (with_index w index)
    let block = hole + leading
    let rest = hole_size - leading
    let taken = taken_size rest new_size
    let w = record w { memory = write_tags w.memory block taken false }
    w ← split_trailing (block + taken) (rest - taken) w
    heap_validate w
    ok (allocated (block + header_size) w)

module _ {P : Type 0} (pager : Pager P) where
  -- `kmalloc_ap(sizeof(page_table_t), &tmp)` calls `alloc`.
  unfoldable pub make_room :
      (World P → Outcome (Option (ℕ × World P))) → ℕ → World P → Outcome (Option (World P))
  make_room kmalloc_ap new_size w = do
    let old_length = w.heap.end_address - w.heap.start_address
    let old_end = w.heap.end_address
    assert (leb old_length (0xFFFFFFFF - new_size))
    result ← expand pager kmalloc_ap (old_length + new_size) w
    on_some result (ok none) λ w. (do
      w ← add_tail old_end (w.heap.end_address - w.heap.start_address - old_length) w
      ok (some w))

  unfoldable pub attempt :
      (World P → Outcome (Option (ℕ × World P))) → ℕ → Bool → World P → Outcome (Attempt P)
  attempt kmalloc_ap size page_align w = do
    assert (ltb 0 size)
    assert (leb size (0xFFFFFFFF - header_size - footer_size))
    heap_validate w
    let new_size = size + header_size + footer_size
    found ← find_smallest_hole new_size page_align w
    on_some found
        (do result ← make_room kmalloc_ap new_size w; ok (on_some result unfinished λ w. retry w))
        λ i. place_block i new_size page_align w

  -- `none` is a recursion cut short.
  unfoldable pub alloc : ℕ → ℕ → Bool → World P → Outcome (Option (ℕ × World P))
  alloc zero size page_align w = ok none
  alloc (suc fuel) size page_align w = do
    result ← attempt (alloc fuel page_size true) size page_align w
    elim result [
      | allocated p w ↦ ok (some (p, w))
      | retry w ↦ alloc fuel size page_align w
      | unfinished ↦ ok none
    ]
