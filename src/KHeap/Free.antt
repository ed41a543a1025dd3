-- ===== src/KHeap/Free.antt =====
-- `free` of src/kheap.c: merging with the neighbours, and giving back the pages at the end.
use my_own_os.Prelude.{
  ℕ, zero, suc, ◌+◌, ◌-◌, Bool, true, false, not, ◌&&◌, ltb, leb, ◌==◌, if◌then◌else◌,
}
use my_own_os.Prelude.Outcome.{Outcome, ok, panic, ◌>>=◌, ◌>>◌, assert}
use my_own_os.Words.{add32, sub32}
use my_own_os.Words.Memory.{Memory, store8, store32}
use my_own_os.OrderedArray.{
  OrderedArray, lookup_ordered_array, insert_ordered_array, remove_ordered_array,
}
use my_own_os.KHeap.{
  heap_magic, header_size, footer_size, minimum_hole_size, magic_at, is_hole_at, size_at, header_at,
  World, Pager, with_index,
}
use my_own_os.KHeap.Validate.{heap_validate}
use my_own_os.KHeap.Resize.{contract}

-- The loop that finds a header in the index, on the rounds left. Running out is the failed
-- assertion behind it.
unfoldable pub find_entry : OrderedArray Memory ℕ → ℕ → ℕ → ℕ → Outcome ℕ
find_entry index header zero i = panic
find_entry index header (suc k) i = do
  entry ← lookup_ordered_array 0 i index
  let rest = find_entry index header k (i + 1)
  if entry == header then ok i else rest

module _ {P : Type 0} where
  unfoldable pub unpublish : ℕ → World P → Outcome (World P)
  unpublish header w = do
    i ← find_entry w.heap.index header w.heap.index.size 0
    index ← remove_ordered_array 0 i w.heap.index
    ok (with_index w index)

  -- The header of the merged hole, and the state.
  unfoldable pub merge_left : ℕ → ℕ → World P → Outcome (ℕ × World P)
  merge_left header footer w =
      let test_footer = header - footer_size in
      let left = header_at w.memory test_footer in
      if ltb w.heap.start_address header
        && (magic_at w.memory test_footer == heap_magic)
        && (is_hole_at w.memory left == 1)
      then (do
        w ← unpublish left w
        let cache_size = size_at w.memory header
        let memory = store32 w.memory (footer + 4) left
        let memory = store32 memory (left + 8) (add32 (size_at memory left) cache_size)
        ok (left, record w { memory = memory }))
      else ok (header, w)

  -- The footer of the merged hole, and the state.
  unfoldable pub merge_right : ℕ → ℕ → World P → Outcome (ℕ × World P)
  merge_right header footer w =
      let test_header = footer + footer_size in
      if ltb test_header w.heap.end_address
        && (magic_at w.memory test_header == heap_magic)
        && not (is_hole_at w.memory test_header == 0)
      then (do
        let memory =
            store32 w.memory (header + 8)
              (add32 (size_at w.memory header) (size_at w.memory test_header))
        let footer = test_header + size_at memory test_header - footer_size
        let memory = store32 memory (footer + 4) header
        w ← unpublish test_header (record w { memory = memory })
        ok (footer, w))
      else ok (footer, w)

  unfoldable pub insert_hole : Bool → ℕ → World P → Outcome (World P)
  insert_hole do_add header w =
      if do_add
      then (do index ← insert_ordered_array 0 w.memory header w.heap.index; ok (with_index w index))
      else ok w

  -- The assertions on the block at `header`.
  unfoldable pub check_block : ℕ → World P → Outcome (Unit {0})
  check_block header w = do
    let size = size_at w.memory header
    assert (magic_at w.memory header == heap_magic)
    assert (is_hole_at w.memory header == 0)
    assert (leb minimum_hole_size size)
    assert (leb size (w.heap.end_address - header))
    assert (magic_at w.memory (header + size - footer_size) == heap_magic)

module _ {P : Type 0} (pager : Pager P) where
  -- The Boolean is `do_add`.
  unfoldable pub release_tail : ℕ → ℕ → World P → Outcome (Bool × World P)
  release_tail header footer w =
      if footer + footer_size == w.heap.end_address
      then (do
        let old_length = w.heap.end_address - w.heap.start_address
        (new_length, w) ← contract pager (header - w.heap.start_address) w
        let released = sub32 old_length new_length
        let size = size_at w.memory header
        let memory = store32 w.memory (header + 8) (sub32 size released)
        let tail = header + size_at memory header - footer_size
        let memory = store32 (store32 memory tail heap_magic) (tail + 4) header
        ok (if ltb released size then (true, record w { memory = memory }) else (false, w)))
      else ok (true, w)

  unfoldable pub free : ℕ → World P → Outcome (World P)
  free p w = if p == 0 then ok w else (do
    heap_validate w
    assert (leb (w.heap.start_address + header_size) p)
    assert (ltb p w.heap.end_address)
    let header = p - header_size
    check_block header w
    let footer = header + size_at w.memory header - footer_size
    let w = record w { memory = store8 w.memory (header + 4) 1 }
    (header, w) ← merge_left header footer w
    (footer, w) ← merge_right header footer w
    (do_add, w) ← release_tail header footer w
    w ← insert_hole do_add header w
    heap_validate w
    ok w)
