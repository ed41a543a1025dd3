-- ===== src/KHeap/Validate.antt =====
-- `heap_validate` of src/kheap.c. The walk over the blocks runs on the length of the arena: a block
-- takes at least 20 bytes of it.
use my_own_os.Prelude.{ℕ, zero, suc, ◌+◌, ◌-◌, ltb, leb, ◌==◌, if◌then◌else◌}
use my_own_os.Prelude.Outcome.{Outcome, ok, panic, ◌>>=◌, ◌>>◌, assert}
use my_own_os.Words.Memory.{Memory}
use my_own_os.OrderedArray.{OrderedArray, lookup_ordered_array}
use my_own_os.KHeap.{
  heap_magic, footer_size, minimum_hole_size, magic_at, is_hole_at, size_at, header_at, Heap, World,
}

-- How often the header stands in the index, on the rounds left.
unfoldable pub matches : OrderedArray Memory ℕ → ℕ → ℕ → ℕ → Outcome ℕ
matches index header zero i = ok 0
matches index header (suc k) i = do
  entry ← lookup_ordered_array 0 i index
  rest ← matches index header k (i + 1)
  ok (if entry == header then suc rest else rest)

-- `if (header->is_hole) { ...; ASSERT(matches == 1); hole_count++; }`
unfoldable pub count_hole : Memory → OrderedArray Memory ℕ → ℕ → ℕ → Outcome ℕ
count_hole m index address hole_count =
    if is_hole_at m address == 0
    then ok hole_count
    else (do found ← matches index address index.size 0; assert (found == 1); ok (hole_count + 1))

-- The assertions on the tags of the block at `address`.
unfoldable pub check_tags : Memory → Heap → ℕ → Outcome (Unit {0})
check_tags m heap address = do
  let size = size_at m address
  assert (magic_at m address == heap_magic)
  assert (leb minimum_hole_size size)
  assert (leb size (heap.end_address - address))
  let footer = address + size - footer_size
  assert (magic_at m footer == heap_magic)
  assert (header_at m footer == address)

-- The walk over the blocks, and the two assertions behind it.
unfoldable pub check_blocks : ℕ → Memory → Heap → ℕ → ℕ → Outcome (Unit {0})
check_blocks zero m heap address hole_count =
    if ltb address heap.end_address
    then panic
    else (do assert (address == heap.end_address); assert (hole_count == heap.index.size))
check_blocks (suc fuel) m heap address hole_count =
    if ltb address heap.end_address
    then (do
      check_tags m heap address
      count ← count_hole m heap.index address hole_count
      check_blocks fuel m heap (address + size_at m address) count)
    else (do assert (address == heap.end_address); assert (hole_count == heap.index.size))

-- `if (i > 0) { ...; ASSERT(previous->size <= hole->size); }`
unfoldable pub check_order : Memory → OrderedArray Memory ℕ → ℕ → ℕ → Outcome (Unit {0})
check_order m index zero hole = ok tt
check_order m index (suc i) hole = do
  previous ← lookup_ordered_array 0 i index
  assert (leb (size_at m previous) (size_at m hole))

unfoldable pub check_index : Memory → Heap → ℕ → ℕ → Outcome (Unit {0})
check_index m heap zero i = ok tt
check_index m heap (suc k) i = do
  hole ← lookup_ordered_array 0 i heap.index
  assert (leb heap.start_address hole)
  assert (ltb hole heap.end_address)
  assert (magic_at m hole == heap_magic)
  assert (is_hole_at m hole == 1)
  check_order m heap.index i hole
  check_index m heap k (i + 1)

unfoldable pub heap_validate : {P : Type 0} → World P → Outcome (Unit {0})
heap_validate w = do
  assert (ltb w.heap.start_address w.heap.end_address)
  assert (leb w.heap.end_address w.heap.max_address)
  check_blocks (w.heap.end_address - w.heap.start_address) w.memory w.heap w.heap.start_address 0
  check_index w.memory w.heap w.heap.index.size 0
