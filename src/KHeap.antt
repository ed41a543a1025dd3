-- ===== src/KHeap.antt =====
-- src/kheap.h and src/kheap.c: the boundary-tag heap. `Memory` is the kernel's address space by byte.
-- A header is the words `magic` and `size` at 0 and 8 and the byte `is_hole` at 4, a footer the
-- words `magic` and `header` at 0 and 4. The index's slots lie below the arena and are a list.
-- Mapping pages is the interface `Pager`, on the state `P`. Sums of addresses and sizes that the
-- assertions before them bound are written without the wrap-around.
pub mod Validate
pub mod Resize
pub mod Alloc
pub mod Free
pub mod Create
pub mod Blocks
pub mod Bag
pub mod Accepts
pub mod Index
pub mod Gap
pub mod Cut
pub mod Place
pub mod Search
pub mod Unpublish
pub mod Merge
pub mod Neighbours
pub mod Release
pub mod Contract
pub mod Shrink
pub mod Grow
pub mod Total
pub mod Paged
pub mod Tests
use my_own_os.Prelude.{
  ℕ, zero, suc, ◌+◌, ◌-◌, ◌*◌, ◌%◌, ◌≤◌, ◌<◌, ◌≡◌, ◌⊎◌, Bool, true, false, not, ◌&&◌, ◌||◌, Option,
  none, some, ltb, leb, ◌==◌, if◌then◌else◌,
}
use my_own_os.Prelude.Outcome.{Outcome, ok, panic, ◌>>=◌}
use my_own_os.Words.{page_size}
use my_own_os.Words.Memory.{Memory, store8, load32, store32}
use my_own_os.OrderedArray.{OrderedArray, lookup_ordered_array, insert_ordered_array}

abbrev pub heap_magic : ℕ
heap_magic = 0x123890AB

abbrev pub heap_index_size : ℕ
heap_index_size = 0x20000

abbrev pub heap_min_size : ℕ
heap_min_size = 0x70000

-- `sizeof(header_t)`
abbrev pub header_size : ℕ
header_size = 12

-- `sizeof(footer_t)`
abbrev pub footer_size : ℕ
footer_size = 8

-- `sizeof(header_t) + sizeof(footer_t)`
abbrev pub minimum_hole_size : ℕ
minimum_hole_size = 20

abbrev pub magic_at : Memory → ℕ → ℕ
magic_at m a = load32 m a

abbrev pub is_hole_at : Memory → ℕ → ℕ
is_hole_at m header = m (header + 4)

abbrev pub size_at : Memory → ℕ → ℕ
size_at m header = load32 m (header + 8)

-- `footer->header`
abbrev pub header_at : Memory → ℕ → ℕ
header_at m footer = load32 m (footer + 4)

-- `heap_t`
pub record Heap : Type 0 where
  pub index : OrderedArray Memory ℕ
  pub start_address : ℕ
  pub end_address : ℕ
  pub max_address : ℕ
  pub supervisor : Bool
  pub readonly : Bool

pub record World (P : Type 0) : Type 0 where
  pub memory : Memory
  pub pages : P
  pub heap : Heap

-- What the heap uses of paging.c, for the kernel's directory: whether the page table of an address is
-- there, and its being put in the directory; `alloc_frame` of the entry of an address whose table is
-- there, and `free_frame` of it; and the frame of an address that is mapped. A frame that comes or
-- goes leaves the bytes of other pages as they are, and one that comes leaves the tables.
pub record Pager (P : Type 0) : Type 0 where
  pub has_table : ℕ → P → Bool
  pub set_table : ℕ → ℕ → ℕ → P → P
  pub map_page : ℕ → Bool → Bool → Memory → P → Outcome (Memory × P)
  pub unmap_page : ℕ → Memory → P → Outcome (Memory × P)
  pub frame_of : ℕ → P → Option ℕ
  pub map_page_keeps :
      (address : ℕ) (is_kernel is_writeable : Bool) {m m' : Memory} {pages pages' : P}
      → map_page address is_kernel is_writeable m pages ≡ ok (m', pages')
      → (a : ℕ) → (a < address) ⊎ (address + page_size ≤ a)
      → m' a ≡ m a
  pub map_page_tables :
      (address : ℕ) (is_kernel is_writeable : Bool) {m m' : Memory} {pages pages' : P}
      → map_page address is_kernel is_writeable m pages ≡ ok (m', pages')
      → (a : ℕ) → has_table a pages' ≡ has_table a pages
  pub unmap_page_keeps :
      (address : ℕ) {m m' : Memory} {pages pages' : P}
      → unmap_page address m pages ≡ ok (m', pages')
      → (a : ℕ) → (a < address) ⊎ (address + page_size ≤ a)
      → m' a ≡ m a

-- `(*_t_less_than)` of the index
abbrev pub header_less_than : Memory → ℕ → ℕ → Bool
header_less_than m a b = ltb (size_at m a) (size_at m b)

abbrev pub bit_of : Bool → ℕ
bit_of b = if b then 1 else 0

-- Both tags of the block of `size` bytes at `header`. Where the code writes them in another order, the
-- stores go to different bytes.
unfoldable pub write_tags : Memory → ℕ → ℕ → Bool → Memory
write_tags m header size hole =
    let m = store32 m header heap_magic in
    let m = store8 m (header + 4) (bit_of hole) in
    let m = store32 m (header + 8) size in
    let m = store32 m (header + size - footer_size) heap_magic in
    store32 m (header + size - footer_size + 4) header

abbrev pub page_alignment_offset : ℕ → ℕ
page_alignment_offset header =
    let payload_address = header + header_size in
    let offset = (page_size - payload_address % page_size) % page_size in
    if not (offset == 0) && ltb offset minimum_hole_size then offset + page_size else offset

-- The test of the loop of `find_smallest_hole`.
abbrev pub fits : Memory → ℕ → Bool → ℕ → Bool
fits m size page_align header =
    if page_align
    then (let offset = page_alignment_offset header in
        leb offset (0xFFFFFFFF - size) && leb (size + offset) (size_at m header))
    else leb size (size_at m header)

-- The loop, on the rounds left; `none` is -1.
unfoldable pub find_hole : Memory → OrderedArray Memory ℕ → ℕ → Bool → ℕ → ℕ → Outcome (Option ℕ)
find_hole m index size page_align zero i = ok none
find_hole m index size page_align (suc k) i = do
  header ← lookup_ordered_array 0 i index
  let rest = find_hole m index size page_align k (i + 1)
  if fits m size page_align header then ok (some i) else rest

module _ {P : Type 0} where
  unfoldable pub find_smallest_hole : ℕ → Bool → World P → Outcome (Option ℕ)
  find_smallest_hole size page_align w =
      find_hole w.memory w.heap.index size page_align w.heap.index.size 0

  abbrev pub with_index : World P → OrderedArray Memory ℕ → World P
  with_index w index = record w { heap = record w.heap { index = index } }

  -- A hole gets its tags and its place in the index.
  unfoldable pub publish_hole : ℕ → ℕ → World P → Outcome (World P)
  publish_hole header size w = do
    let memory = write_tags w.memory header size true
    index ← insert_ordered_array 0 memory header w.heap.index
    ok (record (with_index w index) { memory = memory })
