-- ===== src/KHeap/Create.antt =====
-- `kmalloc_int`, its wrappers, `kfree` and `create_heap` of src/kheap.c: the bump allocator before the
-- heap exists, and the heap afterwards. The recursion of `alloc` runs on fuel.
pub mod Bump
pub mod First
use my_own_os.Prelude.{
  ℕ, zero, suc, ◌+◌, ◌-◌, ◌*◌, ◌/◌, ◌%◌, ◌≡◌, Bool, true, false, not, ◌&&◌, ◌||◌, Option, none,
  some, ltb, leb, on_some, ◌==◌, if◌then◌else◌, replicate,
}
use my_own_os.Prelude.Outcome.{Outcome, ok, panic, ◌>>=◌, ◌>>◌, assert}
use my_own_os.Words.{page_size, align_down_page}
use my_own_os.Words.Memory.{Memory, store8, store32}
use my_own_os.OrderedArray.{place_ordered_array, insert_ordered_array, deref}
use my_own_os.KHeap.{
  heap_magic, heap_index_size, header_size, footer_size, header_less_than, Heap, World, Pager,
}
use my_own_os.KHeap.Validate.{heap_validate}
use my_own_os.KHeap.Alloc.{alloc}
use my_own_os.KHeap.Free.{free}

-- The globals `placement_address` and `kheap`, and what they allocate from.
pub record Allocator (P : Type 0) : Type 0 where
  pub memory : Memory
  pub pages : P
  pub placement_address : ℕ
  pub kheap : Option Heap

-- `sizeof(heap_t)`
abbrev pub heap_t_size : ℕ
heap_t_size = 36

-- `sizeof(type_t)*HEAP_INDEX_SIZE`
abbrev pub index_bytes : ℕ
index_bytes = 4 * heap_index_size

-- The start of a bootstrap allocation.
unfoldable pub aligned_placement : ℕ → ℕ → Outcome ℕ
aligned_placement align placement =
    if (align == 1) && not (placement % page_size == 0)
    then (do
      assert (leb (align_down_page placement) 0xFFFFEFFF)
      ok (align_down_page placement + page_size))
    else ok placement

-- The old and the new `placement_address`.
unfoldable pub bump : ℕ → ℕ → ℕ → Outcome (ℕ × ℕ)
bump sz align placement = do
  start ← aligned_placement align placement
  assert (leb sz (0xFFFFFFFF - start))
  ok (start, start + sz)

module _ {P : Type 0} (pager : Pager P) where
  -- `page->frame*0x1000 + (addr&0xFFF)`
  unfoldable pub physical_address : ℕ → P → Outcome ℕ
  physical_address addr pages = do
    frame ← deref (pager.frame_of addr pages)
    ok (frame * page_size + addr % page_size)

  -- The address, `*phys` and the state; `want_phys` is `phys != 0`.
  unfoldable pub kmalloc_int :
      ℕ → ℕ → ℕ → Bool → Allocator P → Outcome (Option (ℕ × Option ℕ × Allocator P))
  kmalloc_int fuel sz align want_phys k = elim k.kheap [
    | some heap ↦ (do
      result ←
          alloc pager fuel sz (not (align % 0x100 == 0))
            (record { memory = k.memory; pages = k.pages; heap = heap })
      on_some result (ok none) λ r. (do
        let k = record k { memory = r.1.memory; pages = r.1.pages; kheap = some r.1.heap }
        if want_phys
            then (do phys ← physical_address r.0 k.pages; ok (some (r.0, some phys, k)))
            else ok (some (r.0, none, k))))
    | none ↦ (do
      r ← bump sz align k.placement_address
      ok (some (r.0, (if want_phys then some r.0 else none), record k { placement_address = r.1 })))
  ]

  unfoldable pub kmalloc : ℕ → ℕ → Allocator P → Outcome (Option (ℕ × Option ℕ × Allocator P))
  kmalloc fuel sz k = kmalloc_int fuel sz 0 false k

  pub kmalloc_a : ℕ → ℕ → Allocator P → Outcome (Option (ℕ × Option ℕ × Allocator P))
  kmalloc_a fuel sz k = kmalloc_int fuel sz 1 false k

  pub kmalloc_p : ℕ → ℕ → Allocator P → Outcome (Option (ℕ × Option ℕ × Allocator P))
  kmalloc_p fuel sz k = kmalloc_int fuel sz 0 true k

  pub kmalloc_ap : ℕ → ℕ → Allocator P → Outcome (Option (ℕ × Option ℕ × Allocator P))
  kmalloc_ap fuel sz k = kmalloc_int fuel sz 1 true k

  pub kfree : ℕ → Allocator P → Outcome (Allocator P)
  kfree p k = do
    heap ← deref k.kheap
    w ← free pager p (record { memory = k.memory; pages = k.pages; heap = heap })
    ok (record k { memory = w.memory; pages = w.pages; kheap = some w.heap })

-- The first hole takes the whole arena.
unfoldable pub write_first_hole : Memory → ℕ → ℕ → Memory
write_first_hole m start end_addr =
    let m = store32 m (start + 8) (end_addr - start) in
    let m = store32 m start heap_magic in
    let m = store8 m (start + 4) 1 in
    let m = store32 m (end_addr - footer_size) heap_magic in
    store32 m (end_addr - footer_size + 4) start

-- Where the arena starts.
abbrev pub arena_start : ℕ → ℕ
arena_start start =
    let start = start + index_bytes in
    if not (start % page_size == 0) then align_down_page start + page_size else start

-- `create_heap` behind its `kmalloc(sizeof(heap_t))`.
module _ {P : Type 0} where
  unfoldable pub make_heap : ℕ → ℕ → ℕ → Bool → Bool → Memory → P → Outcome (World P)
  make_heap start end_addr max supervisor readonly m pages = do
    assert (start % page_size == 0)
    assert (end_addr % page_size == 0)
    assert ((max % page_size == 0) || (max == 0xCFFFF000))
    assert (ltb start end_addr)
    assert (leb end_addr max)
    assert (leb heap_index_size (0xFFFFFFFF / 4))
    assert (ltb (index_bytes + header_size + footer_size) (end_addr - start))
    index ← place_ordered_array 0 (not (start == 0)) heap_index_size (some header_less_than)
    let hole = arena_start start
    let m = write_first_hole m hole end_addr
    index ← insert_ordered_array 0 m hole index
    let w : World P = record {
      memory = m;
      pages = pages;
      heap = record {
        index = index;
        start_address = hole;
        end_address = end_addr;
        max_address = max;
        supervisor = supervisor;
        readonly = readonly;
      };
    }
    heap_validate w
    ok w

module _ {P : Type 0} (pager : Pager P) where
  -- The new heap, and the state in which `kheap` is not yet set to it.
  unfoldable pub create_heap :
      ℕ → ℕ → ℕ → ℕ → Bool → Bool → Allocator P → Outcome (Option (World P × Allocator P))
  create_heap fuel start end_addr max supervisor readonly k = do
    result ← kmalloc pager fuel heap_t_size k
    on_some result (ok none) λ r. (do
      w ← make_heap start end_addr max supervisor readonly r.2.memory r.2.pages
      ok (some (w, record r.2 { memory = w.memory })))
