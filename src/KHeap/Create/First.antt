-- ===== src/KHeap/Create/First.antt =====
-- `create_heap` of src/kheap.c makes a heap of one hole.
use my_own_os.Prelude.{
  ℕ, ◌+◌, ◌-◌, ◌%◌, ◌≤◌, ◌<◌, ◌≡◌, refl, ◌∙◌, ap, ◌⊎◌, inl, inr, Bool, true, false, none, some,
  ◌||◌, List, [], ◌∷◌, arith, ltb, leb, le→leb, lt→ltb, ◌==◌, if_true, length,
}
use my_own_os.Prelude.Outcome.{Returns, returned, Returns->>=}
use my_own_os.Words.{u32_mod, page_size}
use my_own_os.Words.Memory.{
  Memory, IsApart, store8, store32, store32-apart, stores-apart, load32-store32_apart,
  load32-store32_self, load32-store8_apart,
}
use my_own_os.OrderedArray.Place.{place_ordered_array-IsValid}
use my_own_os.KHeap.{
  heap_magic, heap_index_size, header_size, footer_size, header_less_than, World, Pager,
}
use my_own_os.KHeap.Blocks.{IsBlock}
use my_own_os.KHeap.Bag.{count}
use my_own_os.KHeap.Accepts.{IsHeap, heap_validate-ok}
use my_own_os.KHeap.Gap.{IsGapped, IsGapped-IsHeap}
use my_own_os.KHeap.Gap.Fill.{insert-IsGapped}
use my_own_os.KHeap.Create.{
  Allocator, heap_t_size, index_bytes, write_first_hole, arena_start, make_heap, kmalloc,
  create_heap,
}
use my_own_os.KHeap.Create.Bump.{kmalloc_int-bump}

module _ (m : Memory) (a e : ℕ) (big : a + 20 ≤ e) (small : e < u32_mod) where
  write_first_hole-IsBlock : IsBlock (write_first_hole m a e) a (e - a) true
  unfolding write_first_hole
  write_first_hole-IsBlock =
      let m1 = store32 m (a + 8) (e - a) in
      let m2 = store32 m1 a heap_magic in
      let m3 = store8 m2 (a + 4) 1 in
      let m4 = store32 m3 (e - 8) heap_magic in
      let foot : a + (e - a) - 8 ≡ e - 8 = omega (arith, big) in
      record {
        big = omega (arith, big);
        magic =
            load32-store32_apart m4 (e - 8 + 4) a a (inl (omega arith))
            ∙ (load32-store32_apart m3 (e - 8) heap_magic a (inl (omega arith))
                ∙ (load32-store8_apart m2 (a + 4) 1 a (inl (omega arith))
                    ∙ load32-store32_self m1 a heap_magic (omega arith)));
        hole =
            store32-apart m4 (e - 8 + 4) a (a + 4) (inl (omega arith))
            ∙ (store32-apart m3 (e - 8) heap_magic (a + 4) (inl (omega arith))
                ∙ if_true (a + 4 == a + 4) (m2 (a + 4)) (ground arith));
        size =
            load32-store32_apart m4 (e - 8 + 4) a (a + 8) (inl (omega arith))
            ∙ (load32-store32_apart m3 (e - 8) heap_magic (a + 8) (inl (omega arith))
                ∙ (load32-store8_apart m2 (a + 4) 1 (a + 8) (inr (omega arith))
                    ∙ (load32-store32_apart m1 a heap_magic (a + 8) (inr (omega arith))
                        ∙ load32-store32_self m (a + 8) (e - a) (omega arith))));
        foot_magic = rw foot (
            load32-store32_apart m4 (e - 8 + 4) a (e - 8) (inl (omega arith))
            ∙ load32-store32_self m3 (e - 8) heap_magic (omega arith));
        foot_header = rw foot (load32-store32_self m4 (e - 8 + 4) a (omega arith));
      }

  store8-apart : (k : Memory) (x : ℕ) → IsApart a e x → store8 k (a + 4) 1 x ≡ k x
  store8-apart k x (inl below) = ground arith
  store8-apart k x (inr above) = ground arith

  write_first_hole-apart : (x : ℕ) → IsApart a e x → write_first_hole m a e x ≡ m x
  unfolding write_first_hole
  write_first_hole-apart x apart =
      let m1 = store32 m (a + 8) (e - a) in
      let m2 = store32 m1 a heap_magic in
      stores-apart (store8 m2 (a + 4) 1) a e (e - 8) heap_magic (e - 8 + 4) a (omega arith)
        (omega arith) (omega arith) (omega arith) x apart
      ∙ (store8-apart m2 x apart
          ∙ stores-apart m a e (a + 8) (e - a) a heap_magic (omega arith) (omega arith)
              (omega arith) (omega arith) x apart)

-- The arguments that the assertions of `create_heap` ask for.
pub record IsArena (start end_addr max : ℕ) : Type 0 where
  pub start_aligned : start % page_size ≡ 0
  pub end_aligned : end_addr % page_size ≡ 0
  pub max_aligned : (max % page_size ≡ 0) ⊎ (max ≡ 0xCFFFF000)
  pub some_start : 0 < start
  pub room : start + index_bytes + header_size + footer_size < end_addr
  pub within : end_addr ≤ max
  pub small : max < u32_mod

max-or :
    (max : ℕ)
    → (max % page_size ≡ 0) ⊎ (max ≡ 0xCFFFF000)
    → ((max % page_size == 0) || (max == 0xCFFFF000)) ≡ true
max-or max (inl e) = rw e refl
max-or max (inr e) = rw e refl

module _ {P : Type 0} (start end_addr max : ℕ) (supervisor readonly : Bool) (m : Memory) (pages : P)
    (v : IsArena start end_addr max) where
  arena_start-index : arena_start start ≡ start + index_bytes
  arena_start-index =
      let aligned : ((start + index_bytes) % page_size == 0) ≡ true =
        let h = v.start_aligned in ground arith in
      rw aligned refl

  -- The new heap.
  abbrev First : World P → Type 0
  First w =
      IsHeap w ((end_addr - (start + index_bytes), true) ∷ [])
      × (w.heap.start_address ≡ start + index_bytes)
      × (w.heap.end_address ≡ end_addr)
      × (w.heap.index.max_size ≡ heap_index_size)

  make_heap-First : Returns First (make_heap start end_addr max supervisor readonly m pages)
  unfolding make_heap
  make_heap-First =
      let a = start + index_bytes in
      let start_ok : (start % page_size == 0) ≡ true = let h = v.start_aligned in ground arith in
      let end_ok : (end_addr % page_size == 0) ≡ true = let h = v.end_aligned in ground arith in
      let order : ltb start end_addr ≡ true = lt→ltb _ _ (omega (arith, v.room)) in
      let bounded : leb end_addr max ≡ true = le→leb _ _ v.within in
      let room : ltb (index_bytes + header_size + footer_size) (end_addr - start) ≡ true =
        lt→ltb _ _ (omega (arith, v.room)) in
      let there : (start == 0) ≡ false = let h = v.some_start in ground arith in
      rw
        (start_ok, end_ok, max-or max v.max_aligned, order, bounded, room, there, arena_start-index)
        (Returns->>=
          (place_ordered_array-IsValid 0 header_less_than heap_index_size (omega arith)
            (omega arith))
          λ index (valid, empty, size, max_size).
            (let w : World P = record {
              memory = m;
              pages = pages;
              heap = record {
                index = index;
                start_address = a;
                end_address = end_addr;
                max_address = max;
                supervisor = supervisor;
                readonly = readonly;
              };
            } in
              let g : IsGapped w [] a end_addr [] = record {
                filled = omega (arith, v.room);
                within = v.within;
                small = v.small;
                below = refl;
                gap = omega (arith, v.room);
                above = refl;
                index = record {
                  valid = valid;
                  bag = (λ x. ap (count x) empty, ap (λ (l : List ℕ). length l) empty);
                  sorted = rw empty tt;
                };
              } in
              let end_small : end_addr < u32_mod = omega (arith, v.within, v.small) in
              let big : a + 20 ≤ end_addr = omega (arith, v.room) in
              let full : a + (end_addr - a) ≡ end_addr = omega (arith, big) in
              Returns->>=
                (insert-IsGapped g (write_first_hole m a end_addr) (end_addr - a)
                  (omega (arith, big)) (rw full (write_first_hole-apart m a end_addr big end_small))
                  (write_first_hole-IsBlock m a end_addr big end_small)
                  (omega (arith, size, max_size)))
                λ index' p.
                  (let heap = IsGapped-IsHeap (rw full at p.0) in
                    rw (heap_validate-ok heap) (returned _ (heap, refl, refl, p.2 ∙ max_size)))))

module _ {P : Type 0} (pager : Pager P) (fuel start end_addr max : ℕ) (supervisor readonly : Bool)
    (v : IsArena start end_addr max) (k : Allocator P) where
  -- For arguments that satisfy the assertions of create_heap, with a start above 0 and a limit of
  -- 32 bits, before a heap exists and while placement_address leaves room for a heap_t and a page
  -- below the top of the address space: create_heap returns a well-formed heap whose arena, from
  -- behind the index to the end, is one hole, and placement_address moves by a heap_t at least.
  pub create_heap-IsHeap :
      k.kheap ≡ none
      → k.placement_address + page_size + heap_t_size ≤ 0xFFFFFFFF
      → Returns
          (λ r.
            (w : World P) × (k' : Allocator P) × (r ≡ some (w, k'))
            × (k'.memory ≡ w.memory)
            × (k.placement_address + heap_t_size ≤ k'.placement_address)
            × IsHeap w ((end_addr - (start + index_bytes), true) ∷ [])
            × (w.heap.start_address ≡ start + index_bytes)
            × (w.heap.end_address ≡ end_addr)
            × (w.heap.index.max_size ≡ heap_index_size))
          (create_heap pager fuel start end_addr max supervisor readonly k)
  unfolding create_heap kmalloc
  create_heap-IsHeap early room =
      let (place, e, at_least) = kmalloc_int-bump pager fuel heap_t_size 0 false k early room in
      rw e (
        Returns->>= (make_heap-First start end_addr max supervisor readonly k.memory k.pages v)
          λ w (heap, first, last, max_size). returned _ (
            w,
            record k { placement_address = place + heap_t_size; memory = w.memory },
            refl,
            refl,
            omega (arith, at_least.above),
            heap,
            first,
            last,
            max_size,
          ))
