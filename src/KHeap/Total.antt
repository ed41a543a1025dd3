-- ===== src/KHeap/Total.antt =====
-- `alloc` of src/kheap.c ends: it takes a hole, or makes the arena larger once and then takes one.
use my_own_os.Prelude.{
  ℕ, suc, ◌+◌, ◌-◌, ◌≤◌, ◌<◌, ◌≡◌, refl, ◌∙◌, ap, ◌⊎◌, inl, inr, Bool, true, false, Option, none,
  some, [], ◌∷◌, ◌++◌, arith, le→leb, lt→ltb, on_some, ◌==◌,
}
use my_own_os.Prelude.Outcome.{
  Outcome, ok, ◌>>=◌, Returns, returned, Returns->>=, Returns-map, Returns-assert,
}
use my_own_os.Words.{page_size}
use my_own_os.OrderedArray.Sorted.{contents}
use my_own_os.KHeap.{header_size, footer_size, size_at, Heap, World, Pager, fits}
use my_own_os.KHeap.Blocks.{IsBlock, Blocks, Tiles-split, end_of, holes, holes-append}
use my_own_os.KHeap.Bag.{count, count-append}
use my_own_os.KHeap.Index.{entry, length-contents}
use my_own_os.KHeap.Accepts.{IsHeap, heap_validate-ok}
use my_own_os.KHeap.Gap.{IsHeap-IsIndex}
use my_own_os.KHeap.Unpublish.{position_of}
use my_own_os.KHeap.Alloc.{
  Attempt, allocated, retry, unfinished, make_room, place_block, attempt, alloc,
}
use my_own_os.KHeap.Search.{
  IsFirst, find_smallest_hole-IsFirst, attempt-IsBestFit, placed-IsBestFit, IsBestFit,
}
use my_own_os.KHeap.Grow.{old_length, new_length, HasTables, Mapped, expand-IsGapped, round_up-ge}
use my_own_os.KHeap.Grow.Tail.{add_tail-IsGrown}

-- A block with `size` bytes between its tags, in a heap that is well formed.
pub record IsAllocated {P : Type 0} (size : ℕ) (result : Option (ℕ × World P)) : Type 0 where
  pub header : ℕ
  pub taken : ℕ
  pub final : World P
  pub answer : result ≡ some (header + header_size, final)
  pub blocks : Blocks
  pub heap : IsHeap final blocks
  pub block : IsBlock final.memory header taken false
  pub enough : size + header_size + footer_size ≤ taken

-- The last hole stands in the index.
tail-entry :
    {P : Type 0} {w : World P} (before : Blocks) (s : ℕ)
    → (v : IsHeap w (before ++ ((s, true) ∷ [])))
    → (j : ℕ) × (j < w.heap.index.size) × (size_at w.memory (entry (IsHeap-IsIndex v) j) ≡ s)
tail-entry {w = w} before s v =
    let (low, high) =
      Tiles-split w.memory w.heap.start_address before ((s, true) ∷ []) w.heap.end_address
        v.tiles in
    let x = end_of w.heap.start_address before in
    let all = holes-append w.memory w.heap.start_address before ((s, true) ∷ []) x low in
    let self : (x == x) ≡ true = ground arith in
    let one : count x (x ∷ []) ≡ 1 = rw self refl in
    let listed = ap (count x) all in
    let (j, inside, e) = position_of x (contents w.heap.index) (
      omega (
        arith,
        v.bag.0 x,
        listed,
        count-append x (holes w.heap.start_address before) (x ∷ []),
        one,
      )) in
    (
      j,
      omega (arith, inside, length-contents (IsHeap-IsIndex v)),
      ap (size_at w.memory) e ∙ high.0.size,
    )

module _ {P : Type 0} (pager : Pager P) (size : ℕ) (positive : 0 < size)
    (bounded : size ≤ 0xFFFFFFFF - header_size - footer_size) where
  BestFit-IsAllocated :
      {w : World P} {blocks : Blocks} (v : IsHeap w blocks) (fuel : ℕ) (page_align : Bool)
      (result : Attempt P)
      → IsBestFit v (size + header_size + footer_size) page_align result
      → Returns (IsAllocated size) (elim result [
        | allocated p w ↦ ok (some (p, w))
        | retry w ↦ alloc pager fuel size page_align w
        | unfinished ↦ ok none
      ])
  BestFit-IsAllocated v fuel page_align result b = rw b.placed.answer (
      returned _ (record {
        header = _;
        taken = b.placed.taken;
        final = b.placed.final;
        answer = refl;
        blocks = _;
        heap = b.placed.heap;
        block = b.placed.block;
        enough = b.placed.cut.enough;
      }))

  -- Where a hole has room, one call is enough.
  alloc-fits :
      {w : World P} {blocks : Blocks} (v : IsHeap w blocks) (fuel : ℕ) (page_align : Bool) (i : ℕ)
      → w.heap.index.size < w.heap.index.max_size
      → i < w.heap.index.size
      → fits w.memory (size + header_size + footer_size) page_align (entry (IsHeap-IsIndex v) i)
        ≡ true
      → Returns (IsAllocated size) (alloc pager (suc fuel) size page_align w)
  unfolding alloc
  alloc-fits v fuel page_align i space inside fit =
      Returns->>=
        (attempt-IsBestFit pager (alloc pager fuel page_size true) v space size page_align i
          positive bounded inside fit)
        (BestFit-IsAllocated v fuel page_align)

module _ {P : Type 0} (pager : Pager P) (kmalloc_ap : World P → Outcome (Option (ℕ × World P)))
    {w : World P} {blocks : Blocks} (v : IsHeap w blocks) (size : ℕ) where
  abbrev needed : ℕ
  needed = size + header_size + footer_size

  -- The larger arena has room.
  abbrev Roomy : World P → Type 0
  Roomy w' =
      (before : Blocks) × (s : ℕ) × IsHeap w' (before ++ ((s, true) ∷ []))
      × (needed ≤ s)
      × (w'.heap.index.size ≤ w.heap.index.size + 1)
      × (w'.heap.index.max_size ≡ w.heap.index.max_size)

  make_room-Roomy :
      (mapped : World P)
      → w.heap.index.size < w.heap.index.max_size
      → new_length pager kmalloc_ap v needed ≤ w.heap.max_address - w.heap.start_address
      → HasTables pager kmalloc_ap v needed
      → Mapped pager kmalloc_ap v needed mapped
      → Returns
          (λ (r : Option (World P)). (w' : World P) × (r ≡ some w') × Roomy w')
          (make_room pager kmalloc_ap needed w)
  unfolding make_room
  make_room-Roomy mapped space room tables pages =
      let larger = round_up-ge (old_length pager kmalloc_ap v needed + needed) in
      Returns-assert _ (le→leb _ _ (omega (arith, larger, room, v.small))) (
        Returns->>=
          (expand-IsGapped pager kmalloc_ap v needed mapped (omega arith) room tables pages)
          λ r (w1, made, g, heap, kept).
            (let added =
                new_length pager kmalloc_ap v needed - old_length pager kmalloc_ap v needed in
              let top : w.heap.start_address + new_length pager kmalloc_ap v needed
                  ≡ w.heap.end_address + added =
                omega (arith, larger, v.filled) in
              let grown : w1.heap.end_address
                    - w1.heap.start_address
                    - old_length pager kmalloc_ap v needed
                  ≡ added =
                rw heap (omega (arith, larger)) in
              let index = ap (λ (h : Heap). h.index.size) heap in
              let max_size = ap (λ (h : Heap). h.index.max_size) heap in
              rw made (
                rw grown (
                  Returns->>=
                    (add_tail-IsGrown w.heap.end_address added (omega (arith, larger)) (rw top at g)
                      (omega (arith, space, index, max_size)))
                    λ w2 t. returned _ (
                      w2,
                      refl,
                      (
                        t.before,
                        t.size,
                        t.heap,
                        enough t.tail,
                        omega (arith, t.index_size, index),
                        t.index_max ∙ max_size,
                      ),
                    )))))
    where
      enough :
          {before : Blocks} {s : ℕ}
          → ((blocks ≡ before)
              × (s ≡ new_length pager kmalloc_ap v needed - old_length pager kmalloc_ap v needed))
            ⊎ ((t : ℕ) × (blocks ≡ before ++ ((t, true) ∷ []))
                × (s
                    ≡ t
                      + (new_length pager kmalloc_ap v needed
                          - old_length pager kmalloc_ap v needed)))
          → needed ≤ s
      enough (inl (e, l)) =
          omega (arith, round_up-ge (old_length pager kmalloc_ap v needed + needed), l)
      enough (inr (t, e, l)) =
          omega (arith, round_up-ge (old_length pager kmalloc_ap v needed + needed), l)

  -- One call takes a hole, or leaves an arena with room for the next.
  abbrev Progress : Attempt P → Type 0
  Progress result =
      IsBestFit v needed false result ⊎ ((w' : World P) × (result ≡ retry w') × Roomy w')

  attempt-Progress :
      (mapped : World P)
      → 0 < size
      → size ≤ 0xFFFFFFFF - header_size - footer_size
      → w.heap.index.size < w.heap.index.max_size
      → new_length pager kmalloc_ap v needed ≤ w.heap.max_address - w.heap.start_address
      → HasTables pager kmalloc_ap v needed
      → Mapped pager kmalloc_ap v needed mapped
      → Returns Progress (attempt pager kmalloc_ap size false w)
  unfolding attempt
  attempt-Progress mapped positive bounded space room tables pages =
      Returns-assert _ (lt→ltb 0 size positive) (
        Returns-assert _ (le→leb size _ bounded) (
          rw (heap_validate-ok v)
            (Returns->>= (find_smallest_hole-IsFirst v needed false) continue)))
    where
      continue :
          (found : Option ℕ)
          → IsFirst (IsHeap-IsIndex v) needed false 0 found
          → Returns Progress (
              on_some found
                (do
                  result ← make_room pager kmalloc_ap needed w
                  ok (on_some result unfinished λ w. retry w))
                λ i. place_block i needed false w)
      continue none none_fits =
          Returns->>= (make_room-Roomy mapped space room tables pages)
            λ r (w', made, roomy). rw made (returned _ (inr (w', refl, roomy)))
      continue (some i) first =
          Returns-map (placed-IsBestFit pager kmalloc_ap v space size false i first)
            λ result b. inl b

module _ {P : Type 0} (pager : Pager P) {w : World P} {blocks : Blocks} (v : IsHeap w blocks)
    (size fuel : ℕ) where
  -- The call of `alloc` for a page table.
  abbrev pub page_of : World P → Outcome (Option (ℕ × World P))
  page_of = alloc pager (suc fuel) page_size true

  abbrev pub tagged : ℕ
  tagged = size + header_size + footer_size

  -- On a well-formed heap whose index has room for two more holes, for a size above 0 that leaves
  -- room for the tags, when the pages by which the arena would grow lie below its limit, have a
  -- page table, so that get_page does not allocate, and can be mapped: alloc without alignment
  -- returns, calling itself at most once, with an allocated block of at least the size asked for,
  -- in a well-formed heap.
  pub alloc-IsAllocated :
      (mapped : World P)
      → 0 < size
      → size ≤ 0xFFFFFFFF - header_size - footer_size
      → w.heap.index.size + 1 < w.heap.index.max_size
      → new_length pager page_of v tagged ≤ w.heap.max_address - w.heap.start_address
      → HasTables pager page_of v tagged
      → Mapped pager page_of v tagged mapped
      → Returns (IsAllocated size) (alloc pager (suc (suc fuel)) size false w)
  unfolding alloc
  alloc-IsAllocated mapped positive bounded space room tables pages =
      Returns->>=
        (attempt-Progress pager page_of v size mapped positive bounded (omega arith) room tables
          pages)
        continue
    where
      continue :
          (result : Attempt P)
          → Progress pager page_of v size result
          → Returns (IsAllocated size) (elim result [
            | allocated p w ↦ ok (some (p, w))
            | retry w ↦ alloc pager (suc fuel) size false w
            | unfinished ↦ ok none
          ])
      continue result (inl b) =
          BestFit-IsAllocated pager size positive bounded v (suc fuel) false result b
      continue result (inr (w', e, (before, s, v', enough, more, max_size))) =
          let (j, inside, tail) = tail-entry before s v' in
          rw e (
            alloc-fits pager size positive bounded v' fuel false j
              (omega (arith, space, more, max_size)) inside
              (le→leb _ _ (omega (arith, tail, enough))))
