-- ===== src/KHeap/Grow.antt =====
-- `expand` of src/kheap.c: the arena grows by whole pages, whose bytes belong to no block at first.
pub mod Scan
pub mod Tail
use my_own_os.Prelude.{
  ℕ, zero, suc, ◌+◌, ◌-◌, ◌*◌, ◌/◌, ◌%◌, ◌≤◌, ◌<◌, ◌≡◌, refl, sym, ◌∙◌, ap, inl, inr, Bool, true,
  false, not, Option, some, List, [], ◌∷◌, ◌++◌, arith, ltb, leb, le→leb, lt→ltb, ◌==◌,
  if◌then◌else◌, Bool-cases, length, length-append,
}
use my_own_os.Prelude.Outcome.{
  Outcome, ok, Returns, returned, Returns-assert, >>=-eq-ok, ok-injective,
}
use my_own_os.Words.{u32_mod, page_size}
use my_own_os.Words.Memory.{Memory, Agree}
use my_own_os.KHeap.{heap_magic, size_at, Heap, World, Pager}
use my_own_os.KHeap.Blocks.{Blocks, Tiles-Agree, holes}
use my_own_os.KHeap.Bag.{count, SameBag, count-append}
use my_own_os.KHeap.Index.{IsIndex, IsIndex-keeps, IsIndex-SameBag, size_at-Agree}
use my_own_os.KHeap.Accepts.{IsHeap}
use my_own_os.KHeap.Gap.{IsGapped, IsHeap-IsIndex}
use my_own_os.KHeap.Resize.{with_end, round_up, pages_up_to, make_table, map_range, expand}

module _ {P : Type 0} (pager : Pager P)
    (kmalloc_ap : World P → Outcome (Option (ℕ × World P))) where
  -- Where the tables are there, the heap is not called.
  map_range-keeps :
      (k address : ℕ) (w w' : World P)
      → ((a : ℕ) → address ≤ a → a < address + k * page_size → pager.has_table a w.pages ≡ true)
      → map_range pager kmalloc_ap k address w ≡ ok (some w')
      → (w'.heap ≡ w.heap) × ((x : ℕ) → x < address → w'.memory x ≡ w.memory x)
  unfolding map_range make_table
  map_range-keeps zero address w w' there done =
      let found = ok-injective done in
      let same : w ≡ w' = cc in
      (ap (λ (z : World P). z.heap) (sym same), λ x h. ap (λ (z : World P). z.memory x) (sym same))
  map_range-keeps (suc k) address w w' there done =
      let here = there address (omega arith) (omega arith) in
      let (r, one, rest) =
        >>=-eq-ok (pager.map_page address w.heap.supervisor (not w.heap.readonly) w.memory w.pages)
          _ (rw here at done) in
      let still : (a : ℕ)
          → address + page_size ≤ a
          → a < address + page_size + k * page_size
          → pager.has_table a r.1 ≡ true =
        λ a l u.
          pager.map_page_tables address w.heap.supervisor (not w.heap.readonly) one a
          ∙ there a (omega arith) (omega arith) in
      let (heap, memory) =
        map_range-keeps k (address + page_size) (record w { memory = r.0; pages = r.1 }) w' still
          rest in
      (
        heap,
        λ x h.
            memory x (omega arith)
            ∙ pager.map_page_keeps address w.heap.supervisor (not w.heap.readonly) one x (inl h),
      )

nothing_more : (xs : List ℕ) → SameBag xs (xs ++ [])
nothing_more xs = (λ x. omega (arith, count-append x xs []), omega (arith, length-append xs []))

pub round_up-ge : (n : ℕ) → n ≤ round_up n
round_up-ge n = ground arith

round_up-bound :
    (n limit : ℕ)
    → round_up n ≤ limit
    → limit < u32_mod
    → (if n % page_size == 0 then true else leb n 0xFFFFF000) ≡ true
round_up-bound n limit h small = ground arith

module _ {P : Type 0} (pager : Pager P) (kmalloc_ap : World P → Outcome (Option (ℕ × World P)))
    {w : World P} {blocks : Blocks} (v : IsHeap w blocks) (new_size : ℕ) where
  -- The length of the arena, and what `expand` makes of it.
  abbrev pub old_length : ℕ
  old_length = w.heap.end_address - w.heap.start_address

  abbrev pub new_length : ℕ
  new_length = round_up (old_length + new_size)

  abbrev pub new_pages : ℕ
  new_pages = pages_up_to old_length new_length

  -- The new pages have a page table.
  abbrev pub HasTables : Type 0
  HasTables =
      (a : ℕ)
      → w.heap.start_address + old_length ≤ a
      → a < w.heap.start_address + old_length + new_pages * page_size
      → pager.has_table a w.pages ≡ true

  -- The pages are mapped.
  abbrev pub Mapped : World P → Type 0
  Mapped w' =
      map_range pager kmalloc_ap new_pages (w.heap.start_address + old_length) w ≡ ok (some w')

  pub expand-IsGapped :
      (w' : World P)
      → 0 < new_size
      → new_length ≤ w.heap.max_address - w.heap.start_address
      → HasTables
      → Mapped w'
      → Returns
          (λ (r : Option (World P)).
            (w'' : World P) × (r ≡ some w'')
            × IsGapped w'' blocks w.heap.end_address (w.heap.start_address + new_length) []
            × (w''.heap ≡ record w.heap { end_address = w.heap.start_address + new_length })
            × ((x : ℕ) → x < w.heap.end_address → w''.memory x ≡ w.memory x))
          (expand pager kmalloc_ap (old_length + new_size) w)
  unfolding expand
  expand-IsGapped w' positive room tables mapped =
      let (heap, memory) = map_range-keeps pager kmalloc_ap _ _ w w' tables mapped in
      let larger = round_up-ge (old_length + new_size) in
      let end : w.heap.start_address + old_length ≡ w.heap.end_address = omega (arith, v.filled) in
      let kept = rw end at memory in
      let low : Agree w.memory w'.memory w.heap.start_address w.heap.end_address =
        λ x l u. kept x u in
      Returns-assert _ (lt→ltb _ _ (omega arith)) (
        Returns-assert _
          (round_up-bound (old_length + new_size) (w.heap.max_address - w.heap.start_address) room
            (omega (arith, v.small)))
          (Returns-assert _ (le→leb _ _ room) (
            rw mapped (
              rw heap (
                returned _ (
                  record w' {
                    heap = record w.heap { end_address = w.heap.start_address + new_length };
                  },
                  refl,
                  record {
                    filled = omega (arith, v.filled);
                    within = omega (arith, room, v.within, v.filled);
                    small = v.small;
                    below = Tiles-Agree w.heap.start_address blocks w.heap.end_address v.tiles low;
                    gap = omega (arith, larger);
                    above = refl;
                    index =
                        IsIndex-SameBag
                          (IsIndex-keeps (IsHeap-IsIndex v) w'.memory (
                            size_at-Agree w.heap.start_address blocks w.heap.end_address v.tiles
                              low))
                          _ (nothing_more (holes w.heap.start_address blocks));
                  },
                  refl,
                  kept,
                ))))))
