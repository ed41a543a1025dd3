-- ===== src/KHeap/Create/Bump.antt =====
-- `kmalloc_int` of src/kheap.c before the heap exists.
use my_own_os.Prelude.{
  ℕ, ◌+◌, ◌-◌, ◌%◌, ◌≤◌, ◌<◌, ◌≡◌, refl, Bool, true, not, ◌&&◌, none, some, arith, leb, le→leb,
  ◌==◌, if◌then◌else◌,
}
use my_own_os.Prelude.Outcome.{ok, Returns, returned, Returns-assert, Returns-if, Returns-ok}
use my_own_os.Words.{page_size}
use my_own_os.KHeap.{Pager}
use my_own_os.KHeap.Create.{Allocator, aligned_placement, bump, kmalloc_int}

-- A bootstrap allocation starts at or above the old `placement_address`, less than a page further,
-- and on a page when that is asked.
pub record IsStart (placement align start : ℕ) : Type 0 where
  pub above : placement ≤ start
  pub near : start < placement + page_size
  pub aligned : align ≡ 1 → start % page_size ≡ 0

aligned_placement-IsStart :
    (align placement : ℕ)
    → placement + page_size ≤ 0xFFFFFFFF
    → Returns (IsStart placement align) (aligned_placement align placement)
unfolding aligned_placement
aligned_placement-IsStart align placement room =
    Returns-if ((align == 1) && not (placement % page_size == 0))
      (λ padded. Returns-assert _ (le→leb _ _ (omega arith)) (
        returned _
          (record { above = omega arith; near = ground arith; aligned = λ e. omega arith })))
      (λ plain.
        returned _
          (record { above = omega arith; near = omega arith; aligned = λ e. ground arith }))

module _ {P : Type 0} (pager : Pager P) (fuel sz align : ℕ) (want_phys : Bool)
    (k : Allocator P) where
  -- Before the heap exists, an allocation that ends below the top of the address space even a
  -- page further returns an address at or above placement_address and less than a page above it,
  -- on a page when that is asked, with itself as its physical address, and moves
  -- placement_address to its end and changes nothing else.
  pub kmalloc_int-bump :
      k.kheap ≡ none
      → k.placement_address + page_size + sz ≤ 0xFFFFFFFF
      → (start : ℕ) × (kmalloc_int pager fuel sz align want_phys k
          ≡ ok (
              some (
                start,
                (if want_phys then some start else none),
                record k { placement_address = start + sz },
              )))
        × IsStart k.placement_address align start
  unfolding kmalloc_int bump
  kmalloc_int-bump early room =
      let (start, e, v) =
        Returns-ok (aligned_placement-IsStart align k.placement_address (omega arith)) in
      let left : leb sz (0xFFFFFFFF - start) ≡ true = le→leb _ _ (omega (arith, v.near)) in
      (start, rw (early, e, left) refl, v)
