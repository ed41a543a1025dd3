-- ===== src/KHeap/Search.antt =====
-- `find_smallest_hole` of src/kheap.c, and `alloc` where it finds a hole.
use my_own_os.Prelude.{
  ℕ, zero, suc, ◌+◌, ◌-◌, ◌≤◌, ◌<◌, ◌≡◌, inl, inr, Bool, true, false, Option, none, some, List,
  arith, ltb, le→leb, lt→ltb, on_some, ◌==◌, Bool-cases,
}
use my_own_os.Prelude.Outcome.{
  Outcome, ok, ◌>>=◌, Returns, returned, Returns->>=, Returns-map, Returns-assert, Returns-if,
}
use my_own_os.Words.Memory.{Memory}
use my_own_os.OrderedArray.{OrderedArray}
use my_own_os.OrderedArray.Lookup.{IsSorted-get_or}
use my_own_os.OrderedArray.Sorted.{contents}
use my_own_os.KHeap.{
  header_size, footer_size, size_at, header_less_than, World, Pager, fits, find_hole,
  find_smallest_hole,
}
use my_own_os.KHeap.Blocks.{Blocks}
use my_own_os.KHeap.Index.{IsIndex, entry, lookup-entry, length-contents}
use my_own_os.KHeap.Accepts.{IsHeap, heap_validate-ok}
use my_own_os.KHeap.Gap.{IsHeap-IsIndex}
use my_own_os.KHeap.Alloc.{Attempt, retry, unfinished, make_room, place_block, attempt}
use my_own_os.KHeap.Place.{IsPlaced, place_block-IsPlaced}

module _ {m : Memory} {index : OrderedArray Memory ℕ} {headers : List ℕ}
    (v : IsIndex m index headers) (new_size : ℕ) (page_align : Bool) where
  -- No entry from `lo` up to `hi` has room.
  abbrev pub NoneFits : ℕ → ℕ → Type 0
  NoneFits lo hi = (j : ℕ) → lo ≤ j → j < hi → fits m new_size page_align (entry v j) ≡ false

  -- The first entry from `i` on that has room, or that there is none.
  abbrev pub IsFirst : ℕ → Option ℕ → Type 0
  IsFirst i none = NoneFits i index.size
  IsFirst i (some j) =
      (i ≤ j) × (j < index.size) × (fits m new_size page_align (entry v j) ≡ true) × NoneFits i j

  NoneFits-suc :
      (i hi : ℕ)
      → fits m new_size page_align (entry v i) ≡ false
      → NoneFits (i + 1) hi
      → NoneFits i hi
  NoneFits-suc i hi no_fit f j lo above = elim (Bool-cases (i == j)) [
    | inl same ↦ let e : i ≡ j = ground arith in rw e at no_fit
    | inr other ↦ f j (ground arith) above
  ]

  IsFirst-suc :
      (i : ℕ) (r : Option ℕ)
      → fits m new_size page_align (entry v i) ≡ false
      → IsFirst (i + 1) r
      → IsFirst i r
  IsFirst-suc i none no_fit f = NoneFits-suc i index.size no_fit f
  IsFirst-suc i (some k) no_fit f = (omega (arith, f.0), f.1, f.2, NoneFits-suc i k no_fit f.3)

  find_hole-IsFirst :
      (k i : ℕ)
      → i + k ≡ index.size
      → Returns (IsFirst i) (find_hole m index new_size page_align k i)
  unfolding find_hole
  find_hole-IsFirst zero i h = returned none (λ j lo hi. absurd (omega arith))
  find_hole-IsFirst (suc k) i h = rw (lookup-entry v i (omega arith)) (
      Returns-if (fits m new_size page_align (entry v i))
        (λ yes_fit.
          returned (some i) (omega arith, omega arith, yes_fit, λ j lo hi. absurd (omega arith)))
        (λ no_fit.
          Returns-map (find_hole-IsFirst k (i + 1) (omega arith)) λ r f. IsFirst-suc i r no_fit f))

module _ {P : Type 0} {w : World P} {blocks : Blocks} (v : IsHeap w blocks) where
  pub find_smallest_hole-IsFirst :
      (new_size : ℕ) (page_align : Bool)
      → Returns
          (IsFirst (IsHeap-IsIndex v) new_size page_align 0)
          (find_smallest_hole new_size page_align w)
  unfolding find_smallest_hole
  find_smallest_hole-IsFirst new_size page_align =
      find_hole-IsFirst (IsHeap-IsIndex v) new_size page_align w.heap.index.size 0 (omega arith)

  -- Entries behind another are holes of the same size or larger.
  entry-size-le :
      (i j : ℕ)
      → i ≤ j
      → j < w.heap.index.size
      → size_at w.memory (entry (IsHeap-IsIndex v) i)
        ≤ size_at w.memory (entry (IsHeap-IsIndex v) j)
  entry-size-le i j le h = elim (Bool-cases (i == j)) [
    | inl same ↦ let e : i ≡ j = ground arith in rw e (omega arith)
    | inr other ↦
        let order =
          IsSorted-get_or 0 (header_less_than w.memory) (contents w.heap.index) i j v.sorted
            (ground arith) (omega (arith, length-contents (IsHeap-IsIndex v))) in
        ground arith
  ]

-- `alloc` took a hole that has room, and every other hole that has is as large or larger.
pub record IsBestFit {P : Type 0} {w : World P} {blocks : Blocks} (v : IsHeap w blocks)
    (new_size : ℕ) (page_align : Bool) (result : Attempt P) : Type 0 where
  pub i : ℕ
  pub inside : i < w.heap.index.size
  pub has_room : fits w.memory new_size page_align (entry (IsHeap-IsIndex v) i) ≡ true
  pub smallest :
      (j : ℕ)
      → j < w.heap.index.size
      → fits w.memory new_size page_align (entry (IsHeap-IsIndex v) j) ≡ true
      → size_at w.memory (entry (IsHeap-IsIndex v) i)
        ≤ size_at w.memory (entry (IsHeap-IsIndex v) j)
  pub placed :
      IsPlaced w blocks new_size page_align
        (entry (IsHeap-IsIndex v) i)
        (size_at w.memory (entry (IsHeap-IsIndex v) i))
        result

module _ {P : Type 0} (pager : Pager P) (kmalloc_ap : World P → Outcome (Option (ℕ × World P)))
    {w : World P} {blocks : Blocks} (v : IsHeap w blocks)
    (space : w.heap.index.size < w.heap.index.max_size) (size : ℕ) (page_align : Bool) where
  -- `size + sizeof(header_t) + sizeof(footer_t)`
  abbrev pub new_size : ℕ
  new_size = size + header_size + footer_size

  pub placed-IsBestFit :
      (i : ℕ)
      → IsFirst (IsHeap-IsIndex v) new_size page_align 0 (some i)
      → Returns (IsBestFit v new_size page_align) (place_block i new_size page_align w)
  placed-IsBestFit i first =
      Returns-map (place_block-IsPlaced v i first.1 space new_size page_align (omega arith) first.2)
        λ result placed. record {
          i = i;
          inside = first.1;
          has_room = first.2;
          smallest = λ j h fit. elim (Bool-cases (ltb j i)) [
            | inl before ↦ absurd (let no_fit = first.3 j (omega arith) (ground arith) in cc)
            | inr behind ↦ entry-size-le v i j (ground arith) h
          ];
          placed = placed;
        }

  -- On a well-formed heap whose index has room for one more hole, for a size above 0 that leaves
  -- room for the tags: where some hole has room, alloc takes one, which no other hole with room
  -- is smaller than, and cuts it into a leading hole, the block and a trailing hole, each absent
  -- or large enough for its tags; the block has at least the size asked for and starts on a page
  -- when that is asked, the heap is well formed, and memory outside the hole taken is as it was.
  pub attempt-IsBestFit :
      (i : ℕ)
      → 0 < size
      → size ≤ 0xFFFFFFFF - header_size - footer_size
      → i < w.heap.index.size
      → fits w.memory new_size page_align (entry (IsHeap-IsIndex v) i) ≡ true
      → Returns (IsBestFit v new_size page_align) (attempt pager kmalloc_ap size page_align w)
  unfolding attempt
  attempt-IsBestFit i positive bounded inside fit = Returns-assert _ (lt→ltb 0 size positive) (
      Returns-assert _ (le→leb size _ bounded) (
        rw (heap_validate-ok v)
          (Returns->>= (find_smallest_hole-IsFirst v new_size page_align) continue)))
    where
      continue :
          (found : Option ℕ)
          → IsFirst (IsHeap-IsIndex v) new_size page_align 0 found
          → Returns (IsBestFit v new_size page_align) (
              on_some found
                (do
                  result ← make_room pager kmalloc_ap new_size w
                  ok (on_some result unfinished λ w. retry w))
                λ i. place_block i new_size page_align w)
      continue none none_fits = absurd (let no_fit = none_fits i (omega arith) inside in cc)
      continue (some j) first = placed-IsBestFit j first
