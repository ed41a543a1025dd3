-- ===== src/KHeap/Unpublish.antt =====
-- `free` of src/kheap.c: finding a neighbour's header in the index and taking it out.
use my_own_os.Prelude.{
  ℕ, zero, suc, ◌+◌, ◌≤◌, ◌<◌, ◌≡◌, refl, inl, inr, true, List, [], ◌∷◌, arith, ◌==◌, Bool-cases,
  length, get_or,
}
use my_own_os.Prelude.Outcome.{Returns, returned, Returns->>=, Returns-if}
use my_own_os.Words.Memory.{Memory}
use my_own_os.OrderedArray.{OrderedArray}
use my_own_os.OrderedArray.Sorted.{contents}
use my_own_os.KHeap.{World, with_index}
use my_own_os.KHeap.Bag.{count}
use my_own_os.KHeap.Index.{IsIndex, entry, lookup-entry, length-contents, remove-IsIndex}
use my_own_os.KHeap.Free.{find_entry, unpublish}

pub position_of :
    (x : ℕ) (xs : List ℕ) → 0 < count x xs → (j : ℕ) × (j < length xs) × (get_or xs j 0 ≡ x)
position_of x [] h = absurd (omega arith)
position_of x (y ∷ ys) h = elim (Bool-cases (y == x)) [
  | inl here ↦ (zero, omega arith, ground arith)
  | inr other ↦
      let (j, l, e) = position_of x ys (let deeper = rw other at h in omega (arith, deeper)) in
      (suc j, omega (arith, l), e)
]

module _ {m : Memory} {index : OrderedArray Memory ℕ} {headers : List ℕ}
    (v : IsIndex m index headers) where
  find_entry-ok :
      (x k i j : ℕ)
      → i + k ≡ index.size
      → i ≤ j
      → j < index.size
      → entry v j ≡ x
      → Returns (λ i. (i < index.size) × (entry v i ≡ x)) (find_entry index x k i)
  unfolding find_entry
  find_entry-ok x zero i j h lo hi e = absurd (omega arith)
  find_entry-ok x (suc k) i j h lo hi e = rw (lookup-entry v i (omega arith)) (
      Returns-if (entry v i == x) (λ here. returned i (omega arith, ground arith))
        (λ other. find_entry-ok x k (i + 1) j (omega arith) (ground arith) hi e))

  -- The index without one header.
  pub unpublish-IsIndex :
      {P : Type 0} (w : World P) (x : ℕ) (headers' : List ℕ)
      → w.heap.index ≡ index
      → ((y : ℕ) → count y headers ≡ count y (x ∷ headers'))
      → length headers ≡ suc (length headers')
      → Returns
          (λ (w' : World P).
            (index' : OrderedArray Memory ℕ) × (w' ≡ with_index w index')
            × IsIndex m index' headers'
            × (index'.size + 1 ≡ index.size)
            × (index'.max_size ≡ index.max_size))
          (unpublish x w)
  unfolding unpublish
  unpublish-IsIndex w x headers' here same total =
      let self : (x == x) ≡ true = ground arith in
      let some_x : count x (x ∷ headers') ≡ suc (count x headers') = rw self (omega arith) in
      let (j, l, e) = position_of x (contents index) (omega (arith, v.bag.0 x, same x, some_x)) in
      rw here (
        Returns->>=
          (find_entry-ok x index.size 0 j (omega arith) (omega arith)
            (omega (arith, l, length-contents v)) e)
          λ i found.
            (Returns->>= (remove-IsIndex v i headers' found.0 (rw found.1 same) total)
              λ index' p. returned _ (index', refl, p.0, p.1, p.2)))
