-- ===== src/KHeap/Gap.antt =====
-- The heap of src/kheap.c while a hole is cut up: its blocks are all there but for a gap in the arena,
-- which fills from its lower end.
pub mod Fill
use my_own_os.Prelude.{
  ℕ, zero, suc, ◌+◌, ◌≤◌, ◌<◌, ◌≡◌, refl, ◌∙◌, ap, ◌⊎◌, inl, inr, Bool, true, false, List, [], ◌∷◌,
  ◌++◌, arith, length, length-append,
}
use my_own_os.Prelude.Outcome.{Returns, returned, Returns->>=, Returns-map}
use my_own_os.Words.{u32_mod}
use my_own_os.Words.Memory.{Memory, IsApart}
use my_own_os.OrderedArray.{insert_ordered_array, remove_ordered_array}
use my_own_os.KHeap.{Heap, World, write_tags, with_index, publish_hole}
use my_own_os.KHeap.Blocks.{
  IsBlock, write_tags-apart, write_tags-IsBlock, Blocks, Tiles, Tiles-le, holes, Tiles-append,
  holes-append, Tiles-Agree,
}
use my_own_os.KHeap.Bag.{count, SameBag, count-append, Located}
use my_own_os.KHeap.Index.{
  IsIndex, entry, IsIndex-keeps, IsIndex-SameBag, insert-IsIndex, remove-IsIndex, size_at-Agree,
}
use my_own_os.KHeap.Accepts.{IsHeap}

pub record IsGapped {P : Type 0} (w : World P) (before : Blocks) (y z : ℕ) (after : Blocks)
    : Type 0 where
  pub filled : w.heap.start_address < w.heap.end_address
  pub within : w.heap.end_address ≤ w.heap.max_address
  pub small : w.heap.max_address < u32_mod
  pub below : Tiles w.memory w.heap.start_address before y
  pub gap : y ≤ z
  pub above : Tiles w.memory z after w.heap.end_address
  pub index : IsIndex w.memory w.heap.index (holes w.heap.start_address before ++ holes z after)

-- Only bytes from `lo` up to `hi` and the index change.
pub record Keeps {P : Type 0} (w w' : World P) (lo hi : ℕ) : Type 0 where
  pub apart : (x : ℕ) → IsApart lo hi x → w'.memory x ≡ w.memory x
  pub heap : w'.heap ≡ record w.heap { index = w'.heap.index }
  pub pages : w'.pages ≡ w.pages

module _ {P : Type 0} where
  pub Keeps-trans :
      {w w' w'' : World P} {lo mid hi : ℕ}
      → lo ≤ mid
      → mid ≤ hi
      → Keeps w w' lo mid
      → Keeps w' w'' mid hi
      → Keeps w w'' lo hi
  Keeps-trans {w} {w'} {w''} {lo} {mid} {hi} l h k k' = record {
    apart = together;
    heap = k'.heap ∙ ap (λ (z : Heap). record z { index = w''.heap.index }) k.heap;
    pages = k'.pages ∙ k.pages;
  }
    where
      together : (x : ℕ) → IsApart lo hi x → w''.memory x ≡ w.memory x
      together x (inl p) = k'.apart x (inl (omega arith)) ∙ k.apart x (inl p)
      together x (inr p) = k'.apart x (inr p) ∙ k.apart x (inr (omega arith))

  pub Keeps-refl : (w : World P) (a : ℕ) → Keeps w w a a
  Keeps-refl w a = record { apart = λ x h. refl; heap = refl; pages = refl }

  pub IsHeap-IsIndex :
      {w : World P} {blocks : Blocks}
      → IsHeap w blocks
      → IsIndex w.memory w.heap.index (holes w.heap.start_address blocks)
  IsHeap-IsIndex v = record { valid = v.index; bag = v.bag; sorted = v.sorted }

positive_sum : (a b : ℕ) → 0 < a + b → (0 < a) ⊎ (0 < b)
positive_sum zero b h = inr (omega arith)
positive_sum (suc a) b h = inl (omega arith)

module _ {P : Type 0} {w : World P} {before : Blocks} {y z : ℕ} {after : Blocks}
    (v : IsGapped w before y z after) where
  -- Bytes in the gap may change.
  pub IsGapped-memory :
      (m' : Memory)
      → ((x : ℕ) → IsApart y z x → m' x ≡ w.memory x)
      → IsGapped (record w { memory = m' }) before y z after
  IsGapped-memory m' kept = record {
    filled = v.filled;
    within = v.within;
    small = v.small;
    below = Tiles-Agree w.heap.start_address before y v.below (λ x l u. kept x (inl u));
    gap = v.gap;
    above = Tiles-Agree z after w.heap.end_address v.above (λ x l u. kept x (inr l));
    index = IsIndex-keeps v.index m' λ x p.
        (let parts = count-append x (holes w.heap.start_address before) (holes z after) in
          elim (positive_sum (count x (holes w.heap.start_address before)) (count x (holes z after))
            (omega (arith, p, parts))) [
              | inl low ↦
                  size_at-Agree w.heap.start_address before y v.below (λ a l u. kept a (inl u)) x
                    low
              | inr high ↦
                  size_at-Agree z after w.heap.end_address v.above (λ a l u. kept a (inr l)) x high
            ]);
  }

-- Taking a hole out of the index opens a gap.
pub remove_ordered_array-IsGapped :
    {P : Type 0} {w : World P} {blocks : Blocks}
    → (v : IsHeap w blocks) → (i : ℕ) → i < w.heap.index.size
    → (l : Located w.memory w.heap.start_address
        (entry (IsHeap-IsIndex v) i)
        w.heap.end_address
        blocks)
    → Returns
        (λ index.
          IsGapped
            (with_index w index)
            l.before
            (entry (IsHeap-IsIndex v) i)
            (entry (IsHeap-IsIndex v) i + l.size)
            l.after
          × (index.size + 1 ≡ w.heap.index.size)
          × (index.max_size ≡ w.heap.index.max_size))
        (remove_ordered_array 0 i w.heap.index)
remove_ordered_array-IsGapped {w = w} {blocks} v i h l =
    let hole = entry (IsHeap-IsIndex v) i in
    let low = holes w.heap.start_address l.before in
    let high = holes (hole + l.size) l.after in
    let all : holes w.heap.start_address blocks ≡ low ++ (hole ∷ high) =
      ap (holes w.heap.start_address) l.split
      ∙ holes-append w.memory w.heap.start_address l.before ((l.size, true) ∷ l.after) hole
          l.tiles_before in
    Returns-map
      (remove-IsIndex (IsHeap-IsIndex v) i (low ++ high) h
        (λ y.
          ap (count y) all
          ∙ omega (arith, count-append y low (hole ∷ high), count-append y low high))
        (ap length all ∙ omega (arith, length-append low (hole ∷ high), length-append low high)))
      λ index p. (
        record {
          filled = v.filled;
          within = v.within;
          small = v.small;
          below = l.tiles_before;
          gap = omega arith;
          above = l.tiles_after;
          index = p.0;
        },
        p.1,
        p.2,
      )

-- A gap that is filled leaves a heap.
pub IsGapped-IsHeap :
    {P : Type 0} {w : World P} {before : Blocks} {y : ℕ} {after : Blocks}
    → IsGapped w before y y after
    → IsHeap w (before ++ after)
IsGapped-IsHeap {w = w} {before} {y} {after} v =
    let all = holes-append w.memory w.heap.start_address before after y v.below in
    record {
      filled = v.filled;
      within = v.within;
      small = v.small;
      tiles =
          Tiles-append w.memory w.heap.start_address before after y w.heap.end_address v.below
            v.above;
      index = v.index.valid;
      bag = rw all v.index.bag;
      sorted = v.index.sorted;
    }
