-- ===== src/KHeap/Neighbours.antt =====
-- `free` of src/kheap.c: the two merges keep the hole open and the other blocks in place.
pub mod Right
use my_own_os.Prelude.{
  ℕ, zero, suc, ◌+◌, ◌-◌, ◌≤◌, ◌<◌, ◌≡◌, refl, sym, ◌∙◌, ap, subst, ◌⊎◌, inl, inr, Bool, true,
  false, not, ◌&&◌, List, [], ◌∷◌, ◌++◌, arith, ltb, lt→ltb, ◌==◌, if◌then◌else◌, if_true, if_false,
  length, length-append,
}
use my_own_os.Prelude.Outcome.{Outcome, ok, Returns, returned, Returns->>=, Returns-map}
use my_own_os.Words.{u32_mod, add32}
use my_own_os.Words.Memory.{
  Memory, IsApart, store32, load32, store32-apart, stores-apart, load32-store32_apart,
}
use my_own_os.OrderedArray.{OrderedArray}
use my_own_os.KHeap.{heap_magic, magic_at, footer_size, size_at, World, with_index}
use my_own_os.KHeap.Blocks.{
  IsBlock, Blocks, Tiles, Tiles-le, holes, holes-append, end_of, Tiles-split,
}
use my_own_os.KHeap.Bag.{count, count-append}
use my_own_os.KHeap.Gap.{IsGapped, IsGapped-memory}
use my_own_os.KHeap.Free.{unpublish, merge_left, merge_right}
use my_own_os.KHeap.Unpublish.{unpublish-IsIndex}
use my_own_os.KHeap.Merge.{
  left_rest, left_size, right_rest, right_size, Last, is_empty, ends, last_of, left-append, IsOpen,
  joined_left-IsBlock, joined_right-IsBlock,
}

Tiles-last :
    (m : Memory) (a : ℕ) (init : Blocks) (t : ℕ) (h : Bool) (y : ℕ)
    → Tiles m a (init ++ ((t, h) ∷ [])) y
    → Tiles m a init (end_of a init) × IsBlock m (end_of a init) t h × (end_of a init + t ≡ y)
Tiles-last m a init t h y tiles =
    let (low, last) = Tiles-split m a init ((t, h) ∷ []) y tiles in (low, last.0, last.1)

-- The index without the header of a neighbour, and the gap that now holds it.
abbrev pub Unpublished : {P : Type 0} → World P → Blocks → ℕ → ℕ → Blocks → World P → Type 0
Unpublished w before y z after w' =
    (index : OrderedArray Memory ℕ) × (w' ≡ with_index w index)
    × IsGapped (with_index w index) before y z after
    × (index.size ≤ w.heap.index.size)
    × (index.max_size ≡ w.heap.index.max_size)

module _ {P : Type 0} {w : World P} {y z : ℕ} where
  unpublish-left :
      {after : Blocks} (init : Blocks) (t a : ℕ)
      → IsGapped w (init ++ ((t, true) ∷ [])) y z after
      → Tiles w.memory w.heap.start_address init a
      → a ≤ y
      → Returns (Unpublished w init a z after) (unpublish a w)
  unpublish-left {after} init t a g below le =
      let low = holes w.heap.start_address init in
      let high = holes z after in
      let all : holes w.heap.start_address (init ++ ((t, true) ∷ [])) ≡ low ++ (a ∷ []) =
        holes-append w.memory w.heap.start_address init ((t, true) ∷ []) a below in
      Returns-map
        (unpublish-IsIndex (rw all at g.index) w a (low ++ high) refl
          (λ x. omega (
            arith,
            count-append x (low ++ (a ∷ [])) high,
            count-append x low (a ∷ []),
            count-append x low high,
          ))
          (omega (
            arith,
            length-append (low ++ (a ∷ [])) high,
            length-append low (a ∷ []),
            length-append low high,
          )))
        λ w' (index, e, v, size, max_size). (
          index,
          e,
          record {
            filled = g.filled;
            within = g.within;
            small = g.small;
            below = below;
            gap = omega (arith, g.gap);
            above = g.above;
            index = v;
          },
          omega (arith, size),
          max_size,
        )

  -- The same with other memory already written.
  pub unpublish-right :
      {before : Blocks} (m : Memory) (t : ℕ) (rest : Blocks)
      → IsGapped w before y z ((t, true) ∷ rest)
      → Returns
          (λ (w' : World P).
            (index : OrderedArray Memory ℕ) × (w' ≡ record (with_index w index) { memory = m })
            × IsGapped (with_index w index) before y (z + t) rest
            × (index.size ≤ w.heap.index.size)
            × (index.max_size ≡ w.heap.index.max_size))
          (unpublish z (record w { memory = m }))
  unpublish-right {before} m t rest g =
      let low = holes w.heap.start_address before in
      let high = holes (z + t) rest in
      Returns-map
        (unpublish-IsIndex g.index (record w { memory = m }) z (low ++ high) refl
          (λ x. omega (arith, count-append x low (z ∷ high), count-append x low high))
          (omega (arith, length-append low (z ∷ high), length-append low high)))
        λ w' (index, e, v, size, max_size). (
          index,
          e,
          record {
            filled = g.filled;
            within = g.within;
            small = g.small;
            below = g.below;
            gap = omega (arith, g.gap);
            above = g.above.1;
            index = v;
          },
          omega (arith, size),
          max_size,
        )

pub add32-exact : (a b c : ℕ) → a + b ≡ c → c < u32_mod → add32 a b ≡ c
add32-exact a b c e h = ground arith

pub and_no : (a b : Bool) → (a && b && false) ≡ false
and_no true true = refl
and_no true false = refl
and_no false b = refl

-- The state after a merge to the left.
abbrev pub Joined : {P : Type 0} → World P → ℕ → ℕ → Blocks → Blocks → ℕ × World P → Type 0
Joined w0 y z after before r =
    IsOpen w0 r.1 (left_rest before) r.0 z after × (r.0 ≡ y - left_size before)

module _ {P : Type 0} {w0 w : World P} {before after : Blocks} {y z : ℕ}
    (o : IsOpen w0 w before y z after) where
  -- The gap grows by a neighbour, and the tags are written for the whole of it.
  pub IsOpen-join :
      (before' : Blocks) (a z' : ℕ) (after' : Blocks) (index : OrderedArray Memory ℕ) (m' : Memory)
      → a ≤ y
      → z ≤ z'
      → IsGapped (with_index w index) before' a z' after'
      → index.size ≤ w.heap.index.size
      → index.max_size ≡ w.heap.index.max_size
      → ((x : ℕ) → IsApart a z' x → m' x ≡ w.memory x)
      → IsBlock m' a (z' - a) true
      → IsOpen w0 (record (with_index w index) { memory = m' }) before' a z' after'
  IsOpen-join before' a z' after' index m' le ge g size max_size kept block = record {
    gapped = IsGapped-memory g m' kept;
    block = block;
    space = omega (arith, size, max_size, o.space);
    apart = λ x h. kept x h ∙ o.apart x (within x h);
    bounds = o.bounds;
    pages = o.pages;
  }
    where
      within : (x : ℕ) → IsApart a z' x → IsApart y z x
      within x (inl below) = inl (omega arith)
      within x (inr above) = inr (omega arith)

module _ {P : Type 0} {w0 w : World P} {y z : ℕ} {after : Blocks} where
  merge_left-start :
      IsOpen w0 w [] y z after → Returns (Joined w0 y z after []) (merge_left y (z - 8) w)
  unfolding merge_left
  merge_left-start o =
      let first : ltb w.heap.start_address y ≡ false = let here = o.gapped.below in ground arith in
      rw first (returned (y, w) (o, omega arith))

  merge_left-block :
      (init : Blocks) (t : ℕ)
      → IsOpen w0 w (init ++ ((t, false) ∷ [])) y z after
      → Returns (Joined w0 y z after (init ++ ((t, false) ∷ []))) (merge_left y (z - 8) w)
  unfolding merge_left
  merge_left-block init t o =
      let (below, last, here) =
        Tiles-last w.memory w.heap.start_address init t false y o.gapped.below in
      let a = end_of w.heap.start_address init in
      let foot : y - 8 + 4 ≡ a + t - 8 + 4 = omega (arith, here) in
      let (same, none_left) = left-append init t false in
      rw
        (
          foot,
          last.foot_header,
          last.hole,
          and_no (ltb w.heap.start_address y) (magic_at w.memory (y - 8) == heap_magic),
        )
        (returned (y, w) (rw same o, omega (arith, none_left)))

  merge_left-hole :
      (init : Blocks) (t : ℕ)
      → IsOpen w0 w (init ++ ((t, true) ∷ [])) y z after
      → Returns (Joined w0 y z after (init ++ ((t, true) ∷ []))) (merge_left y (z - 8) w)
  unfolding merge_left
  merge_left-hole init t o =
      let (below, last, here) =
        Tiles-last w.memory w.heap.start_address init t true y o.gapped.below in
      let a = end_of w.heap.start_address init in
      let foot : y - 8 ≡ a + t - 8 = omega (arith, here) in
      let low = Tiles-le w.memory w.heap.start_address init a below in
      let top = Tiles-le w.memory z after w.heap.end_address o.gapped.above in
      let small : z < u32_mod = omega (arith, top, o.gapped.within, o.gapped.small) in
      let first : ltb w.heap.start_address y ≡ true =
        lt→ltb _ _ (omega (arith, low, here, last.big)) in
      let length : t ≡ y - a = omega (arith, here) in
      let sum : add32 (size_at (store32 w.memory (z - 8 + 4) a) a) (size_at w.memory y) ≡ z - a =
        rw
          (
            load32-store32_apart w.memory (z - 8 + 4) a (a + 8)
                (inl (omega (arith, here, last.big, o.block.big))),
            last.size,
            o.block.size,
          )
          (add32-exact t (z - y) (z - a) (omega (arith, here, o.block.big))
            (omega (arith, small))) in
      let (same, left) = left-append init t true in
      rw (first, foot, last.foot_magic, last.foot_header, last.hole)
        (Returns->>= (unpublish-left init t a o.gapped below (omega (arith, here)))
          λ w1 (index, e, g, size, max_size). rw e (
            rw sum (
              returned _ (
                rw same (
                    IsOpen-join o init a z after index
                      (store32 (store32 w.memory (z - 8 + 4) a) (a + 8) (z - a))
                      (omega (arith, here)) (omega arith) g size max_size
                      (stores-apart w.memory a z (z - 8 + 4) a (a + 8) (z - a)
                        (omega (arith, here, o.block.big)) (omega (arith, here, o.block.big))
                        (omega arith) (omega (arith, here, last.big, o.block.big)))
                      (joined_left-IsBlock w.memory a y z (rw length at last) o.block small)),
                omega (arith, left, here),
              ))))

  pub merge_left-Joined :
      (before : Blocks)
      → IsOpen w0 w before y z after
      → Returns (Joined w0 y z after before) (merge_left y (z - 8) w)
  merge_left-Joined before o = elim (last_of before) [
    | is_empty e ↦ rw e (merge_left-start (rw e at o))
    | ends init t true e ↦ rw e (merge_left-hole init t (rw e at o))
    | ends init t false e ↦ rw e (merge_left-block init t (rw e at o))
  ]
