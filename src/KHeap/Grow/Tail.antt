-- ===== src/KHeap/Grow/Tail.antt =====
-- `alloc` of src/kheap.c where no hole has room: the new pages become a hole, or join the last one.
use my_own_os.Prelude.{
  ℕ, ◌+◌, ◌-◌, ◌≤◌, ◌<◌, ◌≡◌, refl, sym, ◌∙◌, ap, ◌⊎◌, inl, inr, true, not, Option, none, some,
  List, [], ◌∷◌, ◌++◌, arith, ◌==◌, on_some, if◌then◌else◌, length, length-append,
}
use my_own_os.Prelude.Outcome.{ok, ◌>>=◌, Returns, returned, Returns->>=, Returns-map, Returns-if}
use my_own_os.Words.{u32_mod}
use my_own_os.Words.Memory.{
  Memory, IsApart, store32, store32-apart, stores-apart, load32-store32_self,
}
use my_own_os.OrderedArray.{OrderedArray, lookup_ordered_array, insert_ordered_array}
use my_own_os.KHeap.{heap_magic, size_at, Heap, World, with_index, publish_hole}
use my_own_os.KHeap.Blocks.{
  IsBlock, Blocks, Tiles, Tiles-end_of, append-nil, end_of, holes, holes-append,
}
use my_own_os.KHeap.Bag.{count, count-append, locate}
use my_own_os.KHeap.Index.{IsIndex, entry, lookup-entry, count-entry, remove-IsIndex}
use my_own_os.KHeap.Accepts.{IsHeap}
use my_own_os.KHeap.Gap.{IsGapped, IsGapped-IsHeap}
use my_own_os.KHeap.Gap.Fill.{insert-IsGapped, publish_hole-IsGapped}
use my_own_os.KHeap.Alloc.{grow_hole, add_tail}
use my_own_os.KHeap.Grow.Scan.{grown-IsBlock, no_blocks, IsEntry, last_hole-IsEntry}

-- The arena has `added` bytes more: as a new hole, or in the hole at its end.
pub record IsGrown {P : Type 0} (w : World P) (blocks : Blocks) (added : ℕ) (w' : World P)
    : Type 0 where
  pub before : Blocks
  pub size : ℕ
  pub tail :
      ((blocks ≡ before) × (size ≡ added))
      ⊎ ((t : ℕ) × (blocks ≡ before ++ ((t, true) ∷ [])) × (size ≡ t + added))
  pub heap : IsHeap w' (before ++ ((size, true) ∷ []))
  pub kept : (x : ℕ) → x < end_of w'.heap.start_address before → w'.memory x ≡ w.memory x
  pub index_size : w'.heap.index.size ≤ w.heap.index.size + 1
  pub index_max : w'.heap.index.max_size ≡ w.heap.index.max_size

module _ {P : Type 0} {w : World P} {blocks : Blocks} (old_end added : ℕ) (big : 20 ≤ added)
    (g : IsGapped w blocks old_end (old_end + added) [])
    (space : w.heap.index.size < w.heap.index.max_size) where
  publish_hole-IsGrown : Returns (IsGrown w blocks added) (publish_hole old_end added w)
  publish_hole-IsGrown =
      Returns-map (publish_hole-IsGapped g added big (omega arith) space)
        λ w' (g', k, size, max_size).
          (let start = ap (λ (h : Heap). h.start_address) k.heap in
            let here = Tiles-end_of w.memory w.heap.start_address blocks old_end g.below in
            record {
              before = blocks;
              size = added;
              tail = inl (refl, refl);
              heap = rw (append-nil (blocks ++ ((added, true) ∷ []))) at (IsGapped-IsHeap g');
              kept = λ x h. k.apart x (inl (rw (start, here) at h));
              index_size = omega (arith, size);
              index_max = max_size;
            })

  module _ (i : ℕ) (inside : i < w.heap.index.size)
      (at_end : entry g.index i + size_at w.memory (entry g.index i) ≡ old_end) where
    abbrev end_hole : ℕ
    end_hole = entry g.index i

    -- The entry is the last block.
    last-IsBlock :
        (init : Blocks) × (t : ℕ) × (blocks ≡ init ++ ((t, true) ∷ []))
        × Tiles w.memory w.heap.start_address init end_hole
        × IsBlock w.memory end_hole t true
        × (end_hole + t ≡ old_end)
    last-IsBlock =
        let listed = count-entry g.index i inside in
        let in_holes : 0 < count end_hole (holes w.heap.start_address blocks) =
          omega (arith, listed, count-append end_hole (holes w.heap.start_address blocks) []) in
        let l = locate w.memory w.heap.start_address blocks old_end end_hole g.below in_holes in
        let ends_here : end_hole + l.size ≡ old_end = omega (arith, at_end, l.block.size) in
        let none_after =
          no_blocks w.memory (end_hole + l.size) l.after (rw (sym ends_here) at l.tiles_after) in
        (l.before, l.size, rw none_after at l.split, l.tiles_before, l.block, ends_here)

    module _ (init : Blocks) (t : ℕ) (split : blocks ≡ init ++ ((t, true) ∷ []))
        (below : Tiles w.memory w.heap.start_address init end_hole)
        (block : IsBlock w.memory end_hole t true) (here : end_hole + t ≡ old_end) where
      -- The memory with the tags of the larger hole.
      abbrev grown : Memory
      grown =
          store32
            (store32 (store32 w.memory (end_hole + 8) (t + added)) (end_hole + (t + added) - 8 + 4)
              end_hole)
            (end_hole + (t + added) - 8) heap_magic

      grown-apart : (x : ℕ) → IsApart end_hole (end_hole + (t + added)) x → grown x ≡ w.memory x
      grown-apart x apart =
          let m1 = store32 w.memory (end_hole + 8) (t + added) in
          stores-apart m1 end_hole (end_hole + (t + added)) (end_hole + (t + added) - 8 + 4)
            end_hole (end_hole + (t + added) - 8) heap_magic (omega (arith, big))
            (omega (arith, big)) (omega (arith, big)) (omega (arith, big)) x apart
          ∙ one x apart
        where
          one :
              (x : ℕ)
              → IsApart end_hole (end_hole + (t + added)) x
              → store32 w.memory (end_hole + 8) (t + added) x ≡ w.memory x
          one x (inl p) = store32-apart w.memory (end_hole + 8) (t + added) x (inl (omega arith))
          one x (inr p) =
              store32-apart w.memory (end_hole + 8) (t + added) x (inr (omega (arith, big)))

      reinserted :
          (index : OrderedArray Memory ℕ)
          → IsIndex w.memory index (holes w.heap.start_address init ++ [])
          → index.size + 1 ≡ w.heap.index.size
          → index.max_size ≡ w.heap.index.max_size
          → Returns (IsGrown w blocks added) (do
            index ← insert_ordered_array 0 grown end_hole index
            ok (record (with_index w index) { memory = grown }))
      reinserted index v fewer same =
          let top : end_hole + (t + added) ≡ old_end + added = omega (arith, here) in
          let small : old_end + added < u32_mod = omega (arith, g.within, g.small, g.above) in
          let open_gap : IsGapped (with_index w index) init end_hole (end_hole + (t + added)) [] =
            record {
              filled = g.filled;
              within = g.within;
              small = g.small;
              below = below;
              gap = omega arith;
              above = rw top g.above;
              index = v;
            } in
          let tags =
            grown-IsBlock w.memory end_hole (t + added) (omega (arith, big))
              (omega (arith, small, top)) (omega (arith, small, top)) block.magic block.hole in
          Returns->>=
            (insert-IsGapped open_gap grown (t + added) (omega arith) grown-apart tags
              (omega (arith, space, fewer, same)))
            λ index' (g', size, max_size). returned _ (record {
              before = init;
              size = t + added;
              tail = inr (t, split, refl);
              heap = rw (append-nil (init ++ ((t + added, true) ∷ []))) at (IsGapped-IsHeap g');
              kept = λ x h.
                  grown-apart x (
                    inl (rw (Tiles-end_of w.memory w.heap.start_address init end_hole below) at h));
              index_size = omega (arith, size, fewer);
              index_max = max_size ∙ same;
            })

    grow_hole-IsGrown : Returns (IsGrown w blocks added) (grow_hole i end_hole added w)
    unfolding grow_hole
    grow_hole-IsGrown =
        let (init, t, split, below, block, here) = last-IsBlock in
        let low = holes w.heap.start_address init in
        let all : holes w.heap.start_address blocks ++ [] ≡ (low ++ (end_hole ∷ [])) ++ [] =
          ap (λ (bs : Blocks). holes w.heap.start_address bs ++ []) split
          ∙ ap (λ (xs : List ℕ). xs ++ [])
              (holes-append w.memory w.heap.start_address init ((t, true) ∷ []) end_hole below) in
        let size : size_at w.memory end_hole + added ≡ t + added =
          ap (λ (n : ℕ). n + added) block.size in
        let stored : size_at (store32 w.memory (end_hole + 8) (t + added)) end_hole ≡ t + added =
          load32-store32_self w.memory (end_hole + 8) (t + added)
            (omega (arith, here, g.within, g.small, g.above)) in
        Returns->>=
          (remove-IsIndex g.index i (low ++ []) inside
            (λ x.
              ap (count x) all
              ∙ omega (
                arith,
                count-append x (low ++ (end_hole ∷ [])) [],
                count-append x low (end_hole ∷ []),
                count-append x low [],
              ))
            (ap (λ (xs : List ℕ). length xs) all
              ∙ omega (
                arith,
                length-append (low ++ (end_hole ∷ [])) [],
                length-append low (end_hole ∷ []),
                length-append low [],
              )))
          λ index (v, fewer, same).
            rw (size, stored) (reinserted init t split below block here index v fewer same)

  pub add_tail-IsGrown : Returns (IsGrown w blocks added) (add_tail old_end added w)
  unfolding add_tail
  add_tail-IsGrown =
      Returns->>= (last_hole-IsEntry g.index w.heap.index.size 0 none 0 (omega arith) tt) found
    where
      found :
          (last : Option ℕ)
          → IsEntry w.heap.index last
          → Returns (IsGrown w blocks added) (
              on_some last (publish_hole old_end added w) λ i. (do
                end_hole ← lookup_ordered_array 0 i w.heap.index
                if not (end_hole + size_at w.memory end_hole == old_end)
                    then publish_hole old_end added w
                    else grow_hole i end_hole added w))
      found none h = publish_hole-IsGrown
      found (some i) h = rw (lookup-entry g.index i h) (
          Returns-if (not (entry g.index i + size_at w.memory (entry g.index i) == old_end))
            (λ elsewhere. publish_hole-IsGrown) (λ at_end. grow_hole-IsGrown i h (ground arith)))
