-- ===== src/KHeap/Gap/Fill.antt =====
-- Cutting up a hole in src/kheap.c: blocks and holes at the lower end of the gap.
use my_own_os.Prelude.{
  ℕ, ◌+◌, ◌≤◌, ◌<◌, ◌≡◌, refl, inl, inr, Bool, true, false, List, [], ◌∷◌, ◌++◌, arith,
  length-append,
}
use my_own_os.Prelude.Outcome.{Returns, returned, Returns->>=, Returns-map}
use my_own_os.Words.Memory.{Memory, IsApart}
use my_own_os.OrderedArray.{insert_ordered_array}
use my_own_os.KHeap.{World, write_tags, with_index, publish_hole}
use my_own_os.KHeap.Blocks.{
  IsBlock, write_tags-apart, write_tags-IsBlock, Blocks, Tiles, Tiles-le, holes, Tiles-append,
  holes-append, Tiles-Agree,
}
use my_own_os.KHeap.Bag.{SameBag, count-append}
use my_own_os.KHeap.Index.{IsIndex, IsIndex-SameBag, insert-IsIndex}
use my_own_os.KHeap.Gap.{IsGapped, Keeps, IsGapped-memory}

-- One more header at the end of the first part.
SameBag-middle : (y : ℕ) (xs ys : List ℕ) → SameBag (y ∷ (xs ++ ys)) ((xs ++ (y ∷ [])) ++ ys)
SameBag-middle y xs ys = (
  λ x.
      omega (
        arith,
        count-append x (xs ++ (y ∷ [])) ys,
        count-append x xs (y ∷ []),
        count-append x xs ys,
      ),
  omega (arith, length-append (xs ++ (y ∷ [])) ys, length-append xs (y ∷ []), length-append xs ys),
)

SameBag-end : (xs ys : List ℕ) → SameBag (xs ++ ys) ((xs ++ []) ++ ys)
SameBag-end xs ys = (
  λ x. omega (arith, count-append x (xs ++ []) ys, count-append x xs [], count-append x xs ys),
  omega (arith, length-append (xs ++ []) ys, length-append xs [], length-append xs ys),
)

wider : (lo mid hi x : ℕ) → mid ≤ hi → IsApart lo hi x → IsApart lo mid x
wider lo mid hi x h (inl below) = inl below
wider lo mid hi x h (inr above) = inr (omega arith)

module _ {P : Type 0} {w : World P} {before : Blocks} {y z : ℕ} {after : Blocks}
    (v : IsGapped w before y z after) where
  -- The lower end of the gap becomes a block of `k` bytes.
  module _ (m' : Memory) (k : ℕ) (h : Bool) (room : y + k ≤ z) (block : IsBlock m' y k h)
      (kept : (x : ℕ) → IsApart y (y + k) x → m' x ≡ w.memory x) where
    filled-before : Tiles m' w.heap.start_address (before ++ ((k, h) ∷ [])) (y + k)
    filled-before =
        Tiles-append m' w.heap.start_address before ((k, h) ∷ []) y (y + k)
          (Tiles-Agree w.heap.start_address before y v.below (λ x l u. kept x (inl u)))
          (block, refl)

    filled-above : Tiles m' z after w.heap.end_address
    filled-above =
        Tiles-Agree z after w.heap.end_address v.above (λ x l u. kept x (inr (omega arith)))

    filled-index : IsIndex m' w.heap.index (holes w.heap.start_address before ++ holes z after)
    filled-index = (IsGapped-memory v m' (λ x apart. kept x (wider y (y + k) z x room apart))).index

    holes-before :
        holes w.heap.start_address (before ++ ((k, h) ∷ []))
        ≡ holes w.heap.start_address before ++ holes y ((k, h) ∷ [])
    holes-before = holes-append w.memory w.heap.start_address before ((k, h) ∷ []) y v.below

  module _ (m' : Memory) (k : ℕ) (room : y + k ≤ z)
      (kept : (x : ℕ) → IsApart y (y + k) x → m' x ≡ w.memory x) where
    -- An allocated block.
    pub fill-IsGapped :
        IsBlock m' y k false
        → IsGapped (record w { memory = m' }) (before ++ ((k, false) ∷ [])) (y + k) z after
    fill-IsGapped block = record {
      filled = v.filled;
      within = v.within;
      small = v.small;
      below = filled-before m' k false room block kept;
      gap = room;
      above = filled-above m' k false room block kept;
      index = rw (holes-before m' k false room block kept) (
          IsIndex-SameBag (filled-index m' k false room block kept) _
            (SameBag-end (holes w.heap.start_address before) (holes z after)));
    }

    -- A hole, with its place in the index.
    pub insert-IsGapped :
        IsBlock m' y k true
        → w.heap.index.size < w.heap.index.max_size
        → Returns
            (λ index.
              IsGapped
                (record (with_index w index) { memory = m' })
                (before ++ ((k, true) ∷ []))
                (y + k)
                z
                after
              × (index.size ≡ w.heap.index.size + 1)
              × (index.max_size ≡ w.heap.index.max_size))
            (insert_ordered_array 0 m' y w.heap.index)
    insert-IsGapped block space =
        Returns-map (insert-IsIndex (filled-index m' k true room block kept) y space) λ index p. (
          record {
            filled = v.filled;
            within = v.within;
            small = v.small;
            below = filled-before m' k true room block kept;
            gap = room;
            above = filled-above m' k true room block kept;
            index = rw (holes-before m' k true room block kept) (
                IsIndex-SameBag p.0 _
                  (SameBag-middle y (holes w.heap.start_address before) (holes z after)));
          },
          p.1,
          p.2,
        )

  module _ (k : ℕ) (big : 20 ≤ k) (room : y + k ≤ z) where
    tagged-IsBlock : (h : Bool) → IsBlock (write_tags w.memory y k h) y k h
    tagged-IsBlock h =
        let top = Tiles-le w.memory z after w.heap.end_address v.above in
        write_tags-IsBlock w.memory y k h big (omega (arith, top, v.within, v.small))
          (omega (arith, top, v.within, v.small))

    pub allocate-IsGapped :
        IsGapped
          (record w { memory = write_tags w.memory y k false })
          (before ++ ((k, false) ∷ []))
          (y + k)
          z
          after
    allocate-IsGapped =
        fill-IsGapped (write_tags w.memory y k false) k room
          (write_tags-apart w.memory y k false big) (tagged-IsBlock false)

    pub publish_hole-IsGapped :
        w.heap.index.size < w.heap.index.max_size
        → Returns
            (λ (w' : World P).
              IsGapped w' (before ++ ((k, true) ∷ [])) (y + k) z after
              × Keeps w w' y (y + k)
              × (w'.heap.index.size ≡ w.heap.index.size + 1)
              × (w'.heap.index.max_size ≡ w.heap.index.max_size))
            (publish_hole y k w)
    unfolding publish_hole
    publish_hole-IsGapped space =
        let apart = write_tags-apart w.memory y k true big in
        Returns->>=
          (insert-IsGapped (write_tags w.memory y k true) k room apart (tagged-IsBlock true) space)
          λ b p. returned _ (p.0, record { apart = apart; heap = refl; pages = refl }, p.1, p.2)
