-- ===== src/KHeap/Place.antt =====
-- `alloc` of src/kheap.c from `orig_hole_header` on: the hole is cut into a leading hole, the block and
-- a trailing hole.
use my_own_os.Prelude.{
  ℕ, ◌+◌, ◌-◌, ◌%◌, ◌≤◌, ◌<◌, ◌≡◌, refl, sym, subst, get_or, ◌∙◌, ap, inl, Bool, true, false, List,
  [], ◌∷◌, ◌++◌, arith, leb, ◌==◌, if◌then◌else◌, lt→ltb,
}
use my_own_os.Prelude.Outcome.{
  ok, ◌>>=◌, ◌>>◌, Returns, returned, Returns->>=, Returns-map, Returns-assert, Returns-if,
}
use my_own_os.Words.{page_size}
use my_own_os.OrderedArray.Remove.{get_or-take}
use my_own_os.KHeap.{
  header_size, size_at, World, write_tags, page_alignment_offset, fits, with_index, publish_hole,
}
use my_own_os.KHeap.Blocks.{
  IsBlock, IsBlock-Agree, write_tags-IsBlock, write_tags-apart, Blocks, Tiles-le, append-nil,
}
use my_own_os.KHeap.Bag.{Located}
use my_own_os.KHeap.Index.{entry, lookup-entry}
use my_own_os.KHeap.Accepts.{IsHeap, contents-take, entry-Located, heap_validate-ok}
use my_own_os.KHeap.Gap.{
  IsGapped, Keeps, Keeps-trans, Keeps-refl, IsHeap-IsIndex, remove_ordered_array-IsGapped,
  IsGapped-IsHeap,
}
use my_own_os.KHeap.Gap.Fill.{allocate-IsGapped, publish_hole-IsGapped}
use my_own_os.KHeap.Validate.{heap_validate}
use my_own_os.KHeap.Alloc.{
  Attempt, allocated, taken_size, split_leading, split_trailing, place_block,
}
use my_own_os.KHeap.Cut.{
  IsHoleSize, hole_of, page_alignment_offset-IsHoleSize, page_alignment_offset-aligned, Cut,
  taken_size-Cut,
}

module _ {P : Type 0} {w : World P} {before : Blocks} {y z : ℕ} {after : Blocks}
    (v : IsGapped w before y z after) (space : w.heap.index.size < w.heap.index.max_size) (k : ℕ)
    (hole_size : IsHoleSize k) (room : y + k ≤ z) where
  -- The state after a hole of `k` bytes, where there is one.
  abbrev Split : World P → Type 0
  Split w' =
      IsGapped w' (before ++ hole_of k) (y + k) z after
      × Keeps w w' y (y + k)
      × (w'.heap.index.size ≤ w.heap.index.size + 1)
      × (w'.heap.index.max_size ≡ w.heap.index.max_size)

  no_hole : k ≡ 0 → Split w
  no_hole e =
      let same : y + 0 ≡ y = omega arith in
      rw (e, same, append-nil before) (v, Keeps-refl w y, omega arith, refl)

  one_hole : 20 ≤ k → Returns Split (publish_hole y k w)
  one_hole big =
      let some_hole : (k == 0) ≡ false = ground arith in
      Returns-map (publish_hole-IsGapped v k big room space)
        λ w' p. (rw some_hole p.0, p.1, omega (arith, p.2), p.3)

  split_leading-Split : Returns Split (split_leading y k w)
  unfolding split_leading
  split_leading-Split =
      Returns-if (k == 0) (λ e. returned w (no_hole (ground arith))) (λ e. one_hole (ground arith))

  split_trailing-Split : Returns Split (split_trailing y k w)
  unfolding split_trailing
  split_trailing-Split =
      Returns-if (leb 20 k)
        (λ e.
          Returns-assert _
            (lt→ltb _ _
              (omega (arith, v.filled, Tiles-le w.memory z after w.heap.end_address v.above)))
            (one_hole (ground arith)))
        (λ e. returned w (no_hole (ground arith)))

-- What a finished `alloc` has done to the hole at `hole`, `s` bytes long.
pub record IsPlaced {P : Type 0} (w : World P) (blocks : Blocks) (new_size : ℕ) (page_align : Bool)
    (hole s : ℕ) (result : Attempt P) : Type 0 where
  pub before : Blocks
  pub after : Blocks
  pub split : blocks ≡ before ++ ((s, true) ∷ after)
  pub leading : ℕ
  pub taken : ℕ
  pub final : World P
  pub answer : result ≡ allocated (hole + leading + header_size) final
  pub cut : Cut s new_size leading taken
  pub heap : IsHeap final (
      (((before ++ hole_of leading) ++ ((taken, false) ∷ [])) ++ hole_of (s - leading - taken))
      ++ after)
  pub block : IsBlock final.memory (hole + leading) taken false
  pub aligned : page_align ≡ true → (hole + leading + header_size) % page_size ≡ 0
  pub keeps : Keeps w final hole (hole + s)

module _ {P : Type 0} {w : World P} {blocks : Blocks} (before after : Blocks) (new_size : ℕ)
    (page_align : Bool) (hole s leading taken : ℕ) (split : blocks ≡ before ++ ((s, true) ∷ after))
    (cut : Cut s new_size leading taken) (big : 20 ≤ taken)
    (aligned : page_align ≡ true → (hole + leading + header_size) % page_size ≡ 0) where
  -- The three stages of the cut leave other memory alone, and the last one the block.
  placed :
      (w1 w3 : World P)
      → Keeps w w1 hole (hole + leading)
      → Keeps
          (record w1 { memory = write_tags w1.memory (hole + leading) taken false })
          w3
          (hole + leading + taken)
          (hole + s)
      → IsGapped w3
          (((before ++ hole_of leading) ++ ((taken, false) ∷ [])) ++ hole_of (s - leading - taken))
          (hole + s)
          (hole + s)
          after
      → IsPlaced w blocks new_size page_align hole s (allocated (hole + leading + header_size) w3)
  placed w1 w3 k k' g =
      let top = Tiles-le w3.memory (hole + s) after w3.heap.end_address g.above in
      let tagged =
        write_tags-IsBlock w1.memory (hole + leading) taken false big
          (omega (arith, top, g.within, g.small, cut.inside, big))
          (omega (arith, top, g.within, g.small, cut.inside, big)) in
      let k1 : Keeps w1 (record w1 { memory = write_tags w1.memory (hole + leading) taken false })
          (hole + leading) (hole + leading + taken) =
        record {
          apart = λ x h. write_tags-apart w1.memory (hole + leading) taken false big x h;
          heap = refl;
          pages = refl;
        } in
      record {
        before = before;
        after = after;
        split = split;
        leading = leading;
        taken = taken;
        final = w3;
        answer = refl;
        cut = cut;
        heap = IsGapped-IsHeap g;
        block = IsBlock-Agree tagged (λ x lo hi. k'.apart x (inl hi));
        aligned = aligned;
        keeps =
            Keeps-trans (omega arith) (omega (arith, cut.inside))
              (Keeps-trans (omega arith) (omega arith) k k1) k';
      }

module _ {P : Type 0} {w : World P} {blocks : Blocks} (v : IsHeap w blocks) (i : ℕ)
    (inside : i < w.heap.index.size) (space : w.heap.index.size < w.heap.index.max_size)
    (new_size : ℕ) (page_align : Bool) where
  abbrev hole : ℕ
  hole = entry (IsHeap-IsIndex v) i

  abbrev leading : ℕ
  leading = if page_align then page_alignment_offset hole else 0

  leading-fits :
      fits w.memory new_size page_align hole ≡ true
      → IsHoleSize leading × (leading + new_size ≤ size_at w.memory hole)
  leading-fits h = ground (arith, page_alignment_offset-IsHoleSize hole)

  abbrev Hole : Type 0
  Hole = Located w.memory w.heap.start_address hole w.heap.end_address blocks

  pub hole-Located : Hole
  hole-Located =
      let same =
        ap (λ (xs : List ℕ). get_or xs i 0) (contents-take v)
        ∙ get_or-take 0 v.index.backing.0 i w.heap.index.size inside in
      subst (λ x. Located w.memory w.heap.start_address x w.heap.end_address blocks) (sym same)
        (entry-Located v i inside)

  aligned-block : page_align ≡ true → (hole + leading + header_size) % page_size ≡ 0
  aligned-block e = rw e (page_alignment_offset-aligned hole)

  module _ (l : Hole) where
    abbrev taken : ℕ
    taken = taken_size (l.size - leading) new_size

    -- From the leading hole on.
    finish :
        Cut l.size new_size leading taken
        → 20 ≤ taken
        → (opened w1 : World P) → opened.heap.index.size + 1 ≡ w.heap.index.size
        → opened.heap.index.max_size ≡ w.heap.index.max_size
        → Keeps w opened hole hole
        → IsGapped w1 (l.before ++ hole_of leading) (hole + leading) (hole + l.size) l.after
          × Keeps opened w1 hole (hole + leading)
          × (w1.heap.index.size ≤ opened.heap.index.size + 1)
          × (w1.heap.index.max_size ≡ opened.heap.index.max_size)
        → Returns (IsPlaced w blocks new_size page_align hole l.size) (do
          let w2 = record w1 { memory = write_tags w1.memory (hole + leading) taken false }
          w3 ← split_trailing (hole + leading + taken) (l.size - leading - taken) w2
          heap_validate w3
          ok (allocated (hole + leading + header_size) w3))
    finish cut big opened w1 fewer same k led =
        let filled : hole + leading + taken + (l.size - leading - taken) ≡ hole + l.size =
          omega (arith, cut.inside) in
        let block = allocate-IsGapped led.0 taken big (omega (arith, cut.inside)) in
        let space' : w1.heap.index.size < w1.heap.index.max_size =
          omega (arith, space, fewer, same, led.2, led.3) in
        Returns->>=
          (split_trailing-Split block space' (l.size - leading - taken) cut.trailing_hole
            (omega (arith, cut.inside)))
          λ w3 rest.
            (let g = rw filled at rest.0 in
              let k' = rw filled at rest.1 in
              rw (heap_validate-ok (IsGapped-IsHeap g)) (
                returned _ (
                  placed l.before l.after new_size page_align hole l.size leading taken l.split cut
                    big aligned-block w1 w3 (Keeps-trans (omega arith) (omega arith) k led.1) k'
                    g)))

  -- The hole is cut, the block tagged and the heap valid again.
  pub place_block-IsPlaced :
      20 ≤ new_size
      → fits w.memory new_size page_align hole ≡ true
      → Returns
          (IsPlaced w blocks new_size page_align hole (size_at w.memory hole))
          (place_block i new_size page_align w)
  unfolding place_block
  place_block-IsPlaced big h =
      let l : Hole = hole-Located in
      let size = l.block.size in
      let enough = leading-fits h in
      let cut = taken_size-Cut l.size new_size leading enough.0 (omega (arith, size, enough.1)) in
      rw (lookup-entry (IsHeap-IsIndex v) i inside, size)
        (Returns->>= (remove_ordered_array-IsGapped v i inside l) λ index opened.
          (Returns->>=
            (split_leading-Split opened.0 (omega (arith, space, opened.1, opened.2)) leading
              enough.0 (omega (arith, cut.inside)))
            λ w1 led.
              finish l cut (omega (arith, big, cut.enough)) (with_index w index) w1 opened.1
                opened.2 (record { apart = λ x h. refl; heap = refl; pages = refl }) led))
