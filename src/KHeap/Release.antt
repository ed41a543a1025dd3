-- ===== src/KHeap/Release.antt =====
-- `free` of src/kheap.c where the merged hole does not reach the end of the arena.
use my_own_os.Prelude.{
  ℕ, ◌+◌, ◌-◌, ◌≤◌, ◌<◌, ◌≡◌, refl, ◌∙◌, ap, inl, inr, Bool, true, false, [], ◌∷◌, ◌++◌, arith, ltb,
  leb, le→leb, lt→ltb, ◌==◌, if_true,
}
use my_own_os.Prelude.Outcome.{
  Outcome, ok, ◌>>=◌, ◌>>◌, Returns, returned, Returns->>=, Returns-map,
}
use my_own_os.Words.Memory.{Memory, IsApart, store8, load32-store8_apart}
use my_own_os.KHeap.{header_size, World, Pager}
use my_own_os.KHeap.Validate.{heap_validate}
use my_own_os.KHeap.Blocks.{IsBlock, Blocks, Tiles, Tiles-le, holes-append, end_of, Tiles-split}
use my_own_os.KHeap.Accepts.{IsHeap, heap_validate-ok}
use my_own_os.KHeap.Gap.{IsGapped, IsGapped-memory, IsGapped-IsHeap, IsHeap-IsIndex}
use my_own_os.KHeap.Gap.Fill.{insert-IsGapped}
use my_own_os.KHeap.Free.{merge_left, merge_right, release_tail, insert_hole, check_block, free}
use my_own_os.KHeap.Merge.{left_rest, left_size, right_rest, right_size, IsOpen}
use my_own_os.KHeap.Neighbours.{merge_left-Joined}
use my_own_os.KHeap.Neighbours.Right.{merge_right-Closed}

pub left_size-le : (m : Memory) (a : ℕ) (bs : Blocks) (e : ℕ) → Tiles m a bs e → left_size bs ≤ e
left_size-le m a [] e t = omega arith
left_size-le m a ((s, true) ∷ []) e t = omega (arith, t.1)
left_size-le m a ((s, false) ∷ []) e t = omega arith
left_size-le m a (b ∷ c ∷ bs) e t = left_size-le m (a + b.0) (c ∷ bs) e t.1

IsBlock-store8 :
    (m : Memory) (a s : ℕ) → IsBlock m a s false → IsBlock (store8 m (a + 4) 1) a s true
IsBlock-store8 m a s b = record {
  big = b.big;
  magic = load32-store8_apart m (a + 4) 1 a (inl (omega arith)) ∙ b.magic;
  hole = if_true (a + 4 == a + 4) (m (a + 4)) (ground arith);
  size = load32-store8_apart m (a + 4) 1 (a + 8) (inr (omega arith)) ∙ b.size;
  foot_magic =
      load32-store8_apart m (a + 4) 1 (a + s - 8) (inr (omega (arith, b.big))) ∙ b.foot_magic;
  foot_header =
      load32-store8_apart m (a + 4) 1 (a + s - 8 + 4) (inr (omega (arith, b.big))) ∙ b.foot_header;
}

module _ {P : Type 0} {w0 w : World P} {before after : Blocks} {y z : ℕ}
    (o : IsOpen w0 w before y z after) where
  abbrev pub Inserted : World P → Type 0
  Inserted w' =
      IsHeap w' ((before ++ ((z - y, true) ∷ [])) ++ after)
      × (w'.memory ≡ w.memory)
      × (w'.heap.end_address ≡ w.heap.end_address)

  insert_hole-Inserted : Returns Inserted (insert_hole true y w)
  unfolding insert_hole
  insert_hole-Inserted =
      let filled : y + (z - y) ≡ z = omega (arith, o.gapped.gap) in
      Returns->>=
        (insert-IsGapped o.gapped w.memory (z - y) (omega (arith, o.gapped.gap)) (λ x h. refl)
          o.block o.space)
        λ index p. returned _ (IsGapped-IsHeap (rw filled at p.0), refl, refl)

  -- The merged hole goes into the index.
  pub insert_hole-IsHeap : Returns Inserted (do w ← insert_hole true y w; heap_validate w; ok w)
  insert_hole-IsHeap =
      Returns->>= insert_hole-Inserted λ w' p. rw (heap_validate-ok p.0) (returned w' p)

  pub release_tail-inside :
      (pager : Pager P) → z < w.heap.end_address → release_tail pager y (z - 8) w ≡ ok (true, w)
  unfolding release_tail
  release_tail-inside pager h =
      let foot : (z - 8 + 8 == w.heap.end_address) ≡ false =
        let big = o.block.big in ground arith in
      rw foot refl

module _ {P : Type 0} {w : World P} (before : Blocks) (s : ℕ) (after : Blocks)
    (v : IsHeap w (before ++ ((s, false) ∷ after))) where
  -- Where the block starts.
  abbrev pub header : ℕ
  header = end_of w.heap.start_address before

  IsBlock-Tiles :
      Tiles w.memory w.heap.start_address before header
      × IsBlock w.memory header s false
      × Tiles w.memory (header + s) after w.heap.end_address
  IsBlock-Tiles =
      let (low, high) =
        Tiles-split w.memory w.heap.start_address before ((s, false) ∷ after) w.heap.end_address
          v.tiles in
      (low, high.0, high.1)

  opened-IsOpen :
      w.heap.index.size < w.heap.index.max_size
      → IsOpen w
          (record w { memory = store8 w.memory (header + 4) 1 })
          before
          header
          (header + s)
          after
  opened-IsOpen space =
      let (low, block, high) = IsBlock-Tiles in
      let all = holes-append w.memory w.heap.start_address before ((s, false) ∷ after) header low in
      let gapped : IsGapped w before header (header + s) after = record {
        filled = v.filled;
        within = v.within;
        small = v.small;
        below = low;
        gap = omega arith;
        above = high;
        index = rw all at (IsHeap-IsIndex v);
      } in
      let kept = store8-apart w.memory header (header + s) block.big in
      let length : s ≡ header + s - header = omega arith in
      record {
        gapped = IsGapped-memory gapped (store8 w.memory (header + 4) 1) kept;
        block = rw length at (IsBlock-store8 w.memory header s block);
        space = space;
        apart = kept;
        bounds = (refl, refl);
        pages = refl;
      }
    where
      store8-apart :
          (m : Memory) (a e : ℕ)
          → 20 ≤ s
          → (x : ℕ) → IsApart header (header + s) x
          → store8 m (header + 4) 1 x ≡ m x
      store8-apart m a e big x (inl below) = ground arith
      store8-apart m a e big x (inr above) = ground arith

  -- The blocks after `free`.
  abbrev pub released : Blocks
  released =
      (left_rest before ++ ((left_size before + s + right_size after, true) ∷ []))
      ++ right_rest after

  check_block-ok : check_block header w ≡ ok tt
  unfolding check_block
  check_block-ok =
      let (low, block, high) = IsBlock-Tiles in
      let top = Tiles-le w.memory (header + s) after w.heap.end_address high in
      let big : leb 20 s ≡ true = le→leb 20 s block.big in
      let inside : leb s (w.heap.end_address - header) ≡ true = le→leb s _ (omega (arith, top)) in
      rw (block.magic, block.hole, block.size, big, inside, block.foot_magic) refl

  -- What follows the merges runs on the hole with both neighbours, and its footer.
  pub merged->>= {ℓ κ} :
      {B : Type ℓ} {Q : B → Type κ} (next : ℕ → ℕ → World P → Outcome B)
      → w.heap.index.size < w.heap.index.max_size
      → ((w' : World P)
          → IsOpen w w'
              (left_rest before)
              (header - left_size before)
              (header + s + right_size after)
              (right_rest after)
          → Returns Q (next (header - left_size before) (header + s + right_size after - 8) w'))
      → Returns Q (do
        (address, w) ←
            merge_left header
              (header + s - 8)
              (record w { memory = store8 w.memory (header + 4) 1 })
        (footer, w) ← merge_right address (header + s - 8) w
        next address footer w)
  merged->>= next space then_next =
      Returns->>= (merge_left-Joined before (opened-IsOpen space)) λ (address, w1) (o, e).
        (Returns->>= (merge_right-Closed after o)
          λ (footer, w2) (o', e'). (rw (e, e') (then_next w2 (rw e at o'))))

  -- The assertions of `free` hold, and the merges run.
  pub free->>= {κ} :
      (pager : Pager P) {Q : World P → Type κ}
      → w.heap.index.size < w.heap.index.max_size
      → ((w' : World P)
          → IsOpen w w'
              (left_rest before)
              (header - left_size before)
              (header + s + right_size after)
              (right_rest after)
          → Returns Q (do
            (do_add, w) ←
                release_tail pager
                  (header - left_size before)
                  (header + s + right_size after - 8)
                  w'
            w ← insert_hole do_add (header - left_size before) w
            heap_validate w
            ok w))
      → Returns Q (free pager (header + header_size) w)
  unfolding free
  free->>= pager space then_next =
      let (low, block, high) = IsBlock-Tiles in
      let bottom = Tiles-le w.memory w.heap.start_address before header low in
      let top = Tiles-le w.memory (header + s) after w.heap.end_address high in
      let some_block : (header + 12 == 0) ≡ false = ground arith in
      let above : leb (w.heap.start_address + 12) (header + 12) ≡ true =
        le→leb _ _ (omega (arith, bottom)) in
      let under : ltb (header + 12) w.heap.end_address ≡ true =
        lt→ltb _ _ (omega (arith, top, block.big)) in
      let back : header + 12 - 12 ≡ header = omega arith in
      rw (some_block, heap_validate-ok v, above, under, back, check_block-ok, block.size)
        (merged->>=
          (λ address footer w'. (do
            (do_add, w) ← release_tail pager address footer w'
            w ← insert_hole do_add address w
            heap_validate w
            ok w))
          space then_next)

  -- For an allocated block of a well-formed heap whose index has room for one more hole, where,
  -- above the block and the hole behind it if there is one, another block follows: free returns;
  -- the block and the holes next to it are one hole, all other blocks are as before, the heap is
  -- well formed, and memory outside that hole is as it was.
  pub free-IsHeap :
      (pager : Pager P) (next : ℕ × Bool) (rest : Blocks)
      → w.heap.index.size < w.heap.index.max_size
      → right_rest after ≡ next ∷ rest
      → Returns
          (λ (w' : World P).
            IsHeap w' released
            × ((x : ℕ)
                → IsApart (header - left_size before) (header + s + right_size after) x
                → w'.memory x ≡ w.memory x))
          (free pager (header + header_size) w)
  free-IsHeap pager next rest space more = free->>= pager space λ w' o.
      (let tiles = rw more at o.gapped.above in
        let top =
          Tiles-le w'.memory (header + s + right_size after + next.0) rest w'.heap.end_address
            tiles.1 in
        let low = left_size-le w.memory w.heap.start_address before header (IsBlock-Tiles).0 in
        let length : header + s + right_size after - (header - left_size before)
            ≡ left_size before + s + right_size after =
          omega (arith, low) in
        rw (release_tail-inside o pager (omega (arith, top, tiles.0.big))) (
          Returns-map (insert_hole-IsHeap o)
            λ w2 p. (rw length at p.0, λ x h. ap (λ (m : Memory). m x) p.1 ∙ o.apart x h)))
