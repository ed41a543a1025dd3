-- ===== src/KHeap/Shrink.antt =====
-- `free` of src/kheap.c where the merged hole reaches the end of the arena.
use my_own_os.Prelude.{
  ℕ, ◌+◌, ◌-◌, ◌≤◌, ◌<◌, ◌≡◌, refl, sym, subst, ◌∙◌, ap, inl, inr, Bool, true, false, [], ◌∷◌, ◌++◌,
  arith, ltb, lt→ltb, ◌==◌,
}
use my_own_os.Prelude.Outcome.{ok, ◌>>=◌, ◌>>◌, Returns, returned, Returns->>=, Returns-map}
use my_own_os.Words.{sub32}
use my_own_os.Words.Memory.{
  Memory, IsApart, store32, load32-Agree, load32-store32_self, store32-apart, stores-apart,
}
use my_own_os.KHeap.{heap_magic, header_size, size_at, Heap, World, Pager}
use my_own_os.KHeap.Validate.{heap_validate}
use my_own_os.KHeap.Blocks.{resized-IsBlock, Blocks, Tiles-le, append-nil}
use my_own_os.KHeap.Accepts.{IsHeap}
use my_own_os.KHeap.Gap.{IsGapped-memory}
use my_own_os.KHeap.Resize.{kept_size}
use my_own_os.KHeap.Free.{release_tail, insert_hole, free}
use my_own_os.KHeap.Merge.{left_rest, left_size, right_rest, right_size, IsOpen}
use my_own_os.KHeap.Release.{header, free->>=, insert_hole-IsHeap}
use my_own_os.KHeap.Contract.{Unmaps, ArePresent, contract-Unmapped, IsPaged, kept_size-le}

module _ {P : Type 0} {pager : Pager P} {IsMapped : ℕ → P → Type 0} (unmaps : Unmaps pager IsMapped)
    {w0 w : World P} {before : Blocks} {y : ℕ} (o : IsOpen w0 w before y w.heap.end_address [])
    (paged : IsPaged w) where
  -- The end of the arena after `contract`.
  abbrev new_end : ℕ
  new_end = w.heap.start_address + kept_size (y - w.heap.start_address)

  module _ (w1 : World P) (heap : w1.heap ≡ record w.heap { end_address = new_end })
      (kept : (x : ℕ) → IsApart new_end w.heap.end_address x → w1.memory x ≡ w.memory x)
      (le : new_end ≤ w.heap.end_address) (fits : y + 20 ≤ new_end) where
    abbrev shrunk : Memory
    shrunk =
        store32
          (store32 (store32 w1.memory (y + 8) (new_end - y)) (y + (new_end - y) - 8) heap_magic)
          (y + (new_end - y) - 8 + 4) y

    -- Below the new end, only the hole's tags change.
    shrunk-apart : (x : ℕ) → IsApart y w.heap.end_address x → shrunk x ≡ w.memory x
    shrunk-apart x (inl below) =
        store32-apart _ (y + (new_end - y) - 8 + 4) y x (inl (omega arith))
        ∙ (stores-apart w1.memory y w.heap.end_address (y + 8) (new_end - y) (y + (new_end - y) - 8)
              heap_magic (omega arith) (omega (arith, le, fits)) (omega (arith, fits))
              (omega (arith, le, fits)) x (inl below)
            ∙ kept x (inl (omega (arith, fits))))
    shrunk-apart x (inr above) =
        store32-apart _ (y + (new_end - y) - 8 + 4) y x (inr (omega (arith, le, fits)))
        ∙ (stores-apart w1.memory y w.heap.end_address (y + 8) (new_end - y) (y + (new_end - y) - 8)
              heap_magic (omega arith) (omega (arith, le, fits)) (omega (arith, fits))
              (omega (arith, le, fits)) x (inr above)
            ∙ kept x (inr above))

    shrunk-IsOpen :
        IsOpen (record w1 { memory = shrunk }) (record w1 { memory = shrunk }) before y new_end []
    shrunk-IsOpen =
        let g = IsGapped-memory o.gapped shrunk shrunk-apart in
        let small = o.gapped.small in
        let within = o.gapped.within in
        let bottom = Tiles-le w.memory w.heap.start_address before y o.gapped.below in
        rw heap (record {
          gapped = record {
            filled = omega (arith, bottom, fits);
            within = omega (arith, le, within);
            small = small;
            below = g.below;
            gap = omega (arith, fits);
            above = refl;
            index = g.index;
          };
          block =
              resized-IsBlock w1.memory y (new_end - y) (omega (arith, fits))
                (omega (arith, fits, le, within, small)) (omega (arith, le, within, small))
                (load32-Agree {lo = y} {hi = new_end} y (λ (x : ℕ) lo hi. kept x (inl hi))
                    (omega arith) (omega (arith, fits))
                  ∙ o.block.magic)
                (kept (y + 4) (inl (omega (arith, fits))) ∙ o.block.hole);
          space = o.space;
          apart = λ x h. refl;
          bounds = (refl, refl);
          pages = refl;
        })

  -- The hole keeps what `contract` leaves of it.
  abbrev TailHole : Bool × World P → Type 0
  TailHole r =
      (r.0 ≡ true)
      × IsOpen r.1 r.1 before y new_end []
      × ((x : ℕ) → IsApart y w.heap.end_address x → r.1.memory x ≡ w.memory x)
      × (r.1.heap.end_address ≡ new_end)

  release_tail-TailHole :
      y + 20 ≤ new_end
      → ArePresent IsMapped w.pages new_end w.heap.end_address
      → Returns TailHole (release_tail pager y (w.heap.end_address - 8) w)
  unfolding release_tail
  release_tail-TailHole fits there =
      let bottom = Tiles-le w.memory w.heap.start_address before y o.gapped.below in
      let big = o.block.big in
      let smaller : y - w.heap.start_address < w.heap.end_address - w.heap.start_address =
        omega (arith, bottom, big) in
      let bounded =
        kept_size-le (y - w.heap.start_address) (w.heap.end_address - w.heap.start_address) smaller
          paged.whole paged.least in
      let le : new_end ≤ w.heap.end_address = omega (arith, bounded, o.gapped.filled) in
      let at_end : (w.heap.end_address - 8 + 8 == w.heap.end_address) ≡ true = ground arith in
      rw at_end (
        Returns->>=
          (contract-Unmapped unmaps w (y - w.heap.start_address) smaller bounded o.gapped.filled
            (omega (arith, paged.least))
            (omega (arith, paged.aligned, paged.whole, o.gapped.filled)) there)
          λ (new_length, w1) (e, heap, kept).
            (let size : size_at w1.memory y ≡ w.heap.end_address - y =
                load32-Agree {lo = y} {hi = new_end} (y + 8) (λ (x : ℕ) lo hi. kept x (inl hi))
                  (omega arith) (omega (arith, fits))
                ∙ o.block.size in
              let released : sub32 (w.heap.end_address - w.heap.start_address)
                    (kept_size (y - w.heap.start_address))
                  ≡ w.heap.end_address - new_end =
                omega (arith, le, bounded, bottom, fits, o.gapped.within, o.gapped.small) in
              let rest : sub32 (w.heap.end_address - y) (w.heap.end_address - new_end)
                  ≡ new_end - y =
                omega (arith, le, fits, o.gapped.within, o.gapped.small) in
              let stored : size_at (store32 w1.memory (y + 8) (new_end - y)) y ≡ new_end - y =
                load32-store32_self w1.memory (y + 8) (new_end - y)
                  (omega (arith, le, o.gapped.within, o.gapped.small)) in
              let more : ltb (w.heap.end_address - new_end) (w.heap.end_address - y) ≡ true =
                lt→ltb _ _ (omega (arith, le, bounded, bottom, fits)) in
              rw (e, released, size, rest, stored, more)
                (returned _ (
                  refl,
                  shrunk-IsOpen w1 heap kept le fits,
                  shrunk-apart w1 heap kept le fits,
                  ap (λ (h : Heap). h.end_address) heap,
                ))))

  -- From `release_tail` on.
  free_tail-Returns :
      y + 20 ≤ new_end
      → ArePresent IsMapped w.pages new_end w.heap.end_address
      → Returns
          (λ (w' : World P).
            IsHeap w' (before ++ ((new_end - y, true) ∷ []))
            × (w'.heap.end_address ≡ new_end)
            × ((x : ℕ) → x < y → w'.memory x ≡ w.memory x))
          (do
            (do_add, w) ← release_tail pager y (w.heap.end_address - 8) w
            w ← insert_hole do_add y w
            heap_validate w
            ok w)
  free_tail-Returns fits there =
      Returns->>= (release_tail-TailHole fits there) λ (do_add, w2) (e, tail, kept, end). rw e (
        Returns-map (insert_hole-IsHeap tail) λ w3 (heap, same, end'). (
          rw (append-nil (before ++ ((new_end - y, true) ∷ []))) at heap,
          end' ∙ end,
          λ x h. ap (λ (m : Memory). m x) same ∙ kept x (inl h),
        ))

module _ {P : Type 0} {w : World P} (before : Blocks) (s : ℕ) (after : Blocks)
    (v : IsHeap w (before ++ ((s, false) ∷ after))) where
  -- Where the merged hole starts, and where the arena ends when it was cut to whole pages.
  abbrev pub hole_start : ℕ
  hole_start = header before s after v - left_size before

  abbrev pub kept_end : ℕ
  kept_end = w.heap.start_address + kept_size (hole_start - w.heap.start_address)

  -- For an allocated block of a well-formed heap whose index has room for one more hole, with an
  -- arena of whole pages from a page's start on that is not below the minimum, where the block
  -- and the hole behind it reach the end of the arena, what contract leaves of the merged hole is
  -- 20 bytes or more, and the pages above it are mapped, a mapped page being one that can be
  -- given back and stays so while others are: free returns, the arena ends where contract says,
  -- the block and the holes next to it are one hole up to there, all other blocks are as before,
  -- the heap is well formed, and memory below that hole is as it was.
  pub free-shrinks :
      (pager : Pager P) (IsMapped : ℕ → P → Type 0)
      → Unmaps pager IsMapped
      → ArePresent IsMapped w.pages kept_end w.heap.end_address
      → w.heap.index.size < w.heap.index.max_size
      → right_rest after ≡ []
      → IsPaged w
      → hole_start + 20 ≤ kept_end
      → Returns
          (λ (w' : World P).
            IsHeap w' (left_rest before ++ ((kept_end - hole_start, true) ∷ []))
            × (w'.heap.end_address ≡ kept_end)
            × ((x : ℕ) → x < hole_start → w'.memory x ≡ w.memory x))
          (free pager (header before s after v + header_size) w)
  free-shrinks pager IsMapped unmaps there space last paged fits =
      free->>= before s after v pager space λ w1 o.
        (let at_end : header before s after v + s + right_size after ≡ w1.heap.end_address =
            rw last at o.gapped.above in
          let open_end = rw (last, at_end) at o in
          let (start, end) = o.bounds in
          let paged1 : IsPaged w1 = record {
            aligned = rw start paged.aligned;
            whole = rw (start, end) paged.whole;
            least = rw (start, end) paged.least;
          } in
          let enough =
            subst (λ st. hole_start + 20 ≤ st + kept_size (hole_start - st)) (sym start) fits in
          let there1 : ArePresent IsMapped w1.pages
              (w1.heap.start_address + kept_size (hole_start - w1.heap.start_address))
              w1.heap.end_address =
            rw (o.pages, start, end) there in
          rw at_end (
            Returns-map (free_tail-Returns unmaps open_end paged1 enough there1)
              λ w' (heap, end', same).
                (rw start at heap, rw start at end', λ x h. same x h ∙ o.apart x (inl h))))
