-- ===== src/KHeap/Neighbours/Right.antt =====
-- `free` of src/kheap.c: the merge with the block above.
use my_own_os.Prelude.{
  ℕ, ◌+◌, ◌-◌, ◌<◌, ◌≡◌, refl, ◌∙◌, inr, true, false, [], ◌∷◌, arith, ltb, lt→ltb, ◌==◌,
}
use my_own_os.Prelude.Outcome.{Returns, returned, Returns->>=}
use my_own_os.Words.{u32_mod, add32}
use my_own_os.Words.Memory.{store32, stores-apart, load32-store32_apart}
use my_own_os.KHeap.{heap_magic, magic_at, size_at, World}
use my_own_os.KHeap.Blocks.{Blocks, Tiles-le}
use my_own_os.KHeap.Free.{merge_right}
use my_own_os.KHeap.Merge.{right_rest, right_size, IsOpen, joined_right-IsBlock}
use my_own_os.KHeap.Neighbours.{unpublish-right, IsOpen-join, add32-exact, and_no}

-- The state after a merge to the right, and the footer of the hole.
abbrev pub Closed : {P : Type 0} → World P → Blocks → ℕ → ℕ → Blocks → ℕ × World P → Type 0
Closed w0 before y z after r =
    IsOpen w0 r.1 before y (z + right_size after) (right_rest after)
    × (r.0 ≡ z + right_size after - 8)

module _ {P : Type 0} {w0 w : World P} {before : Blocks} {y z : ℕ} where
  merge_right-end :
      IsOpen w0 w before y z [] → Returns (Closed w0 before y z []) (merge_right y (z - 8) w)
  unfolding merge_right
  merge_right-end o =
      let same : z + 0 ≡ z = omega arith in
      let foot : z - 8 + 8 ≡ z = omega (arith, o.block.big) in
      let past : ltb z w.heap.end_address ≡ false = let here = o.gapped.above in ground arith in
      rw (foot, past) (returned (z - 8, w) (rw same o, omega arith))

  merge_right-block :
      (t : ℕ) (rest : Blocks)
      → IsOpen w0 w before y z ((t, false) ∷ rest)
      → Returns (Closed w0 before y z ((t, false) ∷ rest)) (merge_right y (z - 8) w)
  unfolding merge_right
  merge_right-block t rest o =
      let same : z + 0 ≡ z = omega arith in
      let foot : z - 8 + 8 ≡ z = omega (arith, o.block.big) in
      rw
        (
          foot,
          o.gapped.above.0.hole,
          and_no (ltb z w.heap.end_address) (magic_at w.memory z == heap_magic),
        )
        (returned (z - 8, w) (rw same o, omega arith))

  merge_right-hole :
      (t : ℕ) (rest : Blocks)
      → IsOpen w0 w before y z ((t, true) ∷ rest)
      → Returns (Closed w0 before y z ((t, true) ∷ rest)) (merge_right y (z - 8) w)
  unfolding merge_right
  merge_right-hole t rest o =
      let right = o.gapped.above.0 in
      let top = Tiles-le w.memory (z + t) rest w.heap.end_address o.gapped.above.1 in
      let small : z + t < u32_mod = omega (arith, top, o.gapped.within, o.gapped.small) in
      let foot : z - 8 + 8 ≡ z = omega (arith, o.block.big) in
      let inside : ltb z w.heap.end_address ≡ true = lt→ltb _ _ (omega (arith, top, right.big)) in
      let sum : add32 (size_at w.memory y) (size_at w.memory z) ≡ z + t - y =
        rw (o.block.size, right.size)
          (add32-exact (z - y) t (z + t - y) (omega (arith, o.block.big)) (omega (arith, small))) in
      let size : size_at (store32 w.memory (y + 8) (z + t - y)) z ≡ t =
        load32-store32_apart w.memory (y + 8) (z + t - y) (z + 8) (inr (omega (arith, o.block.big)))
        ∙ right.size in
      let m' = store32 (store32 w.memory (y + 8) (z + t - y)) (z + t - 8 + 4) y in
      let length : t ≡ z + t - z = omega arith in
      rw (foot, inside, right.magic, right.hole, sum, size)
        (Returns->>= (unpublish-right m' t rest o.gapped) λ w1 (index, e, g, fewer, max_size).
          rw e (
            returned _ (
              IsOpen-join o before y (z + t) rest index m' (omega arith) (omega arith) g fewer
                  max_size
                  (stores-apart w.memory y (z + t) (y + 8) (z + t - y) (z + t - 8 + 4) y
                    (omega arith) (omega (arith, o.block.big, right.big))
                    (omega (arith, o.block.big, right.big)) (omega (arith, right.big)))
                  (joined_right-IsBlock w.memory y z (z + t) o.block (rw length at right) small),
              refl,
            )))

  pub merge_right-Closed :
      (after : Blocks)
      → IsOpen w0 w before y z after
      → Returns (Closed w0 before y z after) (merge_right y (z - 8) w)
  merge_right-Closed [] o = merge_right-end o
  merge_right-Closed ((t, true) ∷ rest) o = merge_right-hole t rest o
  merge_right-Closed ((t, false) ∷ rest) o = merge_right-block t rest o
