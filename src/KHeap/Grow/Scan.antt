-- ===== src/KHeap/Grow/Scan.antt =====
-- `alloc` of src/kheap.c: the scan for the last hole, and the tags of a hole that grows.
use my_own_os.Prelude.{
  ℕ, zero, suc, ◌+◌, ◌-◌, ◌≤◌, ◌<◌, ◌≡◌, refl, ◌∙◌, inl, inr, true, Option, none, some, List, [],
  ◌∷◌, arith, ltb,
}
use my_own_os.Prelude.Outcome.{Returns, returned, Returns-if}
use my_own_os.Words.{u32_mod}
use my_own_os.Words.Memory.{
  Memory, store32, load32, store32-apart, load32-store32_apart, load32-store32_self,
}
use my_own_os.OrderedArray.{OrderedArray}
use my_own_os.KHeap.{heap_magic}
use my_own_os.KHeap.Blocks.{IsBlock, Blocks, Tiles, Tiles-le}
use my_own_os.KHeap.Index.{IsIndex, entry, lookup-entry}
use my_own_os.KHeap.Alloc.{last_hole}

-- The tags of a hole that grows, written in the order of `alloc`.
pub grown-IsBlock :
    (m : Memory) (a s : ℕ)
    → 20 ≤ s
    → a < u32_mod
    → s < u32_mod
    → load32 m a ≡ heap_magic
    → m (a + 4) ≡ 1
    → IsBlock
        (store32 (store32 (store32 m (a + 8) s) (a + s - 8 + 4) a) (a + s - 8) heap_magic)
        a
        s
        true
grown-IsBlock m a s big ha hs magic hole =
    let m1 = store32 m (a + 8) s in
    let m2 = store32 m1 (a + s - 8 + 4) a in
    record {
      big = big;
      magic =
          load32-store32_apart m2 (a + s - 8) heap_magic a (inl (omega arith))
          ∙ (load32-store32_apart m1 (a + s - 8 + 4) a a (inl (omega arith))
              ∙ (load32-store32_apart m (a + 8) s a (inl (omega arith)) ∙ magic));
      hole =
          store32-apart m2 (a + s - 8) heap_magic (a + 4) (inl (omega arith))
          ∙ (store32-apart m1 (a + s - 8 + 4) a (a + 4) (inl (omega arith))
              ∙ (store32-apart m (a + 8) s (a + 4) (inl (omega arith)) ∙ hole));
      size =
          load32-store32_apart m2 (a + s - 8) heap_magic (a + 8) (inl (omega arith))
          ∙ (load32-store32_apart m1 (a + s - 8 + 4) a (a + 8) (inl (omega arith))
              ∙ load32-store32_self m (a + 8) s hs);
      foot_magic = load32-store32_self m2 (a + s - 8) heap_magic (omega arith);
      foot_header =
          load32-store32_apart m2 (a + s - 8) heap_magic (a + s - 8 + 4) (inr (omega arith))
          ∙ load32-store32_self m1 (a + s - 8 + 4) a ha;
    }

pub no_blocks : (m : Memory) (a : ℕ) (bs : Blocks) → Tiles m a bs a → bs ≡ []
no_blocks m a [] t = refl
no_blocks m a (b ∷ bs) t = absurd (omega (arith, t.0.big, Tiles-le m (a + b.0) bs a t.1))

-- An index that the scan may answer with.
abbrev pub IsEntry : OrderedArray Memory ℕ → Option ℕ → Type 0
IsEntry index none = Unit {0}
IsEntry index (some i) = i < index.size

module _ {m : Memory} {index : OrderedArray Memory ℕ} {headers : List ℕ}
    (v : IsIndex m index headers) where
  pub last_hole-IsEntry :
      (k i : ℕ) (best : Option ℕ) (value : ℕ)
      → i + k ≡ index.size
      → IsEntry index best
      → Returns (IsEntry index) (last_hole index k i best value)
  unfolding last_hole
  last_hole-IsEntry zero i best value h b = returned best b
  last_hole-IsEntry (suc k) i best value h b = rw (lookup-entry v i (omega arith)) (
      Returns-if (ltb value (entry v i))
        (λ above. last_hole-IsEntry k (i + 1) (some i) (entry v i) (omega arith) (omega arith))
        (λ below. last_hole-IsEntry k (i + 1) best value (omega arith) b))
