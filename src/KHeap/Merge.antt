-- ===== src/KHeap/Merge.antt =====
-- `free` of src/kheap.c: the freed block and its free neighbours become one hole, which is not in the
-- index while they merge.
use my_own_os.Prelude.{
  ℕ, ◌+◌, ◌-◌, ◌≤◌, ◌<◌, ◌≡◌, refl, ◌∙◌, ap, inl, inr, Bool, true, false, [], ◌∷◌, ◌++◌, arith,
  if◌then◌else◌,
}
use my_own_os.Words.{u32_mod}
use my_own_os.Words.Memory.{
  Memory, IsApart, store32, store32-apart, load32-store32_apart, load32-store32_self,
}
use my_own_os.KHeap.{World}
use my_own_os.KHeap.Blocks.{IsBlock, Blocks}
use my_own_os.KHeap.Gap.{IsGapped}

-- The blocks below a freed block, without a hole at their end, and the size of that hole.
abbrev pub left_rest : Blocks → Blocks
left_rest [] = []
left_rest (b ∷ []) = if b.1 then [] else b ∷ []
left_rest (b ∷ c ∷ bs) = b ∷ left_rest (c ∷ bs)

abbrev pub left_size : Blocks → ℕ
left_size [] = 0
left_size (b ∷ []) = if b.1 then b.0 else 0
left_size (b ∷ c ∷ bs) = left_size (c ∷ bs)

-- The same above it.
abbrev pub right_rest : Blocks → Blocks
right_rest [] = []
right_rest (b ∷ bs) = if b.1 then bs else b ∷ bs

abbrev pub right_size : Blocks → ℕ
right_size [] = 0
right_size (b ∷ bs) = if b.1 then b.0 else 0

-- The last block.
pub data Last (bs : Blocks) : Type 0 where
  is_empty : bs ≡ [] → Last bs
  ends : (init : Blocks) (t : ℕ) (h : Bool) → bs ≡ init ++ ((t, h) ∷ []) → Last bs

pub last_of : (bs : Blocks) → Last bs
last_of [] = is_empty refl
last_of (b ∷ bs) = elim (last_of bs) [
  | is_empty e ↦ ends [] b.0 b.1 (rw e refl)
  | ends init t h e ↦ ends (b ∷ init) t h (ap (λ (z : Blocks). b ∷ z) e)
]

pub left-append :
    (init : Blocks) (t : ℕ) (h : Bool)
    → (left_rest (init ++ ((t, h) ∷ [])) ≡ (if h then init else init ++ ((t, h) ∷ [])))
      × (left_size (init ++ ((t, h) ∷ [])) ≡ (if h then t else 0))
left-append [] t true = (refl, refl)
left-append [] t false = (refl, refl)
left-append (b ∷ []) t true = (refl, refl)
left-append (b ∷ []) t false = (refl, refl)
left-append (b ∷ c ∷ init) t true =
    let (e, f) = left-append (c ∷ init) t true in (ap (λ (z : Blocks). b ∷ z) e, f)
left-append (b ∷ c ∷ init) t false =
    let (e, f) = left-append (c ∷ init) t false in (ap (λ (z : Blocks). b ∷ z) e, f)

-- The gap from `y` to `z` carries the tags of one hole; `w0` is the state before `free`.
pub record IsOpen {P : Type 0} (w0 w : World P) (before : Blocks) (y z : ℕ) (after : Blocks)
    : Type 0 where
  pub gapped : IsGapped w before y z after
  pub block : IsBlock w.memory y (z - y) true
  pub space : w.heap.index.size < w.heap.index.max_size
  pub apart : (x : ℕ) → IsApart y z x → w.memory x ≡ w0.memory x
  pub bounds :
      (w.heap.start_address ≡ w0.heap.start_address) × (w.heap.end_address ≡ w0.heap.end_address)
  pub pages : w.pages ≡ w0.pages

-- The memory of a merge: the left part's size and the right part's footer change.
module _ (m : Memory) (a y z : ℕ) (left : IsBlock m a (y - a) true)
    (right : IsBlock m y (z - y) true) (small : z < u32_mod) where
  below-right : a + 20 ≤ y × (y + 20 ≤ z)
  below-right = (omega (arith, left.big), omega (arith, right.big))

  pub joined_left-IsBlock :
      IsBlock (store32 (store32 m (z - 8 + 4) a) (a + 8) (z - a)) a (z - a) true
  joined_left-IsBlock =
      let m1 = store32 m (z - 8 + 4) a in
      let order = below-right in
      let foot : a + (z - a) - 8 ≡ z - 8 = omega (arith, order) in
      let foot' : y + (z - y) - 8 ≡ z - 8 = omega (arith, order) in
      record {
        big = omega (arith, order);
        magic =
            load32-store32_apart m1 (a + 8) (z - a) a (inl (omega arith))
            ∙ (load32-store32_apart m (z - 8 + 4) a a (inl (omega (arith, order))) ∙ left.magic);
        hole =
            store32-apart m1 (a + 8) (z - a) (a + 4) (inl (omega arith))
            ∙ (store32-apart m (z - 8 + 4) a (a + 4) (inl (omega (arith, order))) ∙ left.hole);
        size = load32-store32_self m1 (a + 8) (z - a) (omega arith);
        foot_magic = rw foot (
            load32-store32_apart m1 (a + 8) (z - a) (z - 8) (inr (omega (arith, order)))
            ∙ (load32-store32_apart m (z - 8 + 4) a (z - 8) (inl (omega arith))
                ∙ rw foot' at right.foot_magic));
        foot_header = rw foot (
            load32-store32_apart m1 (a + 8) (z - a) (z - 8 + 4) (inr (omega (arith, order)))
            ∙ load32-store32_self m (z - 8 + 4) a (omega (arith, order)));
      }

  pub joined_right-IsBlock :
      IsBlock (store32 (store32 m (a + 8) (z - a)) (z - 8 + 4) a) a (z - a) true
  joined_right-IsBlock =
      let m1 = store32 m (a + 8) (z - a) in
      let order = below-right in
      let foot : a + (z - a) - 8 ≡ z - 8 = omega (arith, order) in
      let foot' : y + (z - y) - 8 ≡ z - 8 = omega (arith, order) in
      record {
        big = omega (arith, order);
        magic =
            load32-store32_apart m1 (z - 8 + 4) a a (inl (omega (arith, order)))
            ∙ (load32-store32_apart m (a + 8) (z - a) a (inl (omega arith)) ∙ left.magic);
        hole =
            store32-apart m1 (z - 8 + 4) a (a + 4) (inl (omega (arith, order)))
            ∙ (store32-apart m (a + 8) (z - a) (a + 4) (inl (omega arith)) ∙ left.hole);
        size =
            load32-store32_apart m1 (z - 8 + 4) a (a + 8) (inl (omega (arith, order)))
            ∙ load32-store32_self m (a + 8) (z - a) (omega arith);
        foot_magic = rw foot (
            load32-store32_apart m1 (z - 8 + 4) a (z - 8) (inl (omega arith))
            ∙ (load32-store32_apart m (a + 8) (z - a) (z - 8) (inr (omega (arith, order)))
                ∙ rw foot' at right.foot_magic));
        foot_header = rw foot (load32-store32_self m1 (z - 8 + 4) a (omega (arith, order)));
      }
