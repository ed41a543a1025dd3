-- ===== src/KHeap/Blocks.antt =====
-- The blocks of the heap of src/kheap.c: the arena is tiled by blocks with sound tags.
use my_own_os.Prelude.{
  ℕ, ◌+◌, ◌-◌, ◌≤◌, ◌<◌, ◌≡◌, refl, ◌∙◌, ap, inl, inr, Bool, true, false, List, [], ◌∷◌, ◌++◌,
  arith, ◌==◌, if◌then◌else◌, if_true, if_false,
}
use my_own_os.Words.{u32_mod}
use my_own_os.Words.Memory.{
  Memory, store8, load32, store32, Agree, IsApart, store32-apart, load32-Agree,
  load32-store32_apart, load32-store32_self, load32-store8_apart,
}
use my_own_os.KHeap.{heap_magic, write_tags, bit_of}

-- The block of `s` bytes at `a` has both its tags; `h` says whether it is a hole.
pub record IsBlock (m : Memory) (a s : ℕ) (h : Bool) : Type 0 where
  pub big : 20 ≤ s
  pub magic : load32 m a ≡ heap_magic
  pub hole : m (a + 4) ≡ bit_of h
  pub size : load32 m (a + 8) ≡ s
  pub foot_magic : load32 m (a + s - 8) ≡ heap_magic
  pub foot_header : load32 m (a + s - 8 + 4) ≡ a

pub IsBlock-Agree :
    {m m' : Memory} {a s : ℕ} {h : Bool} → IsBlock m a s h → Agree m m' a (a + s) → IsBlock m' a s h
IsBlock-Agree {m} {m'} {a} {s} b g = record {
  big = b.big;
  magic = load32-Agree a g (omega arith) (omega (arith, b.big)) ∙ b.magic;
  hole = g (a + 4) (omega arith) (omega (arith, b.big)) ∙ b.hole;
  size = load32-Agree (a + 8) g (omega arith) (omega (arith, b.big)) ∙ b.size;
  foot_magic =
      load32-Agree (a + s - 8) g (omega (arith, b.big)) (omega (arith, b.big)) ∙ b.foot_magic;
  foot_header =
      load32-Agree (a + s - 8 + 4) g (omega (arith, b.big)) (omega (arith, b.big)) ∙ b.foot_header;
}

module _ (m : Memory) (a s : ℕ) (h : Bool) (big : 20 ≤ s) where
  -- Tags are written within the block.
  pub write_tags-apart : (x : ℕ) → IsApart a (a + s) x → write_tags m a s h x ≡ m x
  unfolding write_tags
  write_tags-apart x (inl below) =
      rw
        (
          store32-apart _ (a + s - 8 + 4) a x (inl (omega arith)),
          store32-apart _ (a + s - 8) heap_magic x (inl (omega arith)),
          store32-apart _ (a + 8) s x (inl (omega arith)),
        )
        (if_false (x == a + 4) (bit_of h) (ground arith)
          ∙ store32-apart m a heap_magic x (inl below))
  write_tags-apart x (inr above) =
      rw
        (
          store32-apart _ (a + s - 8 + 4) a x (inr (omega arith)),
          store32-apart _ (a + s - 8) heap_magic x (inr (omega arith)),
          store32-apart _ (a + 8) s x (inr (omega arith)),
        )
        (if_false (x == a + 4) (bit_of h) (ground arith)
          ∙ store32-apart m a heap_magic x (inr (omega arith)))

  pub write_tags-IsBlock : a < u32_mod → s < u32_mod → IsBlock (write_tags m a s h) a s h
  unfolding write_tags
  write_tags-IsBlock ha hs =
      let m1 = store32 m a heap_magic in
      let m2 = store8 m1 (a + 4) (bit_of h) in
      let m3 = store32 m2 (a + 8) s in
      let m4 = store32 m3 (a + s - 8) heap_magic in
      record {
        big = big;
        magic =
            load32-store32_apart m4 (a + s - 8 + 4) a a (inl (omega arith))
            ∙ (load32-store32_apart m3 (a + s - 8) heap_magic a (inl (omega arith))
                ∙ (load32-store32_apart m2 (a + 8) s a (inl (omega arith))
                    ∙ (load32-store8_apart m1 (a + 4) (bit_of h) a (inl (omega arith))
                        ∙ load32-store32_self m a heap_magic (omega arith))));
        hole =
            store32-apart m4 (a + s - 8 + 4) a (a + 4) (inl (omega arith))
            ∙ (store32-apart m3 (a + s - 8) heap_magic (a + 4) (inl (omega arith))
                ∙ (store32-apart m2 (a + 8) s (a + 4) (inl (omega arith))
                    ∙ if_true (a + 4 == a + 4) (m1 (a + 4)) (ground arith)));
        size =
            load32-store32_apart m4 (a + s - 8 + 4) a (a + 8) (inl (omega arith))
            ∙ (load32-store32_apart m3 (a + s - 8) heap_magic (a + 8) (inl (omega arith))
                ∙ load32-store32_self m2 (a + 8) s hs);
        foot_magic =
            load32-store32_apart m4 (a + s - 8 + 4) a (a + s - 8) (inl (omega arith))
            ∙ load32-store32_self m3 (a + s - 8) heap_magic (omega arith);
        foot_header = load32-store32_self m4 (a + s - 8 + 4) a ha;
      }

-- A block's size and whether it is a hole.
abbrev pub Blocks : Type 0
Blocks = List (ℕ × Bool)

-- The blocks lie one after the other from `a` to `e`.
abbrev pub Tiles : Memory → ℕ → Blocks → ℕ → Type 0
Tiles m a [] e = a ≡ e
Tiles m a (b ∷ bs) e = IsBlock m a b.0 b.1 × Tiles m (a + b.0) bs e

-- The headers of the holes, in the order of their addresses.
abbrev pub holes : ℕ → Blocks → List ℕ
holes a [] = []
holes a (b ∷ bs) = if b.1 then a ∷ holes (a + b.0) bs else holes (a + b.0) bs

module _ (m : Memory) where
  pub Tiles-le : (a : ℕ) (bs : Blocks) (e : ℕ) → Tiles m a bs e → a ≤ e
  Tiles-le a [] e t = omega arith
  Tiles-le a (b ∷ bs) e t = omega (arith, Tiles-le (a + b.0) bs e t.1)

  pub Tiles-append :
      (a : ℕ) (xs ys : Blocks) (p e : ℕ) → Tiles m a xs p → Tiles m p ys e → Tiles m a (xs ++ ys) e
  Tiles-append a [] ys p e t u = rw t u
  Tiles-append a (b ∷ xs) ys p e t u = (t.0, Tiles-append (a + b.0) xs ys p e t.1 u)

  pub holes-append :
      (a : ℕ) (xs ys : Blocks) (p : ℕ)
      → Tiles m a xs p
      → holes a (xs ++ ys) ≡ holes a xs ++ holes p ys
  holes-append a [] ys p t = rw t refl
  holes-append a ((s, true) ∷ xs) ys p t =
      ap (λ (z : List ℕ). a ∷ z) (holes-append (a + s) xs ys p t.1)
  holes-append a ((s, false) ∷ xs) ys p t = holes-append (a + s) xs ys p t.1

pub Tiles-Agree :
    {m m' : Memory} (a : ℕ) (bs : Blocks) (e : ℕ)
    → Tiles m a bs e
    → Agree m m' a e
    → Tiles m' a bs e
Tiles-Agree a [] e t g = t
Tiles-Agree a (b ∷ bs) e t g =
    let le = Tiles-le _ (a + b.0) bs e t.1 in
    (
      IsBlock-Agree t.0 (λ x l u. g x l (omega arith)),
      Tiles-Agree (a + b.0) bs e t.1 (λ x l u. g x (omega arith) u),
    )

-- Where the blocks from `a` on end.
abbrev pub end_of : ℕ → Blocks → ℕ
end_of a [] = a
end_of a (b ∷ bs) = end_of (a + b.0) bs

pub Tiles-split :
    (m : Memory) (a : ℕ) (xs ys : Blocks) (e : ℕ)
    → Tiles m a (xs ++ ys) e
    → Tiles m a xs (end_of a xs) × Tiles m (end_of a xs) ys e
Tiles-split m a [] ys e t = (refl, t)
Tiles-split m a (b ∷ xs) ys e t =
    let (low, high) = Tiles-split m (a + b.0) xs ys e t.1 in ((t.0, low), high)

pub Tiles-end_of : (m : Memory) (a : ℕ) (bs : Blocks) (e : ℕ) → Tiles m a bs e → end_of a bs ≡ e
Tiles-end_of m a [] e t = t
Tiles-end_of m a (b ∷ bs) e t = Tiles-end_of m (a + b.0) bs e t.1

pub append-nil : (xs : Blocks) → xs ++ [] ≡ xs
append-nil [] = refl
append-nil (x ∷ xs) = ap (λ (z : Blocks). x ∷ z) (append-nil xs)

-- A header that stands and a size and footer that are written make a block.
pub resized-IsBlock :
    (m : Memory) (a s : ℕ)
    → 20 ≤ s
    → a < u32_mod
    → s < u32_mod
    → load32 m a ≡ heap_magic
    → m (a + 4) ≡ 1
    → IsBlock
        (store32 (store32 (store32 m (a + 8) s) (a + s - 8) heap_magic) (a + s - 8 + 4) a)
        a
        s
        true
resized-IsBlock m a s big ha hs magic hole =
    let m1 = store32 m (a + 8) s in
    let m2 = store32 m1 (a + s - 8) heap_magic in
    record {
      big = big;
      magic =
          load32-store32_apart m2 (a + s - 8 + 4) a a (inl (omega arith))
          ∙ (load32-store32_apart m1 (a + s - 8) heap_magic a (inl (omega arith))
              ∙ (load32-store32_apart m (a + 8) s a (inl (omega arith)) ∙ magic));
      hole =
          store32-apart m2 (a + s - 8 + 4) a (a + 4) (inl (omega arith))
          ∙ (store32-apart m1 (a + s - 8) heap_magic (a + 4) (inl (omega arith))
              ∙ (store32-apart m (a + 8) s (a + 4) (inl (omega arith)) ∙ hole));
      size =
          load32-store32_apart m2 (a + s - 8 + 4) a (a + 8) (inl (omega arith))
          ∙ (load32-store32_apart m1 (a + s - 8) heap_magic (a + 8) (inl (omega arith))
              ∙ load32-store32_self m (a + 8) s hs);
      foot_magic =
          load32-store32_apart m2 (a + s - 8 + 4) a (a + s - 8) (inl (omega arith))
          ∙ load32-store32_self m1 (a + s - 8) heap_magic (omega arith);
      foot_header = load32-store32_self m2 (a + s - 8 + 4) a ha;
    }
