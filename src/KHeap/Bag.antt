-- ===== src/KHeap/Bag.antt =====
-- Lists of headers as bags: how often each address stands in them.
use my_own_os.Prelude.{
  ℕ, zero, suc, ◌+◌, ◌≤◌, ◌<◌, ◌≡◌, refl, ap, inl, inr, Bool, true, false, List, [], ◌∷◌, ◌++◌,
  arith, ◌==◌, if◌then◌else◌, Bool-cases, length, get_or, take, drop,
}
use my_own_os.Words.Memory.{Memory}
use my_own_os.OrderedArray.Sorted.{insert_sorted, NoneBelow, IsSorted}
use my_own_os.KHeap.{size_at, header_less_than}
use my_own_os.KHeap.Blocks.{IsBlock, Blocks, Tiles, Tiles-le, holes}

abbrev pub count : ℕ → List ℕ → ℕ
count x [] = 0
count x (y ∷ ys) = (if y == x then 1 else 0) + count x ys

-- Two lists with the same entries, in any order.
abbrev pub SameBag : List ℕ → List ℕ → Type 0
SameBag xs ys = ((x : ℕ) → count x xs ≡ count x ys) × (length xs ≡ length ys)

pub count-append : (x : ℕ) (xs ys : List ℕ) → count x (xs ++ ys) ≡ count x xs + count x ys
count-append x [] ys = omega arith
count-append x (y ∷ xs) ys = omega (arith, count-append x xs ys)

pub count-insert_sorted :
    (lt : ℕ → ℕ → Bool) (x item : ℕ) (xs : List ℕ)
    → count x (insert_sorted lt item xs) ≡ count x (item ∷ xs)
unfolding insert_sorted
count-insert_sorted lt x item [] = refl
count-insert_sorted lt x item (y ∷ ys) = elim (Bool-cases (lt y item)) [
  | inl below ↦ rw below (omega (arith, count-insert_sorted lt x item ys))
  | inr stop ↦ rw stop refl
]

pub length-insert_sorted :
    (lt : ℕ → ℕ → Bool) (item : ℕ) (xs : List ℕ)
    → length (insert_sorted lt item xs) ≡ suc (length xs)
unfolding insert_sorted
length-insert_sorted lt item [] = refl
length-insert_sorted lt item (y ∷ ys) = elim (Bool-cases (lt y item)) [
  | inl below ↦ rw below (ap suc (length-insert_sorted lt item ys))
  | inr stop ↦ rw stop refl
]

-- Erasing the entry at `i`.
pub count_erase :
    (x : ℕ) (xs : List ℕ) (i : ℕ)
    → i < length xs
    → count x xs ≡ count x (get_or xs i 0 ∷ (take i xs ++ drop (suc i) xs))
count_erase x [] i h = absurd (omega arith)
count_erase x (y ∷ ys) zero h = refl
count_erase x (y ∷ ys) (suc i) h = omega (arith, count_erase x ys i (omega arith))

pub length_erase :
    (xs : List ℕ) (i : ℕ) → i < length xs → length xs ≡ suc (length (take i xs ++ drop (suc i) xs))
length_erase [] i h = absurd (omega arith)
length_erase (y ∷ ys) zero h = refl
length_erase (y ∷ ys) (suc i) h = ap suc (length_erase ys i (omega arith))

-- An entry of a prefix is counted.
pub count-get_or :
    (xs : List ℕ) (n i : ℕ) → i < n → n ≤ length xs → 0 < count (get_or xs i 0) (take n xs)
count-get_or [] n i h l = absurd (omega arith)
count-get_or (x ∷ xs) zero i h l = absurd (omega arith)
count-get_or (x ∷ xs) (suc n) zero h l =
    let e : (x == x) ≡ true = ground arith in rw e (omega arith)
count-get_or (x ∷ xs) (suc n) (suc i) h l =
    omega (arith, count-get_or xs n i (omega arith) (omega arith))

-- Sizes that do not change keep the order.
NoneBelow-keeps :
    (m m' : Memory) (x : ℕ) (ys : List ℕ)
    → size_at m' x ≡ size_at m x
    → ((y : ℕ) → 0 < count y ys → size_at m' y ≡ size_at m y)
    → NoneBelow (header_less_than m) x ys
    → NoneBelow (header_less_than m') x ys
NoneBelow-keeps m m' x [] e same n = tt
NoneBelow-keeps m m' x (y ∷ ys) e same n =
    let here : (y == y) ≡ true = ground arith in
    (
      rw (e, same y (rw here (omega arith))) n.0,
      NoneBelow-keeps m m' x ys e (λ z h. same z (omega (arith, h))) n.1,
    )

pub IsSorted-keeps :
    (m m' : Memory) (xs : List ℕ)
    → ((x : ℕ) → 0 < count x xs → size_at m' x ≡ size_at m x)
    → IsSorted (header_less_than m) xs
    → IsSorted (header_less_than m') xs
IsSorted-keeps m m' [] same s = tt
IsSorted-keeps m m' (x ∷ xs) same s =
    let here : (x == x) ≡ true = ground arith in
    (
      NoneBelow-keeps m m' x xs (same x (rw here (omega arith))) (λ z h. same z (omega (arith, h)))
          s.0,
      IsSorted-keeps m m' xs (λ z h. same z (omega (arith, h))) s.1,
    )

-- Where a hole lies among the blocks.
pub record Located (m : Memory) (a x e : ℕ) (bs : Blocks) : Type 0 where
  pub before : Blocks
  pub size : ℕ
  pub after : Blocks
  pub split : bs ≡ before ++ ((size, true) ∷ after)
  pub tiles_before : Tiles m a before x
  pub block : IsBlock m x size true
  pub tiles_after : Tiles m (x + size) after e

module _ (m : Memory) where
  pub count-holes_below :
      (a : ℕ) (bs : Blocks) (e x : ℕ) → Tiles m a bs e → x < a → count x (holes a bs) ≡ 0
  count-holes_below a [] e x t h = refl
  count-holes_below a ((s, true) ∷ bs) e x t h =
      ground (arith, count-holes_below (a + s) bs e x t.1 (omega arith))
  count-holes_below a ((s, false) ∷ bs) e x t h = count-holes_below (a + s) bs e x t.1 (omega arith)

  pub count-holes_above :
      (a : ℕ) (bs : Blocks) (e x : ℕ) → Tiles m a bs e → e ≤ x → count x (holes a bs) ≡ 0
  count-holes_above a [] e x t h = refl
  count-holes_above a ((s, true) ∷ bs) e x t h =
      ground (arith, t.0.big, Tiles-le m (a + s) bs e t.1, count-holes_above (a + s) bs e x t.1 h)
  count-holes_above a ((s, false) ∷ bs) e x t h = count-holes_above (a + s) bs e x t.1 h

  pub count-holes-le : (a : ℕ) (bs : Blocks) (e x : ℕ) → Tiles m a bs e → count x (holes a bs) ≤ 1
  count-holes-le a [] e x t = omega arith
  count-holes-le a ((s, true) ∷ bs) e x t = elim (Bool-cases (a == x)) [
    | inl here ↦
        ground (arith, here, t.0.big, count-holes_below (a + s) bs e a t.1 (omega (arith, t.0.big)))
    | inr other ↦ rw other (omega (arith, count-holes-le (a + s) bs e x t.1))
  ]
  count-holes-le a ((s, false) ∷ bs) e x t = count-holes-le (a + s) bs e x t.1

  pub locate :
      (a : ℕ) (bs : Blocks) (e x : ℕ)
      → Tiles m a bs e
      → 0 < count x (holes a bs)
      → Located m a x e bs
  locate a [] e x t h = absurd (omega arith)
  locate a ((s, true) ∷ bs) e x t h = elim (Bool-cases (a == x)) [
    | inl here ↦
        let same : a ≡ x = ground arith in
        record {
          before = [];
          size = s;
          after = bs;
          split = refl;
          tiles_before = same;
          block = rw same at t.0;
          tiles_after = rw same at t.1;
        }
    | inr other ↦
        let deeper = locate (a + s) bs e x t.1 (let h' = rw other at h in omega (arith, h')) in
        record {
          before = (s, true) ∷ deeper.before;
          size = deeper.size;
          after = deeper.after;
          split = ap (λ (z : Blocks). (s, true) ∷ z) deeper.split;
          tiles_before = (t.0, deeper.tiles_before);
          block = deeper.block;
          tiles_after = deeper.tiles_after;
        }
  ]
  locate a ((s, false) ∷ bs) e x t h =
      let deeper = locate (a + s) bs e x t.1 h in
      record {
        before = (s, false) ∷ deeper.before;
        size = deeper.size;
        after = deeper.after;
        split = ap (λ (z : Blocks). (s, false) ∷ z) deeper.split;
        tiles_before = (t.0, deeper.tiles_before);
        block = deeper.block;
        tiles_after = deeper.tiles_after;
      }
