-- ===== src/KHeap/Index.antt =====
-- The index of the heap of src/kheap.c, a sorted array of the headers of holes, and the two operations
-- of src/ordered_array.c on it.
use my_own_os.Prelude.{
  ℕ, suc, ◌+◌, ◌<◌, ◌≡◌, sym, ◌∙◌, ap, List, ◌∷◌, arith, length, get_or, length-take,
}
use my_own_os.Prelude.Outcome.{ok, Returns, ok-Returns}
use my_own_os.Words.Memory.{Memory, Agree}
use my_own_os.OrderedArray.{
  OrderedArray, lookup_ordered_array, insert_ordered_array, remove_ordered_array,
}
use my_own_os.OrderedArray.Sorted.{
  IsSorted, IsStrictWeak, contents, insert_sorted-IsSorted, erase-IsSorted,
}
use my_own_os.OrderedArray.Sorted as Sorted
use my_own_os.OrderedArray.Insert.{insert_ordered_array-refines, insert_ordered_array-size}
use my_own_os.OrderedArray.Remove.{
  remove_ordered_array-refines, remove_ordered_array-max_size, get_or-take,
}
use my_own_os.OrderedArray.Lookup.{lookup_ordered_array-ok, take-length}
use my_own_os.KHeap.{size_at, header_less_than}
use my_own_os.KHeap.Blocks.{IsBlock-Agree, Blocks, Tiles, Tiles-le, holes}
use my_own_os.KHeap.Bag.{
  count, count-get_or, SameBag, count-insert_sorted, length-insert_sorted, count_erase,
  length_erase, IsSorted-keeps, locate,
}

-- The index holds these headers, each as often as the list, the smallest hole first.
pub record IsIndex (m : Memory) (index : OrderedArray Memory ℕ) (headers : List ℕ) : Type 0 where
  pub valid : Sorted.IsValid header_less_than index
  pub bag : SameBag (contents index) headers
  pub sorted : IsSorted (header_less_than m) (contents index)

pub header_less_than-IsStrictWeak : (m : Memory) → IsStrictWeak (header_less_than m)
header_less_than-IsStrictWeak m = record {
  asym = λ a b h. ground arith;
  negatively_transitive = λ a b c h k. ground arith;
}

module _ {m : Memory} {index : OrderedArray Memory ℕ} {headers : List ℕ}
    (v : IsIndex m index headers) where
  pub length-contents : length (contents index) ≡ index.size
  length-contents =
      let (xs, e, l) = v.valid.backing in
      rw e (length-take index.size xs ∙ omega (arith, v.valid.fits))

  pub index-size : index.size ≡ length headers
  index-size = sym length-contents ∙ v.bag.1

  pub IsIndex-keeps :
      (m' : Memory)
      → ((x : ℕ) → 0 < count x headers → size_at m' x ≡ size_at m x)
      → IsIndex m' index headers
  IsIndex-keeps m' same = record {
    valid = v.valid;
    bag = v.bag;
    sorted =
        IsSorted-keeps m m' (contents index) (λ x h. same x (omega (arith, v.bag.0 x, h))) v.sorted;
  }

  pub IsIndex-SameBag : (headers' : List ℕ) → SameBag headers headers' → IsIndex m index headers'
  IsIndex-SameBag headers' same = record {
    valid = v.valid;
    bag = (λ x. v.bag.0 x ∙ same.0 x, v.bag.1 ∙ same.1);
    sorted = v.sorted;
  }

  pub insert-IsIndex :
      (x : ℕ)
      → index.size < index.max_size
      → Returns
          (λ b.
            IsIndex m b (x ∷ headers) × (b.size ≡ index.size + 1) × (b.max_size ≡ index.max_size))
          (insert_ordered_array 0 m x index)
  insert-IsIndex x room =
      let (b, e, c, v') = insert_ordered_array-refines 0 header_less_than m x v.valid room in
      let (s, t) = insert_ordered_array-size 0 header_less_than m x v.valid b e in
      ok-Returns b e (
        record {
          valid = v';
          bag = (
            λ y.
                ap (count y) c
                ∙ (count-insert_sorted (header_less_than m) y x (contents index)
                    ∙ omega (arith, v.bag.0 y)),
            ap length c
                ∙ (length-insert_sorted (header_less_than m) x (contents index)
                    ∙ omega (arith, v.bag.1)),
          );
          sorted = rw c (
              insert_sorted-IsSorted (header_less_than m) (header_less_than-IsStrictWeak m) x
                (contents index) v.sorted);
        },
        s,
        t,
      )

  -- The entry at `i`.
  abbrev pub entry : ℕ → ℕ
  entry i = get_or (contents index) i 0

  pub lookup-entry : (i : ℕ) → i < index.size → lookup_ordered_array 0 i index ≡ ok (entry i)
  lookup-entry i h =
      let (xs, e, l) = v.valid.backing in
      lookup_ordered_array-ok 0 index xs i e h
      ∙ rw e (ap ok (sym (get_or-take 0 xs i index.size h)))

  pub count-entry : (i : ℕ) → i < index.size → 0 < count (entry i) headers
  count-entry i h =
      let inside : i < length (contents index) = omega (arith, length-contents) in
      let all = count-get_or (contents index) (length (contents index)) i inside (omega arith) in
      let listed = rw (take-length (contents index)) at all in
      omega (arith, v.bag.0 (entry i), listed)

  pub remove-IsIndex :
      (i : ℕ) (headers' : List ℕ)
      → i < index.size
      → ((y : ℕ) → count y headers ≡ count y (entry i ∷ headers'))
      → length headers ≡ suc (length headers')
      → Returns
          (λ b. IsIndex m b headers' × (b.size + 1 ≡ index.size) × (b.max_size ≡ index.max_size))
          (remove_ordered_array 0 i index)
  remove-IsIndex i headers' h same total =
      let (b, e, c, s, v') = remove_ordered_array-refines 0 header_less_than i v.valid h in
      let t = remove_ordered_array-max_size 0 header_less_than i v.valid b e in
      let inside : i < length (contents index) = omega (arith, length-contents) in
      ok-Returns b e (
        record {
          valid = v';
          bag = (
            λ y.
                ap (count y) c
                ∙ omega (arith, count_erase y (contents index) i inside, v.bag.0 y, same y),
            ap length c ∙ omega (arith, length_erase (contents index) i inside, v.bag.1, total),
          );
          sorted = rw c (erase-IsSorted (header_less_than m) (contents index) i v.sorted);
        },
        omega (arith, s),
        t,
      )

-- Blocks that are left alone keep the sizes of their holes.
pub size_at-Agree :
    {m m' : Memory} (a : ℕ) (bs : Blocks) (e : ℕ)
    → Tiles m a bs e
    → Agree m m' a e
    → (x : ℕ) → 0 < count x (holes a bs)
    → size_at m' x ≡ size_at m x
size_at-Agree {m} {m'} a bs e t g x h =
    let l = locate m a bs e x t h in
    let lo = Tiles-le m a l.before x l.tiles_before in
    let hi = Tiles-le m (x + l.size) l.after e l.tiles_after in
    let kept =
      IsBlock-Agree l.block (λ (y : ℕ) p q. g y (omega (arith, lo, p)) (omega (arith, hi, q))) in
    kept.size ∙ sym l.block.size
