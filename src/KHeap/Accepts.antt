-- ===== src/KHeap/Accepts.antt =====
-- `heap_validate` of src/kheap.c accepts every well-formed heap.
use my_own_os.Prelude.{
  ℕ, zero, suc, ◌+◌, ◌-◌, ◌≤◌, ◌<◌, ◌≡◌, refl, sym, ◌∙◌, ap, Bool, true, false, some, List, [], ◌∷◌,
  arith, ltb, leb, le→leb, lt→ltb, ◌==◌, ==_refl, if◌then◌else◌, length, get_or, take, drop,
  length-take,
}
use my_own_os.Prelude.Outcome.{ok}
use my_own_os.Words.{u32_mod}
use my_own_os.Words.Memory.{Memory}
use my_own_os.OrderedArray.{OrderedArray, lookup_ordered_array}
use my_own_os.OrderedArray.Sorted.{IsSorted, contents}
use my_own_os.OrderedArray.Sorted as Sorted
use my_own_os.OrderedArray.Lookup.{lookup_ordered_array-ok, drop-cons, IsSorted-neighbours}
use my_own_os.KHeap.{minimum_hole_size, size_at, header_less_than, World}
use my_own_os.KHeap.Validate.{
  matches, count_hole, check_tags, check_blocks, check_order, check_index, heap_validate,
}
use my_own_os.KHeap.Blocks.{IsBlock, Blocks, Tiles, Tiles-le, holes}
use my_own_os.KHeap.Bag.{count, SameBag, count-get_or, count-holes-le, Located, locate}

-- The heap is well formed: its arena is tiled by blocks, and its index holds the holes, each once,
-- the smallest first.
pub record IsHeap {P : Type 0} (w : World P) (blocks : Blocks) : Type 0 where
  pub filled : w.heap.start_address < w.heap.end_address
  pub within : w.heap.end_address ≤ w.heap.max_address
  pub small : w.heap.max_address < u32_mod
  pub tiles : Tiles w.memory w.heap.start_address blocks w.heap.end_address
  pub index : Sorted.IsValid header_less_than w.heap.index
  pub bag : SameBag (contents w.heap.index) (holes w.heap.start_address blocks)
  pub sorted : IsSorted (header_less_than w.memory) (contents w.heap.index)

module _ (index : OrderedArray Memory ℕ) (xs : List ℕ) (backing : index.array ≡ some xs)
    (fits : index.size ≤ length xs) where
  matches-count :
      (header k i : ℕ)
      → i + k ≡ index.size
      → matches index header k i ≡ ok (count header (take k (drop i xs)))
  unfolding matches
  matches-count header zero i h = refl
  matches-count header (suc k) i h =
      let next : i + 1 ≡ suc i = omega arith in
      let rest = matches-count header k (suc i) (omega arith) in
      rw
        (
          lookup_ordered_array-ok 0 index xs i backing (omega arith),
          drop-cons 0 xs i (omega (arith, fits)),
          next,
          rest,
        )
        (pick (get_or xs i 0 == header))
    where
      pick :
          (b : Bool)
          → ok (
              if b
              then suc (count header (take k (drop (suc i) xs)))
              else count header (take k (drop (suc i) xs)))
            ≡ ok ((if b then 1 else 0) + count header (take k (drop (suc i) xs)))
      pick true = ap ok (omega arith)
      pick false = ap ok (omega arith)

module _ {P : Type 0} {w : World P} {blocks : Blocks} (v : IsHeap w blocks) where
  abbrev entry : ℕ → ℕ
  entry i = get_or v.index.backing.0 i 0

  fits : w.heap.index.size ≤ length v.index.backing.0
  fits = omega (arith, v.index.fits, v.index.backing.2)

  pub contents-take : contents w.heap.index ≡ take w.heap.index.size v.index.backing.0
  contents-take = let (xs, e, l) = v.index.backing in rw e

  pub length-contents : length (contents w.heap.index) ≡ w.heap.index.size
  length-contents =
      ap length contents-take
      ∙ (length-take w.heap.index.size v.index.backing.0 ∙ omega (arith, fits))

  pub lookup-entry :
      (i : ℕ) → i < w.heap.index.size → lookup_ordered_array 0 i w.heap.index ≡ ok (entry i)
  lookup-entry i h = lookup_ordered_array-ok 0 w.heap.index v.index.backing.0 i v.index.backing.1 h

  -- An entry of the index is the header of a hole.
  pub entry-Located :
      (i : ℕ)
      → i < w.heap.index.size
      → Located w.memory w.heap.start_address (entry i) w.heap.end_address blocks
  entry-Located i h =
      let here = count-get_or v.index.backing.0 w.heap.index.size i h fits in
      let stands = rw (← contents-take) at here in
      locate w.memory w.heap.start_address blocks w.heap.end_address (entry i) v.tiles
        (omega (arith, v.bag.0 (entry i), stands))

  matches-hole :
      (header : ℕ)
      → count header (holes w.heap.start_address blocks) ≡ 1
      → matches w.heap.index header w.heap.index.size 0 ≡ ok 1
  matches-hole header one =
      matches-count w.heap.index v.index.backing.0 v.index.backing.1 fits header w.heap.index.size 0
        (omega arith)
      ∙ ap ok (ap (count header) (sym contents-take) ∙ (v.bag.0 header ∙ one))

  check_tags-ok :
      (address s : ℕ) (h : Bool)
      → IsBlock w.memory address s h
      → address + s ≤ w.heap.end_address
      → check_tags w.memory w.heap address ≡ ok tt
  unfolding check_tags
  check_tags-ok address s h b le =
      let big : leb minimum_hole_size s ≡ true = le→leb 20 s b.big in
      let inside : leb s (w.heap.end_address - address) ≡ true = le→leb s _ (omega arith) in
      rw (b.size, b.magic, big, inside, b.foot_magic, b.foot_header, ==_refl address) refl

  count_hole-ok :
      (address s c : ℕ) (h : Bool)
      → IsBlock w.memory address s h
      → (h ≡ true → count address (holes w.heap.start_address blocks) ≡ 1)
      → count_hole w.memory w.heap.index address c ≡ ok (if h then c + 1 else c)
  unfolding count_hole
  count_hole-ok address s c true b one = rw (b.hole, matches-hole address (one refl)) refl
  count_hole-ok address s c false b one = rw b.hole refl

  check_blocks-ok :
      (fuel a c : ℕ) (bs : Blocks)
      → Tiles w.memory a bs w.heap.end_address
      → w.heap.end_address - a ≤ fuel
      → c + length (holes a bs) ≡ w.heap.index.size
      → ((x : ℕ) → 0 < count x (holes a bs) → count x (holes w.heap.start_address blocks) ≡ 1)
      → check_blocks fuel w.memory w.heap a c ≡ ok tt
  unfolding check_blocks
  check_blocks-ok fuel a c [] t h n one = finish fuel
    where
      finish : (fuel : ℕ) → check_blocks fuel w.memory w.heap a c ≡ ok tt
      finish zero =
          let stop : ltb a w.heap.end_address ≡ false = ground arith in
          let at_end : (a == w.heap.end_address) ≡ true = ground arith in
          let all : (c == w.heap.index.size) ≡ true = ground arith in rw (stop, at_end, all) refl
      finish (suc fuel) =
          let stop : ltb a w.heap.end_address ≡ false = ground arith in
          let at_end : (a == w.heap.end_address) ≡ true = ground arith in
          let all : (c == w.heap.index.size) ≡ true = ground arith in rw (stop, at_end, all) refl
  check_blocks-ok zero a c ((s, h) ∷ bs) t room n one =
      absurd (omega (arith, t.0.big, Tiles-le w.memory (a + s) bs w.heap.end_address t.1))
  check_blocks-ok (suc fuel) a c ((s, h) ∷ bs) t room n one =
      let le = Tiles-le w.memory (a + s) bs w.heap.end_address t.1 in
      let go : ltb a w.heap.end_address ≡ true = lt→ltb a _ (omega (arith, t.0.big, le)) in
      rw (go, check_tags-ok a s h t.0 le, count_hole-ok a s c h t.0 (unique h n one), t.0.size)
        (check_blocks-ok fuel (a + s) (if h then c + 1 else c) bs t.1 (omega (arith, t.0.big, room))
          (rest h n) (others h one))
    where
      unique :
          (h : Bool)
          → c + length (holes a ((s, h) ∷ bs)) ≡ w.heap.index.size
          → ((x : ℕ)
              → 0 < count x (holes a ((s, h) ∷ bs))
              → count x (holes w.heap.start_address blocks) ≡ 1)
          → h ≡ true
          → count a (holes w.heap.start_address blocks) ≡ 1
      unique true n one e =
          let here : (a == a) ≡ true = ground arith in one a (rw here (omega arith))
      unique false n one e = cc

      rest :
          (h : Bool)
          → c + length (holes a ((s, h) ∷ bs)) ≡ w.heap.index.size
          → (if h then c + 1 else c) + length (holes (a + s) bs) ≡ w.heap.index.size
      rest true n = omega arith
      rest false n = n

      others :
          (h : Bool)
          → ((x : ℕ)
              → 0 < count x (holes a ((s, h) ∷ bs))
              → count x (holes w.heap.start_address blocks) ≡ 1)
          → (x : ℕ) → 0 < count x (holes (a + s) bs)
          → count x (holes w.heap.start_address blocks) ≡ 1
      others true one x p = one x (omega arith)
      others false one x p = one x p

  check_order-ok :
      (i : ℕ) → i < w.heap.index.size → check_order w.memory w.heap.index i (entry i) ≡ ok tt
  unfolding check_order
  check_order-ok zero h = refl
  check_order-ok (suc i) h =
      let sorted = rw contents-take at v.sorted in
      let order =
        IsSorted-neighbours 0 (header_less_than w.memory) v.index.backing.0 w.heap.index.size i
          sorted h fits in
      let le : leb (size_at w.memory (entry i)) (size_at w.memory (entry (suc i))) ≡ true =
        ground arith in
      rw (lookup-entry i (omega arith), le) refl

  check_index-ok : (k i : ℕ) → i + k ≡ w.heap.index.size → check_index w.memory w.heap k i ≡ ok tt
  unfolding check_index
  check_index-ok zero i h = refl
  check_index-ok (suc k) i h =
      let at_entry = entry-Located i (omega arith) in
      let lo =
        Tiles-le w.memory w.heap.start_address at_entry.before (entry i) at_entry.tiles_before in
      let hi =
        Tiles-le w.memory (entry i + at_entry.size) at_entry.after w.heap.end_address
          at_entry.tiles_after in
      let low : leb w.heap.start_address (entry i) ≡ true = le→leb _ _ lo in
      let high : ltb (entry i) w.heap.end_address ≡ true =
        lt→ltb _ _ (omega (arith, hi, at_entry.block.big)) in
      rw
        (
          lookup-entry i (omega arith),
          low,
          high,
          at_entry.block.magic,
          at_entry.block.hole,
          check_order-ok i (omega arith),
        )
        (check_index-ok k (i + 1) (omega arith))

  -- Every heap whose arena is tiled by blocks with sound tags, and whose index holds the holes,
  -- each once, the smallest first, is accepted by heap_validate.
  pub heap_validate-ok : heap_validate w ≡ ok tt
  unfolding heap_validate
  heap_validate-ok =
      let filled : ltb w.heap.start_address w.heap.end_address ≡ true = lt→ltb _ _ v.filled in
      let within : leb w.heap.end_address w.heap.max_address ≡ true = le→leb _ _ v.within in
      let total = length-contents in
      rw
        (
          filled,
          within,
          check_blocks-ok (w.heap.end_address - w.heap.start_address) w.heap.start_address 0 blocks
              v.tiles (omega arith) (omega (arith, v.bag.1, total))
              (λ x p. omega (
                arith,
                p,
                count-holes-le w.memory w.heap.start_address blocks w.heap.end_address x v.tiles,
              )),
          check_index-ok w.heap.index.size 0 (omega arith),
        )
        refl
