-- ===== src/OrderedArray/Insert.antt =====
-- `insert_ordered_array` of src/ordered_array.c is sorted insertion into the populated prefix.
use mathlib.Core.List.{Perm}
use my_own_os.Prelude.{
  ℕ, zero, suc, ◌+◌, ◌-◌, ◌≤◌, ◌<◌, ◌≡◌, refl, sym, ap, ◌∙◌, Bool, false, some, List, [], ◌∷◌, ◌++◌,
  arith, inl, inr, Bool-cases, length, set, take, drop, length-take, length-set, length-append,
  length-drop, ltb, lt→ltb,
}
use my_own_os.Prelude.Outcome.{ok, panic, ok-injective}
use my_own_os.OrderedArray.{OrderedArray, position, shift_back, insert_ordered_array}
use my_own_os.OrderedArray.Shift.{set-shift_back, length-shift_back}
use my_own_os.OrderedArray.Sorted.{
  insert_sorted, insert_sorted-perm, insert_sorted-IsSorted, IsSorted, IsStrictWeak, contents,
  IsValid, take-append_left,
}

module _ {A : Type 0} (null : A) (lt : A → A → Bool) where
  position-suc :
      (x : A) (xs : List A) (item : A) (k i : ℕ)
      → position null lt (x ∷ xs) item k (suc i) ≡ suc (position null lt xs item k i)
  unfolding position
  position-suc x xs item zero i = refl
  position-suc x xs item (suc k) i =
      let e : suc i + 1 ≡ suc (i + 1) = omega arith in
      rw e (ground (arith, position-suc x xs item k (i + 1)))

  position-le : (xs : List A) (item : A) (k i : ℕ) → position null lt xs item k i ≤ i + k
  unfolding position
  position-le xs item zero i = omega arith
  position-le xs item (suc k) i = ground (arith, position-le xs item k (i + 1))

  -- Splicing the item in at the position that the search finds is sorted insertion.
  splice :
      (xs : List A) (item : A) (n : ℕ)
      → n ≤ length xs
      → let p = position null lt xs item n 0 in
        take p xs ++ item ∷ take (n - p) (drop p xs) ≡ insert_sorted lt item (take n xs)
  unfolding position insert_sorted
  splice xs item zero h = refl
  splice [] item (suc n) h = elim h [ ]
  splice (x ∷ xs) item (suc n) h = elim (Bool-cases (lt x item)) [
    | inl below ↦
        let e : 0 + 1 ≡ suc 0 = omega arith in
        let e' : (m : ℕ) → suc n - suc m ≡ n - m = λ m. omega arith in
        rw (below, e, position-suc x xs item n 0, e')
          (ap (λ r. x ∷ r) (splice xs item n (omega arith)))
    | inr stop ↦ let e : suc n - 0 ≡ suc n = omega arith in rw (stop, e)
  ]

module _ {A : Type 0} (null : A) (item : A) (xs : List A) where
  gap_at :
      (p k : ℕ)
      → p + k < length xs
      → take (p + k + 1) (set (shift_back null xs k (p + k)) p item)
        ≡ take p xs ++ item ∷ take k (drop p xs)
  gap_at p k h = rw (set-shift_back null xs item p k h) (
      take-append_left (take p xs ++ item ∷ take k (drop p xs)) (drop (suc k) (drop p xs))
        (p + k + 1)
        (omega (
          arith,
          length-append (take p xs) (item ∷ take k (drop p xs)),
          length-take p xs,
          length-take k (drop p xs),
          length-drop p xs,
        )))

  gap :
      (p n : ℕ)
      → p ≤ n
      → n < length xs
      → take (n + 1) (set (shift_back null xs (n - p) n) p item)
        ≡ take p xs ++ item ∷ take (n - p) (drop p xs)
  gap p n h l = let e : p + (n - p) ≡ n = omega arith in rw e at (gap_at p (n - p) (omega arith))

-- The memory and size that a successful insertion leaves.
abbrev inserted :
    {S A : Type 0} → A → (A → A → Bool) → A → List A → OrderedArray S A → OrderedArray S A
inserted null lt item xs a =
    let p = position null lt xs item a.size 0 in
    record a {
      array = some (set (shift_back null xs (a.size - p) a.size) p item);
      size = a.size + 1;
    }

module _ {S A : Type 0} (null : A) (lt : S → A → A → Bool) (s : S) (item : A) {a : OrderedArray S A}
    (v : IsValid lt a) where
  -- On an array that is backed by its slots and not full, insertion succeeds with an array as
  -- well formed, whose contents are the old ones with the item before the first entry that is not
  -- less than it.
  pub insert_ordered_array-refines :
      a.size < a.max_size
      → (b : OrderedArray S A) × (insert_ordered_array null s item a ≡ ok b)
        × (contents b ≡ insert_sorted (lt s) item (contents a))
        × IsValid lt b
  unfolding insert_ordered_array
  insert_ordered_array-refines room =
      let (xs, e, l) = v.backing in
      let p = position null (lt s) xs item a.size 0 in
      let below = position-le null (lt s) xs item a.size 0 in
      (
        inserted null (lt s) item xs a,
        rw (e, v.compares, lt→ltb a.size a.max_size room) refl,
        rw e (
            gap null item xs p a.size (omega (arith, below)) (omega (arith, l, room))
            ∙ splice null (lt s) xs item a.size (omega (arith, l, v.fits))),
        record {
          backing = (
            set (shift_back null xs (a.size - p) a.size) p item,
            refl,
            length-set (shift_back null xs (a.size - p) a.size) p item
                ∙ (length-shift_back null xs (a.size - p) a.size ∙ l),
          );
          compares = v.compares;
          fits = omega arith;
          small = v.small;
        },
      )

  -- For an array that is backed by its slots and not full, a comparison that is a strict weak
  -- order, and sorted contents, insertion succeeds, keeps the contents sorted, and adds the item
  -- and nothing else.
  pub insert_ordered_array-IsSorted :
      a.size < a.max_size
      → IsStrictWeak (lt s)
      → IsSorted (lt s) (contents a)
      → (b : OrderedArray S A) × (insert_ordered_array null s item a ≡ ok b)
        × IsSorted (lt s) (contents b)
        × Perm (contents b) (item ∷ contents a)
        × IsValid lt b
  insert_ordered_array-IsSorted room w sorted =
      let (b, e, c, v') = insert_ordered_array-refines room in
      (
        b,
        e,
        rw c (insert_sorted-IsSorted (lt s) w item (contents a) sorted),
        rw c (insert_sorted-perm (lt s) item (contents a)),
        v',
      )

  pub insert_ordered_array-size :
      (b : OrderedArray S A)
      → insert_ordered_array null s item a ≡ ok b
      → (b.size ≡ a.size + 1) × (b.max_size ≡ a.max_size)
  unfolding insert_ordered_array
  insert_ordered_array-size b done =
      let (xs, e, l) = v.backing in
      elim (Bool-cases (ltb a.size a.max_size)) [
        | inl room ↦
            let same = ok-injective (rw (e, v.compares, room) at done) in
            (
              ap (λ (z : OrderedArray S A). z.size) (sym same),
              ap (λ (z : OrderedArray S A). z.max_size) (sym same),
            )
        | inr full ↦ absurd (let stop = rw (e, v.compares, full) at done in cc)
      ]

  -- On an array whose size is its capacity, insertion stops the kernel instead of writing past
  -- the end.
  pub insert_ordered_array_full : a.size ≡ a.max_size → insert_ordered_array null s item a ≡ panic
  unfolding insert_ordered_array
  insert_ordered_array_full full =
      let (xs, e, l) = v.backing in
      let no_room : ltb a.size a.max_size ≡ false = ground arith in rw (e, v.compares, no_room) refl
