-- ===== src/OrderedArray/Remove.antt =====
-- `lookup_ordered_array` and `remove_ordered_array` of src/ordered_array.c.
use mathlib.Core.List.{Perm}
use mathlib.Core.List.Perm
use my_own_os.Prelude.{
  ℕ, zero, suc, ◌+◌, ◌-◌, ◌≤◌, ◌<◌, ◌≡◌, refl, sym, ap, ap₂, inl, inr, ltb, Bool-cases, ◌∙◌, Bool,
  some, List, [], ◌∷◌, ◌++◌, arith, length, get_or, set, take, drop, length-set, length-take,
  lt→ltb,
}
use my_own_os.Prelude.Outcome.{ok, ok-injective}
use my_own_os.OrderedArray.{OrderedArray, shift_forward, lookup_ordered_array, remove_ordered_array}
use my_own_os.OrderedArray.Shift.{take-shift_forward, length-shift_forward, take-set}
use my_own_os.OrderedArray.Sorted.{
  IsSorted, contents, IsValid, erase-IsSorted, take-take, drop-take,
}

module _ {A : Type 0} (null : A) where
  erase-perm :
      (xs : List A) (i : ℕ)
      → i < length xs
      → Perm xs (get_or xs i null ∷ (take i xs ++ drop (suc i) xs))
  erase-perm [] i h = elim h [ ]
  erase-perm (x ∷ xs) zero h = Perm.rfl
  erase-perm (x ∷ xs) (suc i) h =
      Perm.trans (Perm.cons x (erase-perm xs i (omega arith))) (Perm.swap _ x _)

  pub get_or-take : (xs : List A) (i n : ℕ) → i < n → get_or (take n xs) i null ≡ get_or xs i null
  get_or-take xs i zero h = elim h [ ]
  get_or-take [] i (suc n) h = refl
  get_or-take (x ∷ xs) zero (suc n) h = refl
  get_or-take (x ∷ xs) (suc i) (suc n) h = get_or-take xs i n (omega arith)

  -- Closing the gap in memory is erasing from the populated prefix.
  close_at :
      (xs : List A) (i k : ℕ)
      → i + k < length xs
      → take (i + k) (set (shift_forward null xs k i) (i + k) null)
        ≡ take i (take (suc (i + k)) xs) ++ drop (suc i) (take (suc (i + k)) xs)
  close_at xs i k h =
      let e : suc i + k ≡ suc (i + k) = omega arith in
      take-set null (shift_forward null xs k i) (i + k) (i + k) null (omega arith)
      ∙ (take-shift_forward null xs i k h
          ∙ ap₂ ◌++◌ (sym (take-take xs i (suc (i + k)) (omega arith)))
              (sym (rw e at (drop-take xs (suc i) k))))

  -- The same for an array of `n` entries.
  erased :
      (xs : List A) (i n : ℕ)
      → i < n
      → n ≤ length xs
      → take (n - 1) (set (shift_forward null xs (n - 1 - i) i) (n - 1) null)
        ≡ take i (take n xs) ++ drop (suc i) (take n xs)
  erased xs i n h l =
      let e : i + (n - 1 - i) ≡ n - 1 = omega arith in
      let e' : suc (n - 1) ≡ n = omega arith in
      rw e' at (rw e at (close_at xs i (n - 1 - i) (omega arith)))

module _ {S A : Type 0} (null : A) (lt : S → A → A → Bool) (i : ℕ) {a : OrderedArray S A}
    (v : IsValid lt a) where
  -- For an index below the size, removal succeeds, erases the entry at the index from the
  -- contents, keeps the order of the rest, and leaves an array as well formed, one entry shorter.
  pub remove_ordered_array-refines :
      i < a.size
      → (b : OrderedArray S A) × (remove_ordered_array null i a ≡ ok b)
        × (contents b ≡ take i (contents a) ++ drop (suc i) (contents a))
        × (b.size ≡ a.size - 1)
        × IsValid lt b
  unfolding remove_ordered_array
  remove_ordered_array-refines h =
      let (xs, e, l) = v.backing in
      let k = a.size - 1 - i in
      let shifted = shift_forward null xs k i in
      (
        record a { array = some (set shifted (a.size - 1) null); size = a.size - 1 },
        rw (e, lt→ltb i a.size h) refl,
        rw e (erased null xs i a.size h (omega (arith, l, v.fits))),
        refl,
        record {
          backing = (
            set shifted (a.size - 1) null,
            refl,
            length-set shifted (a.size - 1) null ∙ (length-shift_forward null xs k i ∙ l),
          );
          compares = v.compares;
          fits = omega (arith, v.fits);
          small = v.small;
        },
      )

  -- For an index below the size of an array with sorted contents, lookup and removal succeed, the
  -- entry looked up is what the removal takes out and nothing else is lost, and the contents stay
  -- sorted.
  pub lookup-remove_ordered_array :
      (s : S)
      → i < a.size
      → IsSorted (lt s) (contents a)
      → (x : A) × (b : OrderedArray S A) × (lookup_ordered_array null i a ≡ ok x)
        × (remove_ordered_array null i a ≡ ok b)
        × Perm (contents a) (x ∷ contents b)
        × IsSorted (lt s) (contents b)
  unfolding lookup_ordered_array
  lookup-remove_ordered_array s h sorted =
      let (xs, e, l) = v.backing in
      let (b, removed, c, _, _) = remove_ordered_array-refines h in
      let inside : i < length (take a.size xs) = omega (arith, length-take a.size xs, l, v.fits) in
      let same = get_or-take null xs i a.size h in
      (
        get_or xs i null,
        b,
        rw (e, lt→ltb i a.size h) refl,
        removed,
        rw (c, e) (rw same at (erase-perm null (take a.size xs) i inside)),
        rw c (erase-IsSorted (lt s) (contents a) i sorted),
      )

  pub remove_ordered_array-max_size :
      (b : OrderedArray S A) → remove_ordered_array null i a ≡ ok b → b.max_size ≡ a.max_size
  unfolding remove_ordered_array
  remove_ordered_array-max_size b done =
      let (xs, e, l) = v.backing in
      elim (Bool-cases (ltb i a.size)) [
        | inl inside ↦
            let same = ok-injective (rw (e, inside) at done) in
            ap (λ (z : OrderedArray S A). z.max_size) (sym same)
        | inr outside ↦ absurd (let stop = rw (e, outside) at done in cc)
      ]
