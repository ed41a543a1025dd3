-- ===== src/OrderedArray/Lookup.antt =====
-- Reading the populated prefix of an array of src/ordered_array.c.
use my_own_os.Prelude.{
  ℕ, zero, suc, ◌≤◌, ◌<◌, ◌≡◌, refl, ap, Bool, false, some, List, [], ◌∷◌, arith, lt→ltb, length,
  get_or, take, drop,
}
use my_own_os.Prelude.Outcome.{ok}
use my_own_os.OrderedArray.{OrderedArray, lookup_ordered_array}
use my_own_os.OrderedArray.Sorted.{NoneBelow, IsSorted}

pub lookup_ordered_array-ok :
    {S A : Type 0} (null : A) (a : OrderedArray S A) (xs : List A) (i : ℕ)
    → a.array ≡ some xs
    → i < a.size
    → lookup_ordered_array null i a ≡ ok (get_or xs i null)
unfolding lookup_ordered_array
lookup_ordered_array-ok null a xs i e h = rw (e, lt→ltb i a.size h) refl

module _ {A : Type 0} where
  pub drop-cons :
      (null : A) (xs : List A) (i : ℕ)
      → i < length xs
      → drop i xs ≡ get_or xs i null ∷ drop (suc i) xs
  drop-cons null [] i h = absurd (omega arith)
  drop-cons null (x ∷ xs) zero h = refl
  drop-cons null (x ∷ xs) (suc i) h = drop-cons null xs i (omega arith)

  NoneBelow-get_or :
      (null : A) (lt : A → A → Bool) (x : A) (xs : List A) (n i : ℕ)
      → NoneBelow lt x (take n xs)
      → i < n
      → n ≤ length xs
      → lt (get_or xs i null) x ≡ false
  NoneBelow-get_or null lt x [] n i s h l = absurd (omega arith)
  NoneBelow-get_or null lt x (y ∷ ys) zero i s h l = absurd (omega arith)
  NoneBelow-get_or null lt x (y ∷ ys) (suc n) zero s h l = s.0
  NoneBelow-get_or null lt x (y ∷ ys) (suc n) (suc i) s h l =
      NoneBelow-get_or null lt x ys n i s.1 (omega arith) (omega arith)

  -- Neighbours in a sorted prefix are in order.
  pub IsSorted-neighbours :
      (null : A) (lt : A → A → Bool) (xs : List A) (n i : ℕ)
      → IsSorted lt (take n xs)
      → suc i < n
      → n ≤ length xs
      → lt (get_or xs (suc i) null) (get_or xs i null) ≡ false
  IsSorted-neighbours null lt [] n i s h l = absurd (omega arith)
  IsSorted-neighbours null lt (x ∷ xs) zero i s h l = absurd (omega arith)
  IsSorted-neighbours null lt (x ∷ xs) (suc n) zero s h l =
      NoneBelow-get_or null lt x xs n zero s.0 (omega arith) (omega arith)
  IsSorted-neighbours null lt (x ∷ xs) (suc n) (suc i) s h l =
      IsSorted-neighbours null lt xs n i s.1 (omega arith) (omega arith)

  pub take-length : (xs : List A) → take (length xs) xs ≡ xs
  take-length [] = refl
  take-length (x ∷ xs) = ap (λ (z : List A). x ∷ z) (take-length xs)

  -- Of two entries of a sorted list, the later one is not less.
  pub IsSorted-get_or :
      (null : A) (lt : A → A → Bool) (xs : List A) (i j : ℕ)
      → IsSorted lt xs
      → i < j
      → j < length xs
      → lt (get_or xs j null) (get_or xs i null) ≡ false
  IsSorted-get_or null lt [] i j s h l = absurd (omega arith)
  IsSorted-get_or null lt (x ∷ xs) i zero s h l = absurd (omega arith)
  IsSorted-get_or null lt (x ∷ xs) zero (suc j) s h l =
      NoneBelow-get_or null lt x xs (length xs) j (rw (take-length xs) s.0) (omega arith)
        (omega arith)
  IsSorted-get_or null lt (x ∷ xs) (suc i) (suc j) s h l =
      IsSorted-get_or null lt xs i j s.1 (omega arith) (omega arith)
