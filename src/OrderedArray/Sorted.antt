-- ===== src/OrderedArray/Sorted.antt =====
-- What src/ordered_array.c promises of its contents, and the lists that meet it.
use mathlib.Core.List.{Perm}
use mathlib.Core.List.Perm
use my_own_os.Prelude.{
  ℕ, ◌+◌, ◌≤◌, ◌≡◌, refl, Bool, true, false, none, some, List, [], ◌∷◌, ◌++◌, arith, if◌then◌else◌,
  inl, inr, zero, suc, ap, Bool-cases, length, take, drop,
}
use my_own_os.OrderedArray.{OrderedArray}

module _ {A : Type 0} (lt : A → A → Bool) where
  -- The specification of insertion: before the first entry that is not less than the item.
  unfoldable pub insert_sorted : A → List A → List A
  insert_sorted item [] = item ∷ []
  insert_sorted item (y ∷ ys) = if lt y item then y ∷ insert_sorted item ys else item ∷ y ∷ ys

  -- No entry of the list is less than `x`.
  abbrev pub NoneBelow : A → List A → Type 0
  NoneBelow x [] = Unit {0}
  NoneBelow x (y ∷ ys) = (lt y x ≡ false) × NoneBelow x ys

  abbrev pub IsSorted : List A → Type 0
  IsSorted [] = Unit {0}
  IsSorted (x ∷ xs) = NoneBelow x xs × IsSorted xs

  -- What a comparison callback has to satisfy.
  pub record IsStrictWeak : Type 0 where
    pub asym : (a b : A) → lt a b ≡ true → lt b a ≡ false
    pub negatively_transitive : (a b c : A) → lt a b ≡ false → lt b c ≡ false → lt a c ≡ false

-- The populated prefix of the backing memory.
abbrev pub contents : {S A : Type 0} → OrderedArray S A → List A
contents a = elim a.array [ none ↦ [] | some xs ↦ take a.size xs ]

-- The array is backed by `max_size` slots, few enough that `size` cannot wrap, and compares by `lt`.
pub record IsValid {S A : Type 0} (lt : S → A → A → Bool) (a : OrderedArray S A) : Type 0 where
  pub backing : (xs : List A) × (a.array ≡ some xs) × (length xs ≡ a.max_size)
  pub compares : a.less_than ≡ some lt
  pub fits : a.size ≤ a.max_size
  pub small : a.max_size ≤ 0x3FFFFFFF

module _ {A : Type 0} (lt : A → A → Bool) where
  pub insert_sorted-perm : (item : A) (xs : List A) → Perm (insert_sorted lt item xs) (item ∷ xs)
  unfolding insert_sorted
  insert_sorted-perm item [] = Perm.rfl
  insert_sorted-perm item (y ∷ ys) = elim (Bool-cases (lt y item)) [
    | inl below ↦
        rw below (Perm.trans (Perm.cons y (insert_sorted-perm item ys)) (Perm.swap item y ys))
    | inr stop ↦ rw stop Perm.rfl
  ]

  NoneBelow-insert_sorted :
      (x item : A) (ys : List A)
      → lt item x ≡ false
      → NoneBelow lt x ys
      → NoneBelow lt x (insert_sorted lt item ys)
  unfolding insert_sorted
  NoneBelow-insert_sorted x item [] h n = (h, tt)
  NoneBelow-insert_sorted x item (y ∷ ys) h n =
      ground (arith, NoneBelow-insert_sorted x item ys h n.1)

  NoneBelow-trans :
      IsStrictWeak lt
      → (x y : A) (zs : List A) → lt y x ≡ false
      → NoneBelow lt y zs
      → NoneBelow lt x zs
  NoneBelow-trans w x y [] h n = tt
  NoneBelow-trans w x y (z ∷ zs) h n =
      (w.negatively_transitive z y x n.0 h, NoneBelow-trans w x y zs h n.1)

  pub insert_sorted-IsSorted :
      IsStrictWeak lt
      → (item : A) (xs : List A) → IsSorted lt xs
      → IsSorted lt (insert_sorted lt item xs)
  unfolding insert_sorted
  insert_sorted-IsSorted w item [] s = (tt, tt)
  insert_sorted-IsSorted w item (y ∷ ys) s = elim (Bool-cases (lt y item)) [
    | inl below ↦ rw below (
      NoneBelow-insert_sorted y item ys (w.asym y item below) s.0,
      insert_sorted-IsSorted w item ys s.1,
    )
    | inr stop ↦ rw stop ((stop, NoneBelow-trans w item y ys stop s.0), s)
  ]

  NoneBelow-erase :
      (x : A) (xs : List A) (i : ℕ)
      → NoneBelow lt x xs
      → NoneBelow lt x (take i xs ++ drop (suc i) xs)
  NoneBelow-erase x [] zero n = tt
  NoneBelow-erase x [] (suc i) n = tt
  NoneBelow-erase x (y ∷ ys) zero n = n.1
  NoneBelow-erase x (y ∷ ys) (suc i) n = (n.0, NoneBelow-erase x ys i n.1)

  pub erase-IsSorted :
      (xs : List A) (i : ℕ) → IsSorted lt xs → IsSorted lt (take i xs ++ drop (suc i) xs)
  erase-IsSorted [] zero s = tt
  erase-IsSorted [] (suc i) s = tt
  erase-IsSorted (y ∷ ys) zero s = s.1
  erase-IsSorted (y ∷ ys) (suc i) s = (NoneBelow-erase y ys i s.0, erase-IsSorted ys i s.1)

module _ {A : Type 0} where
  pub take-append_left : (xs ys : List A) (n : ℕ) → length xs ≡ n → take n (xs ++ ys) ≡ xs
  take-append_left [] ys zero h = refl
  take-append_left [] ys (suc n) h = absurd (omega arith)
  take-append_left (x ∷ xs) ys zero h = absurd (omega arith)
  take-append_left (x ∷ xs) ys (suc n) h = ap (λ r. x ∷ r) (take-append_left xs ys n (omega arith))

  pub take-take : (xs : List A) (m n : ℕ) → m ≤ n → take m (take n xs) ≡ take m xs
  take-take xs zero n h = refl
  take-take xs (suc m) zero h = absurd (omega arith)
  take-take [] (suc m) (suc n) h = refl
  take-take (x ∷ xs) (suc m) (suc n) h = ap (λ r. x ∷ r) (take-take xs m n (omega arith))

  pub drop-take : (xs : List A) (m k : ℕ) → drop m (take (m + k) xs) ≡ take k (drop m xs)
  drop-take xs zero k = let e : zero + k ≡ k = omega arith in rw e
  drop-take [] (suc m) zero = let e : suc m + zero ≡ suc m = omega arith in rw e
  drop-take [] (suc m) (suc k) = let e : suc m + suc k ≡ suc (m + suc k) = omega arith in rw e
  drop-take (x ∷ xs) (suc m) k =
      let e : suc m + k ≡ suc (m + k) = omega arith in rw e (drop-take xs m k)
