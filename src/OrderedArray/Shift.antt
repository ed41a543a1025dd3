-- ===== src/OrderedArray/Shift.antt =====
-- What the two shifting loops of src/ordered_array.c leave in the backing memory.
use my_own_os.Prelude.{
  ℕ, zero, suc, ◌+◌, ◌-◌, ◌≤◌, ◌<◌, ◌≡◌, refl, sym, ap, ◌∙◌, List, [], ◌∷◌, ◌++◌, arith, length,
  get_or, set, take, drop, length-set,
}
use my_own_os.OrderedArray.{shift_back, shift_forward}

module _ {A : Type 0} (null : A) where
  pub take-set : (xs : List A) (k j : ℕ) (v : A) → k ≤ j → take k (set xs j v) ≡ take k xs
  take-set [] k j v h = refl
  take-set (x ∷ xs) zero j v h = refl
  take-set (x ∷ xs) (suc k) zero v h = absurd (omega arith)
  take-set (x ∷ xs) (suc k) (suc j) v h = ap (λ r. x ∷ r) (take-set xs k j v (omega arith))

  drop-set :
      (xs : List A) (k : ℕ) (v : A) → k < length xs → drop k (set xs k v) ≡ v ∷ drop (suc k) xs
  drop-set [] k v h = elim h [ ]
  drop-set (x ∷ xs) zero v h = refl
  drop-set (x ∷ xs) (suc k) v h = drop-set xs k v (omega arith)

  take-snoc :
      (xs rest : List A) (k : ℕ)
      → k < length xs
      → take (suc k) xs ++ rest ≡ take k xs ++ get_or xs k null ∷ rest
  take-snoc [] rest k h = elim h [ ]
  take-snoc (x ∷ xs) rest zero h = refl
  take-snoc (x ∷ xs) rest (suc k) h = ap (λ r. x ∷ r) (take-snoc xs rest k (omega arith))

  pub shift_back-cons :
      (x : A) (xs : List A) (k d : ℕ)
      → k ≤ d
      → shift_back null (x ∷ xs) k (suc d) ≡ x ∷ shift_back null xs k d
  unfolding shift_back
  shift_back-cons x xs zero d h = refl
  shift_back-cons x xs (suc k) zero h = absurd (omega arith)
  shift_back-cons x xs (suc k) (suc d) h =
      let e : suc (suc d) - 1 ≡ suc d = omega arith in
      let e' : suc d - 1 ≡ d = omega arith in
      rw (e, e') (shift_back-cons x (set xs (suc d) (get_or xs d null)) k d (omega arith))

  -- From the front the loop moves `k` entries one place up; the entry at 0 stays.
  shift_back_front :
      (x : A) (ys : List A) (k : ℕ)
      → k ≤ length ys
      → shift_back null (x ∷ ys) k k ≡ x ∷ take k (x ∷ ys) ++ drop k ys
  unfolding shift_back
  shift_back_front x ys zero h = refl
  shift_back_front x ys (suc k) h =
      let e : suc k - 1 ≡ k = omega arith in
      let v = get_or (x ∷ ys) k null in
      let xs : List A = x ∷ ys in
      rw e (
        shift_back_front x (set ys k v) k (omega (arith, length-set ys k v))
        ∙ ap (λ r. x ∷ r)
            (ap (λ r. r ++ drop k (set ys k v)) (take-set xs k (suc k) v (omega arith))
              ∙ (ap (λ r. take k xs ++ r) (drop-set ys k v h)
                  ∙ sym (take-snoc xs (drop (suc k) ys) k (omega arith)))))

  -- Opening a gap of one place at `i` and writing it: the array of `i + k` entries gets the item
  -- between its first `i` and the rest.
  pub set-shift_back :
      (xs : List A) (item : A) (i k : ℕ)
      → i + k < length xs
      → set (shift_back null xs k (i + k)) i item
        ≡ take i xs ++ item ∷ take k (drop i xs) ++ drop (suc k) (drop i xs)
  set-shift_back [] item i k h = elim h [ ]
  set-shift_back (x ∷ xs) item zero k h =
      let e : zero + k ≡ k = omega arith in rw (e, shift_back_front x xs k (omega arith))
  set-shift_back (x ∷ xs) item (suc i) k h =
      let e : suc i + k ≡ suc (i + k) = omega arith in
      rw (e, shift_back-cons x xs k (i + k) (omega arith))
        (ap (λ r. x ∷ r) (set-shift_back xs item i k (omega arith)))

  pub shift_forward-cons :
      (x : A) (xs : List A) (k i : ℕ)
      → shift_forward null (x ∷ xs) k (suc i) ≡ x ∷ shift_forward null xs k i
  unfolding shift_forward
  shift_forward-cons x xs zero i = refl
  shift_forward-cons x xs (suc k) i =
      let e : suc i + 1 ≡ suc (i + 1) = omega arith in
      rw e (shift_forward-cons x (set xs i (get_or xs (i + 1) null)) k (i + 1))

  take-shift_forward_front :
      (x : A) (xs : List A) (k : ℕ)
      → k ≤ length xs
      → take k (shift_forward null (x ∷ xs) k 0) ≡ take k xs
  unfolding shift_forward
  take-shift_forward_front x xs zero h = refl
  take-shift_forward_front x [] (suc k) h = elim h [ ]
  take-shift_forward_front x (y ∷ xs) (suc k) h =
      let e : 0 + 1 ≡ suc 0 = omega arith in
      rw (e, shift_forward-cons y (y ∷ xs) k 0)
        (ap (λ r. y ∷ r) (take-shift_forward_front y xs k (omega arith)))

  -- Closing the gap at `i`: of `suc (i + k)` entries all but the one at `i` are left, in order.
  pub take-shift_forward :
      (xs : List A) (i k : ℕ)
      → i + k < length xs
      → take (i + k) (shift_forward null xs k i) ≡ take i xs ++ take k (drop (suc i) xs)
  take-shift_forward [] i k h = elim h [ ]
  take-shift_forward (x ∷ xs) zero k h =
      let e : zero + k ≡ k = omega arith in rw e (take-shift_forward_front x xs k (omega arith))
  take-shift_forward (x ∷ xs) (suc i) k h =
      let e : suc i + k ≡ suc (i + k) = omega arith in
      rw (e, shift_forward-cons x xs k i)
        (ap (λ r. x ∷ r) (take-shift_forward xs i k (omega arith)))

  pub length-shift_back : (xs : List A) (k d : ℕ) → length (shift_back null xs k d) ≡ length xs
  unfolding shift_back
  length-shift_back xs zero d = refl
  length-shift_back xs (suc k) d =
      length-shift_back (set xs d (get_or xs (d - 1) null)) k (d - 1) ∙ length-set xs d _

  pub length-shift_forward :
      (xs : List A) (k i : ℕ) → length (shift_forward null xs k i) ≡ length xs
  unfolding shift_forward
  length-shift_forward xs zero i = refl
  length-shift_forward xs (suc k) i =
      length-shift_forward (set xs i (get_or xs (i + 1) null)) k (i + 1) ∙ length-set xs i _
