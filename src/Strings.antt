-- ===== src/Strings.antt =====
-- The string comparisons of src/common.c, on the bytes before the terminating zero. The loops over
-- an index are recursions on what is left of the strings.
use my_own_os.Prelude.{
  ℕ, zero, suc, ◌≡◌, refl, sym, ◌∙◌, ◌↔◌, ap₂, true, List, [], ◌∷◌, arith, ◌==◌, if◌then◌else◌,
  if_false, Bool-cases, take, inl, inr,
}

-- The result is `failed`.
unfoldable pub strcmp : List ℕ → List ℕ → ℕ
strcmp [] [] = 0
strcmp [] (b ∷ ys) = 1
strcmp (a ∷ xs) [] = 1
strcmp (a ∷ xs) (b ∷ ys) = let rest = strcmp xs ys in if a == b then rest else 1

pub strncmp : List ℕ → List ℕ → ℕ → ℕ
strncmp xs ys zero = 0
strncmp [] [] (suc n) = 0
strncmp [] (b ∷ ys) (suc n) = 1
strncmp (a ∷ xs) [] (suc n) = 1
strncmp (a ∷ xs) (b ∷ ys) (suc n) = let rest = strncmp xs ys n in if a == b then rest else 1

pub strcmp-eq : (a b : List ℕ) → strcmp a b ≡ 0 → a ≡ b
unfolding strcmp
strcmp-eq [] [] h = refl
strcmp-eq [] (b ∷ ys) h = absurd (omega arith)
strcmp-eq (a ∷ xs) [] h = absurd (omega arith)
strcmp-eq (a ∷ xs) (b ∷ ys) h = elim (Bool-cases (a == b)) [
  | inl same ↦ ap₂ (λ (z : ℕ) (zs : List ℕ). z ∷ zs) (ground arith) (strcmp-eq xs ys (rw same at h))
  | inr other ↦
      let bad = sym (if_false (a == b) (strcmp xs ys) other) ∙ h in absurd (omega (arith, bad))
]

pub strcmp_refl : (a : List ℕ) → strcmp a a ≡ 0
unfolding strcmp
strcmp_refl [] = refl
strcmp_refl (a ∷ xs) = let e : (a == a) ≡ true = ground arith in rw e (strcmp_refl xs)

-- Two strings compare as 0 exactly when they are equal.
pub strcmp_iff : (a b : List ℕ) → (strcmp a b ≡ 0) ↔ (a ≡ b)
strcmp_iff a b = (strcmp-eq a b, λ e. rw e (strcmp_refl b))

strncmp-eq : (a b : List ℕ) (n : ℕ) → strncmp a b n ≡ 0 → take n a ≡ take n b
unfolding strncmp
strncmp-eq a b zero h = refl
strncmp-eq [] [] (suc n) h = refl
strncmp-eq [] (b ∷ ys) (suc n) h = absurd (omega arith)
strncmp-eq (a ∷ xs) [] (suc n) h = absurd (omega arith)
strncmp-eq (a ∷ xs) (b ∷ ys) (suc n) h = elim (Bool-cases (a == b)) [
  | inl same ↦
      ap₂ (λ (z : ℕ) (zs : List ℕ). z ∷ zs) (ground arith) (strncmp-eq xs ys n (rw same at h))
  | inr other ↦
      let bad = sym (if_false (a == b) (strncmp xs ys n) other) ∙ h in absurd (omega (arith, bad))
]

eq-strncmp : (a b : List ℕ) (n : ℕ) → take n a ≡ take n b → strncmp a b n ≡ 0
unfolding strncmp
eq-strncmp a b zero h = refl
eq-strncmp [] [] (suc n) h = refl
eq-strncmp [] (b ∷ ys) (suc n) h = cc
eq-strncmp (a ∷ xs) [] (suc n) h = cc
eq-strncmp (a ∷ xs) (b ∷ ys) (suc n) h =
    let heads : a ≡ b = cc in
    let tails : take n xs ≡ take n ys = cc in
    let e : (a == b) ≡ true = ground arith in rw e (eq-strncmp xs ys n tails)

-- Two strings compare as 0 up to a count exactly when their first characters, as many as the
-- count, are equal.
pub strncmp_iff : (a b : List ℕ) (n : ℕ) → (strncmp a b n ≡ 0) ↔ (take n a ≡ take n b)
strncmp_iff a b n = (strncmp-eq a b n, eq-strncmp a b n)
