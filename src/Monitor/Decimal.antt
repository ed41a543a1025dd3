-- ===== src/Monitor/Decimal.antt =====
-- `monitor_write_dec` of src/monitor.c: which number its digits spell.
use my_own_os.Prelude.{
  ℕ, zero, suc, ◌+◌, ◌-◌, ◌*◌, ◌/◌, ◌%◌, ◌^◌, ◌≤◌, ◌<◌, ◌≡◌, refl, ◌∙◌, false, List, [], ◌∷◌, ◌++◌,
  arith, leb, ◌==◌, Bool-cases, inl, inr, ◌||◌,
}
use native.Mathlib.Nat.{pow-suc}
use my_own_os.Monitor.{digits, reversed, decimal}

-- The number that decimal digits spell, `acc` being what stands before them.
unfoldable pub parse : ℕ → List ℕ → ℕ
parse acc [] = acc
parse acc (c ∷ cs) = parse (acc * 10 + (c - 48)) cs

parse-snoc :
    (acc : ℕ) (cs : List ℕ) (c : ℕ) → parse acc (cs ++ (c ∷ [])) ≡ parse acc cs * 10 + (c - 48)
unfolding parse
parse-snoc acc [] c = refl
parse-snoc acc (b ∷ bs) c = parse-snoc (acc * 10 + (b - 48)) bs c

-- Every character is one of '0' to '9'.
abbrev pub AllDigits : List ℕ → Type 0
AllDigits [] = Unit
AllDigits (c ∷ cs) = (48 ≤ c) × (c ≤ 57) × AllDigits cs

AllDigits-snoc : (cs : List ℕ) (c : ℕ) → AllDigits cs → 48 ≤ c → c ≤ 57 → AllDigits (cs ++ (c ∷ []))
AllDigits-snoc [] c a l u = (l, u, tt)
AllDigits-snoc (b ∷ bs) c (lb, ub, a) l u = (lb, ub, AllDigits-snoc bs c a l u)

digits-AllDigits : (n acc : ℕ) → AllDigits (reversed (digits n acc))
unfolding digits reversed
digits-AllDigits zero acc = tt
digits-AllDigits (suc n) acc = elim (Bool-cases ((acc == 0) || leb 0x80000000 acc)) [
  | inl done ↦ rw done tt
  | inr more ↦ rw more (
      AllDigits-snoc (reversed (digits n (acc / 10))) (48 + acc % 10)
        (digits-AllDigits n (acc / 10)) (omega arith) (omega arith))
]

parse-digits :
    (n acc : ℕ) → acc < 10 ^ n → acc < 0x80000000 → parse 0 (reversed (digits n acc)) ≡ acc
unfolding parse digits reversed
parse-digits zero acc h s = omega arith
parse-digits (suc n) acc h s = elim (Bool-cases (acc == 0)) [
  | inl done ↦ rw done (ground arith)
  | inr some_digits ↦
      let more : ((acc == 0) || leb 0x80000000 acc) ≡ false = ground arith in
      rw more (
        parse-snoc 0 (reversed (digits n (acc / 10))) (48 + acc % 10)
        ∙ omega (arith, parse-digits n (acc / 10) (small n acc h) (omega arith)))
]
  where
    small : (n acc : ℕ) → acc < 10 ^ suc n → acc / 10 < 10 ^ n
    small n acc h = omega (arith, pow-suc 10 n)

-- For a number below 2 ^ 31, every character written is one of '0' to '9', and the characters
-- spell the number.
pub parse-decimal : (n : ℕ) → n < 2 ^ 31 → AllDigits (decimal n) × (parse 0 (decimal n) ≡ n)
unfolding decimal parse
parse-decimal n h = elim (Bool-cases (n == 0)) [
  | inl none ↦ rw none ((omega arith, omega arith, tt), ground arith)
  | inr some_digits ↦
      rw some_digits (digits-AllDigits 32 n, parse-digits 32 n (omega arith) (omega arith))
]
