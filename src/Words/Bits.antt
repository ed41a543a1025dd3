-- ===== src/Words/Bits.antt =====
-- Single bits under the bit operations that the frame bitmap and the signal mask use.
use Prim.Native.Nat.{max, digits, bitwise, bit_and, bit_or, bit_and-bitwise, bit_or-bitwise}
use native.Mathlib.Nat.{pow-suc, one-le-pow}
use my_own_os.Prelude.{
  ℕ, zero, suc, ◌+◌, ◌-◌, ◌*◌, ◌/◌, ◌%◌, ◌^◌, ◌≤◌, ◌<◌, min, ◌≡◌, refl, ◌∙◌, ap, true, false, not,
  ◌&&◌, ◌||◌, arith, ◌==◌,
}
use my_own_os.Words.{test_bit, set_bit, clear_bit}

-- The native operations recur on binary digits; these drop the count that they recur on.
module _ (last : ℕ → ℕ) (digit : ℕ → ℕ → ℕ) where
  enough : (f g a b : ℕ) → a ≤ f → a ≤ g → digits last digit f a b ≡ digits last digit g a b
  enough zero zero a b hf hg = refl
  enough zero (suc g) zero b hf hg = refl
  enough (suc f) zero zero b hf hg = refl
  enough (suc f) (suc g) zero b hf hg = refl
  enough zero g (suc a) b hf hg = absurd (omega arith)
  enough (suc f) zero (suc a) b hf hg = absurd (omega arith)
  enough (suc f) (suc g) (suc a) b hf hg =
      rw (enough f g (suc a / 2) (b / 2) (omega arith) (omega arith))

  lowest :
      (a b : ℕ)
      → bitwise last digit (suc a) b
        ≡ bitwise last digit (suc a / 2) (b / 2) * 2 + digit (suc a % 2) (b % 2)
  lowest a b = omega (arith, enough a (suc a / 2) (suc a / 2) (b / 2) (omega arith) (omega arith))

pub or_step : (a b : ℕ) → bit_or a b ≡ bit_or (a / 2) (b / 2) * 2 + max (a % 2) (b % 2)
or_step zero b = omega (arith, bit_or-bitwise 0 b, bit_or-bitwise 0 (b / 2))
or_step (suc a) b = simp bit_or-bitwise (lowest (λ x. x) max a b)

pub and_step : (a b : ℕ) → bit_and a b ≡ bit_and (a / 2) (b / 2) * 2 + min (a % 2) (b % 2)
and_step zero b = omega (arith, bit_and-bitwise 0 b, bit_and-bitwise 0 (b / 2))
and_step (suc a) b = simp bit_and-bitwise (lowest (λ _. zero) min a b)

test_bit-or : (k a b : ℕ) → test_bit (bit_or a b) k ≡ (test_bit a k || test_bit b k)
unfolding test_bit
test_bit-or zero a b = ground (arith, or_step a b)
test_bit-or (suc k) a b =
    let e : bit_or a b / 2 ≡ bit_or (a / 2) (b / 2) = omega (arith, or_step a b) in
    rw e (test_bit-or k (a / 2) (b / 2))

test_bit-and : (k a b : ℕ) → test_bit (bit_and a b) k ≡ (test_bit a k && test_bit b k)
unfolding test_bit
test_bit-and zero a b = ground (arith, and_step a b)
test_bit-and (suc k) a b =
    let e : bit_and a b / 2 ≡ bit_and (a / 2) (b / 2) = omega (arith, and_step a b) in
    rw e (test_bit-and k (a / 2) (b / 2))

test_bit-zero : (k : ℕ) → test_bit 0 k ≡ false
unfolding test_bit
test_bit-zero zero = refl
test_bit-zero (suc k) = test_bit-zero k

test_bit-pow : (k j : ℕ) → test_bit (2 ^ j) k ≡ (j == k)
unfolding test_bit
test_bit-pow zero zero = refl
test_bit-pow zero (suc j) = ground (arith, pow-suc 2 j)
test_bit-pow (suc k) zero = test_bit-zero k ∙ ground arith
test_bit-pow (suc k) (suc j) =
    let e : 2 ^ suc j / 2 ≡ 2 ^ j = omega (arith, pow-suc 2 j) in
    rw e (test_bit-pow k j ∙ ground arith)

test_bit-not : (n k x : ℕ) → k < n → x < 2 ^ n → test_bit (2 ^ n - 1 - x) k ≡ not (test_bit x k)
unfolding test_bit
test_bit-not zero k x h l = elim h [ ]
test_bit-not (suc n) zero x h l = ground (arith, pow-suc 2 n, one-le-pow n 2)
test_bit-not (suc n) (suc k) x h l =
    let e : (2 ^ suc n - 1 - x) / 2 ≡ 2 ^ n - 1 - x / 2 = omega (arith, pow-suc 2 n) in
    rw e (test_bit-not n k (x / 2) (omega arith) (omega (arith, pow-suc 2 n)))

pub pow-lt : (j n : ℕ) → j < n → 2 ^ j < 2 ^ n
pow-lt j zero h = elim h [ ]
pow-lt zero (suc n) h = omega (arith, pow-suc 2 n, one-le-pow n 2)
pow-lt (suc j) (suc n) h = omega (arith, pow-suc 2 j, pow-suc 2 n, pow-lt j n (omega arith))

pub test_bit-set_bit : (w j k : ℕ) → test_bit (set_bit w j) k ≡ (test_bit w k || j == k)
test_bit-set_bit w j k = rw (test_bit-or, test_bit-pow)

pub test_bit-clear_bit :
    (w j k : ℕ) → j < 32 → k < 32 → test_bit (clear_bit w j) k ≡ (test_bit w k && not (j == k))
test_bit-clear_bit w j k hj hk =
    rw (test_bit-and, test_bit-not 32 k (2 ^ j) hk (pow-lt j 32 hj), test_bit-pow)

and-zero : (bound a : ℕ) → a ≤ bound → bit_and a 0 ≡ 0
and-zero bound zero h = omega (arith, bit_and-bitwise 0 0)
and-zero zero (suc a) h = absurd (omega arith)
and-zero (suc bound) (suc a) h =
    omega (arith, and_step (suc a) 0, and-zero bound (suc a / 2) (omega arith))

-- `w & (1 << k)` is zero exactly when the bit is clear.
pub bit_and-pow : (w k : ℕ) → (bit_and w (2 ^ k) == 0) ≡ not (test_bit w k)
unfolding test_bit
bit_and-pow w zero = ground (arith, and_step w 1, and-zero (w / 2) (w / 2))
bit_and-pow w (suc k) =
    let half : 2 ^ suc k / 2 ≡ 2 ^ k = omega (arith, pow-suc 2 k) in
    let even : 2 ^ suc k % 2 ≡ 0 = omega (arith, pow-suc 2 k) in
    let step : bit_and w (2 ^ suc k) ≡ bit_and (w / 2) (2 ^ k) * 2 =
      rw (← half) (omega (arith, and_step w (2 ^ suc k), even)) in
    let double : (x : ℕ) → (x * 2 == 0) ≡ (x == 0) = λ x. ground arith in
    rw (step, double) (bit_and-pow (w / 2) k)

pub or-lt : (n a b : ℕ) → a < 2 ^ n → b < 2 ^ n → bit_or a b < 2 ^ n
or-lt zero zero zero ha hb = omega (arith, bit_or-bitwise 0 0)
or-lt zero zero (suc b) ha hb = absurd (omega arith)
or-lt zero (suc a) b ha hb = absurd (omega arith)
or-lt (suc n) a b ha hb = omega (
  arith,
  pow-suc 2 n,
  or_step a b,
  or-lt n (a / 2) (b / 2) (omega (arith, pow-suc 2 n)) (omega (arith, pow-suc 2 n)),
)

pub and-lt : (n a b : ℕ) → a < 2 ^ n → bit_and a b < 2 ^ n
and-lt zero zero b ha = omega (arith, bit_and-bitwise 0 b)
and-lt zero (suc a) b ha = absurd (omega arith)
and-lt (suc n) a b ha =
    omega (arith, pow-suc 2 n, and_step a b, and-lt n (a / 2) (b / 2) (omega (arith, pow-suc 2 n)))

pub test_bit_full : (k : ℕ) → k < 32 → test_bit 0xFFFFFFFF k ≡ true
test_bit_full k h = test_bit-not 32 k 0 h (omega arith) ∙ ap not (test_bit-zero k)
