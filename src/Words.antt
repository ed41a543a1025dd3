-- ===== src/Words.antt =====
-- 32-bit machine words as native numbers below 2 ^ 32, with the wrap-around written out. An `int`
-- is its bit pattern: -1 is 0xFFFFFFFF, and a negative value has its top bit set.
pub mod Bits
pub mod Memory
use Prim.Native.Nat.{bit_and, bit_or}
use my_own_os.Prelude.{
  ℕ, zero, suc, ◌+◌, ◌-◌, ◌*◌, ◌/◌, ◌%◌, ◌^◌, ◌≡◌, Bool, ltb, leb, ◌==◌, if◌then◌else◌,
}

abbrev pub u32_mod : ℕ
u32_mod = 2 ^ 32

-- (u32int)-1, and -1 as an `int`
abbrev pub minus_one : ℕ
minus_one = 0xFFFFFFFF

abbrev pub add32 : ℕ → ℕ → ℕ
add32 a b = (a + b) % u32_mod

abbrev pub sub32 : ℕ → ℕ → ℕ
sub32 a b = (a + u32_mod - b) % u32_mod

-- `~x`
abbrev pub not32 : ℕ → ℕ
not32 x = 0xFFFFFFFF - x

-- `x < 0` for an `int`
abbrev pub is_negative : ℕ → Bool
is_negative x = leb 0x80000000 x

-- `SYSCALL_ERROR(number)` of errno.h, for a number above 0
abbrev pub negated : ℕ → ℕ
negated n = u32_mod - n

-- `r` is `base` moved by the signed number that the pattern `offset` stands for.
abbrev pub Moved : ℕ → ℕ → ℕ → Type 0
Moved base offset r =
    r + (if is_negative offset then u32_mod - offset else 0)
    ≡ base + (if is_negative offset then 0 else offset)

-- Rounding to pages: clearing the low 12 bits subtracts the offset within the page.
abbrev pub page_size : ℕ
page_size = 0x1000

-- `x & 0xFFFFF000`
abbrev pub align_down_page : ℕ → ℕ
align_down_page x = x - x % page_size

-- `PAGE_ALIGN_UP(value)` of task.c and `ALIGN_UP_PAGE(value)` of exec.c
abbrev pub align_up_page : ℕ → ℕ
align_up_page x = align_down_page (add32 x (page_size - 1))

-- Bit `k` of a word, counted from the lowest.
unfoldable pub test_bit : ℕ → ℕ → Bool
test_bit w zero = w % 2 == 1
test_bit w (suc k) = test_bit (w / 2) k

-- `w | (1 << k)`
abbrev pub set_bit : ℕ → ℕ → ℕ
set_bit w k = bit_or w (2 ^ k)

-- `w & ~(1 << k)`
abbrev pub clear_bit : ℕ → ℕ → ℕ
clear_bit w k = bit_and w (not32 (2 ^ k))
