-- ===== src/Monitor.antt =====
-- src/monitor.c: the text screen. `video` is the frame buffer by cell, a `char` is its 8-bit
-- pattern, which is negative from 128 on. The port writes of `move_cursor` are not modelled.
pub mod Cursor
pub mod Decimal
pub mod Tests
use Prim.Native.Nat.{bit_or}
use my_own_os.Prelude.{
  ℕ, zero, suc, ◌+◌, ◌-◌, ◌*◌, ◌/◌, ◌%◌, ◌^◌, Bool, true, false, not, ◌&&◌, ◌||◌, List, [], ◌∷◌,
  ◌++◌, ltb, leb, ◌==◌, if◌then◌else◌,
}
use my_own_os.Words.{is_negative}

pub record Screen : Type 0 where
  pub video : ℕ → ℕ
  pub cursor_x : ℕ
  pub cursor_y : ℕ

-- White on black, in the top byte of a cell.
abbrev pub attribute : ℕ
attribute = 0x0F00

abbrev pub blank : ℕ
blank = 0x0F20

-- The loops move up rows 1 to 24, reading ahead of what they write, and blank row 24.
abbrev pub scroll : Screen → Screen
scroll s =
    if leb 25 s.cursor_y
    then record s {
      video =
          λ i. if ltb i 1920 then s.video (i + 80) else (if ltb i 2000 then blank else s.video i);
      cursor_y = 24;
    }
    else s

-- `if (cursor_x >= 80)`
abbrev pub wrap : Screen → Screen
wrap s =
    if leb 80 s.cursor_x then record s { cursor_x = 0; cursor_y = (s.cursor_y + 1) % 256 } else s

-- The chain of tests on the character. `(cursor_x + 8) & ~7` clears the low three bits.
abbrev pub place : ℕ → Screen → Screen
place c s =
    if (c == 8) && not (s.cursor_x == 0)
    then record s { cursor_x = s.cursor_x - 1 }
    else (if c == 9
        then record s { cursor_x = (s.cursor_x + 8 - (s.cursor_x + 8) % 8) % 256 }
        else (if c == 13
            then record s { cursor_x = 0 }
            else (if c == 10
                then record s { cursor_x = 0; cursor_y = (s.cursor_y + 1) % 256 }
                else (if leb 32 c && ltb c 128
                    then record s {
                      video = λ i.
                          if i == s.cursor_y * 80 + s.cursor_x
                          then bit_or c attribute
                          else s.video i;
                      cursor_x = (s.cursor_x + 1) % 256;
                    }
                    else s))))

pub monitor_put : ℕ → Screen → Screen
monitor_put c s = scroll (wrap (place c s))

unfoldable pub monitor_clear : Screen → Screen
monitor_clear s = record {
  video = λ i. if ltb i 2000 then blank else s.video i;
  cursor_x = 0;
  cursor_y = 0;
}

pub monitor_write : List ℕ → Screen → Screen
monitor_write [] s = s
monitor_write (c ∷ cs) s = monitor_write cs (monitor_put c s)

-- `while (acc > 0)` for the `s32int` `acc`, on fuel: the digits, the lowest first. `c` has room for
-- 32.
unfoldable pub digits : ℕ → ℕ → List ℕ
digits zero acc = []
digits (suc n) acc =
    let rest = digits n (acc / 10) in
    if (acc == 0) || is_negative acc then [] else (48 + acc % 10) ∷ rest

-- The copy of `c` into `c2`, in the other order.
unfoldable pub reversed : List ℕ → List ℕ
reversed [] = []
reversed (c ∷ cs) = reversed cs ++ (c ∷ [])

-- What `monitor_write_dec` writes.
unfoldable pub decimal : ℕ → List ℕ
decimal n = if n == 0 then 48 ∷ [] else reversed (digits 32 n)

pub monitor_write_dec : ℕ → Screen → Screen
monitor_write_dec n s = monitor_write (decimal n) s

abbrev pub hex_digit : ℕ → ℕ
hex_digit d = if leb 10 d then d - 10 + 97 else d + 48

-- `for (i = 28; i > 0; i -= 4)`, on the rounds left, then the last digit.
unfoldable pub hex_digits : ℕ → Bool → ℕ → List ℕ
hex_digits zero no_zeroes n = hex_digit (n % 16) ∷ []
hex_digits (suc k) no_zeroes n =
    let skipped = hex_digits k no_zeroes n in
    let shown = hex_digits k false n in
    let d = n / 16 ^ suc k % 16 in if (d == 0) && no_zeroes then skipped else hex_digit d ∷ shown

pub monitor_write_hex : ℕ → Screen → Screen
monitor_write_hex n s = monitor_write (48 ∷ 120 ∷ hex_digits 7 true n) s
