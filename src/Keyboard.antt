-- ===== src/Keyboard.antt =====
-- src/keyboard.c: the buffer between the keyboard interrupt and the readers. The byte that `inb`
-- reads is an argument. `buffer` is the array of 128 slots; both indices stay below 128.
pub mod Ring
pub mod Tests
use my_own_os.Prelude.{
  ℕ, zero, suc, ◌+◌, ◌-◌, ◌%◌, ◌≤◌, ◌<◌, Bool, true, false, not, ◌&&◌, ◌||◌, List, [], ◌∷◌, ltb,
  leb, ◌==◌, if◌then◌else◌, get_or,
}
use my_own_os.Words.{minus_one}

abbrev pub keyboard_buffer_size : ℕ
keyboard_buffer_size = 128

pub record Keyboard : Type 0 where
  pub buffer : ℕ → ℕ
  pub read_index : ℕ
  pub write_index : ℕ
  pub shift_pressed : Bool

-- The initialised part of the table; the rest is zero.
abbrev pub normal_map : List ℕ
normal_map =
    0 ∷ 0 ∷ 49 ∷ 50 ∷ 51 ∷ 52 ∷ 53 ∷ 54 ∷ 55 ∷ 56 ∷ 57 ∷ 48 ∷ 45 ∷ 61 ∷ 8 ∷ 9 ∷ 113 ∷ 119 ∷ 101
    ∷ 114 ∷ 116 ∷ 121 ∷ 117 ∷ 105 ∷ 111 ∷ 112 ∷ 91 ∷ 93 ∷ 10 ∷ 0 ∷ 97 ∷ 115 ∷ 100 ∷ 102 ∷ 103 ∷ 104
    ∷ 106 ∷ 107 ∷ 108 ∷ 59 ∷ 39 ∷ 96 ∷ 0 ∷ 92 ∷ 122 ∷ 120 ∷ 99 ∷ 118 ∷ 98 ∷ 110 ∷ 109 ∷ 44 ∷ 46 ∷ 47
    ∷ 0 ∷ 42 ∷ 0 ∷ 32 ∷ 0 ∷ []

abbrev pub shifted_map : List ℕ
shifted_map =
    0 ∷ 0 ∷ 33 ∷ 64 ∷ 35 ∷ 36 ∷ 37 ∷ 94 ∷ 38 ∷ 42 ∷ 40 ∷ 41 ∷ 95 ∷ 43 ∷ 8 ∷ 9 ∷ 81 ∷ 87 ∷ 69 ∷ 82
    ∷ 84 ∷ 89 ∷ 85 ∷ 73 ∷ 79 ∷ 80 ∷ 123 ∷ 125 ∷ 10 ∷ 0 ∷ 65 ∷ 83 ∷ 68 ∷ 70 ∷ 71 ∷ 72 ∷ 74 ∷ 75 ∷ 76
    ∷ 58 ∷ 34 ∷ 126 ∷ 0 ∷ 124 ∷ 90 ∷ 88 ∷ 67 ∷ 86 ∷ 66 ∷ 78 ∷ 77 ∷ 60 ∷ 62 ∷ 63 ∷ 0 ∷ 42 ∷ 0 ∷ 32
    ∷ 0 ∷ []

pub initialise_keyboard : Keyboard → Keyboard
initialise_keyboard s = record s { read_index = 0; write_index = 0; shift_pressed = false }

-- The character that the key stands for, 0 for none.
abbrev pub character_of : Keyboard → ℕ → ℕ
character_of s scancode =
    if s.shift_pressed then get_or shifted_map scancode 0 else get_or normal_map scancode 0

-- `(write_index + 1) % KEYBOARD_BUFFER_SIZE`
abbrev pub next_index : ℕ → ℕ
next_index i = (i + 1) % keyboard_buffer_size

-- From the full test on. The Boolean is whether `task_wake_keyboard_waiters` is called.
unfoldable pub store_character : ℕ → Keyboard → Keyboard × Bool
store_character c s = if next_index s.write_index == s.read_index then (s, false) else (
  record s {
    buffer = λ i. if i == s.write_index then c else s.buffer i;
    write_index = next_index s.write_index;
  },
  true,
)

unfoldable pub keyboard_interrupt : ℕ → Keyboard → Keyboard × Bool
keyboard_interrupt scancode s =
    if (scancode == 0x2A) || scancode == 0x36
    then (record s { shift_pressed = true }, false)
    else (if (scancode == 0xAA) || scancode == 0xB6
        then (record s { shift_pressed = false }, false)
        else (if leb 0x80 scancode
            then (s, false)
            else (if character_of s scancode == 0
                then (s, false)
                else store_character (character_of s scancode) s)))

unfoldable pub keyboard_getchar : Keyboard → ℕ × Keyboard
keyboard_getchar s =
    if s.read_index == s.write_index
    then (minus_one, s)
    else (s.buffer s.read_index, record s { read_index = next_index s.read_index })
