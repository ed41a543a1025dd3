-- ===== src/Keyboard/Tests.antt =====
-- Runs of src/keyboard.c: the key A, then a read.
use my_own_os.Prelude.{ℕ, ◌≡◌, ◌⊎◌, refl, true, false, [], ◌∷◌, ◌++◌, arith}
use my_own_os.Words.{minus_one}
use my_own_os.Keyboard.{Keyboard, store_character, keyboard_interrupt, keyboard_getchar}
use my_own_os.Keyboard.Ring.{
  count, waiting, IsValid, store_character-waiting, keyboard_getchar-waiting,
}

-- One character waits in the last slot.
abbrev wrapped : Keyboard
wrapped = record { buffer = λ i. 120; read_index = 127; write_index = 0; shift_pressed = true }

wrapped-IsValid : IsValid wrapped
wrapped-IsValid = record { read_below = omega arith; write_below = omega arith }

types_a : (keyboard_interrupt 0x1E wrapped).0.buffer 0 ≡ 65
unfolding keyboard_interrupt store_character
types_a = refl

store_example :
    ((store_character 65 wrapped ≡ (wrapped, false)) × (count wrapped ≡ 127))
    ⊎ ((s' : Keyboard) × (store_character 65 wrapped ≡ (s', true))
        × (waiting s' ≡ waiting wrapped ++ (65 ∷ []))
        × IsValid s')
store_example = store_character-waiting 65 wrapped wrapped-IsValid

getchar_example :
    ((keyboard_getchar wrapped ≡ (minus_one, wrapped)) × (waiting wrapped ≡ []))
    ⊎ ((c : ℕ) × (s' : Keyboard) × (keyboard_getchar wrapped ≡ (c, s'))
        × (waiting wrapped ≡ c ∷ waiting s')
        × IsValid s')
getchar_example = keyboard_getchar-waiting wrapped wrapped-IsValid
