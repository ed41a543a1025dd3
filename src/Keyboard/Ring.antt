-- ===== src/Keyboard/Ring.antt =====
-- The buffer of src/keyboard.c is a queue of at most 127 characters.
use my_own_os.Prelude.{
  ℕ, zero, suc, ◌+◌, ◌-◌, ◌%◌, ◌≤◌, ◌<◌, ◌≡◌, refl, ◌∙◌, ap, ap₂, true, false, List, [], ◌∷◌, ◌++◌,
  arith, ◌==◌, if◌then◌else◌, if_true, if_false, Bool-cases, length, ◌⊎◌, inl, inr,
}
use my_own_os.Words.{minus_one}
use my_own_os.Keyboard.{Keyboard, next_index, store_character, keyboard_getchar}

-- `n` characters from slot `r` on.
pub read_from : (ℕ → ℕ) → ℕ → ℕ → List ℕ
read_from b r zero = []
read_from b r (suc n) = b r ∷ read_from b (next_index r) n

-- How many characters wait.
abbrev pub count : Keyboard → ℕ
count s = (s.write_index + 128 - s.read_index) % 128

-- The characters that wait, oldest first.
abbrev pub waiting : Keyboard → List ℕ
waiting s = read_from s.buffer s.read_index (count s)

pub record IsValid (s : Keyboard) : Type 0 where
  pub read_below : s.read_index < 128
  pub write_below : s.write_index < 128

length-read_from : (b : ℕ → ℕ) (r n : ℕ) → length (read_from b r n) ≡ n
unfolding read_from
length-read_from b r zero = refl
length-read_from b r (suc n) = ap suc (length-read_from b (next_index r) n)

-- A store behind the characters that wait does not change them.
read_from-store :
    (b : ℕ → ℕ) (w c r n : ℕ)
    → r < 128
    → w < 128
    → n ≤ (w + 128 - r) % 128
    → read_from (λ i. if i == w then c else b i) r n ≡ read_from b r n
unfolding read_from
read_from-store b w c r zero hr hw h = refl
read_from-store b w c r (suc n) hr hw h =
    let apart : (r == w) ≡ false = ground arith in
    ap₂ (λ x xs. x ∷ xs) (if_false (r == w) c apart)
      (read_from-store b w c (next_index r) n (omega arith) hw (omega arith))

read_from-snoc :
    (b : ℕ → ℕ) (r n : ℕ)
    → r < 128
    → read_from b r (suc n) ≡ read_from b r n ++ (b ((r + n) % 128) ∷ [])
unfolding read_from
read_from-snoc b r zero h = let e : (r + 0) % 128 ≡ r = omega arith in rw e
read_from-snoc b r (suc n) h =
    let e : (next_index r + n) % 128 ≡ (r + suc n) % 128 = omega arith in
    ap (λ xs. b r ∷ xs) (read_from-snoc b (next_index r) n (omega arith) ∙ rw e refl)

-- For indices below 128: a character is dropped exactly when 127 characters wait, and then
-- nothing changes and nobody is woken; otherwise it goes behind those that wait, and the indices
-- stay below 128.
pub store_character-waiting :
    (c : ℕ) (s : Keyboard)
    → IsValid s
    → ((store_character c s ≡ (s, false)) × (count s ≡ 127))
      ⊎ ((s' : Keyboard) × (store_character c s ≡ (s', true))
          × (waiting s' ≡ waiting s ++ (c ∷ []))
          × IsValid s')
unfolding store_character
store_character-waiting c s v = elim (Bool-cases (next_index s.write_index == s.read_index)) [
  | inl full ↦ inl (if_true _ _ full, ground (arith, v.read_below, v.write_below))
  | inr room ↦
      let b = λ (i : ℕ). if i == s.write_index then c else s.buffer i in
      let s' = record s { buffer = b; write_index = next_index s.write_index } in
      let one_more : count s' ≡ suc (count s) = ground (arith, v.read_below, v.write_below) in
      let slot : (s.read_index + count s) % 128 ≡ s.write_index =
        omega (arith, v.read_below, v.write_below) in
      let here : (s.write_index == s.write_index) ≡ true = ground arith in
      let kept =
        read_from-store s.buffer s.write_index c s.read_index (count s) v.read_below v.write_below
          (omega arith) in
      let stored : b ((s.read_index + count s) % 128) ≡ c = rw slot (if_true _ _ here) in
      inr (
        s',
        if_false _ _ room,
        ap (read_from b s.read_index) one_more
            ∙ (read_from-snoc b s.read_index (count s) v.read_below
                ∙ ap₂ (λ xs x. xs ++ (x ∷ [])) kept stored),
        record { read_below = v.read_below; write_below = omega arith },
      )
]

-- For indices below 128: the read returns -1 and changes nothing when no character waits, and
-- otherwise it returns the oldest one and removes it and no other.
pub keyboard_getchar-waiting :
    (s : Keyboard)
    → IsValid s
    → ((keyboard_getchar s ≡ (minus_one, s)) × (waiting s ≡ []))
      ⊎ ((c : ℕ) × (s' : Keyboard) × (keyboard_getchar s ≡ (c, s'))
          × (waiting s ≡ c ∷ waiting s')
          × IsValid s')
unfolding keyboard_getchar read_from
keyboard_getchar-waiting s v = elim (Bool-cases (s.read_index == s.write_index)) [
  | inl empty ↦
      let none_left : count s ≡ 0 = ground (arith, v.read_below, v.write_below) in
      inl (if_true _ _ empty, ap (read_from s.buffer s.read_index) none_left)
  | inr some_left ↦
      let s' = record s { read_index = next_index s.read_index } in
      let one_less : count s ≡ suc (count s') = ground (arith, v.read_below, v.write_below) in
      inr (
        s.buffer s.read_index,
        s',
        if_false _ _ some_left,
        ap (read_from s.buffer s.read_index) one_less,
        record { read_below = omega arith; write_below = v.write_below },
      )
]
