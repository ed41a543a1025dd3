-- ===== src/Paging/Frames/Search.antt =====
-- `first_frame` of src/paging.c returns the lowest free frame.
use my_own_os.Prelude.{
  ℕ, zero, suc, ◌+◌, ◌*◌, ◌/◌, ◌%◌, ◌^◌, ◌≤◌, ◌<◌, ◌≡◌, refl, ◌⊎◌, inl, inr, ◌∙◌, Bool, true, false,
  Option, none, some, arith, ltb, ltb→lt, ◌==◌, ==_iff, Bool-cases, Option-cases, length,
}
use my_own_os.Words.{minus_one, test_bit}
use my_own_os.Words.Bits.{bit_and-pow, test_bit_full}
use my_own_os.Paging.Frames.{FrameMap, word, find_in_word, first_frame_from, first_frame}

-- Frame `f` is occupied: its bit of the bitmap is set.
abbrev pub is_used : FrameMap → ℕ → Bool
is_used m f = test_bit (word m (f / 32)) (f % 32)

-- The frames from `lo` up to `hi` that the machine has are occupied.
abbrev pub AllUsed : FrameMap → ℕ → ℕ → Type 0
AllUsed m lo hi = (g : ℕ) → lo ≤ g → g < hi → g < m.nframes → is_used m g ≡ true

abbrev pub FirstFree : FrameMap → ℕ → ℕ → Option ℕ → Type 0
FirstFree m lo hi none = AllUsed m lo hi
FirstFree m lo hi (some f) =
    (lo ≤ f) × (f < hi) × (f < m.nframes) × (is_used m f ≡ false) × AllUsed m lo f

module _ (m : FrameMap) where
  is_used-word : (i j : ℕ) → j < 32 → is_used m (i * 32 + j) ≡ test_bit (word m i) j
  is_used-word i j h =
      let q : (i * 32 + j) / 32 ≡ i = omega arith in
      let r : (i * 32 + j) % 32 ≡ j = omega arith in rw (q, r)

  AllUsed-join : (lo mid hi : ℕ) → AllUsed m lo mid → AllUsed m mid hi → AllUsed m lo hi
  AllUsed-join lo mid hi a b g l h n = elim (Bool-cases (ltb g mid)) [
    | inl below ↦ a g l (ground arith) n
    | inr above ↦ b g (ground arith) h n
  ]

  AllUsed-one : (f : ℕ) → (f < m.nframes → is_used m f ≡ true) → AllUsed m f (f + 1)
  AllUsed-one f used g l h n = let e : f ≡ g = omega arith in rw e at (used (rw (← e) at n))

  FirstFree-join :
      (lo mid hi : ℕ) (r : Option ℕ)
      → lo ≤ mid
      → AllUsed m lo mid
      → FirstFree m mid hi r
      → FirstFree m lo hi r
  FirstFree-join lo mid hi none h a b = AllUsed-join lo mid hi a b
  FirstFree-join lo mid hi (some f) h a (l, u, n, free, b) =
      (omega arith, u, n, free, AllUsed-join lo mid f a b)

  find_in_word-FirstFree :
      (i k j : ℕ) → j + k ≡ 32 → FirstFree m (i * 32 + j) (i * 32 + 32) (find_in_word m i k j)
  unfolding find_in_word
  find_in_word-FirstFree i zero j h = λ g l u n. absurd (omega arith)
  find_in_word-FirstFree i (suc k) j h =
      let lo = i * 32 + j in
      let next : i * 32 + (j + 1) ≡ lo + 1 = omega arith in
      let rest = rw next at (find_in_word-FirstFree i k (j + 1) (omega arith)) in
      let skip = λ (used : lo < m.nframes → is_used m lo ≡ true).
        FirstFree-join lo (lo + 1) (i * 32 + 32) (find_in_word m i k (j + 1)) (omega arith)
          (AllUsed-one lo used) rest in
      let bit = is_used-word i j (omega arith) in
      elim (Bool-cases (test_bit (word m i) j)) [
        | inl t ↦ rw (bit_and-pow (word m i) j, t) (skip (λ _. bit ∙ t))
        | inr f ↦ elim (Bool-cases (ltb lo m.nframes)) [
          | inl inside ↦
              rw (bit_and-pow (word m i) j, f, inside)
                (
                  omega arith,
                  omega arith,
                  ltb→lt _ _ inside,
                  bit ∙ f,
                  λ g l u n. absurd (omega arith),
                )
          | inr outside ↦
              rw (bit_and-pow (word m i) j, f, outside) (skip (λ n. absurd (ground arith)))
        ]
      ]

  full_word-AllUsed : (i : ℕ) → word m i ≡ 0xFFFFFFFF → AllUsed m (i * 32) (i * 32 + 32)
  full_word-AllUsed i e g l u n =
      let q : g / 32 ≡ i = omega arith in rw (q, e) (test_bit_full (g % 32) (omega arith))

  first_frame_from-FirstFree :
      (k i : ℕ) → FirstFree m (i * 32) ((i + k) * 32) (first_frame_from m k i)
  unfolding first_frame_from
  first_frame_from-FirstFree zero i = λ g l u n. absurd (omega arith)
  first_frame_from-FirstFree (suc k) i =
      let next : (i + 1) * 32 ≡ i * 32 + 32 = omega arith in
      let end : (i + 1 + k) * 32 ≡ (i + suc k) * 32 = omega arith in
      let rest = rw (next, end) at (first_frame_from-FirstFree k (i + 1)) in
      let skip = λ (used : AllUsed m (i * 32) (i * 32 + 32)).
        FirstFree-join (i * 32) (i * 32 + 32) ((i + suc k) * 32) (first_frame_from m k (i + 1))
          (omega arith) used rest in
      let zero_off : i * 32 + 0 ≡ i * 32 = omega arith in
      let here = rw zero_off at (find_in_word-FirstFree i 32 0 refl) in
      elim (Bool-cases (word m i == 0xFFFFFFFF)) [
        | inl full ↦ rw full (skip (full_word-AllUsed i ((==_iff _ _).0 full)))
        | inr part ↦ rw part (elim (Option-cases (find_in_word m i 32 0)) [
          | inl e ↦ rw e (skip (rw e at here))
          | inr (f, e) ↦
              let (l, u, n, free, all) = rw e at here in rw e (l, omega arith, n, free, all)
        ])
      ]

-- The bitmap has a word for every frame, and frame numbers fit a page-table entry.
pub record IsValid (m : FrameMap) : Type 0 where
  pub words : length m.frames ≡ m.frame_word_count
  pub covers : m.nframes ≤ m.frame_word_count * 32
  pub small : m.nframes ≤ 2 ^ 20

-- On a valid bitmap the search returns -1 when every frame of the machine is occupied, and
-- otherwise the lowest free frame.
pub first_frame-FirstFree :
    {m : FrameMap}
    → IsValid m
    → ((first_frame m ≡ minus_one) × AllUsed m 0 m.nframes)
      ⊎ ((first_frame m < m.nframes)
          × (is_used m (first_frame m) ≡ false)
          × AllUsed m 0 (first_frame m))
unfolding first_frame
first_frame-FirstFree {m} v =
    let e : 0 * 32 ≡ 0 = omega arith in
    let found = rw e at (first_frame_from-FirstFree m m.frame_word_count 0) in
    elim (Option-cases (first_frame_from m m.frame_word_count 0)) [
      | inl e ↦
          rw (e, first_frame)
            (inl (refl, λ g l u n. (rw e at found) g l (omega (arith, v.covers)) n))
      | inr (f, e) ↦
          let (l, u, n, free, all) = rw e at found in rw (e, first_frame) (inr (n, free, all))
    ]
