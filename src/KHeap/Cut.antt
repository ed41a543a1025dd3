-- ===== src/KHeap/Cut.antt =====
-- `alloc` of src/kheap.c: the sizes of the parts that a hole is cut into.
use my_own_os.Prelude.{
  ℕ, ◌+◌, ◌-◌, ◌%◌, ◌≤◌, ◌≡◌, ◌⊎◌, inl, inr, true, [], ◌∷◌, arith, ltb, ◌==◌, if◌then◌else◌,
  Bool-cases,
}
use my_own_os.Words.{page_size}
use my_own_os.KHeap.{header_size, page_alignment_offset}
use my_own_os.KHeap.Blocks.{Blocks}
use my_own_os.KHeap.Alloc.{taken_size}

-- A length that is no block, or one that holds the tags of a hole.
abbrev pub IsHoleSize : ℕ → Type 0
IsHoleSize k = (k ≡ 0) ⊎ (20 ≤ k)

-- The hole of that length, where there is one.
abbrev pub hole_of : ℕ → Blocks
hole_of k = if k == 0 then [] else (k, true) ∷ []

pub page_alignment_offset-IsHoleSize : (header : ℕ) → IsHoleSize (page_alignment_offset header)
page_alignment_offset-IsHoleSize header = ground arith

pub page_alignment_offset-aligned :
    (header : ℕ) → (header + page_alignment_offset header + header_size) % page_size ≡ 0
page_alignment_offset-aligned header = ground arith

-- The parts of a hole of `s` bytes.
pub record Cut (s new_size leading taken : ℕ) : Type 0 where
  pub leading_hole : IsHoleSize leading
  pub enough : new_size ≤ taken
  pub inside : leading + taken ≤ s
  pub trailing_hole : IsHoleSize (s - leading - taken)

pub taken_size-Cut :
    (s new_size leading : ℕ)
    → IsHoleSize leading
    → leading + new_size ≤ s
    → Cut s new_size leading (taken_size (s - leading) new_size)
taken_size-Cut s new_size leading h le = elim (Bool-cases (ltb (s - leading - new_size) 20)) [
  | inl small ↦ rw small (record {
    leading_hole = h;
    enough = omega arith;
    inside = omega arith;
    trailing_hole = inl (omega arith);
  })
  | inr large ↦ rw large (record {
    leading_hole = h;
    enough = omega arith;
    inside = omega arith;
    trailing_hole = inr (ground arith);
  })
]
