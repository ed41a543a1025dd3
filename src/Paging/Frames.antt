-- ===== src/Paging/Frames.antt =====
-- src/paging.c, the bitmap of physical frames and the entries that own them: `set_frame`,
-- `clear_frame`, `test_frame`, `first_frame`, `alloc_frame`, `free_frame`. The bitmap is a list of
-- 32-bit words. `PANIC` and a failed `ASSERT` are `panic`.
pub mod Search
pub mod Alloc
use Prim.Native.Nat.{bit_and}
use my_own_os.Prelude.{
  ℕ, zero, suc, ◌+◌, ◌-◌, ◌*◌, ◌/◌, ◌%◌, ◌^◌, Bool, true, false, not, ◌&&◌, Option, none, some,
  List, ltb, ◌==◌, if◌then◌else◌, get_or, set,
}
use my_own_os.Prelude.Outcome.{Outcome, ok, panic, ◌>>=◌, ◌>>◌, assert}
use my_own_os.Words.{u32_mod, minus_one, page_size, set_bit, clear_bit}

pub record FrameMap : Type 0 where
  pub frames : List ℕ
  pub nframes : ℕ
  pub frame_word_count : ℕ

-- `page_t`, a page-table entry
pub record Page : Type 0 where
  pub present : Bool
  pub rw : Bool
  pub user : Bool
  pub accessed : Bool
  pub dirty : Bool
  pub unused : ℕ
  pub frame : ℕ

abbrev pub index_from_bit : ℕ → ℕ
index_from_bit a = a / 32

abbrev pub offset_from_bit : ℕ → ℕ
offset_from_bit a = a % 32

abbrev pub word : FrameMap → ℕ → ℕ
word m i = get_or m.frames i 0

-- `frame * 0x1000`, and back
abbrev pub frame_address : ℕ → ℕ
frame_address f = (f * page_size) % u32_mod

unfoldable pub set_frame : ℕ → FrameMap → Outcome FrameMap
set_frame frame_addr m = do
  let frame = frame_addr / page_size
  assert (ltb frame m.nframes)
  let idx = index_from_bit frame
  ok (record m { frames = set m.frames idx (set_bit (word m idx) (offset_from_bit frame)) })

pub clear_frame : ℕ → FrameMap → Outcome FrameMap
clear_frame frame_addr m = do
  let frame = frame_addr / page_size
  assert (ltb frame m.nframes)
  let idx = index_from_bit frame
  ok (record m { frames = set m.frames idx (clear_bit (word m idx) (offset_from_bit frame)) })

unfoldable pub test_frame : ℕ → FrameMap → Outcome ℕ
test_frame frame_addr m = do
  let frame = frame_addr / page_size
  assert (ltb frame m.nframes)
  ok (bit_and (word m (index_from_bit frame)) (2 ^ offset_from_bit frame))

-- The loop over `j` on the rounds left; `some` is its `return`.
unfoldable pub find_in_word : FrameMap → ℕ → ℕ → ℕ → Option ℕ
find_in_word m i zero j = none
find_in_word m i (suc k) j =
    let rest = find_in_word m i k (j + 1) in
    let frame = i * 32 + j in
    if (bit_and (word m i) (2 ^ j) == 0) && ltb frame m.nframes then some frame else rest

-- The loop over `i` on the rounds left.
unfoldable pub first_frame_from : FrameMap → ℕ → ℕ → Option ℕ
first_frame_from m zero i = none
first_frame_from m (suc k) i =
    let rest = first_frame_from m k (i + 1) in
    if not (word m i == 0xFFFFFFFF)
    then (elim (find_in_word m i 32 0) [ some frame ↦ some frame | none ↦ rest ])
    else rest

unfoldable pub first_frame : FrameMap → ℕ
first_frame m = elim (first_frame_from m m.frame_word_count 0) [
  | some frame ↦ frame
  | none ↦ minus_one
]

unfoldable pub alloc_frame : Page → Bool → Bool → FrameMap → Outcome (Page × FrameMap)
alloc_frame page is_kernel is_writeable m = if page.present then ok (page, m) else (do
  let idx = first_frame m
  assert (not (idx == minus_one))
  used ← test_frame (frame_address idx) m
  assert (used == 0)
  m' ← set_frame (frame_address idx) m
  ok (
    record page { present = true; rw = is_writeable; user = not is_kernel; frame = idx % 2 ^ 20 },
    m',
  ))

pub free_frame : Page → FrameMap → Outcome (Page × FrameMap)
free_frame page m = if not page.present then ok (page, m) else (do
  m' ← clear_frame (frame_address page.frame) m
  ok (
    record page {
      present = false;
      rw = true;
      user = false;
      accessed = false;
      dirty = false;
      frame = 0;
    },
    m',
  ))

pub paging_total_memory_kib : FrameMap → ℕ
paging_total_memory_kib m = (m.nframes * 4) % u32_mod
