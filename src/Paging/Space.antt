-- ===== src/Paging/Space.antt =====
-- src/paging.c, page directories: `get_page` finds or makes the entry of an address, and
-- `map_user_page` is the sequence that task.c and exec.c run to give a process a fresh page. The
-- heap is an `Allocator`, of which nothing is assumed. `phys` is physical memory.
pub mod Laws
use Prim.Native.Nat.{bit_or}
use my_own_os.Prelude.{
  ℕ, ◌+◌, ◌-◌, ◌*◌, ◌/◌, ◌%◌, ◌≤◌, ◌<◌, ◌≡◌, ◌≢◌, Bool, true, false, not, ◌&&◌, ◌||◌, Option, none,
  some, ltb, leb, ◌==◌, if◌then◌else◌,
}
use my_own_os.Prelude.Outcome.{Outcome, ok, panic, ◌>>=◌, ◌>>◌, assert}
use my_own_os.Words.{page_size}
use my_own_os.Paging.Frames.{FrameMap, Page, frame_address, alloc_frame}
use my_own_os.Paging.Frames.Search.{is_used, IsValid}

-- `tables dir i` and `physical dir i` are the two arrays of a `page_directory_t`, `entries t i` the
-- entries of a `page_table_t`.
pub record Machine (H : Type 0) : Type 0 where
  pub tables : ℕ → ℕ → ℕ
  pub physical : ℕ → ℕ → ℕ
  pub entries : ℕ → ℕ → Page
  pub frame_map : FrameMap
  pub phys : ℕ → ℕ
  pub heap : H

abbrev pub blank_page : Page
blank_page = record {
  present = false;
  rw = false;
  user = false;
  accessed = false;
  dirty = false;
  unused = 0;
  frame = 0;
}

-- A store into a two-dimensional array.
abbrev pub update {ℓ} : {A : Type ℓ} → (ℕ → ℕ → A) → ℕ → ℕ → A → ℕ → ℕ → A
update f i j v = λ a b. if (a == i) && (b == j) then v else f a b

abbrev pub table_index : ℕ → ℕ
table_index address = address / page_size / 1024

abbrev pub entry_index : ℕ → ℕ
entry_index address = address / page_size % 1024

-- `zero_page_physical` of process.s
abbrev pub zero_page_physical : ℕ → (ℕ → ℕ) → ℕ → ℕ
zero_page_physical base phys a = if leb base a && ltb a (base + page_size) then 0 else phys a

-- In directory `dir` the entry of `address` is `page`, and it is present.
pub record IsMappedTo {H : Type 0} (m : Machine H) (dir address : ℕ) (page : Page) : Type 0 where
  pub table : m.tables dir (table_index address) ≢ 0
  pub entry : m.entries (m.tables dir (table_index address)) (entry_index address) ≡ page
  pub present : page.present ≡ true

-- The directory has a page table for every address from `lo` up to `hi`.
abbrev pub HasTables : {H : Type 0} → Machine H → ℕ → ℕ → ℕ → Type 0
HasTables m dir lo hi = (a : ℕ) → lo ≤ a → a < hi → m.tables dir (table_index a) ≢ 0

-- No translation is lost or changed, no occupied frame is given up, and the bitmap stays sound.
pub record Extends {H : Type 0} (m m' : Machine H) : Type 0 where
  pub mapped :
      (dir address : ℕ) (page : Page)
      → IsMappedTo m dir address page
      → IsMappedTo m' dir address page
  pub used : (g : ℕ) → is_used m.frame_map g ≡ true → is_used m'.frame_map g ≡ true
  pub valid : IsValid m.frame_map → IsValid m'.frame_map

-- `kmalloc_ap` of kheap.c. The heap may grow on the way, which maps kernel pages, so it acts on the
-- machine; it returns the block, its physical address and the machine.
pub record Allocator (H : Type 0) : Type 0 where
  pub kmalloc_ap : ℕ → Machine H → Outcome (ℕ × ℕ × Machine H)

-- From `ASSERT(page != 0)` on: `alloc_frame(page, 0, 1)`, `zero_page_physical(page->frame *
-- PAGE_SIZE)`, `invalidate_page(address)`. The translation cache is not modelled.
unfoldable pub fill_page : {H : Type 0} → Option (ℕ × ℕ) → Machine H → Outcome (Machine H)
fill_page none m = panic
fill_page (some (table, index)) m = do
  (page, frame_map) ← alloc_frame (m.entries table index) false true m.frame_map
  ok (record m {
    entries = update m.entries table index page;
    frame_map = frame_map;
    phys = zero_page_physical (frame_address page.frame) m.phys;
  })

module _ {H : Type 0} (alloc : Allocator H) where
  open alloc use {kmalloc_ap}

  -- A pointer to an entry is the table and the index in it.
  unfoldable pub get_page : ℕ → Bool → ℕ → Machine H → Outcome (Option (ℕ × ℕ) × Machine H)
  get_page address make dir m = do
    assert (not (dir == 0))
    let i = table_index address
    if not (m.tables dir i == 0)
        then ok (some (m.tables dir i, entry_index address), m)
        else (if not make then ok (none, m) else (do
          (table, tmp, m) ← kmalloc_ap 4096 m
          ok (
            some (table, entry_index address),
            record m {
              tables = update m.tables dir i table;
              physical = update m.physical dir i (bit_or tmp 7);
              entries = λ t j. if t == table then blank_page else m.entries t j;
            },
          )))

  -- `get_page(address, 1, dir)` and what follows it.
  unfoldable pub map_user_page : ℕ → ℕ → Machine H → Outcome (Machine H)
  map_user_page dir address m = do (pointer, m) ← get_page address true dir m; fill_page pointer m
