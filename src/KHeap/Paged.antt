-- ===== src/KHeap/Paged.antt =====
-- The interface `Pager` of the heap, filled by src/paging.c: the kernel's directory of a machine.
use Prim.Native.Nat.{bit_or}
use my_own_os.Prelude.{
  ℕ, ◌≡◌, sym, ap, Bool, not, none, some, ◌==◌, if◌then◌else◌, Bool-cases, inl, inr,
}
use my_own_os.Prelude.Outcome.{Outcome, ok, assert, ◌>>=◌, ◌>>◌, >>=-eq-ok, ok-injective}
use my_own_os.Words.Memory.{Memory}
use my_own_os.Paging.Frames.{FrameMap, Page, alloc_frame, free_frame}
use my_own_os.Paging.Space.{Machine, update, blank_page, table_index, entry_index}
use my_own_os.KHeap.{Pager}

module _ {H : Type 0} (kernel_directory : ℕ) where
  abbrev table_of : ℕ → Machine H → ℕ
  table_of address m = m.tables kernel_directory (table_index address)

  -- The entry of an address.
  abbrev entry_of : ℕ → Machine H → Page
  entry_of address m = m.entries (table_of address m) (entry_index address)

  -- `if (dir->tables[table_idx])`
  abbrev has_table : ℕ → Machine H → Bool
  has_table address m = not (table_of address m == 0)

  -- A table that `kmalloc_ap` gave is cleared and put in the directory.
  abbrev set_table : ℕ → ℕ → ℕ → Machine H → Machine H
  set_table address table phys m = record m {
    tables = update m.tables kernel_directory (table_index address) table;
    physical = update m.physical kernel_directory (table_index address) (bit_or phys 7);
    entries = λ t j. if t == table then blank_page else m.entries t j;
  }

  abbrev with_entry : ℕ → Machine H → Page × FrameMap → Machine H
  with_entry address m r = record m {
    entries = update m.entries (table_of address m) (entry_index address) r.0;
    frame_map = r.1;
  }

  -- `alloc_frame(get_page(address, 1, kernel_directory), ...)` where the table is there.
  unfoldable pub map_page : ℕ → Bool → Bool → Memory → Machine H → Outcome (Memory × Machine H)
  map_page address is_kernel is_writeable memory m = do
    assert (has_table address m)
    r ← alloc_frame (entry_of address m) is_kernel is_writeable m.frame_map
    ok (memory, with_entry address m r)

  -- `free_frame(get_page(address, 0, kernel_directory))`, which stops where there is no table.
  unfoldable pub unmap_page : ℕ → Memory → Machine H → Outcome (Memory × Machine H)
  unmap_page address memory m = do
    assert (has_table address m)
    r ← free_frame (entry_of address m) m.frame_map
    ok (memory, with_entry address m r)

  map_page-same :
      (address : ℕ) (is_kernel is_writeable : Bool) (memory : Memory) (m : Machine H)
      {memory' : Memory} {m' : Machine H}
      → map_page address is_kernel is_writeable memory m ≡ ok (memory', m')
      → (memory' ≡ memory) × (m'.tables ≡ m.tables)
  unfolding map_page
  map_page-same address is_kernel is_writeable memory m e =
      elim (Bool-cases (table_of address m == 0)) [
        | inl missing ↦ cc (rw missing at e)
        | inr there ↦
            let (r, _, done) =
              >>=-eq-ok (alloc_frame (entry_of address m) is_kernel is_writeable m.frame_map) _
                (rw there at e) in
            let same = ok-injective done in
            (
              sym (ap (λ (q : Memory × Machine H). q.0) same),
              sym (ap (λ (q : Memory × Machine H). q.1.tables) same),
            )
      ]

  unmap_page-same :
      (address : ℕ) (memory : Memory) (m : Machine H) {memory' : Memory} {m' : Machine H}
      → unmap_page address memory m ≡ ok (memory', m')
      → memory' ≡ memory
  unfolding unmap_page
  unmap_page-same address memory m e = elim (Bool-cases (table_of address m == 0)) [
    | inl missing ↦ cc (rw missing at e)
    | inr there ↦
        let (r, _, done) =
          >>=-eq-ok (free_frame (entry_of address m) m.frame_map) _ (rw there at e) in
        sym (ap (λ (q : Memory × Machine H). q.0) (ok-injective done))
  ]

  -- The pages of the kernel's directory, for the heap.
  unfoldable pub kernel_pager : Pager (Machine H)
  unfolding map_page-same unmap_page-same
  kernel_pager = record {
    has_table = has_table;
    set_table = set_table;
    map_page = map_page;
    unmap_page = unmap_page;
    frame_of = λ address m. if has_table address m then some (entry_of address m).frame else none;
    map_page_keeps = λ address is_kernel is_writeable {m} {m'} {pages} e a h.
        ap (λ (n : Memory). n a) (map_page-same address is_kernel is_writeable m pages e).0;
    map_page_tables = λ address is_kernel is_writeable {m} {m'} {pages} e a.
        ap (λ (t : ℕ → ℕ → ℕ). not (t kernel_directory (table_index a) == 0))
          (map_page-same address is_kernel is_writeable m pages e).1;
    unmap_page_keeps = λ address {m} {m'} {pages} e a h.
        ap (λ (n : Memory). n a) (unmap_page-same address m pages e);
  }
