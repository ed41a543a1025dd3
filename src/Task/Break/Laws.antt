-- ===== src/Task/Break/Laws.antt =====
-- What `task_sbrk` of src/task.c promises a process about its heap.
use my_own_os.Prelude.{
  ℕ, zero, suc, ◌+◌, ◌*◌, ◌/◌, ◌%◌, ◌≤◌, ◌<◌, ◌≡◌, subst, inl, inr, ◌↔◌, some, arith, ltb,
  Bool-cases,
}
use my_own_os.Prelude.Outcome.{>>=-eq-ok, ok, ok-injective}
use my_own_os.Words.{u32_mod, add32, Moved, page_size}
use my_own_os.Paging.Frames.{Page}
use my_own_os.Paging.Frames.Search.{IsValid}
use my_own_os.Paging.Space.{Allocator, Machine, Extends, HasTables, IsMappedTo, map_user_page}
use my_own_os.Paging.Space.Laws.{Extends-refl, Extends-trans, map_user_page-Extends}
use my_own_os.Task.{Task, user_heap_limit}
use my_own_os.Task.Break.{break_target, map_pages}

-- Every address from `lo` up to `hi` has a present page in the directory.
abbrev pub AllMapped : {H : Type 0} → Machine H → ℕ → ℕ → ℕ → Type 0
AllMapped m dir lo hi = (a : ℕ) → lo ≤ a → a < hi → (page : Page) × IsMappedTo m dir a page

-- The break lies in its range, and every page below it is mapped.
pub record HeapIsValid {H : Type 0} (t : Task) (m : Machine H) : Type 0 where
  pub above_start : t.heap_start ≤ t.heap_break
  pub below_limit : t.heap_break ≤ t.heap_limit
  pub limit : t.heap_limit ≤ user_heap_limit
  pub covered : t.heap_break ≤ t.heap_mapped_end
  pub mapped_below : t.heap_mapped_end ≤ user_heap_limit
  pub aligned : t.heap_mapped_end % page_size ≡ 0
  pub mapped : AllMapped m t.page_directory t.heap_start t.heap_mapped_end

module _ {H : Type 0} where
  pub AllMapped-Extends :
      {m m' : Machine H} (dir lo hi : ℕ)
      → Extends m m'
      → AllMapped m dir lo hi
      → AllMapped m' dir lo hi
  AllMapped-Extends dir lo hi x all a l u =
      let (page, here) = all a l u in (page, x.mapped dir a page here)

  pub AllMapped-join :
      (m : Machine H) (dir lo mid hi : ℕ)
      → AllMapped m dir lo mid
      → AllMapped m dir mid hi
      → AllMapped m dir lo hi
  AllMapped-join m dir lo mid hi x y a l u = elim (Bool-cases (ltb a mid)) [
    | inl below ↦ x a l (ground arith)
    | inr above ↦ y a (ground arith) u
  ]

  IsMappedTo-page :
      {m : Machine H} (dir a b : ℕ) (page : Page)
      → b / page_size ≡ a / page_size
      → IsMappedTo m dir a page
      → IsMappedTo m dir b page
  IsMappedTo-page dir a b page e h = record {
    table = rw e h.table;
    entry = rw e h.entry;
    present = h.present;
  }

module _ {H : Type 0} (alloc : Allocator H) (dir : ℕ) where
  pub map_pages-AllMapped :
      (n address : ℕ) (m : Machine H) {m' : Machine H}
      → IsValid m.frame_map
      → address % page_size ≡ 0
      → address + n * page_size < u32_mod
      → HasTables m dir address (address + n * page_size)
      → map_pages alloc dir n address m ≡ ok m'
      → Extends m m' × AllMapped m' dir address (address + n * page_size)
  unfolding map_pages
  map_pages-AllMapped zero address m v al small there e =
      subst (λ r. Extends m r × AllMapped r dir address (address + zero * page_size))
        (ok-injective e) (Extends-refl m, λ a l u. absurd (omega arith))
  map_pages-AllMapped (suc n) address m {m'} v al small there e =
      let (m1, first, rest) = >>=-eq-ok (map_user_page alloc dir address m) _ e in
      let (x, same, (page, here)) =
        map_user_page-Extends alloc dir address m v (there address (omega arith) (omega arith))
          first in
      let next : add32 address page_size ≡ address + page_size = omega arith in
      let rest' : map_pages alloc dir n (address + page_size) m1 ≡ ok m' = rw next at rest in
      let still : HasTables m1 dir (address + page_size) (address + page_size + n * page_size) =
        λ a l u. rw same (there a (omega arith) (omega arith)) in
      let (y, later) =
        map_pages-AllMapped n (address + page_size) m1 (x.valid v) (omega arith) (omega arith) still
          rest' in
      (
        Extends-trans x y,
        λ a l u. elim (Bool-cases (ltb a (address + page_size))) [
          | inl near ↦
              (page, y.mapped dir a page (IsMappedTo-page dir address a page (ground arith) here))
          | inr far ↦ later a (ground arith) (omega arith)
        ],
      )

-- The target is the moved break, where that is an address.
pub break_target-Moved :
    (old increment r : ℕ)
    → old < u32_mod
    → increment < u32_mod
    → (break_target old increment ≡ some r) ↔ (Moved old increment r × (r < u32_mod))
unfolding break_target
break_target-Moved old increment r h l = ground arith
