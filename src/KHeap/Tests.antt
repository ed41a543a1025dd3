-- ===== src/KHeap/Tests.antt =====
-- Runs of src/kheap.c on small arenas, and inputs at which its theorems apply.
use my_own_os.Prelude.{
  ℕ, ◌+◌, ◌≤◌, ◌≡◌, refl, sym, ◌∙◌, ap, inl, inr, Bool, Bool-cases, if_false, ◌==◌, if◌then◌else◌,
  ◌<◌, ◌/◌, true, false, Option, on_some, none, some, [], ◌∷◌, arith,
}
use my_own_os.Prelude.Outcome.{Outcome, ok, panic, ◌>>=◌, Returns, ok-injective}
use my_own_os.Words.Memory.{Memory, IsApart, store32}
use my_own_os.OrderedArray.{OrderedArray}
use my_own_os.KHeap.{header_less_than, World, Pager, write_tags}
use my_own_os.KHeap.Blocks.{Blocks}
use my_own_os.KHeap.Accepts.{IsHeap, heap_validate-ok}
use my_own_os.KHeap.Validate.{heap_validate}
use my_own_os.KHeap.Resize.{make_table, map_range}
use my_own_os.KHeap.Alloc.{attempt, alloc}
use my_own_os.KHeap.Free.{free}
use my_own_os.KHeap.Search.{IsBestFit, attempt-IsBestFit}
use my_own_os.KHeap.Total.{IsAllocated, alloc-IsAllocated}
use my_own_os.KHeap.Release.{free-IsHeap}
use my_own_os.KHeap.Contract.{Unmaps}
use my_own_os.KHeap.Paged.{kernel_pager}
use my_own_os.Paging.Tests.{machine}
use my_own_os.KHeap.Shrink.{free-shrinks}
use my_own_os.KHeap.Create.{Allocator, kmalloc_int, create_heap}
use my_own_os.KHeap.Create.First.{create_heap-IsHeap}
use my_own_os.KHeap.Create.Bump.{IsStart, kmalloc_int-bump}

abbrev no_memory : Memory
no_memory = λ x. 0

-- An allocated block, a hole, and an allocated block.
abbrev three_memory : Memory
three_memory =
    write_tags (write_tags (write_tags no_memory 0x1000 60 false) 0x103C 70 true) 0x1082 80 false

abbrev one_entry : ℕ → OrderedArray Memory ℕ
one_entry header = record {
  array = some (header ∷ 0 ∷ 0 ∷ 0 ∷ []);
  size = 1;
  max_size = 4;
  less_than = some header_less_than;
  owns_storage = false;
}

abbrev arena : {P : Type 0} → P → Memory → ℕ → ℕ → ℕ → ℕ → World P
arena pages m header start end_address max_address = record {
  memory = m;
  pages = pages;
  heap = record {
    index = one_entry header;
    start_address = start;
    end_address = end_address;
    max_address = max_address;
    supervisor = true;
    readonly = false;
  };
}

abbrev three : World (Unit {0})
three = arena tt three_memory 0x103C 0x1000 0x10D2 0x1000000

abbrev three_blocks : Blocks
three_blocks = (60, false) ∷ (70, true) ∷ (80, false) ∷ []

three-IsHeap : IsHeap three three_blocks
unfolding write_tags store32
three-IsHeap = record {
  filled = omega arith;
  within = omega arith;
  small = omega arith;
  tiles = (
    record {
      big = omega arith;
      magic = refl;
      hole = refl;
      size = refl;
      foot_magic = refl;
      foot_header = refl;
    },
    (
      record {
        big = omega arith;
        magic = refl;
        hole = refl;
        size = refl;
        foot_magic = refl;
        foot_header = refl;
      },
      (
        record {
          big = omega arith;
          magic = refl;
          hole = refl;
          size = refl;
          foot_magic = refl;
          foot_header = refl;
        },
        refl,
      ),
    ),
  );
  index = record {
    backing = (0x103C ∷ 0 ∷ 0 ∷ 0 ∷ [], refl, refl);
    compares = refl;
    fits = omega arith;
    small = omega arith;
  };
  bag = (λ x. refl, refl);
  sorted = (tt, tt);
}

heap_validate-ok_example : heap_validate three ≡ ok tt
heap_validate-ok_example = heap_validate-ok three-IsHeap

-- Pages that are always there.
abbrev flat_pager : Pager (Unit {0})
flat_pager = record {
  has_table = λ address pages. true;
  set_table = λ address table phys pages. pages;
  map_page = λ address is_kernel is_writeable m pages. ok (m, pages);
  unmap_page = λ address m pages. ok (m, pages);
  frame_of = λ address pages. some (address / 0x1000);
  map_page_keeps = λ address is_kernel is_writeable e a h.
      ap (λ (r : Memory × Unit {0}). r.0 a) (sym (ok-injective e));
  map_page_tables = λ address is_kernel is_writeable e a. refl;
  unmap_page_keeps = λ address e a h. ap (λ (r : Memory × Unit {0}). r.0 a) (sym (ok-injective e));
}

abbrev no_table : World (Unit {0}) → Outcome (Option (ℕ × World (Unit {0})))
no_table w = panic

attempt-IsBestFit_example :
    Returns (IsBestFit three-IsHeap 30 false) (attempt flat_pager no_table 10 false three)
unfolding write_tags store32
attempt-IsBestFit_example =
    attempt-IsBestFit flat_pager no_table three-IsHeap (omega arith) 10 false 0 (omega arith)
      (omega arith) (omega arith) refl

alloc-IsAllocated_example : Returns (IsAllocated 100) (alloc flat_pager 2 100 false three)
unfolding map_range make_table
alloc-IsAllocated_example =
    alloc-IsAllocated flat_pager three-IsHeap 100 0 three (omega arith) (omega arith) (omega arith)
      (omega arith) (λ a l u. refl) refl

free-IsHeap_example :
    Returns
      (λ (w : World (Unit {0})).
        IsHeap w ((130, true) ∷ (80, false) ∷ [])
        × ((x : ℕ) → IsApart 0x1000 0x1082 x → w.memory x ≡ three.memory x))
      (free flat_pager 0x100C three)
free-IsHeap_example =
    free-IsHeap [] 60 ((70, true) ∷ (80, false) ∷ []) three-IsHeap flat_pager (80, false) []
      (omega arith) refl

-- An allocated block below a hole up to the end of an arena of whole pages.
abbrev two_memory : Memory
two_memory = write_tags (write_tags no_memory 0x1000 64 false) 0x1040 0x70FC0 true

abbrev two : World (ℕ → Bool)
two = arena (λ p. true) two_memory 0x1040 0x1000 0x72000 0x1000000

two-IsHeap : IsHeap two ((64, false) ∷ (0x70FC0, true) ∷ [])
unfolding write_tags store32
two-IsHeap = record {
  filled = omega arith;
  within = omega arith;
  small = omega arith;
  tiles = (
    record {
      big = omega arith;
      magic = refl;
      hole = refl;
      size = refl;
      foot_magic = refl;
      foot_header = refl;
    },
    (
      record {
        big = omega arith;
        magic = refl;
        hole = refl;
        size = refl;
        foot_magic = refl;
        foot_header = refl;
      },
      refl,
    ),
  );
  index = record {
    backing = (0x1040 ∷ 0 ∷ 0 ∷ 0 ∷ [], refl, refl);
    compares = refl;
    fits = omega arith;
    small = omega arith;
  };
  bag = (λ x. refl, refl);
  sorted = (tt, tt);
}

-- The state is which pages have a frame; giving back one that has none stops the kernel.
abbrev without : ℕ → (ℕ → Bool) → ℕ → Bool
without page pages p = if p == page then false else pages p

abbrev give_back : ℕ → Memory → (ℕ → Bool) → Outcome (Memory × (ℕ → Bool))
give_back address m pages =
    if pages (address / 0x1000) then ok (m, without (address / 0x1000) pages) else panic

given_back :
    (address : ℕ) (m : Memory) (pages : ℕ → Bool) {m' : Memory} {pages' : ℕ → Bool}
    → give_back address m pages ≡ ok (m', pages')
    → (m' ≡ m) × (pages' ≡ without (address / 0x1000) pages)
given_back address m pages {m'} {pages'} e = elim (Bool-cases (pages (address / 0x1000))) [
  | inl there ↦
      let same = ok-injective (rw there at e) in
      (
        sym (ap (λ (r : Memory × (ℕ → Bool)). r.0) same),
        sym (ap (λ (r : Memory × (ℕ → Bool)). r.1) same),
      )
  | inr gone ↦ cc (rw gone at e)
]

abbrev frames_pager : Pager (ℕ → Bool)
frames_pager = record {
  has_table = λ address pages. true;
  set_table = λ address table phys pages. pages;
  map_page = λ address is_kernel is_writeable m pages.
      ok (m, λ p. if p == address / 0x1000 then true else pages p);
  unmap_page = give_back;
  frame_of = λ address pages. if pages (address / 0x1000) then some (address / 0x1000) else none;
  map_page_keeps = λ address is_kernel is_writeable e a h.
      ap (λ (r : Memory × (ℕ → Bool)). r.0 a) (sym (ok-injective e));
  map_page_tables = λ address is_kernel is_writeable e a. refl;
  unmap_page_keeps =
      λ address {m} {m'} {pages} e a h. ap (λ (n : Memory). n a) (given_back address m pages e).0;
}

abbrev HasFrame : ℕ → (ℕ → Bool) → Type 0
HasFrame a pages = pages (a / 0x1000) ≡ true

frames_pager-Unmaps : Unmaps frames_pager HasFrame
frames_pager-Unmaps = record {
  unmaps = λ address m pages h. (m, without (address / 0x1000) pages, rw h refl);
  others = λ address {m} {m'} {pages} e a ne h.
      let other : (a / 0x1000 == address / 0x1000) ≡ false = ground (arith, ne) in
      ap (λ (q : ℕ → Bool). q (a / 0x1000)) (given_back address m pages e).1
      ∙ (if_false _ _ other ∙ h);
}

free-shrinks_example :
    Returns
      (λ (w : World (ℕ → Bool)).
        IsHeap w ((0x70000, true) ∷ [])
        × (w.heap.end_address ≡ 0x71000)
        × ((x : ℕ) → x < 0x1000 → w.memory x ≡ two.memory x))
      (free frames_pager 0x100C two)
free-shrinks_example =
    free-shrinks [] 64 ((0x70FC0, true) ∷ []) two-IsHeap frames_pager HasFrame frames_pager-Unmaps
      (λ a l u. refl) (omega arith) refl
      (record { aligned = refl; whole = refl; least = omega arith }) (omega arith)

-- An address without a page table: the block that the heap gives becomes its table.
makes_table :
    (make_table
        (kernel_pager 1)
        (λ w. ok (some (0x40005000, w)))
        0x50000000
        (arena machine three_memory 0x103C 0x1000 0x10D2 0x1000000)
      >>= λ r. ok (on_some r 0 λ w. w.pages.tables 1 320))
    ≡ ok 0x40005000
unfolding make_table kernel_pager
makes_table = refl

abbrev early : Allocator (Unit {0})
early = record { memory = no_memory; pages = tt; placement_address = 0x100123; kheap = none }

create_heap-IsHeap_example :
    Returns
      (λ r.
        (w : World (Unit {0})) × (k' : Allocator (Unit {0})) × (r ≡ some (w, k'))
        × (k'.memory ≡ w.memory)
        × (0x100147 ≤ k'.placement_address)
        × IsHeap w ((0x7F000, true) ∷ [])
        × (w.heap.start_address ≡ 0x281000)
        × (w.heap.end_address ≡ 0x300000)
        × (w.heap.index.max_size ≡ 0x20000))
      (create_heap flat_pager 1 0x201000 0x300000 0x400000 false false early)
create_heap-IsHeap_example =
    create_heap-IsHeap flat_pager 1 0x201000 0x300000 0x400000 false false
      (record {
        start_aligned = refl;
        end_aligned = refl;
        max_aligned = inl refl;
        some_start = omega arith;
        room = omega arith;
        within = omega arith;
        small = omega arith;
      })
      early refl (omega arith)

kmalloc_int-bump_example :
    (start : ℕ) × (kmalloc_int flat_pager 2 36 1 true early
      ≡ ok (some (start, some start, record early { placement_address = start + 36 })))
    × IsStart 0x100123 1 start
kmalloc_int-bump_example = kmalloc_int-bump flat_pager 2 36 1 true early refl (omega arith)
