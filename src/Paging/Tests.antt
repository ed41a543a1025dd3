-- ===== src/Paging/Tests.antt =====
-- Runs of src/paging.c on a machine of 40 frames, of which the lowest 33 are occupied, and on a
-- directory 1 that has one table, 8, for the addresses from 0x40000000 on.
use my_own_os.Prelude.{
  ℕ, ◌<◌, ◌≡◌, ◌⊎◌, refl, true, false, ◌&&◌, [], ◌∷◌, arith, ◌==◌, if◌then◌else◌,
}
use my_own_os.Prelude.Outcome.{ok, panic}
use my_own_os.Words.{minus_one}
use my_own_os.Paging.Frames.{
  FrameMap, Page, frame_address, set_frame, test_frame, first_frame, first_frame_from, find_in_word,
  alloc_frame, free_frame,
}
use my_own_os.Paging.Frames.Search.{is_used, AllUsed, IsValid, first_frame-FirstFree}
use my_own_os.Paging.Frames.Alloc.{
  Allocated, Freed, alloc_frame-Allocated, free_frame-Freed, free_frame-alloc_frame,
}
use my_own_os.Paging.Space.{
  Allocator, Machine, Extends, IsMappedTo, blank_page, update, zero_page_physical, fill_page,
  get_page, map_user_page,
}
use my_own_os.Paging.Space.Laws.{map_user_page-Extends}

abbrev pub frames_33 : FrameMap
frames_33 = record { frames = 0xFFFFFFFF ∷ 1 ∷ []; nframes = 40; frame_word_count = 2 }

pub frames_33-IsValid : IsValid frames_33
frames_33-IsValid = record { words = refl; covers = omega arith; small = omega arith }

abbrev frames_34 : FrameMap
frames_34 = record { frames = 0xFFFFFFFF ∷ 3 ∷ []; nframes = 40; frame_word_count = 2 }

abbrev page_33 : Page
page_33 = record blank_page { present = true; rw = true; user = true; frame = 33 }

frames_34-IsValid : IsValid frames_34
frames_34-IsValid = record { words = refl; covers = omega arith; small = omega arith }

-- A heap that has nothing left.
abbrev pub exhausted : Allocator (Unit {0})
exhausted = record { kmalloc_ap = λ n m. panic }

abbrev pub machine : Machine (Unit {0})
machine = record {
  tables = λ d i. if (d == 1) && (i == 256) then 8 else 0;
  physical = λ d i. 0;
  entries = λ t j. blank_page;
  frame_map = frames_33;
  phys = λ a. 255;
  heap = tt;
}

abbrev pub machine_after : Machine (Unit {0})
machine_after = record machine {
  entries = update machine.entries 8 0 page_33;
  frame_map = frames_34;
  phys = zero_page_physical (frame_address 33) machine.phys;
}

first_frame_example :
    ((first_frame frames_33 ≡ minus_one) × AllUsed frames_33 0 40)
    ⊎ ((first_frame frames_33 < 40)
        × (is_used frames_33 (first_frame frames_33) ≡ false)
        × AllUsed frames_33 0 (first_frame frames_33))
first_frame_example = first_frame-FirstFree frames_33-IsValid

alloc_frame_example :
    ((alloc_frame blank_page false true frames_33 ≡ panic) × AllUsed frames_33 0 40)
    ⊎ ((page' : Page) × (m' : FrameMap) × (alloc_frame blank_page false true frames_33
          ≡ ok (page', m'))
        × Allocated frames_33 page' m')
alloc_frame_example = alloc_frame-Allocated frames_33-IsValid blank_page false true refl

free_frame_example :
    (page' : Page) × (m' : FrameMap) × (free_frame page_33 frames_34 ≡ ok (page', m'))
    × Freed frames_34 33 page' m'
free_frame_example = free_frame-Freed frames_34-IsValid page_33 refl (omega arith)

allocates_33 : alloc_frame blank_page false true frames_33 ≡ ok (page_33, frames_34)
unfolding alloc_frame first_frame first_frame_from find_in_word test_frame set_frame
allocates_33 = refl

free_alloc_example :
    (page'' : Page) × (m'' : FrameMap) × (free_frame page_33 frames_34 ≡ ok (page'', m''))
    × (page''.present ≡ false)
    × ((g : ℕ) → is_used m'' g ≡ is_used frames_33 g)
free_alloc_example =
    free_frame-alloc_frame frames_33-IsValid blank_page false true refl allocates_33

maps_33 : map_user_page exhausted 1 0x40000000 machine ≡ ok machine_after
unfolding map_user_page get_page fill_page alloc_frame first_frame first_frame_from find_in_word
    test_frame set_frame
maps_33 = refl

map_user_page_example :
    Extends machine machine_after
    × (machine_after.tables ≡ machine.tables)
    × ((page : Page) × IsMappedTo machine_after 1 0x40000000 page)
map_user_page_example =
    map_user_page-Extends exhausted 1 0x40000000 machine frames_33-IsValid
      (λ e. absurd (omega arith)) maps_33
