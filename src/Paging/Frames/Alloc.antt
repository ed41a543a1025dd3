-- ===== src/Paging/Frames/Alloc.antt =====
-- `alloc_frame` and `free_frame` of src/paging.c: whose frame is whose.
use Prim.Native.Nat.{bit_and}
use my_own_os.Prelude.{
  ℕ, ◌/◌, ◌%◌, ◌^◌, ◌<◌, ◌≡◌, refl, sym, subst, ◌≢◌, ◌⊎◌, inl, inr, ◌∙◌, Bool, true, false, not,
  ◌&&◌, ◌||◌, arith, lt→ltb, if◌then◌else◌, ◌==◌, Bool-cases, length, set, length-set, if_true,
  get_or-set_self, get_or-set_ne,
}
use my_own_os.Prelude.Outcome.{ok, panic, ok-injective}
use my_own_os.Words.{minus_one, page_size, set_bit, clear_bit, test_bit}
use my_own_os.Words.Bits.{bit_and-pow, test_bit-set_bit, test_bit-clear_bit}
use my_own_os.Paging.Frames.{
  FrameMap, Page, word, frame_address, set_frame, clear_frame, test_frame, first_frame, alloc_frame,
  free_frame,
}
use my_own_os.Paging.Frames.Search.{is_used, AllUsed, IsValid, first_frame-FirstFree}

-- The bitmap with one word rewritten.
abbrev with_word : FrameMap → ℕ → ℕ → FrameMap
with_word m i w = record m { frames = set m.frames i w }

module _ {m : FrameMap} (v : IsValid m) (f : ℕ) (h : f < m.nframes) where
  address-frame : frame_address f / page_size ≡ f
  address-frame = omega (arith, v.small)

  is_used-with_word :
      (w g : ℕ)
      → is_used (with_word m (f / 32) w) g
        ≡ (if g / 32 == f / 32 then test_bit w (g % 32) else is_used m g)
  is_used-with_word w g = elim (Bool-cases (g / 32 == f / 32)) [
    | inl same ↦
        let e : g / 32 ≡ f / 32 = ground arith in
        let inside : f / 32 < length m.frames = omega (arith, v.covers, v.words) in
        rw (same, e, get_or-set_self m.frames (f / 32) w 0 inside)
    | inr apart ↦
        let ne : f / 32 ≢ g / 32 = ground arith in
        rw (apart, get_or-set_ne m.frames (f / 32) (g / 32) w 0 ne)
  ]

  with_word-IsValid : (w : ℕ) → IsValid (with_word m (f / 32) w)
  with_word-IsValid w = record {
    words = length-set m.frames (f / 32) w ∙ v.words;
    covers = v.covers;
    small = v.small;
  }

  abbrev set_map : FrameMap
  set_map = with_word m (f / 32) (set_bit (word m (f / 32)) (f % 32))

  abbrev clear_map : FrameMap
  clear_map = with_word m (f / 32) (clear_bit (word m (f / 32)) (f % 32))

  is_used-set_map : (g : ℕ) → is_used set_map g ≡ (is_used m g || f == g)
  is_used-set_map g =
      rw is_used-with_word (ground (arith, test_bit-set_bit (word m (f / 32)) (f % 32) (g % 32)))

  is_used-clear_map : (g : ℕ) → is_used clear_map g ≡ (is_used m g && not (f == g))
  is_used-clear_map g = rw is_used-with_word (
      ground
        (arith, test_bit-clear_bit (word m (f / 32)) (f % 32) (g % 32) (omega arith) (omega arith)))

  set_frame-ok : set_frame (frame_address f) m ≡ ok set_map
  unfolding set_frame
  set_frame-ok = rw (address-frame, lt→ltb f m.nframes h)

  clear_frame-ok : clear_frame (frame_address f) m ≡ ok clear_map
  unfolding clear_frame
  clear_frame-ok = rw (address-frame, lt→ltb f m.nframes h)

  test_frame-ok : test_frame (frame_address f) m ≡ ok (bit_and (word m (f / 32)) (2 ^ (f % 32)))
  unfolding test_frame
  test_frame-ok = rw (address-frame, lt→ltb f m.nframes h)

-- What `alloc_frame` gives an entry that is not present.
pub record Allocated (m : FrameMap) (page : Page) (m' : FrameMap) : Type 0 where
  pub present : page.present ≡ true
  pub was_free : is_used m page.frame ≡ false
  pub inside : page.frame < m.nframes
  pub lowest : AllUsed m 0 page.frame
  pub marks : (g : ℕ) → is_used m' g ≡ (is_used m g || page.frame == g)
  pub valid : IsValid m'
  pub same_size : m'.nframes ≡ m.nframes

-- The entry that `alloc_frame` fills in.
abbrev filled : Page → Bool → Bool → ℕ → Page
filled page is_kernel is_writeable f = record page {
  present = true;
  rw = is_writeable;
  user = not is_kernel;
  frame = f;
}

module _ {m : FrameMap} (v : IsValid m) (page : Page) (is_kernel is_writeable : Bool) where
  -- On a valid bitmap, for an entry that is not present: either every frame is occupied and the
  -- kernel stops, or the entry gets the lowest free frame, that frame alone becomes occupied, and
  -- the bitmap stays valid.
  pub alloc_frame-Allocated :
      page.present ≡ false
      → ((alloc_frame page is_kernel is_writeable m ≡ panic) × AllUsed m 0 m.nframes)
        ⊎ ((page' : Page) × (m' : FrameMap) × (alloc_frame page is_kernel is_writeable m
              ≡ ok (page', m'))
            × Allocated m page' m')
  unfolding alloc_frame
  alloc_frame-Allocated absent = elim (first_frame-FirstFree v) [
    | inl (e, all) ↦ inl (rw (absent, e) refl, all)
    | inr (h, free, all) ↦
        let f = first_frame m in
        let found : (f == minus_one) ≡ false = ground (arith, v.small) in
        let clear : (bit_and (word m (f / 32)) (2 ^ (f % 32)) == 0) ≡ true =
          rw (bit_and-pow (word m (f / 32)) (f % 32), free) refl in
        let fits : f % 2 ^ 20 ≡ f = omega (arith, v.small) in
        inr (
          filled page is_kernel is_writeable f,
          set_map v f h,
          rw (absent, found, test_frame-ok v f h, clear, set_frame-ok v f h, fits) refl,
          record {
            present = refl;
            was_free = free;
            inside = h;
            lowest = all;
            marks = is_used-set_map v f h;
            valid = with_word-IsValid v f h _;
            same_size = refl;
          },
        )
  ]

  pub Allocated-alloc_frame :
      {page' : Page} {m' : FrameMap}
      → page.present ≡ false
      → alloc_frame page is_kernel is_writeable m ≡ ok (page', m')
      → Allocated m page' m'
  Allocated-alloc_frame absent done = elim (alloc_frame-Allocated absent) [
    | inl (e, all) ↦ cc
    | inr (p, m1, e, a) ↦ subst (λ r. Allocated m r.0 r.1) (ok-injective (sym e ∙ done)) a
  ]

-- What `alloc_frame(page, 0, 1)` makes of an entry, present or not.
pub record Present (old page : Page) (f f' : FrameMap) : Type 0 where
  pub kept : old.present ≡ true → page ≡ old
  pub present : page.present ≡ true
  pub used : (g : ℕ) → is_used f g ≡ true → is_used f' g ≡ true
  pub valid : IsValid f'

pub alloc_frame-Present :
    (old : Page) (f : FrameMap) {page : Page} {f' : FrameMap}
    → IsValid f
    → alloc_frame old false true f ≡ ok (page, f')
    → Present old page f f'
unfolding alloc_frame
alloc_frame-Present old f {page} {f'} v e = elim (Bool-cases old.present) [
  | inl here ↦
      subst (λ r. Present old r.0 f r.1) (ok-injective (sym (if_true old.present _ here) ∙ e))
        (record { kept = λ _. refl; present = here; used = λ g h. h; valid = v })
  | inr absent ↦
      let a = Allocated-alloc_frame v old false true absent e in
      record {
        kept = λ here. cc;
        present = a.present;
        used = λ g h. rw (a.marks g, h) refl;
        valid = a.valid;
      }
]

-- What `free_frame` does to a present entry whose frame is `f`.
pub record Freed (m : FrameMap) (f : ℕ) (page : Page) (m' : FrameMap) : Type 0 where
  pub absent : page.present ≡ false
  pub clears : (g : ℕ) → is_used m' g ≡ (is_used m g && not (f == g))
  pub valid : IsValid m'
  pub same_size : m'.nframes ≡ m.nframes

abbrev emptied : Page → Page
emptied page = record page {
  present = false;
  rw = true;
  user = false;
  accessed = false;
  dirty = false;
  frame = 0;
}

restored :
    (m : FrameMap) (f g : ℕ)
    → is_used m f ≡ false
    → ((is_used m g || f == g) && not (f == g)) ≡ is_used m g
restored m f g free = elim (Bool-cases (f == g)) [
  | inl same ↦
      let e : f ≡ g = ground arith in
      let unused : is_used m g ≡ false = rw e at free in rw (same, unused)
  | inr apart ↦ rw apart (ground arith)
]

module _ {m : FrameMap} (v : IsValid m) (page : Page) where
  -- On a valid bitmap, freeing a present entry whose frame the machine has succeeds, empties the
  -- entry, and makes its frame and no other free.
  pub free_frame-Freed :
      page.present ≡ true
      → page.frame < m.nframes
      → (page' : Page) × (m' : FrameMap) × (free_frame page m ≡ ok (page', m'))
        × Freed m page.frame page' m'
  unfolding free_frame
  free_frame-Freed here h = (
    emptied page,
    clear_map v page.frame h,
    rw (here, clear_frame-ok v page.frame h) refl,
    record {
      absent = refl;
      clears = is_used-clear_map v page.frame h;
      valid = with_word-IsValid v page.frame h _;
      same_size = refl;
    },
  )

module _ {m : FrameMap} (v : IsValid m) (page : Page) where
  -- On a valid bitmap, when allocating a frame for an entry that is not present returns, freeing
  -- the entry succeeds and leaves every frame as it was before.
  pub free_frame-alloc_frame :
      (is_kernel is_writeable : Bool) {page' : Page} {m' : FrameMap}
      → page.present ≡ false
      → alloc_frame page is_kernel is_writeable m ≡ ok (page', m')
      → (page'' : Page) × (m'' : FrameMap) × (free_frame page' m' ≡ ok (page'', m''))
        × (page''.present ≡ false)
        × ((g : ℕ) → is_used m'' g ≡ is_used m g)
  free_frame-alloc_frame is_kernel is_writeable {page'} {m'} absent done =
      let a = Allocated-alloc_frame v page is_kernel is_writeable absent done in
      let inside : page'.frame < m'.nframes = omega (arith, a.inside, a.same_size) in
      let (page'', m'', e, freed) = free_frame-Freed a.valid page' a.present inside in
      (
        page'',
        m'',
        e,
        freed.absent,
        λ g. freed.clears g ∙ (rw (a.marks g) (restored m page'.frame g a.was_free)),
      )
