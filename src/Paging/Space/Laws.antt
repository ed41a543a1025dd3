-- ===== src/Paging/Space/Laws.antt =====
-- `get_page` and the mapping of a user page: what a process gets, and that nobody loses anything.
use my_own_os.Prelude.{
  ℕ, ◌≡◌, ◌≢◌, refl, sym, subst, ◌∙◌, ap, inl, inr, true, false, Option, some, arith, ◌==◌,
  Bool-cases,
}
use my_own_os.Prelude.Outcome.{>>=-eq-ok, ok, ok-injective}
use my_own_os.Paging.Frames.{FrameMap, Page, alloc_frame}
use my_own_os.Paging.Frames.Search.{IsValid}
use my_own_os.Paging.Frames.Alloc.{Present, alloc_frame-Present}
use my_own_os.Paging.Space.{
  Allocator, Machine, Extends, IsMappedTo, update, table_index, entry_index, get_page, fill_page,
  map_user_page,
}

module _ {H : Type 0} where
  pub Extends-refl : (m : Machine H) → Extends m m
  Extends-refl m = record { mapped = λ d a p h. h; used = λ g h. h; valid = λ v. v }

  pub Extends-trans : {a b c : Machine H} → Extends a b → Extends b c → Extends a c
  Extends-trans x y = record {
    mapped = λ d a p h. y.mapped d a p (x.mapped d a p h);
    used = λ g h. y.used g (x.used g h);
    valid = λ v. y.valid (x.valid v);
  }

module _ {H : Type 0} (alloc : Allocator H) where
  -- Where the page table is there, the entry is found in it and the heap is not called.
  get_page_there :
      (address dir : ℕ) (m : Machine H) {p : Option (ℕ × ℕ)} {m' : Machine H}
      → m.tables dir (table_index address) ≢ 0
      → get_page alloc address true dir m ≡ ok (p, m')
      → (p ≡ some (m.tables dir (table_index address), entry_index address)) × (m' ≡ m)
  unfolding get_page
  get_page_there address dir m {p} {m'} there e = elim (Bool-cases (dir == 0)) [
    | inl null ↦ cc (rw null at e)
    | inr good ↦
        let present : (m.tables dir (table_index address) == 0) ≡ false = ground (arith, there) in
        let same = ok-injective (rw (good, present) at e) in
        (
          sym (ap (λ (r : Option (ℕ × ℕ) × Machine H). r.0) same),
          sym (ap (λ (r : Option (ℕ × ℕ) × Machine H). r.1) same),
        )
  ]

module _ {H : Type 0} (m : Machine H) (t j : ℕ) {page : Page} {f' : FrameMap} (phys : ℕ → ℕ)
    (p : Present (m.entries t j) page m.frame_map f') where
  abbrev filled_in : Machine H
  filled_in = record m { entries = update m.entries t j page; frame_map = f'; phys = phys }

  filled_in-Extends : Extends m filled_in
  filled_in-Extends = record {
    mapped =
        λ d a pg old. record { table = old.table; entry = keep d a pg old; present = old.present };
    used = p.used;
    valid = λ _. p.valid;
  }
    where
      keep :
          (d a : ℕ) (pg : Page)
          → IsMappedTo m d a pg
          → filled_in.entries (m.tables d (table_index a)) (entry_index a) ≡ pg
      keep d a pg old = elim (Bool-cases (m.tables d (table_index a) == t)) [
        | inl same_t ↦ elim (Bool-cases (entry_index a == j)) [
          | inl same_j ↦
              let here : m.entries t j ≡ pg =
                let et : m.tables d (table_index a) ≡ t = ground arith in
                let ej : entry_index a ≡ j = ground arith in rw (et, ej) at old.entry in
              rw (same_t, same_j) (p.kept (ap (λ r. r.present) here ∙ old.present) ∙ here)
          | inr other ↦ rw (same_t, other) old.entry
        ]
        | inr other ↦ rw other old.entry
      ]

module _ {H : Type 0} (dir address : ℕ) where
  fill_page-Extends :
      (m : Machine H) {m' : Machine H}
      → IsValid m.frame_map
      → m.tables dir (table_index address) ≢ 0
      → fill_page (some (m.tables dir (table_index address), entry_index address)) m ≡ ok m'
      → Extends m m' × (m'.tables ≡ m.tables) × ((page : Page) × IsMappedTo m' dir address page)
  unfolding fill_page
  fill_page-Extends m {m'} v table e =
      let t = m.tables dir (table_index address) in
      let j = entry_index address in
      let ((page, f'), a, done) =
        >>=-eq-ok (alloc_frame (m.entries t j) false true m.frame_map) _ e in
      let p = alloc_frame-Present (m.entries t j) m.frame_map v a in
      subst
        (λ r. Extends m r × (r.tables ≡ m.tables) × ((page : Page) × IsMappedTo r dir address page))
        (ok-injective done)
        (
          filled_in-Extends m t j _ p,
          refl,
          (page, record { table = table; entry = ground arith; present = p.present }),
        )

module _ {H : Type 0} (alloc : Allocator H) (dir address : ℕ) where
  -- On a valid bitmap, where the address has a page table, when mapping a user page returns, the
  -- address has a present entry in the directory, no translation of any directory is changed, no
  -- occupied frame is given up, and the tables of all directories are the same.
  pub map_user_page-Extends :
      (m : Machine H) {m' : Machine H}
      → IsValid m.frame_map
      → m.tables dir (table_index address) ≢ 0
      → map_user_page alloc dir address m ≡ ok m'
      → Extends m m' × (m'.tables ≡ m.tables) × ((page : Page) × IsMappedTo m' dir address page)
  unfolding map_user_page
  map_user_page-Extends m {m'} v there e =
      let ((p, m1), got, rest) = >>=-eq-ok (get_page alloc address true dir m) _ e in
      let (found, same) = get_page_there alloc address dir m there got in
      let rest' : fill_page p m1 ≡ ok m' = rest in
      fill_page-Extends dir address m v there (rw (found, same) at rest')
