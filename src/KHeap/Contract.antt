-- ===== src/KHeap/Contract.antt =====
-- `contract` of src/kheap.c.
use my_own_os.Prelude.{
  ℕ, zero, suc, ◌+◌, ◌-◌, ◌*◌, ◌/◌, ◌%◌, ◌≤◌, ◌<◌, ◌≡◌, ◌≢◌, refl, sym, subst, ◌∙◌, ap, inl, inr,
  arith, lt→ltb,
}
use my_own_os.Prelude.Outcome.{ok, Returns, returned, Returns->>=, Returns-map, Returns-assert}
use my_own_os.Words.{page_size}
use my_own_os.Words.Memory.{Memory, IsApart}
use my_own_os.KHeap.{heap_min_size, Heap, World, Pager}
use my_own_os.KHeap.Resize.{kept_size, unmap_range, contract}

-- Giving back the page of a mapped address returns, and the other pages stay mapped. `IsMapped` holds
-- where the entry of the address is there and has a frame.
pub record Unmaps {P : Type 0} (pager : Pager P) (IsMapped : ℕ → P → Type 0) : Type 0 where
  pub unmaps :
      (address : ℕ) (m : Memory) (pages : P)
      → IsMapped address pages
      → (m' : Memory) × (pages' : P) × (pager.unmap_page address m pages ≡ ok (m', pages'))
  pub others :
      (address : ℕ) {m m' : Memory} {pages pages' : P}
      → pager.unmap_page address m pages ≡ ok (m', pages')
      → (a : ℕ) → a / page_size ≢ address / page_size
      → IsMapped a pages
      → IsMapped a pages'

-- The pages from `lo` up to `hi` are mapped.
abbrev pub ArePresent : {P : Type 0} → (ℕ → P → Type 0) → P → ℕ → ℕ → Type 0
ArePresent IsMapped pages lo hi = (a : ℕ) → lo ≤ a → a < hi → IsMapped a pages

module _ {P : Type 0} {pager : Pager P} {IsMapped : ℕ → P → Type 0}
    (unmaps : Unmaps pager IsMapped) where
  -- Only bytes from `lo` up to `hi` and the pages change.
  abbrev Unmapped : World P → ℕ → ℕ → World P → Type 0
  Unmapped w lo hi w' = (w'.heap ≡ w.heap) × ((x : ℕ) → IsApart lo hi x → w'.memory x ≡ w.memory x)

  unmap_range-Unmapped :
      (k address lo : ℕ) (w : World P)
      → 0 < lo
      → lo + k * page_size ≤ address + page_size
      → address % page_size ≡ 0
      → ArePresent IsMapped w.pages lo (address + page_size)
      → Returns (Unmapped w lo (address + page_size)) (unmap_range pager k address w)
  unfolding unmap_range
  unmap_range-Unmapped zero address lo w some_lo h al there = returned w (refl, λ x apart. refl)
  unmap_range-Unmapped (suc k) address lo w some_lo h al there =
      let (m', pages', e) =
        unmaps.unmaps address w.memory w.pages (there address (omega arith) (omega arith)) in
      let still : ArePresent IsMapped pages' lo (address - page_size + page_size) = λ a l u.
        unmaps.others address e a (λ same. absurd (omega arith)) (there a l (omega arith)) in
      rw e (
        Returns-map
          (unmap_range-Unmapped k (address - page_size) lo
            (record w { memory = m'; pages = pages' }) some_lo (omega arith)
            (below address (omega arith) al) still)
          λ w' p. (
            p.0,
            λ x apart. p.1 x (lower x apart) ∙ pager.unmap_page_keeps address e x (page x apart),
          ))
    where
      below :
          (address : ℕ)
          → 0 < address
          → address % page_size ≡ 0
          → (address - page_size) % page_size ≡ 0
      below address h al = omega arith

      lower :
          (x : ℕ)
          → IsApart lo (address + page_size) x
          → IsApart lo (address - page_size + page_size) x
      lower x (inl below) = inl below
      lower x (inr above) = inr (omega arith)

      page : (x : ℕ) → IsApart lo (address + page_size) x → IsApart address (address + page_size) x
      page x (inl below) = inl (omega arith)
      page x (inr above) = inr above

  pub contract-Unmapped :
      (w : World P) (new_size : ℕ)
      → new_size < w.heap.end_address - w.heap.start_address
      → kept_size new_size ≤ w.heap.end_address - w.heap.start_address
      → w.heap.start_address < w.heap.end_address
      → page_size ≤ w.heap.end_address
      → w.heap.end_address % page_size ≡ 0
      → ArePresent IsMapped w.pages (w.heap.start_address + kept_size new_size) w.heap.end_address
      → Returns
          (λ r.
            (r.0 ≡ kept_size new_size)
            × (r.1.heap ≡ record w.heap { end_address = w.heap.start_address + kept_size new_size })
            × ((x : ℕ)
                → IsApart (w.heap.start_address + kept_size new_size) w.heap.end_address x
                → r.1.memory x ≡ w.memory x))
          (contract pager new_size w)
  unfolding contract
  contract-Unmapped w new_size smaller bounded filled paged al there =
      let kept = kept_size new_size in
      let top : w.heap.end_address - page_size + page_size ≡ w.heap.end_address =
        omega (arith, paged) in
      let range =
        unmap_range-Unmapped ((w.heap.end_address - w.heap.start_address - kept) / page_size)
          (w.heap.end_address - page_size) (w.heap.start_address + kept) w (ground arith)
          (room (w.heap.end_address) w.heap.start_address kept bounded filled paged)
          (omega (arith, al, paged))
          (subst (ArePresent IsMapped w.pages (w.heap.start_address + kept)) (sym top) there) in
      Returns-assert _ (lt→ltb _ _ smaller) (
        Returns->>= range λ w1 p. returned _ (
          refl,
          ap (λ (h : Heap). record h { end_address = h.start_address + kept }) p.0,
          rw top at p.1,
        ))
    where
      room :
          (e s kept : ℕ)
          → kept ≤ e - s
          → s < e
          → page_size ≤ e
          → s + kept + (e - s - kept) / page_size * page_size ≤ e - page_size + page_size
      room e s kept h l p = omega arith

-- The arena is a whole number of pages from a page's start on, and not below the minimum.
pub record IsPaged {P : Type 0} (w : World P) : Type 0 where
  pub aligned : w.heap.start_address % page_size ≡ 0
  pub whole : (w.heap.end_address - w.heap.start_address) % page_size ≡ 0
  pub least : heap_min_size ≤ w.heap.end_address - w.heap.start_address

pub kept_size-le :
    (new_size old_size : ℕ)
    → new_size < old_size
    → old_size % page_size ≡ 0
    → heap_min_size ≤ old_size
    → kept_size new_size ≤ old_size
kept_size-le new_size old_size smaller whole least = ground arith
