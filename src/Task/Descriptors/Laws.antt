-- ===== src/Task/Descriptors/Laws.antt =====
-- The descriptor table of src/task.c: which slot an open takes, what a close gives back, where a
-- seek ends.
use my_own_os.Prelude.{
  ℕ, zero, suc, ◌+◌, ◌≤◌, ◌<◌, ◌≡◌, ◌≢◌, refl, ◌∙◌, ◌⊎◌, inl, inr, true, false, ◌||◌, Option, none,
  some, ◌∷◌, arith, leb, ◌==◌, if◌then◌else◌, if_true, if_false, ==_refl, ==_false, Bool-cases,
  Option-cases, length, get_or-set_self, get_or-set_ne,
}
use my_own_os.Words.{minus_one, is_negative}
use my_own_os.Task.{
  Kind, Descriptor, blank_descriptor, Task, Kernel, opens, store_task, max_file_descriptors,
}
use my_own_os.Task.Queue.{Running, Running-current_task, Running-store_task}
use my_own_os.Task.Descriptors.{
  is_free, descriptor_at, set_descriptor, first_free, log, task_get_descriptor,
  task_open_descriptor,
}

-- The slots from `lo` up to `hi` are taken.
abbrev pub AllTaken : Task → ℕ → ℕ → Type 0
AllTaken t lo hi = (g : ℕ) → lo ≤ g → g < hi → is_free (descriptor_at t g) ≡ false

abbrev FirstFree : Task → ℕ → ℕ → Option ℕ → Type 0
FirstFree t lo hi none = AllTaken t lo hi
FirstFree t lo hi (some fd) =
    (lo ≤ fd) × (fd < hi) × (is_free (descriptor_at t fd) ≡ true) × AllTaken t lo fd

AllTaken-suc :
    (t : Task) (lo hi : ℕ)
    → is_free (descriptor_at t lo) ≡ false
    → AllTaken t (lo + 1) hi
    → AllTaken t lo hi
AllTaken-suc t lo hi h a g l u = elim (Bool-cases (lo == g)) [
  | inl here ↦ let e : lo ≡ g = ground arith in rw e at h
  | inr later ↦ a g (ground arith) u
]

FirstFree-suc :
    (t : Task) (lo hi : ℕ) (r : Option ℕ)
    → is_free (descriptor_at t lo) ≡ false
    → FirstFree t (lo + 1) hi r
    → FirstFree t lo hi r
FirstFree-suc t lo hi none h a = AllTaken-suc t lo hi h a
FirstFree-suc t lo hi (some fd) h (l, u, free, a) = (omega arith, u, free, AllTaken-suc t lo fd h a)

first_free-FirstFree : (t : Task) (k fd : ℕ) → FirstFree t fd (fd + k) (first_free t k fd)
unfolding first_free
first_free-FirstFree t zero fd = λ g l u. absurd (omega arith)
first_free-FirstFree t (suc k) fd =
    let e : fd + 1 + k ≡ fd + suc k = omega arith in
    let rest = rw e at (first_free-FirstFree t k (fd + 1)) in
    elim (Bool-cases (is_free (descriptor_at t fd))) [
      | inl free ↦ rw free (omega arith, omega arith, free, λ g l u. absurd (omega arith))
      | inr taken ↦ rw taken (FirstFree-suc t fd (fd + suc k) (first_free t k (fd + 1)) taken rest)
    ]

module _ {H : Type 0} where
  pub task_get_descriptor-Running :
      {k : Kernel H} {t : Task} (g : ℕ)
      → Running k t
      → task_get_descriptor g k ≡ (
          if is_negative g || leb max_file_descriptors g
          then none
          else (if is_free (descriptor_at t g) then none else some (descriptor_at t g)))
  unfolding task_get_descriptor
  task_get_descriptor-Running g r = rw (Running-current_task r)

  -- The table after a store into slot `fd`.
  pub task_get_descriptor-set :
      {k k' : Kernel H} {t : Task} (fd g : ℕ) (d : Descriptor)
      → Running k t
      → Running k' (set_descriptor fd d t)
      → fd < length t.descriptors
      → fd < max_file_descriptors
      → task_get_descriptor g k'
        ≡ (if g == fd then (if is_free d then none else some d) else task_get_descriptor g k)
  task_get_descriptor-set {t} fd g d r r' room small = elim (Bool-cases (g == fd)) [
    | inl same ↦
        let e : g ≡ fd = ground arith in
        let outside : (is_negative fd || leb max_file_descriptors fd) ≡ false = ground arith in
        rw (
          task_get_descriptor-Running g r',
          same,
          e,
          outside,
          get_or-set_self t.descriptors fd d blank_descriptor room,
        )
    | inr other ↦
        let ne : fd ≢ g = ground arith in
        rw (
          task_get_descriptor-Running g r',
          task_get_descriptor-Running g r,
          other,
          get_or-set_ne t.descriptors fd g d blank_descriptor ne,
        )
  ]

  -- What a successful open of `node` does.
  pub record Opened (k k' : Kernel H) (t : Task) (node flags fd : ℕ) : Type 0 where
    pub in_table : (3 ≤ fd) × (fd < max_file_descriptors)
    pub was_free : is_free (descriptor_at t fd) ≡ true
    pub lowest : AllTaken t 3 fd
    pub read_back :
        task_get_descriptor fd k'
        ≡ some (record { kind = Kind.node; node = node; offset = 0; flags = flags })
    pub others : (g : ℕ) → g ≢ fd → task_get_descriptor g k' ≡ task_get_descriptor g k
    pub notified : k'.calls ≡ opens node ∷ k.calls
    pub running :
        Running k' (
          set_descriptor fd (record { kind = Kind.node; node = node; offset = 0; flags = flags }) t)

  -- For a running task with a table of 16 descriptors and a node that is not null: either all
  -- slots from 3 on are taken, and the open returns -1 and changes nothing, or it takes the
  -- lowest free slot from 3 on, which then reads back the node at offset 0, changes no other
  -- slot, and tells the node's driver.
  pub task_open_descriptor-Opened :
      {k : Kernel H} {t : Task} (node flags : ℕ)
      → Running k t
      → length t.descriptors ≡ max_file_descriptors
      → node ≢ 0
      → ((task_open_descriptor node flags k ≡ (minus_one, k)) × AllTaken t 3 max_file_descriptors)
        ⊎ ((fd : ℕ) × (k' : Kernel H) × (task_open_descriptor node flags k ≡ (fd, k'))
            × Opened k k' t node flags fd)
  unfolding task_open_descriptor store_task
  task_open_descriptor-Opened {k} {t} node flags r len good =
      let found = first_free-FirstFree t 13 3 in
      let not_null : (node == 0) ≡ false = ground arith in
      elim (Option-cases (first_free t 13 3)) [
        | inl none_left ↦
            inl (rw (Running-current_task r, not_null, none_left) refl, rw none_left at found)
        | inr (fd, e) ↦
            let (l, u, free, taken) = rw e at found in
            let d : Descriptor = record {
              kind = Kind.node;
              node = node;
              offset = 0;
              flags = flags;
            } in
            let k' = log (opens node) (store_task (set_descriptor fd d t) k) in
            let stored = Running-store_task (set_descriptor fd d t) refl r in
            let r' : Running k' (set_descriptor fd d t) = record {
              current = stored.current;
              found = stored.found;
            } in
            let table = λ (g : ℕ). task_get_descriptor-set fd g d r r' (omega arith) u in
            inr (
              fd,
              k',
              rw (Running-current_task r, not_null, e) refl,
              record {
                in_table = (l, u);
                was_free = free;
                lowest = taken;
                read_back = table fd ∙ if_true (fd == fd) _ (==_refl fd);
                others = λ g ne. table g ∙ if_false (g == fd) _ (==_false ne);
                notified = refl;
                running = r';
              },
            )
      ]
