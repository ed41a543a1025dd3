-- ===== src/Task/Descriptors/Seek.antt =====
-- `task_seek_descriptor` of src/task.c: an offset is an `s32int`, and so is the result.
use my_own_os.Prelude.{
  ℕ, ◌≤◌, ◌<◌, ◌≡◌, ◌≢◌, refl, ◌⊎◌, inl, inr, ◌↔◌, true, false, none, some, arith, ◌==◌, ==_refl,
  ==_false, if_true, if_false, ◌∙◌, Option-cases, length,
}
use my_own_os.Words.{u32_mod, minus_one, is_negative, Moved}
use my_own_os.Task.{Descriptor, Task, Kernel, store_task, max_file_descriptors}
use my_own_os.Task.Queue.{Running, Running-current_task, Running-store_task}
use my_own_os.Task.Descriptors.{
  is_free, is_node, set_descriptor, task_get_descriptor, seek_base, seek_target,
  task_seek_descriptor,
}
use my_own_os.Task.Descriptors.Laws.{task_get_descriptor-set}

-- From a base that an `int` can hold, the target is the moved base, if an `int` can hold that.
pub seek_target-Moved :
    (base offset r : ℕ)
    → base ≤ 0x7FFFFFFF
    → offset < u32_mod
    → (seek_target base offset ≡ some r) ↔ (Moved base offset r × (r ≤ 0x7FFFFFFF))
unfolding seek_target
seek_target-Moved base offset r h l = ground arith

-- A seek that succeeds: the descriptor has the new offset, and the others are as before.
pub record Sought {H : Type 0} (k k' : Kernel H) (fd : ℕ) (d : Descriptor) (r : ℕ) : Type 0 where
  pub read_back : task_get_descriptor fd k' ≡ some (record d { offset = r })
  pub others : (g : ℕ) → g ≢ fd → task_get_descriptor g k' ≡ task_get_descriptor g k
  pub same_calls : k'.calls ≡ k.calls

-- `fd` is an open node descriptor of the running task, and `origin` selects `base`.
pub record Seekable {H : Type 0} (k : Kernel H) (t : Task) (fd : ℕ) (d : Descriptor)
    (origin base : ℕ) : Type 0 where
  pub running : Running k t
  pub table : length t.descriptors ≡ max_file_descriptors
  pub small : fd < max_file_descriptors
  pub open_at : task_get_descriptor fd k ≡ some d
  pub is_node_kind : is_node d ≡ true
  pub not_null : d.node ≢ 0
  pub base_of : seek_base k d origin ≡ some base

module _ {H : Type 0} {k : Kernel H} {t : Task} {fd : ℕ} {d : Descriptor} {origin base : ℕ}
    (s : Seekable k t fd d origin base) (offset : ℕ) where
  node-not_free : is_free d ≡ false
  node-not_free = ground (arith, s.is_node_kind)

  seek_none :
      seek_target base offset ≡ none → task_seek_descriptor fd offset origin k ≡ (minus_one, k)
  unfolding task_seek_descriptor
  seek_none e =
      rw
        (
          Running-current_task s.running,
          s.open_at,
          s.is_node_kind,
          ==_false s.not_null,
          s.base_of,
          e,
        )
        refl

  pub seek_some :
      (r : ℕ)
      → seek_target base offset ≡ some r
      → (k' : Kernel H) × (task_seek_descriptor fd offset origin k ≡ (r, k')) × Sought k k' fd d r
  unfolding task_seek_descriptor store_task
  seek_some r e =
      let d' : Descriptor = record d { offset = r } in
      let t' = set_descriptor fd d' t in
      let k' = store_task t' k in
      let r' = Running-store_task t' refl s.running in
      let table = λ (g : ℕ).
        task_get_descriptor-set fd g d' s.running r' (omega (arith, s.table, s.small)) s.small in
      (
        k',
        rw
            (
              Running-current_task s.running,
              s.open_at,
              s.is_node_kind,
              ==_false s.not_null,
              s.base_of,
              e,
            )
            refl,
        record {
          read_back =
              table fd
              ∙ (if_true (fd == fd) _ (==_refl fd) ∙ if_false (is_free d') _ node-not_free);
          others = λ g ne. table g ∙ if_false (g == fd) _ (==_false ne);
          same_calls = refl;
        },
      )

  -- For an open node descriptor and an origin whose base an int can hold, a seek by any 32-bit
  -- signed offset either fails and changes nothing, when the moved base is negative or more than
  -- an int can hold, or it returns the moved base and stores it in that descriptor alone.
  pub task_seek_descriptor-Moved :
      base ≤ 0x7FFFFFFF
      → offset < u32_mod
      → ((task_seek_descriptor fd offset origin k ≡ (minus_one, k))
          × ((r : ℕ) → Moved base offset r → ¬ (r ≤ 0x7FFFFFFF)))
        ⊎ ((r : ℕ) × (k' : Kernel H) × (task_seek_descriptor fd offset origin k ≡ (r, k'))
            × Moved base offset r
            × (r ≤ 0x7FFFFFFF)
            × Sought k k' fd d r)
  task_seek_descriptor-Moved h l = elim (Option-cases (seek_target base offset)) [
    | inl e ↦ inl (
      seek_none e,
      λ r moved small. cc (e, (seek_target-Moved base offset r h l).1 (moved, small)),
    )
    | inr (r, e) ↦
        let (k', done, sought) = seek_some r e in
        let (moved, small) = (seek_target-Moved base offset r h l).0 e in
        inr (r, k', done, moved, small, sought)
  ]

  -- For an open node descriptor and a base and an offset of 32 bits, a negative offset whose
  -- moved base is above what an int can hold returns a negative number, and moves the descriptor
  -- all the same.
  pub task_seek_descriptor_negative :
      (r : ℕ)
      → base < u32_mod
      → offset < u32_mod
      → is_negative offset ≡ true
      → Moved base offset r
      → 0x7FFFFFFF < r
      → (k' : Kernel H) × (task_seek_descriptor fd offset origin k ≡ (r, k'))
        × (is_negative r ≡ true)
        × Sought k k' fd d r
  unfolding seek_target
  task_seek_descriptor_negative r h l neg moved big =
      let (k', e, sought) = seek_some r (ground arith) in (k', e, ground arith, sought)
