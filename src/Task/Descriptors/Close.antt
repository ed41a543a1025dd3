-- ===== src/Task/Descriptors/Close.antt =====
-- `task_close_descriptor` and `task_seek_descriptor` of src/task.c.
use my_own_os.Prelude.{
  ℕ, ◌≤◌, ◌<◌, ◌≡◌, ◌≢◌, refl, sym, subst, ◌∙◌, ap, ap₂, inl, inr, Bool, true, false, ◌||◌, Option,
  none, some, ◌∷◌, arith, ltb, leb, ◌==◌, if◌then◌else◌, if_true, if_false, Bool-cases, length,
  length-set, get_or-set_self,
}
use my_own_os.Words.{minus_one, is_negative}
use my_own_os.Task.{
  Kind, Descriptor, blank_descriptor, Task, Kernel, opens, closes, store_task, max_file_descriptors,
}
use my_own_os.Task.Queue.{Running, Running-current_task, Running-store_task}
use my_own_os.Task.Descriptors.{
  is_free, is_node, descriptor_at, set_descriptor, task_get_descriptor, task_close_descriptor,
  task_open_descriptor,
}
use my_own_os.Task.Descriptors.Laws.{
  Opened, task_open_descriptor-Opened, task_get_descriptor-Running, task_get_descriptor-set,
}

either_none : (b : Bool) → ◌≡◌ {A = Option Descriptor} (if b then none else none) none
either_none true = refl
either_none false = refl

module _ {H : Type 0} where
  -- For a running task with a table of 16 descriptors, closing a slot from 3 on that is taken
  -- returns 0, makes that slot and no other free, and tells the node's driver exactly when the
  -- slot held a node.
  pub task_close_descriptor-frees :
      {k : Kernel H} {t : Task} (fd : ℕ)
      → Running k t
      → length t.descriptors ≡ max_file_descriptors
      → 3 ≤ fd
      → fd < max_file_descriptors
      → is_free (descriptor_at t fd) ≡ false
      → (k' : Kernel H) × (task_close_descriptor fd k ≡ (0, k'))
        × ((g : ℕ) → task_get_descriptor g k' ≡ (if g == fd then none else task_get_descriptor g k))
        × (k'.calls ≡ (
            if is_node (descriptor_at t fd)
            then closes (descriptor_at t fd).node ∷ k.calls
            else k.calls))
  unfolding task_close_descriptor store_task
  task_close_descriptor-frees {k} {t} fd r len lo hi taken =
      let d = descriptor_at t fd in
      let t' = set_descriptor fd blank_descriptor t in
      let calls' = if is_node d then closes d.node ∷ k.calls else k.calls in
      let k' = record (store_task t' k) { calls = calls' } in
      let low : ltb fd 3 ≡ false = ground arith in
      let neg : is_negative fd ≡ false = ground arith in
      let high : leb max_file_descriptors fd ≡ false = ground arith in
      let stored = Running-store_task t' refl r in
      let r' : Running k' t' = record { current = stored.current; found = stored.found } in
      (
        k',
        rw (neg, low, high, Running-current_task r, taken) refl,
        (λ g. task_get_descriptor-set fd g blank_descriptor r r' (omega arith) hi),
        refl,
      )

  close-Opened :
      {k k' : Kernel H} {t : Task} {node flags fd : ℕ}
      → length t.descriptors ≡ max_file_descriptors
      → Running k t
      → Opened k k' t node flags fd
      → (k'' : Kernel H) × (task_close_descriptor fd k' ≡ (0, k''))
        × ((g : ℕ) → task_get_descriptor g k'' ≡ task_get_descriptor g k)
        × (k''.calls ≡ closes node ∷ opens node ∷ k.calls)
  close-Opened {k} {k'} {t} {node} {flags} {fd} len r o =
      let d : Descriptor = record { kind = Kind.node; node = node; offset = 0; flags = flags } in
      let here : descriptor_at (set_descriptor fd d t) fd ≡ d =
        get_or-set_self t.descriptors fd d blank_descriptor (omega (arith, o.in_table)) in
      let (k'', e, table, told) =
        task_close_descriptor-frees fd o.running (length-set t.descriptors fd d ∙ len) o.in_table.0
          o.in_table.1 (ap is_free here) in
      let was_none : task_get_descriptor fd k ≡ none =
        task_get_descriptor-Running fd r
        ∙ (ap
              (λ b.
                if is_negative fd || leb max_file_descriptors fd
                then none
                else (if b then none else some (descriptor_at t fd)))
              o.was_free
            ∙ either_none (is_negative fd || leb max_file_descriptors fd)) in
      (
        k'',
        e,
        (λ g. elim (Bool-cases (g == fd)) [
          | inl same ↦
              let same_fd : g ≡ fd = ground arith in
              table g
              ∙ (if_true (g == fd) _ same
                  ∙ (sym was_none ∙ ap (λ x. task_get_descriptor x k) (sym same_fd)))
          | inr other ↦ table g ∙ (if_false (g == fd) _ other ∙ o.others g (ground arith))
        ]),
        told ∙ ap₂ (λ x cs. if is_node x then closes x.node ∷ cs else cs) here o.notified,
      )

  -- For a running task with a table of 16 descriptors and a node that is not null: when opening
  -- the node returns a descriptor other than -1, closing that descriptor succeeds, every
  -- descriptor then reads as before the open, and the node's driver was told of one open and one
  -- close.
  pub task_close_descriptor-task_open_descriptor :
      {k k' : Kernel H} {t : Task} {node fd : ℕ} (flags : ℕ)
      → length t.descriptors ≡ max_file_descriptors
      → Running k t
      → node ≢ 0
      → fd ≢ minus_one
      → task_open_descriptor node flags k ≡ (fd, k')
      → (k'' : Kernel H) × (task_close_descriptor fd k' ≡ (0, k''))
        × ((g : ℕ) → task_get_descriptor g k'' ≡ task_get_descriptor g k)
        × (k''.calls ≡ closes node ∷ opens node ∷ k.calls)
  task_close_descriptor-task_open_descriptor {k} {k'} {t} {node} {fd} flags len r good ne e =
      elim (task_open_descriptor-Opened node flags r len good) [
        | inl (stuck, _) ↦ absurd (ne (ap (λ (x : ℕ × Kernel H). x.0) (sym e ∙ stuck)))
        | inr (fd1, k1, e1, o) ↦
            let same = sym e1 ∙ e in
            close-Opened len r (subst (λ (x : ℕ × Kernel H). Opened k x.1 t node flags x.0) same o)
      ]
