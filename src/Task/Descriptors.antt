-- ===== src/Task/Descriptors.antt =====
-- src/task.c, the descriptor table of the current task, and the working directory.
pub mod Laws
pub mod Close
pub mod Seek
use my_own_os.Prelude.{
  ℕ, zero, suc, ◌+◌, ◌-◌, ◌≤◌, ◌<◌, Bool, true, false, not, ◌&&◌, ◌||◌, Option, none, some, List,
  [], ◌∷◌, ltb, leb, on_some, ◌==◌, if◌then◌else◌, get_or, set,
}
use my_own_os.Prelude.Outcome.{Outcome, ok, panic, ◌>>=◌, ◌>>◌, assert}
use my_own_os.Words.{minus_one, sub32, is_negative}
use my_own_os.Fs.{is_directory}
use my_own_os.Task.{
  Kind, Descriptor, blank_descriptor, State, Task, Kernel, FsCall, opens, closes, current_task,
  store_task, max_file_descriptors,
}

abbrev pub is_free : Descriptor → Bool
is_free d = elim d.kind [ Kind.free ↦ true | _ ↦ false ]

abbrev pub is_node : Descriptor → Bool
is_node d = elim d.kind [ Kind.node ↦ true | _ ↦ false ]

-- `descriptors[fd]`
abbrev pub descriptor_at : Task → ℕ → Descriptor
descriptor_at t fd = get_or t.descriptors fd blank_descriptor

abbrev pub set_descriptor : ℕ → Descriptor → Task → Task
set_descriptor fd d t = record t { descriptors = set t.descriptors fd d }

unfoldable pub initialise_standard_descriptors : Task → Task
initialise_standard_descriptors t = record t {
  descriptors =
      record blank_descriptor { kind = Kind.keyboard }
      ∷ record blank_descriptor { kind = Kind.console }
      ∷ record blank_descriptor { kind = Kind.console }
      ∷ blank_descriptor
      ∷ blank_descriptor
      ∷ blank_descriptor
      ∷ blank_descriptor
      ∷ blank_descriptor
      ∷ blank_descriptor
      ∷ blank_descriptor
      ∷ blank_descriptor
      ∷ blank_descriptor
      ∷ blank_descriptor
      ∷ blank_descriptor
      ∷ blank_descriptor
      ∷ blank_descriptor
      ∷ [];
}

-- The loop of `task_open_descriptor`, on the rounds left: the index at which it stops.
unfoldable pub first_free : Task → ℕ → ℕ → Option ℕ
first_free t zero fd = none
first_free t (suc k) fd =
    let rest = first_free t k (fd + 1) in if is_free (descriptor_at t fd) then some fd else rest

-- `offset` is an `s32int`; `none` is `return -1`.
unfoldable pub seek_target : ℕ → ℕ → Option ℕ
seek_target base offset =
    if not (is_negative offset)
    then (if ltb 0x7FFFFFFF base || ltb (0x7FFFFFFF - base) offset
        then none
        else some (base + offset))
    else (let magnitude = sub32 0 offset in
        if ltb base magnitude then none else some (base - magnitude))

module _ {H : Type 0} where
  -- The result is the descriptor, `none` for a null pointer. The `int` test `fd < 0` is on the bits.
  unfoldable pub task_get_descriptor : ℕ → Kernel H → Option Descriptor
  task_get_descriptor fd k = on_some (current_task k) none λ t.
      if is_negative fd || leb max_file_descriptors fd
      then none
      else (if is_free (descriptor_at t fd) then none else some (descriptor_at t fd))

  abbrev pub log : FsCall → Kernel H → Kernel H
  log c k = record k { calls = c ∷ k.calls }

  unfoldable pub task_open_descriptor : ℕ → ℕ → Kernel H → ℕ × Kernel H
  unfolding first_free
  task_open_descriptor node flags k =
      on_some (current_task k) (minus_one, k)
        λ t.
          if node == 0
          then (minus_one, k)
          else on_some (first_free t 13 3) (minus_one, k)
              λ fd. (
                fd,
                log (opens node) (
                    store_task
                      (set_descriptor fd
                        (record { kind = Kind.node; node = node; offset = 0; flags = flags }) t)
                      k),
              )

  unfoldable pub task_close_descriptor : ℕ → Kernel H → ℕ × Kernel H
  task_close_descriptor fd k =
      if is_negative fd || ltb fd 3 || leb max_file_descriptors fd
      then (minus_one, k)
      else (on_some (current_task k) (minus_one, k)
          λ t.
            let d = descriptor_at t fd in
            if is_free d then (minus_one, k) else (
              0,
              record (store_task (set_descriptor fd blank_descriptor t) k) {
                calls = if is_node d then closes d.node ∷ k.calls else k.calls;
              },
            ))

  -- The base that the origin selects: `SEEK_SET`, `SEEK_CUR`, `SEEK_END`.
  unfoldable pub seek_base : Kernel H → Descriptor → ℕ → Option ℕ
  seek_base k d origin =
      if origin == 0
      then some 0
      else (if origin == 1
          then some d.offset
          else (if origin == 2 then some (k.nodes d.node).length else none))

  unfoldable pub task_seek_descriptor : ℕ → ℕ → ℕ → Kernel H → ℕ × Kernel H
  unfolding seek_base seek_target
  task_seek_descriptor fd offset origin k =
      on_some (current_task k) (minus_one, k)
        λ t.
          on_some (task_get_descriptor fd k) (minus_one, k)
            λ d.
              if not (is_node d) || d.node == 0
              then (minus_one, k)
              else on_some (seek_base k d origin) (minus_one, k)
                  λ base.
                    on_some (seek_target base offset) (minus_one, k)
                      λ result.
                        (result, store_task (set_descriptor fd (record d { offset = result }) t) k)

  pub task_get_working_directory : Kernel H → ℕ
  task_get_working_directory k = on_some (current_task k) 0 λ t. t.working_directory

  pub task_set_working_directory : ℕ → Kernel H → Outcome (Kernel H)
  task_set_working_directory directory k = on_some (current_task k) panic λ t. (do
    assert (not (directory == 0) && is_directory (k.nodes directory))
    ok (store_task (record t { working_directory = directory }) k))
