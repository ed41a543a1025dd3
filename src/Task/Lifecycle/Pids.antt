-- ===== src/Task/Lifecycle/Pids.antt =====
-- Process identifiers of src/task.c: `next_pid` only grows, so no two tasks share one.
use my_own_os.Prelude.{
  ℕ, ◌+◌, ◌<◌, ◌≡◌, ◌≢◌, refl, sym, subst, ◌∙◌, ap, inl, inr, false, Option, none, some, List, [],
  ◌∷◌, ◌++◌, arith, ◌==◌, if◌then◌else◌, if_false, Bool-cases,
}
use my_own_os.Task.{Task, Kernel, find_task}
use my_own_os.Task.Lifecycle.{unlink_task}

-- No two tasks share an identifier, and all are below the next one.
abbrev pub UniqueIds : List Task → Type 0
UniqueIds [] = Unit {0}
UniqueIds (t ∷ ts) = (find_task t.id ts ≡ none) × UniqueIds ts

abbrev pub AllBelow : ℕ → List Task → Type 0
AllBelow n [] = Unit {0}
AllBelow n (t ∷ ts) = (t.id < n) × AllBelow n ts

pub record PidsAreValid {H : Type 0} (k : Kernel H) : Type 0 where
  pub unique : UniqueIds k.ready_queue
  pub below : AllBelow k.next_pid k.ready_queue

find_task-AllBelow : (n : ℕ) (ts : List Task) → AllBelow n ts → find_task n ts ≡ none
unfolding find_task
find_task-AllBelow n [] b = refl
find_task-AllBelow n (t ∷ ts) b =
    let other : (t.id == n) ≡ false = ground (arith, b.0) in
    if_false _ _ other ∙ find_task-AllBelow n ts b.1

AllBelow-suc : (n : ℕ) (ts : List Task) → AllBelow n ts → AllBelow (n + 1) ts
AllBelow-suc n [] b = tt
AllBelow-suc n (t ∷ ts) b = (omega (arith, b.0), AllBelow-suc n ts b.1)

AllBelow-snoc :
    (n : ℕ) (ts : List Task) (u : Task) → AllBelow n ts → u.id < n → AllBelow n (ts ++ (u ∷ []))
AllBelow-snoc n [] u b h = (h, tt)
AllBelow-snoc n (t ∷ ts) u b h = (b.0, AllBelow-snoc n ts u b.1 h)

find_task-snoc :
    (id : ℕ) (ts : List Task) (u : Task)
    → find_task id ts ≡ none
    → u.id ≢ id
    → find_task id (ts ++ (u ∷ [])) ≡ none
unfolding find_task
find_task-snoc id [] u h ne = let e : (u.id == id) ≡ false = ground arith in if_false _ _ e
find_task-snoc id (t ∷ ts) u h ne = elim (Bool-cases (t.id == id)) [
  | inl here ↦ let bad : some t ≡ none = rw here at h in cc
  | inr later ↦ rw later (find_task-snoc id ts u (rw later at h) ne)
]

UniqueIds-snoc :
    (ts : List Task) (u : Task) → UniqueIds ts → AllBelow u.id ts → UniqueIds (ts ++ (u ∷ []))
unfolding find_task
UniqueIds-snoc [] u unique below = (refl, tt)
UniqueIds-snoc (t ∷ ts) u unique below = (
  find_task-snoc t.id ts u unique.0 (omega (arith, below.0)),
  UniqueIds-snoc ts u unique.1 below.1,
)

-- After the task is unlinked it is not found, and the others are found as before.
pub find_task-unlink_task_self :
    (id : ℕ) (ts : List Task) → UniqueIds ts → find_task id (unlink_task id ts) ≡ none
unfolding find_task unlink_task
find_task-unlink_task_self id [] unique = refl
find_task-unlink_task_self id (t ∷ ts) unique = elim (Bool-cases (t.id == id)) [
  | inl here ↦
      let e : t.id ≡ id = ground arith in rw here (subst (λ i. find_task i ts ≡ none) e unique.0)
  | inr later ↦ rw later (if_false _ _ later ∙ find_task-unlink_task_self id ts unique.1)
]

pub find_task-unlink_task_ne :
    (id other : ℕ) (ts : List Task)
    → id ≢ other
    → find_task other (unlink_task id ts) ≡ find_task other ts
unfolding find_task unlink_task
find_task-unlink_task_ne id other [] ne = refl
find_task-unlink_task_ne id other (t ∷ ts) ne = elim (Bool-cases (t.id == id)) [
  | inl here ↦
      let apart : (t.id == other) ≡ false = ground arith in rw here (sym (if_false _ _ apart))
  | inr later ↦ rw later (
      ap (λ (o : Option Task). if t.id == other then some t else o)
        (find_task-unlink_task_ne id other ts ne))
]

unlink_task-UniqueIds : (id : ℕ) (ts : List Task) → UniqueIds ts → UniqueIds (unlink_task id ts)
unfolding unlink_task
unlink_task-UniqueIds id [] unique = tt
unlink_task-UniqueIds id (t ∷ ts) unique = elim (Bool-cases (t.id == id)) [
  | inl here ↦ rw here unique.1
  | inr later ↦ rw later (
    find_task-unlink_task_ne id t.id ts (ground arith) ∙ unique.0,
    unlink_task-UniqueIds id ts unique.1,
  )
]

unlink_task-AllBelow : (id n : ℕ) (ts : List Task) → AllBelow n ts → AllBelow n (unlink_task id ts)
unfolding unlink_task
unlink_task-AllBelow id n [] b = tt
unlink_task-AllBelow id n (t ∷ ts) b = elim (Bool-cases (t.id == id)) [
  | inl here ↦ rw here b.1
  | inr later ↦ rw later (b.0, unlink_task-AllBelow id n ts b.1)
]

pub unlink_task-PidsAreValid :
    {H : Type 0} {k k' : Kernel H} (id : ℕ)
    → PidsAreValid k
    → k'.ready_queue ≡ unlink_task id k.ready_queue
    → k'.next_pid ≡ k.next_pid
    → PidsAreValid k'
unlink_task-PidsAreValid {H} {k} id v e f = record {
  unique = rw e (unlink_task-UniqueIds id k.ready_queue v.unique);
  below = rw (e, f) (unlink_task-AllBelow id k.next_pid k.ready_queue v.below);
}

pub append_ready_task-PidsAreValid :
    {H : Type 0} {k : Kernel H} {k' : Kernel H} (u : Task)
    → PidsAreValid k
    → u.id ≡ k.next_pid
    → k'.ready_queue ≡ k.ready_queue ++ (u ∷ [])
    → k'.next_pid ≡ k.next_pid + 1
    → PidsAreValid k'
append_ready_task-PidsAreValid {H} {k} u v e q n = record {
  unique = rw q (UniqueIds-snoc k.ready_queue u v.unique (rw e v.below));
  below =
      rw (q, n)
        (AllBelow-snoc (k.next_pid + 1) k.ready_queue u
          (AllBelow-suc k.next_pid k.ready_queue v.below) (omega (arith, e)));
}
