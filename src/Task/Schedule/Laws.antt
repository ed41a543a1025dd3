-- ===== src/Task/Schedule/Laws.antt =====
-- `switch_task` of src/task.c picks the next runnable task in the queue's order.
use my_own_os.Prelude.{
  ℕ, zero, suc, ◌+◌, ◌≤◌, ◌≡◌, refl, sym, ◌∙◌, ap, ◌⊎◌, inl, inr, Bool, true, false, ◌||◌, Option,
  none, some, List, [], ◌∷◌, ◌++◌, arith, on_some, ◌==◌, if◌then◌else◌, if_true, if_false,
  Bool-cases, Option-cases, length,
}
use my_own_os.Task.{Task, Kernel, is_runnable, find_task, put_task}
use my_own_os.Task.Queue.{Running, Running-current_task}
use my_own_os.Task.Schedule.{next_runnable, behind, is_alone, switch_task}

-- The specification: the first runnable task of a list.
unfoldable pub first_runnable : List Task → Option Task
first_runnable [] = none
first_runnable (t ∷ ts) = if is_runnable t then some t else first_runnable ts

-- Some task of the list is runnable.
unfoldable pub any_runnable : List Task → Bool
any_runnable [] = false
any_runnable (t ∷ ts) = is_runnable t || any_runnable ts

first_runnable-any_runnable :
    (ts : List Task) → any_runnable ts ≡ true → (u : Task) × (first_runnable ts ≡ some u)
unfolding first_runnable any_runnable
first_runnable-any_runnable [] h = cc
first_runnable-any_runnable (t ∷ ts) h = elim (Bool-cases (is_runnable t)) [
  | inl here ↦ (t, rw here refl)
  | inr later ↦ let (u, e) = first_runnable-any_runnable ts (rw later at h) in (u, rw later e)
]

pub first_runnable-is_runnable :
    (ts : List Task) (u : Task) → first_runnable ts ≡ some u → is_runnable u ≡ true
unfolding first_runnable
first_runnable-is_runnable [] u h = cc
first_runnable-is_runnable (t ∷ ts) u h = elim (Bool-cases (is_runnable t)) [
  | inl here ↦ let e : some t ≡ some u = rw here at h in cc
  | inr later ↦ first_runnable-is_runnable ts u (rw later at h)
]

-- The search finds a runnable task behind the candidate before it goes round.
next_runnable-behind :
    (n : ℕ) (rest queue : List Task) (u : Task)
    → length rest ≤ n
    → first_runnable rest ≡ some u
    → next_runnable n rest queue ≡ some u
unfolding next_runnable first_runnable
next_runnable-behind zero [] queue u h e = cc
next_runnable-behind zero (t ∷ ts) queue u h e = absurd (omega arith)
next_runnable-behind (suc n) [] queue u h e = cc
next_runnable-behind (suc n) (t ∷ ts) queue u h e = elim (Bool-cases (is_runnable t)) [
  | inl here ↦ rw here (rw here at e)
  | inr later ↦ rw later (next_runnable-behind n ts queue u (omega arith) (rw later at e))
]

next_runnable-round :
    (n : ℕ) (rest queue : List Task) (u : Task)
    → length rest + length queue ≤ n
    → first_runnable rest ≡ none
    → first_runnable queue ≡ some u
    → next_runnable n rest queue ≡ some u
unfolding next_runnable first_runnable
next_runnable-round n [] [] u h e f = cc
next_runnable-round zero [] (t ∷ ts) u h e f = absurd (omega arith)
next_runnable-round (suc n) [] (t ∷ ts) u h e f = elim (Bool-cases (is_runnable t)) [
  | inl here ↦ rw here (rw here at f)
  | inr later ↦ rw later (next_runnable-behind n ts (t ∷ ts) u (omega arith) (rw later at f))
]
next_runnable-round zero (t ∷ ts) queue u h e f = absurd (omega arith)
next_runnable-round (suc n) (t ∷ ts) queue u h e f = elim (Bool-cases (is_runnable t)) [
  | inl here ↦ let bad : some t ≡ none = rw here at e in cc
  | inr later ↦ rw later (next_runnable-round n ts queue u (omega arith) (rw later at e) f)
]

first_runnable-append :
    (xs ys : List Task) (u : Task)
    → first_runnable (xs ++ ys) ≡ some u
    → (first_runnable xs ≡ some u) ⊎ ((first_runnable xs ≡ none) × (first_runnable ys ≡ some u))
unfolding first_runnable
first_runnable-append [] ys u h = inr (refl, h)
first_runnable-append (x ∷ xs) ys u h = elim (Bool-cases (is_runnable x)) [
  | inl here ↦ inl (rw here (rw here at h))
  | inr later ↦ rw later (first_runnable-append xs ys u (rw later at h))
]

any_runnable-append : (xs ys : List Task) → any_runnable ys ≡ true → any_runnable (xs ++ ys) ≡ true
unfolding any_runnable
any_runnable-append [] ys h = h
any_runnable-append (x ∷ xs) ys h = ground (arith, any_runnable-append xs ys h)

-- Storing a task in the same state leaves as many runnable.
any_runnable-put_task :
    (t u : Task) (ts : List Task)
    → find_task t.id ts ≡ some u
    → is_runnable t ≡ is_runnable u
    → any_runnable (put_task t ts) ≡ any_runnable ts
unfolding any_runnable put_task find_task
any_runnable-put_task t u [] h e = cc
any_runnable-put_task t u (v ∷ vs) h e = elim (Bool-cases (v.id == t.id)) [
  | inl here ↦
      let same : some v ≡ some u = rw here at h in
      rw here (ap (λ b. b || any_runnable vs) (e ∙ sym (ap (λ o. on_some o true is_runnable) same)))
  | inr later ↦
      rw later (ap (λ b. is_runnable v || b) (any_runnable-put_task t u vs (rw later at h) e))
]

first_runnable-append_some :
    (xs ys : List Task) (u : Task) → first_runnable xs ≡ some u → first_runnable (xs ++ ys) ≡ some u
unfolding first_runnable
first_runnable-append_some [] ys u h = cc
first_runnable-append_some (x ∷ xs) ys u h = elim (Bool-cases (is_runnable x)) [
  | inl here ↦ rw here (rw here at h)
  | inr later ↦ rw later (first_runnable-append_some xs ys u (rw later at h))
]

first_runnable-append_none :
    (xs ys : List Task) → first_runnable xs ≡ none → first_runnable (xs ++ ys) ≡ first_runnable ys
unfolding first_runnable
first_runnable-append_none [] ys h = refl
first_runnable-append_none (x ∷ xs) ys h = elim (Bool-cases (is_runnable x)) [
  | inl here ↦ let bad : some x ≡ none = rw here at h in cc
  | inr later ↦ rw later (first_runnable-append_none xs ys (rw later at h))
]

-- Going round the queue a second time finds nothing new.
first_runnable-once :
    (after before : List Task) (s : Task)
    → first_runnable (after ++ (before ++ (s ∷ after)))
      ≡ first_runnable (after ++ (before ++ (s ∷ [])))
unfolding first_runnable
first_runnable-once after before s = elim (Option-cases (first_runnable after)) [
  | inr (u, e) ↦
      first_runnable-append_some after (before ++ (s ∷ after)) u e
      ∙ sym (first_runnable-append_some after (before ++ (s ∷ [])) u e)
  | inl e ↦
      first_runnable-append_none after (before ++ (s ∷ after)) e
      ∙ tail e
      ∙ sym (first_runnable-append_none after (before ++ (s ∷ [])) e)
]
  where
    tail :
        first_runnable after ≡ none
        → first_runnable (before ++ (s ∷ after)) ≡ first_runnable (before ++ (s ∷ []))
    tail e = elim (Option-cases (first_runnable before)) [
      | inr (u, f) ↦
          first_runnable-append_some before (s ∷ after) u f
          ∙ sym (first_runnable-append_some before (s ∷ []) u f)
      | inl f ↦
          first_runnable-append_none before (s ∷ after) f
          ∙ ap (λ r. if is_runnable s then some s else r) e
          ∙ sym (first_runnable-append_none before (s ∷ []) f)
    ]

-- The queue around the task `t`, which is the first with its identifier; `s` takes its place.
record Around (t s : Task) (queue before after : List Task) : Type 0 where
  was : queue ≡ before ++ (t ∷ after)
  is : put_task s queue ≡ before ++ (s ∷ after)
  first : find_task t.id before ≡ none
  rest : behind t.id (put_task s queue) ≡ after

find_task-Around :
    (t s : Task) (queue : List Task)
    → s.id ≡ t.id
    → find_task t.id queue ≡ some t
    → (before : List Task) × (after : List Task) × Around t s queue before after
unfolding find_task put_task behind
find_task-Around t s [] h e = cc
find_task-Around t s (u ∷ us) h e = elim (Bool-cases (u.id == t.id)) [
  | inl here ↦
      let found : some u ≡ some t = rw here at e in
      let same : u ≡ t = cc in
      let own : (s.id == t.id) ≡ true = ground arith in
      let there : (u.id == s.id) ≡ true = ground arith in
      let put : put_task s (u ∷ us) ≡ s ∷ us = if_true _ _ there in
      (
        [],
        us,
        record {
          was = ap (λ v. v ∷ us) same;
          is = put;
          first = refl;
          rest = ap (λ q. behind t.id q) put ∙ if_true _ _ own;
        },
      )
  | inr later ↦
      let elsewhere : (u.id == s.id) ≡ false = ground arith in
      let put : put_task s (u ∷ us) ≡ u ∷ put_task s us = if_false _ _ elsewhere in
      let (before, after, a) = find_task-Around t s us h (rw later at e) in
      (
        u ∷ before,
        after,
        record {
          was = ap (λ l. u ∷ l) a.was;
          is = put ∙ ap (λ l. u ∷ l) a.is;
          first = rw later a.first;
          rest = ap (λ q. behind t.id q) put ∙ (if_false _ _ later ∙ a.rest);
        },
      )
]

module _ {H : Type 0} {k : Kernel H} {t : Task} (run : Running k t) (esp ebp eip : ℕ) where
  abbrev saved : Task
  saved = record t { esp = esp; ebp = ebp; eip = eip }

  -- For a running task that is not alone in the queue, of which some task is runnable: the queue
  -- is the tasks before the running one, itself and the tasks behind it, none before it having
  -- its identifier; the search for the next task ends, the registers are saved in the running
  -- task's place, and the task that runs next is the first runnable one among those behind it,
  -- then those before it, and itself last.
  pub switch_task_lem :
      is_alone t.id k.ready_queue ≡ false
      → any_runnable k.ready_queue ≡ true
      → (before : List Task) × (after : List Task) × (u : Task) × (k.ready_queue
          ≡ before ++ (t ∷ after))
        × (find_task t.id before ≡ none)
        × (switch_task esp ebp eip k
            ≡ some (record k {
              ready_queue = before ++ (record t { esp = esp; ebp = ebp; eip = eip } ∷ after);
              current = some u.id;
            }))
        × (first_runnable (after ++ (before ++ (record t { esp = esp; ebp = ebp; eip = eip } ∷ [])))
            ≡ some u)
        × (is_runnable u ≡ true)
  unfolding switch_task
  switch_task_lem company runs =
      let queue = put_task saved k.ready_queue in
      let (before, after, a) = find_task-Around t saved k.ready_queue refl run.found in
      let rest = behind t.id queue in
      let any = any_runnable-put_task saved t k.ready_queue run.found refl ∙ runs in
      let (u, chosen) =
        first_runnable-any_runnable (rest ++ queue) (any_runnable-append rest queue any) in
      let found : next_runnable (length rest + length queue) rest queue ≡ some u =
        elim (first_runnable-append rest queue u chosen) [
          | inl ahead ↦ next_runnable-behind _ rest queue u (omega arith) ahead
          | inr (skip, round) ↦ next_runnable-round _ rest queue u (omega arith) skip round
        ] in
      let order : first_runnable (rest ++ queue)
          ≡ first_runnable (after ++ (before ++ (saved ∷ after))) =
        ap (λ r. first_runnable (r ++ queue)) a.rest ∙ ap (λ q. first_runnable (after ++ q)) a.is in
      (
        before,
        after,
        u,
        a.was,
        a.first,
        rw (Running-current_task run) (
            if_false _ _ company
            ∙ rw found (ap (λ q. some (record k { ready_queue = q; current = some u.id })) a.is)),
        sym (order ∙ first_runnable-once after before saved) ∙ chosen,
        first_runnable-is_runnable (rest ++ queue) u chosen,
      )
