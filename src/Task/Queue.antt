-- ===== src/Task/Queue.antt =====
-- Finding and storing tasks of the ready queue.
use my_own_os.Prelude.{sym, ◌∙◌, ℕ, ◌≡◌, ◌≢◌, refl, some, List, [], ◌∷◌, arith}
use my_own_os.Task.{Task, Kernel, find_task, put_task, current_task, store_task}

pub find_task-put_task_self :
    (t u : Task) (ts : List Task)
    → find_task t.id ts ≡ some u
    → find_task t.id (put_task t ts) ≡ some t
unfolding find_task put_task
find_task-put_task_self t u [] h = cc
find_task-put_task_self t u (v ∷ vs) h = ground (arith, find_task-put_task_self t u vs)

pub find_task-put_task_ne :
    (t : Task) (id : ℕ) (ts : List Task)
    → t.id ≢ id
    → find_task id (put_task t ts) ≡ find_task id ts
unfolding find_task put_task
find_task-put_task_ne t id [] h = refl
find_task-put_task_ne t id (v ∷ vs) h = ground (arith, find_task-put_task_ne t id vs)

pub find_task-id : (id : ℕ) (ts : List Task) (t : Task) → find_task id ts ≡ some t → t.id ≡ id
unfolding find_task
find_task-id id [] t h = cc
find_task-id id (v ∷ vs) t h = ground (arith, find_task-id id vs t)

some-injective : {t u : Task} → some t ≡ some u → t ≡ u
some-injective e = cc

-- A task with this identifier is running.
pub record Running {H : Type 0} (k : Kernel H) (t : Task) : Type 0 where
  pub current : k.current ≡ some t.id
  pub found : find_task t.id k.ready_queue ≡ some t

module _ {H : Type 0} where
  pub Running-current_task : {k : Kernel H} {t : Task} → Running k t → current_task k ≡ some t
  unfolding current_task
  Running-current_task r = rw (r.current) r.found

  -- The running task after a store through `current_task` that keeps its identifier.
  pub Running-store_task :
      {k : Kernel H} {t : Task} (u : Task) → u.id ≡ t.id → Running k t → Running (store_task u k) u
  unfolding store_task
  Running-store_task {k} {t} u e r = record {
    current = rw e r.current;
    found = find_task-put_task_self u t k.ready_queue (rw e r.found);
  }

  -- One task is running.
  pub Running-unique : {k : Kernel H} {t u : Task} → Running k t → Running k u → t ≡ u
  Running-unique a b = some-injective (sym (Running-current_task a) ∙ Running-current_task b)
