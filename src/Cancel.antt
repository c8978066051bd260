-- ===== src/Cancel.antt =====
-- cancel_task of simplyblock_core/controllers/tasks_controller.py.
use sbcli.Prelude.{
  ◌≤◌, Bool, true, false, ◌&&◌, none, some, [], ◌∷◌, ◌≡◌, refl, ap, arith, ◌==◌, count,
  if◌then◌else◌, if-cases, option-cases,
}
use sbcli.Model.{Name, Task, Db, is_set, put_task, write_task, get_task_by_id}
use sbcli.Model.Order.{In, count-replace, put_task-IsSorted, get_task_by_id-In}
use sbcli.Tasks.{is_node_restart, is_device_mig, is_new_device_mig, is_balancing}
use sbcli.Devices.{device_set_retries_exhausted}
use sbcli.Devices.Lost.{device_set_retries_exhausted-unchanged}
use sbcli.Migration.Runs.{IsWellFormed}

abbrev pub has_sub_tasks : Task → Bool
has_sub_tasks t = elim t.sub_tasks [ [] ↦ false | s ∷ ss ↦ true ]

-- cancel_task
unfoldable pub cancel_task : Name → Db → Bool × Db
cancel_task id db = elim (get_task_by_id id db) [
  | none ↦ (false, db)
  | some t ↦
      if has_sub_tasks t
      then (false, db)
      else (let db' =
            if is_set t.device_id
            then (device_set_retries_exhausted t.device_id true db).1
            else db in
          (true, write_task (record t { canceled = true }) db'))
]

-- What a cancellation comes to.
pub record Cancels (id : Name) (before : Db) (r : Bool × Db) : Type 0 where
  pub refused : r.0 ≡ false → r.1 ≡ before
  pub done :
      r.0 ≡ true
      → (t : Task) × (get_task_by_id id before ≡ some t)
        × (has_sub_tasks t ≡ false)
        × (r.1 ≡ write_task (record t { canceled = true }) before)
        × IsWellFormed r.1

module _ (t : Task) (db : Db) (h : IsWellFormed db) (stored : In t db.tasks) where
  fewer :
      (p : Task → Bool)
      → p (record t { canceled = true }) ≡ false
      → count p (put_task (record t { canceled = true }) db.tasks) ≤ count p db.tasks
  fewer p e =
      count-replace p (record t { canceled = true }) t db.tasks h.sorted stored (ground arith)
        (ground arith)

  canceled-IsWellFormed : IsWellFormed (write_task (record t { canceled = true }) db)
  canceled-IsWellFormed = record {
    sorted = put_task-IsSorted (record t { canceled = true }) db.tasks h.sorted;
    unique = record {
      kinds = record {
        restart_once = λ c n. omega (
          arith,
          h.unique.kinds.restart_once c n,
          fewer (λ u. u.cluster_id == c && is_node_restart n u) (ground arith),
        );
        mig_once = λ c n d name. omega (
          arith,
          h.unique.kinds.mig_once c n d name,
          fewer (λ u. u.cluster_id == c && is_device_mig n d name u) (ground arith),
        );
        expansion_once = λ c n name. omega (
          arith,
          h.unique.kinds.expansion_once c n name,
          fewer (λ u. u.cluster_id == c && is_new_device_mig n name none u) (ground arith),
        );
      };
      masters = λ c. omega (
        arith,
        h.unique.masters c,
        fewer (λ u. u.cluster_id == c && is_balancing u) (ground arith),
      );
    };
  }

same_db :
    (b : Bool) (id : Name) (db : Db)
    → (if b then (device_set_retries_exhausted id true db).1 else db) ≡ db
same_db true id db = device_set_retries_exhausted-unchanged id true db
same_db false id db = refl

-- cancel_task refuses a missing task and a master task, and then changes nothing; else it only marks
-- the task as canceled, and keeps the task table well-formed.
pub cancel_task-Cancels :
    (id : Name) (db : Db) → IsWellFormed db → Cancels id db (cancel_task id db)
unfolding cancel_task
cancel_task-Cancels id db h =
    option-cases (Cancels id db) (get_task_by_id id db) (λ _. refusal)
      λ t e.
        if-cases (Cancels id db) (has_sub_tasks t) (λ _. refusal)
          λ single.
            (let same = same_db (is_set t.device_id) t.device_id db in
              record {
                refused = λ f. ground arith;
                done = λ _. (
                  t,
                  e,
                  single,
                  ap (write_task (record t { canceled = true })) same,
                  rw same (canceled-IsWellFormed t db h (get_task_by_id-In id t db e).0),
                );
              })
  where
    refusal : Cancels id db (false, db)
    refusal = record { refused = λ _. refl; done = λ f. ground arith }
