-- ===== src/Migration/Master/Summary.antt =====
-- The status of a master task says what its sub tasks have come to.
use sbcli.Prelude.{
  ◌≤◌, Bool, true, some, List, [], ◌∷◌, ◌≡◌, ◌↔◌, inl, refl, arith, All, count, length, find,
  contains, Result, returned, if-cases,
}
use sbcli.Model.{JobStatus, job_eq, Name, Task, Db, tasks_of, get_task_by_id, put_task, Message}
use sbcli.Model.Order.{In, get_task_by_id-In}
use sbcli.Migration.Master.{sub_statuses, master_status, set_master_task_status, update_master_task}

count-bounded : (p : JobStatus → Bool) (ss : List JobStatus) → count p ss ≤ length ss
count-bounded p [] = omega arith
count-bounded p (s ∷ ss) = ground (arith, count-bounded p ss)

All-same :
    (s : JobStatus) (ss : List JobStatus) → count (job_eq s) ss ≡ length ss → All (λ x. x ≡ s) ss
All-same s [] h = tt
All-same s (x ∷ xs) h = (
  ground (arith, count-bounded (job_eq s) xs),
  All-same s xs (ground (arith, count-bounded (job_eq s) xs)),
)

same-All :
    (s : JobStatus) (ss : List JobStatus) → All (λ x. x ≡ s) ss → count (job_eq s) ss ≡ length ss
same-All s [] h = refl
same-All s (x ∷ xs) h = ground (arith, h.0, same-All s xs h.1)

-- The summary of a list of statuses.
pub record IsSummary (ss : List JobStatus) (s : JobStatus) : Type 0 where
  pub all_done : (s ≡ JobStatus.done) ↔ All (λ x. x ≡ JobStatus.done) ss
  pub all_fresh : s ≡ JobStatus.fresh → All (λ x. x ≡ JobStatus.fresh) ss
  pub all_suspended : s ≡ JobStatus.suspended → All (λ x. x ≡ JobStatus.suspended) ss

master_status-IsSummary : (ss : List JobStatus) → IsSummary ss (master_status ss)
unfolding master_status
master_status-IsSummary ss = record {
  all_done = (
    λ h. All-same JobStatus.done ss (ground arith),
    λ h. ground (arith, same-All JobStatus.done ss h),
  );
  all_fresh = λ h. All-same JobStatus.fresh ss (ground arith);
  all_suspended = λ h. All-same JobStatus.suspended ss (ground arith);
}

In-put_task : (t : Task) (us : List Task) → In t (put_task t us)
unfolding put_task
In-put_task t [] = inl refl
In-put_task t (u ∷ us) = ground (arith, In-put_task t us)

-- Some task at the key of `m` has a status that sums up `ss`.
abbrev pub Stores : Task → List JobStatus → Db → Type 0
Stores m ss db = (t : Task) × In t db.tasks × (t.uuid ≡ m.uuid) × IsSummary ss t.status

set_master_task_status-Stores :
    (m u : Task) (ss : List JobStatus) (db : Db)
    → get_task_by_id m.uuid db ≡ some u
    → Stores m ss (set_master_task_status m.uuid (master_status ss) db).1
set_master_task_status-Stores m u ss db h =
    rw (h, set_master_task_status)
      (if-cases (λ (r : Result (Unit {0}) × Db). Stores m ss r.1)
        (job_eq u.status (master_status ss))
        (λ e. (
          u,
          (get_task_by_id-In m.uuid u db h).0,
          (get_task_by_id-In m.uuid u db h).1,
          is_summary e,
        ))
        (λ _. (
          record u { status = master_status ss; result = Message.status_text (master_status ss) },
          In-put_task _ db.tasks,
          (get_task_by_id-In m.uuid u db h).1,
          master_status-IsSummary ss,
        )))
  where
    is_summary : job_eq u.status (master_status ss) ≡ true → IsSummary ss u.status
    is_summary e = rw (same u.status (master_status ss) e) (master_status-IsSummary ss)
      where
        same : (a b : JobStatus) → job_eq a b ≡ true → a ≡ b
        same a b e = ground arith

-- When the round is over the master task is done exactly if all of its sub tasks were done, and new
-- or suspended only if all of them were: for a stored master whose sub tasks are all stored.
pub update_master_task-Stores :
    (cluster : Name) (task m u : Task) (ss : List JobStatus) (db : Db)
    → find (λ t. contains t.sub_tasks task.uuid) (tasks_of cluster db) ≡ some m
    → sub_statuses m.sub_tasks db ≡ returned ss
    → get_task_by_id m.uuid db ≡ some u
    → Stores m ss (update_master_task cluster task db).1
unfolding update_master_task
update_master_task-Stores cluster task m u ss db found read again =
    rw (found, read, update_master_task) (set_master_task_status-Stores m u ss db again)
