-- ===== src/Migration/Master.antt =====
-- One round of the service loop of simplyblock_core/services/tasks_runner_migration.py: which tasks
-- it starts, and the status of the master task of a rebalancing.
pub mod Summary
use sbcli.Prelude.{
  ℕ, Bool, true, false, not, ◌&&◌, ◌||◌, Option, none, some, List, [], ◌∷◌, ◌==◌, if◌then◌else◌,
  is_some, Result, returned, raised, count, contains, length, find,
}
use sbcli.Model.{
  JobStatus, FunctionName, job_eq, fn_eq, is_done, is_waiting, is_migration, Name, Message, Task,
  Db, write_task, tasks_of, get_job_tasks, get_task_by_id, get_storage_node_by_id,
}
use sbcli.TaskQueries.{get_active_node_tasks}
use sbcli.Migration.{Run, Storage}
use sbcli.Migration.Rebalance.{task_runner}

-- The statuses of the sub tasks, in their order; a missing one raises.
unfoldable pub sub_statuses : List Name → Db → Result (List JobStatus)
sub_statuses [] db = returned []
sub_statuses (i ∷ is) db =
    let rest = sub_statuses is db in
    elim (get_task_by_id i db) [
      | none ↦ raised
      | some t ↦ elim rest [ raised ↦ raised | returned ss ↦ returned (t.status ∷ ss) ]
    ]

-- The chain of tests over status_map.
unfoldable pub master_status : List JobStatus → JobStatus
master_status ss =
    if count (job_eq JobStatus.done) ss == length ss
    then JobStatus.done
    else if count (job_eq JobStatus.fresh) ss == length ss
    then JobStatus.fresh
    else if count (job_eq JobStatus.suspended) ss == length ss
    then JobStatus.suspended
    else JobStatus.running

-- _set_master_task_status
abbrev pub set_master_task_status : Name → JobStatus → Db → Result (Unit {0}) × Db
set_master_task_status id s db = elim (get_task_by_id id db) [
  | none ↦ (raised, db)
  | some m ↦
      if job_eq m.status s
      then (returned tt, db)
      else (returned tt, write_task (record m { status = s; result = Message.status_text s }) db)
]

-- update_master_task, where `cluster` is the one that the loop is at.
pub update_master_task : Name → Task → Db → Result (Unit {0}) × Db
unfolding sub_statuses
update_master_task cluster task db =
    elim (find (λ t. contains t.sub_tasks task.uuid) (tasks_of cluster db)) [
      | none ↦ (returned tt, db)
      | some m ↦ elim (sub_statuses m.sub_tasks db) [
        | raised ↦ (raised, db)
        | returned ss ↦ set_master_task_status m.uuid (master_status ss) db
      ]
    ]

-- The loop that looks for a task on the same node and distr: one that runs, or an expansion that is
-- suspended.
abbrev pub blocks : Name → Name → Task → Bool
blocks node distr t =
    (is_migration t.function_name && t.node_id == node)
    && (elim t.params.distr_name [ none ↦ false | some d ↦ d == distr ]
        && (not t.canceled
            && (job_eq t.status JobStatus.running
                || job_eq t.status JobStatus.suspended
                  && fn_eq t.function_name FunctionName.new_dev_mig)))

-- What a round leaves: whether it ran the task and went on, or an exception left the loop.
pub record Round : Type 0 where
  pub ran : Result Bool
  pub resumes_compression : Bool
  pub db : Db

pub after_run : Name → Task → Run → Round
unfolding update_master_task get_active_node_tasks
after_run cluster t r = elim r.reply [
  | raised ↦ record { ran = raised; resumes_compression = false; db = r.db }
  | returned reply ↦
      let (u, db) = update_master_task cluster t r.db in
      elim u [
        | raised ↦ record { ran = raised; resumes_compression = false; db = db }
        | returned _ ↦
            if reply && length (get_active_node_tasks t.cluster_id t.node_id db) == 0
            then elim (get_storage_node_by_id t.node_id db) [
              | none ↦ record { ran = raised; resumes_compression = false; db = db }
              | some n ↦ record { ran = returned true; resumes_compression = true; db = db }
            ]
            else record { ran = returned true; resumes_compression = false; db = db }
      ]
]

-- whether the same node has work that the task has to wait for; the comparison raises if the task
-- has no distr_name while another one of the node has.
pub is_blocked : Task → List Task → Result Bool
is_blocked t [] = returned false
is_blocked t (u ∷ us) =
    let rest = is_blocked t us in
    if is_migration u.function_name && u.node_id == t.node_id && is_some u.params.distr_name
    then elim t.params.distr_name [
      | none ↦ raised
      | some d ↦ if blocks t.node_id d u then returned true else rest
    ]
    else rest

-- The body of the loop for one task, as read by get_job_tasks.
pub serve : Storage → Name → Task → Db → Round
unfolding task_runner after_run is_blocked
serve s cluster task db =
    if fn_eq task.function_name FunctionName.dev_mig && not (is_done task.status)
    then elim (get_task_by_id task.uuid db) [
      | none ↦ record { ran = raised; resumes_compression = false; db = db }
      | some t ↦
          if is_waiting t.status
          then elim (is_blocked t (get_job_tasks t.cluster_id db)) [
            | raised ↦ record { ran = raised; resumes_compression = false; db = db }
            | returned true ↦ record { ran = returned false; resumes_compression = false; db = db }
            | returned false ↦ after_run cluster t (task_runner s t db)
          ]
          else after_run cluster t (task_runner s t db)
    ]
    else record { ran = returned false; resumes_compression = false; db = db }
