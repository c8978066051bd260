-- ===== src/Migration/Turns.antt =====
-- The loops of the failed-device and the expansion runner over the tasks of a cluster: the body for
-- one task, as read by get_job_tasks.
pub mod Alone
use sbcli.Prelude.{
  Bool, true, false, not, Option, none, some, if◌then◌else◌, is_some, returned, raised,
}
use sbcli.Model.{FunctionName, fn_eq, is_waiting, is_done, Task, Db, get_task_by_id}
use sbcli.TaskQueries.{get_active_node_mig_task}
use sbcli.Migration.{Run, Storage}
use sbcli.Migration.Failed
use sbcli.Migration.Expansion

-- A turn that runs nothing; `raised` is an exception, which ends the service.
abbrev pub skips : Task → Db → Run
skips task db = record { reply = returned false; task = task; db = db }

abbrev pub stops : Task → Db → Run
stops task db = record { reply = raised; task = task; db = db }

-- `if task.status != STATUS_DONE`: the task is read again and run.
pub run_stored : (Task → Db → Run) → Task → Db → Run
run_stored runner task db =
    if is_done task.status
    then skips task db
    else elim (get_task_by_id task.uuid db) [ none ↦ stops task db | some t ↦ runner t db ]

-- The body of the loop that both services share.
pub serve_kind : FunctionName → (Task → Db → Run) → Task → Db → Run
unfolding run_stored
serve_kind kind runner task db =
    if not (fn_eq task.function_name kind)
    then skips task db
    else if is_waiting task.status
    then elim task.params.distr_name [
      | none ↦ stops task db
      | some name ↦
          if is_some (get_active_node_mig_task task.cluster_id task.node_id (some name) db)
          then skips task db
          else run_stored runner task db
    ]
    else run_stored runner task db

pub serve_failed : Storage → Task → Db → Run
unfolding serve_kind
serve_failed s = serve_kind FunctionName.failed_dev_mig (Failed.task_runner s)

pub serve_expansion : Storage → Task → Db → Run
unfolding serve_kind
serve_expansion s = serve_kind FunctionName.new_dev_mig (Expansion.task_runner s)
