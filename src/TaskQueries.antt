-- ===== src/TaskQueries.antt =====
-- Queries of the task table: the getters of simplyblock_core/controllers/tasks_controller.py.
use sbcli.Prelude.{Bool, true, not, ◌&&◌, ◌||◌, Option, none, some, List, ◌==◌, find, keep}
use sbcli.Model.{
  FunctionName, JobStatus, fn_eq, job_eq, is_migration, Name, Task, Db, get_job_tasks, is_set,
}
use sbcli.Tasks.{is_active, has_distr, is_node_restart}

-- The other queries of the controller: the first task, newest first, that passes a test.
pub get_active_node_restart_task : Name → Name → Db → Option Task
get_active_node_restart_task cluster node db =
    find (is_node_restart node) (get_job_tasks cluster db)

abbrev pub is_dev_restart_running : Name → Task → Bool
is_dev_restart_running device t =
    fn_eq t.function_name FunctionName.dev_restart
    && t.device_id == device
    && (job_eq t.status JobStatus.running && not t.canceled)

pub get_active_dev_restart_task : Name → Name → Db → Option Task
get_active_dev_restart_task cluster device db =
    find (is_dev_restart_running device) (get_job_tasks cluster db)

abbrev pub is_node_mig_running : Name → Option Name → Task → Bool
is_node_mig_running node distr t =
    is_migration t.function_name
    && t.node_id == node
    && (job_eq t.status JobStatus.running && not t.canceled)
    && elim distr [ none ↦ true | some d ↦ not (is_set d) || has_distr d t ]

unfoldable pub get_active_node_mig_task : Name → Name → Option Name → Db → Option Task
get_active_node_mig_task cluster node distr db =
    find (is_node_mig_running node distr) (get_job_tasks cluster db)

unfoldable pub get_active_node_tasks : Name → Name → Db → List Task
get_active_node_tasks cluster node db =
    keep (λ t. t.node_id == node && is_active t) (get_job_tasks cluster db)

pub get_new_device_mig_task_for_device : Name → Db → Option Task
get_new_device_mig_task_for_device cluster db =
    find (λ t. fn_eq t.function_name FunctionName.new_dev_mig && is_active t)
      (get_job_tasks cluster db)

pub get_failed_device_mig_task : Name → Name → Db → Option Task
get_failed_device_mig_task cluster device db =
    find
      (λ t.
        fn_eq t.function_name FunctionName.failed_dev_mig && t.device_id == device && is_active t)
      (get_job_tasks cluster db)
