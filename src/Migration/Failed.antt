-- ===== src/Migration/Failed.antt =====
pub mod Steps
-- simplyblock_core/services/tasks_runner_failed_migration.py: moving data away from a failed device.
use sbcli.Prelude.{
  ℕ, Bool, true, false, not, ◌&&◌, ◌||◌, Option, none, some, List, [], ◌∷◌, ◌==◌, ltb,
  if◌then◌else◌, is_some, Result, returned, raised,
}
use sbcli.Model.{
  JobStatus, NodeStatus, node_eq, job_eq, is_serving, is_waiting, Name, Time, Message, Task, Node,
  Cluster, Db, write_task, get_storage_node_by_id, get_cluster_by_id,
  get_storage_nodes_by_cluster_id, get_storage_device_by_id,
}
use sbcli.TaskQueries.{get_new_device_mig_task_for_device, get_failed_device_mig_task}
use sbcli.Devices.{device_set_failed_and_migrated}
use sbcli.Migration.{
  Run, MigInfo, ends, finished, postponed, Storage, poll, poll_failed, handle_task_result,
}

-- datetime.now() - datetime.fromisoformat(online_since): the first has no time zone and the second
-- has one, so that the subtraction raises TypeError.
abbrev pub naive_age : Time → Time → Result ℕ
naive_age now since = raised

-- The loop over the nodes for a new task: the node that came online within a minute, if one is
-- found. An exception is logged and the loop goes on.
abbrev pub young_node : Time → List Node → Option Node
young_node now [] = none
young_node now (n ∷ ns) =
    let rest = young_node now ns in
    elim n.online_since [
      | none ↦ rest
      | some since ↦ elim (naive_age now since) [
        | raised ↦ rest
        | returned age ↦ if ltb age 60_000_000 then some n else rest
      ]
    ]

-- The `try` at the end of the runner: the migration's result, and the device's state once no task
-- for its failure is left.
poll_and_settle : Storage → Task → Db → Run
poll_and_settle s t db = elim s.migration_status [
  | raised ↦ poll_failed t db
  | returned info ↦
      let r = handle_task_result [] t info db in
      elim r.reply [
        | raised ↦ poll_failed r.task r.db
        | returned out ↦
            if is_some (get_failed_device_mig_task r.task.cluster_id r.task.device_id r.db)
            then r
            else (let (settled, db') = device_set_failed_and_migrated r.task.device_id r.db in
                elim settled [
                  | raised ↦ poll_failed r.task db'
                  | returned _ ↦ record r { db = db' }
                ])
      ]
]

-- From `if "migration" not in task.function_params` to the end.
start_and_poll : Storage → Node → Task → Db → Run
unfolding poll_and_settle
start_and_poll s snode t db =
    if is_some t.params.migration
    then poll_and_settle s t db
    else elim (get_storage_device_by_id t.device_id db) [
      | none ↦ ends true (finished Message.device_not_found t) db
      | some device ↦ elim t.params.distr_name [
        | none ↦ record { reply = raised; task = t; db = db }
        | some name ↦ elim (get_cluster_by_id snode.cluster_id db) [
          | none ↦ record { reply = raised; task = t; db = db }
          | some cluster ↦
              if not s.started
              then ends false (postponed Message.start_failed t) db
              else (let t' = record t { params = record t.params { migration = some name } } in
                  poll_and_settle s t' (write_task t' db))
        ]
      ]
    ]

-- The tests behind the step to a running task.
run_checks : Storage → Node → Task → Db → Run
unfolding start_and_poll
run_checks s snode t db =
    if not (node_eq snode.status NodeStatus.online)
    then ends false (postponed Message.node_not_online t) db
    else if is_some (get_new_device_mig_task_for_device t.cluster_id db)
    then ends false (postponed Message.expansion_found t) db
    else start_and_poll s snode t db

begin : Storage → Node → Task → Db → Run
unfolding run_checks
begin s snode t db =
    if is_waiting t.status
    then (if job_eq t.status JobStatus.fresh
          && is_some (young_node s.now (get_storage_nodes_by_cluster_id t.cluster_id db))
        then ends false (postponed Message.node_online_too_short t) db
        else (let t' = record t { status = JobStatus.running } in
            run_checks s snode t' (write_task t' db)))
    else run_checks s snode t db

-- task_runner
pub task_runner : Storage → Task → Db → Run
unfolding begin
task_runner s t db = elim (get_storage_node_by_id t.node_id db) [
  | none ↦ ends true (finished (Message.node_not_found t.node_id) t) db
  | some snode ↦ elim (get_cluster_by_id t.cluster_id db) [
    | none ↦ record { reply = raised; task = t; db = db }
    | some cluster ↦
        if not (is_serving cluster.status)
        then ends false (postponed Message.cluster_not_active t) db
        else if t.canceled
        then ends true (finished Message.canceled t) db
        else begin s snode t db
  ]
]
