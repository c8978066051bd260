-- ===== src/Migration/Rebalance.antt =====
pub mod Start
pub mod Steps
-- simplyblock_core/services/tasks_runner_migration.py: moving data back to a device.
use sbcli.Prelude.{
  ℕ, suc, ◌+◌, Bool, true, false, not, ◌&&◌, ◌||◌, Option, none, some, List, [], ◌∷◌, ◌==◌,
  if◌then◌else◌, is_some, Result, returned, raised,
}
use sbcli.Model.{
  JobStatus, NodeStatus, DeviceStatus, node_eq, device_eq, is_serving, is_waiting, Name, Time,
  Message, Task, Device, Node, Cluster, Db, write_task, get_task_by_id, get_storage_node_by_id,
  get_cluster_by_id, get_storage_nodes_by_cluster_id, get_storage_device_by_id,
}
use sbcli.Migration.{Run, ends, finished, postponed, Storage, too_young, poll, handle_task_result}

-- for dev in node.nvme_devices
abbrev pub unsettled_device : List Device → Option Message
unsettled_device [] = none
unsettled_device (d ∷ ds) =
    let rest = unsettled_device ds in
    if device_eq d.status DeviceStatus.fresh || device_eq d.status DeviceStatus.unavailable
    then some (Message.some_dev_status d.status)
    else rest

-- for node in db.get_storage_nodes_by_cluster_id(task.cluster_id): why a start has to wait.
abbrev pub reason_to_wait : Time → List Node → Option Message
reason_to_wait now [] = none
reason_to_wait now (n ∷ ns) =
    let rest = reason_to_wait now ns in
    if n.is_secondary
    then rest
    else if node_eq n.status NodeStatus.online && too_young now n
    then some Message.node_online_too_short
    else elim (unsettled_device n.devices) [ some m ↦ some m | none ↦ rest ]

-- From `if "migration" not in task.function_params` to the end.
start_and_poll : Storage → Node → Task → Db → Run
start_and_poll s snode t db =
    if is_some t.params.migration
    then poll s (handle_task_result []) t db
    else elim (get_storage_device_by_id t.device_id db) [
      | none ↦ ends true (finished Message.device_not_found t) db
      | some device ↦ elim t.params.distr_name [
        | none ↦ record { reply = raised; task = t; db = db }
        | some name ↦ elim (get_cluster_by_id snode.cluster_id db) [
          | none ↦ record { reply = raised; task = t; db = db }
          | some cluster ↦
              if not s.started
              then ends true (postponed Message.start_failed_retry_later t) db
              else (let t' = record t { params = record t.params { migration = some name } } in
                  poll s (handle_task_result []) t' (write_task t' db))
        ]
      ]
    ]

-- The step from a waiting task to a running one.
begin : Storage → Node → Task → Db → Run
unfolding start_and_poll
begin s snode t db =
    if is_waiting t.status
    then elim (reason_to_wait s.now (get_storage_nodes_by_cluster_id t.cluster_id db)) [
      | some m ↦ ends false (postponed m t) db
      | none ↦
          let t' = record t { status = JobStatus.running; result = Message.empty } in
          start_and_poll s snode t' (write_task t' db)
    ]
    else start_and_poll s snode t db

-- The tests at the head of the runner, for the task as it is stored.
checks : Storage → Task → Db → Run
unfolding begin
checks s t db = elim (get_storage_node_by_id t.node_id db) [
  | none ↦ ends true (finished (Message.node_not_found t.node_id) t) db
  | some snode ↦
      if t.canceled
      then ends true (finished Message.canceled t) db
      else if not (node_eq snode.status NodeStatus.online)
      then ends false (postponed Message.node_not_online t) db
      else elim (get_cluster_by_id t.cluster_id db) [
        | none ↦ record { reply = raised; task = t; db = db }
        | some cluster ↦
            if not (is_serving cluster.status)
            then ends false (postponed Message.cluster_not_active t) db
            else begin s snode t db
      ]
]

-- task_runner
unfoldable pub task_runner : Storage → Task → Db → Run
unfolding checks
task_runner s task db = elim (get_task_by_id task.uuid db) [
  | none ↦ record { reply = raised; task = task; db = db }
  | some t ↦ checks s t db
]
