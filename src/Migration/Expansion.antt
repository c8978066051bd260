-- ===== src/Migration/Expansion.antt =====
pub mod Steps
-- simplyblock_core/services/tasks_runner_new_dev_migration.py: moving data to a new device.
use sbcli.Prelude.{
  ℕ, ℤ, pos, Bool, true, false, not, ◌&&◌, ◌||◌, Option, none, some, List, [], ◌∷◌, ◌==◌,
  if◌then◌else◌, is_some, Result, returned, raised,
}
use sbcli.Model.{
  JobStatus, NodeStatus, DeviceStatus, node_eq, device_eq, is_serving, is_waiting, Name, Time,
  Message, Task, Device, Node, Cluster, Db, write_task, get_storage_node_by_id, get_cluster_by_id,
  get_storage_nodes_by_cluster_id, get_storage_device_by_id,
}
use sbcli.Migration.{Run, ends, finished, postponed, Storage, too_young, poll, handle_task_result}

-- The loop over the nodes before the start: a primary node that came online within a minute.
abbrev pub young_primary : Time → List Node → Bool
young_primary now [] = false
young_primary now (n ∷ ns) =
    let rest = young_primary now ns in
    if n.is_secondary then rest else if too_young now n then true else rest

-- all_devs_online and all_devs_online_or_failed
pub record Devs : Type 0 where
  pub all_online : Bool
  pub all_online_or_failed : Bool

-- The inner loop over the devices of a node; it stops at a device of another status.
abbrev pub scan_devices : List Device → Devs → Devs
scan_devices [] f = f
scan_devices (d ∷ ds) f =
    let failed = scan_devices ds (record f { all_online = false }) in
    let rest = scan_devices ds f in
    if device_eq d.status DeviceStatus.failed
    then failed
    else if not (
        device_eq d.status DeviceStatus.online
        || device_eq d.status DeviceStatus.failed_and_migrated)
    then record { all_online = false; all_online_or_failed = false }
    else rest

abbrev pub scan_nodes : List Node → Devs → Devs
scan_nodes [] f = f
scan_nodes (n ∷ ns) f = scan_nodes ns (scan_devices n.devices f)

abbrev pub scan_cluster : Name → Db → Devs
scan_cluster cluster db =
    scan_nodes (get_storage_nodes_by_cluster_id cluster db)
      (record { all_online = true; all_online_or_failed = true })

-- list(range(1, 8)) if not all_devs_online else [0]
abbrev pub allowed_error_codes : Bool → List ℤ
allowed_error_codes true = pos 0 ∷ []
allowed_error_codes false = pos 1 ∷ pos 2 ∷ pos 3 ∷ pos 4 ∷ pos 5 ∷ pos 6 ∷ pos 7 ∷ []

start_and_poll : Storage → Node → Task → Db → Run
start_and_poll s snode t db =
    let devs = scan_cluster t.cluster_id db in
    let handle = handle_task_result (allowed_error_codes devs.all_online) in
    if is_some t.params.migration
    then poll s handle t db
    else if not devs.all_online_or_failed
    then ends false (postponed Message.devs_offline t) db
    else elim (get_storage_device_by_id t.device_id db) [
      | none ↦ ends true (finished Message.device_not_found t) db
      | some device ↦ elim t.params.distr_name [
        | none ↦ record { reply = raised; task = t; db = db }
        | some name ↦ elim (get_cluster_by_id snode.cluster_id db) [
          | none ↦ record { reply = raised; task = t; db = db }
          | some cluster ↦
              if not s.started
              then ends false (postponed Message.start_failed t) db
              else (let t' = record t { params = record t.params { migration = some name } } in
                  poll s handle t' (write_task t' db))
        ]
      ]
    ]

begin : Storage → Node → Task → Db → Run
unfolding start_and_poll
begin s snode t db =
    if is_waiting t.status
    then (if young_primary s.now (get_storage_nodes_by_cluster_id t.cluster_id db)
        then ends false (postponed Message.node_online_too_short t) db
        else (let t' = record t {
          result = Message.status_text JobStatus.running;
          status = JobStatus.running;
        } in
            start_and_poll s snode t' (write_task t' db)))
    else start_and_poll s snode t db

-- task_runner
pub task_runner : Storage → Task → Db → Run
unfolding begin
task_runner s t db = elim (get_storage_node_by_id t.node_id db) [
  | none ↦ ends true (finished (Message.node_not_found t.node_id) t) db
  | some snode ↦
      if t.canceled
      then ends true (finished Message.canceled t) db
      else if not (node_eq snode.status NodeStatus.online)
      then ends false (postponed Message.node_not_online t) db
      else elim (get_cluster_by_id t.cluster_id db) [
        | none ↦ record { reply = raised; task = t; db = db }
        | some cluster ↦
            if not (is_serving cluster.status)
            then ends false (postponed Message.cluster_not_active t) db
            else begin s snode t db
      ]
]
