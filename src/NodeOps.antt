-- ===== src/NodeOps.antt =====
-- What an operator does with a storage node: suspend_storage_node, shutdown_storage_node and
-- resume_storage_node of simplyblock_core/storage_node_ops.py. The calls of the storage process
-- whose replies are not read are no part of the model, and the status of the JM device is modelled
-- for the removal alone.
pub mod Steps
pub mod Suspended
pub mod Stopped
pub mod Resume
pub mod Remove
use sbcli.Prelude.{
  ℕ, Bool, true, false, not, ◌&&◌, ◌||◌, Option, none, some, List, [], ◌∷◌, ltb, ◌==◌, count,
  is_some, if◌then◌else◌, Result, returned, raised,
}
use sbcli.Model.{
  FunctionName, JobStatus, NodeStatus, DeviceStatus, ClusterStatus, fn_eq, job_eq, node_eq,
  device_eq, cluster_eq, is_ha, is_migration, Name, Task, Device, Node, Cluster, Db, write_task,
  get_storage_node_by_id, get_cluster_by_id, get_storage_nodes_by_cluster_id, get_job_tasks,
}
use sbcli.TaskQueries.{get_active_node_restart_task, get_active_node_tasks}
use sbcli.Cancel.{cancel_task}
use sbcli.NodeMonitor.{
  Probes, Outcome, set_node_status, for_devices, is_online, put_unavailable, and_then, forget,
}

abbrev pub Reply : Type 0
Reply = Result Bool × Db

abbrev pub refuses : Db → Reply
refuses db = (returned false, db)

-- The steps of a function, and what follows them unless one raises.
abbrev pub ends : Outcome → (Db → Reply) → Reply
ends o next = elim o.0 [ raised ↦ (raised, o.1) | returned _ ↦ next o.1 ]

abbrev pub succeeds : Db → Reply
succeeds db = (returned true, db)

-- The loops that call cancel_task for the tasks that were read.
pub cancel_tasks : (Task → Bool) → List Task → Db → Db
cancel_tasks test [] db = db
cancel_tasks test (t ∷ ts) db =
    let rest = cancel_tasks test ts (cancel_task t.uuid db).1 in
    let skipped = cancel_tasks test ts db in if test t then rest else skipped

abbrev pub restart_found : Node → Db → Bool
restart_found n db = is_some (get_active_node_restart_task n.cluster_id n.uuid db)

abbrev pub has_status : NodeStatus → Node → Bool
has_status s n = node_eq n.status s

-- The number of online nodes of a cluster.
abbrev pub online_nodes : Name → Db → ℕ
online_nodes c db = count (has_status NodeStatus.online) (get_storage_nodes_by_cluster_id c db)

-- The refusals for an HA cluster.
abbrev pub holds_back : Node → Cluster → Db → Bool
holds_back n c db =
    is_ha c.ha_type
    && (ltb (online_nodes n.cluster_id db) 3 && cluster_eq c.status ClusterStatus.active
        || cluster_eq c.status ClusterStatus.degraded)

-- From the log of "Suspending node" on.
pub suspends : Probes → Node → Db → Reply
suspends p n db =
    ends
      (and_then (for_devices is_online put_unavailable n.devices db)
        (λ x. forget (set_node_status p n.uuid NodeStatus.suspended x)))
      succeeds

-- From the read of the cluster on.
pub suspend_in_cluster : Probes → Bool → Node → Db → Reply
unfolding suspends
suspend_in_cluster p force n db = elim (get_cluster_by_id n.cluster_id db) [
  | none ↦ (raised, db)
  | some c ↦ if holds_back n c db && not force then refuses db else suspends p n db
]

-- suspend_storage_node; the second test reads the restart task again, and not the tasks.
pub suspend_storage_node : Probes → Bool → Name → Db → Reply
unfolding suspend_in_cluster
suspend_storage_node p force id db = elim (get_storage_node_by_id id db) [
  | none ↦ refuses db
  | some n ↦
      if not (has_status NodeStatus.online n) && not force
      then refuses db
      else if restart_found n db && not force
      then refuses db
      else suspend_in_cluster p force n (
          if restart_found n db
          then cancel_tasks (λ _. true) (get_active_node_tasks n.cluster_id n.uuid db) db
          else db)
]

-- What the storage node's API does at a shutdown: whether the storage process is killed, and whether
-- the devices are bound to their driver again.
pub record Stopping : Type 0 where
  pub kills : Bool
  pub binds : Bool

abbrev pub is_usable : Device → Bool
is_usable d =
    device_eq d.status DeviceStatus.unavailable
    || device_eq d.status DeviceStatus.online
    || device_eq d.status DeviceStatus.cannot_allocate
    || device_eq d.status DeviceStatus.readonly

-- The test of the last loop.
abbrev pub is_stopped_mig : Name → Task → Bool
is_stopped_mig id t =
    t.node_id == id && not (job_eq t.status JobStatus.done) && is_migration t.function_name

-- The last loop: the tasks that were read are marked and written.
pub stop_migrations : Name → List Task → Db → Db
stop_migrations id [] db = db
stop_migrations id (t ∷ ts) db =
    let rest = stop_migrations id ts (write_task (record t { canceled = true }) db) in
    let skipped = stop_migrations id ts db in if is_stopped_mig id t then rest else skipped

abbrev pub has_devices : List Device → Bool
has_devices [] = false
has_devices (d ∷ ds) = true

-- From `Stopping SPDK` on.
pub stops_process : Probes → Stopping → Node → Db → Reply
unfolding stop_migrations
stops_process p r n db =
    if not r.kills
    then refuses db
    else if has_devices n.devices && not r.binds
    then (raised, db)
    else ends (forget (set_node_status p n.uuid NodeStatus.offline db))
        (λ x. succeeds (stop_migrations n.uuid (get_job_tasks n.cluster_id x) x))

-- From the log of "Shutting down node" on.
pub shuts_down : Probes → Stopping → Node → Db → Reply
unfolding stops_process
shuts_down p r n db =
    ends
      (and_then (forget (set_node_status p n.uuid NodeStatus.in_shutdown db))
        (λ x. for_devices is_usable put_unavailable n.devices x))
      (stops_process p r n)

abbrev pub has_tasks : List Task → Bool
has_tasks [] = false
has_tasks (t ∷ ts) = true

-- shutdown_storage_node
pub shutdown_storage_node : Probes → Stopping → Bool → Name → Db → Reply
unfolding shuts_down
shutdown_storage_node p r force id db = elim (get_storage_node_by_id id db) [
  | none ↦ refuses db
  | some n ↦
      let tasks = get_active_node_tasks n.cluster_id n.uuid db in
      if not (has_status NodeStatus.suspended n) && not force
      then refuses db
      else if restart_found n db && not force
      then refuses db
      else if has_tasks tasks && not force
      then refuses db
      else shuts_down p r n
          (cancel_tasks (λ t. not (fn_eq t.function_name FunctionName.node_restart)) tasks db)
]
