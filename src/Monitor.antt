-- ===== src/Monitor.antt =====
pub mod Tallied
pub mod Decision
pub mod Transitions
-- The cluster status that the node monitor derives and stores:
-- simplyblock_core/services/storage_node_monitor.py, with set_cluster_status of
-- simplyblock_core/cluster_ops.py.
use sbcli.Prelude.{
  ℕ, suc, ◌+◌, ◌-◌, Bool, true, false, not, ◌&&◌, ◌||◌, Option, none, some, List, [], ◌∷◌, ◌++◌,
  ◌==◌, ltb, leb, if◌then◌else◌, is_some, Result, returned, raised, any, count, contains, length,
  map, keep,
}
use sbcli.Model.{
  JobStatus, FunctionName, NodeStatus, DeviceStatus, ClusterStatus, fn_eq, node_eq, device_eq,
  cluster_eq, is_done, is_migration, Name, Time, Task, Device, Bdev, Node, Cluster, Db,
  get_job_tasks, get_cluster_by_id, get_storage_nodes_by_cluster_id,
  get_primary_storage_nodes_by_cluster_id,
}
use sbcli.Tasks.{is_active}
use sbcli.TaskQueries.{get_active_node_restart_task}

-- The ids of the online devices of a node, and the names of its distrs.
abbrev pub online_ids : List Device → List Name
online_ids [] = []
online_ids (d ∷ ds) =
    let rest = online_ids ds in
    if device_eq d.status DeviceStatus.online then d.uuid ∷ rest else rest

abbrev pub distr_names : List Bdev → List Name
distr_names [] = []
distr_names (b ∷ bs) = let rest = distr_names bs in if b.is_distr then b.name ∷ rest else rest

-- The test of the loop of is_new_migrated_node.
abbrev pub expands : Node → Task → Bool
expands n t =
    (fn_eq t.function_name FunctionName.new_dev_mig && t.node_id == n.uuid)
    && (contains (online_ids n.devices) t.device_id
        && (is_active t && elim t.params.distr_name [
          | none ↦ false
          | some d ↦ contains (distr_names n.lvstore_stack) d
        ]))

-- is_new_migrated_node; without an online device no task has one of them.
abbrev pub is_new_migrated_node : Name → Node → Db → Bool
is_new_migrated_node cluster n db = any (expands n) (get_job_tasks cluster db)

-- What the loop of get_next_cluster_status counts; its count of offline nodes and the sums that it
-- only logs are left out.
pub record Tally : Type 0 where
  pub online_nodes : ℕ
  pub online_devices : ℕ
  pub jm_replication : Bool
  pub affected : List Name

-- A device that counts as online, and one that counts as offline.
abbrev pub counts_online : Device → Bool
counts_online d =
    device_eq d.status DeviceStatus.online
    || device_eq d.status DeviceStatus.jm
    || device_eq d.status DeviceStatus.readonly
    || device_eq d.status DeviceStatus.cannot_allocate

abbrev pub counts_offline : Device → Bool
counts_offline d =
    not (counts_online d) && not (device_eq d.status DeviceStatus.failed_and_migrated)

-- node_offline_devices > 0 or (node_online_devices == 0 and the node is not removed)
abbrev pub is_affected : Node → Bool
is_affected n =
    ltb 0 (count counts_offline n.devices)
    || count counts_online n.devices == 0 && not (node_eq n.status NodeStatus.removed)

-- `if node.mgmt_ip not in affected_physical_nodes: append`
abbrev pub add_host : Name → List Name → List Name
add_host ip hosts = if contains hosts ip then hosts else hosts ++ ip ∷ []

-- The devices of a node, and its host if it is affected.
abbrev pub tally_devices : Node → Tally → Tally
tally_devices n a = record a {
  online_devices = a.online_devices + count counts_online n.devices;
  affected = if is_affected n then add_host n.mgmt_ip a.affected else a.affected;
}

-- One round of the loop. `jm n` holds the values of the reply to jc_get_jm_status: false for a
-- journal manager that has an active replication task.
tally_node : (Name → List Bool) → Name → Db → Node → Tally → Tally
tally_node jm cluster db n a =
    if node_eq n.status NodeStatus.in_creation
    then a
    else if node_eq n.status NodeStatus.online
    then (if is_new_migrated_node cluster n db
        then a
        else tally_devices n (record a {
          online_nodes = a.online_nodes + 1;
          jm_replication = a.jm_replication || any not (jm n.uuid);
        }))
    else tally_devices n a

pub tally_nodes : (Name → List Bool) → Name → Db → List Node → Tally → Tally
tally_nodes jm cluster db [] a = a
tally_nodes jm cluster db (n ∷ ns) a = tally_nodes jm cluster db ns (tally_node jm cluster db n a)

abbrev pub no_tally : Tally
no_tally = record { online_nodes = 0; online_devices = 0; jm_replication = false; affected = [] }

-- The chain of tests at the end, with n = distr_ndcs and k = distr_npcs.
pub decide : Cluster → Tally → ClusterStatus
decide c a =
    if length a.affected == c.npcs
      && (not c.strict_anti_affinity || leb (c.ndcs + c.npcs) a.online_nodes)
    then ClusterStatus.degraded
    else if a.jm_replication
    then ClusterStatus.degraded
    else if ltb c.npcs (length a.affected)
        || ltb a.online_devices (c.ndcs + c.npcs)
        || ltb a.online_nodes (c.ndcs + c.npcs) && c.strict_anti_affinity
    then ClusterStatus.suspended
    else ClusterStatus.active

-- get_next_cluster_status
unfoldable pub get_next_cluster_status : (Name → List Bool) → Name → Db → Result ClusterStatus
unfolding tally_nodes tally_node decide
get_next_cluster_status jm id db = elim (get_cluster_by_id id db) [
  | none ↦ raised
  | some c ↦ returned (
      if cluster_eq c.status ClusterStatus.unready
      then ClusterStatus.unready
      else decide c (tally_nodes jm id db (get_primary_storage_nodes_by_cluster_id id db) no_tally))
]

abbrev pub replace_cluster : Cluster → List Cluster → List Cluster
replace_cluster c [] = []
replace_cluster c (d ∷ ds) =
    let rest = replace_cluster c ds in if d.uuid == c.uuid then c ∷ ds else d ∷ rest

abbrev pub write_cluster : Cluster → Db → Db
write_cluster c db = record db { clusters = replace_cluster c db.clusters }

-- set_cluster_status
unfoldable pub set_cluster_status : Name → ClusterStatus → Db → Result (Unit {0}) × Db
set_cluster_status id status db = elim (get_cluster_by_id id db) [
  | none ↦ (raised, db)
  | some c ↦
      if cluster_eq c.status status
      then (returned tt, db)
      else (returned tt, write_cluster (record c { status = status }) db)
]

-- The loop that decides `can_activate`.
can_activate : Time → Name → Db → List Node → Bool
can_activate now id db [] = true
can_activate now id db (n ∷ ns) =
    let rest = can_activate now id db ns in
    if node_eq n.status NodeStatus.in_shutdown
      || node_eq n.status NodeStatus.in_creation
      || node_eq n.status NodeStatus.restarting
    then false
    else if is_some (get_active_node_restart_task id n.uuid db)
    then false
    else elim n.online_since [
      | none ↦ rest
      | some since ↦ if ltb (now - since) 30_000_000 then false else rest
    ]

-- What update_cluster_status comes to: whether it calls cluster_activate, which is not modelled.
pub data Update : Type 0 where
  stored activate : Update

abbrev pub is_pending_migration : Task → Bool
is_pending_migration t = not (is_done t.status) && is_migration t.function_name

abbrev pub is_up : ClusterStatus → Bool
is_up s = cluster_eq s ClusterStatus.active || cluster_eq s ClusterStatus.degraded

store_status : Name → ClusterStatus → Db → Result Update × Db
unfolding set_cluster_status
store_status id s db =
    let (r, db') = set_cluster_status id s db in
    elim r [ raised ↦ (raised, db') | returned _ ↦ (returned stored, db') ]

-- The chain of tests on the current and the next status.
apply_status : Time → Name → ClusterStatus → ClusterStatus → Db → Result Update × Db
unfolding can_activate store_status
apply_status now id current next db =
    if cluster_eq current ClusterStatus.degraded && cluster_eq next ClusterStatus.active
    then store_status id ClusterStatus.active db
    else if cluster_eq current ClusterStatus.readonly && is_up next
    then (returned stored, db)
    else if cluster_eq current ClusterStatus.suspended && is_up next
    then (if can_activate now id db (get_storage_nodes_by_cluster_id id db)
        then (returned activate, db)
        else (returned stored, db))
    else store_status id next db

-- update_cluster_status
pub update_cluster_status : (Name → List Bool) → Time → Name → Db → Result Update × Db
unfolding get_next_cluster_status apply_status
update_cluster_status jm now id db = elim (get_cluster_by_id id db) [
  | none ↦ (raised, db)
  | some c ↦
      if cluster_eq c.status ClusterStatus.unready
        || cluster_eq c.status ClusterStatus.in_activation
        || cluster_eq c.status ClusterStatus.in_expansion
      then (returned stored, db)
      else elim (get_next_cluster_status jm id db) [
        | raised ↦ (raised, db)
        | returned next ↦ apply_status now id c.status next (
            write_cluster
              (record c {
                is_re_balancing = ltb 0 (count is_pending_migration (get_job_tasks id db));
              })
              db)
      ]
]
