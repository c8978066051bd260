-- ===== src/Capacity.antt =====
-- The limit on a cluster's use: simplyblock_core/services/cap_monitor.py without its events, and
-- cluster_set_read_only and cluster_set_active of simplyblock_core/cluster_ops.py.
pub mod Limit
use sbcli.Prelude.{
  ℕ, Bool, true, false, ◌&&◌, ◌||◌, Option, none, some, List, [], ◌∷◌, ◌==◌, ltb, leb,
  if◌then◌else◌, Result, returned, raised,
}
use sbcli.Model.{
  NodeStatus, DeviceStatus, ClusterStatus, node_eq, device_eq, cluster_eq, Name, Device, Cluster,
  Node, Db, get_cluster_by_id, get_storage_nodes_by_cluster_id,
}
use sbcli.Tasks.{Stamp}
use sbcli.Devices.{device_set_state, device_set_online}
use sbcli.Monitor.{set_cluster_status}
use sbcli.NodeMonitor.{Outcome, returns, and_then, forget, for_devices, is_online}

-- The last capacity records: of the cluster, and of its devices, in percent; and the stamps of new
-- tasks, by device.
pub record Records : Type 0 where
  pub cluster_util : Option ℕ
  pub device_util : Name → Option ℕ
  pub stamps : Name → ℕ → Stamp

-- the nodes that are not skipped
abbrev pub is_reached : Node → Bool
is_reached n =
    node_eq n.status NodeStatus.online
    || node_eq n.status NodeStatus.suspended
    || node_eq n.status NodeStatus.down

-- The two loops over the devices of the nodes.
pub for_node_devices : (Device → Bool) → (Device → Db → Outcome) → List Node → Db → Outcome
for_node_devices test call [] db = returns db
for_node_devices test call (n ∷ ns) db =
    let skipped = for_node_devices test call ns db in
    if is_reached n
    then and_then (for_devices test call n.devices db) (λ x. for_node_devices test call ns x)
    else skipped

pub block : Device → Db → Outcome
block d db = returns (device_set_state d.uuid DeviceStatus.cannot_allocate db).1

-- cluster_set_read_only
pub cluster_set_read_only : Name → Db → Outcome
unfolding for_node_devices block
cluster_set_read_only id db = elim (get_cluster_by_id id db) [
  | none ↦ (raised, db)
  | some c ↦
      if cluster_eq c.status ClusterStatus.readonly
      then returns db
      else and_then (set_cluster_status id ClusterStatus.readonly db)
          (λ x. for_node_devices is_online block (get_storage_nodes_by_cluster_id id x) x)
]

-- a device that was blocked and has room again
abbrev pub has_room : Records → Cluster → Device → Bool
has_room r c d =
    (device_eq d.status DeviceStatus.cannot_allocate || device_eq d.status DeviceStatus.readonly)
    && elim (r.device_util d.uuid) [ none ↦ false | some u ↦ ltb u c.cap_crit ]

pub unblock : Records → Device → Db → Outcome
unblock r d db = forget (device_set_online (r.stamps d.uuid) d.uuid db)

-- cluster_set_active
pub cluster_set_active : Records → Name → Db → Outcome
unfolding for_node_devices unblock
cluster_set_active r id db = elim (get_cluster_by_id id db) [
  | none ↦ (raised, db)
  | some c ↦
      if cluster_eq c.status ClusterStatus.active
      then returns db
      else and_then (set_cluster_status id ClusterStatus.active db) (λ x.
        for_node_devices (has_room r c) (unblock r) (get_storage_nodes_by_cluster_id id x) x)
]

-- The body of the loop for the cluster `c`.
pub check_capacity : Records → Cluster → Db → Outcome
unfolding cluster_set_read_only cluster_set_active
check_capacity r c db = elim r.cluster_util [
  | none ↦ returns db
  | some util ↦
      if c.cap_crit == 0
      then returns db
      else if leb c.cap_crit util
      then (if cluster_eq c.status ClusterStatus.active
            || cluster_eq c.status ClusterStatus.degraded
          then cluster_set_read_only c.uuid db
          else returns db)
      else if cluster_eq c.status ClusterStatus.readonly
      then cluster_set_active r c.uuid db
      else returns db
]
