-- ===== src/NodeMonitor.antt =====
-- The loop over the nodes in simplyblock_core/services/storage_node_monitor.py, with
-- set_node_status of simplyblock_core/storage_node_ops.py. The state of the JM device, the remote
-- devices of a node and the restart of a proxy are no part of the modelled objects.
pub mod Statuses
pub mod Checked
use sbcli.Prelude.{
  ℕ, Bool, true, false, not, ◌&&◌, ◌||◌, Option, none, some, List, [], ◌∷◌, if◌then◌else◌, Result,
  returned, raised,
}
use sbcli.Model.{
  NodeStatus, DeviceStatus, ClusterStatus, LvstoreStatus, node_eq, device_eq, cluster_eq,
  is_serving, Name, Time, Device, Node, Db, get_storage_node_by_id, get_cluster_by_id,
}
use sbcli.Tasks.{Stamp, add_device_mig_task, add_node_to_auto_restart}
use sbcli.Devices.{write_node, device_set_unavailable, device_set_online}

abbrev pub Outcome : Type 0
Outcome = Result (Unit {0}) × Db

abbrev pub returns : Db → Outcome
returns db = (returned tt, db)

-- What the probes of a node report, the time, and whether a node that comes online can connect to
-- the devices of the others. A device's uuid gives the stamps of the tasks that are added for it.
pub record Probes : Type 0 where
  pub now : Time
  pub ping : Bool
  pub node_api : Bool
  pub spdk_process : Bool
  pub node_rpc : Bool
  pub ports : Bool
  pub connects : Bool
  pub stamps : Name → ℕ → Stamp

-- set_node_status
unfoldable pub set_node_status : Probes → Name → NodeStatus → Db → Result Bool × Db
set_node_status p id status db = elim (get_storage_node_by_id id db) [
  | none ↦ (raised, db)
  | some n ↦
      let since = if node_eq status NodeStatus.online then some p.now else none in
      let db' =
        if node_eq n.status status
        then db
        else write_node (record n { status = status; online_since = since }) db in
      if node_eq status NodeStatus.online
      then (if not p.connects
          then (returned false, db')
          else elim (get_cluster_by_id n.cluster_id db') [
            | none ↦ (raised, db')
            | some c ↦ (returned true, db')
          ])
      else (returned true, db')
]

-- A loop over the devices of a node that calls a function for some of them.
pub for_devices : (Device → Bool) → (Device → Db → Outcome) → List Device → Db → Outcome
for_devices test call [] db = returns db
for_devices test call (d ∷ ds) db =
    let (r, db') = call d db in
    let rest = for_devices test call ds db' in
    let skipped = for_devices test call ds db in
    if test d then elim r [ raised ↦ (raised, db') | returned _ ↦ rest ] else skipped

abbrev pub is_unavailable : Device → Bool
is_unavailable d = device_eq d.status DeviceStatus.unavailable

abbrev pub is_online : Device → Bool
is_online d = device_eq d.status DeviceStatus.online

abbrev pub is_readable : Device → Bool
is_readable d = device_eq d.status DeviceStatus.online || device_eq d.status DeviceStatus.readonly

abbrev pub forget : Result Bool × Db → Outcome
forget r = elim r.0 [ raised ↦ (raised, r.1) | returned _ ↦ (returned tt, r.1) ]

-- the bodies of the loops
pub put_online : Probes → Device → Db → Outcome
put_online p d db = forget (device_set_online (p.stamps d.uuid) d.uuid db)

pub migrate : Probes → Device → Db → Outcome
migrate p d db = forget (add_device_mig_task (p.stamps d.uuid) d.uuid db)

unfoldable pub put_unavailable : Device → Db → Outcome
put_unavailable d db = returns (device_set_unavailable d.uuid db).1

-- one call after another
abbrev pub and_then : Outcome → (Db → Outcome) → Outcome
and_then r next = elim r.0 [ raised ↦ (raised, r.1) | returned _ ↦ next r.1 ]

-- set_node_online; both loops read the devices of the node as it was found.
pub set_node_online : Probes → Node → Db → Outcome
unfolding set_node_status for_devices put_online migrate
set_node_online p n db =
    if node_eq n.status NodeStatus.online
    then returns db
    else and_then (forget (set_node_status p n.uuid NodeStatus.online db)) (λ x.
      and_then (for_devices is_unavailable (put_online p) n.devices x)
        (λ y. for_devices is_online (migrate p) n.devices y))

-- set_node_offline
pub set_node_offline : Probes → Node → Bool → Db → Outcome
unfolding set_node_status for_devices put_unavailable
set_node_offline p n set_devs_offline db =
    if node_eq n.status NodeStatus.unreachable
    then returns db
    else and_then (forget (set_node_status p n.uuid NodeStatus.unreachable db)) (λ x.
      if set_devs_offline then for_devices is_readable put_unavailable n.devices x else returns x)

-- set_node_down
pub set_node_down : Probes → Node → Db → Outcome
unfolding set_node_status
set_node_down p n db =
    if node_eq n.status NodeStatus.down
    then returns db
    else forget (set_node_status p n.uuid NodeStatus.down db)

pub auto_restart : Probes → Node → Db → Outcome
auto_restart p n db =
    let (r, db') = add_node_to_auto_restart n (p.stamps n.uuid 0) db in
    elim r [ raised ↦ (raised, db') | returned _ ↦ returns db' ]

-- the clusters whose nodes are restarted
abbrev pub restarts : ClusterStatus → Bool
restarts s =
    is_serving s || cluster_eq s ClusterStatus.unready || cluster_eq s ClusterStatus.suspended

-- the nodes that are checked
abbrev pub is_watched : NodeStatus → Bool
is_watched s =
    node_eq s NodeStatus.online
    || node_eq s NodeStatus.unreachable
    || node_eq s NodeStatus.schedulable
    || node_eq s NodeStatus.down

abbrev pub lvstore_in_creation : LvstoreStatus → Bool
lvstore_in_creation LvstoreStatus.in_creation = true
lvstore_in_creation s = false

abbrev pub lvstore_ready : LvstoreStatus → Bool
lvstore_ready LvstoreStatus.ready = true
lvstore_ready s = false

-- spdk_process, which is probed through the node's API
abbrev pub has_spdk : Probes → Bool
has_spdk p = p.node_api && p.spdk_process

-- node_port_check
abbrev pub has_ports : Probes → Node → Bool
has_ports p n = not (has_spdk p && p.node_rpc && lvstore_ready n.lvstore_status) || p.ports

-- The two branches on is_node_online.
pub check_online : Probes → ClusterStatus → Node → Db → Outcome
unfolding set_node_online set_node_down auto_restart
check_online p s n db =
    if node_eq n.status NodeStatus.unreachable && restarts s
    then auto_restart p n db
    else if not (has_ports p n) && is_serving s
    then set_node_down p n db
    else set_node_online p n db

pub check_offline : Probes → ClusterStatus → Node → Db → Outcome
unfolding set_node_offline set_node_down auto_restart
check_offline p s n db =
    if not p.ping && not p.node_api && not (has_spdk p)
    then and_then (forget (set_node_status p n.uuid NodeStatus.schedulable db))
        (λ x. for_devices is_readable put_unavailable n.devices x)
    else if p.ping && p.node_api && (not (has_spdk p) || not p.node_rpc)
    then (if restarts s
        then and_then (set_node_offline p n (not (has_spdk p)) db) (λ x. auto_restart p n x)
        else returns db)
    else if not (has_ports p n)
    then (if is_serving s then set_node_down p n db else returns db)
    else set_node_offline p n (not (has_spdk p)) db

-- The body of the loop, for the node `id` of a cluster.
pub check_node : Probes → Name → Name → Db → Outcome
unfolding check_online check_offline
check_node p cluster id db = elim (get_storage_node_by_id id db) [
  | none ↦ (raised, db)
  | some n ↦
      if not (is_watched n.status)
      then returns db
      else if node_eq n.status NodeStatus.online && lvstore_in_creation n.lvstore_status
      then returns db
      else if node_eq n.status NodeStatus.schedulable && not p.ping && not p.node_api
      then returns db
      else elim (get_cluster_by_id cluster db) [
        | none ↦ (raised, db)
        | some c ↦
            if has_spdk p || p.node_rpc
            then check_online p c.status n db
            else check_offline p c.status n db
      ]
]
