-- ===== src/Devices/Links.antt =====
-- The connections of the nodes to a device, and the JM device of a node: disconnect_device of
-- simplyblock_core/distr_controller.py, set_jm_device_state and remove_jm_device of
-- simplyblock_core/controllers/device_controller.py, for the states that make no node connect.
pub mod Kept
use sbcli.Prelude.{
  Bool, true, false, not, ◌&&◌, ◌||◌, Option, none, some, List, [], ◌∷◌, ◌==◌, keep, if◌then◌else◌,
  Result, returned, raised,
}
use sbcli.Prelude.Table.{put_all}
use sbcli.Model.{
  NodeStatus, DeviceStatus, node_eq, device_eq, Name, Device, JmDevice, Node, Db, is_set,
}
use sbcli.Devices.{write_node}

abbrev pub node_name : Node → Name
node_name n = n.uuid

-- The assignment to remote_devices.
abbrev pub without : Name → Node → Node
without id n = record n { remote_devices = keep (λ d. not (d == id)) n.remote_devices }

-- The nodes that the loop writes.
abbrev pub connects_to : Device → Node → Bool
connects_to d n = n.cluster_id == d.cluster_id && node_eq n.status NodeStatus.online

-- disconnect_device: the nodes are read at once, and each is written.
pub disconnect_device : Device → Db → Db
disconnect_device d db = record db {
  nodes = put_all node_name (without d.uuid) (keep (connects_to d) db.nodes) db.nodes;
}

-- get_storage_node_by_jm_device: a node without a JM device raises AttributeError; `none` is the
-- KeyError.
pub get_storage_node_by_jm_device : Name → List Node → Result (Option (Node × JmDevice))
get_storage_node_by_jm_device id [] = returned none
get_storage_node_by_jm_device id (n ∷ ns) =
    let rest = get_storage_node_by_jm_device id ns in
    elim n.jm_device [
      | none ↦ raised
      | some jm ↦ if jm.uuid == id then returned (some (n, jm)) else rest
    ]

-- set_jm_device_state, for a state other than online; the reply is not read.
pub set_jm_device_state : Name → DeviceStatus → Db → Result (Unit {0}) × Db
unfolding get_storage_node_by_jm_device
set_jm_device_state id state db = elim (get_storage_node_by_jm_device id db.nodes) [
  | raised ↦ (raised, db)
  | returned found ↦ elim found [
    | none ↦ (returned tt, db)
    | some (n, jm) ↦ if device_eq jm.status state then (returned tt, db) else (
      returned tt,
      write_node (record n { jm_device = some (record jm { status = state }) }) db,
    )
  ]
]

-- remove_jm_device; the reply is not read.
pub remove_jm_device : Name → Db → Result (Unit {0}) × Db
unfolding set_jm_device_state
remove_jm_device id db = elim (get_storage_node_by_jm_device id db.nodes) [
  | raised ↦ (raised, db)
  | returned found ↦ elim found [
    | none ↦ (returned tt, db)
    | some (n, jm) ↦
        let (o, x) = set_jm_device_state id DeviceStatus.unavailable db in
        let rest = set_jm_device_state id DeviceStatus.removed x in
        elim o [ raised ↦ (raised, x) | returned _ ↦ rest ]
  ]
]
