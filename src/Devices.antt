-- ===== src/Devices.antt =====
pub mod Frame
pub mod Lost
pub mod Statuses
pub mod Links
pub mod Stored
pub mod Removal
-- State changes of storage devices: simplyblock_core/controllers/device_controller.py.
-- The events that are sent to the other nodes and the log are not modelled.
use sbcli.Prelude.{
  ℕ, Bool, true, false, not, ◌&&◌, Option, none, some, List, [], ◌∷◌, ◌==◌, if◌then◌else◌, find,
  map, is_some, Result, returned, raised,
}
use sbcli.Model.{
  DeviceStatus, device_eq, Name, Device, Node, Db, get_storage_device_by_id, get_storage_node_by_id,
}
use sbcli.Tasks.{Stamp, add_device_mig_task, add_device_failed_mig_task}
use sbcli.TaskQueries.{get_active_dev_restart_task}

abbrev pub same_bool : Bool → Bool → Bool
same_bool true b = b
same_bool false b = not b

-- snode.write_to_db: the nodes that the code writes are stored already, each at one key.
abbrev pub replace_node : Node → List Node → List Node
replace_node n [] = []
replace_node n (m ∷ ms) =
    let rest = replace_node n ms in if m.uuid == n.uuid then n ∷ ms else m ∷ rest

abbrev pub write_node : Node → Db → Db
write_node n db = record db { nodes = replace_node n db.nodes }

-- An assignment to the fields of `device`, the first of the node with its uuid.
abbrev pub replace_device : Device → List Device → List Device
replace_device d [] = []
replace_device d (e ∷ es) =
    let rest = replace_device d es in if e.uuid == d.uuid then d ∷ es else e ∷ rest

abbrev pub with_device : Node → Device → Node
with_device n d = record n { devices = replace_device d n.devices }

-- The query at the head of each function: the node of the device, and the device in it.
abbrev pub locate : Name → Db → Option (Node × Device)
locate id db = elim (get_storage_device_by_id id db) [
  | none ↦ none
  | some dev ↦ elim (get_storage_node_by_id dev.node_id db) [
    | none ↦ none
    | some snode ↦ elim (find (λ d. d.uuid == id) snode.devices) [
      | none ↦ none
      | some d ↦ some (snode, d)
    ]
  ]
]

-- What device_set_state assigns to the device.
abbrev pub enter_state : DeviceStatus → Device → Device
enter_state state d = record d {
  status = state;
  retries_exhausted = if device_eq state DeviceStatus.online then false else d.retries_exhausted;
  deleted = if device_eq state DeviceStatus.removed then true else d.deleted;
}

-- The tests of device_set_state once the device is found. The object is written only where its
-- status changes.
set_state : DeviceStatus → Db → Node → Device → Bool × Db
set_state state db snode d =
    if device_eq state DeviceStatus.readonly && device_eq d.status DeviceStatus.unavailable
    then (false, db)
    else if not (device_eq d.status state)
    then (true, write_node (with_device snode (enter_state state d)) db)
    else (true, db)

pub device_set_state : Name → DeviceStatus → Db → Bool × Db
unfolding set_state
device_set_state id state db = elim (locate id db) [
  | none ↦ (false, db)
  | some (snode, d) ↦ set_state state db snode d
]

-- device_set_io_error: an unbound `device` raises.
pub device_set_io_error : Name → Bool → Db → Result Bool × Db
device_set_io_error id is_error db = elim (get_storage_device_by_id id db) [
  | none ↦ (returned false, db)
  | some dev ↦ elim (get_storage_node_by_id dev.node_id db) [
    | none ↦ (returned false, db)
    | some snode ↦ elim (find (λ d. d.uuid == id) snode.devices) [
      | none ↦ (raised, db)
      | some d ↦
          if same_bool d.io_error is_error
          then (returned true, db)
          else (returned true, write_node (with_device snode (record d { io_error = is_error })) db)
    ]
  ]
]

-- device_set_retries_exhausted: the flag is set on `dev`, an object of the first query, and `snode`,
-- which the second query has read with device objects of its own, is written.
pub device_set_retries_exhausted : Name → Bool → Db → Bool × Db
device_set_retries_exhausted id retries_exhausted db = elim (get_storage_device_by_id id db) [
  | none ↦ (false, db)
  | some dev ↦ elim (get_storage_node_by_id dev.node_id db) [
    | none ↦ (false, db)
    | some snode ↦
        if same_bool dev.retries_exhausted retries_exhausted
        then (true, db)
        else (true, write_node snode db)
  ]
]

unfoldable pub device_set_unavailable : Name → Db → Bool × Db
unfolding device_set_state
device_set_unavailable id db = device_set_state id DeviceStatus.unavailable db

pub device_set_read_only : Name → Db → Bool × Db
unfolding device_set_state
device_set_read_only id db = device_set_state id DeviceStatus.readonly db

-- device_set_online: a state change that succeeds is followed by a balancing run for the device.
pub device_set_online : (ℕ → Stamp) → Name → Db → Result Bool × Db
unfolding device_set_state
device_set_online stamps id db =
    let (ret, after) = device_set_state id DeviceStatus.online db in
    if ret
    then (let (added, db') = add_device_mig_task stamps id after in
        elim added [ raised ↦ (raised, db') | returned _ ↦ (returned true, db') ])
    else (returned false, after)

-- device_set_failed: the None at its end is read as False.
pub device_set_failed : (ℕ → Stamp) → Name → Db → Result Bool × Db
unfolding device_set_state
device_set_failed stamps id db = elim (get_storage_device_by_id id db) [
  | none ↦ (returned false, db)
  | some dev ↦ elim (get_storage_node_by_id dev.node_id db) [
    | none ↦ (returned false, db)
    | some snode ↦
        if is_some (get_active_dev_restart_task snode.cluster_id id db)
        then (returned false, db)
        else if device_eq dev.status DeviceStatus.failed
        then (returned true, db)
        else (let (added, db') =
              add_device_failed_mig_task stamps id (device_set_state id DeviceStatus.failed db).1 in
            elim added [ raised ↦ (raised, db') | returned _ ↦ (returned false, db') ])
  ]
]

-- device_set_failed_and_migrated
pub device_set_failed_and_migrated : Name → Db → Result Bool × Db
unfolding device_set_state
device_set_failed_and_migrated id db =
    let after = (device_set_state id DeviceStatus.failed_and_migrated db).1 in
    elim (get_storage_device_by_id id after) [
      | none ↦ (raised, after)
      | some dev ↦ (returned true, after)
    ]
