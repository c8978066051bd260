-- ===== src/Devices/Removal.antt =====
-- device_remove and reset_storage_device of simplyblock_core/controllers/device_controller.py. The
-- JM device, which a removal restarts, is no part of the model.
pub mod Taken
use sbcli.Prelude.{
  ℕ, Bool, true, false, not, ◌&&◌, ◌||◌, Option, none, some, ◌==◌, find, is_some, if◌then◌else◌,
  Result, returned, raised,
}
use sbcli.Model.{
  DeviceStatus, device_eq, Name, Device, Node, Db, get_storage_device_by_id, get_storage_node_by_id,
}
use sbcli.Tasks.{Stamp}
use sbcli.TaskQueries.{get_active_dev_restart_task}
use sbcli.Devices.{
  device_set_state, device_set_unavailable, device_set_io_error, device_set_retries_exhausted,
  device_set_online,
}

-- What the storage process replies to the deletions of a removal, and whether the node has a test
-- device.
pub record Replies : Type 0 where
  pub subsystem : Bool
  pub passthrough : Bool
  pub alceml : Bool
  pub qos : Bool
  pub testing : Bool
  pub has_test_device : Bool

-- All deletions that are called succeed.
abbrev pub all_deleted : Replies → Bool
all_deleted r =
    r.subsystem
    && r.passthrough
    && r.alceml
    && r.qos
    && (if r.has_test_device then r.testing else true)

abbrev pub cannot_remove : DeviceStatus → Bool
cannot_remove s = device_eq s DeviceStatus.removed || device_eq s DeviceStatus.failed

-- From the test of the device's status on.
pub remove_found : Replies → Bool → Name → Node → Device → Db → Result Bool × Db
remove_found r force id snode d db =
    if cannot_remove d.status
    then (returned false, db)
    else if is_some (get_active_dev_restart_task snode.cluster_id id db) && not force
    then (returned false, db)
    else (let x = (device_set_unavailable id db).1 in
        if not (all_deleted r) && not force
        then (returned false, x)
        else (returned true, (device_set_state id DeviceStatus.removed x).1))

-- device_remove: an unbound `device` raises.
pub device_remove : Replies → Bool → Name → Db → Result Bool × Db
unfolding remove_found
device_remove r force id db = elim (get_storage_device_by_id id db) [
  | none ↦ (returned false, db)
  | some dev ↦ elim (get_storage_node_by_id dev.node_id db) [
    | none ↦ (returned false, db)
    | some snode ↦ elim (find (λ d. d.uuid == id) snode.devices) [
      | none ↦ (raised, db)
      | some d ↦ remove_found r force id snode d db
    ]
  ]
]

abbrev pub cannot_reset : DeviceStatus → Bool
cannot_reset s =
    device_eq s DeviceStatus.removed
    || device_eq s DeviceStatus.failed
    || device_eq s DeviceStatus.failed_and_migrated

-- What follows a reset that succeeds.
pub reset_done : (ℕ → Stamp) → Name → Db → Result Bool × Db
reset_done stamps id db =
    let (set, x) = device_set_io_error id false db in
    elim set [
      | raised ↦ (raised, x)
      | returned _ ↦
          let (online, y) =
            device_set_online stamps id (device_set_retries_exhausted id false x).1 in
          elim online [ raised ↦ (raised, y) | returned _ ↦ (returned true, y) ]
    ]

-- reset_storage_device; `resets` is the reply of the storage process.
pub reset_storage_device : (ℕ → Stamp) → (resets : Bool) → Name → Db → Result Bool × Db
unfolding reset_done
reset_storage_device stamps resets id db = elim (get_storage_device_by_id id db) [
  | none ↦ (returned false, db)
  | some dev ↦ elim (get_storage_node_by_id dev.node_id db) [
    | none ↦ (returned false, db)
    | some snode ↦
        if cannot_reset dev.status
        then (returned false, db)
        else if is_some (get_active_dev_restart_task snode.cluster_id id db)
        then (returned false, db)
        else (let x = (device_set_unavailable id db).1 in
            if not resets then (returned false, x) else reset_done stamps id x)
  ]
]
