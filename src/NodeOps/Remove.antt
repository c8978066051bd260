-- ===== src/NodeOps/Remove.antt =====
-- remove_storage_node and delete_storage_node of simplyblock_core/storage_node_ops.py. The swarm is
-- no part of the model.
pub mod Spared
pub mod Removed
use sbcli.Prelude.{
  ℕ, Bool, true, false, not, ◌&&◌, ◌||◌, Option, none, some, List, [], ◌∷◌, ◌==◌, map, keep,
  if◌then◌else◌, Result, returned, raised,
}
use sbcli.Model.{
  NodeStatus, DeviceStatus, device_eq, is_set, Name, Task, Device, Node, Db, get_storage_node_by_id,
  get_cluster_by_id,
}
use sbcli.TaskQueries.{get_active_node_tasks}
use sbcli.Devices.{device_set_failed}
use sbcli.Devices.Links.{disconnect_device, remove_jm_device}
use sbcli.Volumes.{Lvol, Snapshot, Store, get_lvols_by_node_id}
use sbcli.Volumes.Deletion.{Remote, delete_snapshot, delete_lvol}
use sbcli.NodeMonitor.{
  Probes, Outcome, returns, and_then, set_node_status, for_devices, is_online, forget,
}
use sbcli.NodeOps.{Reply, has_status, has_tasks, cancel_tasks}

-- True is written for the None at the end of both functions.
abbrev pub Removal : Type 0
Removal = Result Bool × (Db × Store)

-- The arguments, what the storage processes reply, how many deletions may stand within one another,
-- and whether the calls of the node's API pass without an exception.
pub record Removing : Type 0 where
  pub force_remove : Bool
  pub force_migrate : Bool
  pub remote : Remote
  pub fuel : ℕ
  pub clears : Bool

abbrev pub is_empty {ℓ} : {A : Type ℓ} → List A → Bool
is_empty [] = true
is_empty (x ∷ xs) = false

-- A loop that deletes objects and does not read the replies.
pub delete_each {ℓ} :
    {B : Type ℓ} → (Name → Store → Result B × Store) → List Name → Store → Result (Unit {0}) × Store
delete_each call [] s = (returned tt, s)
delete_each call (id ∷ ids) s =
    let (reply, s') = call id s in
    let rest = delete_each call ids s' in elim reply [ raised ↦ (raised, s') | returned _ ↦ rest ]

-- The volumes of the node; `none` is the refusal.
pub clear_lvols : Removing → Name → Db → Store → Option (Result (Unit {0}) × Store)
unfolding delete_each
clear_lvols r id db s =
    let lvols = get_lvols_by_node_id id s in
    if is_empty lvols || r.force_migrate
    then some (returned tt, s)
    else if r.force_remove
    then some (
        delete_each (λ l t. delete_lvol r.fuel r.remote true true l db t) (map (λ l. l.uuid) lvols)
          s)
    else none

abbrev pub node_snaps : Name → Store → List Snapshot
node_snaps id s = keep (λ p. p.lvol.node_id == id && not p.deleted) s.snapshots

-- The snapshots of the node.
pub clear_snaps : Removing → Name → Db → Store → Option (Result (Unit {0}) × Store)
unfolding delete_each
clear_snaps r id db s =
    let again = λ (base : Name) (t : Store). delete_lvol r.fuel r.remote false true base db t in
    if is_empty (node_snaps id s)
    then some (returned tt, s)
    else if r.force_migrate
    then none
    else if r.force_remove
    then some (
        delete_each (λ p t. delete_snapshot again r.remote false p db t)
          (map (λ p. p.uuid) (node_snaps id s)) s)
    else none

-- The test of the last loop.
abbrev pub is_in_use : Device → Bool
is_in_use d =
    not (device_eq d.status DeviceStatus.jm || device_eq d.status DeviceStatus.failed_and_migrated)

pub put_failed : Probes → Device → Db → Outcome
put_failed p d db = forget (device_set_failed (p.stamps d.uuid) d.uuid db)

-- From the read of the cluster on.
pub take_out : Probes → Removing → Node → Db → Store → Removal
unfolding put_failed
take_out p r n db s = elim (get_cluster_by_id n.cluster_id db) [
  | none ↦ (raised, (db, s))
  | some c ↦
      if not r.clears
      then (returned false, (db, s))
      else (let (reply, x) = set_node_status p n.uuid NodeStatus.removed db in
          elim reply [
            | raised ↦ (raised, (x, s))
            | returned _ ↦
                let (o, y) = for_devices is_in_use (put_failed p) n.devices x in
                elim o [ raised ↦ (raised, (y, s)) | returned _ ↦ (returned true, (y, s)) ]
          ])
]

-- From the loop over the node's devices to the removal of its JM device.
pub disconnect : Node → Db → Outcome
disconnect n db =
    and_then (for_devices is_online (λ d x. returns (disconnect_device d x)) n.devices db) (λ x.
      elim n.jm_device [
        | none ↦ returns x
        | some jm ↦
            if is_set jm.uuid
              && (device_eq jm.status DeviceStatus.online
                  || device_eq jm.status DeviceStatus.unavailable)
            then remove_jm_device jm.uuid x
            else returns x
      ])

-- From there on.
pub leave_cluster : Probes → Removing → Node → Db → Store → Removal
unfolding take_out disconnect
leave_cluster p r n db s =
    let (o, x) = disconnect n db in
    elim o [ raised ↦ (raised, (x, s)) | returned _ ↦ take_out p r n x s ]

-- From the read of the volumes on.
pub clear_node : Probes → Removing → Node → Db → Store → Removal
unfolding leave_cluster clear_lvols clear_snaps
clear_node p r n db s = elim (clear_lvols r n.uuid db s) [
  | none ↦ (returned false, (db, s))
  | some (o, s') ↦ elim o [
    | raised ↦ (raised, (db, s'))
    | returned _ ↦ elim (clear_snaps r n.uuid db s') [
      | none ↦ (returned false, (db, s'))
      | some (o', s'') ↦ elim o' [
        | raised ↦ (raised, (db, s''))
        | returned _ ↦ leave_cluster p r n db s''
      ]
    ]
  ]
]

-- remove_storage_node
pub remove_storage_node : Probes → Removing → Name → Db → Store → Removal
unfolding clear_node
remove_storage_node p r id db s = elim (get_storage_node_by_id id db) [
  | none ↦ (returned false, (db, s))
  | some n ↦
      let tasks = get_active_node_tasks n.cluster_id n.uuid db in
      if has_status NodeStatus.online n
      then (returned false, (db, s))
      else if has_tasks tasks && not r.force_remove
      then (returned false, (db, s))
      else clear_node p r n (cancel_tasks (λ _. true) tasks db) s
]

abbrev pub remove_node : Name → Db → Db
remove_node id db = record db { nodes = keep (λ n. not (n.uuid == id)) db.nodes }

-- delete_storage_node
pub delete_storage_node : Bool → Name → Db → Reply
delete_storage_node force id db = elim (get_storage_node_by_id id db) [
  | none ↦ (returned false, db)
  | some n ↦
      let tasks = get_active_node_tasks n.cluster_id n.uuid db in
      if not (has_status NodeStatus.removed n)
      then (returned false, db)
      else if has_tasks tasks && not force
      then (returned false, db)
      else (returned true, remove_node n.uuid (cancel_tasks (λ _. true) tasks db))
]
