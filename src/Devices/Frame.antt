-- ===== src/Devices/Frame.antt =====
-- What the state changes of a device leave alone.
use sbcli.Prelude.{ℕ, ◌∙◌, if-cases, result-cases, Bool, ◌≡◌, refl, arith, option-cases, Result}
use sbcli.Model.{DeviceStatus, Name, Db, Node, Device, get_storage_device_by_id}
use sbcli.Tasks.{Stamp, add_device_mig_task}
use sbcli.Tasks.Nodes.{add_device_mig_task_clusters}
use sbcli.Devices.{
  device_set_online, device_set_state, set_state, locate, device_set_failed_and_migrated,
}

-- A state change leaves tasks and clusters alone.
set_state-frame :
    (state : DeviceStatus) (db : Db) (n : Node) (d : Device)
    → ((set_state state db n d).1.tasks ≡ db.tasks)
      × ((set_state state db n d).1.clusters ≡ db.clusters)
unfolding set_state
set_state-frame state db n d = ground arith

pub device_set_state-frame :
    (id : Name) (state : DeviceStatus) (db : Db)
    → ((device_set_state id state db).1.tasks ≡ db.tasks)
      × ((device_set_state id state db).1.clusters ≡ db.clusters)
unfolding device_set_state
device_set_state-frame id state db =
    option-cases (λ (r : Bool × Db). (r.1.tasks ≡ db.tasks) × (r.1.clusters ≡ db.clusters))
      (locate id db) (λ _. (refl, refl)) (λ p _. set_state-frame state db p.0 p.1)

pub failed_and_migrated-frame :
    (id : Name) (db : Db)
    → ((device_set_failed_and_migrated id db).1.tasks ≡ db.tasks)
      × ((device_set_failed_and_migrated id db).1.clusters ≡ db.clusters)
unfolding device_set_failed_and_migrated
failed_and_migrated-frame id db =
    option-cases (λ (r : Result Bool × Db). (r.1.tasks ≡ db.tasks) × (r.1.clusters ≡ db.clusters))
      (get_storage_device_by_id id (device_set_state id DeviceStatus.failed_and_migrated db).1)
      (λ _. device_set_state-frame id DeviceStatus.failed_and_migrated db)
      (λ _ _. device_set_state-frame id DeviceStatus.failed_and_migrated db)

pub device_set_online_clusters :
    (stamps : ℕ → Stamp) (id : Name) (db : Db)
    → (device_set_online stamps id db).1.clusters ≡ db.clusters
unfolding device_set_online
device_set_online_clusters stamps id db =
    if-cases P (device_set_state id DeviceStatus.online db).0
      (λ _. result-cases P (add_device_mig_task stamps id after).0 (λ _. added) (λ _ _. added))
      (λ _. (device_set_state-frame id DeviceStatus.online db).1)
  where
    P : Result Bool × Db → Type 0
    P r = r.1.clusters ≡ db.clusters

    after : Db
    after = (device_set_state id DeviceStatus.online db).1

    added : (add_device_mig_task stamps id after).1.clusters ≡ db.clusters
    added =
        add_device_mig_task_clusters stamps id after
        ∙ (device_set_state-frame id DeviceStatus.online db).1
