-- ===== src/Devices/Statuses.antt =====
-- State changes of devices leave the stored statuses of the nodes as they are.
use sbcli.Prelude.{
  ℕ, Bool, true, not, ◌&&◌, Option, none, some, List, [], ◌∷◌, ◌≡◌, refl, ap, ◌∙◌, arith, ◌==◌,
  find, find-passes, is_some, if◌then◌else◌, Result, if-cases, option-cases, result-cases,
}
use sbcli.Model.{
  NodeStatus, DeviceStatus, device_eq, Name, Device, Node, Db, get_storage_node_by_id,
  get_storage_device_by_id,
}
use sbcli.Tasks.{Stamp, add_device_mig_task, add_device_failed_mig_task}
use sbcli.TaskQueries.{get_active_dev_restart_task}
use sbcli.Tasks.Nodes.{add_device_mig_task_nodes, add_device_failed_mig_task_nodes}
use sbcli.Devices.{
  replace_node, write_node, locate, device_set_state, device_set_unavailable, device_set_online,
  device_set_failed,
}

-- The stored status of a node.
abbrev pub status_in : Name → List Node → Option NodeStatus
status_in id ns = elim (find (λ n. n.uuid == id) ns) [ none ↦ none | some n ↦ some n.status ]

abbrev pub status_of : Name → Db → Option NodeStatus
status_of id db = status_in id db.nodes

-- All nodes keep their statuses.
abbrev pub SameStatuses : Db → Db → Type 0
SameStatuses before after = (id : Name) → status_of id after ≡ status_of id before

pub replace_node_status :
    (id : Name) (n m : Node) (ns : List Node)
    → find (λ x. x.uuid == m.uuid) ns ≡ some n
    → status_in id (replace_node m ns) ≡ (if m.uuid == id then some m.status else status_in id ns)
replace_node_status id n m [] h = cc
replace_node_status id n m (x ∷ xs) h = ground (arith, replace_node_status id n m xs)

status_found :
    (id : Name) (n : Node) (ns : List Node)
    → find (λ x. x.uuid == n.uuid) ns ≡ some n
    → (n.uuid == id) ≡ true
    → status_in id ns ≡ some n.status
status_found id n [] h e = cc
status_found id n (x ∷ xs) h e = ground (arith, status_found id n xs)

-- A node is found by its own key.
pub found_key :
    (id : Name) (n : Node) (db : Db)
    → get_storage_node_by_id id db ≡ some n
    → get_storage_node_by_id n.uuid db ≡ some n
found_key id n db h = cc (h, key)
  where
    key : n.uuid ≡ id
    key = ground (arith, find-passes (λ (x : Node). x.uuid == id) db.nodes n h)

-- A write of a stored node with the status it has.
write-SameStatuses :
    (n m : Node) (db : Db)
    → get_storage_node_by_id n.uuid db ≡ some n
    → m.uuid ≡ n.uuid
    → m.status ≡ n.status
    → SameStatuses db (write_node m db)
write-SameStatuses n m db h e f id = ground (
  arith,
  replace_node_status id n m db.nodes (ap (λ u. find (λ (x : Node). x.uuid == u) db.nodes) e ∙ h),
  status_found id n db.nodes h,
)

locate_key :
    (id : Name) (p : Node × Device) (db : Db)
    → locate id db ≡ some p
    → get_storage_node_by_id p.0.uuid db ≡ some p.0
locate_key id p db =
    option-cases P (get_storage_device_by_id id db) (λ _. λ h. cc)
      λ dev _.
        option-cases P (get_storage_node_by_id dev.node_id db) (λ _. λ h. cc)
          λ snode e.
            option-cases P (find (λ x. x.uuid == id) snode.devices) (λ _. λ h. cc)
              λ x _. λ h. same (snode, x) (found_key dev.node_id snode db e) h
  where
    P : Option (Node × Device) → Type 0
    P o = o ≡ some p → get_storage_node_by_id p.0.uuid db ≡ some p.0

    inj : (q : Node × Device) → some q ≡ some p → q ≡ p
    inj q e = cc

    same :
        (q : Node × Device)
        → get_storage_node_by_id q.0.uuid db ≡ some q.0
        → some q ≡ some p
        → get_storage_node_by_id p.0.uuid db ≡ some p.0
    same q e f = rw⁻¹ (inj q f) e

pub device_set_state-SameStatuses :
    (id : Name) (state : DeviceStatus) (db : Db) → SameStatuses db (device_set_state id state db).1
unfolding device_set_state
device_set_state-SameStatuses id state db =
    option-cases P (locate id db) (λ _. λ i. refl)
      λ p e.
        if-cases P
          (device_eq state DeviceStatus.readonly && device_eq p.1.status DeviceStatus.unavailable)
          (λ _. λ i. refl)
          λ _.
            if-cases P (not (device_eq p.1.status state))
              (λ _. write-SameStatuses p.0 _ db (locate_key id p db e) refl refl) (λ _. λ i. refl)
  where
    P : Bool × Db → Type 0
    P r = SameStatuses db r.1

pub device_set_unavailable-SameStatuses :
    (id : Name) (db : Db) → SameStatuses db (device_set_unavailable id db).1
unfolding device_set_unavailable
device_set_unavailable-SameStatuses id db =
    device_set_state-SameStatuses id DeviceStatus.unavailable db

pub device_set_online-SameStatuses :
    (stamps : ℕ → Stamp) (id : Name) (db : Db) → SameStatuses db (device_set_online stamps id db).1
unfolding device_set_online
device_set_online-SameStatuses stamps id db =
    if-cases P (device_set_state id DeviceStatus.online db).0
      (λ _. result-cases P (add_device_mig_task stamps id after).0 (λ _. added) (λ _ _. added))
      (λ _. device_set_state-SameStatuses id DeviceStatus.online db)
  where
    P : Result Bool × Db → Type 0
    P r = SameStatuses db r.1

    after : Db
    after = (device_set_state id DeviceStatus.online db).1

    added : SameStatuses db (add_device_mig_task stamps id after).1
    added i =
        ap (status_in i) (add_device_mig_task_nodes stamps id after)
        ∙ device_set_state-SameStatuses id DeviceStatus.online db i

pub device_set_failed-SameStatuses :
    (stamps : ℕ → Stamp) (id : Name) (db : Db) → SameStatuses db (device_set_failed stamps id db).1
unfolding device_set_failed
device_set_failed-SameStatuses stamps id db =
    option-cases P (get_storage_device_by_id id db) (λ _. λ k. refl)
      λ dev _.
        option-cases P (get_storage_node_by_id dev.node_id db) (λ _. λ k. refl)
          λ snode _.
            if-cases P (is_some (get_active_dev_restart_task snode.cluster_id id db))
              (λ _. λ k. refl)
              λ _.
                if-cases P (device_eq dev.status DeviceStatus.failed) (λ _. λ k. refl)
                  (λ _.
                    result-cases P (add_device_failed_mig_task stamps id after).0 (λ _. added)
                      (λ _ _. added))
  where
    P : Result Bool × Db → Type 0
    P r = SameStatuses db r.1

    after : Db
    after = (device_set_state id DeviceStatus.failed db).1

    added : SameStatuses db (add_device_failed_mig_task stamps id after).1
    added i =
        ap (status_in i) (add_device_failed_mig_task_nodes stamps id after)
        ∙ device_set_state-SameStatuses id DeviceStatus.failed db i
