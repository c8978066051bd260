-- ===== src/Tasks/Loops.antt =====
-- The loops over nodes and bdevs that add migration tasks.
use sbcli.Prelude.{
  ℕ, ◌≤◌, negsuc, false, ◌&&◌, List, [], ◌∷◌, ◌≡◌, refl, none, arith, ◌==◌, count, find, is_some,
  if◌then◌else◌, if-keep, Option-cases, Bool-cases, inl, inr, returned,
}
use sbcli.Model.{
  get_storage_nodes_by_cluster_id, write_task, NodeStatus, node_eq, FunctionName, Name, Device,
  Node, Bdev, Db, fn_eq, get_job_tasks, get_storage_device_by_id,
}
use sbcli.Model.Keys.{count-put_task, not_found-count}
use sbcli.Tasks.{
  is_node_restart, is_device_mig, is_new_device_mig, Stamp, Adding, add_task, distr_params, add_one,
  add_for_bdevs, add_for_nodes, adding, add_mig_tasks, is_balancing, add_device_mig_task,
  add_master, add_device_failed_mig_task, add_new_device_mig_task, new_task, master_task,
}
use sbcli.Tasks.Unique.{NoDuplicates, add_task-NoDuplicates}

-- What every call of _add_task keeps, the loops keep.
module _ {P : Db → Type 0} (fn : FunctionName) (stamps : ℕ → Stamp) (device : Device)
    (step : (n : Node) (b : Bdev) (st : Stamp) (db : Db)
      → P db
      → P
          (add_task fn device.cluster_id n.uuid device.uuid
            (negsuc 0)
            (distr_params b.name)
            st
            db).1) where
  for_bdevs_keep :
      (n : Node) (bs : List Bdev) (a : Adding)
      → P a.db
      → P (add_for_bdevs fn stamps device n bs a).db
  unfolding add_for_bdevs add_one
  for_bdevs_keep n [] a h = h
  for_bdevs_keep n (b ∷ bs) a h =
      for_bdevs_keep n bs _
        (if-keep (λ (x : Adding). P x.db) b.is_distr (step n b (stamps a.used) a.db h) h)

  pub for_nodes_keep :
      (ns : List Node) (a : Adding) → P a.db → P (add_for_nodes fn stamps device ns a).db
  unfolding add_for_nodes
  for_nodes_keep [] a h = h
  for_nodes_keep (n ∷ ns) a h = for_nodes_keep ns _ (
      if-keep (λ (x : Adding). P x.db) (node_eq n.status NodeStatus.removed) h
        (for_bdevs_keep n n.lvstore_stack a h))

-- The invariant of the three functions that add migration tasks for a device.
pub record IsUnique (db : Db) : Type 0 where
  pub kinds : NoDuplicates db.tasks
  pub masters : (c : Name) → count (λ t. t.cluster_id == c && is_balancing t) db.tasks ≤ 1

module _ (fn : FunctionName)
    (other : fn_eq fn FunctionName.balancing_after_node_restart ≡ false) where
  add_masters :
      (c n d : Name) (b : Bdev) (st : Stamp) (db : Db) (e : Name)
      → count
          (λ t. t.cluster_id == e && is_balancing t)
          (add_task fn c n d (negsuc 0) (distr_params b.name) st db).1.tasks
        ≤ count (λ t. t.cluster_id == e && is_balancing t) db.tasks
  unfolding add_task
  add_masters c n d b st db e = ground (
    arith,
    count-put_task (λ t. t.cluster_id == e && is_balancing t)
        (new_task fn c n d (negsuc 0) (distr_params b.name) st) db.tasks,
  )

  add_one-IsUnique :
      (c n d : Name) (b : Bdev) (st : Stamp) (db : Db)
      → IsUnique db
      → IsUnique (add_task fn c n d (negsuc 0) (distr_params b.name) st db).1
  add_one-IsUnique c n d b st db h = record {
    kinds = add_task-NoDuplicates fn c n d (negsuc 0) (distr_params b.name) st db h.kinds;
    masters = λ e. omega (arith, add_masters c n d b st db e, h.masters e);
  }

  adding-IsUnique :
      (stamps : ℕ → Stamp) (device : Device) (db : Db)
      → IsUnique db
      → IsUnique (adding fn stamps device db).db
  unfolding adding
  adding-IsUnique stamps device db h =
      for_nodes_keep fn stamps device
        (λ n b st x k. add_one-IsUnique device.cluster_id n.uuid device.uuid b st x k)
        (get_storage_nodes_by_cluster_id device.cluster_id db)
        (record { sub_tasks = []; used = 0; db = db }) h

  -- the loops leave the masters as they are
  adding_masters :
      (stamps : ℕ → Stamp) (device : Device) (db : Db) (c : Name)
      → count (λ t. t.cluster_id == c && is_balancing t) (adding fn stamps device db).db.tasks
        ≤ count (λ t. t.cluster_id == c && is_balancing t) db.tasks
  unfolding adding
  adding_masters stamps device db c =
      for_nodes_keep
        {P = λ x.
          count (λ t. t.cluster_id == c && is_balancing t) x.tasks
          ≤ count (λ t. t.cluster_id == c && is_balancing t) db.tasks}
        fn stamps device
        (λ n b st x k. omega (arith, add_masters device.cluster_id n.uuid device.uuid b st x c))
        (get_storage_nodes_by_cluster_id device.cluster_id db)
        (record { sub_tasks = []; used = 0; db = db }) (omega arith)

  add_mig_tasks-IsUnique :
      (stamps : ℕ → Stamp) (id : Name) (db : Db)
      → IsUnique db
      → IsUnique (add_mig_tasks fn stamps id db).1
  unfolding add_mig_tasks
  add_mig_tasks-IsUnique stamps id db h = elim (Option-cases (get_storage_device_by_id id db)) [
    | inl e ↦ rw (e, add_mig_tasks) h
    | inr (device, e) ↦ rw (e, add_mig_tasks) (adding-IsUnique stamps device db h)
  ]

-- A failed-device migration added for every distr of the cluster adds no second active task of a
-- deduplicated kind.
pub add_device_failed_mig_task-IsUnique :
    (stamps : ℕ → Stamp) (id : Name) (db : Db)
    → IsUnique db
    → IsUnique (add_device_failed_mig_task stamps id db).1
unfolding add_device_failed_mig_task
add_device_failed_mig_task-IsUnique = add_mig_tasks-IsUnique FunctionName.failed_dev_mig refl

-- An expansion added for every distr of the cluster adds no second active task of a deduplicated
-- kind.
pub add_new_device_mig_task-IsUnique :
    (stamps : ℕ → Stamp) (id : Name) (db : Db)
    → IsUnique db
    → IsUnique (add_new_device_mig_task stamps id db).1
unfolding add_new_device_mig_task
add_new_device_mig_task-IsUnique = add_mig_tasks-IsUnique FunctionName.new_dev_mig refl

-- A master task keeps the invariant where its cluster has no active master.
master-IsUnique :
    (device : Device) (subs : List Name) (st : Stamp) (db : Db)
    → count (λ t. t.cluster_id == device.cluster_id && is_balancing t) db.tasks ≡ 0
    → IsUnique db
    → IsUnique (write_task (master_task device subs st) db)
master-IsUnique device subs st db none_active h = record {
  kinds = record {
    restart_once = λ c n. ground (
      arith,
      h.kinds.restart_once c n,
      count-put_task (λ t. t.cluster_id == c && is_node_restart n t) (master_task device subs st)
          db.tasks,
    );
    mig_once = λ c n d name. ground (
      arith,
      h.kinds.mig_once c n d name,
      count-put_task (λ t. t.cluster_id == c && is_device_mig n d name t)
          (master_task device subs st) db.tasks,
    );
    expansion_once = λ c n name. ground (
      arith,
      h.kinds.expansion_once c n name,
      count-put_task (λ t. t.cluster_id == c && is_new_device_mig n name none t)
          (master_task device subs st) db.tasks,
    );
  };
  masters = λ c. ground (
    arith,
    h.masters c,
    none_active,
    count-put_task (λ t. t.cluster_id == c && is_balancing t) (master_task device subs st) db.tasks,
  );
}

add_master-IsUnique :
    (stamp : Stamp) (device : Device) (db : Db) (subs : List Name)
    → count (λ t. t.cluster_id == device.cluster_id && is_balancing t) db.tasks ≡ 0
    → IsUnique db
    → IsUnique (add_master stamp device db subs).1
unfolding add_master
add_master-IsUnique stamp device db [] e h = h
add_master-IsUnique stamp device db (s ∷ ss) e h = master-IsUnique device (s ∷ ss) stamp db e h

for_device :
    (stamps : ℕ → Stamp) (device : Device) (db : Db)
    → IsUnique db
    → IsUnique
        (if is_some (find is_balancing (get_job_tasks device.cluster_id db))
          then (returned false, db)
          else (let a = adding FunctionName.dev_mig stamps device db in
              add_master (stamps a.used) device a.db a.sub_tasks)).1
for_device stamps device db h =
    elim (Bool-cases (is_some (find is_balancing (get_job_tasks device.cluster_id db)))) [
      | inl found ↦ rw found h
      | inr not_found ↦ rw not_found (
          add_master-IsUnique _ device _ _
            (omega (
              arith,
              adding_masters FunctionName.dev_mig refl stamps device db device.cluster_id,
              not_found-count is_balancing device.cluster_id db not_found,
            ))
            (adding-IsUnique FunctionName.dev_mig refl stamps device db h))
    ]

-- A balancing run for a device adds at most one active migration for each node, device and distr,
-- and at most one active master task to a cluster.
pub add_device_mig_task-IsUnique :
    (stamps : ℕ → Stamp) (id : Name) (db : Db)
    → IsUnique db
    → IsUnique (add_device_mig_task stamps id db).1
add_device_mig_task-IsUnique stamps id db h = elim (Option-cases (get_storage_device_by_id id db)) [
  | inl e ↦ unfold add_device_mig_task in rw (e, add_device_mig_task) h
  | inr (device, e) ↦
      unfold add_device_mig_task in rw (e, add_device_mig_task) (for_device stamps device db h)
]
