-- ===== src/Tasks/Nodes.antt =====
-- Adding tasks changes no node and no cluster.
use sbcli.Prelude.{
  ℕ, ℤ, pos, negsuc, Bool, not, ◌||◌, Option, List, [], ◌∷◌, ◌≡◌, refl, ◌∙◌, find, is_some, Result,
  option-cases, result-cases, if-cases, ◌&&◌,
}
use sbcli.Model.{
  FunctionName, fn_eq, put_task, Task, Name, Params, Device, Node, Db, ClusterStatus, cluster_eq,
  is_serving, get_job_tasks, get_storage_device_by_id, get_storage_nodes_by_cluster_id,
  get_cluster_by_id,
}
use sbcli.Tasks.{
  Stamp, add_task, validate_new_task_dev_restart, has_duplicate, new_task, master_task, adding,
  add_master, add_device_mig_task, add_device_failed_mig_task, add_mig_tasks,
  add_node_to_auto_restart, distr_params, no_params, is_balancing, others_online,
  task_exec_retry_count,
}
use sbcli.Tasks.Loops.{for_nodes_keep}

-- What does not depend on the task table stays where tasks are added.
module _ {A : Type 0} (f : Db → A)
    (same : (x : Db) (ts : List Task) → f (record x { tasks = ts }) ≡ f x) where
  add_task_keep :
      (fn : FunctionName) (c n d : Name) (mr : ℤ) (ps : Params) (st : Stamp) (db : Db)
      → f (add_task fn c n d mr ps st db).1 ≡ f db
  unfolding add_task
  add_task_keep fn c n d mr ps st db =
      if-cases P
        ((fn_eq fn FunctionName.dev_restart || fn_eq fn FunctionName.failed_dev_mig)
          && not (validate_new_task_dev_restart c n d db))
        (λ _. refl)
        λ _.
          result-cases P (has_duplicate fn c n d ps db) (λ _. refl)
            λ found _.
              if-cases P found (λ _. refl)
                (λ _. same db (put_task (new_task fn c n d mr ps st) db.tasks))
    where
      P : Result (Option Name) × Db → Type 0
      P r = f r.1 ≡ f db

  adding_keep :
      (fn : FunctionName) (stamps : ℕ → Stamp) (device : Device) (db : Db)
      → f (adding fn stamps device db).db ≡ f db
  unfolding adding
  adding_keep fn stamps device db =
      for_nodes_keep {P = λ x. f x ≡ f db} fn stamps device
        (λ n b st x k.
          add_task_keep fn device.cluster_id n.uuid device.uuid (negsuc 0) (distr_params b.name) st
            x
          ∙ k)
        (get_storage_nodes_by_cluster_id device.cluster_id db)
        (record { sub_tasks = []; used = 0; db = db }) refl

  master_keep :
      (stamp : Stamp) (device : Device) (db : Db) (subs : List Name)
      → f (add_master stamp device db subs).1 ≡ f db
  unfolding add_master
  master_keep stamp device db [] = refl
  master_keep stamp device db (s ∷ ss) =
      same db (put_task (master_task device (s ∷ ss) stamp) db.tasks)

  pub add_device_mig_task_keep :
      (stamps : ℕ → Stamp) (id : Name) (db : Db) → f (add_device_mig_task stamps id db).1 ≡ f db
  unfolding add_device_mig_task
  add_device_mig_task_keep stamps id db =
      option-cases P (get_storage_device_by_id id db) (λ _. refl)
        λ device _.
          if-cases P (is_some (find is_balancing (get_job_tasks device.cluster_id db))) (λ _. refl)
            (λ _.
              master_keep _ device (adding FunctionName.dev_mig stamps device db).db
                (adding FunctionName.dev_mig stamps device db).sub_tasks
              ∙ adding_keep FunctionName.dev_mig stamps device db)
    where
      P : Result Bool × Db → Type 0
      P r = f r.1 ≡ f db

  pub add_device_failed_mig_task_keep :
      (stamps : ℕ → Stamp) (id : Name) (db : Db)
      → f (add_device_failed_mig_task stamps id db).1 ≡ f db
  unfolding add_device_failed_mig_task add_mig_tasks
  add_device_failed_mig_task_keep stamps id db =
      option-cases (λ (r : Result Bool × Db). f r.1 ≡ f db) (get_storage_device_by_id id db)
        (λ _. refl) (λ device _. adding_keep FunctionName.failed_dev_mig stamps device db)

pub add_task_nodes :
    (fn : FunctionName) (c n d : Name) (mr : ℤ) (ps : Params) (st : Stamp) (db : Db)
    → (add_task fn c n d mr ps st db).1.nodes ≡ db.nodes
add_task_nodes = add_task_keep (λ x. x.nodes) (λ x ts. refl)

pub add_device_mig_task_nodes :
    (stamps : ℕ → Stamp) (id : Name) (db : Db)
    → (add_device_mig_task stamps id db).1.nodes ≡ db.nodes
add_device_mig_task_nodes = add_device_mig_task_keep (λ x. x.nodes) (λ x ts. refl)

pub add_device_failed_mig_task_nodes :
    (stamps : ℕ → Stamp) (id : Name) (db : Db)
    → (add_device_failed_mig_task stamps id db).1.nodes ≡ db.nodes
add_device_failed_mig_task_nodes = add_device_failed_mig_task_keep (λ x. x.nodes) (λ x ts. refl)

pub add_device_mig_task_clusters :
    (stamps : ℕ → Stamp) (id : Name) (db : Db)
    → (add_device_mig_task stamps id db).1.clusters ≡ db.clusters
add_device_mig_task_clusters = add_device_mig_task_keep (λ x. x.clusters) (λ x ts. refl)

pub add_node_to_auto_restart_nodes :
    (n : Node) (st : Stamp) (db : Db) → (add_node_to_auto_restart n st db).1.nodes ≡ db.nodes
unfolding add_node_to_auto_restart
add_node_to_auto_restart_nodes n st db =
    option-cases P (get_cluster_by_id n.cluster_id db) (λ _. refl)
      λ cluster _.
        if-cases P
          (not (is_serving cluster.status || cluster_eq cluster.status ClusterStatus.unready))
          (λ _. refl)
          λ _.
            if-cases P (others_online n (get_storage_nodes_by_cluster_id n.cluster_id db))
              (λ _.
                add_task_nodes FunctionName.node_restart n.cluster_id n.uuid 0
                  (pos task_exec_retry_count) no_params st db)
              (λ _. refl)
  where
    P : Result (Option Name) × Db → Type 0
    P r = r.1.nodes ≡ db.nodes
