-- ===== src/Tasks.antt =====
pub mod Unique
pub mod Loops
pub mod Nodes
-- Creation of background tasks: simplyblock_core/controllers/tasks_controller.py.
-- A task is looked for among the tasks of its cluster, newest first. The uuid and the time of a new
-- task are arguments; the event log is not modelled.
use sbcli.Prelude.{
  pos, keep, ℕ, suc, ℤ, negsuc, Bool, true, false, not, ◌&&◌, ◌||◌, Option, none, some, List, [],
  ◌∷◌, ◌++◌, ◌==◌, if◌then◌else◌, find, Result, returned, raised, is_some,
}
use sbcli.Model.{
  job_eq, is_migration, is_serving, cluster_eq, ClusterStatus, get_cluster_by_id, JobStatus,
  FunctionName, NodeStatus, fn_eq, node_eq, is_done, Name, Message, Params, Task, Device, Bdev,
  Node, Db, is_set, write_task, get_job_tasks, get_storage_nodes_by_cluster_id,
  get_storage_device_by_id,
}

-- `task.canceled is False` and `task.status != STATUS_DONE`
abbrev pub is_active : Task → Bool
is_active t = not (is_done t.status) && not t.canceled

-- "distr_name" in function_params and function_params["distr_name"] == name
abbrev pub has_distr : Name → Task → Bool
has_distr name t = elim t.params.distr_name [ none ↦ false | some d ↦ d == name ]

-- the loop of _validate_new_task_dev_restart
abbrev pub no_restart_in : Name → Name → List Task → Bool
no_restart_in node device [] = true
no_restart_in node device (t ∷ ts) =
    let rest = no_restart_in node device ts in
    if fn_eq t.function_name FunctionName.dev_restart && (t.device_id == device && not t.canceled)
    then (if not (is_done t.status) then false else rest)
    else if fn_eq t.function_name FunctionName.node_restart && (t.node_id == node && not t.canceled)
    then (if not (is_done t.status) then false else rest)
    else rest

abbrev pub validate_new_task_dev_restart : Name → Name → Name → Db → Bool
validate_new_task_dev_restart cluster node device db =
    no_restart_in node device (get_job_tasks cluster db)

abbrev pub is_node_restart : Name → Task → Bool
is_node_restart node t =
    fn_eq t.function_name FunctionName.node_restart && t.node_id == node && is_active t

abbrev pub validate_new_task_node_restart : Name → Name → Db → Option Task
validate_new_task_node_restart cluster node db =
    find (is_node_restart node) (get_job_tasks cluster db)

-- `dev_id` is `none` where the caller leaves it out.
abbrev pub is_new_device_mig : Name → Name → Option Name → Task → Bool
is_new_device_mig node name dev_id t =
    fn_eq t.function_name FunctionName.new_dev_mig
    && t.node_id == node
    && elim dev_id [ none ↦ true | some d ↦ not (is_set d) || t.device_id == d ]
    && (is_active t && has_distr name t)

abbrev pub get_new_device_mig_task : Name → Name → Name → Option Name → Db → Option Task
get_new_device_mig_task cluster node name dev_id db =
    find (is_new_device_mig node name dev_id) (get_job_tasks cluster db)

abbrev pub is_device_mig : Name → Name → Name → Task → Bool
is_device_mig node device name t =
    fn_eq t.function_name FunctionName.dev_mig
    && (t.node_id == node && t.device_id == device)
    && (is_active t && has_distr name t)

abbrev pub get_device_mig_task : Name → Name → Name → Name → Db → Option Task
get_device_mig_task cluster node device name db =
    find (is_device_mig node device name) (get_job_tasks cluster db)

-- The second chain of tests of _add_task: whether a task of the same kind is found.
abbrev pub has_duplicate : FunctionName → Name → Name → Name → Params → Db → Result Bool
has_duplicate FunctionName.node_restart cluster node device params db =
    returned (is_some (validate_new_task_node_restart cluster node db))
has_duplicate FunctionName.new_dev_mig cluster node device params db = elim params.distr_name [
  | none ↦ raised
  | some name ↦ returned (is_some (get_new_device_mig_task cluster node name none db))
]
has_duplicate FunctionName.dev_mig cluster node device params db = elim params.distr_name [
  | none ↦ raised
  | some name ↦ returned (is_some (get_device_mig_task cluster node device name db))
]
has_duplicate _ cluster node device params db = returned false

-- uuid4() and time()
pub record Stamp : Type 0 where
  pub uuid : Name
  pub date : ℕ

-- The task that _add_task writes.
abbrev pub new_task : FunctionName → Name → Name → Name → ℤ → Params → Stamp → Task
new_task fn cluster node device max_retry params stamp = record {
  uuid = stamp.uuid;
  cluster_id = cluster;
  date = stamp.date;
  node_id = node;
  device_id = device;
  function_name = fn;
  params = params;
  result = Message.empty;
  max_retry = max_retry;
  retry = 0;
  status = JobStatus.fresh;
  canceled = false;
  sub_tasks = [];
}

-- _add_task: the uuid of the new task, or `none` for False.
pub add_task :
    FunctionName → Name → Name → Name → ℤ → Params → Stamp → Db → Result (Option Name) × Db
add_task fn cluster node device max_retry params stamp db =
    if (fn_eq fn FunctionName.dev_restart || fn_eq fn FunctionName.failed_dev_mig)
      && not (validate_new_task_dev_restart cluster node device db)
    then (returned none, db)
    else elim (has_duplicate fn cluster node device params db) [
      | raised ↦ (raised, db)
      | returned found ↦ if found then (returned none, db) else (
        returned (some stamp.uuid),
        write_task (new_task fn cluster node device max_retry params stamp) db,
      )
    ]

abbrev pub no_params : Params
no_params = record { distr_name = none; migration = none; port_number = none }

abbrev pub distr_params : Name → Params
distr_params name = record { distr_name = some name; migration = none; port_number = none }

-- constants.TASK_EXEC_RETRY_COUNT
abbrev pub task_exec_retry_count : ℕ
task_exec_retry_count = 8

-- What a loop over the bdevs of the nodes carries: the uuids of the tasks added so far, how many
-- stamps are used, and the database.
pub record Adding : Type 0 where
  pub sub_tasks : List Name
  pub used : ℕ
  pub db : Db

-- One call of _add_task in such a loop; with a distr name the call returns.
add_one : FunctionName → (ℕ → Stamp) → Device → Node → Bdev → Adding → Adding
add_one fn stamps device node bdev a =
    let (r, db) =
      add_task fn device.cluster_id node.uuid device.uuid (negsuc 0) (distr_params bdev.name)
        (stamps a.used) a.db in
    record {
      sub_tasks = elim r [
        | raised ↦ a.sub_tasks
        | returned id ↦ elim id [ none ↦ a.sub_tasks | some u ↦ a.sub_tasks ++ u ∷ [] ]
      ];
      used = suc a.used;
      db = db;
    }

-- for bdev in node.lvstore_stack
add_for_bdevs : FunctionName → (ℕ → Stamp) → Device → Node → List Bdev → Adding → Adding
add_for_bdevs fn stamps device node [] a = a
add_for_bdevs fn stamps device node (b ∷ bs) a =
    add_for_bdevs fn stamps device node bs
      (if b.is_distr then add_one fn stamps device node b a else a)

-- for node in db.get_storage_nodes_by_cluster_id(device.cluster_id)
pub add_for_nodes : FunctionName → (ℕ → Stamp) → Device → List Node → Adding → Adding
unfolding add_for_bdevs add_one
add_for_nodes fn stamps device [] a = a
add_for_nodes fn stamps device (n ∷ ns) a = add_for_nodes fn stamps device ns (
    if node_eq n.status NodeStatus.removed
    then a
    else add_for_bdevs fn stamps device n n.lvstore_stack a)

-- The loops that three functions share, for a device that is stored.
adding : FunctionName → (ℕ → Stamp) → Device → Db → Adding
unfolding add_for_nodes
adding fn stamps device db =
    add_for_nodes fn stamps device (get_storage_nodes_by_cluster_id device.cluster_id db)
      (record { sub_tasks = []; used = 0; db = db })

abbrev pub is_balancing : Task → Bool
is_balancing t = fn_eq t.function_name FunctionName.balancing_after_node_restart && is_active t

-- The master task that add_device_mig_task writes over its subtasks.
abbrev master_task : Device → List Name → Stamp → Task
master_task device subs stamp = record {
  uuid = stamp.uuid;
  cluster_id = device.cluster_id;
  date = stamp.date;
  node_id = 0;
  device_id = 0;
  function_name = FunctionName.balancing_after_node_restart;
  params = no_params;
  result = Message.empty;
  max_retry = negsuc 0;
  retry = 0;
  status = JobStatus.fresh;
  canceled = false;
  sub_tasks = subs;
}

-- The end of add_device_mig_task: the master task over the subtasks, if there are any; the callers
-- read the None without subtasks as False.
add_master : Stamp → Device → Db → List Name → Result Bool × Db
add_master stamp device db [] = (returned false, db)
add_master stamp device db (s ∷ ss) =
    (returned true, write_task (master_task device (s ∷ ss) stamp) db)

pub add_device_mig_task : (ℕ → Stamp) → Name → Db → Result Bool × Db
unfolding adding add_master
add_device_mig_task stamps device_id db = elim (get_storage_device_by_id device_id db) [
  | none ↦ (raised, db)
  | some device ↦
      if is_some (find is_balancing (get_job_tasks device.cluster_id db))
      then (returned false, db)
      else let a = adding FunctionName.dev_mig stamps device db in
        add_master (stamps a.used) device a.db a.sub_tasks
]

-- add_device_failed_mig_task and add_new_device_mig_task, which differ in the function's name
add_mig_tasks : FunctionName → (ℕ → Stamp) → Name → Db → Result Bool × Db
unfolding adding
add_mig_tasks fn stamps device_id db = elim (get_storage_device_by_id device_id db) [
  | none ↦ (raised, db)
  | some device ↦ (returned true, (adding fn stamps device db).db)
]

pub add_device_failed_mig_task : (ℕ → Stamp) → Name → Db → Result Bool × Db
unfolding add_mig_tasks
add_device_failed_mig_task = add_mig_tasks FunctionName.failed_dev_mig

pub add_new_device_mig_task : (ℕ → Stamp) → Name → Db → Result Bool × Db
unfolding add_mig_tasks
add_new_device_mig_task = add_mig_tasks FunctionName.new_dev_mig

-- add_device_to_auto_restart
pub add_device_to_auto_restart : Device → Stamp → Db → Result (Option Name) × Db
unfolding add_task
add_device_to_auto_restart device stamp db =
    add_task FunctionName.dev_restart device.cluster_id device.node_id device.uuid
      (pos task_exec_retry_count) no_params stamp db

-- The loop of add_node_to_auto_restart: another node, on another host, that is not online.
pub others_online : Node → List Node → Bool
others_online node [] = true
others_online node (sn ∷ sns) =
    let rest = others_online node sns in
    if not (node.uuid == sn.uuid)
      && (not (node_eq sn.status NodeStatus.online) && not (node.mgmt_ip == sn.mgmt_ip))
    then false
    else rest

-- add_node_to_auto_restart
pub add_node_to_auto_restart : Node → Stamp → Db → Result (Option Name) × Db
unfolding add_task others_online
add_node_to_auto_restart node stamp db = elim (get_cluster_by_id node.cluster_id db) [
  | none ↦ (raised, db)
  | some cluster ↦
      if not (is_serving cluster.status || cluster_eq cluster.status ClusterStatus.unready)
      then (returned none, db)
      else if others_online node (get_storage_nodes_by_cluster_id node.cluster_id db)
      then add_task FunctionName.node_restart node.cluster_id node.uuid 0
          (pos task_exec_retry_count) no_params stamp db
      else (returned none, db)
]

-- add_port_allow_task
pub add_port_allow_task : Name → Name → ℕ → Stamp → Db → Result (Option Name) × Db
unfolding add_task
add_port_allow_task cluster node port stamp db =
    add_task FunctionName.port_allow cluster node 0 (pos task_exec_retry_count)
      (record { distr_name = none; migration = none; port_number = some port }) stamp db

-- add_node_add_task; no key of its parameters is modelled.
pub add_node_add_task : Name → Stamp → Db → Result (Option Name) × Db
unfolding add_task
add_node_add_task cluster stamp db =
    add_task FunctionName.node_add cluster 0 0 (pos task_exec_retry_count) no_params stamp db
