-- ===== src/Tests/Sample.antt =====
-- A small database: a cluster of one node with two devices, and one task.
use sbcli.Prelude.{
  ℕ, pos, Bool, true, false, none, some, [], ◌∷◌, ◌≤◌, ◌+◌, arith, count, ◌==◌, ◌&&◌,
}
use sbcli.Model.{
  LvstoreStatus, JobStatus, FunctionName, NodeStatus, DeviceStatus, ClusterStatus, HaType, Name,
  Message, Task, Device, Node, Cluster, Db,
}
use sbcli.Tasks.{
  Stamp, distr_params, is_balancing, is_node_restart, is_device_mig, is_new_device_mig,
}
use sbcli.Tasks.Loops.{IsUnique}
use sbcli.Migration.Runs.{IsWellFormed}

abbrev pub device : Name → DeviceStatus → Device
device id status = record {
  uuid = id;
  node_id = 20;
  cluster_id = 1;
  status = status;
  order = pos id;
  size = 1_000_000_000;
  io_error = false;
  retries_exhausted = false;
  deleted = false;
}

abbrev pub node : Node
node = record {
  uuid = 20;
  cluster_id = 1;
  mgmt_ip = 7;
  status = NodeStatus.online;
  is_secondary = false;
  online_since = some 1_000_000;
  lvstore_status = LvstoreStatus.ready;
  physical_label = 1;
  lvol_subsys_port = 9100;
  rpc_port = 8080;
  nvmf_port = 9060;
  hublvol_port = some 9030;
  secondary_node_id = 21;
  lvstore = 45;
  lvstore_stack_secondary_1 = 21;
  max_lvol = 100;
  lvstore_stack = record { name = 40; is_distr = true } ∷ [];
  devices = device 30 DeviceStatus.online ∷ device 31 DeviceStatus.online ∷ [];
  jm_device = some (record { uuid = 35; status = DeviceStatus.online });
  remote_devices = [];
  remote_jm_devices = [];
}

abbrev pub cluster : Cluster
cluster = record {
  uuid = 1;
  status = ClusterStatus.degraded;
  ndcs = 1;
  npcs = 1;
  strict_anti_affinity = false;
  enable_qos = false;
  is_re_balancing = false;
  cap_crit = 90;
  prov_cap_crit = 190;
  ha_type = HaType.ha;
}

abbrev pub task : FunctionName → JobStatus → Task
task fn status = record {
  uuid = 50;
  cluster_id = 1;
  date = 5;
  node_id = 20;
  device_id = 30;
  function_name = fn;
  params = distr_params 40;
  result = Message.empty;
  max_retry = pos 3;
  retry = 0;
  status = status;
  canceled = false;
  sub_tasks = [];
}

abbrev pub mig_task : Task
mig_task = task FunctionName.dev_mig JobStatus.fresh

abbrev pub db_with : Task → Db
db_with t = record { clusters = cluster ∷ []; nodes = node ∷ []; tasks = t ∷ [] }

abbrev pub stamps : ℕ → Stamp
stamps n = record { uuid = n + 60; date = n + 6 }

one_task : (p : Task → Bool) (t : Task) → count p (t ∷ []) ≤ 1
one_task p t = ground arith

-- With one task there are no two of a kind.
pub sample-IsUnique : (t : Task) → IsUnique (db_with t)
sample-IsUnique t = record {
  kinds = record {
    restart_once = λ c n. one_task (λ x. x.cluster_id == c && is_node_restart n x) t;
    mig_once = λ c n d name. one_task (λ x. x.cluster_id == c && is_device_mig n d name x) t;
    expansion_once =
        λ c n name. one_task (λ x. x.cluster_id == c && is_new_device_mig n name none x) t;
  };
  masters = λ c. one_task (λ x. x.cluster_id == c && is_balancing x) t;
}

pub sample-IsWellFormed : (t : Task) → IsWellFormed (db_with t)
sample-IsWellFormed t = record { sorted = (tt, tt); unique = sample-IsUnique t }
