-- ===== src/Model/Status.antt =====
-- The status constants of simplyblock_core/models, one data type for each class, with the lists of
-- them that the code tests membership in.
use sbcli.Prelude.{ℕ, Bool, true, false, ◌||◌, ◌==◌}

-- JobSchedule.STATUS_*
pub data JobStatus : Type 0 where
  fresh running suspended done : JobStatus

-- JobSchedule.FN_*
pub data FunctionName : Type 0 where
  dev_restart node_restart dev_mig failed_dev_mig new_dev_mig node_add port_allow : FunctionName
  balancing_after_node_restart balancing_after_dev_remove balancing_after_dev_expansion :
      FunctionName

-- BaseNodeObject.STATUS_*
pub data NodeStatus : Type 0 where
  online offline suspended in_shutdown removed restarting in_creation : NodeStatus
  unreachable schedulable down : NodeStatus

-- NVMeDevice.STATUS_*
pub data DeviceStatus : Type 0 where
  jm fresh online unavailable removed failed failed_and_migrated : DeviceStatus
  readonly cannot_allocate : DeviceStatus

-- Cluster.STATUS_*
pub data ClusterStatus : Type 0 where
  active readonly inactive suspended degraded unready in_activation in_expansion : ClusterStatus

-- The ha_type of a cluster or a volume: the two texts that the code compares it with, and any other.
pub data HaType : Type 0 where
  single ha other : HaType

abbrev pub is_ha : HaType → Bool
is_ha HaType.ha = true
is_ha HaType.single = false
is_ha HaType.other = false

-- `==` of two constants of a class
abbrev pub job_tag : JobStatus → ℕ
job_tag JobStatus.fresh = 0
job_tag JobStatus.running = 1
job_tag JobStatus.suspended = 2
job_tag JobStatus.done = 3

abbrev pub job_eq : JobStatus → JobStatus → Bool
job_eq a b = job_tag a == job_tag b

abbrev pub fn_tag : FunctionName → ℕ
fn_tag FunctionName.dev_restart = 0
fn_tag FunctionName.node_restart = 1
fn_tag FunctionName.dev_mig = 2
fn_tag FunctionName.failed_dev_mig = 3
fn_tag FunctionName.new_dev_mig = 4
fn_tag FunctionName.node_add = 5
fn_tag FunctionName.port_allow = 6
fn_tag FunctionName.balancing_after_node_restart = 7
fn_tag FunctionName.balancing_after_dev_remove = 8
fn_tag FunctionName.balancing_after_dev_expansion = 9

abbrev pub fn_eq : FunctionName → FunctionName → Bool
fn_eq a b = fn_tag a == fn_tag b

abbrev pub node_tag : NodeStatus → ℕ
node_tag NodeStatus.online = 0
node_tag NodeStatus.offline = 1
node_tag NodeStatus.suspended = 2
node_tag NodeStatus.in_shutdown = 3
node_tag NodeStatus.removed = 4
node_tag NodeStatus.restarting = 5
node_tag NodeStatus.in_creation = 6
node_tag NodeStatus.unreachable = 7
node_tag NodeStatus.schedulable = 8
node_tag NodeStatus.down = 9

abbrev pub node_eq : NodeStatus → NodeStatus → Bool
node_eq a b = node_tag a == node_tag b

abbrev pub device_tag : DeviceStatus → ℕ
device_tag DeviceStatus.jm = 0
device_tag DeviceStatus.fresh = 1
device_tag DeviceStatus.online = 2
device_tag DeviceStatus.unavailable = 3
device_tag DeviceStatus.removed = 4
device_tag DeviceStatus.failed = 5
device_tag DeviceStatus.failed_and_migrated = 6
device_tag DeviceStatus.readonly = 7
device_tag DeviceStatus.cannot_allocate = 8

abbrev pub device_eq : DeviceStatus → DeviceStatus → Bool
device_eq a b = device_tag a == device_tag b

abbrev pub cluster_tag : ClusterStatus → ℕ
cluster_tag ClusterStatus.active = 0
cluster_tag ClusterStatus.readonly = 1
cluster_tag ClusterStatus.inactive = 2
cluster_tag ClusterStatus.suspended = 3
cluster_tag ClusterStatus.degraded = 4
cluster_tag ClusterStatus.unready = 5
cluster_tag ClusterStatus.in_activation = 6
cluster_tag ClusterStatus.in_expansion = 7

abbrev pub cluster_eq : ClusterStatus → ClusterStatus → Bool
cluster_eq a b = cluster_tag a == cluster_tag b

abbrev pub is_done : JobStatus → Bool
is_done s = job_eq s JobStatus.done

-- status in [STATUS_NEW, STATUS_SUSPENDED]
abbrev pub is_waiting : JobStatus → Bool
is_waiting s = job_eq s JobStatus.fresh || job_eq s JobStatus.suspended

-- function_name in [FN_FAILED_DEV_MIG, FN_DEV_MIG, FN_NEW_DEV_MIG]
abbrev pub is_migration : FunctionName → Bool
is_migration f =
    fn_eq f FunctionName.failed_dev_mig
    || fn_eq f FunctionName.dev_mig
    || fn_eq f FunctionName.new_dev_mig

-- status in [STATUS_ACTIVE, STATUS_DEGRADED, STATUS_READONLY]
abbrev pub is_serving : ClusterStatus → Bool
is_serving s =
    cluster_eq s ClusterStatus.active
    || cluster_eq s ClusterStatus.degraded
    || cluster_eq s ClusterStatus.readonly
