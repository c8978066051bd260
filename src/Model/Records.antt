-- ===== src/Model/Records.antt =====
-- The fields of the stored objects that the modelled code reads or writes.
use sbcli.Prelude.{ℕ, ℤ, Bool, Option, List}
use sbcli.Model.Status.{JobStatus, FunctionName, NodeStatus, DeviceStatus, ClusterStatus, HaType}

-- A text that the code only compares, such as a uuid, by its number in a fixed enumeration of the
-- texts; 0 is the empty text.
abbrev pub Name : Type 0
Name = ℕ

-- A point in time in microseconds.
abbrev pub Time : Type 0
Time = ℕ

-- JobSchedule.function_result: a constructor for each text that the code assigns.
pub data Message : Type 0 where
  empty : Message
  node_not_found : Name → Message
  task_node_not_found canceled node_not_online cluster_not_active : Message
  node_online_too_short : Message
  some_dev_status : DeviceStatus → Message
  device_not_found start_failed_retry_later start_failed : Message
  migration_status_failed devs_offline expansion_found : Message
  mig_completed mig_error : ℤ → Message
  mig_failed mig_retry_after_restart : Message
  mig_progress : Name → ℤ → Message
  status_text : JobStatus → Message
  max_retry_reached node_restart_found node_is_offline device_is_online : Message
  stopped_device : DeviceStatus → Message
  stopped_node node_retry : NodeStatus → Message
  done_text node_is_online node_is_restarting node_is_unreachable : Message
  ping_failed no_remote_devs no_remote_jms connect_error lvstore_check_failed : Message
  port_allowed : ℕ → Message
  cluster_in_activation : Message
  add_result : Bool → Message

-- JobSchedule.function_params: the keys that the code reads, `none` where the key is missing.
pub record Params : Type 0 where
  pub distr_name : Option Name
  pub migration : Option Name
  pub port_number : Option ℕ

-- JobSchedule
pub record Task : Type 0 where
  pub uuid : Name
  pub cluster_id : Name
  pub date : ℕ
  pub node_id : Name
  pub device_id : Name
  pub function_name : FunctionName
  pub params : Params
  pub result : Message
  pub max_retry : ℤ
  pub retry : ℕ
  pub status : JobStatus
  pub canceled : Bool
  pub sub_tasks : List Name

-- NVMeDevice
pub record Device : Type 0 where
  pub uuid : Name
  pub node_id : Name
  pub cluster_id : Name
  pub status : DeviceStatus
  pub order : ℤ
  pub size : ℕ
  pub io_error : Bool
  pub retries_exhausted : Bool
  pub deleted : Bool

-- JMDevice
pub record JmDevice : Type 0 where
  pub uuid : Name
  pub status : DeviceStatus

-- An entry of StorageNode.lvstore_stack: its name, and whether its type is "bdev_distr".
pub record Bdev : Type 0 where
  pub name : Name
  pub is_distr : Bool

-- StorageNode.lvstore_status; the code compares it with these two texts.
pub data LvstoreStatus : Type 0 where
  in_creation ready other : LvstoreStatus

-- StorageNode; `online_since` is `none` for the empty text, `hublvol_port` the nvmf_port of
-- StorageNode.hublvol, `none` where there is no hublvol.
pub record Node : Type 0 where
  pub uuid : Name
  pub cluster_id : Name
  pub mgmt_ip : Name
  pub status : NodeStatus
  pub is_secondary : Bool
  pub online_since : Option Time
  pub lvstore_status : LvstoreStatus
  pub physical_label : ℕ
  pub lvol_subsys_port : ℕ
  pub rpc_port : ℕ
  pub nvmf_port : ℕ
  pub hublvol_port : Option ℕ
  pub secondary_node_id : Name
  pub lvstore : Name
  pub lvstore_stack_secondary_1 : Name
  pub max_lvol : ℕ
  pub lvstore_stack : List Bdev
  pub devices : List Device
  -- these are read and written where a node is removed or a port is opened
  pub jm_device : Option JmDevice
  pub remote_devices : List Name
  pub remote_jm_devices : List Name

-- Cluster
pub record Cluster : Type 0 where
  pub uuid : Name
  pub status : ClusterStatus
  pub ndcs : ℕ
  pub npcs : ℕ
  pub strict_anti_affinity : Bool
  pub enable_qos : Bool
  pub is_re_balancing : Bool
  pub cap_crit : ℕ
  pub prov_cap_crit : ℕ
  pub ha_type : HaType

-- The database: clusters and tasks in the order of their keys, storage nodes in the order of
-- their creation, which is the order of all the queries.
pub record Db : Type 0 where
  pub clusters : List Cluster
  pub nodes : List Node
  pub tasks : List Task
