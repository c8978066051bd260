-- ===== src/Restart.antt =====
-- simplyblock_core/services/tasks_runner_restart.py: restarts of devices and nodes. What the calls of
-- storage_node_ops, health_controller and device_controller.restart_device do, and what other
-- processes do in the pauses, is an argument.
pub mod Advances
pub mod Ends
use sbcli.Prelude.{
  ℕ, ◌+◌, ℤ, pos, Bool, true, false, not, ◌&&◌, ◌||◌, Option, none, some, List, [], ◌∷◌, ◌==◌,
  if◌then◌else◌, is_some, ltb, leb, ltb_ℤ, Result, returned, raised, any, count, find,
}
use sbcli.Model.{
  JobStatus, FunctionName, NodeStatus, DeviceStatus, job_eq, fn_eq, node_eq, device_eq, is_done,
  Name, Message, Task, Device, Node, Db, write_task, get_job_tasks, get_storage_node_by_id,
}
use sbcli.Tasks.{Stamp, task_exec_retry_count, add_device_mig_task}
use sbcli.Devices.{
  device_set_state, device_set_io_error, device_set_retries_exhausted, device_set_unavailable,
}
use sbcli.Migration.{Run, ends, finished}

-- What happens outside the runner during a run.
pub record World : Type 0 where
  pub restart_device : Name → Db → Db
  pub set_node_offline : Name → Db → Db
  pub ping : Bool
  pub node_api : Bool
  pub reset_node : Name → Db → Db
  pub pause : Db → Db
  pub stamps : ℕ → Stamp

abbrev pub is_unavailable : Device → Bool
is_unavailable d = device_eq d.status DeviceStatus.unavailable

-- _get_node_unavailable_devices_count
abbrev pub get_node_unavailable_devices_count : Name → Db → Result ℕ
get_node_unavailable_devices_count id db = elim (get_storage_node_by_id id db) [
  | none ↦ raised
  | some n ↦ returned (count is_unavailable n.devices)
]

-- _get_device; the device is None where the node does not have it.
abbrev pub get_device : Task → Db → Result (Option Device)
get_device t db = elim (get_storage_node_by_id t.node_id db) [
  | none ↦ raised
  | some n ↦ returned (find (λ d. d.uuid == t.device_id) n.devices)
]

-- _validate_no_task_node_restart
abbrev pub validate_no_task_node_restart : Name → Name → Db → Bool
validate_no_task_node_restart cluster node db = not (
    any
      (λ t.
        (fn_eq t.function_name FunctionName.node_restart && t.node_id == node)
        && not (is_done t.status))
      (get_job_tasks cluster db))

abbrev pub fails : Task → Db → Run
fails t db = record { reply = raised; task = t; db = db }

abbrev pub retried : Task → Task
retried t = record t { retry = t.retry + 1 }

-- A write of the task, and then device calls, which raise without a device.
abbrev pub settles : Task → Db → Option Device → (Name → Db → Db) → Run
settles t db device calls = elim device [
  | none ↦ fails t (write_task t db)
  | some d ↦ record { reply = returned true; task = t; db = calls d.uuid (write_task t db) }
]

-- device.status == NVMeDevice.STATUS_ONLINE and device.io_error is False
abbrev pub is_working : Device → Bool
is_working d = device_eq d.status DeviceStatus.online && not d.io_error

-- From `# check device status` on.
pub check_device : World → Task → Db → Run
check_device w t db = elim (get_device t db) [
  | raised ↦ fails t db
  | returned device ↦ elim device [
    | none ↦ fails t db
    | some d ↦
        if is_working d
        then (let t' = finished Message.done_text t in
            let (r, db') = add_device_mig_task w.stamps d.uuid (write_task t' db) in
            elim r [
              | raised ↦ fails t' db'
              | returned _ ↦ record { reply = returned true; task = t'; db = db' }
            ])
        else ends false (retried t) db
  ]
]

-- From the step to a running task on.
pub restart_device : World → Device → Task → Db → Run
unfolding check_device
restart_device w d t db =
    if ltb t.retry 3
    then (let (r, db') = device_set_io_error d.uuid false db in
        elim r [
          | raised ↦ fails t db'
          | returned _ ↦
              check_device w t (w.pause (device_set_state d.uuid DeviceStatus.online db').1)
        ])
    else check_device w t (w.pause (w.restart_device d.uuid db))

-- From the test of the node's status on, for a device that the node has.
pub with_device : World → Device → Task → Db → Run
unfolding restart_device
with_device w d t db =
    if is_working d
    then ends true (finished Message.device_is_online t) db
    else if device_eq d.status DeviceStatus.removed || device_eq d.status DeviceStatus.failed
    then ends true (finished (Message.stopped_device d.status) t) db
    else if job_eq t.status JobStatus.running
    then restart_device w d t db
    else (let t' = record t { status = JobStatus.running } in
        restart_device w d t' (write_task t' db))

-- task_runner_device
pub task_runner_device : World → Task → Db → Run
unfolding with_device
task_runner_device w t db = elim (get_device t db) [
  | raised ↦ fails t db
  | returned device ↦
      if leb task_exec_retry_count t.retry
      then settles (finished Message.max_retry_reached t) db device
          (λ d x. (device_set_retries_exhausted d true (device_set_unavailable d x).1).1)
      else if not (validate_no_task_node_restart t.cluster_id t.node_id db)
      then settles (finished Message.node_restart_found t) db device
          (λ d x. (device_set_unavailable d x).1)
      else if t.canceled
      then settles (finished Message.canceled t) db device
          (λ d x. (device_set_retries_exhausted d true x).1)
      else elim (get_storage_node_by_id t.node_id db) [
        | none ↦ fails t db
        | some node ↦
            if not (node_eq node.status NodeStatus.online)
            then ends false (record (retried t) { result = Message.node_is_offline }) db
            else elim device [ none ↦ fails t db | some d ↦ with_device w d t db ]
      ]
]

-- The node is online and has no unavailable device.
abbrev pub is_up : Node → ℕ → Bool
is_up node unavailable = unavailable == 0 && node_eq node.status NodeStatus.online

-- From the ping of the node on.
pub restart_node : World → Node → Task → Db → Run
restart_node w node t db =
    if not w.ping || not w.node_api
    then ends false (record (retried t) { result = Message.node_is_unreachable }) db
    else (let db' = w.pause (w.reset_node node.uuid db) in
        elim (get_storage_node_by_id t.node_id db') [
          | none ↦ fails t db'
          | some n ↦ elim (get_node_unavailable_devices_count n.uuid db') [
            | raised ↦ fails t db'
            | returned unavailable ↦
                if is_up n unavailable
                then ends true (finished Message.done_text t) db'
                else ends false (retried t) db'
          ]
        ])

-- From the test of the node's status on; `if not node` before it never holds.
pub with_node : World → Node → Task → Db → Run
unfolding restart_node
with_node w node t db =
    if node_eq node.status NodeStatus.removed
      || node_eq node.status NodeStatus.schedulable
      || node_eq node.status NodeStatus.down
    then ends true (finished (Message.stopped_node node.status) t) db
    else elim (get_node_unavailable_devices_count node.uuid db) [
      | raised ↦ fails t db
      | returned unavailable ↦
          if is_up node unavailable
          then ends true (finished Message.node_is_online t) db
          else if t.canceled
          then ends true (finished Message.canceled t) db
          else if job_eq t.status JobStatus.running
          then restart_node w node t db
          else if node_eq node.status NodeStatus.restarting
          then ends true (finished Message.node_is_restarting t) db
          else (let t' = record t { status = JobStatus.running } in
              restart_node w node t' (write_task t' db))
    ]

-- task_runner_node
pub task_runner_node : World → Task → Db → Run
unfolding with_node
task_runner_node w t db = elim (get_storage_node_by_id t.node_id db) [
  | none ↦ fails t db
  | some node ↦
      if not (ltb_ℤ (pos t.retry) t.max_retry)
      then (let t' = finished Message.max_retry_reached t in
          record {
            reply = returned true;
            task = t';
            db = w.set_node_offline t.node_id (write_task t' db);
          })
      else with_node w node t db
]

-- task_runner, with None read as False
unfoldable pub task_runner : World → Task → Db → Run
unfolding task_runner_device task_runner_node
task_runner w t db =
    if fn_eq t.function_name FunctionName.dev_restart
    then task_runner_device w t db
    else if fn_eq t.function_name FunctionName.node_restart
    then task_runner_node w t db
    else record { reply = returned false; task = t; db = db }
