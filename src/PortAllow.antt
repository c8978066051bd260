-- ===== src/PortAllow.antt =====
-- Tasks that open a port or add a node: the loops of
-- simplyblock_core/services/tasks_runner_port_allow.py and tasks_runner_node_add.py.
pub mod Rounds
pub mod Allowed
use sbcli.Prelude.{
  ℕ, Bool, true, false, not, ◌&&◌, ◌||◌, Option, none, some, List, length, if◌then◌else◌, ltb, ◌==◌,
  Result, returned, raised,
}
use sbcli.Model.{
  JobStatus, FunctionName, NodeStatus, ClusterStatus, LvstoreStatus, job_eq, fn_eq, node_eq,
  cluster_eq, is_done, Name, Message, Task, Node, Db, write_task, get_task_by_id,
  get_storage_node_by_id, get_cluster_by_id,
}
use sbcli.Devices.{write_node}
use sbcli.Migration.{Run, ends, finished}
use sbcli.NodeMonitor.{lvstore_ready}

-- What the node and its peers report: the two pings, the remote devices and the remote JM devices that
-- it connects to, where an exception may leave the connecting, the check of its lvstore, and whether
-- its secondary node is found.
pub record Peers : Type 0 where
  pub ping : Bool
  pub second_ping : Bool
  pub remote_devices : Result (List Name)
  pub remote_jm_devices : Result (List Name)
  pub lvstore_check : Bool
  pub finds_secondary : Bool

-- The task waits for the next round; no try is counted.
abbrev pub waits : Message → Task → Db → Run
waits m t db = ends false (record t { result = m; status = JobStatus.suspended }) db

-- From `port_number = ...` to the end.
pub open_port : Peers → Task → Db → Run
open_port p t db = elim t.params.port_number [
  | none ↦ record { reply = raised; task = t; db = db }
  | some port ↦
      if not p.finds_secondary
      then record { reply = raised; task = t; db = db }
      else ends true (finished (Message.port_allowed port) t) db
]

-- From the check of the lvstore on.
pub check_lvstore : Peers → Node → Task → Db → Run
unfolding open_port
check_lvstore p node t db =
    if lvstore_ready node.lvstore_status && not p.lvstore_check
    then waits Message.lvstore_check_failed t db
    else if job_eq t.status JobStatus.running
    then open_port p t db
    else (let t' = record t { status = JobStatus.running } in open_port p t' (write_task t' db))

-- From "connect to remote JM devices" on; a KeyError for the node is caught as other exceptions are.
pub connect_jms : Peers → Task → Db → Run
unfolding check_lvstore
connect_jms p t db = elim p.remote_jm_devices [
  | raised ↦ waits Message.connect_error t db
  | returned jms ↦
      if ltb (length jms) 2
      then waits Message.no_remote_jms t db
      else elim (get_storage_node_by_id t.node_id db) [
        | none ↦ waits Message.connect_error t db
        | some n ↦
            let node = record n { remote_jm_devices = jms } in
            check_lvstore p node t (write_node node db)
      ]
]

-- The `try` that connects the node, and what follows it.
pub connect : Peers → Task → Db → Run
unfolding connect_jms
connect p t db = elim p.remote_devices [
  | raised ↦ waits Message.connect_error t db
  | returned devices ↦
      if length devices == 0
      then waits Message.no_remote_devs t db
      else elim (get_storage_node_by_id t.node_id db) [
        | none ↦ waits Message.connect_error t db
        | some n ↦ connect_jms p t (write_node (record n { remote_devices = devices }) db)
      ]
]

-- The body of the loop for a task of the kind that is not done; the reply is whether a port was
-- opened.
pub allow_port : Peers → Task → Db → Run
unfolding connect
allow_port p task db = elim (get_task_by_id task.uuid db) [
  | none ↦ record { reply = raised; task = task; db = db }
  | some t ↦
      if t.canceled
      then ends false (finished Message.canceled t) db
      else elim (get_storage_node_by_id t.node_id db) [
        | none ↦ record { reply = raised; task = t; db = db }
        | some node ↦
            if not (node_eq node.status NodeStatus.down || node_eq node.status NodeStatus.online)
            then waits (Message.node_retry node.status) t db
            else if not (p.ping || p.second_ping)
            then waits Message.ping_failed t db
            else connect p t db
      ]
]

-- The loop of the node-add runner for a task that is not done: `added` is what
-- storage_node_ops.add_node returns, and the database after it.
pub add_node : (Db → Result Bool × Db) → Name → Task → Db → Run
add_node added cluster task db = elim (get_task_by_id task.uuid db) [
  | none ↦ record { reply = raised; task = task; db = db }
  | some t ↦
      if t.canceled
      then ends false (finished Message.canceled t) db
      else elim (get_cluster_by_id cluster db) [
        | none ↦ record { reply = raised; task = t; db = db }
        | some c ↦
            if cluster_eq c.status ClusterStatus.in_activation
            then ends false
                (record t { result = Message.cluster_in_activation; status = JobStatus.fresh }) db
            else (let t' = record t { status = JobStatus.running } in
                let db' = if job_eq t.status JobStatus.running then db else write_task t' db in
                let (r, after) = added db' in
                elim r [
                  | raised ↦ record { reply = raised; task = t'; db = after }
                  | returned b ↦ ends true (finished (Message.add_result b) t') after
                ])
      ]
]
