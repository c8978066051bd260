-- ===== src/PortAllow/Allowed.antt =====
-- When a port is opened, and what a round changes.
use sbcli.Prelude.{List, length, ◌≤◌, true, false, ◌||◌, some, ◌≡◌, returned}
use sbcli.Model.{NodeStatus, node_eq, Name, Task, Node, Db, get_storage_node_by_id}
use sbcli.NodeMonitor.{lvstore_ready}
use sbcli.PortAllow.{Peers}
use sbcli.Devices.Links.Kept.{bare}
use sbcli.PortAllow.Rounds.{Checked}

-- The conditions under which a port is opened, and the node as it is stored then.
pub record MayOpen (p : Peers) (t : Task) (db after : Db) : Type 0 where
  pub node : Node
  pub at_node : get_storage_node_by_id t.node_id db ≡ some node
  pub up : (node_eq node.status NodeStatus.down || node_eq node.status NodeStatus.online) ≡ true
  pub not_canceled : t.canceled ≡ false
  pub answers : (p.ping || p.second_ping) ≡ true
  pub devices : List Name
  pub connected : p.remote_devices ≡ returned devices
  pub some_devices : 1 ≤ length devices
  pub jms : List Name
  pub jms_connected : p.remote_jm_devices ≡ returned jms
  pub two_jms : 2 ≤ length jms
  pub checked : lvstore_ready node.lvstore_status ≡ true → p.lvstore_check ≡ true
  pub last : Node
  pub stored : get_storage_node_by_id t.node_id after ≡ some last
  pub same : bare last ≡ bare node
  pub to_devices : last.remote_devices ≡ devices
  pub to_jms : last.remote_jm_devices ≡ jms

module _ (p : Peers) where
  -- The JM devices that are written, and the node of the last write.
  record JmsConnected (t : Task) (n : Node) (after : Db) : Type 0 where
    last : Node
    jms : List Name
    jms_connected : p.remote_jm_devices ≡ returned jms
    two_jms : 2 ≤ length jms
    stored : get_storage_node_by_id t.node_id after ≡ some last
    same : bare last ≡ bare n
    to_devices : last.remote_devices ≡ n.remote_devices
    to_jms : last.remote_jm_devices ≡ jms
    checked : Checked p n

  -- The connections that a port waits for, as they are stored then.
  record Connected (t : Task) (n : Node) (after : Db) : Type 0 where
    devices : List Name
    connected : p.remote_devices ≡ returned devices
    some_devices : 1 ≤ length devices
    jms : List Name
    jms_connected : p.remote_jm_devices ≡ returned jms
    two_jms : 2 ≤ length jms
    last : Node
    stored : get_storage_node_by_id t.node_id after ≡ some last
    same : bare last ≡ bare n
    to_devices : last.remote_devices ≡ devices
    to_jms : last.remote_jm_devices ≡ jms
    checked : Checked p n
