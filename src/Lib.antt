-- ===== src/Lib.antt =====
-- The control plane of a distributed block storage: it keeps clusters, storage nodes, devices, pools
-- and tasks as objects in a key-value store, services poll the store and run the tasks, and
-- controllers change the objects on behalf of the command line and the web interface.
--
-- How the parts interact, and which file models which:
--
-- - Model: the stored objects (simplyblock_core/models) and the queries and writes of
--   simplyblock_core/db_controller.py. A Db has the clusters, nodes and tasks; tasks are kept in the
--   order of their keys, as the store does. Texts that are only compared are numbers (Name), times
--   are microseconds, messages are a data type. A KeyError is `none` or `raised`.
-- - Tasks and TaskQueries: simplyblock_core/controllers/tasks_controller.py, without and with the
--   getters that the services use. `add_task` is _add_task, the other
--   definitions have the names of the functions. New uuids and dates are arguments (Stamp).
-- - Devices: the state changes of simplyblock_core/controllers/device_controller.py, with device_remove
--   and reset_storage_device in Removal. The calls that
--   tell other nodes about a state do not change the modelled objects and are left out.
-- - Migration: the runners of simplyblock_core/services/tasks_runner_migration.py (Rebalance, with
--   its service loop and the master task in Master), tasks_runner_failed_migration.py (Failed) and
--   tasks_runner_new_dev_migration.py (Expansion), with the loops of the last two in Turns, and
--   handle_task_result of simplyblock_core/utils/__init__.py. What the storage process replies is an argument (Storage),
--   and the theorems hold for every reply. A run returns the reply, the task object and the database.
-- - Restart: simplyblock_core/services/tasks_runner_restart.py. What the restarts and the pauses do
--   to the database is an argument (World), of which a run assumes nothing; the loop is bounded where the uuid
--   of its task stays unique and other processes only mark the task as canceled while it sleeps.
-- - Monitor: the derivation of a cluster's status and its update in
--   simplyblock_core/services/storage_node_monitor.py, with set_cluster_status of
--   simplyblock_core/cluster_ops.py. The replies about the journal managers are an argument. A call
--   of cluster_activate is a result of its own and not followed.
-- - NodeMonitor: the loop over the nodes in simplyblock_core/services/storage_node_monitor.py with
--   set_node_status of simplyblock_core/storage_node_ops.py. What the probes of a node report is an
--   argument (Probes); the JM device, the remote connections and the restart of a proxy are left out.
-- - Cancel: cancel_task of simplyblock_core/controllers/tasks_controller.py.
-- - PortAllow: the loops of simplyblock_core/services/tasks_runner_port_allow.py and
--   tasks_runner_node_add.py for one task, with the writes of the node's connections. What the peers
--   of a node report is an argument.
-- - Capacity: simplyblock_core/services/cap_monitor.py, with cluster_set_read_only and
--   cluster_set_active of simplyblock_core/cluster_ops.py. The capacity records are an argument.
-- - Orders: the order of a new device and the label of a new host, of
--   simplyblock_core/storage_node_ops.py.
-- - Pools: simplyblock_core/controllers/pool_controller.py. Whether the nodes accept the limits is an
--   argument.
-- - NodeOps: what an operator does with a storage node, in simplyblock_core/storage_node_ops.py:
--   suspending, shutting down, resuming (Resume), removing and deleting it (Remove). The calls of the
--   node's API are arguments (Stopping, Removing); the listeners and the swarm are left out, and the
--   connections and the JM device (Devices.Links) are modelled for the removal alone.
-- - ClusterOps: cluster_expand of simplyblock_core/cluster_ops.py; get_secondary_nodes and
--   create_lvstore are arguments (Means).
-- - Volumes: the stored pools, volumes and snapshots (a Store) and their queries. Placement has the
--   choice between the two nodes of a pair, which six functions of
--   simplyblock_core/controllers/lvol_controller.py and snapshot_controller.py repeat; Deletion has
--   delete_lvol and the snapshots' delete, which call each other; Watch and SnapWatch have the bodies
--   of the loops of simplyblock_core/services/lvol_monitor.py and snapshot_monitor.py, which complete
--   a deletion. What the storage processes reply is an argument (Remote, Replies, SnapReplies).
-- - Snapshots: add and clone of simplyblock_core/controllers/snapshot_controller.py.
-- - Lvols: validate_add_lvol_func, add_lvol_ha without a namespace (Creation), _get_next_3_nodes
--   (Choice), set_lvol (Qos) and resize_lvol (Resize) of
--   simplyblock_core/controllers/lvol_controller.py, on the pools and volumes of Volumes and the nodes
--   of Model. The weights of the nodes and the percentage of the provisioned size, which Python
--   computes with floating-point numbers, are arguments, as the random numbers are.
-- - Utils: CPU masks, the split of the CPUs, free ports and the rounding of huge pages, of
--   simplyblock_core/utils/__init__.py.
-- - Tests: the theorems at concrete inputs.
-- - Prelude: shared names, Boolean tests, lists and integers over the native numbers.
--
-- Bounds and fuel: Python's integers have no bound, and neither have these. The search for a port runs
-- on one step more than there are ports in use, which is enough since each step that fails meets
-- another port; the reading of a mask runs on as many steps as the mask, which it halves each time,
-- and the digits of a number, decimal or hexadecimal, are found in as many steps as the number or one
-- more. The choice of nodes goes
-- through a list of draws, of which three are enough.
-- The loop over a restart task has no fuel: its rounds are a relation. The fuel of delete_lvol is the
-- number of its calls that may stand within one another, as Python's stack has a limit; the theorem
-- about it holds for every such number, and a call beyond it raises.
--
-- Not modelled: calls of remote processes and what they do there, containers, statistics, listings,
-- the volumes that share a subsystem, the addition and the restart of a node, the
-- health checks, the command line and the web interface. A search by key
-- in the store also finds keys that begin with the text, and with an empty text the first object of
-- the class; here the text is the whole key, but for delete_pool, where what is found is an argument.
-- Of what int(text, 16) reads, a sign, spaces and underscores are left out.
pub mod Prelude
pub mod Model
pub mod Tasks
pub mod TaskQueries
pub mod Devices
pub mod Migration
pub mod Monitor
pub mod NodeMonitor
pub mod Cancel
pub mod PortAllow
pub mod Orders
pub mod Capacity
pub mod Restart
pub mod Volumes
pub mod Pools
pub mod Lvols
pub mod Snapshots
pub mod NodeOps
pub mod ClusterOps
pub mod Utils
pub mod Tests
