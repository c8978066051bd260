-- ===== src/Tests/NodeOpsTests.antt =====
-- Examples for the theorems about the operations on a storage node.
use sbcli.Prelude.{true, false, [], ◌∷◌, refl}
use sbcli.Model.{NodeStatus, Db}
use sbcli.NodeMonitor.{Probes}
use sbcli.NodeOps.{Stopping, suspend_storage_node, shutdown_storage_node}
use sbcli.NodeOps.Suspended.{Suspends, suspend_storage_node-Suspends}
use sbcli.NodeOps.Stopped.{ShutsDown, shutdown_storage_node-ShutsDown}
use sbcli.NodeOps.Remove.{Removing, remove_storage_node}
use sbcli.NodeOps.Remove.Removed.{Removes, remove_storage_node-Removes}
use sbcli.ClusterOps.{Means}
use sbcli.Tests.Sample.{cluster, node, mig_task, stamps}
use sbcli.Tests.VolumesTests.{partner, remote, store}

abbrev probes : Probes
probes = record {
  now = 2_000_000;
  ping = true;
  node_api = true;
  spdk_process = true;
  node_rpc = true;
  ports = true;
  connects = true;
  stamps = λ _. stamps;
}

abbrev db : NodeStatus → Db
db status = record {
  clusters = cluster ∷ [];
  nodes = record node { status = status } ∷ partner ∷ [];
  tasks = mig_task ∷ [];
}

suspend_storage_node-Suspends_example :
    Suspends true 20
      (db NodeStatus.online)
      (suspend_storage_node probes true 20 (db NodeStatus.online))
suspend_storage_node-Suspends_example =
    suspend_storage_node-Suspends probes true 20 (db NodeStatus.online)

abbrev stopping : Stopping
stopping = record { kills = true; binds = true }

shutdown_storage_node-ShutsDown_example :
    ShutsDown stopping true 20
      (db NodeStatus.suspended)
      (shutdown_storage_node probes stopping true 20 (db NodeStatus.suspended))
shutdown_storage_node-ShutsDown_example =
    shutdown_storage_node-ShutsDown probes stopping true 20 (db NodeStatus.suspended) (tt, tt)

abbrev removing : Removing
removing = record {
  force_remove = true;
  force_migrate = false;
  remote = remote;
  fuel = 3;
  clears = true;
}

remove_storage_node-Removes_example :
    Removes removing 20
      (db NodeStatus.offline)
      store
      (remove_storage_node probes removing 20 (db NodeStatus.offline) store)
remove_storage_node-Removes_example =
    remove_storage_node-Removes probes removing 20 (db NodeStatus.offline) store
      ((refl, tt), (tt, tt))

abbrev means : Means
means = record { partners = λ n x. 21 ∷ []; create_lvstore = λ n x. (true, x); has_capacity = true }

abbrev expanding_db : Db
expanding_db = record (db NodeStatus.online) {
  nodes = record node { lvstore = 0; secondary_node_id = 0 } ∷ partner ∷ [];
}
