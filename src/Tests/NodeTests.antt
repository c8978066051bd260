-- ===== src/Tests/NodeTests.antt =====
-- Examples for the theorems about the checks of nodes and the cancellation of tasks.
use sbcli.Prelude.{false, ◌≡◌, refl}
use sbcli.Model.{ClusterStatus}
use sbcli.NodeMonitor.{Probes, is_watched, check_node}
use sbcli.NodeMonitor.Checked.{Checked, check_node-Checked}
use sbcli.Cancel.{cancel_task, Cancels, cancel_task-Cancels}
use sbcli.Tests.Sample.{cluster, node, mig_task, db_with, stamps, sample-IsWellFormed}

-- A node of which nothing answers.
abbrev silent : Probes
silent = record {
  now = 90_000_000;
  ping = false;
  node_api = false;
  spdk_process = false;
  node_rpc = false;
  ports = false;
  connects = false;
  stamps = λ d. stamps;
}

check_node-Checked_example :
    Checked silent ClusterStatus.degraded node
      (db_with mig_task)
      (check_node silent 1 20 (db_with mig_task)).1
    × (is_watched node.status ≡ false
        → (check_node silent 1 20 (db_with mig_task)).1 ≡ db_with mig_task)
check_node-Checked_example = check_node-Checked silent 1 (db_with mig_task) cluster node refl refl

cancel_task-Cancels_example : Cancels 50 (db_with mig_task) (cancel_task 50 (db_with mig_task))
cancel_task-Cancels_example =
    cancel_task-Cancels 50 (db_with mig_task) (sample-IsWellFormed mig_task)
