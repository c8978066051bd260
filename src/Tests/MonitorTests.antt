-- ===== src/Tests/MonitorTests.antt =====
-- Examples for the theorems about the cluster status.
use sbcli.Prelude.{
  Bool, true, List, [], ◌∷◌, ◌≡◌, ◌<◌, ◌≤◌, ◌+◌, ◌↔◌, refl, length, false, returned,
}
use sbcli.Model.{ClusterStatus, Name}
use sbcli.Monitor.{
  Tally, decide, no_tally, tally_nodes, get_next_cluster_status, update_cluster_status,
}
use sbcli.Monitor.Decision.{decide-active}
use sbcli.Monitor.Tallied.{Describes, IsDistinct, tally_nodes-Describes}
use sbcli.Monitor.Transitions.{HasStatus, Moves, update_cluster_status-Moves}
use sbcli.Tests.Sample.{cluster, node, mig_task, db_with}

abbrev tally : Tally
tally = record { online_nodes = 1; online_devices = 2; jm_replication = false; affected = [] }

abbrev all_idle : Name → List Bool
all_idle n = true ∷ []

decide-active_example : (decide cluster tally ≡ ClusterStatus.active) ↔ (
    (length tally.affected < cluster.npcs)
    × (tally.jm_replication ≡ false)
    × (cluster.ndcs + cluster.npcs ≤ tally.online_devices)
    × (cluster.strict_anti_affinity ≡ true → cluster.ndcs + cluster.npcs ≤ tally.online_nodes))
decide-active_example = decide-active cluster tally

tally_nodes-Describes_example :
    Describes all_idle 1
      (db_with mig_task)
      (node ∷ [])
      no_tally
      (tally_nodes all_idle 1 (db_with mig_task) (node ∷ []) no_tally)
    × IsDistinct (tally_nodes all_idle 1 (db_with mig_task) (node ∷ []) no_tally).affected
tally_nodes-Describes_example = tally_nodes-Describes all_idle 1 (db_with mig_task) (node ∷ [])

next_is_active :
    get_next_cluster_status all_idle 1 (db_with mig_task) ≡ returned ClusterStatus.active
unfolding get_next_cluster_status
next_is_active = refl

update_cluster_status-Moves_example :
    HasStatus
      (Moves ClusterStatus.degraded ClusterStatus.active)
      1
      (update_cluster_status all_idle 90_000_000 1 (db_with mig_task)).1
update_cluster_status-Moves_example =
    update_cluster_status-Moves all_idle 90_000_000 1 (db_with mig_task) cluster
      ClusterStatus.active refl next_is_active
