-- ===== src/Monitor/Decision.antt =====
-- The status that the monitor decides on, from what it has counted.
use sbcli.Prelude.{◌+◌, ◌≤◌, ◌<◌, true, false, ◌≡◌, ◌↔◌, ◌⊎◌, length, arith}
use sbcli.Model.{ClusterStatus, Cluster}
use sbcli.Monitor.{Tally, decide}

-- The cluster is active exactly when fewer hosts than parity chunks are affected, no journal
-- replication runs, and there are devices for a stripe, and under strict node anti-affinity nodes.
pub decide-active :
    (c : Cluster) (a : Tally)
    → (decide c a ≡ ClusterStatus.active) ↔ (
        (length a.affected < c.npcs)
        × (a.jm_replication ≡ false)
        × (c.ndcs + c.npcs ≤ a.online_devices)
        × (c.strict_anti_affinity ≡ true → c.ndcs + c.npcs ≤ a.online_nodes))
unfolding decide
decide-active c a = ground arith

-- The cluster is suspended exactly when no journal replication runs and: more hosts than parity
-- chunks are affected; or fewer are and a stripe lacks devices; or under strict anti-affinity a
-- stripe lacks nodes.
pub decide-suspended :
    (c : Cluster) (a : Tally)
    → (decide c a ≡ ClusterStatus.suspended) ↔ (
        (a.jm_replication ≡ false)
        × ((c.npcs < length a.affected)
            ⊎ ((length a.affected < c.npcs) × (a.online_devices < c.ndcs + c.npcs))
            ⊎ ((c.strict_anti_affinity ≡ true) × (a.online_nodes < c.ndcs + c.npcs))))
unfolding decide
decide-suspended c a = ground arith
