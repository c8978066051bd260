-- ===== src/ClusterOps/Expanded.antt =====
-- The status of a cluster after its expansion.
use sbcli.Prelude.{true, false, ◌≡◌}
use sbcli.Model.{ClusterStatus, Name, Node, Cluster, Db, get_storage_nodes_by_cluster_id}
use sbcli.Monitor.{set_cluster_status}
use sbcli.Monitor.Transitions.{HasStatus}
use sbcli.ClusterOps.Turns.{Loops}
use sbcli.ClusterOps.{Means, Step, Expansion, can_expand}

-- The creation of a volume store changes no cluster.
abbrev pub KeepsClusters : Means → Type 0
KeepsClusters w = (n : Node) (x : Db) → (w.create_lvstore n x).1.clusters ≡ x.clusters

abbrev pub begun : Name → Db → Db
begun id db = (set_cluster_status id ClusterStatus.in_expansion db).1

-- The loop over the nodes of the cluster ends with `step`, and the cluster then gets the status `s`.
abbrev pub LoopsTo : Means → Name → Cluster → Db → Step → ClusterStatus → Db → Type 0
LoopsTo w id c db step s x =
    (can_expand c.status ≡ true)
    × HasStatus (λ t. t ≡ s) id x
    × ((y : Db) × (Loops w c.ha_type (get_storage_nodes_by_cluster_id id (begun id db))
            (begun id db) (step, y)
          × (x ≡ (set_cluster_status id s y).1)))

-- What an expansion comes to for the nodes and the status of the cluster `c`.
abbrev pub Expands : Means → Name → Cluster → Db → Expansion × Db → Type 0
Expands w id c db (Expansion.expanded, x) = LoopsTo w id c db Step.continue ClusterStatus.active x
Expands w id c db (Expansion.unexpected_status, x) = (can_expand c.status ≡ false) × (x ≡ db)
Expands w id c db (Expansion.not_enough, x) = LoopsTo w id c db Step.too_few_nodes c.status x
Expands w id c db (Expansion.failed, x) = LoopsTo w id c db Step.lvstore_failed c.status x
Expands w id c db (Expansion.no_cluster, x) = ⊥
Expands w id c db (Expansion.no_capacity, x) =
    (can_expand c.status ≡ true)
    × (w.has_capacity ≡ false)
    × HasStatus (λ s. s ≡ ClusterStatus.in_expansion) id x
Expands w id c db (Expansion.stopped, x) =
    (can_expand c.status ≡ true)
    × (w.has_capacity ≡ true)
    × HasStatus (λ s. s ≡ ClusterStatus.in_expansion) id x
