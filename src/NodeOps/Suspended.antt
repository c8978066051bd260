-- ===== src/NodeOps/Suspended.antt =====
-- What the suspension of a node comes to.
use sbcli.Prelude.{
  ◌≤◌, ◌<◌, ◌||◌, none, Bool, true, false, not, ◌&&◌, some, ◌≡◌, ◌∙◌, sym, ◌⊎◌, inl, inr, refl,
  arith, Bool-cases, if-cases, option-cases, returned, raised,
}
use sbcli.Model.{
  NodeStatus, ClusterStatus, node_eq, cluster_eq, is_ha, Name, Node, Cluster, Db,
  get_storage_node_by_id, get_cluster_by_id,
}
use sbcli.TaskQueries.{get_active_node_tasks}
use sbcli.Devices.Statuses.{SameStatuses, found_key}
use sbcli.NodeMonitor.{
  Probes, Outcome, and_then, set_node_status, for_devices, is_online, put_unavailable, forget,
}
use sbcli.NodeMonitor.Statuses.{Sets, for_devices_keep, put_unavailable-SameStatuses}
use sbcli.NodeOps.{
  Reply, restart_found, has_status, online_nodes, holds_back, suspends, suspend_in_cluster, ends,
  succeeds, suspend_storage_node,
}
use sbcli.NodeOps.Steps.{cancel_tasks_keep, cancel_tasks-SameStatuses, forget-Sets}

-- What a suspension asks for that is not forced.
pub record MaySuspend (n : Node) (c : Cluster) (db : Db) : Type 0 where
  pub was_online : node_eq n.status NodeStatus.online ≡ true
  pub no_restart : restart_found n db ≡ false
  pub not_degraded : is_ha c.ha_type ≡ true → cluster_eq c.status ClusterStatus.degraded ≡ false
  pub three_online :
      is_ha c.ha_type ≡ true
      → cluster_eq c.status ClusterStatus.active ≡ true
      → 3 ≤ online_nodes n.cluster_id db

pub data Suspends (force : Bool) (id : Name) (db : Db) : Reply → Type 0 where
  missing : get_storage_node_by_id id db ≡ none → Suspends force id db (returned false, db)
  refused :
      (n : Node)
      → get_storage_node_by_id id db ≡ some n
      → force ≡ false
      → (not (node_eq n.status NodeStatus.online) || restart_found n db) ≡ true
      → Suspends force id db (returned false, db)
  held_back :
      (n : Node) (c : Cluster)
      → get_storage_node_by_id id db ≡ some n
      → get_cluster_by_id n.cluster_id db ≡ some c
      → force ≡ false
      → is_ha c.ha_type ≡ true
      → (cluster_eq c.status ClusterStatus.degraded ≡ true)
        ⊎ ((cluster_eq c.status ClusterStatus.active ≡ true) × (online_nodes n.cluster_id db < 3))
      → Suspends force id db (returned false, db)
  failed : {x : Db} → SameStatuses db x → Suspends force id db (raised, x)
  suspended :
      {x : Db} (n : Node) (c : Cluster)
      → get_storage_node_by_id id db ≡ some n
      → get_cluster_by_id n.cluster_id db ≡ some c
      → (force ≡ true) ⊎ MaySuspend n c db
      → Sets n.uuid NodeStatus.suspended db x
      → Suspends force id db (returned true, x)

module _ (p : Probes) (force : Bool) (id : Name) (n : Node) (db : Db)
    (stored : get_storage_node_by_id id db ≡ some n) where
  abbrev P : Reply → Type 0
  P = Suspends force id db

  suspends-Suspends :
      (c : Cluster) (x : Db)
      → get_cluster_by_id n.cluster_id db ≡ some c
      → SameStatuses db x
      → (force ≡ true) ⊎ MaySuspend n c db
      → P (suspends p n x)
  unfolding suspends
  suspends-Suspends c x of same may = finish (for_devices is_online put_unavailable n.devices x) (
      for_devices_keep (SameStatuses db) is_online put_unavailable
        (λ d y h k. put_unavailable-SameStatuses d y k ∙ h k) n.devices x same)
    where
      done :
          (y : Db)
          → SameStatuses db y
          → P (ends (forget (set_node_status p n.uuid NodeStatus.suspended y)) succeeds)
      done y h = rw (set.0) (suspended n c stored of may set.1)
        where
          set :
              (forget (set_node_status p n.uuid NodeStatus.suspended y)
                ≡ (returned tt, (set_node_status p n.uuid NodeStatus.suspended y).1))
              × Sets n.uuid NodeStatus.suspended db
                  (set_node_status p n.uuid NodeStatus.suspended y).1
          set = forget-Sets p n.uuid NodeStatus.suspended n db y (found_key id n db stored) h refl

      finish :
          (o : Outcome)
          → SameStatuses db o.1
          → P (
              ends
                (and_then o (λ y. forget (set_node_status p n.uuid NodeStatus.suspended y)))
                succeeds)
      finish (raised, y) h = failed h
      finish (returned tt, y) h = done y h

  suspend_in_cluster-Suspends :
      (x : Db)
      → SameStatuses db x
      → (get_cluster_by_id n.cluster_id x ≡ get_cluster_by_id n.cluster_id db)
      → (force ≡ false → x ≡ db)
      → (force ≡ false → node_eq n.status NodeStatus.online ≡ true)
      → (force ≡ false → restart_found n db ≡ false)
      → P (suspend_in_cluster p force n x)
  unfolding suspend_in_cluster
  suspend_in_cluster-Suspends x same clusters plain online no_restart =
      option-cases P (get_cluster_by_id n.cluster_id x) (λ _. failed same)
        λ c found.
          if-cases P (holds_back n c x && not force)
            (λ k. held (plain (ground arith)) c k (sym clusters ∙ found))
            (λ k. suspends-Suspends c x (sym clusters ∙ found) same (may c k (Bool-cases force)))
    where
      held :
          x ≡ db
          → (c : Cluster) → (holds_back n c x && not force) ≡ true
          → get_cluster_by_id n.cluster_id db ≡ some c
          → P (returned false, x)
      held e c k found = rw e (
          held_back n c stored found (ground arith) (ground arith)
            (elim (Bool-cases (cluster_eq c.status ClusterStatus.degraded)) [
              | inl d ↦ inl d
              | inr d ↦
                  let k' : (holds_back n c db && not force) ≡ true = rw⁻¹ e k in
                  inr (ground arith, ground arith)
            ]))

      may :
          (c : Cluster)
          → (holds_back n c x && not force) ≡ false
          → (force ≡ true) ⊎ (force ≡ false)
          → (force ≡ true) ⊎ MaySuspend n c db
      may c k (inl f) = inl f
      may c k (inr f) = inr (record {
        was_online = online f;
        no_restart = no_restart f;
        not_degraded = λ ha. ground arith;
        three_online = λ ha act. rw⁻¹ (plain f) (ground arith);
      })

-- The suspension of a node: a refusal changes nothing, and comes only for a missing node or, unforced, for
-- lack of what is named below; a failure keeps the statuses of all nodes; with success
-- the node is suspended and the others keep their statuses, and unless it was forced the node was online,
-- no restart task of it was active, and the node's stored cluster, if highly available, was not degraded and had, if active,
-- three online nodes.
pub suspend_storage_node-Suspends :
    (p : Probes) (force : Bool) (id : Name) (db : Db)
    → Suspends force id db (suspend_storage_node p force id db)
unfolding suspend_storage_node
suspend_storage_node-Suspends p force id db =
    option-cases P (get_storage_node_by_id id db) missing λ n stored.
      if-cases P (not (has_status NodeStatus.online n) && not force)
        (λ a. refused n stored (ground arith) (ground arith))
        λ a.
          if-cases P (restart_found n db && not force)
            (λ b. refused n stored (ground arith) (ground arith))
            λ b.
              if-cases (λ (x : Db). P (suspend_in_cluster p force n x)) (restart_found n db)
                (λ r.
                  suspend_in_cluster-Suspends p force id n db stored _
                    (cancel_tasks-SameStatuses (λ _. true)
                      (get_active_node_tasks n.cluster_id n.uuid db) db)
                    (cancel_tasks_keep
                      (λ x. get_cluster_by_id n.cluster_id x ≡ get_cluster_by_id n.cluster_id db)
                      (λ t x h. h) (λ _. true) (get_active_node_tasks n.cluster_id n.uuid db) db
                      refl)
                    (λ f. absurd (ground arith)) (λ f. ground arith) (λ f. ground arith))
                (λ r.
                  suspend_in_cluster-Suspends p force id n db stored db (λ k. refl) refl (λ f. refl)
                    (λ f. ground arith) (λ f. r))
  where
    P : Reply → Type 0
    P = Suspends force id db
