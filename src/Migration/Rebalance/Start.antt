-- ===== src/Migration/Rebalance/Start.antt =====
-- When the device migration runner starts a migration, and what becomes of the task.
use sbcli.Prelude.{
  true, false, not, none, some, List, [], ◌∷◌, ◌≡◌, ◌≢◌, arith, is_some, Bool-cases, inl, inr, refl,
  All, if-cases, option-cases,
}
use sbcli.Model.{
  Task, Node, Db, NodeStatus, DeviceStatus, Cluster, Device, Time, get_task_by_id,
  get_cluster_by_id, get_storage_nodes_by_cluster_id, get_storage_node_by_id,
  get_storage_device_by_id, node_eq, is_serving, is_waiting,
}
use sbcli.Migration.{Run, Storage, too_young}
use sbcli.Migration.Rebalance.{
  start_and_poll, begin, checks, task_runner, reason_to_wait, unsettled_device,
}

abbrev pub IsSettled : Device → Type 0
IsSettled d = (d.status ≢ DeviceStatus.fresh) × (d.status ≢ DeviceStatus.unavailable)

-- A primary node that does not stand in the way of a migration.
abbrev pub IsReady : Time → Node → Type 0
IsReady now n =
    n.is_secondary ≡ false
    → (n.status ≡ NodeStatus.online → too_young now n ≡ false) × All IsSettled n.devices

unsettled_device-none : (ds : List Device) → unsettled_device ds ≡ none → All IsSettled ds
unsettled_device-none [] h = tt
unsettled_device-none (d ∷ ds) h = (ground arith, unsettled_device-none ds (ground arith))

none-unsettled_device : (ds : List Device) → All IsSettled ds → unsettled_device ds ≡ none
none-unsettled_device [] h = refl
none-unsettled_device (d ∷ ds) h = ground (arith, none-unsettled_device ds h.1)

-- The loop finds no reason to wait exactly when every primary node is ready: not online for less
-- than a minute, and with no new or unavailable device.
reason_to_wait-none :
    (now : Time) (ns : List Node) → reason_to_wait now ns ≡ none → All (IsReady now) ns
reason_to_wait-none now [] h = tt
reason_to_wait-none now (n ∷ ns) h = (
  λ primary. (ground arith, unsettled_device-none n.devices (ground arith)),
  reason_to_wait-none now ns (ground arith),
)

none-reason_to_wait :
    (now : Time) (ns : List Node) → All (IsReady now) ns → reason_to_wait now ns ≡ none
none-reason_to_wait now [] h = refl
none-reason_to_wait now (n ∷ ns) h = elim (Bool-cases n.is_secondary) [
  | inl e ↦ rw e (none-reason_to_wait now ns h.1)
  | inr e ↦ rw e (
      ground (
        arith,
        (h.0 e).0,
        none-unsettled_device n.devices (h.0 e).1,
        none-reason_to_wait now ns h.1,
      ))
]

-- The state in which a migration may be started for a task.
pub record MayStart (s : Storage) (t : Task) (db : Db) : Type 0 where
  pub node : Node
  pub at_node : get_storage_node_by_id t.node_id db ≡ some node
  pub online : node.status ≡ NodeStatus.online
  pub cluster : Cluster
  pub in_cluster : get_cluster_by_id t.cluster_id db ≡ some cluster
  pub serving : is_serving cluster.status ≡ true
  pub not_canceled : t.canceled ≡ false
  pub ready :
      is_waiting t.status ≡ true
      → All (IsReady s.now) (get_storage_nodes_by_cluster_id t.cluster_id db)
  pub accepted : s.started ≡ true

-- A property of the runs that leave a migration in the task.
abbrev WhereStarted : Type 0 → Run → Type 0
WhereStarted P r = is_some r.task.params.migration ≡ true → P

module _ (s : Storage) (snode : Node) where
  start-accepted :
      (t : Task) (db : Db)
      → is_some t.params.migration ≡ false
      → WhereStarted (s.started ≡ true) (start_and_poll s snode t db)
  unfolding start_and_poll
  start-accepted t db none_yet =
      if-cases P (is_some t.params.migration) (λ e. cc)
        λ _.
          option-cases P (get_storage_device_by_id t.device_id db) (λ _. ground arith)
            λ device _.
              option-cases P t.params.distr_name (λ _. ground arith)
                λ name _.
                  option-cases P (get_cluster_by_id snode.cluster_id db) (λ _. ground arith)
                    λ cluster _.
                      if-cases P (not s.started) (λ _. ground arith) λ started _. ground arith
    where
      P : Run → Type 0
      P = WhereStarted (s.started ≡ true)

  begin-IsReady :
      (t : Task) (db : Db)
      → is_some t.params.migration ≡ false
      → WhereStarted
          ((s.started ≡ true)
            × (is_waiting t.status ≡ true
                → All (IsReady s.now) (get_storage_nodes_by_cluster_id t.cluster_id db)))
          (begin s snode t db)
  unfolding begin
  begin-IsReady t db none_yet =
      if-cases P (is_waiting t.status)
        (λ _.
          option-cases P (reason_to_wait s.now (get_storage_nodes_by_cluster_id t.cluster_id db))
            (λ clear. λ m. (start-accepted _ _ none_yet m, λ _. reason_to_wait-none s.now _ clear))
            (λ m _. ground arith))
        (λ active m. (start-accepted t db none_yet m, λ w. cc))
    where
      P : Run → Type 0
      P = WhereStarted (
          (s.started ≡ true)
          × (is_waiting t.status ≡ true
              → All (IsReady s.now) (get_storage_nodes_by_cluster_id t.cluster_id db)))

-- A run starts a migration only for a task that is not canceled, on an online node, in a cluster
-- that serves, with every primary node ready if the task was waiting, and if the storage accepts.
checks-MayStart :
    (s : Storage) (t : Task) (db : Db)
    → is_some t.params.migration ≡ false
    → WhereStarted (MayStart s t db) (checks s t db)
unfolding checks
checks-MayStart s t db none_yet =
    option-cases P (get_storage_node_by_id t.node_id db) (λ _. ground arith)
      λ snode at_node.
        if-cases P t.canceled (λ _. ground arith)
          λ alive.
            if-cases P (not (node_eq snode.status NodeStatus.online)) (λ _. ground arith)
              λ up.
                option-cases P (get_cluster_by_id t.cluster_id db) (λ _. ground arith)
                  λ cluster at_cluster.
                    if-cases P (not (is_serving cluster.status)) (λ _. ground arith)
                      λ serves m.
                        let (accepted, ready) = begin-IsReady s snode t db none_yet m in
                        record {
                          node = snode;
                          at_node = at_node;
                          online = ground arith;
                          cluster = cluster;
                          in_cluster = at_cluster;
                          serving = ground arith;
                          not_canceled = alive;
                          ready = ready;
                          accepted = accepted;
                        }
  where
    P : Run → Type 0
    P = WhereStarted (MayStart s t db)

-- A run of the device migration runner starts a migration for a stored task only if the task is not
-- canceled, its node is online, its cluster is active, degraded or read-only, the storage accepts,
-- and, if the task was new or suspended, every primary node of the cluster is ready: it has no new
-- or unavailable device, and if it is online, it has been so for a minute.
pub task_runner-MayStart :
    (s : Storage) (t u : Task) (db : Db)
    → get_task_by_id t.uuid db ≡ some u
    → is_some u.params.migration ≡ false
    → is_some (task_runner s t db).task.params.migration ≡ true
    → MayStart s u db
unfolding task_runner
task_runner-MayStart s t u db stored none_yet m =
    checks-MayStart s u db none_yet (rw (stored, task_runner) at m)
