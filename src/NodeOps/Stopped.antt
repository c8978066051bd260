-- ===== src/NodeOps/Stopped.antt =====
-- What the shutdown of a node comes to.
use sbcli.Prelude.{
  Bool, true, false, not, ◌&&◌, ◌||◌, none, some, List, [], ◌∷◌, ◌≡◌, ◌⊎◌, inl, inr, refl, ap,
  arith, ◌==◌, Bool-cases, if-cases, option-cases, returned, raised,
}
use sbcli.Model.{
  NodeStatus, DeviceStatus, node_eq, is_migration, same_key, Name, Task, Device, Node, Db,
  write_task, get_job_tasks, get_storage_node_by_id,
}
use sbcli.Model.Order.{In, IsSorted, put_task-IsSorted}
use sbcli.Model.Members.{In-put_task, In-get_job_tasks}
use sbcli.Tasks.{is_active}
use sbcli.TaskQueries.{get_active_node_tasks}
use sbcli.Devices.{device_set_unavailable}
use sbcli.Devices.Frame.{device_set_state-frame}
use sbcli.Devices.Statuses.{SameStatuses, status_in, found_key}
use sbcli.NodeMonitor.{Probes, Outcome, set_node_status, for_devices, put_unavailable, forget}
use sbcli.NodeMonitor.Statuses.{
  Sets, Sets-again, Sets-SameStatuses, for_devices_keep, for_devices_returns,
  put_unavailable-SameStatuses,
}
use sbcli.NodeOps.{
  Reply, Stopping, succeeds, ends, restart_found, has_status, has_tasks, has_devices, is_usable,
  is_stopped_mig, stop_migrations, stops_process, shuts_down, shutdown_storage_node,
}
use sbcli.NodeOps.Steps.{stored_node, cancel_tasks-SameStatuses, cancel_tasks-IsSorted, forget-Sets}

-- A migration of the node that is active.
abbrev pub is_left : Node → Task → Bool
is_left n t =
    t.cluster_id == n.cluster_id
    && t.node_id == n.uuid
    && is_migration t.function_name
    && is_active t

-- What a shutdown asks for that is not forced.
pub record MayStop (n : Node) (db : Db) : Type 0 where
  pub was_suspended : node_eq n.status NodeStatus.suspended ≡ true
  pub no_restart : restart_found n db ≡ false
  pub no_tasks : has_tasks (get_active_node_tasks n.cluster_id n.uuid db) ≡ false

-- What a shutdown that is not forced is refused for.
abbrev pub blocks_stop : Node → Db → Bool
blocks_stop n db =
    not (node_eq n.status NodeStatus.suspended)
    || restart_found n db
    || has_tasks (get_active_node_tasks n.cluster_id n.uuid db)

pub data ShutsDown (r : Stopping) (force : Bool) (id : Name) (db : Db) : Reply → Type 0 where
  missing : get_storage_node_by_id id db ≡ none → ShutsDown r force id db (returned false, db)
  refused :
      (n : Node)
      → get_storage_node_by_id id db ≡ some n
      → force ≡ false
      → blocks_stop n db ≡ true
      → ShutsDown r force id db (returned false, db)
  running :
      {x : Db} (n : Node)
      → get_storage_node_by_id id db ≡ some n
      → (force ≡ true) ⊎ MayStop n db
      → r.kills ≡ false
      → Sets n.uuid NodeStatus.in_shutdown db x
      → ShutsDown r force id db (returned false, x)
  unbound :
      {x : Db} (n : Node)
      → get_storage_node_by_id id db ≡ some n
      → (force ≡ true) ⊎ MayStop n db
      → r.kills ≡ true
      → (has_devices n.devices && not r.binds) ≡ true
      → Sets n.uuid NodeStatus.in_shutdown db x
      → ShutsDown r force id db (raised, x)
  shut :
      {x : Db} (n : Node)
      → get_storage_node_by_id id db ≡ some n
      → (force ≡ true) ⊎ MayStop n db
      → r.kills ≡ true
      → (has_devices n.devices && not r.binds) ≡ false
      → Sets n.uuid NodeStatus.offline db x
      → ((t : Task) → In t x.tasks → is_left n t ≡ false)
      → ShutsDown r force id db (returned true, x)

abbrev marked : Task → Task
marked t = record t { canceled = true }

-- The last loop leaves no active migration of the node that it has not read.
stop_migrations_left :
    (n : Node) (ts : List Task) (x : Db)
    → IsSorted x.tasks
    → ((t : Task) → In t x.tasks → is_left n t ≡ true → In t ts)
    → (t : Task) → In t (stop_migrations n.uuid ts x).tasks
    → is_left n t ≡ false
unfolding stop_migrations
stop_migrations_left n [] x s h t m = elim (Bool-cases (is_left n t)) [
  | inl e ↦ absurd (h t m e)
  | inr e ↦ e
]
stop_migrations_left n (u ∷ us) x s h t0 m0 =
    if-cases (λ (y : Db). (t : Task) → In t y.tasks → is_left n t ≡ false) (is_stopped_mig n.uuid u)
      (λ e.
        stop_migrations_left n us (write_task (marked u) x) (put_task-IsSorted (marked u) x.tasks s)
          (λ t m l. written t l (In-put_task t (marked u) x.tasks s m)))
      (λ e. stop_migrations_left n us x s (λ t m l. skipped e t l (h t m l))) t0 m0
  where
    other : (t : Task) → same_key (marked u) t ≡ false → In t (u ∷ us) → In t us
    other t k (inl e) = absurd (ground arith)
    other t k (inr m) = m

    written :
        (t : Task)
        → is_left n t ≡ true
        → (t ≡ marked u) ⊎ (In t x.tasks × (same_key (marked u) t ≡ false))
        → In t us
    written t l (inl e) = absurd (ground arith)
    written t l (inr (m, k)) = other t k (h t m l)

    skipped :
        is_stopped_mig n.uuid u ≡ false → (t : Task) → is_left n t ≡ true → In t (u ∷ us) → In t us
    skipped e t l (inl f) = absurd (ground arith)
    skipped e t l (inr m) = m

stop_migrations_all :
    (n : Node) (x : Db)
    → IsSorted x.tasks
    → (t : Task) → In t (stop_migrations n.uuid (get_job_tasks n.cluster_id x) x).tasks
    → is_left n t ≡ false
stop_migrations_all n x s =
    stop_migrations_left n (get_job_tasks n.cluster_id x) x s
      (λ t m l. In-get_job_tasks t n.cluster_id x m (ground arith))

stop_migrations-nodes :
    (id : Name) (ts : List Task) (x : Db) → (stop_migrations id ts x).nodes ≡ x.nodes
unfolding stop_migrations
stop_migrations-nodes id [] x = refl
stop_migrations-nodes id (t ∷ ts) x =
    if-cases (λ (y : Db). y.nodes ≡ x.nodes) (is_stopped_mig id t)
      (λ _. stop_migrations-nodes id ts (write_task (marked t) x))
      (λ _. stop_migrations-nodes id ts x)

set_node_status-tasks :
    (p : Probes) (id : Name) (s : NodeStatus) (x : Db)
    → (set_node_status p id s x).1.tasks ≡ x.tasks
unfolding set_node_status
set_node_status-tasks p id s x = ground arith

module _ (p : Probes) (r : Stopping) (force : Bool) (id : Name) (n : Node) (db : Db)
    (stored : get_storage_node_by_id id db ≡ some n) (may : (force ≡ true) ⊎ MayStop n db) where
  abbrev P : Reply → Type 0
  P = ShutsDown r force id db

  -- What holds once the node is in shutdown.
  abbrev Going : Db → Type 0
  Going x = Sets n.uuid NodeStatus.in_shutdown db x × IsSorted x.tasks

  stops_process-ShutsDown : (x : Db) → Going x → P (stops_process p r n x)
  unfolding stops_process
  stops_process-ShutsDown x (sets, sorted) =
      if-cases P (not r.kills) (λ k. running n stored may (ground arith) sets)
        λ k.
          if-cases P (has_devices n.devices && not r.binds)
            (λ b. unbound n stored may (ground arith) b sets)
            (λ b. offline (ground arith) b (stored_node n.uuid NodeStatus.in_shutdown x sets.own))
    where
      z : Db
      z = (set_node_status p n.uuid NodeStatus.offline x).1

      offline :
          r.kills ≡ true
          → (has_devices n.devices && not r.binds) ≡ false
          → (m : Node) × (get_storage_node_by_id n.uuid x ≡ some m)
          → P (
              ends
                (forget (set_node_status p n.uuid NodeStatus.offline x))
                (λ y. succeeds (stop_migrations n.uuid (get_job_tasks n.cluster_id y) y)))
      offline k b (m, e) = rw set.0 (
          shut n stored may k b
            (Sets-SameStatuses n.uuid NodeStatus.offline db z _
              (Sets-again n.uuid NodeStatus.in_shutdown NodeStatus.offline db x z sets set.1)
              (λ k.
                ap (status_in k) (stop_migrations-nodes n.uuid (get_job_tasks n.cluster_id z) z)))
            (stop_migrations_all n z
              (rw (set_node_status-tasks p n.uuid NodeStatus.offline x) sorted)))
        where
          set :
              (forget (set_node_status p n.uuid NodeStatus.offline x) ≡ (returned tt, z))
              × Sets n.uuid NodeStatus.offline x z
          set = forget-Sets p n.uuid NodeStatus.offline m x x e (λ k. refl) refl

  shuts_down-ShutsDown : (x : Db) → SameStatuses db x → IsSorted x.tasks → P (shuts_down p r n x)
  unfolding shuts_down put_unavailable device_set_unavailable
  shuts_down-ShutsDown x same sorted = rw set.0 (
      going (for_devices is_usable put_unavailable n.devices y)
        (for_devices_returns is_usable put_unavailable (λ d x. refl) n.devices y)
        (for_devices_keep Going is_usable put_unavailable step n.devices y
          (set.1, rw (set_node_status-tasks p n.uuid NodeStatus.in_shutdown x) sorted)))
    where
      y : Db
      y = (set_node_status p n.uuid NodeStatus.in_shutdown x).1

      set :
          (forget (set_node_status p n.uuid NodeStatus.in_shutdown x) ≡ (returned tt, y))
          × Sets n.uuid NodeStatus.in_shutdown db y
      set = forget-Sets p n.uuid NodeStatus.in_shutdown n db x (found_key id n db stored) same refl

      step : (d : Device) (z : Db) → Going z → Going (put_unavailable d z).1
      step d z (a, b) = (
        Sets-SameStatuses n.uuid NodeStatus.in_shutdown db z _ a (put_unavailable-SameStatuses d z),
        rw ((device_set_state-frame d.uuid DeviceStatus.unavailable z).0) b,
      )

      going : (o : Outcome) → o.0 ≡ returned tt → Going o.1 → P (ends o (stops_process p r n))
      going (raised, z) e h = absurd (ground arith)
      going (returned tt, z) e h = stops_process-ShutsDown z h

-- The shutdown of a node, where the tasks are ordered by their keys: a refusal changes nothing, and comes only for a
-- missing node or, unforced, for one that is not suspended or has a restart or another active task; else the node
-- is left in shutdown, with the reply False if its storage process is not killed and with an exception if the
-- process is killed and the devices that the node has are not bound to their driver again; with success the
-- process was killed and devices, if any, were bound, the node is offline and none of its migrations is active
-- in its cluster. The other nodes keep their statuses, and unless it was forced the node was suspended, no
-- restart task of it was active and it had no active task.
pub shutdown_storage_node-ShutsDown :
    (p : Probes) (r : Stopping) (force : Bool) (id : Name) (db : Db)
    → IsSorted db.tasks
    → ShutsDown r force id db (shutdown_storage_node p r force id db)
unfolding shutdown_storage_node
shutdown_storage_node-ShutsDown p r force id db sorted =
    option-cases P (get_storage_node_by_id id db) missing λ n stored.
      if-cases P (not (has_status NodeStatus.suspended n) && not force)
        (λ a. refused n stored (ground arith) (ground arith))
        λ a.
          if-cases P (restart_found n db && not force)
            (λ b. refused n stored (ground arith) (ground arith))
            λ b.
              if-cases P (has_tasks (get_active_node_tasks n.cluster_id n.uuid db) && not force)
                (λ c. refused n stored (ground arith) (ground arith))
                λ c.
                  shuts_down-ShutsDown p r force id n db stored (may n a b c (Bool-cases force)) _
                    (cancel_tasks-SameStatuses _ (get_active_node_tasks n.cluster_id n.uuid db) db)
                    (cancel_tasks-IsSorted _ (get_active_node_tasks n.cluster_id n.uuid db) db
                      sorted)
  where
    P : Reply → Type 0
    P = ShutsDown r force id db

    may :
        (n : Node)
        → (not (has_status NodeStatus.suspended n) && not force) ≡ false
        → (restart_found n db && not force) ≡ false
        → (has_tasks (get_active_node_tasks n.cluster_id n.uuid db) && not force) ≡ false
        → (force ≡ true) ⊎ (force ≡ false)
        → (force ≡ true) ⊎ MayStop n db
    may n a b c (inl f) = inl f
    may n a b c (inr f) = inr (record {
      was_suspended = ground arith;
      no_restart = ground arith;
      no_tasks = ground arith;
    })
