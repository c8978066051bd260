-- ===== src/NodeMonitor/Checked.antt =====
-- The statuses that the node monitor gives to a node.
use sbcli.Prelude.{
  Bool, true, false, not, ◌&&◌, ◌||◌, Option, none, some, ◌≡◌, refl, ap, arith, if◌then◌else◌,
  if-cases,
}
use sbcli.Model.{
  NodeStatus, ClusterStatus, node_eq, is_serving, Name, Device, Cluster, Node, Db,
  get_storage_node_by_id, get_cluster_by_id,
}
use sbcli.Devices.Statuses.{SameStatuses}
use sbcli.NodeMonitor.{
  Probes, Outcome, returns, set_node_status, for_devices, put_online, migrate, put_unavailable,
  auto_restart, and_then, forget, is_unavailable, is_online, is_readable, set_node_online,
  set_node_offline, set_node_down, restarts, is_watched, lvstore_in_creation, has_spdk, has_ports,
  check_online, check_offline, check_node,
}
use sbcli.NodeMonitor.Statuses.{
  Sets, Sets-SameStatuses, set_node_status-Sets, and_then_keep, for_devices_keep, forget_keep,
  put_online-SameStatuses, migrate-SameStatuses, put_unavailable-SameStatuses,
  auto_restart-SameStatuses,
}

-- The status after a check of the node `n`, in a cluster with the status `s`.
pub data Moves (p : Probes) (s : ClusterStatus) (n : Node) : NodeStatus → Type 0 where
  stays : Moves p s n n.status
  comes_online :
      (has_spdk p || p.node_rpc) ≡ true
      → (node_eq n.status NodeStatus.unreachable && restarts s) ≡ false
      → (has_ports p n || not (is_serving s)) ≡ true
      → Moves p s n NodeStatus.online
  goes_down : has_ports p n ≡ false → is_serving s ≡ true → Moves p s n NodeStatus.down
  gets_lost :
      (has_spdk p || p.node_rpc) ≡ false
      → ((p.ping && p.node_api && (not (has_spdk p) || not p.node_rpc)) ≡ true → restarts s ≡ true)
      → Moves p s n NodeStatus.unreachable
  gets_schedulable :
      p.ping ≡ false → p.node_api ≡ false → p.node_rpc ≡ false → Moves p s n NodeStatus.schedulable

pub record Checked (p : Probes) (s : ClusterStatus) (n : Node) (before after : Db) : Type 0 where
  pub status : NodeStatus
  pub sets : Sets n.uuid status before after
  pub moves : Moves p s n status

module _ (p : Probes) (s : ClusterStatus) (n : Node) (db : Db)
    (stored : get_storage_node_by_id n.uuid db ≡ some n) where
  unchanged : Sets n.uuid n.status db db
  unchanged = record {
    own =
        ap (λ o. elim o as (λ _. Option NodeStatus) [ none ↦ none | some x ↦ some x.status ])
          stored;
    others = λ k e. refl;
  }

  -- a status, and then calls that change none
  sets : (t : NodeStatus) → Sets n.uuid t db (forget (set_node_status p n.uuid t db)).1
  sets t =
      forget_keep (Sets n.uuid t db) (set_node_status p n.uuid t db)
        (set_node_status-Sets p n.uuid t db n stored)

  devices_keep :
      (t : NodeStatus) (test : Device → Bool) (call : Device → Db → Outcome)
      → ((d : Device) (x : Db) → SameStatuses x (call d x).1)
      → (x : Db) → Sets n.uuid t db x
      → Sets n.uuid t db (for_devices test call n.devices x).1
  devices_keep t test call same x h =
      for_devices_keep (Sets n.uuid t db) test call
        (λ d y k. Sets-SameStatuses n.uuid t db y (call d y).1 k (same d y)) n.devices x h

  online-Checked :
      (has_spdk p || p.node_rpc) ≡ true
      → (node_eq n.status NodeStatus.unreachable && restarts s) ≡ false
      → (has_ports p n || not (is_serving s)) ≡ true
      → Checked p s n db (set_node_online p n db).1
  unfolding set_node_online
  online-Checked a b c =
      if-cases (λ (r : Outcome). Checked p s n db r.1) (node_eq n.status NodeStatus.online)
        (λ _. record { status = n.status; sets = unchanged; moves = stays })
        (λ _. record {
          status = NodeStatus.online;
          sets =
              and_then_keep (Sets n.uuid NodeStatus.online db)
                (forget (set_node_status p n.uuid NodeStatus.online db))
                (λ x.
                  and_then (for_devices is_unavailable (put_online p) n.devices x)
                    (λ y. for_devices is_online (migrate p) n.devices y))
                (sets NodeStatus.online)
                (λ x h.
                  and_then_keep (Sets n.uuid NodeStatus.online db)
                    (for_devices is_unavailable (put_online p) n.devices x)
                    (λ y. for_devices is_online (migrate p) n.devices y)
                    (devices_keep NodeStatus.online is_unavailable (put_online p)
                      (put_online-SameStatuses p) x h)
                    (devices_keep NodeStatus.online is_online (migrate p)
                      (migrate-SameStatuses p)));
          moves = comes_online a b c;
        })

  down-Checked :
      has_ports p n ≡ false → is_serving s ≡ true → Checked p s n db (set_node_down p n db).1
  unfolding set_node_down
  down-Checked a b =
      if-cases (λ (r : Outcome). Checked p s n db r.1) (node_eq n.status NodeStatus.down)
        (λ _. record { status = n.status; sets = unchanged; moves = stays })
        (λ _. record {
          status = NodeStatus.down;
          sets = sets NodeStatus.down;
          moves = goes_down a b;
        })

  lost-Checked :
      (devs : Bool)
      → (has_spdk p || p.node_rpc) ≡ false
      → ((p.ping && p.node_api && (not (has_spdk p) || not p.node_rpc)) ≡ true → restarts s ≡ true)
      → Checked p s n db (set_node_offline p n devs db).1
  unfolding set_node_offline
  lost-Checked devs a allowed =
      if-cases (λ (r : Outcome). Checked p s n db r.1) (node_eq n.status NodeStatus.unreachable)
        (λ _. record { status = n.status; sets = unchanged; moves = stays })
        (λ _. record {
          status = NodeStatus.unreachable;
          sets =
              and_then_keep (Sets n.uuid NodeStatus.unreachable db)
                (forget (set_node_status p n.uuid NodeStatus.unreachable db))
                (λ x.
                  if devs then for_devices is_readable put_unavailable n.devices x else returns x)
                (sets NodeStatus.unreachable)
                (λ x h.
                  if-cases (λ (r : Outcome). Sets n.uuid NodeStatus.unreachable db r.1) devs
                    (λ _.
                      devices_keep NodeStatus.unreachable is_readable put_unavailable
                        put_unavailable-SameStatuses x h)
                    (λ _. h));
          moves = gets_lost a allowed;
        })

  kept : (x y : Db) → Checked p s n db x → SameStatuses x y → Checked p s n db y
  kept x y c same = record {
    status = c.status;
    sets = Sets-SameStatuses n.uuid c.status db x y c.sets same;
    moves = c.moves;
  }

  check_online-Checked :
      (has_spdk p || p.node_rpc) ≡ true → Checked p s n db (check_online p s n db).1
  unfolding check_online
  check_online-Checked a =
      if-cases P (node_eq n.status NodeStatus.unreachable && restarts s)
        (λ _.
          kept db (auto_restart p n db).1
            (record { status = n.status; sets = unchanged; moves = stays })
            (auto_restart-SameStatuses p n db))
        λ b.
          if-cases P (not (has_ports p n) && is_serving s)
            (λ c. down-Checked (ground arith) (ground arith))
            (λ c. online-Checked a b (ground arith))
    where
      P : Outcome → Type 0
      P r = Checked p s n db r.1

  check_offline-Checked :
      (has_spdk p || p.node_rpc) ≡ false → Checked p s n db (check_offline p s n db).1
  unfolding check_offline
  check_offline-Checked a =
      if-cases P (not p.ping && not p.node_api && not (has_spdk p))
        (λ b. record {
          status = NodeStatus.schedulable;
          sets =
              and_then_keep (Sets n.uuid NodeStatus.schedulable db)
                (forget (set_node_status p n.uuid NodeStatus.schedulable db))
                (λ x. for_devices is_readable put_unavailable n.devices x)
                (sets NodeStatus.schedulable)
                (devices_keep NodeStatus.schedulable is_readable put_unavailable
                  put_unavailable-SameStatuses);
          moves = gets_schedulable (ground arith) (ground arith) (ground arith);
        })
        λ _.
          if-cases P (p.ping && p.node_api && (not (has_spdk p) || not p.node_rpc))
            (λ _.
              if-cases P (restarts s)
                (λ b.
                  and_then_keep (Checked p s n db) (set_node_offline p n (not (has_spdk p)) db)
                    (λ x. auto_restart p n x) (lost-Checked (not (has_spdk p)) a (λ _. b))
                    (λ x c. kept x (auto_restart p n x).1 c (auto_restart-SameStatuses p n x)))
                (λ _. record { status = n.status; sets = unchanged; moves = stays }))
            λ k.
              if-cases P (not (has_ports p n))
                (λ b.
                  if-cases P (is_serving s) (λ c. down-Checked (ground arith) c)
                    (λ _. record { status = n.status; sets = unchanged; moves = stays }))
                (λ _. lost-Checked (not (has_spdk p)) a (λ h. absurd (ground arith)))
    where
      P : Outcome → Type 0
      P r = Checked p s n db r.1

-- A check of a node changes the status of no other node. The node comes online only if its storage
-- process or its RPC server answers, if it was not unreachable in a cluster whose nodes are
-- restarted, and with its ports open in a cluster that serves; it goes down only with a port closed
-- in a cluster that serves; it becomes unreachable only if neither answers and, where the host and its API do, only
-- in a cluster whose nodes are restarted, and schedulable only if nothing answers; else it keeps its status, as it does where it is not watched.
pub check_node-Checked :
    (p : Probes) (cluster : Name) (db : Db) (c : Cluster) (n : Node)
    → get_storage_node_by_id n.uuid db ≡ some n
    → get_cluster_by_id cluster db ≡ some c
    → Checked p c.status n db (check_node p cluster n.uuid db).1
      × (is_watched n.status ≡ false → (check_node p cluster n.uuid db).1 ≡ db)
unfolding check_node
check_node-Checked p cluster db c n stored in_cluster = (
  rw (stored, in_cluster, check_node)
      (if-cases P (not (is_watched n.status)) (λ _. same)
        λ _.
          if-cases P (node_eq n.status NodeStatus.online && lvstore_in_creation n.lvstore_status)
            (λ _. same)
            λ _.
              if-cases P (node_eq n.status NodeStatus.schedulable && not p.ping && not p.node_api)
                (λ _. same)
                λ _.
                  if-cases P (has_spdk p || p.node_rpc)
                    (check_online-Checked p c.status n db stored)
                    (check_offline-Checked p c.status n db stored)),
  λ e. rw (stored, check_node) (ground arith),
)
  where
    P : Outcome → Type 0
    P r = Checked p c.status n db r.1

    same : Checked p c.status n db db
    same = record { status = n.status; sets = unchanged p c.status n db stored; moves = stays }
