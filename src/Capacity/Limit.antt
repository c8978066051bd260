-- ===== src/Capacity/Limit.antt =====
-- The status of a cluster follows its use.
use sbcli.Prelude.{
  ℕ, Bool, false, ◌||◌, some, List, [], ◌∷◌, ◌≡◌, ap, ◌∙◌, arith, ◌==◌, leb, find, if◌then◌else◌,
  if-cases,
}
use sbcli.Model.{
  DeviceStatus, ClusterStatus, cluster_eq, Name, Device, Cluster, Node, Db, get_cluster_by_id,
  get_storage_nodes_by_cluster_id,
}
use sbcli.Devices.{device_set_online}
use sbcli.Devices.Frame.{device_set_state-frame, device_set_online_clusters}
use sbcli.Monitor.{set_cluster_status}
use sbcli.Monitor.Transitions.{HasStatus, set_cluster_status-HasStatus}
use sbcli.NodeMonitor.{Outcome, for_devices, is_online}
use sbcli.NodeMonitor.Statuses.{and_then_keep, for_devices_keep, forget_keep}
use sbcli.Capacity.{
  Records, is_reached, for_node_devices, block, cluster_set_read_only, has_room, unblock,
  cluster_set_active, check_capacity,
}

for_node_devices_keep :
    (P : Db → Type 0) (test : Device → Bool) (call : Device → Db → Outcome)
    → ((d : Device) (x : Db) → P x → P (call d x).1)
    → (ns : List Node) (db : Db) → P db
    → P (for_node_devices test call ns db).1
unfolding for_node_devices
for_node_devices_keep P test call step [] db h = h
for_node_devices_keep P test call step (n ∷ ns) db h =
    if-cases (λ (r : Outcome). P r.1) (is_reached n)
      (λ _.
        and_then_keep P (for_devices test call n.devices db) (λ x. for_node_devices test call ns x)
          (for_devices_keep P test call step n.devices db h)
          (for_node_devices_keep P test call step ns))
      (λ _. for_node_devices_keep P test call step ns db h)

-- The cluster has the status that the use asks for.
abbrev pub wanted : ℕ → Cluster → ClusterStatus
wanted util c =
    if c.cap_crit == 0
    then c.status
    else if leb c.cap_crit util
    then (if cluster_eq c.status ClusterStatus.active || cluster_eq c.status ClusterStatus.degraded
        then ClusterStatus.readonly
        else c.status)
    else if cluster_eq c.status ClusterStatus.readonly
    then ClusterStatus.active
    else c.status

Now : Name → ClusterStatus → Db → Type 0
Now id s db = HasStatus (λ x. x ≡ s) id db

moved :
    (id : Name) (s : ClusterStatus) (a b : Db) → b.clusters ≡ a.clusters → Now id s a → Now id s b
unfolding Now
moved id s a b e (c, h, k) = (c, ap (λ cs. find (λ (x : Cluster). x.uuid == id) cs) e ∙ h, k)

module _ (r : Records) (id : Name) (db : Db) (c : Cluster)
    (stored : get_cluster_by_id id db ≡ some c) where
  read_only-Now :
      cluster_eq c.status ClusterStatus.readonly ≡ false
      → Now id ClusterStatus.readonly (cluster_set_read_only id db).1
  unfolding cluster_set_read_only
  read_only-Now e =
      rw (stored, cluster_set_read_only)
        (rw e (
          and_then_keep (Now id ClusterStatus.readonly)
            (set_cluster_status id ClusterStatus.readonly db)
            (λ x. for_node_devices is_online block (get_storage_nodes_by_cluster_id id x) x)
            (unfold Now in set_cluster_status-HasStatus id ClusterStatus.readonly db c stored)
            (λ x h.
              for_node_devices_keep (Now id ClusterStatus.readonly) is_online block
                (λ d y k.
                  moved id ClusterStatus.readonly y (block d y).1
                    (device_set_state-frame d.uuid DeviceStatus.cannot_allocate y).1 k)
                (get_storage_nodes_by_cluster_id id x) x h)))

  active-Now :
      cluster_eq c.status ClusterStatus.active ≡ false
      → Now id ClusterStatus.active (cluster_set_active r id db).1
  unfolding cluster_set_active
  active-Now e =
      rw (stored, cluster_set_active)
        (rw e (
          and_then_keep (Now id ClusterStatus.active)
            (set_cluster_status id ClusterStatus.active db)
            (λ x.
              for_node_devices (has_room r c) (unblock r) (get_storage_nodes_by_cluster_id id x) x)
            (unfold Now in set_cluster_status-HasStatus id ClusterStatus.active db c stored)
            (λ x h.
              for_node_devices_keep (Now id ClusterStatus.active) (has_room r c) (unblock r)
                (λ d y k.
                  forget_keep (Now id ClusterStatus.active)
                    (device_set_online (r.stamps d.uuid) d.uuid y)
                    (moved id ClusterStatus.active y
                      (device_set_online (r.stamps d.uuid) d.uuid y).1
                      (device_set_online_clusters (r.stamps d.uuid) d.uuid y) k))
                (get_storage_nodes_by_cluster_id id x) x h)))

-- After a check of a stored cluster with a capacity record, a cluster with a limit that its use has
-- reached is read-only if it was active or degraded, one below the limit is active if it was
-- read-only, and any other has the status it had.
pub check_capacity-HasStatus :
    (r : Records) (c : Cluster) (db : Db) (util : ℕ)
    → get_cluster_by_id c.uuid db ≡ some c
    → r.cluster_util ≡ some util
    → HasStatus (λ s. s ≡ wanted util c) c.uuid (check_capacity r c db).1
unfolding check_capacity Now
check_capacity-HasStatus r c db util stored recorded =
    rw (recorded, check_capacity)
      (if-cases P (c.cap_crit == 0) (λ e. (c, stored, ground arith))
        λ e.
          if-cases P (leb c.cap_crit util)
            (λ f.
              if-cases P
                (cluster_eq c.status ClusterStatus.active
                  || cluster_eq c.status ClusterStatus.degraded)
                (λ g.
                  becomes ClusterStatus.readonly (cluster_set_read_only c.uuid db).1 (ground arith)
                    (read_only-Now r c.uuid db c stored (ground arith)))
                (λ g. (c, stored, ground arith)))
            (λ f.
              if-cases P (cluster_eq c.status ClusterStatus.readonly)
                (λ g.
                  becomes ClusterStatus.active (cluster_set_active r c.uuid db).1 (ground arith)
                    (active-Now r c.uuid db c stored (ground arith)))
                (λ g. (c, stored, ground arith))))
  where
    P : Outcome → Type 0
    P x = HasStatus (λ s. s ≡ wanted util c) c.uuid x.1

    becomes :
        (s : ClusterStatus) (after : Db)
        → s ≡ wanted util c
        → Now c.uuid s after
        → HasStatus (λ t. t ≡ wanted util c) c.uuid after
    becomes s after e (d, h, k) = (d, h, k ∙ e)
