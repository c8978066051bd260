-- ===== src/Snapshots/Added.antt =====
-- What the creation of a snapshot comes to.
use sbcli.Prelude.{
  ℕ, pos, true, false, not, Option, none, some, ◌≡◌, ◌≢◌, arith, refl, ap, ◌∙◌, any, if-cases,
  option-cases, result-cases, Result, returned, raised, if◌then◌else◌,
}
use sbcli.Prelude.Table.{get-put}
use sbcli.Model.{
  HaType, NodeStatus, node_eq, Name, Cluster, Node, Db, is_set, get_storage_node_by_id,
  get_cluster_by_id,
}
use sbcli.Volumes.{
  SnapStatus, Lvol, Snapshot, Pool, Store, is_inactive, snapshot_key, get_pool_by_id,
  get_lvol_by_id, get_snapshot_by_id, remove_lvol, write_snapshot,
}
use sbcli.Volumes.Placement.{
  Placement, placed, secondary_down, both_offline, place, is_online, is_leader, Places,
  place-Places,
}
use sbcli.Snapshots.{
  Creation, Created, refuses, origin_full, has_snap_name, above_lvol_max, above_pool_max,
  is_working, counting, new_snapshot, retain, count_reference, store_snapshot, snapshot_on_pair,
  take_snapshot, check_snapshot, add_snapshot,
}

-- The size that is compared with the limits first: the used size in the statistics, if there are any.
abbrev pub used_or_size : Option ℕ → Lvol → ℕ
used_or_size used l = elim used [ none ↦ l.size | some n ↦ n ]

-- What a snapshot asks for.
pub record MayAdd (name : Name) (used : Option ℕ) (l : Lvol) (db : Db) (s : Store) (pool : Pool)
    : Type 0 where
  pub in_pool : get_pool_by_id l.pool_uuid s ≡ some pool
  pub active : is_inactive pool.status ≡ false
  pub counted : origin_full l s ≡ returned false
  pub fresh : any (has_snap_name pool.cluster_id name) s.snapshots ≡ false
  pub below_max : above_lvol_max pool (used_or_size used l) ≡ false
  pub fits_used : above_pool_max pool (used_or_size used l) s ≡ false
  pub fits : above_pool_max pool l.size s ≡ false
  pub cluster : Cluster
  pub in_cluster : get_cluster_by_id pool.cluster_id db ≡ some cluster
  pub working : is_working cluster.status ≡ true

-- The new snapshot of `l`, with its own number of references still 0.
pub record IsTaken (uuid name cluster : Name) (l : Lvol) (p : Snapshot) : Type 0 where
  pub own_uuid : p.uuid ≡ uuid
  pub own_name : p.snap_name ≡ name
  pub in_cluster : p.cluster_id ≡ cluster
  pub of_lvol : p.lvol ≡ l
  pub same_size : p.size ≡ l.size
  pub unreferenced : p.ref_count ≡ pos 0
  pub online : p.status ≡ SnapStatus.online
  pub unmarked : p.deleted ≡ false

-- The outcomes of the creation of a snapshot of `l`.
pub data Adds (c : Creation) (uuid name : Name) (used : Option ℕ) (l : Lvol) (db : Db) (s : Store)
    : Created → Type 0 where
  refused :
      {reply : Result (Option Name)}
      → reply ≢ returned (some uuid)
      → Adds c uuid name used l db s (reply, s)
  volume_lost :
      (host sec : Node)
      → get_storage_node_by_id l.node_id db ≡ some host
      → get_storage_node_by_id host.secondary_node_id db ≡ some sec
      → is_leader c.leads host ≡ true
      → node_eq sec.status NodeStatus.down ≡ true
      → Adds c uuid name used l db s (returned none, remove_lvol l.uuid s)
  added :
      {reply : Result (Option Name)} {s' : Store} (pool : Pool) (p : Snapshot)
      → MayAdd name used l db s pool
      → reply ≢ returned none
      → s'.lvols ≡ s.lvols
      → get_snapshot_by_id uuid s' ≡ some p
      → IsTaken uuid name pool.cluster_id l p
      → Adds c uuid name used l db s (reply, s')

stored : (p : Snapshot) (s : Store) → get_snapshot_by_id p.uuid (write_snapshot p s) ≡ some p
stored p s = get-put snapshot_key p s.snapshots

-- The outcomes of the last step: the snapshot stays stored, up to the one that counts its references,
-- and the volumes are as they were.
abbrev Counts : Snapshot → Store → Created → Type 0
Counts snap s (reply, s') =
    (reply ≢ returned none)
    × (s'.lvols ≡ s.lvols)
    × ((ref : Name) × (get_snapshot_by_id snap.uuid s' ≡ some (record snap { snap_ref_id = ref })))

count_reference-Counts :
    (snap : Snapshot) (s : Store)
    → get_snapshot_by_id snap.uuid s ≡ some snap
    → Counts snap s (count_reference snap s)
unfolding count_reference
count_reference-Counts snap s h =
    if-cases (Counts snap s) (not (is_set snap.lvol.cloned_from_snap))
      (λ _. kept (λ e. ground arith))
      λ _.
        option-cases (Counts snap s) (get_snapshot_by_id snap.lvol.cloned_from_snap s)
          (λ _. kept (λ e. ground arith))
          λ original _.
            option-cases (Counts snap s) (counting original s) (λ _. kept (λ e. ground arith))
              λ ref _. (
                λ e. ground arith,
                refl,
                (
                  ref.uuid,
                  stored (record snap { snap_ref_id = ref.uuid }) (write_snapshot (retain ref) s),
                ),
              )
  where
    kept : {reply : Result (Option Name)} → reply ≢ returned none → Counts snap s (reply, s)
    kept e = (e, refl, (snap.snap_ref_id, h))

module _ (c : Creation) (uuid name : Name) (used : Option ℕ) (l : Lvol) (db : Db) (s : Store) where
  abbrev P : Created → Type 0
  P = Adds c uuid name used l db s

  no : P (refuses s)
  no = refused (λ e. ground arith)

  fails : P (raised, s)
  fails = refused (λ e. ground arith)

  module _ (pool : Pool) (may : MayAdd name used l db s pool) where
    store_snapshot-Adds : (size : ℕ) → P (store_snapshot uuid name pool l size s)
    unfolding store_snapshot
    store_snapshot-Adds size =
        added pool (record snap { snap_ref_id = done.2.0 }) may done.0 done.1 done.2.1
          (record {
            own_uuid = refl;
            own_name = refl;
            in_cluster = refl;
            of_lvol = refl;
            same_size = refl;
            unreferenced = refl;
            online = refl;
            unmarked = refl;
          })
      where
        snap : Snapshot
        snap = new_snapshot uuid name pool l size

        done : Counts snap (write_snapshot snap s) (count_reference snap (write_snapshot snap s))
        done = count_reference-Counts snap (write_snapshot snap s) (stored snap s)

    module _ (snode : Node) (at_node : get_storage_node_by_id l.node_id db ≡ some snode) where
      second-Adds :
          (size : ℕ) (second : Option Node)
          → P (elim second [
            | none ↦ store_snapshot uuid name pool l size s
            | some _ ↦ if c.registers then store_snapshot uuid name pool l size s else refuses s
          ])
      second-Adds size none = store_snapshot-Adds size
      second-Adds size (some n) = if-cases P c.registers (λ _. store_snapshot-Adds size) (λ _. no)

      placed-Adds :
          (sec : Node) (p : Placement)
          → get_storage_node_by_id snode.secondary_node_id db ≡ some sec
          → Places c.leads snode sec p
          → P (elim p [
            | secondary_down ↦ refuses (remove_lvol l.uuid s)
            | both_offline ↦ refuses s
            | placed primary second ↦
                if not (c.creates primary.uuid) then refuses s else elim c.used_size [
                  | none ↦ refuses s
                  | some size ↦ elim second [
                    | none ↦ store_snapshot uuid name pool l size s
                    | some _ ↦
                        if c.registers then store_snapshot uuid name pool l size s else refuses s
                  ]
                ]
          ])
      placed-Adds sec secondary_down at_sec h = volume_lost snode sec at_node at_sec h.0 h.1
      placed-Adds sec both_offline at_sec h = no
      placed-Adds sec (placed primary second) at_sec h =
          if-cases P (not (c.creates primary.uuid)) (λ _. no)
            λ _. option-cases P c.used_size (λ _. no) λ size _. second-Adds size second

      take_snapshot-Adds : (t : HaType) → P (take_snapshot t c uuid name pool l snode db s)
      unfolding take_snapshot snapshot_on_pair
      take_snapshot-Adds HaType.single =
          if-cases P (not (is_online snode)) (λ _. no)
            λ _. if-cases P (not (c.creates snode.uuid)) (λ _. no) (λ _. store_snapshot-Adds _)
      take_snapshot-Adds HaType.ha =
          option-cases P (get_storage_node_by_id snode.secondary_node_id db) (λ _. fails)
            λ sec at_sec.
              placed-Adds sec (place c.leads snode sec) at_sec (place-Places c.leads snode sec)
      take_snapshot-Adds HaType.other = store_snapshot-Adds 0

  check_snapshot-Adds :
      (pool : Pool)
      → get_pool_by_id l.pool_uuid s ≡ some pool
      → is_inactive pool.status ≡ false
      → origin_full l s ≡ returned false
      → P (check_snapshot c uuid name used pool l db s)
  unfolding check_snapshot
  check_snapshot-Adds pool in_pool active counted =
      if-cases P (any (has_snap_name pool.cluster_id name) s.snapshots) (λ _. no)
        λ fresh.
          option-cases P (get_storage_node_by_id l.node_id db) (λ _. fails)
            λ snode at_node.
              if-cases P (above_lvol_max pool (used_or_size used l)) (λ _. no)
                λ below_max.
                  if-cases P (above_pool_max pool (used_or_size used l) s) (λ _. no)
                    λ fits_used.
                      if-cases P (above_pool_max pool l.size s) (λ _. no)
                        λ fits.
                          option-cases P (get_cluster_by_id pool.cluster_id db) (λ _. fails)
                            λ cluster in_cluster.
                              if-cases P (is_working cluster.status)
                                (λ working.
                                  take_snapshot-Adds pool
                                    (record {
                                      in_pool = in_pool;
                                      active = active;
                                      counted = counted;
                                      fresh = fresh;
                                      below_max = below_max;
                                      fits_used = fits_used;
                                      fits = fits;
                                      cluster = cluster;
                                      in_cluster = in_cluster;
                                      working = working;
                                    })
                                    snode at_node l.ha_type)
                                (λ _. no)

-- The creation of a snapshot of a stored volume: without success either nothing changes, or, when
-- the partner of the leading node is down, the record of the volume itself is removed; otherwise the
-- snapshot of this volume is stored, online, under the new uuid and with the name asked for, the pool's cluster
-- and the volume's size, and no volume is changed; the pool was active and its cluster active or degraded,
-- the name was new in the cluster, the snapshot that the volume was cloned from had references left, the used
-- size was within the pool's maximum for a volume, and the pool had room for it and for the volume's size once
-- more. An exception can come after the snapshot is stored.
pub add_snapshot-Adds :
    (c : Creation) (uuid name : Name) (used : Option ℕ) (l : Lvol) (db : Db) (s : Store)
    → get_lvol_by_id l.uuid s ≡ some l
    → Adds c uuid name used l db s (add_snapshot c uuid l.uuid name used db s)
unfolding add_snapshot
add_snapshot-Adds c uuid name used l db s stored_l =
    rw (stored_l, add_snapshot)
      (option-cases Q (get_pool_by_id l.pool_uuid s) (λ _. fails c uuid name used l db s)
        λ pool in_pool.
          if-cases Q (is_inactive pool.status) (λ _. no c uuid name used l db s)
            λ active.
              result-cases Q (origin_full l s) (λ _. fails c uuid name used l db s)
                λ full counted.
                  if-cases Q full (λ _. no c uuid name used l db s)
                    (λ e.
                      check_snapshot-Adds c uuid name used l db s pool in_pool active
                        (counted ∙ ap returned e)))
  where
    Q : Created → Type 0
    Q = Adds c uuid name used l db s
