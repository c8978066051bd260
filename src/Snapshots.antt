-- ===== src/Snapshots.antt =====
-- The creation of a snapshot and of a clone: add and clone of
-- simplyblock_core/controllers/snapshot_controller.py.
pub mod Added
pub mod Clone
use sbcli.Prelude.{
  ℕ, zero, suc, ◌+◌, ℤ, pos, negsuc, Bool, true, false, not, ◌&&◌, ◌||◌, Option, none, some, List,
  ◌==◌, leb, ltb, ltb_ℤ, if◌then◌else◌, any, length, Result, returned, raised,
}
use sbcli.Model.{
  HaType, ClusterStatus, cluster_eq, Name, Node, Db, is_set, get_storage_node_by_id,
  get_cluster_by_id,
}
use sbcli.Volumes.{
  LvolStatus, SnapStatus, Lvol, Snapshot, Pool, Store, is_inactive, get_pool_by_id, get_lvol_by_id,
  get_lvols_by_node_id, get_snapshot_by_id, write_lvol, remove_lvol, write_snapshot,
}
use sbcli.Volumes.Placement.{placed, secondary_down, both_offline, place, is_online}
use sbcli.Orders.{succ_ℤ}
use sbcli.Pools.{zero_ℤ}
use sbcli.Lvols.{total_of, exceeds, has_taken}

-- What the storage processes reply: whether a node leads its volume store; whether it creates the
-- snapshot or the volume; the used size of the new bdev, `none` if it is not found; whether the
-- secondary node registers the snapshot.
pub record Creation : Type 0 where
  pub leads : Name → Bool
  pub creates : Name → Bool
  pub used_size : Option ℕ
  pub registers : Bool

-- The reply is the new uuid, `none` for False with a message.
abbrev pub Created : Type 0
Created = Result (Option Name) × Store

abbrev pub refuses : Store → Created
refuses s = (returned none, s)

-- constants.MAX_SNAP_COUNT
abbrev pub max_snap_count : ℤ
max_snap_count = pos 100

-- The snapshot that counts the references: `snap` itself, or the one it refers to.
abbrev pub counting : Snapshot → Store → Option Snapshot
counting snap s =
    if is_set snap.snap_ref_id then get_snapshot_by_id snap.snap_ref_id s else some snap

-- The check of the number of references; `raised` is a KeyError.
abbrev pub is_full : Snapshot → Store → Result Bool
is_full snap s = elim (counting snap s) [
  | none ↦ raised
  | some ref ↦ returned (not (ltb_ℤ ref.ref_count max_snap_count))
]

-- The check of a volume that is itself a clone.
abbrev pub origin_full : Lvol → Store → Result Bool
origin_full l s =
    if not (is_set l.cloned_from_snap)
    then returned false
    else elim (get_snapshot_by_id l.cloned_from_snap s) [
      | none ↦ raised
      | some snap ↦ is_full snap s
    ]

abbrev pub has_snap_name : Name → Name → Snapshot → Bool
has_snap_name cluster name p = p.cluster_id == cluster && p.snap_name == name

-- 0 < pool.lvol_max_size < size
abbrev pub above_lvol_max : Pool → ℕ → Bool
above_lvol_max pool size =
    ltb_ℤ zero_ℤ pool.limits.lvol_max_size && ltb_ℤ pool.limits.lvol_max_size (pos size)

-- pool.pool_max_size > 0 and total + size > pool.pool_max_size
abbrev pub above_pool_max : Pool → ℕ → Store → Bool
above_pool_max pool size s =
    ltb_ℤ zero_ℤ pool.limits.pool_max_size
    && exceeds (total_of pool.uuid s) (pos size) pool.limits.pool_max_size

abbrev pub is_working : ClusterStatus → Bool
is_working c = cluster_eq c ClusterStatus.active || cluster_eq c ClusterStatus.degraded

abbrev pub retain : Snapshot → Snapshot
retain snap = record snap { ref_count = succ_ℤ snap.ref_count }

-- The new snapshot.
abbrev pub new_snapshot : Name → Name → Pool → Lvol → ℕ → Snapshot
new_snapshot uuid name pool l used = record {
  uuid = uuid;
  snap_name = name;
  cluster_id = pool.cluster_id;
  lvol = l;
  size = l.size;
  used_size = used;
  ref_count = pos 0;
  snap_ref_id = 0;
  status = SnapStatus.online;
  deletion_status = 0;
  health_check = true;
  deleted = false;
}

-- The `if lvol.cloned_from_snap` at the end of add, for the stored snapshot `snap`.
pub count_reference : Snapshot → Store → Created
count_reference snap s =
    if not (is_set snap.lvol.cloned_from_snap)
    then (returned (some snap.uuid), s)
    else elim (get_snapshot_by_id snap.lvol.cloned_from_snap s) [
      | none ↦ (raised, s)
      | some original ↦ elim (counting original s) [
        | none ↦ (raised, s)
        | some ref ↦ (
          returned (some snap.uuid),
          write_snapshot (record snap { snap_ref_id = ref.uuid }) (write_snapshot (retain ref) s),
        )
      ]
    ]

-- From `snap = SnapShot()` on: the snapshot is stored, and the one that its volume was cloned from
-- counts one more reference.
pub store_snapshot : Name → Name → Pool → Lvol → ℕ → Store → Created
unfolding count_reference
store_snapshot uuid name pool l used s =
    let snap = new_snapshot uuid name pool l used in count_reference snap (write_snapshot snap s)

-- The branch for a volume on a pair of nodes. When the partner of the leading node is down, the
-- volume itself is removed.
pub snapshot_on_pair : Creation → Name → Name → Pool → Lvol → Node → Db → Store → Created
unfolding store_snapshot
snapshot_on_pair c uuid name pool l snode db s =
    elim (get_storage_node_by_id snode.secondary_node_id db) [
      | none ↦ (raised, s)
      | some sec ↦ elim (place c.leads snode sec) [
        | secondary_down ↦ refuses (remove_lvol l.uuid s)
        | both_offline ↦ refuses s
        | placed primary second ↦
            if not (c.creates primary.uuid) then refuses s else elim c.used_size [
              | none ↦ refuses s
              | some used ↦ elim second [
                | none ↦ store_snapshot uuid name pool l used s
                | some _ ↦ if c.registers then store_snapshot uuid name pool l used s else refuses s
              ]
            ]
      ]
    ]

-- The branches of the type of the volume.
pub take_snapshot : HaType → Creation → Name → Name → Pool → Lvol → Node → Db → Store → Created
unfolding snapshot_on_pair
take_snapshot HaType.single c uuid name pool l snode db s =
    if not (is_online snode)
    then refuses s
    else if not (c.creates snode.uuid)
    then refuses s
    else store_snapshot uuid name pool l (elim c.used_size [ none ↦ 0 | some used ↦ used ]) s
take_snapshot HaType.ha c uuid name pool l snode db s =
    snapshot_on_pair c uuid name pool l snode db s
take_snapshot HaType.other c uuid name pool l snode db s = store_snapshot uuid name pool l 0 s

-- From the check of the snapshot's name on; `used` is the used size in the volume's statistics.
pub check_snapshot : Creation → Name → Name → Option ℕ → Pool → Lvol → Db → Store → Created
unfolding take_snapshot
check_snapshot c uuid name used pool l db s =
    let size : ℕ = elim used [ none ↦ l.size | some n ↦ n ] in
    if any (has_snap_name pool.cluster_id name) s.snapshots
    then refuses s
    else elim (get_storage_node_by_id l.node_id db) [
      | none ↦ (raised, s)
      | some snode ↦
          if above_lvol_max pool size
          then refuses s
          else if above_pool_max pool size s
          then refuses s
          else if above_pool_max pool l.size s
          then refuses s
          else elim (get_cluster_by_id pool.cluster_id db) [
            | none ↦ (raised, s)
            | some cluster ↦
                if is_working cluster.status
                then take_snapshot l.ha_type c uuid name pool l snode db s
                else refuses s
          ]
    ]

-- add; `uuid` is the new one.
pub add_snapshot : Creation → Name → Name → Name → Option ℕ → Db → Store → Created
unfolding check_snapshot
add_snapshot c uuid lvol_id name used db s = elim (get_lvol_by_id lvol_id s) [
  | none ↦ refuses s
  | some l ↦ elim (get_pool_by_id l.pool_uuid s) [
    | none ↦ (raised, s)
    | some pool ↦ if is_inactive pool.status then refuses s else elim (origin_full l s) [
      | raised ↦ (raised, s)
      | returned full ↦ if full then refuses s else check_snapshot c uuid name used pool l db s
    ]
  ]
]
