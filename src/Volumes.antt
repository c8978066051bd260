-- ===== src/Volumes.antt =====
-- The stored pools, volumes and snapshots: simplyblock_core/models/pool.py, lvol_model.py and
-- snapshot.py, and the queries of simplyblock_core/db_controller.py about them.
pub mod Placement
pub mod Deletion
pub mod Watch
pub mod SnapWatch
use sbcli.Prelude.{
  ℕ, ℤ, Bool, true, false, not, Option, List, [], ◌∷◌, ◌==◌, if◌then◌else◌, contains, map, find,
  keep,
}
use sbcli.Prelude.Table.{put, remove}
use sbcli.Model.{HaType, Name, Cluster, Db, is_set, get_storage_nodes_by_cluster_id}

-- Pool.STATUS_*
pub data PoolStatus : Type 0 where
  active inactive : PoolStatus

-- The limits of a pool; 0 is no limit.
pub record Limits : Type 0 where
  pub pool_max_size : ℤ
  pub lvol_max_size : ℤ
  pub max_rw_ios_per_sec : ℤ
  pub max_rw_mbytes_per_sec : ℤ
  pub max_r_mbytes_per_sec : ℤ
  pub max_w_mbytes_per_sec : ℤ

-- Pool
pub record Pool : Type 0 where
  pub uuid : Name
  pub cluster_id : Name
  pub numeric_id : ℕ
  pub pool_name : Name
  pub limits : Limits
  pub status : PoolStatus

-- LVol.STATUS_*
pub data LvolStatus : Type 0 where
  in_creation online offline in_deletion : LvolStatus

-- The fields of LVol that the modelled code reads or writes.
pub record Lvol : Type 0 where
  pub uuid : Name
  pub lvol_name : Name
  pub node_id : Name
  pub pool_uuid : Name
  pub size : ℕ
  pub max_size : ℕ
  pub status : LvolStatus
  pub ha_type : HaType
  pub cloned_from_snap : Name
  pub deletion_status : Name
  pub io_error : Bool
  pub health_check : Bool
  pub deleted : Bool
  pub rw_ios_per_sec : ℤ
  pub rw_mbytes_per_sec : ℤ
  pub r_mbytes_per_sec : ℤ
  pub w_mbytes_per_sec : ℤ

-- SnapShot.STATUS_*
pub data SnapStatus : Type 0 where
  online offline in_deletion : SnapStatus

-- SnapShot; `lvol` is the copy of the volume at the time of the snapshot.
pub record Snapshot : Type 0 where
  pub uuid : Name
  pub snap_name : Name
  pub cluster_id : Name
  pub lvol : Lvol
  pub size : ℕ
  pub used_size : ℕ
  pub ref_count : ℤ
  pub snap_ref_id : Name
  pub status : SnapStatus
  pub deletion_status : Name
  pub health_check : Bool
  pub deleted : Bool

-- The part of the database with the pools and volumes. The order of the objects carries no meaning.
pub record Store : Type 0 where
  pub clusters : List Cluster
  pub pools : List Pool
  pub lvols : List Lvol
  pub snapshots : List Snapshot

abbrev pub is_inactive : PoolStatus → Bool
is_inactive PoolStatus.active = false
is_inactive PoolStatus.inactive = true

-- pool.write_to_db()
abbrev pub put_pool : Pool → List Pool → List Pool
put_pool p [] = p ∷ []
put_pool p (q ∷ qs) = let rest = put_pool p qs in if q.uuid == p.uuid then p ∷ qs else q ∷ rest

abbrev pub write_pool : Pool → Store → Store
write_pool p s = record s { pools = put_pool p s.pools }

-- pool.remove()
abbrev pub remove_pool : Name → Store → Store
remove_pool id s = record s { pools = keep (λ p. not (p.uuid == id)) s.pools }

-- A search by a whole key; keys that only begin with the text are looked for in delete_pool.
abbrev pub get_pool_by_id : Name → Store → Option Pool
get_pool_by_id id s = find (λ p. p.uuid == id) s.pools

abbrev pub get_pool_by_name : Name → Store → Option Pool
get_pool_by_name name s = find (λ p. p.pool_name == name) s.pools

abbrev pub get_lvols_by_pool_id : Name → Store → List Lvol
get_lvols_by_pool_id id s = keep (λ l. l.pool_uuid == id) s.lvols

-- get_lvols; an empty cluster id stands for all clusters.
abbrev pub get_lvols : Name → Db → Store → List Lvol
get_lvols cluster db s =
    let node_ids = map (λ n. n.uuid) (get_storage_nodes_by_cluster_id cluster db) in
    if is_set cluster then keep (λ l. contains node_ids l.node_id) s.lvols else s.lvols

abbrev pub get_lvols_by_node_id : Name → Store → List Lvol
get_lvols_by_node_id id s = keep (λ l. l.node_id == id) s.lvols

abbrev pub get_lvol_by_id : Name → Store → Option Lvol
get_lvol_by_id id s = find (λ l. l.uuid == id) s.lvols

abbrev pub get_lvol_by_name : Name → Store → Option Lvol
get_lvol_by_name name s = find (λ l. l.lvol_name == name) s.lvols

abbrev pub get_snapshot_by_id : Name → Store → Option Snapshot
get_snapshot_by_id id s = find (λ p. p.uuid == id) s.snapshots

abbrev pub lvol_key : Lvol → ℕ
lvol_key l = l.uuid

abbrev pub snapshot_key : Snapshot → ℕ
snapshot_key p = p.uuid

-- lvol.write_to_db() and lvol.remove()
abbrev pub put_lvol : Lvol → List Lvol → List Lvol
put_lvol = put lvol_key

abbrev pub write_lvol : Lvol → Store → Store
write_lvol l s = record s { lvols = put_lvol l s.lvols }

abbrev pub remove_lvol : Name → Store → Store
remove_lvol id s = record s { lvols = remove lvol_key id s.lvols }

-- snap.write_to_db() and snap.remove()
abbrev pub put_snapshot : Snapshot → List Snapshot → List Snapshot
put_snapshot = put snapshot_key

abbrev pub write_snapshot : Snapshot → Store → Store
write_snapshot p s = record s { snapshots = put_snapshot p s.snapshots }

abbrev pub remove_snapshot : Name → Store → Store
remove_snapshot id s = record s { snapshots = remove snapshot_key id s.snapshots }
