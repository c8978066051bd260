-- ===== src/Snapshots/Clone/Outcome.antt =====
-- The outcomes of a clone.
use sbcli.Prelude.{ℕ, false, Option, none, some, ◌≡◌, ◌≢◌, ◌≤◌, ◌<◌, any, Result, returned, length}
use sbcli.Model.{Name, Node, Db, get_storage_node_by_id}
use sbcli.Volumes.{
  LvolStatus, Lvol, Snapshot, Pool, Store, is_inactive, get_pool_by_id, get_lvols_by_node_id,
  get_snapshot_by_id, put_lvol,
}
use sbcli.Lvols.{has_taken}
use sbcli.Snapshots.{Created, is_full, above_lvol_max, above_pool_max}

-- What a clone asks for.
pub record MayClone (snapshot_id name : Name) (db : Db) (s : Store) (snap : Snapshot) (pool : Pool)
    (snode : Node) : Type 0 where
  pub found : get_snapshot_by_id snapshot_id s ≡ some snap
  pub in_pool : get_pool_by_id snap.lvol.pool_uuid s ≡ some pool
  pub active : is_inactive pool.status ≡ false
  pub at_node : get_storage_node_by_id snap.lvol.node_id db ≡ some snode
  pub counted : is_full snap s ≡ returned false
  pub fresh : any (has_taken pool.uuid name) s.lvols ≡ false
  pub below_max : above_lvol_max pool snap.size ≡ false
  pub fits_snap : above_pool_max pool snap.size s ≡ false
  pub room : length (get_lvols_by_node_id snode.uuid s) < snode.max_lvol
  pub fits : above_pool_max pool snap.lvol.size s ≡ false

-- The new volume, whatever its status.
pub record IsClone (uuid name : Name) (new_size : ℕ) (snap : Snapshot) (l : Lvol) : Type 0 where
  pub own_uuid : l.uuid ≡ uuid
  pub own_name : l.lvol_name ≡ name
  pub same_size : new_size ≡ 0 → l.size ≡ snap.lvol.size
  pub grown :
      0 < new_size
      → (l.size ≡ new_size) × (snap.lvol.size < new_size) × (new_size ≤ snap.lvol.max_size)
  pub same_max : l.max_size ≡ snap.lvol.max_size
  pub same_type : l.ha_type ≡ snap.lvol.ha_type
  pub same_node : l.node_id ≡ snap.lvol.node_id
  pub origin : l.cloned_from_snap ≡ snap.uuid

-- The outcomes of a clone, for the table of volumes.
pub data Clones (uuid snapshot_id name : Name) (new_size : ℕ) (db : Db) (s : Store)
    : Created → Type 0 where
  refused :
      {reply : Result (Option Name)} {s' : Store}
      → reply ≢ returned (some uuid)
      → s'.lvols ≡ s.lvols
      → Clones uuid snapshot_id name new_size db s (reply, s')
  left_behind :
      {reply : Result (Option Name)} {s' : Store} (snap : Snapshot) (pool : Pool) (snode : Node)
      (l : Lvol)
      → MayClone snapshot_id name db s snap pool snode
      → IsClone uuid name new_size snap l
      → reply ≢ returned (some uuid)
      → l.status ≡ LvolStatus.in_creation
      → s'.lvols ≡ put_lvol l s.lvols
      → Clones uuid snapshot_id name new_size db s (reply, s')
  cloned :
      {reply : Result (Option Name)} {s' : Store} (snap : Snapshot) (pool : Pool) (snode : Node)
      (l : Lvol)
      → MayClone snapshot_id name db s snap pool snode
      → IsClone uuid name new_size snap l
      → reply ≢ returned none
      → l.pool_uuid ≡ pool.uuid
      → l.status ≡ LvolStatus.online
      → s'.lvols ≡ put_lvol l s.lvols
      → Clones uuid snapshot_id name new_size db s (reply, s')
