-- ===== src/Snapshots/Clone.antt =====
-- clone of simplyblock_core/controllers/snapshot_controller.py; the names of the volume claim and
-- the keys of an encryption are left out.
pub mod Outcome
pub mod Cloned
use sbcli.Prelude.{
  ℕ, ℤ, pos, Bool, true, false, not, ◌&&◌, Option, none, some, ◌==◌, leb, ltb, if◌then◌else◌, any,
  length, Result, returned, raised,
}
use sbcli.Model.{HaType, Name, Node, Db, is_set, get_storage_node_by_id, get_cluster_by_id}
use sbcli.Volumes.{
  LvolStatus, Lvol, Snapshot, Pool, Store, is_inactive, get_pool_by_id, get_lvols_by_node_id,
  get_snapshot_by_id, write_lvol, remove_lvol, write_snapshot,
}
use sbcli.Volumes.Placement.{Placement, placed, secondary_down, both_offline, place}
use sbcli.Lvols.{has_taken}
use sbcli.Lvols.Resize.{Resizing, resize_lvol}
use sbcli.Snapshots.{
  Creation, Created, refuses, counting, is_full, above_lvol_max, above_pool_max, is_working, retain,
}

-- The new volume, of the size asked for or of the size that the volume had.
abbrev pub new_clone : Name → Name → ℕ → Pool → Snapshot → Node → Lvol
new_clone uuid name new_size pool snap snode = record {
  uuid = uuid;
  lvol_name = name;
  node_id = snode.uuid;
  pool_uuid = pool.uuid;
  size = if new_size == 0 then snap.lvol.size else new_size;
  max_size = snap.lvol.max_size;
  status = LvolStatus.in_creation;
  ha_type = snap.lvol.ha_type;
  cloned_from_snap = snap.uuid;
  deletion_status = 0;
  io_error = false;
  health_check = true;
  deleted = false;
  rw_ios_per_sec = pos 0;
  rw_mbytes_per_sec = pos 0;
  r_mbytes_per_sec = pos 0;
  w_mbytes_per_sec = pos 0;
}

-- The resize at the end, whose reply is not read.
pub resize_clone : Resizing → Name → ℕ → Db → Store → Created
resize_clone r uuid new_size db s =
    if new_size == 0
    then (returned (some uuid), s)
    else (let (reply, s') = resize_lvol r uuid new_size db s in
        elim reply [ raised ↦ (raised, s') | returned _ ↦ (returned (some uuid), s') ])

-- From `lvol.status = LVol.STATUS_ONLINE` on.
pub finish_clone : Resizing → ℕ → Snapshot → Lvol → Db → Store → Created
unfolding resize_clone
finish_clone r new_size snap l db s =
    let s' = write_lvol (record l { status = LvolStatus.online }) s in
    elim (counting snap s') [
      | none ↦ (raised, s')
      | some ref ↦ resize_clone r l.uuid new_size db (write_snapshot (retain ref) s')
    ]

-- The branch of a volume on a pair of nodes.
pub clone_on_pair : Creation → Resizing → ℕ → Snapshot → Lvol → Node → Db → Store → Created
unfolding finish_clone
clone_on_pair c r new_size snap l snode db s =
    elim (get_storage_node_by_id snode.secondary_node_id db) [
      | none ↦ (raised, s)
      | some sec ↦ elim (place c.leads snode sec) [
        | secondary_down ↦ refuses (remove_lvol l.uuid s)
        | both_offline ↦ refuses (remove_lvol l.uuid s)
        | placed primary second ↦
            if c.creates primary.uuid && elim second [ none ↦ true | some n ↦ c.creates n.uuid ]
            then finish_clone r new_size snap l db s
            else refuses (remove_lvol l.uuid s)
      ]
    ]

-- From the write of the new volume on, by its type.
pub clone_on_nodes :
    HaType → Creation → Resizing → ℕ → Snapshot → Lvol → Node → Db → Store → Created
unfolding clone_on_pair
clone_on_nodes HaType.single c r new_size snap l snode db s =
    if c.creates snode.uuid then finish_clone r new_size snap l db s else refuses s
clone_on_nodes HaType.ha c r new_size snap l snode db s =
    clone_on_pair c r new_size snap l snode db s
clone_on_nodes HaType.other c r new_size snap l snode db s = finish_clone r new_size snap l db s

-- The checks of the new size, and the write of the new volume.
pub store_clone :
    Creation → Resizing → Name → Name → ℕ → Pool → Snapshot → Node → Db → Store → Created
unfolding clone_on_nodes
store_clone c r uuid name new_size pool snap snode db s =
    if not (new_size == 0)
      && (if leb new_size snap.lvol.size then true else ltb snap.lvol.max_size new_size)
    then refuses s
    else (let l = new_clone uuid name new_size pool snap snode in
        clone_on_nodes l.ha_type c r new_size snap l snode db (write_lvol l s))

-- The checks on the pool and the node.
pub check_clone :
    Creation → Resizing → Name → Name → ℕ → Pool → Snapshot → Node → Db → Store → Created
unfolding store_clone
check_clone c r uuid name new_size pool snap snode db s =
    if any (has_taken pool.uuid name) s.lvols
    then refuses s
    else if above_lvol_max pool snap.size
    then refuses s
    else if above_pool_max pool snap.size s
    then refuses s
    else if leb snode.max_lvol (length (get_lvols_by_node_id snode.uuid s))
    then refuses s
    else if above_pool_max pool snap.lvol.size s
    then refuses s
    else store_clone c r uuid name new_size pool snap snode db s

-- clone; `uuid` is the new one, and a new size of 0 is none.
pub clone : Creation → Resizing → Name → Name → Name → ℕ → Db → Store → Created
unfolding check_clone
clone c r uuid snapshot_id name new_size db s = elim (get_snapshot_by_id snapshot_id s) [
  | none ↦ refuses s
  | some snap ↦ elim (get_pool_by_id snap.lvol.pool_uuid s) [
    | none ↦ refuses s
    | some pool ↦
        if is_inactive pool.status
        then refuses s
        else elim (get_storage_node_by_id snap.lvol.node_id db) [
          | none ↦ refuses s
          | some snode ↦ elim (get_cluster_by_id pool.cluster_id db) [
            | none ↦ (raised, s)
            | some cluster ↦
                if not (is_working cluster.status) then refuses s else elim (is_full snap s) [
                  | raised ↦ (raised, s)
                  | returned full ↦
                      if full
                      then refuses s
                      else check_clone c r uuid name new_size pool snap snode db s
                ]
          ]
        ]
  ]
]
