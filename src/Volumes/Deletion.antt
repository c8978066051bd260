-- ===== src/Volumes/Deletion.antt =====
-- The deletion of a snapshot and of a volume: delete of
-- simplyblock_core/controllers/snapshot_controller.py, delete_lvol and delete_lvol_from_node of
-- lvol_controller.py.
pub mod Settled
pub mod Deleted
use sbcli.Prelude.{
  ℕ, zero, suc, ℤ, pos, negsuc, Bool, true, false, not, ◌&&◌, ◌||◌, Option, none, some, ◌==◌,
  if◌then◌else◌, is_some, any, Result, returned, raised,
}
use sbcli.Model.{HaType, NodeStatus, node_eq, Name, Node, Db, is_set, get_storage_node_by_id}
use sbcli.Volumes.{
  LvolStatus, SnapStatus, Lvol, Snapshot, Store, is_inactive, get_pool_by_id, get_lvols,
  get_lvol_by_id, get_lvol_by_name, get_snapshot_by_id, write_lvol, remove_lvol, write_snapshot,
}
use sbcli.Volumes.Placement.{Placement, placed, secondary_down, both_offline, place, is_online}

-- What the storage processes reply: whether a node leads its volume store, and whether it accepts
-- the deletion of a snapshot.
pub record Remote : Type 0 where
  pub leads : Name → Bool
  pub deletes : Name → Bool

-- False, `(False, message)` and True.
pub data Reply : Type 0 where
  refused refused_because accepted : Reply

abbrev pub Outcome : Type 0
Outcome = Result Reply × Store

abbrev pub in_deletion : Lvol → Bool
in_deletion l = elim l.status [ LvolStatus.in_deletion ↦ true | _ ↦ false ]

-- The test of the loop over the volumes of the cluster.
abbrev pub is_live_clone : Name → Lvol → Bool
is_live_clone id l = is_set l.cloned_from_snap && l.cloned_from_snap == id && not (in_deletion l)

-- The end of delete, from the snapshot's write on; `again` deletes the volume of the snapshot.
pub take_down : (again : Name → Store → Outcome) → Name → Snapshot → Store → Outcome
take_down again node snap s =
    let s' =
      write_snapshot (record snap { status = SnapStatus.in_deletion; deletion_status = node }) s in
    elim (get_lvol_by_id snap.lvol.uuid s') [
      | none ↦ (returned accepted, s')
      | some base ↦
          if base.deleted
          then (returned accepted, (again base.uuid s').1)
          else (returned accepted, s')
    ]

-- The call of the storage process, and what follows it.
pub delete_on : (again : Name → Store → Outcome) → Remote → Bool → Name → Snapshot → Store → Outcome
unfolding take_down
delete_on again r force node snap s =
    if not (r.deletes node) && not force then (returned refused, s) else take_down again node snap s

-- The branch for a volume on a pair of nodes.
pub delete_on_pair :
    (again : Name → Store → Outcome) → Remote → Bool → Snapshot → Node → Db → Store → Outcome
unfolding delete_on
delete_on_pair again r force snap snode db s =
    elim (get_storage_node_by_id snode.secondary_node_id db) [
      | none ↦ (raised, s)
      | some sec ↦ elim (place r.leads snode sec) [
        | secondary_down ↦ (returned refused, s)
        | both_offline ↦ (returned refused, s)
        | placed primary _ ↦ delete_on again r force primary.uuid snap s
      ]
    ]

-- From "Removing snapshot" on.
pub delete_hosted :
    (again : Name → Store → Outcome) → Remote → Bool → Snapshot → Node → Db → Store → Outcome
unfolding delete_on_pair
delete_hosted again r force snap snode db s = elim snap.lvol.ha_type [
  | HaType.single ↦
      if is_online snode then delete_on again r force snode.uuid snap s else (returned refused, s)
  | _ ↦ delete_on_pair again r force snap snode db s
]

-- snapshot_controller.delete
unfoldable pub delete_snapshot :
    (again : Name → Store → Outcome) → Remote → Bool → Name → Db → Store → Outcome
unfolding delete_hosted
delete_snapshot again r force id db s = elim (get_snapshot_by_id id s) [
  | none ↦ (returned refused, s)
  | some snap ↦ elim (get_storage_node_by_id snap.lvol.node_id db) [
    | none ↦ (returned refused, s)
    | some snode ↦
        if any (is_live_clone id) (get_lvols snode.cluster_id db s)
        then (returned accepted, write_snapshot (record snap { deleted = true }) s)
        else delete_hosted again r force snap snode db s
  ]
]

-- delete_lvol_from_node, which always ends with True.
unfoldable pub delete_lvol_from_node : Name → Name → Db → Store → Store
delete_lvol_from_node id node db s = elim (get_lvol_by_id id s) [
  | none ↦ s
  | some l ↦
      if is_some (get_storage_node_by_id node db)
      then write_lvol (record l { deletion_status = node }) s
      else s
]

abbrev pub pred_ℤ : ℤ → ℤ
pred_ℤ (pos zero) = negsuc 0
pred_ℤ (pos (suc n)) = pos n
pred_ℤ (negsuc n) = negsuc (suc n)

abbrev pub release : Snapshot → Snapshot
release snap = record snap { ref_count = pred_ℤ snap.ref_count }

-- `if snap.deleted is True`; the KeyError of the deletion is caught.
pub delete_if_deleted : (Name → Store → Outcome) → Remote → Snapshot → Db → Store → Store
unfolding delete_snapshot
delete_if_deleted again r snap db s =
    if snap.deleted then (delete_snapshot again r false snap.uuid db s).1 else s

-- The `if lvol.cloned_from_snap` at the end of delete_lvol.
pub release_snapshot : (Name → Store → Outcome) → Remote → Name → Db → Store → Store
unfolding delete_if_deleted
release_snapshot again r id db s = if not (is_set id) then s else elim (get_snapshot_by_id id s) [
  | none ↦ s
  | some snap ↦
      if is_set snap.snap_ref_id
      then elim (get_snapshot_by_id snap.snap_ref_id s) [
        | none ↦ s
        | some ref ↦ delete_if_deleted again r snap db (write_snapshot (release ref) s)
      ]
      else delete_if_deleted again r snap db (write_snapshot (release snap) s)
]

-- The same `if` for a volume whose node is gone.
pub drop_snapshot : (Name → Store → Outcome) → Remote → Name → Db → Store → Store
unfolding delete_if_deleted
drop_snapshot again r id db s = if not (is_set id) then s else elim (get_snapshot_by_id id s) [
  | none ↦ s
  | some snap ↦
      if any (λ l. l.cloned_from_snap == snap.uuid) s.lvols
      then s
      else delete_if_deleted again r snap db s
]

-- From `# set status` on.
pub mark_deleted : (Name → Store → Outcome) → Remote → Name → Db → Store → Outcome
unfolding release_snapshot
mark_deleted again r id db s = elim (get_lvol_by_id id s) [
  | none ↦ (raised, s)
  | some l ↦ (
    returned accepted,
    release_snapshot again r l.cloned_from_snap db
        (write_lvol (record l { status = LvolStatus.in_deletion }) s),
  )
]

-- The deletion of a volume whose node is known.
pub delete_on_nodes : (Name → Store → Outcome) → Remote → Bool → Lvol → Node → Db → Store → Outcome
unfolding mark_deleted delete_lvol_from_node
delete_on_nodes again r force l snode db s = elim l.ha_type [
  | HaType.single ↦
      if not (is_online snode) && not force
      then (returned refused, s)
      else mark_deleted again r l.uuid db (delete_lvol_from_node l.uuid l.node_id db s)
  | HaType.ha ↦ elim (get_storage_node_by_id snode.secondary_node_id db) [
    | none ↦ (raised, s)
    | some sec ↦ elim (place r.leads snode sec) [
      | secondary_down ↦ (returned refused_because, s)
      | both_offline ↦ (returned refused_because, s)
      | placed primary _ ↦
          mark_deleted again r l.uuid db (delete_lvol_from_node l.uuid primary.uuid db s)
    ]
  ]
  | HaType.other ↦ mark_deleted again r l.uuid db s
]

-- delete_lvol, by the number of calls that may stand within one another; `is_uuid` is whether the
-- argument matches UUID_PATTERN.
unfoldable pub delete_lvol : ℕ → Remote → Bool → Bool → Name → Db → Store → Outcome
unfolding delete_on_nodes drop_snapshot
delete_lvol zero r force is_uuid id db s = (raised, s)
delete_lvol (suc fuel) r force is_uuid id db s =
    let again = λ (base : Name) (s' : Store). delete_lvol fuel r false true base db s' in
    elim (if is_uuid then get_lvol_by_id id s else get_lvol_by_name id s) [
      | none ↦ (returned refused, s)
      | some l ↦
          if in_deletion l && not force
          then (returned refused, s)
          else elim (get_pool_by_id l.pool_uuid s) [
            | none ↦ (raised, s)
            | some pool ↦
                if is_inactive pool.status
                then (returned refused, s)
                else elim (get_storage_node_by_id l.node_id db) [
                  | none ↦ if not force then (returned refused, s) else (
                    returned accepted,
                    drop_snapshot again r l.cloned_from_snap db (remove_lvol l.uuid s),
                  )
                  | some snode ↦ delete_on_nodes again r force l snode db s
                ]
          ]
    ]
