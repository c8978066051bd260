-- ===== src/Volumes/SnapWatch.antt =====
-- simplyblock_core/services/snapshot_monitor.py: what the service does with one snapshot of a node
-- whose volume store is ready.
pub mod Removal
use sbcli.Prelude.{
  ℕ, ℤ, pos, negsuc, Bool, true, false, not, ◌&&◌, Option, none, some, ◌==◌, if◌then◌else◌, Result,
  returned, raised,
}
use sbcli.Model.{Name, Node, Db, is_set, get_storage_node_by_id}
use sbcli.Migration.{in_codes}
use sbcli.Volumes.{SnapStatus, Snapshot, Store, get_snapshot_by_id, write_snapshot, remove_snapshot}
use sbcli.Volumes.Watch.{Flow, bit_eq, leader_of, finish_codes, offline_codes, again_codes}

-- What the storage processes reply: who leads, whether the leader accepts a deletion, the status of
-- the deletion, and whether the snapshot is among the bdevs.
pub record SnapReplies : Type 0 where
  pub leads : Name → Result Bool
  pub deletes : Bool
  pub delete_status : Result ℤ
  pub present : Bool

abbrev pub After : Type 0
After = Flow × Store

-- set_snapshot_health_check
set_health : Snapshot → Bool → Store → After
set_health p healthy s = elim (get_snapshot_by_id p.uuid s) [
  | none ↦ (Flow.stop, s)
  | some q ↦ (
    Flow.continue,
    if bit_eq q.health_check healthy
        then s
        else write_snapshot (record q { health_check = healthy }) s,
  )
]

-- process_snap_delete_finish: both nodes are read, whichever of them leads.
snap_finish : Snapshot → Db → Store → After
snap_finish p db s = elim (get_storage_node_by_id p.lvol.node_id db) [
  | none ↦ (Flow.stop, s)
  | some snode ↦ elim (get_storage_node_by_id snode.secondary_node_id db) [
    | none ↦ (Flow.stop, s)
    | some second ↦ (Flow.continue, remove_snapshot p.uuid s)
  ]
]

-- process_snap_delete_try_again
snap_try_again : Snapshot → Store → After
snap_try_again p s = elim (get_snapshot_by_id p.uuid s) [
  | none ↦ (Flow.stop, s)
  | some q ↦ (Flow.continue, write_snapshot (record q { deletion_status = 0 }) s)
]

-- set_snap_offline
set_snap_offline : Snapshot → Store → After
set_snap_offline p s = elim (get_snapshot_by_id p.uuid s) [
  | none ↦ (Flow.stop, s)
  | some q ↦ (
    Flow.continue,
    write_snapshot (record q { deletion_status = 0; status = SnapStatus.offline }) s,
  )
]

-- The branches on the status of the deletion.
handle_snap_status : ℤ → Snapshot → Db → Store → After
unfolding snap_finish set_snap_offline snap_try_again
handle_snap_status code p db s =
    if in_codes finish_codes code
    then snap_finish p db s
    else if in_codes offline_codes code
    then set_snap_offline p s
    else if in_codes again_codes code
    then snap_try_again p s
    else (Flow.continue, s)

-- From `try:` on.
poll_snap : SnapReplies → Snapshot → Db → Store → After
unfolding handle_snap_status
poll_snap r p db s = elim r.delete_status [
  | raised ↦ (Flow.break, s)
  | returned code ↦ handle_snap_status code p db s
]

-- The branch of a snapshot in deletion.
watch_removal : SnapReplies → Node → Option Node → Snapshot → Db → Store → After
unfolding poll_snap
watch_removal r snode sec p db s = elim (leader_of r.leads snode sec) [
  | raised ↦ (Flow.stop, s)
  | returned leader ↦
      if p.deletion_status == leader.uuid && is_set p.deletion_status
      then poll_snap r p db s
      else if not r.deletes
      then (Flow.continue, s)
      else elim (get_snapshot_by_id p.uuid s) [
        | none ↦ (Flow.stop, s)
        | some q ↦ poll_snap r p db (write_snapshot (record q { deletion_status = leader.uuid }) s)
      ]
]

watch_snapshot_by : SnapStatus → SnapReplies → Node → Option Node → Snapshot → Db → Store → After
unfolding watch_removal set_health
watch_snapshot_by SnapStatus.online r snode sec p db s = set_health p r.present s
watch_snapshot_by SnapStatus.in_deletion r snode sec p db s = watch_removal r snode sec p db s
watch_snapshot_by SnapStatus.offline r snode sec p db s = (Flow.continue, s)

-- The body of the loop over the snapshots of a node.
pub watch_snapshot : SnapReplies → Node → Option Node → Snapshot → Db → Store → After
unfolding watch_snapshot_by
watch_snapshot r snode sec p db s = watch_snapshot_by p.status r snode sec p db s
