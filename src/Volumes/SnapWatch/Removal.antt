-- ===== src/Volumes/SnapWatch/Removal.antt =====
-- What a turn of the snapshot monitor does to a snapshot.
use mathlib.Core.Path.{subst}
use sbcli.Prelude.{
  ℤ, Bool, true, not, ◌&&◌, Option, some, ◌≡◌, ◌==◌, refl, sym, ap, if-cases, option-cases,
  result-cases, returned,
}
use sbcli.Prelude.Table.{get-put, put-put, remove-put, put_self, remove}
use sbcli.Model.{Name, Node, Db, is_set, get_storage_node_by_id}
use sbcli.Migration.{in_codes}
use sbcli.Volumes.{SnapStatus, Snapshot, Store, snapshot_key, get_snapshot_by_id, write_snapshot}
use sbcli.Volumes.Watch.{Flow, bit_eq, leader_of, finish_codes, offline_codes, again_codes}
use sbcli.Volumes.SnapWatch.{
  SnapReplies, After, set_health, snap_finish, snap_try_again, set_snap_offline, handle_snap_status,
  poll_snap, watch_removal, watch_snapshot_by, watch_snapshot,
}

-- The outcomes: the snapshot has another health or deletion status, it was in deletion and is now
-- offline, or it was in deletion and is gone.
pub data Turned (r : SnapReplies) (p : Snapshot) (s : Store) : After → Type 0 where
  touched :
      {flow : Flow} {s' : Store} (at : Name) (healthy : Bool)
      → s' ≡ write_snapshot (record p { deletion_status = at; health_check = healthy }) s
      → Turned r p s (flow, s')
  broken :
      {flow : Flow} {s' : Store} (code : ℤ)
      → p.status ≡ SnapStatus.in_deletion
      → r.delete_status ≡ returned code
      → in_codes offline_codes code ≡ true
      → s' ≡ write_snapshot (record p { deletion_status = 0; status = SnapStatus.offline }) s
      → Turned r p s (flow, s')
  gone :
      {flow : Flow} {s' : Store} (code : ℤ)
      → p.status ≡ SnapStatus.in_deletion
      → r.delete_status ≡ returned code
      → in_codes finish_codes code ≡ true
      → s' ≡ record s { snapshots = remove snapshot_key p.uuid s.snapshots }
      → Turned r p s (flow, s')

module _ (r : SnapReplies) (p : Snapshot) (db : Db) (s : Store)
    (stored : get_snapshot_by_id p.uuid s ≡ some p) where
  abbrev P : After → Type 0
  P = Turned r p s

  unmoved : {flow : Flow} → P (flow, s)
  unmoved =
      touched p.deletion_status p.health_check
        (ap (λ ps. record s { snapshots = ps }) (sym (put_self snapshot_key p s.snapshots stored)))

  set_health-Turned : P (set_health p r.present s)
  unfolding set_health
  set_health-Turned =
      rw (stored, set_health)
        (if-cases (λ (x : Store). P (Flow.continue, x)) (bit_eq p.health_check r.present)
          (λ _. unmoved) (λ _. touched p.deletion_status r.present refl))

  -- The snapshot as it is told to a leader.
  abbrev told : Name → Snapshot
  told at = record p { deletion_status = at }

  module _ (at : Name) (deleting : p.status ≡ SnapStatus.in_deletion) where
    s1 : Store
    s1 = write_snapshot (told at) s

    lookup_told : get_snapshot_by_id p.uuid s1 ≡ some (told at)
    unfolding s1
    lookup_told = get-put snapshot_key (told at) s.snapshots

    again : (q : Snapshot) → q.uuid ≡ p.uuid → write_snapshot q s1 ≡ write_snapshot q s
    unfolding s1
    again q e =
        ap (λ ps. record s { snapshots = ps })
          (put-put snapshot_key (told at) q s.snapshots (sym e))

    waiting : {flow : Flow} → P (flow, s1)
    unfolding s1
    waiting = touched at p.health_check refl

    snap_finish-Turned :
        (code : ℤ)
        → r.delete_status ≡ returned code
        → in_codes finish_codes code ≡ true
        → P (snap_finish p db s1)
    unfolding snap_finish s1
    snap_finish-Turned code status yields =
        option-cases P (get_storage_node_by_id p.lvol.node_id db) (λ _. waiting)
          λ snode _.
            option-cases P (get_storage_node_by_id snode.secondary_node_id db) (λ _. waiting)
              λ _ _. gone code deleting status yields (
                ap (λ ps. record s { snapshots = ps })
                  (remove-put snapshot_key p.uuid (told at) s.snapshots refl))

    set_snap_offline-Turned :
        (code : ℤ)
        → r.delete_status ≡ returned code
        → in_codes offline_codes code ≡ true
        → P (set_snap_offline p s1)
    unfolding set_snap_offline
    set_snap_offline-Turned code status yields =
        rw (lookup_told, set_snap_offline)
          (broken code deleting status yields
            (again (record p { deletion_status = 0; status = SnapStatus.offline }) refl))

    snap_try_again-Turned : P (snap_try_again p s1)
    unfolding snap_try_again
    snap_try_again-Turned =
        rw (lookup_told, snap_try_again)
          (touched 0 p.health_check (again (record p { deletion_status = 0 }) refl))

    poll_snap-Turned : P (poll_snap r p db s1)
    unfolding poll_snap handle_snap_status
    poll_snap-Turned =
        result-cases P r.delete_status (λ _. waiting)
          λ code status.
            if-cases P (in_codes finish_codes code) (snap_finish-Turned code status) λ _.
              if-cases P (in_codes offline_codes code) (set_snap_offline-Turned code status) λ _.
                if-cases P (in_codes again_codes code) (λ _. snap_try_again-Turned) (λ _. waiting)

  -- The snapshot as it stands is told to its own deletion status.
  self : write_snapshot (told p.deletion_status) s ≡ s
  self = ap (λ ps. record s { snapshots = ps }) (put_self snapshot_key p s.snapshots stored)

  same : (q : Snapshot) → get_snapshot_by_id p.uuid s ≡ some q → p ≡ q
  same q e = cc

  watch_removal-Turned :
      (snode : Node) (sec : Option Node)
      → p.status ≡ SnapStatus.in_deletion
      → P (watch_removal r snode sec p db s)
  unfolding watch_removal s1
  watch_removal-Turned snode sec deleting =
      result-cases P (leader_of r.leads snode sec) (λ _. unmoved)
        λ leader _.
          if-cases P (p.deletion_status == leader.uuid && is_set p.deletion_status)
            (λ _.
              subst (λ x. P (poll_snap r p db x)) self
                (poll_snap-Turned p.deletion_status deleting))
            λ _.
              if-cases P (not r.deletes) (λ _. unmoved)
                λ _.
                  option-cases P (get_snapshot_by_id p.uuid s) (λ _. unmoved)
                    λ q e.
                      subst
                        (λ x. P (
                          poll_snap r p db
                            (write_snapshot (record x { deletion_status = leader.uuid }) s)))
                        (same q e) (poll_snap-Turned leader.uuid deleting)

watch_snapshot_by-Turned :
    (x : SnapStatus) (r : SnapReplies) (snode : Node) (sec : Option Node) (p : Snapshot) (db : Db)
    (s : Store)
    → get_snapshot_by_id p.uuid s ≡ some p
    → p.status ≡ x
    → Turned r p s (watch_snapshot_by x r snode sec p db s)
unfolding watch_snapshot_by
watch_snapshot_by-Turned SnapStatus.online r snode sec p db s stored e =
    set_health-Turned r p db s stored
watch_snapshot_by-Turned SnapStatus.in_deletion r snode sec p db s stored e =
    watch_removal-Turned r p db s stored snode sec e
watch_snapshot_by-Turned SnapStatus.offline r snode sec p db s stored e = unmoved r p db s stored

-- A turn of the snapshot monitor for a stored snapshot, whatever the storage processes reply: only a
-- snapshot in deletion goes offline, on a status of failure, or is gone, on a status that says so;
-- else only its health and the node it was told to may change. Nothing else is written.
pub watch_snapshot-Turned :
    (r : SnapReplies) (snode : Node) (sec : Option Node) (p : Snapshot) (db : Db) (s : Store)
    → get_snapshot_by_id p.uuid s ≡ some p
    → Turned r p s (watch_snapshot r snode sec p db s)
unfolding watch_snapshot
watch_snapshot-Turned r snode sec p db s stored =
    watch_snapshot_by-Turned p.status r snode sec p db s stored refl
