-- ===== src/Volumes/Deletion/Settled.antt =====
-- What the deletion of a snapshot comes to.
use sbcli.Prelude.{
  Bool, true, false, not, ◌&&◌, ◌||◌, some, List, ◌≡◌, ◌≢◌, arith, All, find-All, if◌then◌else◌,
  if-cases, option-cases, any, Result, returned,
}
use sbcli.Model.{HaType, Name, Node, Db, get_storage_node_by_id}
use sbcli.Volumes.{
  SnapStatus, Lvol, Snapshot, Store, get_lvols, get_lvol_by_id, get_snapshot_by_id, write_snapshot,
}
use sbcli.Volumes.Placement.{placed, secondary_down, both_offline, place, is_online}
use sbcli.Volumes.Deletion.{
  Remote, Outcome, refused, accepted, is_live_clone, take_down, delete_on, delete_on_pair,
  delete_hosted, delete_snapshot,
}

-- No stored volume has the mark `deleted`, which no code sets on a volume.
abbrev pub IsUnmarked : List Lvol → Type 0
IsUnmarked = All (λ l. l.deleted ≡ false)

-- The outcomes of a snapshot's deletion: a refusal that changes nothing, the mark on a snapshot that
-- has clones, and the state in deletion of one that has none.
pub data Settled (r : Remote) (force : Bool) (id : Name) (db : Db) (s : Store)
    : Outcome → Type 0 where
  unchanged : {reply : Result _} → reply ≢ returned accepted → Settled r force id db s (reply, s)
  marked :
      (snap : Snapshot) (node : Node)
      → get_snapshot_by_id id s ≡ some snap
      → get_storage_node_by_id snap.lvol.node_id db ≡ some node
      → any (is_live_clone id) (get_lvols node.cluster_id db s) ≡ true
      → Settled r force id db s
          (returned accepted, write_snapshot (record snap { deleted = true }) s)
  taken_down :
      (snap : Snapshot) (node : Node) (at : Name)
      → get_snapshot_by_id id s ≡ some snap
      → get_storage_node_by_id snap.lvol.node_id db ≡ some node
      → any (is_live_clone id) (get_lvols node.cluster_id db s) ≡ false
      → (r.deletes at || force) ≡ true
      → Settled r force id db s (
        returned accepted,
        write_snapshot (record snap { status = SnapStatus.in_deletion; deletion_status = at }) s,
      )

module _ (again : Name → Store → Outcome) (r : Remote) (force : Bool) (id : Name) (db : Db)
    (s : Store) where
  module _ (snap : Snapshot) (node : Node) (unmarked : IsUnmarked s.lvols)
      (found : get_snapshot_by_id id s ≡ some snap)
      (at_node : get_storage_node_by_id snap.lvol.node_id db ≡ some node)
      (free : any (is_live_clone id) (get_lvols node.cluster_id db s) ≡ false) where
    take_down-Settled :
        (at : Name)
        → (r.deletes at || force) ≡ true
        → Settled r force id db s (take_down again at snap s)
    unfolding take_down
    take_down-Settled at ok =
        option-cases (Settled r force id db s) (get_lvol_by_id snap.lvol.uuid s) (λ _. done)
          λ base e.
            if-cases (Settled r force id db s) base.deleted
              (λ d. absurd (ground (arith, find-All (λ l. l.deleted ≡ false) _ s.lvols unmarked e)))
              (λ _. done)
      where
        done : Settled r force id db s (
          returned accepted,
          write_snapshot (record snap { status = SnapStatus.in_deletion; deletion_status = at }) s,
        )
        done = taken_down snap node at found at_node free ok

    delete_on-Settled : (at : Name) → Settled r force id db s (delete_on again r force at snap s)
    unfolding delete_on
    delete_on-Settled at =
        if-cases (Settled r force id db s) (not (r.deletes at) && not force)
          (λ _. unchanged (λ e. ground arith)) (λ e. take_down-Settled at (ground arith))

    delete_on_pair-Settled : Settled r force id db s (delete_on_pair again r force snap node db s)
    unfolding delete_on_pair
    delete_on_pair-Settled =
        option-cases (Settled r force id db s) (get_storage_node_by_id node.secondary_node_id db)
          (λ _. unchanged (λ e. ground arith))
          λ sec _.
            elim (place r.leads node sec)
              as (λ p. Settled r force id db s (elim p [
                | secondary_down ↦ (returned refused, s)
                | both_offline ↦ (returned refused, s)
                | placed primary _ ↦ delete_on again r force primary.uuid snap s
              ])) [
                | secondary_down ↦ unchanged (λ e. ground arith)
                | both_offline ↦ unchanged (λ e. ground arith)
                | placed primary _ ↦ delete_on-Settled primary.uuid
              ]

    delete_hosted-Settled : Settled r force id db s (delete_hosted again r force snap node db s)
    unfolding delete_hosted
    delete_hosted-Settled =
        elim snap.lvol.ha_type
          as (λ t. Settled r force id db s (elim t [
            | HaType.single ↦
                if is_online node
                then delete_on again r force node.uuid snap s
                else (returned refused, s)
            | _ ↦ delete_on_pair again r force snap node db s
          ])) [
            | HaType.single ↦
                if-cases (Settled r force id db s) (is_online node)
                  (λ _. delete_on-Settled node.uuid) (λ _. unchanged (λ e. ground arith))
            | _ ↦ delete_on_pair-Settled
          ]

  -- The deletion of a snapshot changes nothing when it is refused, only marks the snapshot when a
  -- volume of the cluster is cloned from it and not itself in deletion, and otherwise, if a storage
  -- process has accepted or it is forced, sets the snapshot in deletion; no volume and no other
  -- snapshot changes.
  pub delete_snapshot-Settled :
      IsUnmarked s.lvols → Settled r force id db s (delete_snapshot again r force id db s)
  unfolding delete_snapshot
  delete_snapshot-Settled unmarked =
      option-cases P (get_snapshot_by_id id s) (λ _. refuses)
        λ snap found.
          option-cases P (get_storage_node_by_id snap.lvol.node_id db) (λ _. refuses)
            λ node at_node.
              if-cases P (any (is_live_clone id) (get_lvols node.cluster_id db s))
                (λ clones. marked snap node found at_node clones)
                (delete_hosted-Settled snap node unmarked found at_node)
    where
      P : Outcome → Type 0
      P = Settled r force id db s

      refuses : P (returned refused, s)
      refuses = unchanged (λ e. ground arith)
