-- ===== src/Volumes/Deletion/Deleted.antt =====
-- What the deletion of a volume comes to.
use sbcli.Prelude.{
  ℕ, zero, suc, Bool, true, false, not, ◌&&◌, none, some, ◌≡◌, ◌≢◌, ◌==◌, Option, inl, inr, arith,
  refl, All, find-All, find-passes, keep, is_some, if-cases, option-cases, any, Result, returned,
  raised, if◌then◌else◌, ◌∙◌,
}
use sbcli.Model.{HaType, Name, Node, Db, is_set, get_storage_node_by_id}
use sbcli.Volumes.{
  lvol_key, LvolStatus, Lvol, Snapshot, Store, put_lvol, write_lvol, remove_lvol, write_snapshot,
  get_lvol_by_id, get_lvol_by_name, get_snapshot_by_id, get_pool_by_id, is_inactive,
}
use sbcli.Prelude.Table.{put-All, get-put, put-put, remove-All}
use sbcli.Volumes.Placement.{
  Placement, placed, secondary_down, both_offline, place, is_online, Places, place-Places,
}
use sbcli.Volumes.Deletion.{
  Remote, Outcome, refused, refused_because, accepted, in_deletion, delete_if_deleted,
  release_snapshot, release, drop_snapshot, mark_deleted, delete_lvol_from_node, delete_lvol,
}
use sbcli.Volumes.Deletion.Settled.{
  Settled, unchanged, marked, taken_down, IsUnmarked, delete_snapshot-Settled,
}

-- The uuid of a volume is its key, and no volume has the mark `deleted`.
pub record IsOrderly (s : Store) : Type 0 where
  pub keyed : All (λ l. get_lvol_by_id l.uuid s ≡ some l) s.lvols
  pub unmarked : IsUnmarked s.lvols

-- The volume that the argument of the call stands for.
abbrev pub asked_for : Bool → Name → Store → Option Lvol
asked_for is_uuid id s = if is_uuid then get_lvol_by_id id s else get_lvol_by_name id s

-- The outcomes of a volume's deletion.
pub data Deleted (force is_uuid : Bool) (id : Name) (db : Db) (s : Store) : Outcome → Type 0 where
  kept : {reply : Result _} → reply ≢ returned accepted → Deleted force is_uuid id db s (reply, s)
  removed :
      {s' : Store} (l : Lvol)
      → asked_for is_uuid id s ≡ some l
      → get_lvol_by_id l.uuid s ≡ some l
      → get_storage_node_by_id l.node_id db ≡ none
      → force ≡ true
      → s'.lvols ≡ keep (λ m. not (m.uuid == l.uuid)) s.lvols
      → Deleted force is_uuid id db s (returned accepted, s')
  going :
      {s' : Store} (l : Lvol) (at : Name)
      → asked_for is_uuid id s ≡ some l
      → get_lvol_by_id l.uuid s ≡ some l
      → (in_deletion l && not force) ≡ false
      → s'.lvols
        ≡ put_lvol (record l { status = LvolStatus.in_deletion; deletion_status = at }) s.lvols
      → Deleted force is_uuid id db s (returned accepted, s')

Settled-lvols :
    {r : Remote} {force : Bool} {id : Name} {db : Db} {s : Store} {o : Outcome}
    → Settled r force id db s o
    → o.1.lvols ≡ s.lvols
Settled-lvols (unchanged h) = refl
Settled-lvols (marked snap node a b c) = refl
Settled-lvols (taken_down snap node at a b c d) = refl

module _ (again : Name → Store → Outcome) (r : Remote) (db : Db) where
  delete_if_deleted-lvols :
      (snap : Snapshot) (s : Store)
      → IsUnmarked s.lvols
      → (delete_if_deleted again r snap db s).lvols ≡ s.lvols
  unfolding delete_if_deleted
  delete_if_deleted-lvols snap s u =
      if-cases (λ (s' : Store). s'.lvols ≡ s.lvols) snap.deleted
        (λ _. Settled-lvols (delete_snapshot-Settled again r false snap.uuid db s u)) (λ _. refl)

  release_snapshot-lvols :
      (id : Name) (s : Store)
      → IsUnmarked s.lvols
      → (release_snapshot again r id db s).lvols ≡ s.lvols
  unfolding release_snapshot
  release_snapshot-lvols id s u =
      if-cases P (not (is_set id)) (λ _. refl)
        λ _.
          option-cases P (get_snapshot_by_id id s) (λ _. refl)
            λ snap _.
              if-cases P (is_set snap.snap_ref_id)
                (λ _.
                  option-cases P (get_snapshot_by_id snap.snap_ref_id s) (λ _. refl)
                    λ ref _. delete_if_deleted-lvols snap (write_snapshot (release ref) s) u)
                (λ _. delete_if_deleted-lvols snap (write_snapshot (release snap) s) u)
    where
      P : Store → Type 0
      P s' = s'.lvols ≡ s.lvols

  drop_snapshot-lvols :
      (id : Name) (s : Store) → IsUnmarked s.lvols → (drop_snapshot again r id db s).lvols ≡ s.lvols
  unfolding drop_snapshot
  drop_snapshot-lvols id s u =
      if-cases P (not (is_set id)) (λ _. refl)
        λ _.
          option-cases P (get_snapshot_by_id id s) (λ _. refl)
            λ snap _.
              if-cases P (any (λ l. l.cloned_from_snap == snap.uuid) s.lvols) (λ _. refl)
                (λ _. delete_if_deleted-lvols snap s u)
    where
      P : Store → Type 0
      P s' = s'.lvols ≡ s.lvols

module _ (again : Name → Store → Outcome) (r : Remote) (force : Bool) (db : Db) (s : Store)
    (ordered : IsOrderly s) (is_uuid : Bool) (id : Name) (l : Lvol)
    (asked : asked_for is_uuid id s ≡ some l) (key : get_lvol_by_id l.uuid s ≡ some l)
    (ready : (in_deletion l && not force) ≡ false) where
  -- The volume `m` that stands for `l` in the store is set in deletion.
  mark_deleted-Deleted :
      (m : Lvol) (s' : Store) (at : Name)
      → get_lvol_by_id l.uuid s' ≡ some m
      → IsUnmarked s'.lvols
      → put_lvol (record m { status = LvolStatus.in_deletion }) s'.lvols
        ≡ put_lvol (record l { status = LvolStatus.in_deletion; deletion_status = at }) s.lvols
      → m.deleted ≡ false
      → Deleted force is_uuid id db s (mark_deleted again r l.uuid db s')
  unfolding mark_deleted
  mark_deleted-Deleted m s' at found unmarked same clear =
      rw (found, mark_deleted)
        (going l at asked key ready (
          release_snapshot-lvols again r db m.cloned_from_snap
            (write_lvol (record m { status = LvolStatus.in_deletion }) s')
            (put-All lvol_key (λ x. x.deleted ≡ false)
              (record m { status = LvolStatus.in_deletion }) s'.lvols clear unmarked)
          ∙ same))

  clear_l : l.deleted ≡ false
  clear_l = find-All (λ x. x.deleted ≡ false) (λ x. x.uuid == l.uuid) s.lvols ordered.unmarked key

  from_node_lem :
      (at : Name)
      → is_some (get_storage_node_by_id at db) ≡ true
      → delete_lvol_from_node l.uuid at db s ≡ write_lvol (record l { deletion_status = at }) s
  unfolding delete_lvol_from_node
  from_node_lem at known = ground arith

  from_node-Deleted :
      (at : Name)
      → is_some (get_storage_node_by_id at db) ≡ true
      → Deleted force is_uuid id db s
          (mark_deleted again r l.uuid db (delete_lvol_from_node l.uuid at db s))
  from_node-Deleted at known = rw (from_node_lem at known) (
      mark_deleted-Deleted (record l { deletion_status = at })
        (write_lvol (record l { deletion_status = at }) s) at
        (get-put lvol_key (record l { deletion_status = at }) s.lvols)
        (put-All lvol_key (λ x. x.deleted ≡ false) (record l { deletion_status = at }) s.lvols
          clear_l ordered.unmarked)
        (put-put lvol_key (record l { deletion_status = at })
          (record l { status = LvolStatus.in_deletion; deletion_status = at }) s.lvols refl)
        clear_l)

  known_self :
      (k : Name) (n : Node)
      → get_storage_node_by_id k db ≡ some n
      → is_some (get_storage_node_by_id n.uuid db) ≡ true
  known_self k n e = rw (same, e) refl
    where
      same : n.uuid ≡ k
      same = ground (arith, find-passes (λ (x : Node). x.uuid == k) db.nodes n e)

  on_pair-Deleted :
      (snode sec : Node)
      → get_storage_node_by_id l.node_id db ≡ some snode
      → get_storage_node_by_id snode.secondary_node_id db ≡ some sec
      → (p : Placement) → Places r.leads snode sec p
      → Deleted force is_uuid id db s (elim p [
        | secondary_down ↦ (returned refused_because, s)
        | both_offline ↦ (returned refused_because, s)
        | placed primary _ ↦
            mark_deleted again r l.uuid db (delete_lvol_from_node l.uuid primary.uuid db s)
      ])
  on_pair-Deleted snode sec at_node at_sec secondary_down h = kept (λ e. ground arith)
  on_pair-Deleted snode sec at_node at_sec both_offline h = kept (λ e. ground arith)
  on_pair-Deleted snode sec at_node at_sec (placed primary o) h =
      from_node-Deleted primary.uuid (elim h.one_of_two [
        | inl e ↦ rw e (known_self l.node_id snode at_node)
        | inr e ↦ rw e (known_self snode.secondary_node_id sec at_sec)
      ])

  delete_on_nodes-Deleted :
      (snode : Node)
      → get_storage_node_by_id l.node_id db ≡ some snode
      → (t : HaType)
      → Deleted force is_uuid id db s (elim t [
        | HaType.single ↦
            if not (is_online snode) && not force
            then (returned refused, s)
            else mark_deleted again r l.uuid db (delete_lvol_from_node l.uuid l.node_id db s)
        | HaType.ha ↦ elim (get_storage_node_by_id snode.secondary_node_id db) [
          | none ↦ (raised, s)
          | some sec ↦ elim (place r.leads snode sec) [
            | secondary_down ↦ (returned refused_because, s)
            | both_offline ↦ (returned refused_because, s)
            | placed primary _ ↦
                mark_deleted again r l.uuid db (delete_lvol_from_node l.uuid primary.uuid db s)
          ]
        ]
        | HaType.other ↦ mark_deleted again r l.uuid db s
      ])
  delete_on_nodes-Deleted snode at_node HaType.single =
      if-cases (Deleted force is_uuid id db s) (not (is_online snode) && not force)
        (λ _. kept (λ e. ground arith)) (λ _. from_node-Deleted l.node_id (ground arith))
  delete_on_nodes-Deleted snode at_node HaType.ha =
      option-cases (Deleted force is_uuid id db s)
        (get_storage_node_by_id snode.secondary_node_id db) (λ _. kept (λ e. ground arith))
        λ sec at_sec.
          on_pair-Deleted snode sec at_node at_sec (place r.leads snode sec)
            (place-Places r.leads snode sec)
  delete_on_nodes-Deleted snode at_node HaType.other =
      mark_deleted-Deleted l s l.deletion_status key ordered.unmarked refl clear_l

key_of :
    (s : Store)
    → IsOrderly s
    → (is_uuid : Bool) (id : Name) (l : Lvol)
    → (if is_uuid then get_lvol_by_id id s else get_lvol_by_name id s) ≡ some l
    → get_lvol_by_id l.uuid s ≡ some l
key_of s o true id l e =
    find-All (λ x. get_lvol_by_id x.uuid s ≡ some x) (λ x. x.uuid == id) s.lvols o.keyed e
key_of s o false id l e =
    find-All (λ x. get_lvol_by_id x.uuid s ≡ some x) (λ x. x.lvol_name == id) s.lvols o.keyed e

-- The deletion of a volume, in a store where uuids are keys and no volume is marked deleted: without
-- success nothing changes; otherwise the volume with the uuid, or with the name, that the call was given
-- was not yet in deletion, or it is forced, and now it is, or, if it is forced and the node of the volume is gone, the volume is gone; no other volume
-- changes.
pub delete_lvol-Deleted :
    (fuel : ℕ) (r : Remote) (force is_uuid : Bool) (id : Name) (db : Db) (s : Store)
    → IsOrderly s
    → Deleted force is_uuid id db s (delete_lvol fuel r force is_uuid id db s)
unfolding delete_lvol
delete_lvol-Deleted zero r force is_uuid id db s o = kept (λ e. ground arith)
delete_lvol-Deleted (suc fuel) r force is_uuid id db s o =
    option-cases P (if is_uuid then get_lvol_by_id id s else get_lvol_by_name id s)
      (λ _. kept (λ e. ground arith))
      λ l found.
        if-cases P (in_deletion l && not force) (λ _. kept (λ e. ground arith))
          λ ready.
            option-cases P (get_pool_by_id l.pool_uuid s) (λ _. kept (λ e. ground arith))
              λ pool _.
                if-cases P (is_inactive pool.status) (λ _. kept (λ e. ground arith))
                  λ _.
                    option-cases P (get_storage_node_by_id l.node_id db)
                      (λ gone.
                        if-cases P (not force) (λ _. kept (λ e. ground arith))
                          (λ forced. removed l found (key l found) gone (ground arith) (
                            drop_snapshot-lvols again r db l.cloned_from_snap (remove_lvol l.uuid s)
                              (remove-All lvol_key (λ x. x.deleted ≡ false) l.uuid s.lvols
                                o.unmarked))))
                      (λ snode at_node.
                        delete_on_nodes-Deleted again r force db s o is_uuid id l found
                          (key l found) ready snode at_node l.ha_type)
  where
    P : Outcome → Type 0
    P = Deleted force is_uuid id db s

    again : Name → Store → Outcome
    again base s' = delete_lvol fuel r false true base db s'

    key :
        (l : Lvol)
        → (if is_uuid then get_lvol_by_id id s else get_lvol_by_name id s) ≡ some l
        → get_lvol_by_id l.uuid s ≡ some l
    key = key_of s o is_uuid id
