-- ===== src/Snapshots/Clone/Cloned.antt =====
-- What a clone comes to.
use sbcli.Prelude.{
  ℕ, true, false, not, ◌&&◌, Option, none, some, ◌≡◌, ◌≢◌, ◌==◌, arith, refl, ap, ◌∙◌, sym,
  find-passes, leb, ltb, any, if◌then◌else◌, if-cases, option-cases, result-cases, Result, returned,
  raised, length,
}
use sbcli.Prelude.Table.{get-put, put-put, remove-put, remove_absent}
use sbcli.Model.{HaType, Name, Node, Db, get_storage_node_by_id, get_cluster_by_id}
use sbcli.Volumes.{
  LvolStatus, Lvol, Snapshot, Pool, Store, is_inactive, lvol_key, get_pool_by_id, get_lvol_by_id,
  get_lvols_by_node_id, get_snapshot_by_id, put_lvol, write_lvol, remove_lvol, write_snapshot,
}
use sbcli.Volumes.Placement.{Placement, placed, secondary_down, both_offline, place}
use sbcli.Lvols.{has_taken}
use sbcli.Lvols.Resize.{Resizing, Resized, resize_lvol}
use sbcli.Lvols.Resize.Resized.{resize_lvol_same}
use sbcli.Snapshots.{
  Creation, Created, refuses, counting, is_full, above_lvol_max, above_pool_max, is_working, retain,
}
use sbcli.Snapshots.Clone.{
  new_clone, resize_clone, finish_clone, clone_on_pair, clone_on_nodes, store_clone, check_clone,
  clone,
}
use sbcli.Snapshots.Clone.Outcome.{MayClone, IsClone, Clones, refused, left_behind, cloned}

module _ (c : Creation) (r : Resizing) (uuid snapshot_id name : Name) (new_size : ℕ) (db : Db)
    (s : Store) (is_new : get_lvol_by_id uuid s ≡ none) where
  abbrev P : Created → Type 0
  P = Clones uuid snapshot_id name new_size db s

  no : P (refuses s)
  no = refused (λ e. ground arith) refl

  fails : P (raised, s)
  fails = refused (λ e. ground arith) refl

  module _ (snap : Snapshot) (pool : Pool) (snode : Node)
      (may : MayClone snapshot_id name db s snap pool snode)
      (sized : (not (new_size == 0)
          && (if leb new_size snap.lvol.size then true else ltb snap.lvol.max_size new_size))
        ≡ false) where
    l : Lvol
    l = new_clone uuid name new_size pool snap snode

    live : Lvol
    unfolding l
    live = record l { status = LvolStatus.online }

    -- The store with the new volume in creation.
    begun : Store
    unfolding l
    begun = write_lvol l s

    same_node_id : snode.uuid ≡ snap.lvol.node_id
    same_node_id =
        ground (
          arith,
          find-passes (λ (n : Node). n.uuid == snap.lvol.node_id) db.nodes snode may.at_node,
        )

    live-IsClone : IsClone uuid name new_size snap live
    unfolding live l
    live-IsClone = record {
      own_uuid = refl;
      own_name = refl;
      same_size = λ e. rw e refl;
      grown = λ h. ground arith;
      same_max = refl;
      same_type = refl;
      same_node = same_node_id;
      origin = refl;
    }

    l-IsClone : IsClone uuid name new_size snap l
    unfolding l live
    l-IsClone = record {
      own_uuid = refl;
      own_name = refl;
      same_size = live-IsClone.same_size;
      grown = live-IsClone.grown;
      same_max = refl;
      same_type = refl;
      same_node = same_node_id;
      origin = refl;
    }

    done :
        {reply : Result (Option Name)} {s' : Store}
        → reply ≢ returned none
        → s'.lvols ≡ put_lvol live s.lvols
        → P (reply, s')
    unfolding live l
    done replied = cloned snap pool snode live may live-IsClone replied refl refl

    -- The resize at the end is always refused: the new volume has the new size.
    resize_keeps :
        (s' : Store)
        → s'.lvols ≡ put_lvol live s.lvols
        → (new_size == 0) ≡ false
        → (resize_lvol r uuid new_size db s').1 ≡ s'
    unfolding live l
    resize_keeps s' e h = rw (sym size_is) (resize_lvol_same r live db s' live_stored)
      where
        size_is : live.size ≡ new_size
        size_is = rw h refl

        live_stored : get_lvol_by_id uuid s' ≡ some live
        live_stored = rw e (get-put lvol_key live s.lvols)

    resize_clone-Clones :
        (s' : Store) → s'.lvols ≡ put_lvol live s.lvols → P (resize_clone r uuid new_size db s')
    unfolding resize_clone
    resize_clone-Clones s' e =
        if-cases P (new_size == 0) (λ _. done (λ f. ground arith) e)
          λ h. replied h (resize_lvol r uuid new_size db s') (resize_keeps s' e h)
      where
        replied :
            (h : (new_size == 0) ≡ false) (o : Resized)
            → o.1 ≡ s'
            → P (
                let (reply, t) = o in
                elim reply [ raised ↦ (raised, t) | returned _ ↦ (returned (some uuid), t) ])
        replied h (raised, t) f = done (λ g. ground arith) (ap (λ x. x.lvols) f ∙ e)
        replied h (returned b, t) f = done (λ g. ground arith) (ap (λ x. x.lvols) f ∙ e)

    finish_clone-Clones : P (finish_clone r new_size snap l db begun)
    unfolding finish_clone begun live l
    finish_clone-Clones =
        option-cases P (counting snap (write_lvol live begun))
          (λ _. done (λ f. ground arith) stored)
          λ ref _. resize_clone-Clones (write_snapshot (retain ref) (write_lvol live begun)) stored
      where
        stored : put_lvol live (put_lvol l s.lvols) ≡ put_lvol live s.lvols
        stored = put-put lvol_key l live s.lvols refl

    removed : P (refuses (remove_lvol uuid begun))
    unfolding begun l
    removed =
        refused (λ e. ground arith)
          (remove-put lvol_key uuid l s.lvols refl ∙ remove_absent lvol_key uuid s.lvols is_new)

    left : {reply : Result (Option Name)} → reply ≢ returned (some uuid) → P (reply, begun)
    unfolding begun l
    left h = left_behind snap pool snode l may l-IsClone h refl refl

    placed-Clones :
        (p : Placement)
        → P (elim p [
          | secondary_down ↦ refuses (remove_lvol uuid begun)
          | both_offline ↦ refuses (remove_lvol uuid begun)
          | placed primary second ↦
              if c.creates primary.uuid && elim second [ none ↦ true | some n ↦ c.creates n.uuid ]
              then finish_clone r new_size snap l db begun
              else refuses (remove_lvol uuid begun)
        ])
    placed-Clones secondary_down = removed
    placed-Clones both_offline = removed
    placed-Clones (placed primary second) =
        if-cases P
          (c.creates primary.uuid && elim second [ none ↦ true | some n ↦ c.creates n.uuid ])
          (λ _. finish_clone-Clones) (λ _. removed)

    clone_on_nodes-Clones : (t : HaType) → P (clone_on_nodes t c r new_size snap l snode db begun)
    unfolding clone_on_nodes clone_on_pair l
    clone_on_nodes-Clones HaType.single =
        if-cases P (c.creates snode.uuid) (λ _. finish_clone-Clones) (λ _. left (λ e. ground arith))
    clone_on_nodes-Clones HaType.ha =
        option-cases P (get_storage_node_by_id snode.secondary_node_id db)
          (λ _. left (λ e. ground arith)) λ sec _. placed-Clones (place c.leads snode sec)
    clone_on_nodes-Clones HaType.other = finish_clone-Clones

  store_clone-Clones :
      (snap : Snapshot) (pool : Pool) (snode : Node)
      → MayClone snapshot_id name db s snap pool snode
      → P (store_clone c r uuid name new_size pool snap snode db s)
  unfolding store_clone begun l
  store_clone-Clones snap pool snode may =
      if-cases P
        (not (new_size == 0)
          && (if leb new_size snap.lvol.size then true else ltb snap.lvol.max_size new_size))
        (λ _. no) (λ sized. clone_on_nodes-Clones snap pool snode may sized snap.lvol.ha_type)

  check_clone-Clones :
      (snap : Snapshot) (pool : Pool) (snode : Node)
      → get_snapshot_by_id snapshot_id s ≡ some snap
      → get_pool_by_id snap.lvol.pool_uuid s ≡ some pool
      → is_inactive pool.status ≡ false
      → get_storage_node_by_id snap.lvol.node_id db ≡ some snode
      → is_full snap s ≡ returned false
      → P (check_clone c r uuid name new_size pool snap snode db s)
  unfolding check_clone
  check_clone-Clones snap pool snode found in_pool active at_node counted =
      if-cases P (any (has_taken pool.uuid name) s.lvols) (λ _. no)
        λ fresh.
          if-cases P (above_lvol_max pool snap.size) (λ _. no)
            λ below_max.
              if-cases P (above_pool_max pool snap.size s) (λ _. no)
                λ fits_snap.
                  if-cases P (leb snode.max_lvol (length (get_lvols_by_node_id snode.uuid s)))
                    (λ _. no)
                    λ room.
                      if-cases P (above_pool_max pool snap.lvol.size s) (λ _. no)
                        λ fits. store_clone-Clones snap pool snode (record {
                          found = found;
                          in_pool = in_pool;
                          active = active;
                          at_node = at_node;
                          counted = counted;
                          fresh = fresh;
                          below_max = below_max;
                          fits_snap = fits_snap;
                          room = ground arith;
                          fits = fits;
                        })

-- A clone of a snapshot under a new uuid: a refusal changes no volume, or leaves the new volume
-- behind in creation; with success the volumes gain exactly the new one, online, with the name asked for,
-- in the snapshot's pool and on the node of its volume, and with the new size, which is above that volume's size
-- and within its maximum, or, where none is asked for, with that volume's size. The pool was active, the
-- name was new in it, the snapshot had references left, the node had room, and the pool had room for the
-- snapshot's and the volume's size. An exception can come after the new volume is online.
pub clone-Clones :
    (c : Creation) (r : Resizing) (uuid snapshot_id name : Name) (new_size : ℕ) (db : Db)
    (s : Store)
    → get_lvol_by_id uuid s ≡ none
    → Clones uuid snapshot_id name new_size db s (clone c r uuid snapshot_id name new_size db s)
unfolding clone
clone-Clones c r uuid snapshot_id name new_size db s is_new =
    option-cases Q (get_snapshot_by_id snapshot_id s) (λ _. nope)
      λ snap found.
        option-cases Q (get_pool_by_id snap.lvol.pool_uuid s) (λ _. nope)
          λ pool in_pool.
            if-cases Q (is_inactive pool.status) (λ _. nope)
              λ active.
                option-cases Q (get_storage_node_by_id snap.lvol.node_id db) (λ _. nope)
                  λ snode at_node.
                    option-cases Q (get_cluster_by_id pool.cluster_id db) (λ _. fail)
                      λ cluster _.
                        if-cases Q (not (is_working cluster.status)) (λ _. nope)
                          λ _.
                            result-cases Q (is_full snap s) (λ _. fail)
                              λ full counted.
                                if-cases Q full (λ _. nope)
                                  (λ e.
                                    check_clone-Clones c r uuid snapshot_id name new_size db s
                                      is_new snap pool snode found in_pool active at_node
                                      (rw⁻¹ e counted))
  where
    Q : Created → Type 0
    Q = Clones uuid snapshot_id name new_size db s

    nope : Q (refuses s)
    nope = no c r uuid snapshot_id name new_size db s is_new

    fail : Q (raised, s)
    fail = fails c r uuid snapshot_id name new_size db s is_new
