-- ===== src/NodeOps/Remove/Removed.antt =====
-- What the removal of a node comes to.
use sbcli.Prelude.{
  Bool, true, false, not, ◌&&◌, ◌||◌, Option, none, some, ◌≡◌, ◌≢◌, ◌∙◌, ◌⊎◌, inl, inr, refl, arith,
  Bool-cases, if-cases, option-cases, Result, returned, raised,
}
use sbcli.Model.{NodeStatus, node_eq, Name, Node, Db, get_storage_node_by_id, get_cluster_by_id}
use sbcli.TaskQueries.{get_active_node_tasks}
use sbcli.Volumes.{Store, get_lvols_by_node_id}
use sbcli.Prelude.Table.{HasKeys}
use sbcli.Devices.Links.{node_name}
use sbcli.Devices.Links.Kept.{SameButLinks, SameButLinks-SameStatuses}
use sbcli.Devices.Statuses.{SameStatuses, found_key}
use sbcli.NodeMonitor.{Probes, Outcome, set_node_status, for_devices}
use sbcli.NodeMonitor.Statuses.{Sets, Sets-SameStatuses, for_devices_keep}
use sbcli.NodeOps.{has_status, has_tasks, cancel_tasks}
use sbcli.NodeOps.Steps.{cancel_tasks_keep, cancel_tasks-SameStatuses, cancel_tasks_none, then-Sets}
use sbcli.NodeOps.Remove.{
  Removal, Removing, is_empty, node_snaps, clear_lvols, clear_snaps, is_in_use, put_failed,
  take_out, disconnect, leave_cluster, clear_node, remove_storage_node,
}
use sbcli.NodeOps.Remove.Spared.{
  disconnect-SameButLinks, put_failed-SameStatuses, Spares, clear_lvols-Spares, clear_snaps-Spares,
}

-- What a removal asks for without force_remove.
pub record MayRemove (r : Removing) (n : Node) (db : Db) (s : Store) : Type 0 where
  pub no_tasks : has_tasks (get_active_node_tasks n.cluster_id n.uuid db) ≡ false
  pub no_lvols : (is_empty (get_lvols_by_node_id n.uuid s) || r.force_migrate) ≡ true
  pub no_snaps : is_empty (node_snaps n.uuid s) ≡ true

-- What keeps a node without force_remove; with force_migrate it is the snapshots in any case.
abbrev pub blocks_removal : Removing → Node → Db → Store → Bool
blocks_removal r n db s =
    has_tasks (get_active_node_tasks n.cluster_id n.uuid db)
    || not (is_empty (get_lvols_by_node_id n.uuid s) || r.force_migrate)
    || not (is_empty (node_snaps n.uuid s))

-- A node that is kept: it is missing, online or in use, or a forced deletion has failed.
abbrev pub IsKept : Removing → Name → Db → Store → Type 0
IsKept r id db s =
    (get_storage_node_by_id id db ≡ none)
    ⊎ ((n : Node) × ((get_storage_node_by_id id db ≡ some n)
          × ((node_eq n.status NodeStatus.online ≡ true)
              ⊎ ((r.force_remove ≡ true) ⊎ (blocks_removal r n db s ≡ true)))))

-- The outcomes of a removal.
pub data Removes (r : Removing) (id : Name) (db : Db) (s : Store) : Removal → Type 0 where
  kept :
      {reply : Result Bool} {x : Db} {s' : Store}
      → IsKept r id db s
      → reply ≢ returned true
      → SameStatuses db x
      → (r.force_remove ≡ false → (x ≡ db) × (s' ≡ s))
      → Removes r id db s (reply, (x, s'))
  disconnected :
      {reply : Result Bool} {x : Db} {s' : Store} (n : Node)
      → get_storage_node_by_id id db ≡ some n
      → node_eq n.status NodeStatus.online ≡ false
      → (r.force_remove ≡ true) ⊎ MayRemove r n db s
      → reply ≢ returned true
      → SameStatuses db x
      → (r.force_remove ≡ false → SameButLinks db x × (s' ≡ s))
      → Removes r id db s (reply, (x, s'))
  removed :
      {reply : Result Bool} {x : Db} {s' : Store} (n : Node)
      → get_storage_node_by_id id db ≡ some n
      → node_eq n.status NodeStatus.online ≡ false
      → r.clears ≡ true
      → (r.force_remove ≡ true) ⊎ MayRemove r n db s
      → reply ≢ returned false
      → Sets n.uuid NodeStatus.removed db x
      → Removes r id db s (reply, (x, s'))

module _ (p : Probes) (r : Removing) (id : Name) (n : Node) (db : Db) (s : Store)
    (stored : get_storage_node_by_id id db ≡ some n)
    (offline : node_eq n.status NodeStatus.online ≡ false) where
  abbrev P : Removal → Type 0
  P = Removes r id db s

  take_out-Removes :
      (x : Db) (s' : Store)
      → SameStatuses db x
      → (r.force_remove ≡ false → SameButLinks db x × (s' ≡ s))
      → (r.force_remove ≡ true) ⊎ MayRemove r n db s
      → P (take_out p r n x s')
  unfolding take_out
  take_out-Removes x s' same plain may =
      option-cases P (get_cluster_by_id n.cluster_id x)
        (λ _. disconnected n stored offline may (λ e. ground arith) same plain)
        λ c _.
          if-cases P (not r.clears)
            (λ _. disconnected n stored offline may (λ e. ground arith) same plain)
            (λ k.
              set (ground arith) (set_node_status p n.uuid NodeStatus.removed x)
                (then-Sets p n.uuid NodeStatus.removed n db x (found_key id n db stored) same))
    where
      failed :
          r.clears ≡ true
          → (o : Outcome) → Sets n.uuid NodeStatus.removed db o.1
          → P (
              let (b, y) = o in
              elim b [ raised ↦ (raised, (y, s')) | returned _ ↦ (returned true, (y, s')) ])
      failed k (raised, y) h = removed n stored offline k may (λ e. ground arith) h
      failed k (returned tt, y) h = removed n stored offline k may (λ e. ground arith) h

      set :
          r.clears ≡ true
          → (o : Result Bool × Db) → Sets n.uuid NodeStatus.removed db o.1
          → P (
              let (reply, y) = o in
              elim reply [
                | raised ↦ (raised, (y, s'))
                | returned _ ↦
                    let (b, z) = for_devices is_in_use (put_failed p) n.devices y in
                    elim b [ raised ↦ (raised, (z, s')) | returned _ ↦ (returned true, (z, s')) ]
              ])
      set k (raised, y) h = removed n stored offline k may (λ e. ground arith) h
      set k (returned b, y) h = failed k (for_devices is_in_use (put_failed p) n.devices y) (
          for_devices_keep (Sets n.uuid NodeStatus.removed db) is_in_use (put_failed p)
            (λ d z g.
              Sets-SameStatuses n.uuid NodeStatus.removed db z _ g (put_failed-SameStatuses p d z))
            n.devices y h)

  leave_cluster-Removes :
      (x : Db) (s' : Store)
      → HasKeys node_name x.nodes
      → SameStatuses db x
      → (r.force_remove ≡ false → (x ≡ db) × (s' ≡ s))
      → (r.force_remove ≡ true) ⊎ MayRemove r n db s
      → P (leave_cluster p r n x s')
  unfolding leave_cluster
  leave_cluster-Removes x s' keyed same plain may =
      left (disconnect n x) (disconnect-SameButLinks n x keyed)
    where
      statuses : (y : Db) → SameButLinks x y → SameStatuses db y
      statuses y h k = SameButLinks-SameStatuses x y h k ∙ same k

      links : (y : Db) → SameButLinks x y → r.force_remove ≡ false → SameButLinks db y × (s' ≡ s)
      links y h f = (rw⁻¹ ((plain f).0) h, (plain f).1)

      left :
          (o : Outcome)
          → SameButLinks x o.1
          → P (
              let (b, y) = o in
              elim b [ raised ↦ (raised, (y, s')) | returned _ ↦ take_out p r n y s' ])
      left (raised, y) h =
          disconnected n stored offline may (λ e. ground arith) (statuses y h) (links y h)
      left (returned tt, y) h = take_out-Removes y s' (statuses y h) (links y h) may

  module _ (x : Db) (keyed : HasKeys node_name x.nodes) (same : SameStatuses db x)
      (plain : r.force_remove ≡ false → x ≡ db)
      (idle : r.force_remove ≡ false
        → has_tasks (get_active_node_tasks n.cluster_id n.uuid db) ≡ false) where
    snaps_block : is_empty (node_snaps n.uuid s) ≡ false → blocks_removal r n db s ≡ true
    snaps_block h = ground arith

    after_snaps :
        (s' : Store)
        → (r.force_remove ≡ false
            → (s' ≡ s) × ((is_empty (get_lvols_by_node_id n.uuid s) || r.force_migrate) ≡ true))
        → (o : Option (Result (Unit {0}) × Store))
        → Spares r.force_remove (is_empty (node_snaps n.uuid s')) s' o
        → P (elim o [
          | none ↦ (returned false, (x, s'))
          | some (b, s'') ↦ elim b [
            | raised ↦ (raised, (x, s''))
            | returned _ ↦ leave_cluster p r n x s''
          ]
        ])
    after_snaps s' h none k =
        kept
          (inr (
            n,
            (
              stored,
              inr (elim (Bool-cases r.force_remove) [
                | inl f ↦ inl f
                | inr f ↦ inr (snaps_block (rw⁻¹ ((h f).0) k))
              ]),
            ),
          ))
          (λ e. ground arith) same (λ f. (plain f, (h f).0))
    after_snaps s' h (some (raised, s'')) k =
        kept (inr (n, (stored, inr (inl k)))) (λ e. ground arith) same (λ f. absurd (ground arith))
    after_snaps s' h (some (returned tt, s'')) k =
        leave_cluster-Removes x s'' keyed same (λ f. (plain f, (k f).0 ∙ (h f).0))
          (elim (Bool-cases r.force_remove) [
            | inl f ↦ inl f
            | inr f ↦ inr (record {
              no_tasks = idle f;
              no_lvols = (h f).1;
              no_snaps = rw⁻¹ ((h f).0) ((k f).1);
            })
          ])

    after_lvols :
        (o : Option (Result (Unit {0}) × Store))
        → Spares r.force_remove (is_empty (get_lvols_by_node_id n.uuid s) || r.force_migrate) s o
        → P (elim o [
          | none ↦ (returned false, (x, s))
          | some (b, s') ↦ elim b [
            | raised ↦ (raised, (x, s'))
            | returned _ ↦ elim (clear_snaps r n.uuid x s') [
              | none ↦ (returned false, (x, s'))
              | some (c, s'') ↦ elim c [
                | raised ↦ (raised, (x, s''))
                | returned _ ↦ leave_cluster p r n x s''
              ]
            ]
          ]
        ])
    after_lvols none h =
        kept (inr (n, (stored, inr (inr (ground arith))))) (λ e. ground arith) same
          (λ f. (plain f, refl))
    after_lvols (some (raised, s')) h =
        kept (inr (n, (stored, inr (inl h)))) (λ e. ground arith) same (λ f. absurd (ground arith))
    after_lvols (some (returned tt, s')) h =
        after_snaps s' h (clear_snaps r n.uuid x s') (clear_snaps-Spares r n.uuid x s')

-- The removal of a node, where no two nodes have the same key: without success the statuses of all nodes are
-- kept, and without force_remove either nothing at all is changed, when the node is missing, online or in use, or
-- nothing but connections and JM devices, when the node could leave but its cluster is not stored or the calls of its API or of its JM device fail; else the
-- node is removed and the other nodes keep their statuses, and the calls of its API passed. A node that could
-- leave was not online, and without force_remove it had no active task, no snapshot and, without force_migrate,
-- no volume. An exception can come when the node is removed already.
pub remove_storage_node-Removes :
    (p : Probes) (r : Removing) (id : Name) (db : Db) (s : Store)
    → HasKeys node_name db.nodes
    → Removes r id db s (remove_storage_node p r id db s)
unfolding remove_storage_node clear_node
remove_storage_node-Removes p r id db s keyed =
    option-cases P (get_storage_node_by_id id db) (λ e. unchanged (inl e))
      λ n stored.
        if-cases P (has_status NodeStatus.online n) (λ e. unchanged (inr (n, (stored, inl e))))
          λ offline.
            if-cases P
              (has_tasks (get_active_node_tasks n.cluster_id n.uuid db) && not r.force_remove)
              (λ e. unchanged (inr (n, (stored, inr (inr (ground arith))))))
              λ k.
                after_lvols p r id n db s stored offline
                  (cancel_tasks (λ _. true) (get_active_node_tasks n.cluster_id n.uuid db) db)
                  (cancel_tasks_keep (λ x. HasKeys node_name x.nodes) (λ t x h. h) (λ _. true)
                    (get_active_node_tasks n.cluster_id n.uuid db) db keyed)
                  (cancel_tasks-SameStatuses (λ _. true)
                    (get_active_node_tasks n.cluster_id n.uuid db) db)
                  (λ f.
                    cancel_tasks_none (λ _. true) (get_active_node_tasks n.cluster_id n.uuid db) db
                      (ground arith))
                  (λ f. ground arith) (clear_lvols r n.uuid _ s) (clear_lvols-Spares r n.uuid _ s)
  where
    P : Removal → Type 0
    P = Removes r id db s

    unchanged : IsKept r id db s → P (returned false, (db, s))
    unchanged h = kept h (λ e. ground arith) (λ k. refl) (λ f. (refl, refl))
