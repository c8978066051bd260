-- ===== src/Monitor/Transitions.antt =====
-- How update_cluster_status moves a cluster from one status to another.
use sbcli.Prelude.{
  Bool, false, ◌&&◌, ◌||◌, some, List, [], ◌∷◌, ◌≡◌, ◌⊎◌, refl, arith, ◌==◌, ltb, count, find,
  find-passes, Result, returned, if-cases, option-cases, result-cases,
}
use sbcli.Model.{
  ClusterStatus, cluster_eq, Name, Time, Cluster, Db, get_cluster_by_id, get_job_tasks,
  get_storage_nodes_by_cluster_id,
}
use sbcli.Monitor.{
  Update, get_next_cluster_status, set_cluster_status, store_status, apply_status,
  update_cluster_status, can_activate, is_up, replace_cluster, write_cluster, is_pending_migration,
}

-- A cluster is read back as it was written.
find-replace_cluster :
    (id : Name) (c d : Cluster) (cs : List Cluster)
    → find (λ x. x.uuid == id) cs ≡ some c
    → d.uuid ≡ c.uuid
    → find (λ x. x.uuid == id) (replace_cluster d cs) ≡ some d
find-replace_cluster id c d [] h e = cc
find-replace_cluster id c d (x ∷ xs) h e = ground (
  arith,
  find-replace_cluster id c d xs,
  find-passes (λ (y : Cluster). y.uuid == id) (x ∷ xs) c h,
)

get-write_cluster :
    (id : Name) (c d : Cluster) (db : Db)
    → get_cluster_by_id id db ≡ some c
    → d.uuid ≡ c.uuid
    → get_cluster_by_id id (write_cluster d db) ≡ some d
get-write_cluster id c d db = find-replace_cluster id c d db.clusters

-- The cluster `id` is stored, with a status that satisfies `P`.
abbrev pub HasStatus : (ClusterStatus → Type 0) → Name → Db → Type 0
HasStatus P id db = (c : Cluster) × (get_cluster_by_id id db ≡ some c) × P c.status

pub set_cluster_status-HasStatus :
    (id : Name) (s : ClusterStatus) (db : Db) (c : Cluster)
    → get_cluster_by_id id db ≡ some c
    → HasStatus (λ x. x ≡ s) id (set_cluster_status id s db).1
unfolding set_cluster_status
set_cluster_status-HasStatus id s db c h =
    option-cases P (get_cluster_by_id id db) (λ e. absurd (cc))
      λ d e.
        if-cases P (cluster_eq d.status s) (λ f. (d, e, ground arith))
          λ f. (
            record d { status = s },
            get-write_cluster id d (record d { status = s }) db e refl,
            refl,
          )
  where
    P : Result (Unit {0}) × Db → Type 0
    P r = HasStatus (λ x. x ≡ s) id r.1

store_status-HasStatus :
    (id : Name) (s : ClusterStatus) (db : Db) (c : Cluster)
    → get_cluster_by_id id db ≡ some c
    → HasStatus (λ x. x ≡ s) id (store_status id s db).1
unfolding store_status
store_status-HasStatus id s db c h =
    result-cases (λ (r : Result Update × Db). HasStatus (λ x. x ≡ s) id r.1)
      (set_cluster_status id s db).0 (λ _. set_cluster_status-HasStatus id s db c h)
      (λ _ _. set_cluster_status-HasStatus id s db c h)

-- Where the status may go from `current` when `next` is derived: it stays, or becomes `next`, which
-- does not end a read-only or a suspended state.
pub record MayBecome (current next after : ClusterStatus) : Type 0 where
  pub moved : (after ≡ current) ⊎ (after ≡ next)
  pub from_readonly : current ≡ ClusterStatus.readonly → is_up after ≡ false
  pub from_suspended : current ≡ ClusterStatus.suspended → is_up after ≡ false

module _ (now : Time) (id : Name) (db : Db) (c : Cluster)
    (h : get_cluster_by_id id db ≡ some c) where
  weaken :
      (s : ClusterStatus) (P : ClusterStatus → Type 0) (after : Db)
      → HasStatus (λ x. x ≡ s) id after
      → P s
      → HasStatus P id after
  weaken s P after (d, e, f) p = (d, e, rw f p)

  apply_status-MayBecome :
      (next : ClusterStatus)
      → HasStatus (MayBecome c.status next) id (apply_status now id c.status next db).1
  unfolding apply_status
  apply_status-MayBecome next =
      if-cases P
        (cluster_eq c.status ClusterStatus.degraded && cluster_eq next ClusterStatus.active)
        (λ e.
          weaken ClusterStatus.active M ((store_status id ClusterStatus.active db).1)
            (store_status-HasStatus id ClusterStatus.active db c h) (ground arith))
        λ e.
          if-cases P (cluster_eq c.status ClusterStatus.readonly && is_up next)
            (λ _. (c, h, ground arith))
            λ f.
              if-cases P (cluster_eq c.status ClusterStatus.suspended && is_up next)
                (λ g.
                  if-cases P (can_activate now id db (get_storage_nodes_by_cluster_id id db))
                    (λ _. (c, h, ground arith)) (λ _. (c, h, ground arith)))
                λ g.
                  weaken next M ((store_status id next db).1)
                    (store_status-HasStatus id next db c h) (ground arith)
    where
      M : ClusterStatus → Type 0
      M = MayBecome c.status next

      P : Result Update × Db → Type 0
      P r = HasStatus M id r.1

-- What update_cluster_status leaves of the status `before` of a cluster when the derived status is `next`.
pub record Moves (before next after : ClusterStatus) : Type 0 where
  pub may_become : MayBecome before next after
  pub unready_stays : before ≡ ClusterStatus.unready → after ≡ before
  pub in_activation_stays : before ≡ ClusterStatus.in_activation → after ≡ before
  pub in_expansion_stays : before ≡ ClusterStatus.in_expansion → after ≡ before

-- The service stores for a cluster either the status it had or the derived one; it never takes a
-- read-only or suspended cluster to active or degraded by itself, and leaves the status of a cluster
-- that is unready, in activation or in expansion as it is.
pub update_cluster_status-Moves :
    (jm : Name → List Bool) (now : Time) (id : Name) (db : Db) (c : Cluster) (next : ClusterStatus)
    → get_cluster_by_id id db ≡ some c
    → get_next_cluster_status jm id db ≡ returned next
    → HasStatus (Moves c.status next) id (update_cluster_status jm now id db).1
unfolding update_cluster_status
update_cluster_status-Moves jm now id db c next h e =
    rw (h, e, update_cluster_status)
      (if-cases P
        (cluster_eq c.status ClusterStatus.unready
          || cluster_eq c.status ClusterStatus.in_activation
          || cluster_eq c.status ClusterStatus.in_expansion)
        (λ f. (c, h, ground arith))
        (λ f. rest f (
          apply_status-MayBecome now id (write_cluster d db) d (get-write_cluster id c d db h refl)
            next)))
  where
    d : Cluster
    d = record c { is_re_balancing = ltb 0 (count is_pending_migration (get_job_tasks id db)) }

    P : Result Update × Db → Type 0
    P r = HasStatus (Moves c.status next) id r.1

    rest :
        (cluster_eq c.status ClusterStatus.unready
            || cluster_eq c.status ClusterStatus.in_activation
            || cluster_eq c.status ClusterStatus.in_expansion)
          ≡ false
        → HasStatus
            (MayBecome c.status next)
            id
            (apply_status now id c.status next (write_cluster d db)).1
        → P (apply_status now id c.status next (write_cluster d db))
    rest f (x, k, m) = (x, k, ground arith)
