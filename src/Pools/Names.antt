-- ===== src/Pools/Names.antt =====
-- Names and ids of the pools stay distinct.
use sbcli.Prelude.{
  ℕ, ◌≤◌, Bool, true, not, ◌&&◌, ◌||◌, Option, some, ◌≡◌, refl, arith, ◌==◌, ltb, ltb_ℤ, count,
  find, any, length, is_some, if◌then◌else◌, if-cases, option-cases, find-passes,
}
use sbcli.Model.{Name, Cluster, is_set}
use sbcli.Volumes.{
  Limits, Pool, PoolStatus, Store, write_pool, remove_pool, get_pool_by_id, get_pool_by_name,
  get_lvols_by_pool_id, is_inactive,
}
use sbcli.Pools.{
  generate_numeric_id, has_name, add_pool, update_limits, set_limits, set_pool, delete_pool,
  set_status, asks_for_qos, qos_exists_on_child_lvol, zero_ℤ,
}
use sbcli.Pools.Table.{
  count-put_pool, count-exchange, count-keep, none-any, generate_numeric_id-fresh, put_pool-key,
}

-- No two pools have the same key, name or numeric id.
pub record IsConsistent (s : Store) : Type 0 where
  pub keys : (u : Name) → count (λ p. p.uuid == u) s.pools ≤ 1
  pub names : (n : Name) → count (has_name n) s.pools ≤ 1
  pub numeric_ids : (k : ℕ) → count (λ p. p.numeric_id == k) s.pools ≤ 1

module _ (s : Store) (h : IsConsistent s) where
  -- a pool with a new name and a new numeric id
  new-IsConsistent :
      (p : Pool)
      → count (has_name p.pool_name) s.pools ≡ 0
      → p.numeric_id ≡ generate_numeric_id s.pools
      → IsConsistent (write_pool p s)
  new-IsConsistent p e f = record {
    keys = λ u. put_pool-key p s.pools u (h.keys u);
    names = λ n. ground (arith, h.names n, count-put_pool (has_name n) p s.pools);
    numeric_ids = λ k. ground (
      arith,
      h.numeric_ids k,
      count-put_pool (λ x. x.numeric_id == k) p s.pools,
      generate_numeric_id-fresh s.pools,
    );
  }

  -- a pool written anew, under its name or one that no pool has
  exchanged-IsConsistent :
      (p q : Pool)
      → get_pool_by_id p.uuid s ≡ some q
      → p.numeric_id ≡ q.numeric_id
      → (p.pool_name == q.pool_name || not (any (has_name p.pool_name) s.pools)) ≡ true
      → IsConsistent (write_pool p s)
  exchanged-IsConsistent p q found e f = record {
    keys = λ u. put_pool-key p s.pools u (h.keys u);
    names = λ n. ground (
      arith,
      h.names n,
      count-exchange (has_name n) p q s.pools found,
      none-any (has_name p.pool_name) s.pools,
    );
    numeric_ids = λ k.
        ground (arith, h.numeric_ids k, count-exchange (λ x. x.numeric_id == k) p q s.pools found);
  }

  add_pool-IsConsistent :
      (uuid name : Name) (limits : Limits) (cluster_id : Name)
      → IsConsistent (add_pool uuid name limits cluster_id s).1
  unfolding add_pool
  add_pool-IsConsistent uuid name limits cluster_id =
      if-cases P (not (is_set name)) (λ _. h)
        λ _.
          if-cases P (any (has_name name) s.pools) (λ _. h)
            λ e.
              option-cases P (find (λ (c : Cluster). c.uuid == cluster_id) s.clusters) (λ _. h)
                λ cluster _.
                  if-cases P
                    (ltb_ℤ zero_ℤ limits.max_rw_mbytes_per_sec
                      && (ltb_ℤ limits.max_rw_mbytes_per_sec limits.max_r_mbytes_per_sec
                          || ltb_ℤ limits.max_rw_mbytes_per_sec limits.max_w_mbytes_per_sec))
                    (λ _. h) (λ _. new-IsConsistent _ (none-any (has_name name) s.pools e) refl)
    where
      P : Option Name × Store → Type 0
      P r = IsConsistent r.1

  set_limits-IsConsistent :
      (accepted : Bool) (v : Limits) (p q : Pool)
      → get_pool_by_id p.uuid s ≡ some q
      → p.numeric_id ≡ q.numeric_id
      → (p.pool_name == q.pool_name || not (any (has_name p.pool_name) s.pools)) ≡ true
      → IsConsistent (set_limits accepted v p s).1
  unfolding set_limits
  set_limits-IsConsistent accepted v p q found e f =
      if-cases P (asks_for_qos v && qos_exists_on_child_lvol p.uuid s) (λ _. h)
        λ _.
          option-cases P (update_limits p.limits v) (λ _. h)
            λ l _.
              if-cases P (not accepted) (λ _. h)
                (λ _. exchanged-IsConsistent (record p { limits = l }) q found e f)
    where
      P : Bool × Store → Type 0
      P r = IsConsistent r.1

  -- what a search by key finds has the key
  found-key :
      (id : Name) (q : Pool) → get_pool_by_id id s ≡ some q → get_pool_by_id q.uuid s ≡ some q
  found-key id q e = cc (e, the_key)
    where
      the_key : q.uuid ≡ id
      the_key = ground (arith, find-passes (λ (x : Pool). x.uuid == id) s.pools q e)

  set_pool-IsConsistent :
      (accepted : Bool) (id : Name) (v : Limits) (name : Name)
      → IsConsistent (set_pool accepted id v name s).1
  unfolding set_pool
  set_pool-IsConsistent accepted id v name =
      option-cases P (get_pool_by_id id s) (λ _. h)
        λ pool e.
          if-cases P (is_inactive pool.status) (λ _. h)
            λ _.
              if-cases P (is_set name && not (name == pool.pool_name))
                (λ _.
                  if-cases P (any (has_name name) s.pools) (λ _. h)
                    (λ f.
                      set_limits-IsConsistent accepted v (record pool { pool_name = name }) pool
                        (found-key id pool e) refl (ground arith)))
                (λ _.
                  set_limits-IsConsistent accepted v pool pool (found-key id pool e) refl
                    (ground arith))
    where
      P : Bool × Store → Type 0
      P r = IsConsistent r.1

  delete_pool-IsConsistent :
      (lookup : Name → Store → Option Pool) (is_uuid : Bool) (id : Name)
      → IsConsistent (delete_pool lookup is_uuid id s).1
  unfolding delete_pool
  delete_pool-IsConsistent lookup is_uuid id =
      if-cases P (is_some (if is_uuid then lookup id s else get_pool_by_name id s))
        (λ _.
          option-cases P (lookup id s) (λ _. h)
            λ pool _.
              if-cases P (is_inactive pool.status) (λ _. h)
                λ _.
                  if-cases P (ltb 0 (length (get_lvols_by_pool_id id s))) (λ _. h)
                    λ _. fewer pool.uuid)
        (λ _. h)
    where
      P : Bool × Store → Type 0
      P r = IsConsistent r.1

      fewer : (u : Name) → IsConsistent (remove_pool u s)
      fewer u = record {
        keys = λ v.
            omega (arith, h.keys v, count-keep (λ x. x.uuid == v) (λ x. not (x.uuid == u)) s.pools);
        names =
            λ n. omega (arith, h.names n, count-keep (has_name n) (λ x. not (x.uuid == u)) s.pools);
        numeric_ids = λ k. omega (
          arith,
          h.numeric_ids k,
          count-keep (λ x. x.numeric_id == k) (λ x. not (x.uuid == u)) s.pools,
        );
      }

  set_status-IsConsistent :
      (id : Name) (status : PoolStatus) → IsConsistent (set_status id status s)
  unfolding set_status
  set_status-IsConsistent id status =
      option-cases IsConsistent (get_pool_by_id id s) (λ _. h)
        λ p e.
          exchanged-IsConsistent (record p { status = status }) p (found-key id p e) refl
            (ground arith)

-- The operations of the controller on the stored pools, and the changes of others to the rest.
pub data Step : Store → Store → Type 0 where
  add : {s : Store} (uuid name : Name) (l : Limits) (c : Name) → Step s (add_pool uuid name l c s).1
  change :
      {s : Store} (accepted : Bool) (id : Name) (v : Limits) (name : Name)
      → Step s (set_pool accepted id v name s).1
  delete :
      {s : Store} (lookup : Name → Store → Option Pool) (is_uuid : Bool) (id : Name)
      → Step s (delete_pool lookup is_uuid id s).1
  enable : {s : Store} (id : Name) (status : PoolStatus) → Step s (set_status id status s)
  others : {s t : Store} → t.pools ≡ s.pools → Step s t

pub data Reaches : Store → Store → Type 0 where
  here : {s : Store} → Reaches s s
  after : {s t u : Store} → Step s t → Reaches t u → Reaches s u

Step-IsConsistent : {s t : Store} → Step s t → IsConsistent s → IsConsistent t
Step-IsConsistent (add {s = s} uuid name l c) h = add_pool-IsConsistent s h uuid name l c
Step-IsConsistent (change {s = s} accepted id v name) h =
    set_pool-IsConsistent s h accepted id v name
Step-IsConsistent (delete {s = s} lookup is_uuid id) h =
    delete_pool-IsConsistent s h lookup is_uuid id
Step-IsConsistent (enable {s = s} id status) h = set_status-IsConsistent s h id status
Step-IsConsistent (others e) h = record {
  keys = λ u. rw e (h.keys u);
  names = λ n. rw e (h.names n);
  numeric_ids = λ k. rw e (h.numeric_ids k);
}

-- However the operations on the pools follow each other, no two pools have the same key, name or
-- numeric id, if none had before.
pub Reaches-IsConsistent : {s t : Store} → Reaches s t → IsConsistent s → IsConsistent t
Reaches-IsConsistent here h = h
Reaches-IsConsistent (after step rest) h = Reaches-IsConsistent rest (Step-IsConsistent step h)
