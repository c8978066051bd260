-- ===== src/Pools.antt =====
-- Pools of logical volumes: simplyblock_core/controllers/pool_controller.py.
pub mod Table
pub mod Names
pub mod Raising
use sbcli.Prelude.{
  ℕ, ◌+◌, ℤ, pos, negsuc, pos_part, neg_part, ltb_ℤ, eqb_ℤ, Bool, true, false, not, ◌&&◌, ◌||◌,
  Option, none, some, List, [], ◌∷◌, ◌==◌, ltb, if◌then◌else◌, is_some, ◌>>=◌, any, find, keep,
  length,
}
use sbcli.Model.{Name, Cluster, is_set}
use sbcli.Volumes.{
  PoolStatus, Limits, Pool, Lvol, Snapshot, Store, is_inactive, put_pool, write_pool, remove_pool,
  get_pool_by_id, get_pool_by_name, get_lvols_by_pool_id,
}

-- max(existing_ids), where 0 stands for no id
abbrev pub max_numeric_id : List Pool → ℕ
max_numeric_id [] = 0
max_numeric_id (p ∷ ps) =
    let rest = max_numeric_id ps in if ltb rest p.numeric_id then p.numeric_id else rest

-- _generate_numeric_id
abbrev pub generate_numeric_id : List Pool → ℕ
generate_numeric_id [] = 1
generate_numeric_id (p ∷ ps) = max_numeric_id (p ∷ ps) + 1

abbrev pub zero_ℤ : ℤ
zero_ℤ = pos 0

abbrev pub has_name : Name → Pool → Bool
has_name name p = p.pool_name == name

-- add_pool, for limits that are 0 where none is given; `uuid` is the new one, and the reply is
-- `none` for False.
pub add_pool : Name → Name → Limits → Name → Store → Option Name × Store
add_pool uuid name limits cluster_id s =
    if not (is_set name)
    then (none, s)
    else if any (has_name name) s.pools
    then (none, s)
    else elim (find (λ (c : Cluster). c.uuid == cluster_id) s.clusters) [
      | none ↦ (none, s)
      | some cluster ↦
          if ltb_ℤ zero_ℤ limits.max_rw_mbytes_per_sec
            && (ltb_ℤ limits.max_rw_mbytes_per_sec limits.max_r_mbytes_per_sec
                || ltb_ℤ limits.max_rw_mbytes_per_sec limits.max_w_mbytes_per_sec)
          then (none, s)
          else (
            some uuid,
            write_pool
                (record {
                  uuid = uuid;
                  cluster_id = cluster.uuid;
                  numeric_id = generate_numeric_id s.pools;
                  pool_name = name;
                  limits = limits;
                  status = PoolStatus.active;
                })
                s,
          )
    ]

-- set_pool_value_if_above, on the current value; `none` is the refusal.
abbrev pub set_pool_value_if_above : ℤ → ℤ → Option ℤ
set_pool_value_if_above current value =
    if ltb_ℤ current value then some value else if eqb_ℤ value (negsuc 0) then some zero_ℤ else none

-- `if val: set_pool_value_if_above(...)`
abbrev pub update_value : ℤ → ℤ → Option ℤ
update_value current value =
    if eqb_ℤ value zero_ℤ then some current else set_pool_value_if_above current value

-- The loop over fields_to_update.
pub update_limits : Limits → Limits → Option Limits
update_limits l v = do
  pool_max ← update_value l.pool_max_size v.pool_max_size
  lvol_max ← update_value l.lvol_max_size v.lvol_max_size
  rw_iops ← update_value l.max_rw_ios_per_sec v.max_rw_ios_per_sec
  rw_mbytes ← update_value l.max_rw_mbytes_per_sec v.max_rw_mbytes_per_sec
  r_mbytes ← update_value l.max_r_mbytes_per_sec v.max_r_mbytes_per_sec
  w_mbytes ← update_value l.max_w_mbytes_per_sec v.max_w_mbytes_per_sec
  some (record {
    pool_max_size = pool_max;
    lvol_max_size = lvol_max;
    max_rw_ios_per_sec = rw_iops;
    max_rw_mbytes_per_sec = rw_mbytes;
    max_r_mbytes_per_sec = r_mbytes;
    max_w_mbytes_per_sec = w_mbytes;
  })

-- LVol.has_qos
abbrev pub has_qos : Lvol → Bool
has_qos l =
    ltb_ℤ zero_ℤ l.rw_ios_per_sec
    || ltb_ℤ zero_ℤ l.rw_mbytes_per_sec
    || ltb_ℤ zero_ℤ l.r_mbytes_per_sec
    || ltb_ℤ zero_ℤ l.w_mbytes_per_sec

abbrev pub qos_exists_on_child_lvol : Name → Store → Bool
qos_exists_on_child_lvol id s = any has_qos (get_lvols_by_pool_id id s)

-- max_rw_iops + max_rw_mbytes + max_r_mbytes + max_w_mbytes > 0
abbrev pub asks_for_qos : Limits → Bool
asks_for_qos v =
    ltb
      (neg_part v.max_rw_ios_per_sec
        + neg_part v.max_rw_mbytes_per_sec
        + neg_part v.max_r_mbytes_per_sec
        + neg_part v.max_w_mbytes_per_sec)
      (pos_part v.max_rw_ios_per_sec
        + pos_part v.max_rw_mbytes_per_sec
        + pos_part v.max_r_mbytes_per_sec
        + pos_part v.max_w_mbytes_per_sec)

-- From the normalized inputs on; `accepted` is whether every storage node accepts the limits.
pub set_limits : Bool → Limits → Pool → Store → Bool × Store
unfolding update_limits
set_limits accepted v pool s =
    if asks_for_qos v && qos_exists_on_child_lvol pool.uuid s
    then (false, s)
    else elim (update_limits pool.limits v) [
      | none ↦ (false, s)
      | some l ↦
          if not accepted then (false, s) else (true, write_pool (record pool { limits = l }) s)
    ]

-- set_pool; the message of a refusal is left out, and an unset input is 0.
pub set_pool : Bool → Name → Limits → Name → Store → Bool × Store
unfolding set_limits
set_pool accepted id v name s = elim (get_pool_by_id id s) [
  | none ↦ (false, s)
  | some pool ↦
      if is_inactive pool.status
      then (false, s)
      else if is_set name && not (name == pool.pool_name)
      then (if any (has_name name) s.pools
          then (false, s)
          else set_limits accepted v (record pool { pool_name = name }) s)
      else set_limits accepted v pool s
]

-- delete_pool; `is_uuid` is whether the argument matches UUID_PATTERN, and `lookup` is what
-- get_pool_by_id finds in the key-value store, by keys that begin with the argument.
pub delete_pool : (Name → Store → Option Pool) → Bool → Name → Store → Bool × Store
delete_pool lookup is_uuid id s =
    if is_some (if is_uuid then lookup id s else get_pool_by_name id s)
    then elim (lookup id s) [
      | none ↦ (false, s)
      | some pool ↦
          if is_inactive pool.status
          then (false, s)
          else if ltb 0 (length (get_lvols_by_pool_id id s))
          then (false, s)
          else (true, remove_pool pool.uuid s)
    ]
    else (false, s)

-- set_status
pub set_status : Name → PoolStatus → Store → Store
set_status id status s = elim (get_pool_by_id id s) [
  | none ↦ s
  | some p ↦ write_pool (record p { status = status }) s
]

abbrev pub lvol_sizes : List Lvol → ℕ
lvol_sizes [] = 0
lvol_sizes (l ∷ ls) = l.size + lvol_sizes ls

abbrev pub used_sizes : Name → List Snapshot → ℕ
used_sizes id [] = 0
used_sizes id (p ∷ ps) =
    let rest = used_sizes id ps in if p.lvol.pool_uuid == id then rest + p.used_size else rest

-- get_pool_total_capacity; `none` is False.
unfoldable pub get_pool_total_capacity : Name → Store → Option ℕ
get_pool_total_capacity id s = elim (get_pool_by_id id s) [
  | none ↦ none
  | some p ↦ some (lvol_sizes (get_lvols_by_pool_id id s) + used_sizes id s.snapshots)
]
