-- ===== src/Lvols.antt =====
-- The validation of a new logical volume: validate_add_lvol_func of
-- simplyblock_core/controllers/lvol_controller.py.
pub mod Admitted
pub mod Within
pub mod Resize
pub mod Choice
pub mod Qos
pub mod Creation
use sbcli.Prelude.{
  ℕ, ◌+◌, ℤ, pos, pos_part, neg_part, ltb_ℤ, eqb_ℤ, Bool, true, false, not, ◌&&◌, ◌||◌, Option,
  none, some, List, [], ◌∷◌, ◌==◌, ltb, if◌then◌else◌, contains, map, any, find, keep,
}
use sbcli.Model.{Name, Db, is_set, get_storage_nodes_by_cluster_id}
use sbcli.Volumes.{get_lvols, Pool, Limits, Lvol, Store, is_inactive}
use sbcli.Pools.{zero_ℤ, get_pool_total_capacity, asks_for_qos}

-- The messages, without the numbers in them.
pub data Refusal : Type 0 where
  empty_name size_too_small pool_not_found pool_not_active : Refusal
  above_lvol_max above_pool_max name_taken both_have_qos : Refusal

-- parse_size('100MiB')
abbrev pub min_size : ℤ
min_size = pos 104_857_600

-- The test of the loop over the pools.
abbrev pub is_called : Name → Pool → Bool
is_called id_or_name p = id_or_name == p.uuid || id_or_name == p.pool_name

-- Pool.has_qos
abbrev pub pool_has_qos : Pool → Bool
pool_has_qos p = asks_for_qos p.limits

-- max_rw_iops or max_rw_mbytes or max_r_mbytes or max_w_mbytes
abbrev pub wants_qos : Limits → Bool
wants_qos v =
    not (eqb_ℤ v.max_rw_ios_per_sec zero_ℤ)
    || not (eqb_ℤ v.max_rw_mbytes_per_sec zero_ℤ)
    || not (eqb_ℤ v.max_r_mbytes_per_sec zero_ℤ)
    || not (eqb_ℤ v.max_w_mbytes_per_sec zero_ℤ)

-- get_pool_total_capacity, with False read as 0
abbrev pub total_of : Name → Store → ℕ
total_of id s = elim (get_pool_total_capacity id s) [ none ↦ 0 | some n ↦ n ]

-- total + size > pool_max_size
abbrev pub exceeds : ℕ → ℤ → ℤ → Bool
exceeds total size limit =
    ltb (pos_part limit + neg_part size) (total + pos_part size + neg_part limit)

-- The test of the loop over the volumes.
abbrev pub has_taken : Name → Name → Lvol → Bool
has_taken pool name l = l.pool_uuid == pool && l.lvol_name == name

-- From the check of the pool's status on.
unfoldable pub check_pool : Name → ℤ → Limits → Pool → Db → Store → Option Refusal
check_pool name size v pool db s =
    if is_inactive pool.status
    then some Refusal.pool_not_active
    else if ltb_ℤ zero_ℤ pool.limits.lvol_max_size && ltb_ℤ pool.limits.lvol_max_size size
    then some Refusal.above_lvol_max
    else if ltb_ℤ zero_ℤ pool.limits.pool_max_size
        && exceeds (total_of pool.uuid s) size pool.limits.pool_max_size
    then some Refusal.above_pool_max
    else if any (has_taken pool.uuid name) (get_lvols pool.cluster_id db s)
    then some Refusal.name_taken
    else if wants_qos v && pool_has_qos pool
    then some Refusal.both_have_qos
    else none

-- validate_add_lvol_func; `none` is success, and of `v` the four rates are read.
unfoldable pub validate_add_lvol_func : Name → ℤ → Name → Limits → Db → Store → Option Refusal
unfolding check_pool
validate_add_lvol_func name size pool_id_or_name v db s =
    if not (is_set name)
    then some Refusal.empty_name
    else if ltb_ℤ size min_size
    then some Refusal.size_too_small
    else elim (find (is_called pool_id_or_name) s.pools) [
      | none ↦ some Refusal.pool_not_found
      | some pool ↦ check_pool name size v pool db s
    ]
