-- ===== src/Lvols/Qos.antt =====
-- set_lvol of simplyblock_core/controllers/lvol_controller.py.
use sbcli.Prelude.{
  ℤ, negsuc, Bool, not, ◌&&◌, none, some, ltb_ℤ, is_some, if◌then◌else◌, Result, returned, raised,
}
use sbcli.Model.{Name, Db, is_set, get_storage_node_by_id}
use sbcli.Volumes.{Limits, Lvol, Store, is_inactive, get_pool_by_id, get_lvol_by_id, write_lvol}
use sbcli.Pools.{zero_ℤ}
use sbcli.Lvols.{pool_has_qos}

-- False, the text of an error, which callers take for true, and True.
pub data SetReply : Type 0 where
  refused error_text accepted : SetReply

abbrev pub Set : Type 0
Set = Result SetReply × Store

-- None and a negative number, which stands for None in the model, become -1.
abbrev pub or_unset : ℤ → ℤ
or_unset z = if ltb_ℤ z zero_ℤ then negsuc 0 else z

-- The volume with the new name, where there is one, and the new limits.
abbrev pub limited : Limits → Name → Lvol → Lvol
limited v name l = record l {
  lvol_name = if is_set name then name else l.lvol_name;
  rw_ios_per_sec = or_unset v.max_rw_ios_per_sec;
  rw_mbytes_per_sec = or_unset v.max_rw_mbytes_per_sec;
  r_mbytes_per_sec = or_unset v.max_r_mbytes_per_sec;
  w_mbytes_per_sec = or_unset v.max_w_mbytes_per_sec;
}

-- set_lvol; `accepts` is the reply of the volume's node. The secondary node is read, and not called,
-- since its status is compared with a list.
unfoldable pub set_lvol : (accepts : Bool) → Name → Limits → Name → Db → Store → Set
set_lvol accepts id v name db s = elim (get_lvol_by_id id s) [
  | none ↦ (returned SetReply.refused, s)
  | some l ↦ elim (get_pool_by_id l.pool_uuid s) [
    | none ↦ (raised, s)
    | some pool ↦
        if is_inactive pool.status
        then (returned SetReply.refused, s)
        else if pool_has_qos pool
        then (returned SetReply.refused, s)
        else elim (get_storage_node_by_id l.node_id db) [
          | none ↦ (raised, s)
          | some snode ↦
              if not accepts
              then (returned SetReply.error_text, s)
              else if is_set snode.secondary_node_id
                  && not (is_some (get_storage_node_by_id snode.secondary_node_id db))
              then (raised, s)
              else (returned SetReply.accepted, write_lvol (limited v name l) s)
        ]
  ]
]
