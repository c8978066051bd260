-- ===== src/Lvols/Resize.antt =====
-- resize_lvol of simplyblock_core/controllers/lvol_controller.py.
pub mod Resized
use sbcli.Prelude.{
  ℕ, pos, Bool, true, false, not, ◌&&◌, Option, none, some, leb, ltb, ltb_ℤ, if◌then◌else◌, Result,
  returned, raised,
}
use sbcli.Model.{HaType, Name, Node, Db, get_storage_node_by_id}
use sbcli.Volumes.{Lvol, Pool, Store, is_inactive, get_pool_by_id, get_lvol_by_id, write_lvol}
use sbcli.Volumes.Placement.{placed, secondary_down, both_offline, place}
use sbcli.Pools.{zero_ℤ}
use sbcli.Lvols.{total_of, exceeds}

-- What the storage processes reply: whether a node leads, and whether it resizes the volume.
pub record Resizing : Type 0 where
  pub leads : Name → Bool
  pub resizes : Name → Bool

-- The reply, without the message of a refusal.
abbrev pub Resized : Type 0
Resized = Result Bool × Store

-- The end of resize_lvol.
store_size : ℕ → Lvol → Store → Resized
store_size new_size l s = elim (get_lvol_by_id l.uuid s) [
  | none ↦ (raised, s)
  | some m ↦ (returned true, write_lvol (record m { size = new_size }) s)
]

-- The branch of a volume on a pair of nodes.
resize_on_pair : Resizing → ℕ → Lvol → Node → Db → Store → Resized
unfolding store_size
resize_on_pair r new_size l snode db s = elim (get_storage_node_by_id snode.secondary_node_id db) [
  | none ↦ (raised, s)
  | some sec ↦ elim (place r.leads snode sec) [
    | secondary_down ↦ (returned false, s)
    | both_offline ↦ (returned false, s)
    | placed primary second ↦
        if r.resizes primary.uuid && elim second [ none ↦ true | some n ↦ r.resizes n.uuid ]
        then store_size new_size l s
        else (returned false, s)
  ]
]

resize_on_nodes : HaType → Resizing → ℕ → Lvol → Node → Db → Store → Resized
unfolding resize_on_pair
resize_on_nodes HaType.single r new_size l snode db s =
    if r.resizes snode.uuid then store_size new_size l s else (returned false, s)
resize_on_nodes HaType.ha r new_size l snode db s = resize_on_pair r new_size l snode db s
resize_on_nodes HaType.other r new_size l snode db s = resize_on_pair r new_size l snode db s

-- From the checks of the sizes on.
resize_checked : Resizing → ℕ → Lvol → Pool → Db → Store → Resized
unfolding resize_on_nodes
resize_checked r new_size l pool db s =
    if leb new_size l.size
    then (returned false, s)
    else if ltb l.max_size new_size
    then (returned false, s)
    else if ltb_ℤ zero_ℤ pool.limits.lvol_max_size && ltb_ℤ pool.limits.lvol_max_size (pos new_size)
    then (returned false, s)
    else if ltb_ℤ zero_ℤ pool.limits.pool_max_size
        && exceeds (total_of pool.uuid s) (pos new_size) pool.limits.pool_max_size
    then (returned false, s)
    else elim (get_storage_node_by_id l.node_id db) [
      | none ↦ (raised, s)
      | some snode ↦ resize_on_nodes l.ha_type r new_size l snode db s
    ]

-- resize_lvol
pub resize_lvol : Resizing → Name → ℕ → Db → Store → Resized
unfolding resize_checked
resize_lvol r id new_size db s = elim (get_lvol_by_id id s) [
  | none ↦ (returned false, s)
  | some l ↦ elim (get_pool_by_id l.pool_uuid s) [
    | none ↦ (raised, s)
    | some pool ↦
        if is_inactive pool.status
        then (returned false, s)
        else resize_checked r new_size l pool db s
  ]
]
