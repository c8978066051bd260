-- ===== src/Lvols/Resize/Resized.antt =====
-- What a resize comes to.
use sbcli.Prelude.{
  ℕ, ◌<◌, ◌≤◌, pos, Bool, true, false, ◌&&◌, none, some, ◌≡◌, ◌≢◌, arith, refl, leb, ltb, ltb_ℤ,
  if◌then◌else◌, if-cases, option-cases, Result, returned, raised,
}
use sbcli.Model.{HaType, Node, Db, get_storage_node_by_id}
use sbcli.Volumes.{Lvol, Pool, Store, is_inactive, get_pool_by_id, get_lvol_by_id, put_lvol}
use sbcli.Volumes.Placement.{placed, secondary_down, both_offline, place, Placement}
use sbcli.Pools.{zero_ℤ}
use sbcli.Lvols.{total_of, exceeds}
use sbcli.Lvols.Resize.{
  Resizing, Resized, store_size, resize_on_pair, resize_on_nodes, resize_checked, resize_lvol,
}

-- The outcomes of a resize of `l`.
pub data Resizes (new_size : ℕ) (l : Lvol) (s : Store) : Resized → Type 0 where
  kept : {reply : Result Bool} → reply ≢ returned true → Resizes new_size l s (reply, s)
  grown :
      {s' : Store} (pool : Pool)
      → get_pool_by_id l.pool_uuid s ≡ some pool
      → l.size < new_size
      → new_size ≤ l.max_size
      → (ltb_ℤ zero_ℤ pool.limits.lvol_max_size && ltb_ℤ pool.limits.lvol_max_size (pos new_size))
        ≡ false
      → (ltb_ℤ zero_ℤ pool.limits.pool_max_size
          && exceeds (total_of pool.uuid s) (pos new_size) pool.limits.pool_max_size)
        ≡ false
      → s'.lvols ≡ put_lvol (record l { size = new_size }) s.lvols
      → Resizes new_size l s (returned true, s')

module _ (r : Resizing) (new_size : ℕ) (l : Lvol) (db : Db) (s : Store)
    (stored : get_lvol_by_id l.uuid s ≡ some l) where
  abbrev P : Resized → Type 0
  P = Resizes new_size l s

  no : P (returned false, s)
  no = kept (λ e. ground arith)

  fails : P (raised, s)
  fails = kept (λ e. ground arith)

  module _ (snode : Node) (grows : P (store_size new_size l s)) where
    placed-Resizes :
        (p : Placement)
        → P (elim p [
          | secondary_down ↦ (returned false, s)
          | both_offline ↦ (returned false, s)
          | placed primary second ↦
              if r.resizes primary.uuid && elim second [ none ↦ true | some n ↦ r.resizes n.uuid ]
              then store_size new_size l s
              else (returned false, s)
        ])
    placed-Resizes secondary_down = no
    placed-Resizes both_offline = no
    placed-Resizes (placed primary second) =
        if-cases P
          (r.resizes primary.uuid && elim second [ none ↦ true | some n ↦ r.resizes n.uuid ])
          (λ _. grows) (λ _. no)

    resize_on_pair-Resizes : P (resize_on_pair r new_size l snode db s)
    unfolding resize_on_pair
    resize_on_pair-Resizes =
        option-cases P (get_storage_node_by_id snode.secondary_node_id db) (λ _. fails)
          λ sec _. placed-Resizes (place r.leads snode sec)

    resize_on_nodes-Resizes : (t : HaType) → P (resize_on_nodes t r new_size l snode db s)
    unfolding resize_on_nodes
    resize_on_nodes-Resizes HaType.single = if-cases P (r.resizes snode.uuid) (λ _. grows) (λ _. no)
    resize_on_nodes-Resizes HaType.ha = resize_on_pair-Resizes
    resize_on_nodes-Resizes HaType.other = resize_on_pair-Resizes

  store_size-Resizes :
      (pool : Pool)
      → get_pool_by_id l.pool_uuid s ≡ some pool
      → leb new_size l.size ≡ false
      → ltb l.max_size new_size ≡ false
      → (ltb_ℤ zero_ℤ pool.limits.lvol_max_size && ltb_ℤ pool.limits.lvol_max_size (pos new_size))
        ≡ false
      → (ltb_ℤ zero_ℤ pool.limits.pool_max_size
          && exceeds (total_of pool.uuid s) (pos new_size) pool.limits.pool_max_size)
        ≡ false
      → P (store_size new_size l s)
  unfolding store_size
  store_size-Resizes pool in_pool a b c d =
      rw (stored, store_size) (grown pool in_pool (ground arith) (ground arith) c d refl)

  resize_checked-Resizes :
      (pool : Pool)
      → get_pool_by_id l.pool_uuid s ≡ some pool
      → P (resize_checked r new_size l pool db s)
  unfolding resize_checked
  resize_checked-Resizes pool in_pool =
      if-cases P (leb new_size l.size) (λ _. no)
        λ a.
          if-cases P (ltb l.max_size new_size) (λ _. no)
            λ b.
              if-cases P
                (ltb_ℤ zero_ℤ pool.limits.lvol_max_size
                  && ltb_ℤ pool.limits.lvol_max_size (pos new_size))
                (λ _. no)
                λ c.
                  if-cases P
                    (ltb_ℤ zero_ℤ pool.limits.pool_max_size
                      && exceeds (total_of pool.uuid s) (pos new_size) pool.limits.pool_max_size)
                    (λ _. no)
                    λ d.
                      option-cases P (get_storage_node_by_id l.node_id db) (λ _. fails)
                        λ snode _.
                          resize_on_nodes-Resizes snode (store_size-Resizes pool in_pool a b c d)
                            l.ha_type

-- A resize of a stored volume changes nothing without success; with it the new size is above the old
-- one and at most the volume's maximum, within the pool's limits with all that the pool has, and
-- only the volume's size changes.
pub resize_lvol-Resizes :
    (r : Resizing) (new_size : ℕ) (l : Lvol) (db : Db) (s : Store)
    → get_lvol_by_id l.uuid s ≡ some l
    → Resizes new_size l s (resize_lvol r l.uuid new_size db s)
unfolding resize_lvol
resize_lvol-Resizes r new_size l db s stored =
    rw (stored, resize_lvol)
      (option-cases Q (get_pool_by_id l.pool_uuid s) (λ _. fails r new_size l db s stored)
        λ pool in_pool.
          if-cases Q (is_inactive pool.status) (λ _. no r new_size l db s stored)
            (λ _. resize_checked-Resizes r new_size l db s stored pool in_pool))
  where
    Q : Resized → Type 0
    Q = Resizes new_size l s

Resizes-same : (l : Lvol) (s : Store) {o : Resized} → Resizes l.size l s o → o.1 ≡ s
Resizes-same l s (kept h) = refl
Resizes-same l s (grown pool a b c d e f) = absurd (omega arith)

-- A volume is never resized to the size it has.
pub resize_lvol_same :
    (r : Resizing) (l : Lvol) (db : Db) (s : Store)
    → get_lvol_by_id l.uuid s ≡ some l
    → (resize_lvol r l.uuid l.size db s).1 ≡ s
resize_lvol_same r l db s stored = Resizes-same l s (resize_lvol-Resizes r l.size l db s stored)
