-- ===== src/Lvols/Within.antt =====
-- A pool with a size limit stays within it when an accepted volume is stored.
use sbcli.Prelude.{
  ◌+◌, pos, pos_part, neg_part, ◌≤ℤ◌, ◌≤◌, ltb_ℤ, true, none, some, ◌∷◌, ◌≡◌, inl, inr, arith, find,
  ap,
}
use sbcli.Model.{Name, Db}
use sbcli.Volumes.{Pool, Limits, Lvol, Store}
use sbcli.Pools.{zero_ℤ, get_pool_total_capacity}
use sbcli.Lvols.{is_called, total_of, validate_add_lvol_func}
use sbcli.Lvols.Admitted.{Admits, validate_add_lvol_func-Admits}

-- The store with one more volume.
abbrev pub with_lvol : Lvol → Store → Store
with_lvol l s = record s { lvols = l ∷ s.lvols }

total_of-with_lvol :
    (id : Name) (l : Lvol) (s : Store) → total_of id (with_lvol l s) ≤ total_of id s + l.size
unfolding get_pool_total_capacity
total_of-with_lvol id l s = ground arith

-- When the validation accepts a volume for a pool with a size limit, the sizes of the pool's volumes
-- and snapshots together with the new volume are within the limit.
pub validate_add_lvol_func-IsWithin :
    (l : Lvol) (pool : Pool) (id_or_name : Name) (v : Limits) (db : Db) (s : Store)
    → find (is_called id_or_name) s.pools ≡ some pool
    → ltb_ℤ zero_ℤ pool.limits.pool_max_size ≡ true
    → validate_add_lvol_func l.lvol_name (pos l.size) id_or_name v db s ≡ none
    → pos (total_of pool.uuid (with_lvol l s)) ≤ℤ pool.limits.pool_max_size
validate_add_lvol_func-IsWithin l pool id_or_name v db s called limited accepted =
    let a = validate_add_lvol_func-Admits l.lvol_name (pos l.size) v db s id_or_name accepted in
    within a (ground (arith, a.called))
  where
    within :
        (a : Admits l.lvol_name (pos l.size) id_or_name v db s)
        → a.pool ≡ pool
        → pos (total_of pool.uuid (with_lvol l s)) ≤ℤ pool.limits.pool_max_size
    within a e = elim a.fits.below_pool_max [
      | inl free ↦ absurd (ground (arith, ap (λ p. p.limits.pool_max_size) e))
      | inr fits ↦ omega (
        arith,
        ap (λ p. total_of p.uuid s) e,
        ap (λ p. pos_part p.limits.pool_max_size) e,
        ap (λ p. neg_part p.limits.pool_max_size) e,
        total_of-with_lvol pool.uuid l s,
      )
    ]
