-- ===== src/Lvols/Creation/Within.antt =====
-- A pool with a size limit stays within it when a volume is created.
use sbcli.Prelude.{
  pos, ◌≤ℤ◌, ◌≤◌, ltb_ℤ, true, false, none, some, List, [], ◌∷◌, ◌≡◌, refl, arith, find, keep,
  returned, ◌==◌,
}
use sbcli.Model.{Name, Db, is_set}
use sbcli.Volumes.{Pool, Lvol, Store, put_lvol, write_lvol, get_lvol_by_id}
use sbcli.Pools.{zero_ℤ, get_pool_total_capacity, lvol_sizes}
use sbcli.Lvols.{is_called, total_of, validate_add_lvol_func}
use sbcli.Lvols.Within.{with_lvol, validate_add_lvol_func-IsWithin}
use sbcli.Lvols.Creation.{Request, Supplies, Added, new_uuid, add_lvol_ha}
use sbcli.Lvols.Creation.Created.{Creates, refused, renamed_stored, left_behind, created}
use sbcli.Lvols.Creation.Admission.{add_lvol_ha-Creates}

lvol_sizes-put_lvol :
    (id : Name) (l : Lvol) (ls : List Lvol)
    → lvol_sizes (keep (λ m. m.pool_uuid == id) (put_lvol l ls))
      ≤ lvol_sizes (keep (λ m. m.pool_uuid == id) (l ∷ ls))
lvol_sizes-put_lvol id l [] = omega arith
lvol_sizes-put_lvol id l (m ∷ ms) = ground (arith, lvol_sizes-put_lvol id l ms)

total_of-write_lvol :
    (id : Name) (l : Lvol) (s : Store) → total_of id (write_lvol l s) ≤ total_of id (with_lvol l s)
unfolding get_pool_total_capacity
total_of-write_lvol id l s = ground (arith, lvol_sizes-put_lvol id l s.lvols)

-- When the creation of a volume succeeds in a pool with a size limit, the sizes of all volumes of the pool and the
-- used sizes of its snapshots are within the limit afterwards. The uuid is new, and none is asked for.
pub add_lvol_ha-IsWithin :
    (e : Supplies) (q : Request) (pool : Pool) (db : Db) (s : Store)
    → get_lvol_by_id e.uuid s ≡ none
    → is_set q.uid ≡ false
    → find (is_called q.pool) s.pools ≡ some pool
    → ltb_ℤ zero_ℤ pool.limits.pool_max_size ≡ true
    → (add_lvol_ha e q db s).0 ≡ returned (some e.uuid)
    → pos (total_of pool.uuid (add_lvol_ha e q db s).1) ≤ℤ pool.limits.pool_max_size
add_lvol_ha-IsWithin e q pool db s fresh unasked found limit =
    cases (add_lvol_ha e q db s) (add_lvol_ha-Creates e q db s fresh)
  where
    within :
        (l : Lvol)
        → l.lvol_name ≡ q.name
        → l.size ≡ q.size
        → validate_add_lvol_func q.name (pos q.size) q.pool q.limits db s ≡ none
        → pos (total_of pool.uuid (write_lvol l s)) ≤ℤ pool.limits.pool_max_size
    within l a b valid = omega (
      arith,
      total_of-write_lvol pool.uuid l s,
      validate_add_lvol_func-IsWithin l pool q.pool q.limits db s found limit (rw (a, b) valid),
    )

    own : new_uuid e q ≡ e.uuid
    own = rw unasked refl

    cases :
        (r : Added)
        → Creates e q db s r
        → r.0 ≡ returned (some e.uuid)
        → pos (total_of pool.uuid r.1) ≤ℤ pool.limits.pool_max_size
    cases r (refused h k) g = absurd (h (rw own g))
    cases r (renamed_stored l u h) g = absurd (ground arith)
    cases r (left_behind l h i j) g = absurd (ground arith)
    cases r (created p host l i a b j c d new h) g = rw h (within l new.name new.size b)
