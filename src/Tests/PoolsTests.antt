-- ===== src/Tests/PoolsTests.antt =====
-- Examples for the theorems about the pools.
use sbcli.Prelude.{
  some, ap, ◌∙◌, pos, Bool, true, [], ◌∷◌, ◌≡◌, ◌≤◌, arith, ◌==◌, count, find-passes,
}
use sbcli.Model.{Name}
use sbcli.Volumes.{Limits, Pool, PoolStatus, Store, get_pool_by_id}
use sbcli.Pools.{add_pool, set_pool, delete_pool, has_name}
use sbcli.Pools.Names.{IsConsistent, Reaches, add, change, here, after, Reaches-IsConsistent}
use sbcli.Pools.Raising.{SetPool, set_pool-SetPool, Searches, DeletePool, delete_pool-DeletePool}
use sbcli.Tests.Sample.{cluster}

abbrev limits : Limits
limits = record {
  pool_max_size = pos 100;
  lvol_max_size = pos 10;
  max_rw_ios_per_sec = pos 0;
  max_rw_mbytes_per_sec = pos 0;
  max_r_mbytes_per_sec = pos 0;
  max_w_mbytes_per_sec = pos 0;
}

abbrev pool : Pool
pool = record {
  uuid = 80;
  cluster_id = 1;
  numeric_id = 1;
  pool_name = 90;
  limits = limits;
  status = PoolStatus.active;
}

abbrev store : Store
store = record { clusters = cluster ∷ []; pools = pool ∷ []; lvols = []; snapshots = [] }

one_pool : (p : Pool → Bool) (t : Pool) → count p (t ∷ []) ≤ 1
one_pool p t = ground arith

store-IsConsistent : IsConsistent store
store-IsConsistent = record {
  keys = λ u. one_pool (λ p. p.uuid == u) pool;
  names = λ n. one_pool (has_name n) pool;
  numeric_ids = λ k. one_pool (λ p. p.numeric_id == k) pool;
}

abbrev added : Store
added = (add_pool 81 91 limits 1 store).1

abbrev renamed : Store
renamed = (set_pool true 80 limits 92 added).1

two_steps : Reaches store renamed
two_steps = after (add 81 91 limits 1) (after (change true 80 limits 92) here)

Reaches-IsConsistent_example : IsConsistent renamed
Reaches-IsConsistent_example = Reaches-IsConsistent two_steps store-IsConsistent

set_pool-SetPool_example : SetPool 80 limits 92 store (set_pool true 80 limits 92 store)
set_pool-SetPool_example = set_pool-SetPool true 80 limits 92 store

own_key : (id : Name) (s : Store) (p : Pool) → get_pool_by_id id s ≡ some p → p.uuid ≡ id
own_key id s p e = ground (arith, find-passes (λ (x : Pool). x.uuid == id) s.pools p e)

get_pool_by_id-Searches : Searches get_pool_by_id
get_pool_by_id-Searches = record {
  stored = λ id s p e. ap (λ u. get_pool_by_id u s) (own_key id s p e) ∙ e;
  exact = λ id s p e. e;
}

delete_pool-DeletePool_example :
    DeletePool get_pool_by_id true 80 store (delete_pool get_pool_by_id true 80 store)
delete_pool-DeletePool_example =
    delete_pool-DeletePool get_pool_by_id true 80 store get_pool_by_id-Searches
