-- ===== src/Lvols/Admitted.antt =====
-- Which volumes the validation admits, and that the pool stays within its size.
use sbcli.Prelude.{
  ◌+◌, ℤ, pos_part, neg_part, ◌≤ℤ◌, ltb_ℤ, Bool, true, false, not, ◌&&◌, ◌≤◌, Option, none, some,
  List, [], ◌∷◌, ◌==◌, ◌≡◌, ◌≢◌, ◌⊎◌, inl, inr, refl, arith, any, find, All, if-cases, option-cases,
}
use sbcli.Model.{Name, Db, is_set}
use sbcli.Volumes.{get_lvols, Pool, PoolStatus, Limits, Lvol, Store, is_inactive}
use sbcli.Pools.{zero_ℤ}
use sbcli.Lvols.{
  min_size, is_called, pool_has_qos, wants_qos, total_of, exceeds, has_taken, check_pool,
  validate_add_lvol_func, Refusal,
}

-- A volume of this name, size and rates may be added to a pool.
pub record Fits (name : Name) (size : ℤ) (v : Limits) (pool : Pool) (db : Db) (s : Store)
    : Type 0 where
  pub active : pool.status ≡ PoolStatus.active
  pub below_lvol_max : (pool.limits.lvol_max_size ≤ℤ zero_ℤ) ⊎ (size ≤ℤ pool.limits.lvol_max_size)
  pub below_pool_max :
      (pool.limits.pool_max_size ≤ℤ zero_ℤ)
      ⊎ (total_of pool.uuid s + pos_part size + neg_part pool.limits.pool_max_size
          ≤ pos_part pool.limits.pool_max_size + neg_part size)
  pub new_name :
      All (λ l. (l.pool_uuid ≢ pool.uuid) ⊎ (l.lvol_name ≢ name)) (get_lvols pool.cluster_id db s)
  pub one_qos : (wants_qos v ≡ false) ⊎ (pool_has_qos pool ≡ false)

-- The volume that the validation is about.
pub record Admits (name : Name) (size : ℤ) (id_or_name : Name) (v : Limits) (db : Db) (s : Store)
    : Type 0 where
  pub named : is_set name ≡ true
  pub large : min_size ≤ℤ size
  pub pool : Pool
  pub called : find (is_called id_or_name) s.pools ≡ some pool
  pub fits : Fits name size v pool db s

both-false : (a b : Bool) → (a && b) ≡ false → (a ≡ false) ⊎ (b ≡ false)
both-false true b h = inr h
both-false false b h = inl refl

taken-All :
    (pool name : Name) (ls : List Lvol)
    → any (has_taken pool name) ls ≡ false
    → All (λ l. (l.pool_uuid ≢ pool) ⊎ (l.lvol_name ≢ name)) ls
taken-All pool name [] h = tt
taken-All pool name (l ∷ ls) h = (
  elim (both-false (l.pool_uuid == pool) (l.lvol_name == name) (ground arith)) [
    | inl e ↦ inl (λ f. ground arith)
    | inr e ↦ inr (λ f. ground arith)
  ],
  taken-All pool name ls (ground arith),
)

All-taken :
    (pool name : Name) (ls : List Lvol)
    → All (λ l. (l.pool_uuid ≢ pool) ⊎ (l.lvol_name ≢ name)) ls
    → any (has_taken pool name) ls ≡ false
All-taken pool name [] h = refl
All-taken pool name (l ∷ ls) h = elim h.0 [
  | inl e ↦ ground (arith, All-taken pool name ls h.1)
  | inr e ↦ ground (arith, All-taken pool name ls h.1)
]

module _ (name : Name) (size : ℤ) (v : Limits) (db : Db) (s : Store) where
  check_pool-Fits :
      (pool : Pool) → check_pool name size v pool db s ≡ none → Fits name size v pool db s
  unfolding check_pool
  check_pool-Fits pool =
      if-cases P (is_inactive pool.status) (λ _. ground arith)
        λ active.
          if-cases P
            (ltb_ℤ zero_ℤ pool.limits.lvol_max_size && ltb_ℤ pool.limits.lvol_max_size size)
            (λ _. ground arith)
            λ lvol_max.
              if-cases P
                (ltb_ℤ zero_ℤ pool.limits.pool_max_size
                  && exceeds (total_of pool.uuid s) size pool.limits.pool_max_size)
                (λ _. ground arith)
                λ pool_max.
                  if-cases P (any (has_taken pool.uuid name) (get_lvols pool.cluster_id db s))
                    (λ _. ground arith)
                    λ new.
                      if-cases P (wants_qos v && pool_has_qos pool) (λ _. ground arith)
                        λ qos _. record {
                          active = ground arith;
                          below_lvol_max =
                              elim (both-false (ltb_ℤ zero_ℤ pool.limits.lvol_max_size)
                                (ltb_ℤ pool.limits.lvol_max_size size) lvol_max) [
                                  | inl e ↦ inl (ground arith)
                                  | inr e ↦ inr (ground arith)
                                ];
                          below_pool_max =
                              elim (both-false (ltb_ℤ zero_ℤ pool.limits.pool_max_size)
                                (exceeds (total_of pool.uuid s) size pool.limits.pool_max_size)
                                pool_max) [
                                  | inl e ↦ inl (ground arith)
                                  | inr e ↦ inr (ground arith)
                                ];
                          new_name = taken-All _ _ _ new;
                          one_qos = both-false (wants_qos v) (pool_has_qos pool) qos;
                        }
    where
      P : Option Refusal → Type 0
      P r = r ≡ none → Fits name size v pool db s

  Fits-check_pool :
      (pool : Pool) → Fits name size v pool db s → check_pool name size v pool db s ≡ none
  unfolding check_pool
  Fits-check_pool pool f =
      if-cases P (is_inactive pool.status) (λ e. absurd (ground (arith, f.active)))
        λ _.
          if-cases P
            (ltb_ℤ zero_ℤ pool.limits.lvol_max_size && ltb_ℤ pool.limits.lvol_max_size size)
            (λ e. absurd (elim f.below_lvol_max [ inl a ↦ ground arith | inr b ↦ ground arith ]))
            λ _.
              if-cases P
                (ltb_ℤ zero_ℤ pool.limits.pool_max_size
                  && exceeds (total_of pool.uuid s) size pool.limits.pool_max_size)
                (λ e.
                  absurd (elim f.below_pool_max [ inl a ↦ ground arith | inr b ↦ ground arith ]))
                λ _.
                  if-cases P (any (has_taken pool.uuid name) (get_lvols pool.cluster_id db s))
                    (λ e. absurd (ground (arith, All-taken _ _ _ f.new_name)))
                    λ _.
                      if-cases P (wants_qos v && pool_has_qos pool)
                        (λ e.
                          absurd (elim f.one_qos [ inl a ↦ ground arith | inr b ↦ ground arith ]))
                        λ _. refl
    where
      P : Option Refusal → Type 0
      P r = r ≡ none

  -- A volume that the validation accepts is admissible: it has a name and at least 100 MiB, its pool
  -- is the first of that id or name and is active, the volume is within the pool's limit for a
  -- volume, with it the pool is within its own size, no other volume of the pool in the cluster has
  -- its name, and not both have QoS settings.
  pub validate_add_lvol_func-Admits :
      (id_or_name : Name)
      → validate_add_lvol_func name size id_or_name v db s ≡ none
      → Admits name size id_or_name v db s
  unfolding validate_add_lvol_func
  validate_add_lvol_func-Admits id_or_name =
      if-cases P (not (is_set name)) (λ _. ground arith)
        λ named.
          if-cases P (ltb_ℤ size min_size) (λ _. ground arith)
            λ large.
              option-cases P (find (is_called id_or_name) s.pools) (λ _. ground arith)
                λ pool called h. record {
                  named = ground arith;
                  large = ground arith;
                  pool = pool;
                  called = called;
                  fits = check_pool-Fits pool h;
                }
    where
      P : Option Refusal → Type 0
      P r = r ≡ none → Admits name size id_or_name v db s

  -- The validation accepts every volume that is admissible.
  pub Admits-validate_add_lvol_func :
      (id_or_name : Name)
      → Admits name size id_or_name v db s
      → validate_add_lvol_func name size id_or_name v db s ≡ none
  unfolding validate_add_lvol_func
  Admits-validate_add_lvol_func id_or_name a =
      if-cases P (not (is_set name)) (λ e. absurd (ground (arith, a.named)))
        λ _.
          if-cases P (ltb_ℤ size min_size) (λ e. absurd (ground (arith, a.large)))
            λ _. rw a.called (Fits-check_pool a.pool a.fits)
    where
      P : Option Refusal → Type 0
      P r = r ≡ none
