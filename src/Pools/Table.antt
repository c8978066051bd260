-- ===== src/Pools/Table.antt =====
-- Laws of the table of pools.
use sbcli.Prelude.{
  ℕ, ◌+◌, ◌≤◌, Bool, true, false, not, List, [], ◌∷◌, ◌≡◌, refl, arith, bit, ◌==◌, ltb, count, find,
  keep, any, some, none,
}
use sbcli.Model.{Name}
use sbcli.Volumes.{Pool, put_pool}
use sbcli.Pools.{max_numeric_id, generate_numeric_id}

-- A write adds one pool to a count at most.
pub count-put_pool :
    (f : Pool → Bool) (p : Pool) (ps : List Pool) → count f (put_pool p ps) ≤ bit (f p) + count f ps
count-put_pool f p [] = omega arith
count-put_pool f p (q ∷ qs) = ground (arith, count-put_pool f p qs)

-- A write of a stored pool exchanges it.
pub count-exchange :
    (f : Pool → Bool) (p q : Pool) (ps : List Pool)
    → find (λ x. x.uuid == p.uuid) ps ≡ some q
    → count f (put_pool p ps) + bit (f q) ≡ count f ps + bit (f p)
count-exchange f p q [] h = cc
count-exchange f p q (x ∷ xs) h = ground (arith, count-exchange f p q xs)

pub find-put_pool :
    (p : Pool) (ps : List Pool) → find (λ x. x.uuid == p.uuid) (put_pool p ps) ≡ some p
find-put_pool p [] = ground arith
find-put_pool p (q ∷ qs) = ground (arith, find-put_pool p qs)

pub count-keep : (f g : Pool → Bool) (ps : List Pool) → count f (keep g ps) ≤ count f ps
count-keep f g [] = omega arith
count-keep f g (p ∷ ps) = ground (arith, count-keep f g ps)

pub none-any : (f : Pool → Bool) (ps : List Pool) → any f ps ≡ false → count f ps ≡ 0
none-any f [] h = refl
none-any f (p ∷ ps) h = ground (arith, none-any f ps)

above-max :
    (k : ℕ) (ps : List Pool)
    → ltb (max_numeric_id ps) k ≡ true
    → count (λ p. p.numeric_id == k) ps ≡ 0
above-max k [] h = refl
above-max k (p ∷ ps) h = ground (arith, above-max k ps)

-- The numeric id of a new pool is in no pool.
pub generate_numeric_id-fresh :
    (ps : List Pool) → count (λ p. p.numeric_id == generate_numeric_id ps) ps ≡ 0
generate_numeric_id-fresh [] = refl
generate_numeric_id-fresh (p ∷ ps) = above-max (max_numeric_id (p ∷ ps) + 1) (p ∷ ps) (ground arith)

pub removed :
    (id : Name) (ps : List Pool)
    → find (λ p. p.uuid == id) (keep (λ p. not (p.uuid == id)) ps) ≡ none
removed id [] = refl
removed id (p ∷ ps) = ground (arith, removed id ps)

-- A write never makes a second pool with the same key.
pub put_pool-key :
    (p : Pool) (ps : List Pool) (u : Name)
    → count (λ x. x.uuid == u) ps ≤ 1
    → count (λ x. x.uuid == u) (put_pool p ps) ≤ 1
put_pool-key p [] u h = ground arith
put_pool-key p (q ∷ qs) u h = ground (arith, put_pool-key p qs u, none_put p qs u)
  where
    none_put :
        (p : Pool) (ps : List Pool) (u : Name)
        → count (λ x. x.uuid == u) ps ≡ 0
        → (p.uuid == u) ≡ false
        → count (λ x. x.uuid == u) (put_pool p ps) ≡ 0
    none_put p [] u h e = ground arith
    none_put p (q ∷ qs) u h e = ground (arith, none_put p qs u)
