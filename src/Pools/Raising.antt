-- ===== src/Pools/Raising.antt =====
-- What set_pool and delete_pool do to the stored pools.
use sbcli.Prelude.{
  ℤ, negsuc, Bool, true, false, not, ◌&&◌, Option, none, some, ◌≡◌, ◌⊎◌, refl, sym, ◌||◌, arith,
  ◌==◌, ltb, ltb_ℤ, eqb_ℤ, any, length, is_some, ◌>>=◌, if◌then◌else◌, if-cases, option-cases,
  find-passes,
}
use sbcli.Model.{Name, is_set}
use sbcli.Volumes.{
  Limits, Pool, Store, write_pool, remove_pool, get_pool_by_id, get_pool_by_name,
  get_lvols_by_pool_id, is_inactive,
}
use sbcli.Pools.{
  has_name, update_value, update_limits, set_limits, set_pool, delete_pool, asks_for_qos,
  qos_exists_on_child_lvol, zero_ℤ,
}
use sbcli.Pools.Table.{find-put_pool}

-- A limit that is asked to be `v`: 0 keeps it, a larger one replaces it, -1 lifts it.
abbrev pub Raised : ℤ → ℤ → ℤ → Type 0
Raised v before after =
    ((eqb_ℤ v zero_ℤ ≡ true) × (after ≡ before))
    ⊎ ((ltb_ℤ before v ≡ true) × (after ≡ v))
    ⊎ ((eqb_ℤ v (negsuc 0) ≡ true) × (after ≡ zero_ℤ))

pub record AreRaised (v before after : Limits) : Type 0 where
  pub pool_max_size : Raised v.pool_max_size before.pool_max_size after.pool_max_size
  pub lvol_max_size : Raised v.lvol_max_size before.lvol_max_size after.lvol_max_size
  pub max_rw_ios_per_sec :
      Raised v.max_rw_ios_per_sec before.max_rw_ios_per_sec after.max_rw_ios_per_sec
  pub max_rw_mbytes_per_sec :
      Raised v.max_rw_mbytes_per_sec before.max_rw_mbytes_per_sec after.max_rw_mbytes_per_sec
  pub max_r_mbytes_per_sec :
      Raised v.max_r_mbytes_per_sec before.max_r_mbytes_per_sec after.max_r_mbytes_per_sec
  pub max_w_mbytes_per_sec :
      Raised v.max_w_mbytes_per_sec before.max_w_mbytes_per_sec after.max_w_mbytes_per_sec

update_value-Raised : (b v a : ℤ) → update_value b v ≡ some a → Raised v b a
update_value-Raised b v a h = ground arith

chained {ℓ κ} :
    {A : Type ℓ} {B : Type κ} (o : Option A) (f : A → Option B) (b : B)
    → (o >>= f) ≡ some b
    → (a : A) × (o ≡ some a) × (f a ≡ some b)
chained none f b h = cc
chained (some a) f b h = (a, refl, h)

some_inj {ℓ} : {A : Type ℓ} (a b : A) → some a ≡ some b → a ≡ b
some_inj a b h = cc

update_limits-AreRaised : (l v m : Limits) → update_limits l v ≡ some m → AreRaised v l m
unfolding update_limits
update_limits-AreRaised l v m h =
    let (a, ea, h1) = chained _ _ m h in
    let (b, eb, h2) = chained _ _ m h1 in
    let (c, ec, h3) = chained _ _ m h2 in
    let (d, ed, h4) = chained _ _ m h3 in
    let (e, ee, h5) = chained _ _ m h4 in
    let (f, ef, h6) = chained _ _ m h5 in
    let same = some_inj _ m h6 in
    record {
      pool_max_size = rw⁻¹ same (update_value-Raised l.pool_max_size v.pool_max_size a ea);
      lvol_max_size = rw⁻¹ same (update_value-Raised l.lvol_max_size v.lvol_max_size b eb);
      max_rw_ios_per_sec =
          rw⁻¹ same (update_value-Raised l.max_rw_ios_per_sec v.max_rw_ios_per_sec c ec);
      max_rw_mbytes_per_sec =
          rw⁻¹ same (update_value-Raised l.max_rw_mbytes_per_sec v.max_rw_mbytes_per_sec d ed);
      max_r_mbytes_per_sec =
          rw⁻¹ same (update_value-Raised l.max_r_mbytes_per_sec v.max_r_mbytes_per_sec e ee);
      max_w_mbytes_per_sec =
          rw⁻¹ same (update_value-Raised l.max_w_mbytes_per_sec v.max_w_mbytes_per_sec f ef);
    }

-- What set_pool comes to when it is asked for the limits `v` and the name `name` (0 for none).
pub record SetPool (id : Name) (v : Limits) (name : Name) (before : Store) (r : Bool × Store)
    : Type 0 where
  pub refused : r.0 ≡ false → r.1 ≡ before
  pub done :
      r.0 ≡ true
      → (p q : Pool) × (get_pool_by_id id before ≡ some p)
        × (is_inactive p.status ≡ false)
        × (get_pool_by_id id r.1 ≡ some q)
        × AreRaised v p.limits q.limits
        × (q.pool_name ≡ (if is_set name then name else p.pool_name))
        × ((asks_for_qos v && qos_exists_on_child_lvol id before) ≡ false)

module _ (accepted : Bool) (id : Name) (v : Limits) (name : Name) (s : Store) (p : Pool)
    (found : get_pool_by_id id s ≡ some p) (alive : is_inactive p.status ≡ false) where
  set_limits-SetPool :
      (renamed : Name)
      → renamed ≡ (if is_set name then name else p.pool_name)
      → SetPool id v name s (set_limits accepted v (record p { pool_name = renamed }) s)
  unfolding set_limits
  set_limits-SetPool renamed e =
      if-cases P (asks_for_qos v && qos_exists_on_child_lvol p.uuid s) (λ _. refusal)
        λ a.
          option-cases P (update_limits p.limits v) (λ _. refusal)
            λ l b.
              if-cases P (not accepted) (λ _. refusal)
                λ _. record {
                  refused = λ h. ground arith;
                  done = λ _. (
                    p,
                    record p { pool_name = renamed; limits = l },
                    found,
                    alive,
                    stored (record p { pool_name = renamed; limits = l }) key,
                    update_limits-AreRaised p.limits v l b,
                    e,
                    rw⁻¹ key a,
                  );
                }
    where
      P : Bool × Store → Type 0
      P r = SetPool id v name s r

      refusal : SetPool id v name s (false, s)
      refusal = record { refused = λ _. refl; done = λ h. ground arith }

      key : p.uuid ≡ id
      key = ground (arith, find-passes (λ (x : Pool). x.uuid == id) s.pools p found)

      stored : (q : Pool) → q.uuid ≡ id → get_pool_by_id id (write_pool q s) ≡ some q
      stored q k = rw⁻¹ k (find-put_pool q s.pools)

-- Where set_pool returns False nothing is stored. Where it returns True the pool was stored and
-- active; each limit asked for is the new one if it is larger than the old one, is lifted by -1, and
-- is kept by 0; the pool has the name asked for; and QoS limits are asked for only while no lvol of
-- the pool has its own.
pub set_pool-SetPool :
    (accepted : Bool) (id : Name) (v : Limits) (name : Name) (s : Store)
    → SetPool id v name s (set_pool accepted id v name s)
unfolding set_pool
set_pool-SetPool accepted id v name s =
    option-cases P (get_pool_by_id id s) (λ _. refusal)
      λ p found.
        if-cases P (is_inactive p.status) (λ _. refusal)
          λ alive.
            if-cases P (is_set name && not (name == p.pool_name))
              (λ e.
                if-cases P (any (has_name name) s.pools) (λ _. refusal)
                  (λ _. set_limits-SetPool accepted id v name s p found alive name (ground arith)))
              (λ e.
                set_limits-SetPool accepted id v name s p found alive p.pool_name (ground arith))
  where
    P : Bool × Store → Type 0
    P r = SetPool id v name s r

    refusal : SetPool id v name s (false, s)
    refusal = record { refused = λ _. refl; done = λ h. ground arith }

-- What the search for a text gives: a stored pool that is read at its own key, and the pool with just
-- this key if there is one, since its key comes first.
pub record Searches (lookup : Name → Store → Option Pool) : Type 0 where
  pub stored :
      (id : Name) (s : Store) (p : Pool) → lookup id s ≡ some p → get_pool_by_id p.uuid s ≡ some p
  pub exact :
      (id : Name) (s : Store) (p : Pool) → get_pool_by_id id s ≡ some p → lookup id s ≡ some p

-- What delete_pool comes to.
pub record DeletePool (lookup : Name → Store → Option Pool) (is_uuid : Bool) (id : Name) (s : Store)
    (r : Bool × Store) : Type 0 where
  pub refused : r.0 ≡ false → r.1 ≡ s
  pub done :
      r.0 ≡ true
      → (p : Pool) × ((lookup id s ≡ some p)
          × (get_pool_by_id p.uuid s ≡ some p)
          × (is_inactive p.status ≡ false)
          × (length (get_lvols_by_pool_id id s) ≡ 0)
          × (r.1 ≡ remove_pool p.uuid s))
  pub own :
      (p : Pool)
      → get_pool_by_id id s ≡ some p
      → is_uuid ≡ true
      → r ≡ (
          if is_inactive p.status || ltb 0 (length (get_lvols_by_pool_id id s))
          then (false, s)
          else (true, remove_pool id s))

-- For a uuid that is a key, delete_pool removes just this pool, exactly if the pool is active and no lvol is
-- in it, and else changes nothing. For any text a refusal changes nothing, and what is removed is the active
-- pool that the search for the text finds, where no lvol has the text as its pool's uuid.
pub delete_pool-DeletePool :
    (lookup : Name → Store → Option Pool) (is_uuid : Bool) (id : Name) (s : Store)
    → Searches lookup
    → DeletePool lookup is_uuid id s (delete_pool lookup is_uuid id s)
unfolding delete_pool
delete_pool-DeletePool lookup is_uuid id s finds = record {
  refused = outcome.0;
  done = outcome.1;
  own = λ p e u. rw (u, finds.exact id s p e, sym (key p e)) (ground arith);
}
  where
    Outcome : Bool × Store → Type 0
    Outcome r =
        (r.0 ≡ false → r.1 ≡ s)
        × (r.0 ≡ true
            → (p : Pool) × ((lookup id s ≡ some p)
                × (get_pool_by_id p.uuid s ≡ some p)
                × (is_inactive p.status ≡ false)
                × (length (get_lvols_by_pool_id id s) ≡ 0)
                × (r.1 ≡ remove_pool p.uuid s)))

    refusal : Outcome (false, s)
    refusal = (λ h. refl, λ h. absurd (ground arith))

    key : (p : Pool) → get_pool_by_id id s ≡ some p → p.uuid ≡ id
    key p e = ground (arith, find-passes (λ (x : Pool). x.uuid == id) s.pools p e)

    outcome : Outcome (delete_pool lookup is_uuid id s)
    outcome =
        if-cases Outcome (is_some (if is_uuid then lookup id s else get_pool_by_name id s))
          (λ _.
            option-cases Outcome (lookup id s) (λ _. refusal)
              λ pool e.
                if-cases Outcome (is_inactive pool.status) (λ _. refusal)
                  λ active.
                    if-cases Outcome (ltb 0 (length (get_lvols_by_pool_id id s))) (λ _. refusal)
                      λ f. (
                        λ h. absurd (ground arith),
                        λ h. (pool, (e, finds.stored id s pool e, active, ground (arith, f), refl)),
                      ))
          (λ _. refusal)
