-- ===== src/Lvols/Creation/Created.antt =====
-- What the creation of a volume comes to.
use sbcli.Prelude.{
  ℕ, pos, Bool, true, false, not, ◌&&◌, Option, none, some, List, ◌∷◌, ◌≡◌, ◌≢◌, ◌⊎◌, inl, inr, ◌∙◌,
  ap, refl, arith, ltb, find, length, is_some, if◌then◌else◌, if-cases, option-cases, Result,
  returned, raised,
}
use sbcli.Prelude.Table.{get-put, put-put, remove-put, remove_absent}
use sbcli.Model.{HaType, Name, Node, Db, is_set, get_storage_node_by_id}
use sbcli.Volumes.{
  LvolStatus, Limits, Lvol, Pool, Store, lvol_key, is_inactive, get_lvols_by_node_id,
  get_pool_by_id, get_lvol_by_id, put_lvol, write_lvol, remove_lvol,
}
use sbcli.Volumes.Placement.{Placement, placed, secondary_down, both_offline, place, is_online}
use sbcli.Lvols.{is_called, pool_has_qos, wants_qos, validate_add_lvol_func}
use sbcli.Lvols.Choice.{get_next_3_nodes}
use sbcli.Lvols.Qos.{Set, limited, set_lvol}
use sbcli.Lvols.Creation.{
  Request, Supplies, Added, refuses, new_uuid, finish_qos, finish_lvol, create_on_pair,
  create_on_nodes, new_lvol, keys_valid, renamed, max_size_of,
}

-- The host that the call gives: the stored node of the id, else the node of the name.
abbrev pub Given : Supplies → Request → Db → Option Node → Type 0
Given e q db none = is_set q.host ≡ false
Given e q db (some host) =
    (is_set q.host ≡ true)
    × ((get_storage_node_by_id q.host db ≡ some host)
        ⊎ ((get_storage_node_by_id q.host db ≡ none) × (e.named ≡ some host)))

-- The host of the new volume: an online one that is given, or the first of those chosen.
pub data Hosts (e : Supplies) (q : Request) (db : Db) (s : Store) (pool : Pool)
    : Node → Type 0 where
  given :
      {host : Node} → Given e q db (some host) → is_online host ≡ true → Hosts e q db s pool host
  chosen :
      {host : Node} (hosts : List Node)
      → Given e q db none
      → get_next_3_nodes e.draws e.weights pool.cluster_id db s ≡ some (host ∷ hosts)
      → Hosts e q db s pool host

-- The new volume as the creation leaves it.
pub record IsNew (e : Supplies) (q : Request) (pool : Pool) (host : Node) (l : Lvol) : Type 0 where
  pub uuid : l.uuid ≡ new_uuid e q
  pub online : l.status ≡ LvolStatus.online
  pub name : l.lvol_name ≡ q.name
  pub size : l.size ≡ q.size
  pub max_size : max_size_of e q ≡ some l.max_size
  pub in_pool : l.pool_uuid ≡ pool.uuid
  pub on_host : l.node_id ≡ host.uuid

-- The outcomes of the creation of a volume.
pub data Creates (e : Supplies) (q : Request) (db : Db) (s : Store) : Added → Type 0 where
  refused :
      {reply : Result (Option Name)} {s' : Store}
      → reply ≢ returned (some (new_uuid e q))
      → s' ≡ s
      → Creates e q db s (reply, s')
  renamed_stored :
      (l : Lvol)
      → is_set q.uid ≡ true
      → get_lvol_by_id q.uid s ≡ some l
      → Creates e q db s (returned (some q.uid), write_lvol (renamed q l) s)
  left_behind :
      {s' : Store} (l : Lvol)
      → l.uuid ≡ new_uuid e q
      → l.status ≡ LvolStatus.in_creation
      → s' ≡ write_lvol l s
      → Creates e q db s (raised, s')
  created :
      {reply : Result (Option Name)} {s' : Store} (pool : Pool) (host : Node) (l : Lvol)
      → reply ≢ returned none
      → find (is_called q.pool) s.pools ≡ some pool
      → validate_add_lvol_func q.name (pos q.size) q.pool q.limits db s ≡ none
      → Hosts e q db s pool host
      → ltb host.max_lvol (length (get_lvols_by_node_id host.uuid s)) ≡ false
      → keys_valid q.keys ≡ true
      → IsNew e q pool host l
      → s' ≡ write_lvol l s
      → Creates e q db s (reply, s')

-- A stored volume is left as it is or gets the limits.
set_lvol-Limits :
    (accepts : Bool) (l : Lvol) (v : Limits) (name : Name) (db : Db) (s : Store)
    → get_lvol_by_id l.uuid s ≡ some l
    → ((set_lvol accepts l.uuid v name db s).1 ≡ s)
      ⊎ ((set_lvol accepts l.uuid v name db s).1 ≡ write_lvol (limited v name l) s)
unfolding set_lvol
set_lvol-Limits accepts l v name db s stored =
    rw (stored, set_lvol)
      (option-cases P (get_pool_by_id l.pool_uuid s) (λ _. inl refl)
        λ pool _.
          if-cases P (is_inactive pool.status) (λ _. inl refl)
            λ _.
              if-cases P (pool_has_qos pool) (λ _. inl refl)
                λ _.
                  option-cases P (get_storage_node_by_id l.node_id db) (λ _. inl refl)
                    λ snode _.
                      if-cases P (not accepts) (λ _. inl refl)
                        λ _.
                          if-cases P
                            (is_set snode.secondary_node_id
                              && not (is_some (get_storage_node_by_id snode.secondary_node_id db)))
                            (λ _. inl refl) (λ _. inr refl))
  where
    P : Set → Type 0
    P r = (r.1 ≡ s) ⊎ (r.1 ≡ write_lvol (limited v name l) s)

module _ (e : Supplies) (q : Request) (db : Db) (s : Store) where
  abbrev P : Added → Type 0
  P = Creates e q db s

  pub no : P (refuses s)
  no = refused (λ f. ground arith) refl

  pub fails : P (raised, s)
  fails = refused (λ f. ground arith) refl

  module _ (pool : Pool) (host : Node) (max_size : ℕ) (kind : HaType)
      (found : find (is_called q.pool) s.pools ≡ some pool)
      (valid : validate_add_lvol_func q.name (pos q.size) q.pool q.limits db s ≡ none)
      (bound : max_size_of e q ≡ some max_size) (on : Hosts e q db s pool host)
      (room : ltb host.max_lvol (length (get_lvols_by_node_id host.uuid s)) ≡ false)
      (keys : keys_valid q.keys ≡ true) (is_new : get_lvol_by_id (new_uuid e q) s ≡ none) where
    abbrev l : Lvol
    l = new_lvol (new_uuid e q) q max_size kind host

    abbrev live : Lvol
    live = record l { pool_uuid = pool.uuid; status = LvolStatus.online }

    abbrev begun : Store
    begun = write_lvol l s

    done :
        {reply : Result (Option Name)} {s' : Store} (m : Lvol)
        → reply ≢ returned none
        → IsNew e q pool host m
        → s' ≡ write_lvol m s
        → P (reply, s')
    done m replied new h = created pool host m replied found valid on room keys new h

    again : (a b : Lvol) → a.uuid ≡ b.uuid → write_lvol b (write_lvol a s) ≡ write_lvol b s
    again a b h = ap (λ ls. record s { lvols = ls }) (put-put lvol_key a b s.lvols h)

    live-IsNew : IsNew e q pool host live
    live-IsNew = record {
      uuid = refl;
      online = refl;
      name = refl;
      size = refl;
      max_size = bound;
      in_pool = refl;
      on_host = refl;
    }

    limited-IsNew : IsNew e q pool host (limited q.limits 0 live)
    limited-IsNew = record {
      uuid = refl;
      online = refl;
      name = refl;
      size = refl;
      max_size = bound;
      in_pool = refl;
      on_host = refl;
    }

    finished :
        {reply : Result (Option Name)} {s' : Store}
        → reply ≢ returned none
        → (s' ≡ write_lvol live begun)
          ⊎ (s' ≡ write_lvol (limited q.limits 0 live) (write_lvol live begun))
        → P (reply, s')
    finished replied (inl h) = done live replied live-IsNew (h ∙ again l live refl)
    finished replied (inr h) = done (limited q.limits 0 live) replied limited-IsNew (
        h
        ∙ ap (write_lvol (limited q.limits 0 live)) (again l live refl)
        ∙ again live (limited q.limits 0 live) refl)

    finish_lvol-Creates : P (finish_lvol e q pool l db begun)
    unfolding finish_lvol finish_qos
    finish_lvol-Creates =
        if-cases P (wants_qos q.limits)
          (λ _. limits (set_lvol e.accepts l.uuid q.limits 0 db (write_lvol live begun)) (
            set_lvol-Limits e.accepts live q.limits 0 db (write_lvol live begun)
              (get-put lvol_key live (put_lvol l s.lvols))))
          (λ _. finished (λ f. ground arith) (inl refl))
      where
        limits :
            (r : Set)
            → (r.1 ≡ write_lvol live begun)
              ⊎ (r.1 ≡ write_lvol (limited q.limits 0 live) (write_lvol live begun))
            → P (
                let (reply, t) = r in
                elim reply [ raised ↦ (raised, t) | returned _ ↦ (returned (some l.uuid), t) ])
        limits (raised, t) h = finished (λ f. ground arith) h
        limits (returned b, t) h = finished (λ f. ground arith) h

    removed : P (refuses (remove_lvol l.uuid begun))
    removed =
        refused (λ f. ground arith)
          (ap (λ ls. record s { lvols = ls })
            (remove-put lvol_key (new_uuid e q) l s.lvols refl
              ∙ remove_absent lvol_key (new_uuid e q) s.lvols is_new))

    placed-Creates :
        (p : Placement)
        → P (elim p [
          | secondary_down ↦ refuses (remove_lvol l.uuid begun)
          | both_offline ↦ refuses (remove_lvol l.uuid begun)
          | placed primary second ↦
              if e.creates primary.uuid && elim second [ none ↦ true | some n ↦ e.creates n.uuid ]
              then finish_lvol e q pool l db begun
              else refuses (remove_lvol l.uuid begun)
        ])
    placed-Creates secondary_down = removed
    placed-Creates both_offline = removed
    placed-Creates (placed primary second) =
        if-cases P
          (e.creates primary.uuid && elim second [ none ↦ true | some n ↦ e.creates n.uuid ])
          (λ _. finish_lvol-Creates) (λ _. removed)

    pub create_on_nodes-Creates : (t : HaType) → P (create_on_nodes t e q pool l host db begun)
    unfolding create_on_nodes create_on_pair
    create_on_nodes-Creates HaType.single =
        if-cases P (is_online host && e.creates host.uuid) (λ _. finish_lvol-Creates) (λ _. removed)
    create_on_nodes-Creates HaType.ha =
        option-cases P (get_storage_node_by_id host.secondary_node_id db)
          (λ _. left_behind l refl refl refl) λ sec _. placed-Creates (place e.leads host sec)
    create_on_nodes-Creates HaType.other = finish_lvol-Creates
