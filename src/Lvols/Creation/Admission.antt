-- ===== src/Lvols/Creation/Admission.antt =====
-- What the checks before the creation of a volume come to.
use sbcli.Prelude.{
  ℕ, ◌+◌, returned, pos, false, not, ◌&&◌, ◌||◌, Option, none, some, List, [], ◌∷◌, ◌≡◌, arith, inl,
  inr, ltb, ◌==◌, find, any, length, if-cases, option-cases,
}
use sbcli.Model.{
  HaType, ClusterStatus, cluster_eq, Node, Cluster, Db, is_set, get_storage_node_by_id,
  get_storage_nodes_by_cluster_id, get_cluster_by_id,
}
use sbcli.Volumes.{Lvol, Pool, Store, get_lvols, get_lvols_by_node_id, get_lvol_by_id, write_lvol}
use sbcli.Volumes.Placement.{is_online}
use sbcli.Lvols.{is_called, validate_add_lvol_func}
use sbcli.Lvols.Choice.{get_next_3_nodes}
use sbcli.Lvols.Creation.{
  Request, Supplies, Added, refuses, new_uuid, keys_valid, create_on, create_hosted,
  create_in_cluster, create_validated, renamed, create_for, add_lvol_ha, max_size_of,
  online_devices, device_sizes, provisioned,
}
use sbcli.Lvols.Creation.Created.{
  Given, Hosts, given, chosen, Creates, renamed_stored, no, fails, create_on_nodes-Creates,
}

module _ (e : Supplies) (q : Request) (db : Db) (s : Store) where
  abbrev P : Added → Type 0
  P = Creates e q db s

  module _ (pool : Pool) (found : find (is_called q.pool) s.pools ≡ some pool)
      (is_new : get_lvol_by_id (new_uuid e q) s ≡ none) where
    module _ (valid : validate_add_lvol_func q.name (pos q.size) q.pool q.limits db s ≡ none) where
      create_on-Creates :
          (max_size : ℕ) (kind : HaType) (host : Node)
          → max_size_of e q ≡ some max_size
          → Hosts e q db s pool host
          → P (create_on e q max_size kind pool host db s)
      unfolding create_on
      create_on-Creates max_size kind host bound on =
          if-cases P (ltb host.max_lvol (length (get_lvols_by_node_id host.uuid s)))
            (λ _. no e q db s)
            λ room.
              if-cases P (not (keys_valid q.keys)) (λ _. no e q db s)
                (λ keys.
                  create_on_nodes-Creates e q db s pool host max_size kind found valid bound on room
                    (ground arith) is_new kind)

      create_hosted-Creates :
          (max_size : ℕ) (kind : HaType) (host : Option Node)
          → max_size_of e q ≡ some max_size
          → Given e q db host
          → elim host [ none ↦ false | some n ↦ not (is_online n) ] ≡ false
          → P (create_hosted e q max_size kind pool host db s)
      unfolding create_hosted
      create_hosted-Creates max_size kind (some host) bound asked online =
          create_on-Creates max_size kind host bound (given asked (ground arith))
      create_hosted-Creates max_size kind none bound asked online =
          option-cases P (get_next_3_nodes e.draws e.weights pool.cluster_id db s)
            (λ _. fails e q db s) first
        where
          first :
              (nodes : List Node)
              → get_next_3_nodes e.draws e.weights pool.cluster_id db s ≡ some nodes
              → P (elim nodes [
                | [] ↦ refuses s
                | host ∷ hosts ↦ create_on e q max_size kind pool host db s
              ])
          first [] h = no e q db s
          first (host ∷ hosts) h = create_on-Creates max_size kind host bound (chosen hosts asked h)

      create_in_cluster-Creates :
          (kind : HaType) (c : Cluster) (host : Option Node)
          → Given e q db host
          → P (create_in_cluster e q kind pool c host db s)
      unfolding create_in_cluster
      create_in_cluster-Creates kind c host asked =
          if-cases P (not (any is_online nodes)) (λ _. no e q db s)
            λ _.
              if-cases P (length (online_devices nodes) == 0) (λ _. no e q db s)
                λ _.
                  if-cases P (elim host [ none ↦ false | some n ↦ not (is_online n) ])
                    (λ _. no e q db s)
                    λ online.
                      if-cases P (total == 0) (λ _. fails e q db s)
                        λ _.
                          if-cases P
                            (not (c.prov_cap_crit == 0)
                              && ltb c.prov_cap_crit
                                  (e.percent (provisioned (get_lvols c.uuid db s) + q.size) total))
                            (λ _. no e q db s)
                            λ _.
                              option-cases P (max_size_of e q) (λ _. no e q db s)
                                λ max_size bound.
                                  create_hosted-Creates max_size kind host bound asked online
        where
          nodes : List Node
          nodes = get_storage_nodes_by_cluster_id c.uuid db

          total : ℕ
          total = device_sizes (online_devices nodes)

    create_validated-Creates :
        (c : Cluster) (host : Option Node)
        → Given e q db host
        → P (create_validated e q pool c host db s)
    unfolding create_validated
    create_validated-Creates c host asked =
        option-cases P (validate_add_lvol_func q.name (pos q.size) q.pool q.limits db s)
          (λ valid.
            create_in_cluster-Creates valid (elim q.ha_type [ none ↦ c.ha_type | some kind ↦ kind ])
              c host asked)
          (λ _ _. no e q db s)

  module _ (fresh : get_lvol_by_id e.uuid s ≡ none) where
    create_for-Creates : (host : Option Node) → Given e q db host → P (create_for e q host db s)
    unfolding create_for
    create_for-Creates host asked =
        option-cases P (find (is_called q.pool) s.pools) (λ _. no e q db s)
          λ pool found.
            option-cases P (get_cluster_by_id pool.cluster_id db) (λ _. fails e q db s)
              λ c _.
                if-cases P
                  (not (
                    cluster_eq c.status ClusterStatus.active
                    || cluster_eq c.status ClusterStatus.degraded))
                  (λ _. no e q db s)
                  (λ _.
                    if-cases (known pool c) (is_set q.uid)
                      (λ u.
                        option-cases P (get_lvol_by_id q.uid s)
                          (λ missing.
                            create_validated-Creates pool found (rw u missing) c host asked)
                          (λ l stored. renamed_stored l u stored))
                      (λ u. create_validated-Creates pool found (rw u fresh) c host asked))
      where
        known : Pool → Cluster → Option Lvol → Type 0
        known pool c o = P (elim o [
          | some l ↦ (returned (some q.uid), write_lvol (renamed q l) s)
          | none ↦ create_validated e q pool c host db s
        ])

pub add_lvol_ha-Creates :
    (e : Supplies) (q : Request) (db : Db) (s : Store)
    → get_lvol_by_id e.uuid s ≡ none
    → Creates e q db s (add_lvol_ha e q db s)
unfolding add_lvol_ha
add_lvol_ha-Creates e q db s fresh =
    if-cases Q (not (is_set q.host)) (λ h. create_for-Creates e q db s fresh none (ground arith))
      λ h.
        option-cases Q (get_storage_node_by_id q.host db)
          (λ missing.
            option-cases Q e.named (λ _. no e q db s)
              (λ host found.
                create_for-Creates e q db s fresh (some host) (ground arith, inr (missing, found))))
          (λ host found. create_for-Creates e q db s fresh (some host) (ground arith, inl found))
  where
    Q : Added → Type 0
    Q = Creates e q db s
