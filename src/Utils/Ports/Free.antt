-- ===== src/Utils/Ports/Free.antt =====
-- The ports that the searches return are free, and the searches end.
use sbcli.Prelude.{
  ℕ, suc, zero, ◌+◌, ◌≤◌, ◌<◌, ◌≢◌, Bool, true, false, none, some, List, [], ◌∷◌, ◌≡◌, arith, ltb,
  leb, ◌==◌, contains, keep, map, length, count, bit, All, Bool-cases, Option-cases, inl, inr,
  option-cases,
}
use sbcli.Model.{Name, Node, Db, get_storage_nodes_by_cluster_id}
use sbcli.Utils.Ports.{
  first_free, used_ports, search, get_next_port, get_next_dev_port, next_free_hublvol_port,
  get_next_rpc_port, lvol_nvmf_port_start, node_nvmf_port_start, node_hublvol_port_start,
  hublvol_port,
}

-- `p` is the first number from `start` on that is not in use.
pub record IsFirstFree (start : ℕ) (used : List ℕ) (p : ℕ) : Type 0 where
  pub low : start ≤ p
  pub free : contains used p ≡ false
  pub taken : (q : ℕ) → start ≤ q → q < p → contains used q ≡ true

first_free-IsFirstFree :
    (fuel start : ℕ) (used : List ℕ) (p : ℕ)
    → first_free fuel start used ≡ some p
    → IsFirstFree start used p
unfolding first_free
first_free-IsFirstFree zero start used p h = ground arith
first_free-IsFirstFree (suc fuel) start used p h = elim (Bool-cases (contains used start)) [
  | inr e ↦ record { low = ground arith; free = ground arith; taken = λ q a b. ground arith }
  | inl e ↦
      (let r = first_free-IsFirstFree fuel (start + 1) used p (ground arith) in
        record {
          low = omega (arith, r.low);
          free = r.free;
          taken = λ q a b. elim (Bool-cases (start == q)) [
            | inl f ↦ ground arith
            | inr f ↦ r.taken q (ground arith) b
          ];
        })
]

-- the ports in use from `next` on get fewer when the next one is in use
count-drops :
    (next : ℕ) (used : List ℕ)
    → bit (contains used next) + count (leb (next + 1)) used ≤ count (leb next) used
count-drops next [] = omega arith
count-drops next (u ∷ us) = ground (arith, count-drops next us)

first_free-returns :
    (fuel next : ℕ) (used : List ℕ)
    → count (leb next) used < fuel
    → first_free fuel next used ≢ none
unfolding first_free
first_free-returns zero next used h = ground arith
first_free-returns (suc fuel) next used h =
    ground (arith, count-drops next used, first_free-returns fuel (next + 1) used)

count-length : (p : ℕ → Bool) (xs : List ℕ) → count p xs ≤ length xs
count-length p [] = omega arith
count-length p (x ∷ xs) = ground (arith, count-length p xs)

pub search-returns :
    (start : ℕ) (used : List ℕ) → (p : ℕ) × (search start used ≡ some p) × IsFirstFree start used p
unfolding search
search-returns start used = elim (Option-cases (search start used)) [
  | inl e ↦ absurd (
      first_free-returns (suc (length used)) start used
        (omega (arith, count-length (leb start) used)) e)
  | inr (p, e) ↦ (p, e, first_free-IsFirstFree (suc (length used)) start used p e)
]

unused :
    (port : Node → ℕ) (p : ℕ) (ns : List Node)
    → 0 < p
    → contains (keep (λ q. ltb 0 q) (map port ns)) p ≡ false
    → All (λ n. port n ≢ p) ns
unused port p [] a h = tt
unused port p (n ∷ ns) a h = (λ e. ground arith, unused port p ns a (ground arith))

-- `p` is the first number from `start` on that is the port of no node of the cluster.
pub record IsNewPort (start : ℕ) (port : Node → ℕ) (cluster : Name) (db : Db) (p : ℕ) : Type 0 where
  pub first : IsFirstFree start (used_ports port cluster db) p
  pub fresh : All (λ n. port n ≢ p) (get_storage_nodes_by_cluster_id cluster db)

search-IsNewPort :
    (start : ℕ) (port : Node → ℕ) (cluster : Name) (db : Db)
    → 0 < start
    → (p : ℕ) × (search start (used_ports port cluster db) ≡ some p)
      × IsNewPort start port cluster db p
search-IsNewPort start port cluster db a =
    let (p, e, r) = search-returns start (used_ports port cluster db) in
    (
      p,
      e,
      record {
        first = r;
        fresh =
            unused port p (get_storage_nodes_by_cluster_id cluster db) (omega (arith, a, r.low))
              r.free;
      },
    )

-- The search for the subsystem port of a new node ends, with the first port from
-- LVOL_NVMF_PORT_START on that no node of the cluster has.
pub get_next_port-IsNewPort :
    (cluster : Name) (db : Db)
    → (p : ℕ) × (get_next_port cluster db ≡ some p)
      × IsNewPort lvol_nvmf_port_start (λ n. n.lvol_subsys_port) cluster db p
unfolding get_next_port
get_next_port-IsNewPort cluster db =
    search-IsNewPort 9100 (λ n. n.lvol_subsys_port) cluster db (omega arith)

-- The search for the device port of a new node ends, with the first port from NODE_NVMF_PORT_START
-- on that no node of the cluster has.
pub get_next_dev_port-IsNewPort :
    (cluster : Name) (db : Db)
    → (p : ℕ) × (get_next_dev_port cluster db ≡ some p)
      × IsNewPort node_nvmf_port_start (λ n. n.nvmf_port) cluster db p
unfolding get_next_dev_port
get_next_dev_port-IsNewPort cluster db =
    search-IsNewPort 9060 (λ n. n.nvmf_port) cluster db (omega arith)

-- The search for the hublvol port of a node ends, with the first port from
-- NODE_HUBLVOL_PORT_START on that no hublvol of the cluster has.
pub next_free_hublvol_port-IsNewPort :
    (cluster : Name) (db : Db)
    → (p : ℕ) × (next_free_hublvol_port cluster db ≡ some p)
      × IsNewPort node_hublvol_port_start hublvol_port cluster db p
unfolding next_free_hublvol_port
next_free_hublvol_port-IsNewPort cluster db =
    search-IsNewPort 9030 hublvol_port cluster db (omega arith)

-- With fewer than 1000 nodes in the cluster the RPC port of a new node is the first one from 8080 on
-- that no node has, and not 0.
pub get_next_rpc_port-IsNewPort :
    (cluster : Name) (db : Db)
    → length (get_storage_nodes_by_cluster_id cluster db) < 1000
    → IsNewPort 8080 (λ n. n.rpc_port) cluster db (get_next_rpc_port cluster db)
unfolding get_next_rpc_port
get_next_rpc_port-IsNewPort cluster db h =
    option-cases (IsNewPort 8080 (λ n. n.rpc_port) cluster db) (first_free 1000 8080 used)
      (λ e. absurd (
        first_free-returns 1000 8080 used
          (omega (
            arith,
            h,
            count-length (leb 8080) used,
            fewer (get_storage_nodes_by_cluster_id cluster db),
          ))
          e))
      (λ p e. is_new p (first_free-IsFirstFree 1000 8080 used p e))
  where
    used : List ℕ
    used = used_ports (λ n. n.rpc_port) cluster db

    fewer :
        (ns : List Node)
        → length (keep (λ q. ltb 0 q) (map (λ (n : Node). n.rpc_port) ns)) ≤ length ns
    fewer [] = omega arith
    fewer (n ∷ ns) = ground (arith, fewer ns)

    is_new : (p : ℕ) → IsFirstFree 8080 used p → IsNewPort 8080 (λ n. n.rpc_port) cluster db p
    is_new p r = record {
      first = r;
      fresh =
          unused (λ n. n.rpc_port) p (get_storage_nodes_by_cluster_id cluster db)
            (omega (arith, r.low)) r.free;
    }
