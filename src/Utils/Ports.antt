-- ===== src/Utils/Ports.antt =====
-- The next free port of a cluster: get_next_port and its relatives in simplyblock_core/utils.
pub mod Free
use sbcli.Prelude.{
  ℕ, suc, zero, ◌+◌, Bool, Option, none, some, List, [], ◌∷◌, ltb, if◌then◌else◌, contains, keep,
  map, length,
}
use sbcli.Model.{Name, Node, Db, get_storage_nodes_by_cluster_id}

-- The search for the first number from `next` on that is not in use; `none` when the fuel is spent.
pub first_free : (fuel : ℕ) → ℕ → List ℕ → Option ℕ
first_free zero next used = none
first_free (suc fuel) next used =
    let rest = first_free fuel (next + 1) used in if contains used next then rest else some next

-- `if port > 0: used_ports.append(port)`, for every storage node of the cluster.
abbrev pub used_ports : (Node → ℕ) → Name → Db → List ℕ
used_ports port cluster db =
    keep (λ p. ltb 0 p) (map port (get_storage_nodes_by_cluster_id cluster db))

-- The search without a bound, `while True`: one more step than there are ports is enough.
pub search : ℕ → List ℕ → Option ℕ
unfolding first_free
search start used = first_free (suc (length used)) start used

-- LVOL_NVMF_PORT_START, NODE_NVMF_PORT_START and NODE_HUBLVOL_PORT_START of constants.py
abbrev pub lvol_nvmf_port_start : ℕ
lvol_nvmf_port_start = 9100

abbrev pub node_nvmf_port_start : ℕ
node_nvmf_port_start = 9060

abbrev pub node_hublvol_port_start : ℕ
node_hublvol_port_start = 9030

pub get_next_port : Name → Db → Option ℕ
unfolding search
get_next_port cluster db =
    search lvol_nvmf_port_start (used_ports (λ n. n.lvol_subsys_port) cluster db)

pub get_next_dev_port : Name → Db → Option ℕ
unfolding search
get_next_dev_port cluster db =
    search node_nvmf_port_start (used_ports (λ n. n.nvmf_port) cluster db)

-- A node without a hublvol uses no port, as one at port 0.
abbrev pub hublvol_port : Node → ℕ
hublvol_port n = elim n.hublvol_port [ none ↦ 0 | some p ↦ p ]

pub next_free_hublvol_port : Name → Db → Option ℕ
unfolding search
next_free_hublvol_port cluster db =
    search node_hublvol_port_start (used_ports hublvol_port cluster db)

-- `for i in range(1000)`, and 0 after it.
pub get_next_rpc_port : Name → Db → ℕ
unfolding first_free
get_next_rpc_port cluster db =
    elim (first_free 1000 8080 (used_ports (λ n. n.rpc_port) cluster db)) [ none ↦ 0 | some p ↦ p ]
