-- ===== src/Lvols/Choice.antt =====
-- The choice of the nodes for a new volume: _get_next_3_nodes of
-- simplyblock_core/controllers/lvol_controller.py. The weights of the nodes are an argument, since
-- get_weights of simplyblock_core/utils computes them with floating-point numbers.
pub mod Chosen
use sbcli.Prelude.{
  ℕ, zero, suc, ◌+◌, Bool, not, ◌&&◌, Option, none, some, List, [], ◌∷◌, ltb, leb, ◌==◌,
  if◌then◌else◌, keep, length,
}
use sbcli.Prelude.Table.{remove}
use sbcli.Model.{NodeStatus, node_eq, Name, Node, Db, get_storage_nodes_by_cluster_id}
use sbcli.Volumes.{Store, get_lvols_by_node_id}

abbrev pub node_key : Node → ℕ
node_key n = n.uuid

-- The nodes of online_nodes.
abbrev pub is_eligible : Store → Node → Bool
is_eligible s n =
    not n.is_secondary
    && node_eq n.status NodeStatus.online
    && ltb (length (get_lvols_by_node_id n.uuid s)) n.max_lvol

-- n_start after the loop that builds the ranges.
abbrev pub total_weight : (Node → ℕ) → List Node → ℕ
total_weight w [] = 0
total_weight w (n ∷ ns) = w n + total_weight w ns

-- The first range that has the index, both its ends included.
abbrev pub hit : (Node → ℕ) → ℕ → ℕ → List Node → Option Node
hit w start index [] = none
hit w start index (n ∷ ns) =
    let rest = hit w (start + w n) index ns in
    if leb start index && leb index (start + w n) then some n else rest

-- random.randint(0, n), a function of n for each call.
abbrev pub Draw : Type 0
Draw = ℕ → ℕ

-- The loop that selects `k` more of the nodes that are left; `none` if it goes on after the draws.
pub select : List Draw → ℕ → (Node → ℕ) → List Node → Option (List Node)
select draws zero w ns = some []
select [] (suc k) w ns = none
select (draw ∷ draws) (suc k) w ns = elim (hit w 0 (draw (total_weight w ns)) ns) [
  | none ↦ select draws (suc k) w ns
  | some n ↦ elim (select draws k w (remove node_key n.uuid ns)) [
    | none ↦ none
    | some rest ↦ some (n ∷ rest)
  ]
]

-- min(n, 3)
abbrev pub at_most_3 : ℕ → ℕ
at_most_3 n = if leb n 3 then n else 3

-- _get_next_3_nodes
pub get_next_3_nodes : List Draw → (Node → ℕ) → Name → Db → Store → Option (List Node)
unfolding select
get_next_3_nodes draws w cluster db s =
    let online_nodes = keep (is_eligible s) (get_storage_nodes_by_cluster_id cluster db) in
    if leb (length online_nodes) 1
    then some online_nodes
    else select draws (at_most_3 (length online_nodes)) w online_nodes
