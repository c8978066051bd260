-- ===== src/Orders.antt =====
-- The order of a new device and the label of a new host: get_next_cluster_device_order and
-- get_next_physical_device_order of simplyblock_core/storage_node_ops.py.
pub mod Fresh
use sbcli.Prelude.{
  ℕ, ◌+◌, ℤ, pos, pos_part, ltb_ℤ, negsuc, ◌-◌, Bool, true, false, Option, none, some, List, [],
  ◌∷◌, ltb, ◌==◌, if◌then◌else◌, contains,
}
use sbcli.Model.{Name, Device, Node, Db, get_storage_nodes_by_cluster_id}
use sbcli.Utils.Ports.{search}

-- max(max_order, dev.cluster_device_order)
abbrev pub max_ℤ : ℤ → ℤ → ℤ
max_ℤ a b = if ltb_ℤ a b then b else a

abbrev pub succ_ℤ : ℤ → ℤ
succ_ℤ (pos n) = pos (n + 1)
succ_ℤ (negsuc n) = if n == 0 then pos 0 else negsuc (n - 1)

-- `found` and `max_order` after the inner loop; `none` is a loop that has found nothing.
abbrev pub max_of_devices : List Device → Option ℤ → Option ℤ
max_of_devices [] m = m
max_of_devices (d ∷ ds) m =
    max_of_devices ds (some (max_ℤ (elim m [ none ↦ pos 0 | some x ↦ x ]) d.order))

abbrev pub max_of_nodes : List Node → Option ℤ → Option ℤ
max_of_nodes [] m = m
max_of_nodes (n ∷ ns) m = max_of_nodes ns (max_of_devices n.devices m)

pub get_next_cluster_device_order : Name → Db → ℤ
get_next_cluster_device_order cluster db =
    elim (max_of_nodes (get_storage_nodes_by_cluster_id cluster db) none) [
      | none ↦ pos 0
      | some m ↦ succ_ℤ m
    ]

-- The loop over the nodes: the label of the host, or the labels of the other hosts in use.
pub data Labels : Type 0 where
  own : ℕ → Labels
  used : List ℕ → Labels

abbrev pub scan_labels : Name → List Node → List ℕ → Labels
scan_labels ip [] ls = used ls
scan_labels ip (n ∷ ns) ls =
    let skipped = scan_labels ip ns ls in
    let next = scan_labels ip ns (n.physical_label ∷ ls) in
    if ltb 0 n.physical_label
    then (if n.mgmt_ip == ip then own n.physical_label else next)
    else skipped

-- `while next_label in used_labels`, from 1 on
pub get_next_physical_device_order : Node → Db → Option ℕ
get_next_physical_device_order snode db =
    elim (scan_labels snode.mgmt_ip (get_storage_nodes_by_cluster_id snode.cluster_id db) []) [
      | own l ↦ some l
      | used ls ↦ search 1 ls
    ]
