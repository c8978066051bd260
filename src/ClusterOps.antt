-- ===== src/ClusterOps.antt =====
-- cluster_expand of simplyblock_core/cluster_ops.py.
pub mod Turns
pub mod Expanded
use sbcli.Prelude.{
  Bool, true, false, not, ◌&&◌, ◌||◌, Option, none, some, List, [], ◌∷◌, is_some, if◌then◌else◌,
}
use sbcli.Model.{
  NodeStatus, ClusterStatus, LvstoreStatus, HaType, node_eq, cluster_eq, is_ha, Name, Node, Cluster,
  Db, is_set, get_storage_node_by_id, get_cluster_by_id, get_storage_nodes_by_cluster_id,
}
use sbcli.Devices.{write_node}
use sbcli.Monitor.{set_cluster_status}

-- What the rest of the program does: get_secondary_nodes and create_lvstore of
-- simplyblock_core/storage_node_ops.py, and whether the cluster has a capacity record.
pub record Means : Type 0 where
  pub partners : Node → Db → List Name
  pub create_lvstore : Node → Db → Bool × Db
  pub has_capacity : Bool

-- How the steps for one node end: with the next node, by a ValueError after the old status was set,
-- or by another exception.
pub data Step : Type 0 where
  continue too_few_nodes lvstore_failed broken : Step

-- From the call of create_lvstore on.
pub make_lvstore : Means → Node → Db → Step × Db
make_lvstore w n db =
    let (ok, x) = w.create_lvstore n db in
    elim (get_storage_node_by_id n.uuid x) [
      | none ↦ (Step.broken, x)
      | some m ↦
          if ok
          then (Step.continue, write_node (record m { lvstore_status = LvstoreStatus.ready }) x)
          else (
            Step.lvstore_failed,
            write_node (record m { lvstore_status = LvstoreStatus.other }) x,
          )
    ]

-- The node gets the secondary node `sec`.
pub pair_nodes : Means → Node → Name → Db → Step × Db
unfolding make_lvstore
pair_nodes w n sec db = elim (get_storage_node_by_id n.uuid db) [
  | none ↦ (Step.broken, db)
  | some m ↦
      let paired = record m { secondary_node_id = sec } in
      let x = write_node paired db in
      elim (get_storage_node_by_id sec x) [
        | none ↦ (Step.broken, x)
        | some k ↦
            make_lvstore w paired (write_node (record k { lvstore_stack_secondary_1 = n.uuid }) x)
      ]
]

-- The body of the loop over the nodes.
pub expand_node : Means → HaType → Node → Db → Step × Db
unfolding pair_nodes
expand_node w kind n db =
    if not (node_eq n.status NodeStatus.online) || is_set n.lvstore
    then (Step.continue, db)
    else if is_ha kind && not (is_set n.secondary_node_id)
    then elim (w.partners n db) [ [] ↦ (Step.too_few_nodes, db) | sec ∷ _ ↦ pair_nodes w n sec db ]
    else make_lvstore w n db

pub expand_nodes : Means → HaType → List Node → Db → Step × Db
unfolding expand_node
expand_nodes w kind [] db = (Step.continue, db)
expand_nodes w kind (n ∷ ns) db =
    let (step, x) = expand_node w kind n db in
    let rest = expand_nodes w kind ns x in
    elim step [
      | continue ↦ rest
      | too_few_nodes ↦ (Step.too_few_nodes, x)
      | lvstore_failed ↦ (Step.lvstore_failed, x)
      | broken ↦ (Step.broken, x)
    ]

-- How the function ends; `unexpected_status`, `not_enough` and `failed` are the ValueErrors.
pub data Expansion : Type 0 where
  expanded unexpected_status not_enough failed no_cluster no_capacity stopped : Expansion

abbrev pub can_expand : ClusterStatus → Bool
can_expand s =
    cluster_eq s ClusterStatus.active
    || cluster_eq s ClusterStatus.in_expansion
    || cluster_eq s ClusterStatus.readonly
    || cluster_eq s ClusterStatus.degraded

-- What follows the loop.
pub finish_expansion : Name → ClusterStatus → Step × Db → Expansion × Db
finish_expansion id old (step, x) = elim step [
  | continue ↦ (Expansion.expanded, (set_cluster_status id ClusterStatus.active x).1)
  | too_few_nodes ↦ (Expansion.not_enough, (set_cluster_status id old x).1)
  | lvstore_failed ↦ (Expansion.failed, (set_cluster_status id old x).1)
  | broken ↦ (Expansion.stopped, x)
]

-- cluster_expand
pub cluster_expand : Means → Name → Db → Expansion × Db
unfolding expand_nodes finish_expansion
cluster_expand w id db = elim (get_cluster_by_id id db) [
  | none ↦ (Expansion.no_cluster, db)
  | some c ↦
      if not (can_expand c.status)
      then (Expansion.unexpected_status, db)
      else (let x = (set_cluster_status id ClusterStatus.in_expansion db).1 in
          if not w.has_capacity
          then (Expansion.no_capacity, x)
          else finish_expansion id c.status
              (expand_nodes w c.ha_type (get_storage_nodes_by_cluster_id id x) x))
]
