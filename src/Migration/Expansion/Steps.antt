-- ===== src/Migration/Expansion/Steps.antt =====
-- What a run of the expansion runner does to its task.
use sbcli.Prelude.{not, some, arith, is_some, refl, if-cases, option-cases}
use sbcli.Model.{
  NodeStatus, node_eq, is_waiting, is_serving, Task, Node, Db, Message, JobStatus,
  get_cluster_by_id, get_storage_nodes_by_cluster_id, get_storage_node_by_id,
  get_storage_device_by_id,
}
use sbcli.Migration.{Run, Storage}
use sbcli.Migration.Follows.{Follows, Follows-after, poll-Follows}
use sbcli.Migration.Expansion.{start_and_poll, begin, task_runner, young_primary, scan_cluster}

module _ (s : Storage) (snode : Node) where
  start_and_poll-Follows : (t : Task) (db : Db) → Follows 1 t db (start_and_poll s snode t db)
  unfolding start_and_poll
  start_and_poll-Follows t db =
      if-cases P (is_some t.params.migration) (λ e. poll-Follows s _ t db e)
        λ _.
          if-cases P (not (scan_cluster t.cluster_id db).all_online_or_failed) (λ _. ground arith)
            λ _.
              option-cases P (get_storage_device_by_id t.device_id db) (λ _. ground arith)
                λ device _.
                  option-cases P t.params.distr_name (λ _. ground arith)
                    λ name _.
                      option-cases P (get_cluster_by_id snode.cluster_id db) (λ _. ground arith)
                        λ cluster _.
                          if-cases P (not s.started) (λ _. ground arith)
                            λ _.
                              Follows-after 1 t t.status t.result (some name) db _
                                (poll-Follows s _ _ _ refl)
    where
      P : Run → Type 0
      P = Follows 1 t db

  begin-Follows : (t : Task) (db : Db) → Follows 1 t db (begin s snode t db)
  unfolding begin
  begin-Follows t db =
      if-cases P (is_waiting t.status)
        (λ _.
          if-cases P (young_primary s.now (get_storage_nodes_by_cluster_id t.cluster_id db))
            (λ _. ground arith)
            (λ _.
              Follows-after 1 t JobStatus.running (Message.status_text JobStatus.running)
                t.params.migration db _ (start_and_poll-Follows _ _)))
        (λ _. start_and_poll-Follows t db)
    where
      P : Run → Type 0
      P = Follows 1 t db

-- Every run of the expansion runner keeps the identity of its task, adds at most one retry, and
-- changes no other task and no cluster.
pub expansion_runner-Follows :
    (s : Storage) (t : Task) (db : Db) → Follows 1 t db (task_runner s t db)
unfolding task_runner
expansion_runner-Follows s t db =
    option-cases P (get_storage_node_by_id t.node_id db) (λ _. ground arith)
      λ snode _.
        if-cases P t.canceled (λ _. ground arith)
          λ _.
            if-cases P (not (node_eq snode.status NodeStatus.online)) (λ _. ground arith)
              λ _.
                option-cases P (get_cluster_by_id t.cluster_id db) (λ _. ground arith)
                  λ cluster _.
                    if-cases P (not (is_serving cluster.status)) (λ _. ground arith)
                      λ _. begin-Follows s snode t db
  where
    P : Run → Type 0
    P = Follows 1 t db
