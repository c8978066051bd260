-- ===== src/Migration/Failed/Steps.antt =====
-- What a run of the failed-device runner does to its task.
use sbcli.Prelude.{
  inl, inr, ap, ◌∙◌, raised, returned, ◌&&◌, true, not, some, [], ◌≡◌, arith, is_some, refl,
  if-cases, option-cases, result-cases,
}
use sbcli.Model.{
  put_task, NodeStatus, node_eq, job_eq, is_waiting, is_serving, Task, Node, Db, JobStatus,
  get_cluster_by_id, get_storage_nodes_by_cluster_id, get_storage_node_by_id,
  get_storage_device_by_id,
}
use sbcli.Model.Keys.{put-put}
use sbcli.TaskQueries.{get_new_device_mig_task_for_device, get_failed_device_mig_task}
use sbcli.Devices.{device_set_failed_and_migrated}
use sbcli.Devices.Frame.{failed_and_migrated-frame}
use sbcli.Migration.{Run, Storage, poll_failed, handle_task_result}
use sbcli.Migration.Follows.{
  Follows-weaken, Follows, Follows-after, Follows-settled, handle_task_result-Follows,
  handle_task_result-returns, poll_failed-Follows,
}
use sbcli.Migration.Failed.{
  poll_and_settle, start_and_poll, run_checks, begin, task_runner, young_node,
}

-- The run of the last `try` whose device could not be set, behind a handled reply.
settle_failed-Follows :
    (t : Task) (db : Db) (r : Run) (after : Db)
    → Follows 1 t db r
    → after.tasks ≡ r.db.tasks
    → after.clusters ≡ r.db.clusters
    → Follows 2 t db (poll_failed r.task after)
settle_failed-Follows t db r after f same same_clusters = record {
  uuid = f.uuid;
  cluster_id = f.cluster_id;
  date = f.date;
  node_id = f.node_id;
  device_id = f.device_id;
  function_name = f.function_name;
  distr_name = f.distr_name;
  canceled = f.canceled;
  sub_tasks = f.sub_tasks;
  retry_low = omega (arith, f.retry_low);
  retry_high = omega (arith, f.retry_high);
  stored = inl (elim f.stored [
    | inl e ↦ rw (same ∙ e) (put-put _ r.task db.tasks (ground arith))
    | inr both ↦ ap (put_task _) (same ∙ both.0)
  ]);
  clusters = same_clusters ∙ f.clusters;
}

settle : Run → Run
settle r =
    let (settled, db') = device_set_failed_and_migrated r.task.device_id r.db in
    elim settled [ raised ↦ poll_failed r.task db' | returned _ ↦ record r { db = db' } ]

settle-Follows : (t : Task) (db : Db) (r : Run) → Follows 1 t db r → Follows 2 t db (settle r)
unfolding settle
settle-Follows t db r f =
    result-cases (Follows 2 t db) (device_set_failed_and_migrated r.task.device_id r.db).0
      (λ _. settle_failed-Follows t db r _ f frame.0 frame.1)
      (λ _ _. Follows-settled 2 t db r _ (Follows-weaken t db r f) frame.0 frame.1)
  where
    frame :
        ((device_set_failed_and_migrated r.task.device_id r.db).1.tasks ≡ r.db.tasks)
        × ((device_set_failed_and_migrated r.task.device_id r.db).1.clusters ≡ r.db.clusters)
    frame = failed_and_migrated-frame r.task.device_id r.db

module _ (s : Storage) where
  poll_and_settle-Follows :
      (t : Task) (db : Db)
      → is_some t.params.migration ≡ true
      → Follows 2 t db (poll_and_settle s t db)
  unfolding poll_and_settle settle
  poll_and_settle-Follows t db h =
      result-cases P s.migration_status (λ _. Follows-weaken t db _ (poll_failed-Follows t db))
        λ info _.
          result-cases P (handle_task_result [] t info db).reply
            (λ e. absurd (handle_task_result-returns [] t info db h e))
            λ out _.
              if-cases P (is_some (get_failed_device_mig_task _ _ _))
                (λ _. Follows-weaken t db _ (handle_task_result-Follows [] t info db h))
                λ _.
                  settle-Follows t db (handle_task_result [] t info db)
                    (handle_task_result-Follows [] t info db h)
    where
      P : Run → Type 0
      P = Follows 2 t db

  module _ (snode : Node) where
    start_and_poll-Follows : (t : Task) (db : Db) → Follows 2 t db (start_and_poll s snode t db)
    unfolding start_and_poll
    start_and_poll-Follows t db =
        if-cases P (is_some t.params.migration) (λ e. poll_and_settle-Follows t db e)
          λ _.
            option-cases P (get_storage_device_by_id t.device_id db) (λ _. ground arith)
              λ device _.
                option-cases P t.params.distr_name (λ _. ground arith)
                  λ name _.
                    option-cases P (get_cluster_by_id snode.cluster_id db) (λ _. ground arith)
                      λ cluster _.
                        if-cases P (not s.started) (λ _. ground arith)
                          λ _.
                            Follows-after 2 t t.status t.result (some name) db _
                              (poll_and_settle-Follows _ _ refl)
      where
        P : Run → Type 0
        P = Follows 2 t db

    run_checks-Follows : (t : Task) (db : Db) → Follows 2 t db (run_checks s snode t db)
    unfolding run_checks
    run_checks-Follows t db =
        if-cases P (not (node_eq snode.status NodeStatus.online)) (λ _. ground arith)
          λ _.
            if-cases P (is_some (get_new_device_mig_task_for_device t.cluster_id db))
              (λ _. ground arith) λ _. start_and_poll-Follows t db
      where
        P : Run → Type 0
        P = Follows 2 t db

    begin-Follows : (t : Task) (db : Db) → Follows 2 t db (begin s snode t db)
    unfolding begin
    begin-Follows t db =
        if-cases P (is_waiting t.status)
          (λ _.
            if-cases P
              (job_eq t.status JobStatus.fresh
                && is_some (young_node s.now (get_storage_nodes_by_cluster_id t.cluster_id db)))
              (λ _. ground arith)
              (λ _.
                Follows-after 2 t JobStatus.running t.result t.params.migration db _
                  (run_checks-Follows _ _)))
          (λ _. run_checks-Follows t db)
      where
        P : Run → Type 0
        P = Follows 2 t db

-- Every run of the failed-device runner keeps the identity of its task, adds at most two retries,
-- and changes no other task and no cluster.
pub failed_runner-Follows : (s : Storage) (t : Task) (db : Db) → Follows 2 t db (task_runner s t db)
unfolding task_runner
failed_runner-Follows s t db =
    option-cases P (get_storage_node_by_id t.node_id db) (λ _. ground arith)
      λ snode _.
        option-cases P (get_cluster_by_id t.cluster_id db) (λ _. ground arith)
          λ cluster _.
            if-cases P (not (is_serving cluster.status)) (λ _. ground arith)
              λ _. if-cases P t.canceled (λ _. ground arith) λ _. begin-Follows s snode t db
  where
    P : Run → Type 0
    P = Follows 2 t db
