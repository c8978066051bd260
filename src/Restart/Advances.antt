-- ===== src/Restart/Advances.antt =====
-- A run of the restart service ends a task or uses up one more try of it.
use sbcli.Prelude.{
  ℕ, suc, pos, pos_part, Bool, true, false, not, ◌||◌, Option, none, some, ◌≡◌, ◌⊎◌, inl, inr, refl,
  arith, ltb, leb, ltb_ℤ, if◌then◌else◌, raised, if-cases, option-cases, result-cases,
}
use sbcli.Model.{
  JobStatus, FunctionName, NodeStatus, DeviceStatus, job_eq, fn_eq, node_eq, device_eq, Message,
  Task, Device, Node, Db, write_task, get_storage_node_by_id, Name,
}
use sbcli.Tasks.{task_exec_retry_count, add_device_mig_task}
use sbcli.Devices.{
  device_set_state, device_set_io_error, device_set_retries_exhausted, device_set_unavailable,
}
use sbcli.Model.Order.{In}
use sbcli.Model.Members.{In-put_task_self}
use sbcli.Migration.{Run, ends, finished}
use sbcli.Restart.{
  World, retried, get_device, get_node_unavailable_devices_count, validate_no_task_node_restart,
  settles, is_working, check_device, restart_device, with_device, task_runner_device, is_up,
  restart_node, with_node, task_runner_node,
}

-- The number of tries that a restart task has.
abbrev pub limit : Task → ℕ
limit t =
    if fn_eq t.function_name FunctionName.dev_restart
    then task_exec_retry_count
    else pos_part t.max_retry

-- What a run leaves: an exception left it, or the task is done, or it has used up one more try and is
-- stored so.
pub record Advances (below : Bool) (t : Task) (r : Run) : Type 0 where
  pub uuid : r.task.uuid ≡ t.uuid
  pub function_name : r.task.function_name ≡ t.function_name
  pub max_retry : r.task.max_retry ≡ t.max_retry
  pub ahead :
      (r.reply ≡ raised)
      ⊎ (r.task.status ≡ JobStatus.done)
      ⊎ ((r.task.retry ≡ suc t.retry) × (below ≡ true) × In r.task r.db.tasks)

-- A run that ends with the write of the task, after one more try.
again :
    (t u : Task) (db : Db) {below : Bool}
    → u.uuid ≡ t.uuid
    → u.function_name ≡ t.function_name
    → u.max_retry ≡ t.max_retry
    → u.retry ≡ suc t.retry
    → below ≡ true
    → Advances below t (ends false u db)
again t u db a b c d e = record {
  uuid = a;
  function_name = b;
  max_retry = c;
  ahead = inr (inr (d, e, In-put_task_self u db.tasks));
}

module _ (w : World) where
  check_device-Advances : (t : Task) (db : Db) → Advances true t (check_device w t db)
  unfolding check_device
  check_device-Advances t db =
      result-cases (Advances true t) (get_device t db) (λ _. ground arith)
        λ device _.
          option-cases (Advances true t) device (λ _. ground arith)
            λ d _.
              if-cases (Advances true t) (is_working d)
                (λ _.
                  result-cases (Advances true t)
                    (add_device_mig_task w.stamps d.uuid
                      (write_task (finished Message.done_text t) db)).0
                    (λ _. ground arith) (λ _ _. ground arith))
                (λ _. again t (retried t) db refl refl refl (omega arith) refl)

  restart_device-Advances :
      (d : Device) (t : Task) (db : Db) → Advances true t (restart_device w d t db)
  unfolding restart_device
  restart_device-Advances d t db =
      if-cases (Advances true t) (ltb t.retry 3)
        (λ _.
          result-cases (Advances true t) (device_set_io_error d.uuid false db).0 (λ _. ground arith)
            (λ _ _. check_device-Advances t (
              w.pause
                (device_set_state d.uuid DeviceStatus.online
                  (device_set_io_error d.uuid false db).1).1)))
        (λ _. check_device-Advances t (w.pause (w.restart_device d.uuid db)))

  with_device-Advances : (d : Device) (t : Task) (db : Db) → Advances true t (with_device w d t db)
  unfolding with_device
  with_device-Advances d t db =
      if-cases P (is_working d) (λ _. ground arith)
        λ _.
          if-cases P
            (device_eq d.status DeviceStatus.removed || device_eq d.status DeviceStatus.failed)
            (λ _. ground arith)
            λ _.
              if-cases P (job_eq t.status JobStatus.running) (λ _. restart_device-Advances d t db)
                λ _. started (restart_device-Advances d t' (write_task t' db))
    where
      P : Run → Type 0
      P = Advances true t

      t' : Task
      t' = record t { status = JobStatus.running }

      started : {r : Run} → Advances true t' r → Advances true t r
      started a = record {
        uuid = a.uuid;
        function_name = a.function_name;
        max_retry = a.max_retry;
        ahead = a.ahead;
      }

  settled :
      (t : Task) (m : Message) (db : Db) (device : Option Device) (calls : Name → Db → Db)
      (b : Bool)
      → Advances b t (settles (finished m t) db device calls)
  settled t m db none calls b = ground arith
  settled t m db (some d) calls b = ground arith

  pub task_runner_device-Advances :
      (t : Task) (db : Db)
      → Advances (ltb t.retry task_exec_retry_count) t (task_runner_device w t db)
  unfolding task_runner_device
  task_runner_device-Advances t db =
      result-cases P (get_device t db) (λ _. ground arith)
        λ device _.
          if-cases P (leb task_exec_retry_count t.retry)
            (λ _.
              settled t Message.max_retry_reached db device
                (λ d x. (device_set_retries_exhausted d true (device_set_unavailable d x).1).1) _)
            λ e.
              if-cases P (not (validate_no_task_node_restart t.cluster_id t.node_id db))
                (λ _.
                  settled t Message.node_restart_found db device
                    (λ d x. (device_set_unavailable d x).1) _)
                λ _.
                  if-cases P t.canceled
                    (λ _.
                      settled t Message.canceled db device
                        (λ d x. (device_set_retries_exhausted d true x).1) _)
                    λ _.
                      option-cases P (get_storage_node_by_id t.node_id db) (λ _. ground arith)
                        λ node _.
                          if-cases P (not (node_eq node.status NodeStatus.online))
                            (λ _.
                              again t (record (retried t) { result = Message.node_is_offline }) db
                                refl refl refl (omega arith) (below e))
                            λ _.
                              option-cases P device (λ _. ground arith)
                                λ d _. left e (with_device-Advances d t db)
    where
      P : Run → Type 0
      P = Advances (ltb t.retry task_exec_retry_count) t

      below : leb task_exec_retry_count t.retry ≡ false → ltb t.retry task_exec_retry_count ≡ true
      below f = ground arith

      left : {r : Run} → leb task_exec_retry_count t.retry ≡ false → Advances true t r → P r
      left e a = record {
        uuid = a.uuid;
        function_name = a.function_name;
        max_retry = a.max_retry;
        ahead = elim a.ahead [
          | inl x ↦ inl x
          | inr y ↦ elim y [ inl x ↦ inr (inl x) | inr z ↦ inr (inr (z.0, below e, z.2)) ]
        ];
      }

  restart_node-Advances :
      (node : Node) (t : Task) (db : Db) → Advances true t (restart_node w node t db)
  unfolding restart_node
  restart_node-Advances node t db =
      if-cases P (not w.ping || not w.node_api)
        (λ _.
          again t (record (retried t) { result = Message.node_is_unreachable }) db refl refl refl
            (omega arith) refl)
        λ _.
          option-cases P (get_storage_node_by_id t.node_id db') (λ _. ground arith)
            λ n _.
              result-cases P (get_node_unavailable_devices_count n.uuid db') (λ _. ground arith)
                λ u _.
                  if-cases P (is_up n u) (λ _. ground arith)
                    (λ _. again t (retried t) db' refl refl refl (omega arith) refl)
    where
      P : Run → Type 0
      P = Advances true t

      db' : Db
      db' = w.pause (w.reset_node node.uuid db)

  with_node-Advances : (node : Node) (t : Task) (db : Db) → Advances true t (with_node w node t db)
  unfolding with_node
  with_node-Advances node t db =
      if-cases P
        (node_eq node.status NodeStatus.removed
          || node_eq node.status NodeStatus.schedulable
          || node_eq node.status NodeStatus.down)
        (λ _. ground arith)
        λ _.
          result-cases P (get_node_unavailable_devices_count node.uuid db) (λ _. ground arith)
            λ u _.
              if-cases P (is_up node u) (λ _. ground arith)
                λ _.
                  if-cases P t.canceled (λ _. ground arith)
                    λ _.
                      if-cases P (job_eq t.status JobStatus.running)
                        (λ _. restart_node-Advances node t db)
                        λ _.
                          if-cases P (node_eq node.status NodeStatus.restarting) (λ _. ground arith)
                            λ _. started (restart_node-Advances node t' (write_task t' db))
    where
      P : Run → Type 0
      P = Advances true t

      t' : Task
      t' = record t { status = JobStatus.running }

      started : {r : Run} → Advances true t' r → Advances true t r
      started a = record {
        uuid = a.uuid;
        function_name = a.function_name;
        max_retry = a.max_retry;
        ahead = a.ahead;
      }

  pub task_runner_node-Advances :
      (t : Task) (db : Db)
      → Advances (ltb t.retry (pos_part t.max_retry)) t (task_runner_node w t db)
  unfolding task_runner_node
  task_runner_node-Advances t db =
      option-cases P (get_storage_node_by_id t.node_id db) (λ _. ground arith)
        λ node _.
          if-cases P (not (ltb_ℤ (pos t.retry) t.max_retry)) (λ _. ground arith)
            λ e. left e (with_node-Advances node t db)
    where
      P : Run → Type 0
      P = Advances (ltb t.retry (pos_part t.max_retry)) t

      below :
          not (ltb_ℤ (pos t.retry) t.max_retry) ≡ false → ltb t.retry (pos_part t.max_retry) ≡ true
      below f = ground arith

      left : {r : Run} → not (ltb_ℤ (pos t.retry) t.max_retry) ≡ false → Advances true t r → P r
      left e a = record {
        uuid = a.uuid;
        function_name = a.function_name;
        max_retry = a.max_retry;
        ahead = elim a.ahead [
          | inl x ↦ inl x
          | inr y ↦ elim y [ inl x ↦ inr (inl x) | inr z ↦ inr (inr (z.0, below e, z.2)) ]
        ];
      }
