-- ===== src/Tasks/Unique.antt =====
-- No task is queued twice: the deduplication of _add_task.
use sbcli.Prelude.{◌≤◌, ℤ, ◌&&◌, List, none, arith, ◌==◌, count}
use sbcli.Model.{FunctionName, Name, Params, Task, Db}
use sbcli.Model.Keys.{count-put_task, not_found-count}
use sbcli.Tasks.{Stamp, is_node_restart, is_new_device_mig, is_device_mig, new_task, add_task}

-- At most one active task of a kind: a restart of a node, a migration of a device on a distr of a
-- node, an expansion on a distr of a node.
pub record NoDuplicates (ts : List Task) : Type 0 where
  pub restart_once : (c n : Name) → count (λ t. t.cluster_id == c && is_node_restart n t) ts ≤ 1
  pub mig_once :
      (c n d name : Name) → count (λ t. t.cluster_id == c && is_device_mig n d name t) ts ≤ 1
  pub expansion_once :
      (c n name : Name) → count (λ t. t.cluster_id == c && is_new_device_mig n name none t) ts ≤ 1

module _ (c n d : Name) (mr : ℤ) (ps : Params) (st : Stamp) (db : Db) where
  add_restart_once :
      (fn : FunctionName) (c' n' : Name)
      → count (λ t. t.cluster_id == c' && is_node_restart n' t) db.tasks ≤ 1
      → count
          (λ t. t.cluster_id == c' && is_node_restart n' t)
          (add_task fn c n d mr ps st db).1.tasks
        ≤ 1
  unfolding add_task
  add_restart_once FunctionName.node_restart c' n' h = ground (
    arith,
    count-put_task (λ t. t.cluster_id == c' && is_node_restart n' t)
        (new_task FunctionName.node_restart c n d mr ps st) db.tasks,
    not_found-count (is_node_restart n) c db,
  )
  add_restart_once fn c' n' h = ground (
    arith,
    count-put_task (λ t. t.cluster_id == c' && is_node_restart n' t) (new_task fn c n d mr ps st)
        db.tasks,
  )

  add_mig_once :
      (fn : FunctionName) (c' n' d' name : Name)
      → count (λ t. t.cluster_id == c' && is_device_mig n' d' name t) db.tasks ≤ 1
      → count
          (λ t. t.cluster_id == c' && is_device_mig n' d' name t)
          (add_task fn c n d mr ps st db).1.tasks
        ≤ 1
  unfolding add_task
  add_mig_once FunctionName.dev_mig c' n' d' name h = ground (
    arith,
    count-put_task (λ t. t.cluster_id == c' && is_device_mig n' d' name t)
        (new_task FunctionName.dev_mig c n d mr ps st) db.tasks,
    not_found-count (is_device_mig n d name) c db,
  )
  add_mig_once fn c' n' d' name h = ground (
    arith,
    count-put_task (λ t. t.cluster_id == c' && is_device_mig n' d' name t)
        (new_task fn c n d mr ps st) db.tasks,
  )

  add_expansion_once :
      (fn : FunctionName) (c' n' name : Name)
      → count (λ t. t.cluster_id == c' && is_new_device_mig n' name none t) db.tasks ≤ 1
      → count
          (λ t. t.cluster_id == c' && is_new_device_mig n' name none t)
          (add_task fn c n d mr ps st db).1.tasks
        ≤ 1
  unfolding add_task
  add_expansion_once FunctionName.new_dev_mig c' n' name h = ground (
    arith,
    count-put_task (λ t. t.cluster_id == c' && is_new_device_mig n' name none t)
        (new_task FunctionName.new_dev_mig c n d mr ps st) db.tasks,
    not_found-count (is_new_device_mig n name none) c db,
  )
  add_expansion_once fn c' n' name h = ground (
    arith,
    count-put_task (λ t. t.cluster_id == c' && is_new_device_mig n' name none t)
        (new_task fn c n d mr ps st) db.tasks,
  )

pub add_task-NoDuplicates :
    (fn : FunctionName) (c n d : Name) (mr : ℤ) (ps : Params) (st : Stamp) (db : Db)
    → NoDuplicates db.tasks
    → NoDuplicates (add_task fn c n d mr ps st db).1.tasks
add_task-NoDuplicates fn c n d mr ps st db h = record {
  restart_once = λ c' n'. add_restart_once c n d mr ps st db fn c' n' (h.restart_once c' n');
  mig_once =
      λ c' n' d' name. add_mig_once c n d mr ps st db fn c' n' d' name (h.mig_once c' n' d' name);
  expansion_once = λ c' n' name.
      add_expansion_once c n d mr ps st db fn c' n' name (h.expansion_once c' n' name);
}
