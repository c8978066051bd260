-- ===== src/Migration/Unique.antt =====
-- The runners and the deduplication of the task table.
use sbcli.Prelude.{ℕ, ◌≤◌, Bool, false, ◌&&◌, none, arith, ◌≡◌, ◌==◌, bit, count, inl, inr}
use sbcli.Model.{Task, Db, is_done}
use sbcli.Model.Order.{IsSorted, In, count-replace, put_task-IsSorted}
use sbcli.Tasks.{is_node_restart, is_device_mig, is_new_device_mig, is_balancing}
use sbcli.Tasks.Loops.{IsUnique}
use sbcli.Migration.{Run}
use sbcli.Migration.Follows.{Follows}

module _ (k : ℕ) (t : Task) (db : Db) (r : Run) (f : Follows k t db r) (sorted : IsSorted db.tasks)
    (stored : In t db.tasks) where
  count-run : (p : Task → Bool) → bit (p r.task) ≤ bit (p t) → count p r.db.tasks ≤ count p db.tasks
  count-run p h = elim f.stored [
    | inl e ↦ rw e (
        count-replace p r.task t db.tasks sorted stored
          (ground (arith, f.uuid, f.cluster_id, f.date)) h)
    | inr same ↦ rw same.0 (omega arith)
  ]

  pub run-IsSorted : IsSorted r.db.tasks
  run-IsSorted = elim f.stored [
    | inl e ↦ rw e (put_task-IsSorted r.task db.tasks sorted)
    | inr same ↦ rw same.0 sorted
  ]

  -- The run of a task that is not done keeps at most one active task of each kind.
  pub run-IsUnique : is_done t.status ≡ false → IsUnique db → IsUnique r.db
  run-IsUnique undone h = record {
    kinds = record {
      restart_once = λ c n. omega (
        arith,
        h.kinds.restart_once c n,
        count-run (λ u. u.cluster_id == c && is_node_restart n u)
            (ground (arith, f.cluster_id, f.function_name, f.node_id, f.canceled)),
      );
      mig_once = λ c n d name. omega (
        arith,
        h.kinds.mig_once c n d name,
        count-run (λ u. u.cluster_id == c && is_device_mig n d name u)
            (ground (
              arith, f.cluster_id, f.function_name, f.node_id, f.device_id, f.canceled,
              f.distr_name,
            )),
      );
      expansion_once = λ c n name. omega (
        arith,
        h.kinds.expansion_once c n name,
        count-run (λ u. u.cluster_id == c && is_new_device_mig n name none u)
            (ground (arith, f.cluster_id, f.function_name, f.node_id, f.canceled, f.distr_name)),
      );
    };
    masters = λ c. omega (
      arith,
      h.masters c,
      count-run (λ u. u.cluster_id == c && is_balancing u)
          (ground (arith, f.cluster_id, f.function_name, f.canceled)),
    );
  }
