-- ===== src/Migration/Runs.antt =====
-- What every run of a migration runner keeps: its task's identity, the order of the task table, and
-- the deduplication.
use sbcli.Prelude.{ℕ, false, some, ◌≡◌}
use sbcli.Model.{Task, Db, is_done, get_task_by_id}
use sbcli.Model.Order.{IsSorted, In, get_task_by_id-In}
use sbcli.Tasks.Loops.{IsUnique}
use sbcli.Migration.{Run, Storage}
use sbcli.Migration.Follows.{Follows}
use sbcli.Migration.Unique.{run-IsSorted, run-IsUnique}
use sbcli.Migration.Rebalance
use sbcli.Migration.Rebalance.Steps.{rebalance_runner-Follows}
use sbcli.Migration.Failed
use sbcli.Migration.Failed.Steps.{failed_runner-Follows}
use sbcli.Migration.Expansion
use sbcli.Migration.Expansion.Steps.{expansion_runner-Follows}

-- The table is in order, and has one active task of each kind at most.
pub record IsWellFormed (db : Db) : Type 0 where
  pub sorted : IsSorted db.tasks
  pub unique : IsUnique db

pub record Keeps (most : ℕ) (t : Task) (db : Db) (r : Run) : Type 0 where
  pub follows : Follows most t db r
  pub well_formed : IsWellFormed r.db

run-Keeps :
    (k : ℕ) (t : Task) (db : Db) (r : Run)
    → IsWellFormed db
    → In t db.tasks
    → is_done t.status ≡ false
    → Follows k t db r
    → Keeps k t db r
run-Keeps k t db r h stored undone f = record {
  follows = f;
  well_formed = record {
    sorted = run-IsSorted k t db r f h.sorted stored;
    unique = run-IsUnique k t db r f h.sorted stored undone h.unique;
  };
}

-- A run of the device migration runner on a stored task that is not done, whatever the storage
-- answers, keeps the task's identity and the table well-formed, adds at most one retry, and writes
-- no other task and no cluster.
pub rebalance_runner-Keeps :
    (s : Storage) (t u : Task) (db : Db)
    → IsWellFormed db
    → get_task_by_id t.uuid db ≡ some u
    → is_done u.status ≡ false
    → Keeps 1 u db (Rebalance.task_runner s t db)
rebalance_runner-Keeps s t u db h found undone =
    run-Keeps 1 u db (Rebalance.task_runner s t db) h (get_task_by_id-In t.uuid u db found).0 undone
      (rebalance_runner-Follows s t u db found)

-- A run of the failed-device runner on a stored task that is not done, whatever the storage answers,
-- keeps the task's identity and the table well-formed, adds at most two retries, and writes no other
-- task and no cluster.
pub failed_runner-Keeps :
    (s : Storage) (t : Task) (db : Db)
    → IsWellFormed db
    → In t db.tasks
    → is_done t.status ≡ false
    → Keeps 2 t db (Failed.task_runner s t db)
failed_runner-Keeps s t db h stored undone =
    run-Keeps 2 t db (Failed.task_runner s t db) h stored undone (failed_runner-Follows s t db)

-- A run of the expansion runner on a stored task that is not done, whatever the storage answers,
-- keeps the task's identity and the table well-formed, adds at most one retry, and writes no other
-- task and no cluster.
pub expansion_runner-Keeps :
    (s : Storage) (t : Task) (db : Db)
    → IsWellFormed db
    → In t db.tasks
    → is_done t.status ≡ false
    → Keeps 1 t db (Expansion.task_runner s t db)
expansion_runner-Keeps s t db h stored undone =
    run-Keeps 1 t db (Expansion.task_runner s t db) h stored undone
      (expansion_runner-Follows s t db)
