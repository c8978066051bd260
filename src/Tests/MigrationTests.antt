-- ===== src/Tests/MigrationTests.antt =====
-- Examples for the theorems about the migration runners.
use sbcli.Prelude.{true, [], ◌∷◌, none, some, ◌≡◌, refl, returned, pos, inl, inr}
use sbcli.Model.{FunctionName, JobStatus, Task, Db, get_storage_device_by_id}
use sbcli.Migration.{Storage, MigStatus, handle_task_result}
use sbcli.Migration.Rebalance
use sbcli.Migration.Rebalance.Start.{MayStart, task_runner-MayStart}
use sbcli.Migration.Failed
use sbcli.Migration.Runs.{Keeps, rebalance_runner-Keeps}
use sbcli.Migration.Turns.{serve_kind}
use sbcli.Migration.Turns.Alone.{serve_kind-waits}
use sbcli.Migration.Master.{sub_statuses, update_master_task}
use sbcli.Migration.Master.Summary.{Stores, update_master_task-Stores}
use sbcli.Tests.Sample.{cluster, node, task, mig_task, db_with, sample-IsWellFormed}

-- The storage accepts the migration and reports it as running.
abbrev storage : Storage
storage = record {
  now = 90_000_000;
  started = true;
  migration_status =
      returned
        (some (record { status = MigStatus.other 9; error = none; progress = some (pos 10) }));
}

rebalance_runner-Keeps_example :
    Keeps 1 mig_task (db_with mig_task) (Rebalance.task_runner storage mig_task (db_with mig_task))
rebalance_runner-Keeps_example =
    rebalance_runner-Keeps storage mig_task mig_task (db_with mig_task)
      (sample-IsWellFormed mig_task) refl refl

abbrev failed_task : Task
failed_task = task FunctionName.failed_dev_mig JobStatus.fresh

abbrev expansion_task : Task
expansion_task = task FunctionName.new_dev_mig JobStatus.suspended

is_started :
    (Rebalance.task_runner storage mig_task (db_with mig_task)).task.params.migration ≡ some 40
unfolding Rebalance.task_runner get_storage_device_by_id handle_task_result
is_started = refl

task_runner-MayStart_example : MayStart storage mig_task (db_with mig_task)
task_runner-MayStart_example =
    task_runner-MayStart storage mig_task mig_task (db_with mig_task) refl refl (rw is_started refl)

abbrev master : Task
master = record (task FunctionName.balancing_after_node_restart JobStatus.fresh) {
  uuid = 51;
  date = 6;
  sub_tasks = 50 ∷ [];
}

abbrev running_task : Task
running_task = task FunctionName.dev_mig JobStatus.running

abbrev rebalancing : Db
rebalancing = record {
  clusters = cluster ∷ [];
  nodes = node ∷ [];
  tasks = running_task ∷ master ∷ [];
}

update_master_task-Stores_example :
    Stores master (JobStatus.running ∷ []) (update_master_task 1 running_task rebalancing).1
unfolding sub_statuses
update_master_task-Stores_example =
    update_master_task-Stores 1 running_task master master (JobStatus.running ∷ []) rebalancing refl
      refl refl

abbrev other_task : Task
other_task = record (task FunctionName.dev_mig JobStatus.running) { uuid = 52; date = 7 }

abbrev busy : Db
busy = record { clusters = cluster ∷ []; nodes = node ∷ []; tasks = failed_task ∷ other_task ∷ [] }

serve_kind-waits_example :
    (serve_kind FunctionName.failed_dev_mig (Failed.task_runner storage) failed_task busy).db ≡ busy
serve_kind-waits_example =
    serve_kind-waits FunctionName.failed_dev_mig (Failed.task_runner storage) failed_task other_task
      busy refl (inr (inl refl)) refl refl
