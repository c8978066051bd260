-- ===== src/Tests/TasksTests.antt =====
-- Examples for the theorems about the task table.
use sbcli.Prelude.{true, ◌≡◌}
use sbcli.Devices.{device_set_retries_exhausted}
use sbcli.Devices.Lost.{device_set_retries_exhausted-unchanged}
use sbcli.Tests.Sample.{mig_task, db_with}

device_set_retries_exhausted-unchanged_example :
    (device_set_retries_exhausted 30 true (db_with mig_task)).1 ≡ db_with mig_task
device_set_retries_exhausted-unchanged_example =
    device_set_retries_exhausted-unchanged 30 true (db_with mig_task)
