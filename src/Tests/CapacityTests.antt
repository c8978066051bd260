-- ===== src/Tests/CapacityTests.antt =====
-- An example for the theorem about the limit on a cluster's use.
use sbcli.Prelude.{some, none, ◌≡◌, refl}
use sbcli.Capacity.{Records, check_capacity}
use sbcli.Capacity.Limit.{wanted, check_capacity-HasStatus}
use sbcli.Monitor.Transitions.{HasStatus}
use sbcli.Tests.Sample.{cluster, mig_task, db_with, stamps}

abbrev records : Records
records = record { cluster_util = some 95; device_util = λ d. none; stamps = λ d. stamps }

check_capacity-HasStatus_example :
    HasStatus (λ s. s ≡ wanted 95 cluster) 1 (check_capacity records cluster (db_with mig_task)).1
check_capacity-HasStatus_example =
    check_capacity-HasStatus records cluster (db_with mig_task) 95 refl refl
