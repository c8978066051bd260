-- ===== src/Tests/UtilsTests.antt =====
-- Examples for the theorems about CPUs, ports and sizes.
use sbcli.Prelude.{ℕ, true, some, List, [], ◌∷◌, ◌≡◌, arith, contains, length, ◌<◌}
use sbcli.Model.{get_storage_nodes_by_cluster_id}
use sbcli.Utils.Masks.{generate_mask, hexa_to_cpu_list}
use sbcli.Utils.Masks.Trip.{hexa_to_cpu_list-generate_mask}
use sbcli.Utils.Cores.{Machine, calculate_core_allocations}
use sbcli.Utils.Cores.Allocated.{IsPartition, calculate_core_allocations-IsPartition}
use sbcli.Tests.Sample.{mig_task, db_with}

abbrev cores : List ℕ
cores = 0 ∷ 2 ∷ 5 ∷ []

hexa_to_cpu_list-generate_mask_example :
    (cpus : List ℕ) × ((hexa_to_cpu_list (generate_mask cores) ≡ some cpus)
      × ((c : ℕ) → contains cpus c ≡ contains cores c))
hexa_to_cpu_list-generate_mask_example = hexa_to_cpu_list-generate_mask cores

abbrev machine : Machine
machine = record { is_hyperthreaded = true; cpu_count = 16 }

abbrev vcpus : List ℕ
vcpus = 1 ∷ 2 ∷ 3 ∷ 4 ∷ 5 ∷ 6 ∷ 7 ∷ 9 ∷ 10 ∷ 11 ∷ 12 ∷ 13 ∷ 14 ∷ 15 ∷ []

calculate_core_allocations-IsPartition_example :
    IsPartition vcpus (calculate_core_allocations machine 2 vcpus)
calculate_core_allocations-IsPartition_example =
    calculate_core_allocations-IsPartition machine 2 vcpus

few : length (get_storage_nodes_by_cluster_id 1 (db_with mig_task)) < 1000
few = omega arith
