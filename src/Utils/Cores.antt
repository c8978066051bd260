-- ===== src/Utils/Cores.antt =====
-- How calculate_core_allocations of simplyblock_core/utils splits the CPUs among the threads of the
-- storage process.
pub mod Kept
pub mod First
pub mod Allocated
use sbcli.Prelude.{
  ℕ, zero, suc, ◌+◌, ◌-◌, ◌/◌, ◌%◌, Bool, true, false, not, ◌&&◌, Option, none, some, List, [], ◌∷◌,
  ◌++◌, ◌==◌, ltb, leb, bit, if◌then◌else◌, contains, keep, length,
}

-- The machine: whether it is hyperthreaded, and os.cpu_count().
pub record Machine : Type 0 where
  pub is_hyperthreaded : Bool
  pub cpu_count : ℕ

-- pairs[vcpu], where pair_hyperthreads has an entry
abbrev pub sibling_of : Machine → ℕ → Option ℕ
sibling_of m v =
    if m.is_hyperthreaded && ltb v (m.cpu_count / 2) then some (v + m.cpu_count / 2) else none

-- remaining.remove(vcpu), for a set kept in its sorted order
abbrev pub drop : ℕ → List ℕ → List ℕ
drop v xs = keep (λ x. not (x == v)) xs

-- Some CPUs that were reserved, and those that remain.
pub record Reserved : Type 0 where
  pub vcpus : List ℕ
  pub remaining : List ℕ

-- reserve
pub reserve : Machine → ℕ → Bool → List ℕ → Reserved
reserve m v get_sibling remaining =
    if contains remaining v
    then (let rest = drop v remaining in
        elim (if get_sibling then sibling_of m v else none) [
          | none ↦ record { vcpus = v ∷ []; remaining = rest }
          | some w ↦
              if contains rest w
              then record { vcpus = v ∷ w ∷ []; remaining = drop w rest }
              else record { vcpus = v ∷ []; remaining = rest }
        ])
    else record { vcpus = []; remaining = remaining }

-- The loop of reserve_n over the CPUs that remained at its start.
pub reserve_loop : Machine → ℕ → List ℕ → Reserved → Reserved
unfolding reserve
reserve_loop m n [] a = a
reserve_loop m n (v ∷ vs) a =
    let r = reserve m v (leb 2 (n - length a.vcpus)) a.remaining in
    let b : Reserved = record { vcpus = a.vcpus ++ r.vcpus; remaining = r.remaining } in
    let rest = reserve_loop m n vs b in if leb n (length b.vcpus) then b else rest

-- vcpus[:count]
abbrev pub take : ℕ → List ℕ → List ℕ
take zero xs = []
take (suc n) [] = []
take (suc n) (x ∷ xs) = x ∷ take n xs

pub reserve_n : Machine → ℕ → List ℕ → Reserved
unfolding reserve_loop
reserve_n m n remaining =
    if ltb 0 n
    then (let r = reserve_loop m n remaining (record { vcpus = []; remaining = remaining }) in
        record { vcpus = take n r.vcpus; remaining = r.remaining })
    else record { vcpus = []; remaining = remaining }

-- a new CPU in the sorted order
abbrev pub insert : ℕ → List ℕ → List ℕ
insert v [] = v ∷ []
insert v (x ∷ xs) = let rest = insert v xs in if ltb v x then v ∷ x ∷ xs else x ∷ rest

-- set(vcpu_list), in its sorted order
pub to_set : List ℕ → List ℕ
to_set [] = []
to_set (v ∷ vs) = let rest = to_set vs in if contains rest v then rest else insert v rest

-- `assigned`, and the CPUs that remain.
pub record Allocation : Type 0 where
  pub app_thread : List ℕ
  pub jm : List ℕ
  pub jc_singleton : List ℕ
  pub alceml_worker : List ℕ
  pub alceml : List ℕ
  pub distrib : List ℕ
  pub poller : List ℕ
  pub remaining : List ℕ

-- whether the alceml workers share the CPU of jc_singleton
abbrev pub shares_worker : List ℕ → Bool
shares_worker vcpu_list = ltb (length vcpu_list) 12

-- int(alceml_count / 3) + ((alceml_count % 3) > 0)
abbrev pub worker_count : ℕ → ℕ
worker_count n = n / 3 + bit (ltb 0 (n % 3))

-- The three branches on the number of CPUs: how many workers and alcemls get one.
abbrev pub workers : ℕ → List ℕ → ℕ
workers alceml_count vcpu_list = if ltb (length vcpu_list) 22 then 1 else worker_count alceml_count

abbrev pub alcemls : ℕ → List ℕ → ℕ
alcemls alceml_count vcpu_list =
    if ltb (length vcpu_list) 12 then 1 else if ltb (length vcpu_list) 22 then 2 else alceml_count

-- From the first reservation to the end of the branches: whether the workers share the CPU of
-- jc_singleton, how many they get otherwise, and how many the alcemls get.
pub reserve_first : Machine → Bool → ℕ → ℕ → List ℕ → Allocation
reserve_first m shares worker_number alceml_number vcpu_list =
    let app = reserve_n m 1 (to_set vcpu_list) in
    let jm = reserve_n m 1 app.remaining in
    let jc = reserve_n m 1 jm.remaining in
    let worker = if shares then jc else reserve_n m worker_number jc.remaining in
    let alceml = reserve_n m alceml_number worker.remaining in
    record {
      app_thread = app.vcpus;
      jm = jm.vcpus;
      jc_singleton = jc.vcpus;
      alceml_worker = worker.vcpus;
      alceml = alceml.vcpus;
      distrib = [];
      poller = [];
      remaining = alceml.remaining;
    }

abbrev pub allocate_first : Machine → ℕ → List ℕ → Allocation
allocate_first m alceml_count vcpu_list =
    reserve_first m (shares_worker vcpu_list) (workers alceml_count vcpu_list)
      (alcemls alceml_count vcpu_list) vcpu_list

-- The split of the rest among distribs and pollers.
pub allocate_rest : Machine → Allocation → Allocation
allocate_rest m a =
    let dp = length a.remaining / 2 in
    let distrib = reserve_n m dp a.remaining in
    let poller = reserve_n m dp distrib.remaining in
    let last = reserve_n m 1 poller.remaining in
    if ltb 0 (length poller.remaining)
    then (if length poller.vcpus == 0
        then record a { distrib = last.vcpus; poller = last.vcpus; remaining = last.remaining }
        else record a {
          distrib = distrib.vcpus ++ last.vcpus;
          poller = poller.vcpus;
          remaining = last.remaining;
        })
    else record a { distrib = distrib.vcpus; poller = poller.vcpus; remaining = poller.remaining }

-- calculate_core_allocations
pub calculate_core_allocations : Machine → ℕ → List ℕ → Allocation
unfolding reserve_first allocate_rest
calculate_core_allocations m alceml_count vcpu_list =
    allocate_rest m (allocate_first m alceml_count vcpu_list)
