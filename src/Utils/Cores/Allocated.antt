-- ===== src/Utils/Cores/Allocated.antt =====
-- Every CPU goes to exactly one group of threads.
use sbcli.Prelude.{
  ℕ, ◌+◌, ◌/◌, ◌≤◌, Bool, true, List, [], ◌∷◌, ◌≡◌, ◌⊎◌, inl, inr, refl, arith, ◌==◌, ltb, bit,
  contains, length, if-cases, ap, sym, ◌∙◌,
}
use sbcli.Utils.Cores.{
  Machine, Reserved, reserve_n, Allocation, shares_worker, allocate_first, allocate_rest,
  calculate_core_allocations, workers, alcemls,
}
use sbcli.Utils.Cores.Kept.{occurrences, IsUnique, occurrences-append, Reserves, reserve_n-Reserves}
use sbcli.Utils.Cores.First.{Unique-after, reserve_first-splits, shared_first, in_first}

no_length : (xs : List ℕ) → length xs ≤ 0 → xs ≡ []
no_length [] h = refl
no_length (x ∷ xs) h = ground arith

-- What the last step makes of the CPUs that remain: distribs and pollers share one CPU, or each CPU
-- goes to one of them.
pub record Rest (before : List ℕ) (a : Allocation) : Type 0 where
  pub none_remains : a.remaining ≡ []
  pub given :
      ((a.poller ≡ a.distrib)
        × (length a.distrib ≡ 1)
        × ((x : ℕ) → occurrences x a.distrib ≡ occurrences x before))
      ⊎ ((x : ℕ) → occurrences x a.distrib + occurrences x a.poller ≡ occurrences x before)

allocate_rest-Rest :
    (m : Machine) (a : Allocation) → IsUnique a.remaining → Rest a.remaining (allocate_rest m a)
unfolding allocate_rest
allocate_rest-Rest m a u =
    if-cases (Rest a.remaining) (ltb 0 (length poller.remaining))
      (λ e.
        if-cases (Rest a.remaining) (length poller.vcpus == 0)
          (λ f. record {
            none_remains = emptied e;
            given = inl (
              refl,
              one e,
              λ x. ground (
                arith,
                hd.splits.each x,
                hp.splits.each x,
                hl.splits.each x,
                ap (occurrences x) (emptied e),
                ap (occurrences x) (no_length poller.vcpus (ground arith)),
                ap (occurrences x) (
                    no_length distrib.vcpus
                      (ground (arith, hd.fills, hp.fills, hd.splits.sizes, hp.splits.sizes))),
              ),
            );
          })
          (λ f. record {
            none_remains = emptied e;
            given = inr (λ x. omega (
              arith,
              occurrences-append x distrib.vcpus last.vcpus,
              hd.splits.each x,
              hp.splits.each x,
              hl.splits.each x,
              ap (occurrences x) (emptied e),
            ));
          }))
      (λ e. record {
        none_remains = no_length poller.remaining (ground arith);
        given = inr (λ x. omega (
          arith,
          hd.splits.each x,
          hp.splits.each x,
          ap (occurrences x) (no_length poller.remaining (ground arith)),
        ));
      })
  where
    dp : ℕ
    dp = length a.remaining / 2

    distrib : Reserved
    distrib = reserve_n m dp a.remaining

    poller : Reserved
    poller = reserve_n m dp distrib.remaining

    last : Reserved
    last = reserve_n m 1 poller.remaining

    hd : Reserves dp a.remaining distrib
    hd = reserve_n-Reserves m dp a.remaining u

    ud : IsUnique distrib.remaining
    ud = Unique-after dp a.remaining distrib u hd

    hp : Reserves dp distrib.remaining poller
    hp = reserve_n-Reserves m dp distrib.remaining ud

    hl : Reserves 1 poller.remaining last
    hl = reserve_n-Reserves m 1 poller.remaining (Unique-after dp distrib.remaining poller ud hp)

    one : ltb 0 (length poller.remaining) ≡ true → length last.vcpus ≡ 1
    one e = elim hl.fills.1 [
      | inl f ↦ f
      | inr f ↦ ground (arith, e, hl.splits.sizes, hl.fills.0, ap length f)
    ]

    emptied : ltb 0 (length poller.remaining) ≡ true → last.remaining ≡ []
    emptied e = elim hl.fills.1 [
      | inl f ↦
          no_length last.remaining
            (ground (arith, hl.splits.sizes, hp.splits.sizes, hd.splits.sizes, hp.fills, hd.fills))
      | inr f ↦ f
    ]

-- Whether each CPU of `vcpu_list`, and no other, is in exactly one of the groups, up to two that are
-- shared: below 12 CPUs the alceml workers have the CPU of jc_singleton and no other, and where the
-- distribs and pollers get the same, it is one CPU.
pub record IsPartition (vcpu_list : List ℕ) (a : Allocation) : Type 0 where
  pub none_remains : a.remaining ≡ []
  pub shared : shares_worker vcpu_list ≡ true → a.alceml_worker ≡ a.jc_singleton
  pub once :
      ((a.poller ≡ a.distrib)
        × (length a.distrib ≡ 1)
        × ((x : ℕ)
            → in_first (shares_worker vcpu_list) x a + occurrences x a.distrib
              ≡ bit (contains vcpu_list x)))
      ⊎ ((x : ℕ)
          → in_first (shares_worker vcpu_list) x a
              + (occurrences x a.distrib + occurrences x a.poller)
            ≡ bit (contains vcpu_list x))

same_first :
    (m : Machine) (a : Allocation) (shares : Bool) (x : ℕ)
    → in_first shares x (allocate_rest m a) ≡ in_first shares x a
unfolding allocate_rest
same_first m a shares x = ground arith

same_workers : (m : Machine) (a : Allocation) → (allocate_rest m a).alceml_worker ≡ a.alceml_worker
unfolding allocate_rest
same_workers m a = ground arith

same_singleton : (m : Machine) (a : Allocation) → (allocate_rest m a).jc_singleton ≡ a.jc_singleton
unfolding allocate_rest
same_singleton m a = ground arith

-- The allocation gives every CPU of the list to exactly one group of threads, and leaves none; but with
-- less than 12 CPUs the alceml workers share the CPU of jc_singleton, and have no other, and distribs and
-- pollers may share one CPU, when it is the only one of both.
pub calculate_core_allocations-IsPartition :
    (m : Machine) (alceml_count : ℕ) (vcpu_list : List ℕ)
    → IsPartition vcpu_list (calculate_core_allocations m alceml_count vcpu_list)
unfolding calculate_core_allocations
calculate_core_allocations-IsPartition m alceml_count vcpu_list = record {
  none_remains = rest.none_remains;
  shared = λ e.
      same_workers m a
      ∙ shared_first m (workers alceml_count vcpu_list) (alcemls alceml_count vcpu_list) vcpu_list
          (shares_worker vcpu_list) e
      ∙ sym (same_singleton m a);
  once = elim rest.given [
    | inl (same, one, h) ↦
        inl
          (same, one, λ x. omega (arith, same_first m a (shares_worker vcpu_list) x, h x, splits x))
    | inr h ↦ inr (λ x. omega (arith, same_first m a (shares_worker vcpu_list) x, h x, splits x))
  ];
}
  where
    a : Allocation
    a = allocate_first m alceml_count vcpu_list

    splits :
        (x : ℕ)
        → in_first (shares_worker vcpu_list) x a + occurrences x a.remaining
          ≡ bit (contains vcpu_list x)
    splits x =
        reserve_first-splits m (workers alceml_count vcpu_list) (alcemls alceml_count vcpu_list)
          vcpu_list x (shares_worker vcpu_list)

    rest : Rest a.remaining (allocate_rest m a)
    rest = allocate_rest-Rest m a (λ x. ground (arith, splits x))
