-- ===== src/Utils/Cores/First.antt =====
-- The first groups of threads take what they get from the CPUs of the list.
use sbcli.Prelude.{
  ℕ, ◌+◌, Bool, true, false, List, [], ◌∷◌, ◌≡◌, refl, arith, ◌==◌, bit, if◌then◌else◌, contains,
}
use sbcli.Utils.Cores.{Machine, Reserved, reserve_n, insert, to_set, Allocation, reserve_first}
use sbcli.Utils.Cores.Kept.{
  occurrences, IsUnique, contains-occurrences, Reserves, reserve_n-Reserves,
}

occurrences-insert :
    (x v : ℕ) (xs : List ℕ) → occurrences x (insert v xs) ≡ bit (v == x) + occurrences x xs
occurrences-insert x v [] = omega arith
occurrences-insert x v (y ∷ ys) = ground (arith, occurrences-insert x v ys)

occurrences-to_set : (x : ℕ) (vs : List ℕ) → occurrences x (to_set vs) ≡ bit (contains vs x)
unfolding to_set
occurrences-to_set x [] = refl
occurrences-to_set x (v ∷ vs) = ground (
  arith,
  occurrences-to_set x vs,
  occurrences-insert x v (to_set vs),
  contains-occurrences v (to_set vs),
  occurrences-to_set v vs,
)

-- how often the first groups have a CPU: the workers count where they do not share one
abbrev pub in_first : Bool → ℕ → Allocation → ℕ
in_first shares x a =
    occurrences x a.app_thread
    + occurrences x a.jm
    + occurrences x a.jc_singleton
    + (if shares then 0 else occurrences x a.alceml_worker)
    + occurrences x a.alceml

pub Unique-after :
    (n : ℕ) (xs : List ℕ) (r : Reserved) → IsUnique xs → Reserves n xs r → IsUnique r.remaining
Unique-after n xs r u h x = omega (arith, u x, h.splits.each x)

module _ (m : Machine) (worker_number alceml_number : ℕ) (vcpu_list : List ℕ) (x : ℕ) where
  r1 : Reserved
  r1 = reserve_n m 1 (to_set vcpu_list)

  r2 : Reserved
  unfolding r1
  r2 = reserve_n m 1 r1.remaining

  r3 : Reserved
  unfolding r2
  r3 = reserve_n m 1 r2.remaining

  -- the first three groups
  three :
      IsUnique r3.remaining
      × (occurrences x r1.vcpus
            + occurrences x r2.vcpus
            + occurrences x r3.vcpus
            + occurrences x r3.remaining
          ≡ bit (contains vcpu_list x))
  unfolding r3
  three = (
    Unique-after 1 r2.remaining r3 u2 h3,
    omega (
      arith,
      occurrences-to_set x vcpu_list,
      h1.splits.each x,
      h2.splits.each x,
      h3.splits.each x,
    ),
  )
    where
      u0 : IsUnique (to_set vcpu_list)
      u0 y = ground (arith, occurrences-to_set y vcpu_list)

      h1 : Reserves 1 (to_set vcpu_list) r1
      h1 = reserve_n-Reserves m 1 (to_set vcpu_list) u0

      u1 : IsUnique r1.remaining
      u1 = Unique-after 1 (to_set vcpu_list) r1 u0 h1

      h2 : Reserves 1 r1.remaining r2
      h2 = reserve_n-Reserves m 1 r1.remaining u1

      u2 : IsUnique r2.remaining
      u2 = Unique-after 1 r1.remaining r2 u1 h2

      h3 : Reserves 1 r2.remaining r3
      h3 = reserve_n-Reserves m 1 r2.remaining u2

  pub reserve_first-splits :
      (shares : Bool)
      → let a = reserve_first m shares worker_number alceml_number vcpu_list in
        in_first shares x a + occurrences x a.remaining ≡ bit (contains vcpu_list x)
  unfolding reserve_first three
  reserve_first-splits true =
      let alceml = reserve_n-Reserves m alceml_number r3.remaining three.0 in
      omega (arith, three.1, alceml.splits.each x)
  reserve_first-splits false =
      let worker = reserve_n-Reserves m worker_number r3.remaining three.0 in
      let r4 = reserve_n m worker_number r3.remaining in
      let alceml =
        reserve_n-Reserves m alceml_number r4.remaining
          (Unique-after worker_number r3.remaining r4 three.0 worker) in
      omega (arith, three.1, worker.splits.each x, alceml.splits.each x)

-- Where the workers share a CPU, they have what jc_singleton has.
pub shared_first :
    (m : Machine) (worker_number alceml_number : ℕ) (vcpu_list : List ℕ) (shares : Bool)
    → shares ≡ true
    → let a = reserve_first m shares worker_number alceml_number vcpu_list in
      a.alceml_worker ≡ a.jc_singleton
unfolding reserve_first
shared_first m worker_number alceml_number vcpu_list shares e = rw e refl
