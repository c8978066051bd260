-- ===== src/Utils/Sizes.antt =====
-- The cores left to the system and the huge pages of a node: calculate_unisolated_cores,
-- adjust_hugepages and calculate_spdk_memory of simplyblock_core/utils.
pub mod Margins
use sbcli.Prelude.{
  ℕ, zero, suc, ◌+◌, ◌-◌, ◌*◌, ◌/◌, ◌%◌, ◌==◌, ltb, leb, if◌then◌else◌, Option, none, some,
}

-- math.ceil of a quotient, which is exact for numbers of this size.
abbrev pub ceil_percent : ℕ → ℕ
ceil_percent n = (n + 99) / 100

-- `total` is the number of cores; a percentage of 0 stands for none, and one above 100 is no
-- percentage.
pub calculate_unisolated_cores : (total cores_percentage : ℕ) → ℕ
calculate_unisolated_cores total cores_percentage =
    if cores_percentage == 0
    then if leb total 10
      then 1
      else if leb total 20
      then 2
      else if leb total 28
      then 3
      else ceil_percent (total * 15)
    else ceil_percent (total * (100 - cores_percentage))

-- The number that the first two digits of str(n) make, for n of two digits or more.
pub leading_digits : (fuel : ℕ) → ℕ → ℕ
leading_digits zero n = n
leading_digits (suc fuel) n =
    let rest = leading_digits fuel (n / 10) in if ltb n 100 then n else rest

-- float('d.e') * 24, cut to an integer: 24 times the number `de`, in tenths.
pub adjust_hugepages : ℕ → ℕ
unfolding leading_digits
adjust_hugepages hugepages =
    let rounded = hugepages + (500 - hugepages % 500) in
    rounded + leading_digits rounded rounded * 24 / 10

-- `(False, 0)` is `none`.
pub calculate_spdk_memory : (minimum_hp minimum_sys free_sys huge_total : ℕ) → Option ℕ
calculate_spdk_memory minimum_hp minimum_sys free_sys huge_total =
    if ltb (free_sys + huge_total) (minimum_hp + minimum_sys) then none else some minimum_hp
