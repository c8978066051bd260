-- ===== src/Utils/Sizes/Margins.antt =====
-- What the system keeps of the cores, and how far huge pages are rounded up.
use sbcli.Prelude.{ℕ, zero, suc, ◌+◌, ◌-◌, ◌*◌, ◌/◌, ◌%◌, ◌≤◌, ◌<◌, arith}
use sbcli.Utils.Sizes.{calculate_unisolated_cores, leading_digits, adjust_hugepages}

times_mono : (n a b : ℕ) → a ≤ b → n * a ≤ n * b
times_mono n a b h = grind arith

leading_digits-below : (fuel n : ℕ) → n ≤ fuel → leading_digits fuel n < 100
unfolding leading_digits
leading_digits-below zero n h = omega arith
leading_digits-below (suc fuel) n h = ground (arith, leading_digits-below fuel (n / 10))

-- With a core and a percentage below 100, at least one core is left to the system, and no more
-- than there are.
pub calculate_unisolated_cores-between :
    (total cores_percentage : ℕ)
    → 0 < total
    → cores_percentage < 100
    → (1 ≤ calculate_unisolated_cores total cores_percentage)
      × (calculate_unisolated_cores total cores_percentage ≤ total)
unfolding calculate_unisolated_cores
calculate_unisolated_cores-between total cores_percentage some_core below = (
  ground (arith, times_mono total 1 (100 - cores_percentage)),
  ground (arith, times_mono total (100 - cores_percentage) 100),
)

-- The adjusted number of huge pages is above the number asked for, by at most 737: up to 500 to
-- the next multiple of 500, then 24 times the two leading digits, read as tenths.
pub adjust_hugepages-between :
    (hugepages : ℕ)
    → (hugepages < adjust_hugepages hugepages) × (adjust_hugepages hugepages ≤ hugepages + 737)
unfolding adjust_hugepages
adjust_hugepages-between hugepages =
    let rounded = hugepages + (500 - hugepages % 500) in
    (omega arith, omega (arith, leading_digits-below rounded rounded (omega arith)))
