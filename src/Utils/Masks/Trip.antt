-- ===== src/Utils/Masks/Trip.antt =====
-- A CPU mask and the list of its CPUs.
use sbcli.Prelude.{
  ℕ, zero, suc, ◌+◌, ◌*◌, ◌/◌, ◌%◌, ◌≤◌, ◌<◌, Bool, false, ◌||◌, some, List, [], ◌∷◌, ◌≡◌, refl,
  arith, ◌==◌, ap, sym, if◌then◌else◌, contains,
}
use sbcli.Utils.Masks.Hex.{int_16-format_from}
use sbcli.Utils.Masks.{set_bit, generate_mask_onto, generate_mask, cpu_list_from, hexa_to_cpu_list}

-- whether a bit of a mask is 1
abbrev has_bit : ℕ → ℕ → Bool
has_bit zero mask = mask % 2 == 1
has_bit (suc core) mask = has_bit core (mask / 2)

has_bit-zero : (c : ℕ) → has_bit c 0 ≡ false
has_bit-zero zero = refl
has_bit-zero (suc c) = has_bit-zero c

half : (m x : ℕ) → (m % 2 + 2 * x) / 2 ≡ x
half m x = omega arith

last_bit : (m x d : ℕ) → ((m % 2 + 2 * x) % 2 == 1) ≡ (suc d == 0 || m % 2 == 1)
last_bit m x d = ground arith

set_first : (m : ℕ) → (if m % 2 == 1 then m else m + 1) / 2 ≡ m / 2
set_first m = ground arith

has_bit-set_bit : (c d m : ℕ) → has_bit c (set_bit d m) ≡ (d == c || has_bit c m)
unfolding set_bit
has_bit-set_bit zero zero m = ground arith
has_bit-set_bit zero (suc d) m = last_bit m (set_bit d (m / 2)) d
has_bit-set_bit (suc c) zero m = ground (arith, ap (has_bit c) (set_first m))
has_bit-set_bit (suc c) (suc d) m =
    ground (arith, ap (has_bit c) (half m (set_bit d (m / 2))), has_bit-set_bit c d (m / 2))

has_bit-generate_mask_onto :
    (cores : List ℕ) (m c : ℕ)
    → has_bit c (generate_mask_onto m cores) ≡ (contains cores c || has_bit c m)
unfolding generate_mask_onto
has_bit-generate_mask_onto [] m c = refl
has_bit-generate_mask_onto (d ∷ ds) m c =
    ground (arith, has_bit-generate_mask_onto ds (set_bit d m) c, has_bit-set_bit c d m)

below : (fuel p m q : ℕ) → q < p → contains (cpu_list_from fuel p m) q ≡ false
unfolding cpu_list_from
below zero p m q h = refl
below (suc fuel) p m q h = ground (arith, below fuel (p + 1) (m / 2) q (omega (arith, h)))

contains-cpu_list_from :
    (fuel p m c : ℕ) → m ≤ fuel → contains (cpu_list_from fuel p m) (p + c) ≡ has_bit c m
unfolding cpu_list_from
contains-cpu_list_from zero p m c h =
    (let e : m ≡ 0 = omega (arith, h) in rw e (sym (has_bit-zero c)))
contains-cpu_list_from (suc fuel) p m zero h =
    ground (arith, below fuel (p + 1) (m / 2) (p + 0) (omega arith))
contains-cpu_list_from (suc fuel) p m (suc c) h =
    ground (arith, has_bit-zero c, contains-cpu_list_from fuel (p + 1) (m / 2) c (omega (arith, h)))

-- The list read back from the text of the mask of some CPUs has exactly these CPUs.
pub hexa_to_cpu_list-generate_mask :
    (cores : List ℕ)
    → (cpus : List ℕ) × ((hexa_to_cpu_list (generate_mask cores) ≡ some cpus)
        × ((c : ℕ) → contains cpus c ≡ contains cores c))
unfolding hexa_to_cpu_list generate_mask
hexa_to_cpu_list-generate_mask cores =
    (cpu_list_from mask 0 mask, (rw (int_16-format_from mask, hexa_to_cpu_list) refl, same))
  where
    mask : ℕ
    mask = generate_mask_onto 0 cores

    same : (c : ℕ) → contains (cpu_list_from mask 0 mask) c ≡ contains cores c
    same c = ground (
      arith,
      contains-cpu_list_from mask 0 mask c (omega arith),
      has_bit-generate_mask_onto cores 0 c,
      has_bit-zero c,
    )
