-- ===== src/Utils/Masks.antt =====
-- CPU masks: hexa_to_cpu_list and generate_mask of simplyblock_core/utils. A text is the list of its
-- characters' code points; of what int(text, 16) reads, a sign, spaces and underscores are left out.
pub mod Hex
pub mod Trip
use sbcli.Prelude.{
  ℕ, zero, suc, ◌+◌, ◌-◌, ◌*◌, ◌/◌, ◌%◌, ◌&&◌, ◌||◌, Option, none, some, List, [], ◌∷◌, ◌==◌, ltb,
  leb, if◌then◌else◌,
}

-- mask | (1 << core), bit by bit
pub set_bit : ℕ → ℕ → ℕ
set_bit zero mask = if mask % 2 == 1 then mask else mask + 1
set_bit (suc core) mask = mask % 2 + 2 * set_bit core (mask / 2)

-- The loop of generate_mask, from the mask it starts with.
pub generate_mask_onto : ℕ → List ℕ → ℕ
unfolding set_bit
generate_mask_onto mask [] = mask
generate_mask_onto mask (core ∷ cores) = generate_mask_onto (set_bit core mask) cores

-- A text, by its characters' code points.
abbrev pub Text : Type 0
Text = List ℕ

-- A digit of the format X: "0" to "9", "A" to "F".
abbrev pub hex_digit : ℕ → ℕ
hex_digit d = if ltb d 10 then 48 + d else 55 + d

-- The digits of a number before those that are there; more fuel than the number is enough.
pub format_from : (fuel : ℕ) → ℕ → Text → Text
format_from zero m later = later
format_from (suc fuel) m later =
    let rest = format_from fuel (m / 16) (hex_digit (m % 16) ∷ later) in
    if ltb m 16 then hex_digit (m % 16) ∷ later else rest

-- f'0x{mask:X}'
pub generate_mask : List ℕ → Text
unfolding generate_mask_onto format_from
generate_mask cores =
    let mask = generate_mask_onto 0 cores in 48 ∷ 120 ∷ format_from (suc mask) mask []

-- The value of a digit in either case.
abbrev pub digit_value : ℕ → Option ℕ
digit_value c =
    if leb 48 c && leb c 57
    then some (c - 48)
    else if leb 65 c && leb c 70
    then some (c - 55)
    else if leb 97 c && leb c 102
    then some (c - 87)
    else none

-- The number of some digits, from the number of those before them.
pub read_digits : ℕ → Text → Option ℕ
read_digits before [] = some before
read_digits before (c ∷ cs) = elim (digit_value c) [
  | none ↦ none
  | some d ↦ read_digits (before * 16 + d) cs
]

abbrev pub read_number : Text → Option ℕ
read_number [] = none
read_number (c ∷ cs) = read_digits 0 (c ∷ cs)

-- int(text, 16), with or without "0x"; `none` is the ValueError.
pub int_16 : Text → Option ℕ
unfolding read_digits
int_16 [] = none
int_16 (c ∷ []) = read_number (c ∷ [])
int_16 (c ∷ d ∷ cs) =
    if c == 48 && (d == 120 || d == 88) then read_number cs else read_number (c ∷ d ∷ cs)

-- The loop of hexa_to_cpu_list; it halves the mask, so as much fuel as the mask is enough.
pub cpu_list_from : (fuel : ℕ) → (position mask : ℕ) → List ℕ
cpu_list_from zero position mask = []
cpu_list_from (suc fuel) position mask =
    let rest = cpu_list_from fuel (position + 1) (mask / 2) in
    if mask == 0 then [] else if mask % 2 == 1 then position ∷ rest else rest

pub hexa_to_cpu_list : Text → Option (List ℕ)
unfolding cpu_list_from int_16
hexa_to_cpu_list text = elim (int_16 text) [
  | none ↦ none
  | some mask ↦ some (cpu_list_from mask 0 mask)
]
