-- ===== src/Utils/Masks/Hex.antt =====
-- A number written in hexadecimal digits is read back.
use sbcli.Prelude.{
  ℕ, zero, suc, ◌+◌, ◌*◌, ◌/◌, ◌%◌, ◌<◌, Bool, true, false, some, [], ◌∷◌, ◌≡◌, refl, ◌∙◌, ap,
  arith, ltb, if-cases,
}
use sbcli.Utils.Masks.{Text, hex_digit, format_from, digit_value, read_digits, read_number, int_16}

digit_value-hex_digit : (d : ℕ) → d < 16 → digit_value (hex_digit d) ≡ some d
digit_value-hex_digit d h = ground arith

read_digit :
    (before d : ℕ) (cs : Text)
    → d < 16
    → read_digits before (hex_digit d ∷ cs) ≡ read_digits (before * 16 + d) cs
unfolding read_digits
read_digit before d cs h = rw (digit_value-hex_digit d h, read_digits) refl

read_digits-format_from :
    (fuel m : ℕ) (later : Text)
    → m < fuel
    → read_digits 0 (format_from fuel m later) ≡ read_digits m later
unfolding format_from
read_digits-format_from zero m later h = absurd (omega (arith, h))
read_digits-format_from (suc fuel) m later h =
    if-cases (λ (cs : Text). read_digits 0 cs ≡ read_digits m later) (ltb m 16)
      (λ e.
        read_digit 0 (m % 16) later (omega arith)
        ∙ ap (λ k. read_digits k later) (ground (arith, e)))
      (λ e.
        read_digits-format_from fuel (m / 16) (hex_digit (m % 16) ∷ later) (ground (arith, h, e))
        ∙ read_digit (m / 16) (m % 16) later (omega arith)
        ∙ ap (λ k. read_digits k later) (omega arith))

abbrev has_digit : Text → Bool
has_digit [] = false
has_digit (c ∷ cs) = true

has_digit-format_from : (fuel m c : ℕ) (cs : Text) → has_digit (format_from fuel m (c ∷ cs)) ≡ true
unfolding format_from
has_digit-format_from zero m c cs = refl
has_digit-format_from (suc fuel) m c cs =
    if-cases (λ (t : Text). has_digit t ≡ true) (ltb m 16) (λ _. refl)
      (λ _. has_digit-format_from fuel (m / 16) (hex_digit (m % 16)) (c ∷ cs))

formatted : (m : ℕ) → has_digit (format_from (suc m) m []) ≡ true
unfolding format_from
formatted m =
    if-cases (λ (t : Text). has_digit t ≡ true) (ltb m 16) (λ _. refl)
      (λ _. has_digit-format_from m (m / 16) (hex_digit (m % 16)) [])

read_some : (t : Text) → has_digit t ≡ true → read_number t ≡ read_digits 0 t
read_some [] h = absurd (ground arith)
read_some (c ∷ cs) h = refl

read_none : (k : ℕ) → read_digits k [] ≡ some k
unfolding read_digits
read_none k = refl

-- Reading what was formatted with its prefix gives the number.
pub int_16-format_from : (m : ℕ) → int_16 (48 ∷ 120 ∷ format_from (suc m) m []) ≡ some m
unfolding int_16
int_16-format_from m =
    read_some (format_from (suc m) m []) (formatted m)
    ∙ read_digits-format_from (suc m) m [] (omega arith)
    ∙ read_none m
