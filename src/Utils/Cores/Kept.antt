-- ===== src/Utils/Cores/Kept.antt =====
-- A reservation loses no CPU and gives none out twice.
use sbcli.Prelude.{
  ℕ, zero, suc, ◌+◌, ◌-◌, ◌≤◌, Bool, true, false, none, List, [], ◌∷◌, ◌++◌, ◌≡◌, ◌⊎◌, inl, inr,
  refl, arith, ◌==◌, ltb, leb, ◌<◌, ltb→lt, ap, if◌then◌else◌, contains, count, length, if-cases,
  option-cases, Bool-cases,
}
use sbcli.Utils.Cores.{Machine, sibling_of, drop, Reserved, reserve, reserve_loop, reserve_n, take}

-- how often a CPU stands in a list
abbrev pub occurrences : ℕ → List ℕ → ℕ
occurrences x xs = count (λ y. y == x) xs

-- No CPU stands in the list twice.
abbrev pub IsUnique : List ℕ → Type 0
IsUnique xs = (x : ℕ) → occurrences x xs ≤ 1

pub occurrences-append :
    (x : ℕ) (xs ys : List ℕ) → occurrences x (xs ++ ys) ≡ occurrences x xs + occurrences x ys
occurrences-append x [] ys = omega arith
occurrences-append x (y ∷ xs) ys = ground (arith, occurrences-append x xs ys)

pub length-append : (xs ys : List ℕ) → length (xs ++ ys) ≡ length xs + length ys
length-append [] ys = omega arith
length-append (x ∷ xs) ys = ground (arith, length-append xs ys)

occurrences-drop :
    (x v : ℕ) (xs : List ℕ) → occurrences x (drop v xs) ≡ (if v == x then 0 else occurrences x xs)
occurrences-drop x v [] = ground arith
occurrences-drop x v (y ∷ ys) = ground (arith, occurrences-drop x v ys)

pub contains-occurrences : (x : ℕ) (xs : List ℕ) → contains xs x ≡ ltb 0 (occurrences x xs)
contains-occurrences x [] = refl
contains-occurrences x (y ∷ ys) = ground (arith, contains-occurrences x ys)

length-drop : (v : ℕ) (xs : List ℕ) → length (drop v xs) + occurrences v xs ≡ length xs
length-drop v [] = omega arith
length-drop v (y ∷ ys) = ground (arith, length-drop v ys)

-- What a reservation from `before` keeps: each CPU is in one of the two parts, as often as before.
pub record Splits (before : List ℕ) (r : Reserved) : Type 0 where
  pub each : (x : ℕ) → occurrences x r.vcpus + occurrences x r.remaining ≡ occurrences x before
  pub sizes : length r.vcpus + length r.remaining ≡ length before

reserve-Splits :
    (m : Machine) (v : ℕ) (b : Bool) (xs : List ℕ) → IsUnique xs → Splits xs (reserve m v b xs)
unfolding reserve
reserve-Splits m v b xs u =
    if-cases (Splits xs) (contains xs v)
      (λ e.
        option-cases (Splits xs) (if b then sibling_of m v else none) (λ _. one e)
          (λ w _. if-cases (Splits xs) (contains (drop v xs) w) (λ f. two w e f) (λ _. one e)))
      (λ _. record { each = λ x. omega arith; sizes = omega arith })
  where
    one : contains xs v ≡ true → Splits xs (record { vcpus = v ∷ []; remaining = drop v xs })
    one e = record {
      each = λ x. ground (arith, occurrences-drop x v xs, contains-occurrences v xs, u v);
      sizes = ground (arith, length-drop v xs, contains-occurrences v xs, u v);
    }

    two :
        (w : ℕ)
        → contains xs v ≡ true
        → contains (drop v xs) w ≡ true
        → Splits xs (record { vcpus = v ∷ w ∷ []; remaining = drop w (drop v xs) })
    two w e f = record {
      each = λ x. ground (
        arith,
        occurrences-drop x v xs,
        contains-occurrences v xs,
        u v,
        u w,
        occurrences-drop x w (drop v xs),
        occurrences-drop w v xs,
        contains-occurrences w (drop v xs),
      );
      sizes = ground (
        arith,
        length-drop v xs,
        contains-occurrences v xs,
        u v,
        u w,
        length-drop w (drop v xs),
        occurrences-drop w v xs,
        contains-occurrences w (drop v xs),
      );
    }

-- The CPUs that remain are the ones asked about at most as often as before, and not `v` any more.
pub record Shrinks (v : ℕ) (before after : List ℕ) : Type 0 where
  pub fewer : (x : ℕ) → occurrences x after ≤ occurrences x before
  pub gone : occurrences v after ≡ 0

pub reserve-Shrinks :
    (m : Machine) (v : ℕ) (b : Bool) (xs : List ℕ) → Shrinks v xs (reserve m v b xs).remaining
unfolding reserve
reserve-Shrinks m v b xs =
    if-cases P (contains xs v)
      (λ e.
        option-cases P (if b then sibling_of m v else none) (λ _. dropped)
          (λ w _. if-cases P (contains (drop v xs) w) (λ f. twice w) (λ _. dropped)))
      (λ e. record { fewer = λ x. omega arith; gone = ground (arith, contains-occurrences v xs) })
  where
    P : Reserved → Type 0
    P r = Shrinks v xs r.remaining

    dropped : Shrinks v xs (drop v xs)
    dropped = record {
      fewer = λ x. ground (arith, occurrences-drop x v xs);
      gone = ground (arith, occurrences-drop v v xs);
    }

    twice : (w : ℕ) → Shrinks v xs (drop w (drop v xs))
    twice w = record {
      fewer = λ x. ground (arith, occurrences-drop x v xs, occurrences-drop x w (drop v xs));
      gone = ground (arith, occurrences-drop v v xs, occurrences-drop v w (drop v xs));
    }

pub reserve-length :
    (m : Machine) (v : ℕ) (b : Bool) (xs : List ℕ)
    → length (reserve m v b xs).vcpus ≤ (if b then 2 else 1)
unfolding reserve
reserve-length m v true xs = ground arith
reserve-length m v false xs = ground arith

module _ (m : Machine) (n : ℕ) (before : List ℕ) (unique : IsUnique before) where
  reserve_loop-Splits :
      (vs : List ℕ) (a : Reserved) → Splits before a → Splits before (reserve_loop m n vs a)
  unfolding reserve_loop
  reserve_loop-Splits [] a h = h
  reserve_loop-Splits (v ∷ vs) a h =
      if-cases (Splits before) (leb n (length (a.vcpus ++ r.vcpus))) (λ _. next)
        (λ _. reserve_loop-Splits vs b next)
    where
      r : Reserved
      r = reserve m v (leb 2 (n - length a.vcpus)) a.remaining

      b : Reserved
      b = record { vcpus = a.vcpus ++ r.vcpus; remaining = r.remaining }

      split : Splits a.remaining r
      split =
          reserve-Splits m v (leb 2 (n - length a.vcpus)) a.remaining
            (λ y. omega (arith, h.each y, unique y))

      next : Splits before b
      next = record {
        each = λ x. omega (arith, occurrences-append x a.vcpus r.vcpus, h.each x, split.each x);
        sizes = omega (arith, length-append a.vcpus r.vcpus, h.sizes, split.sizes);
      }

pub none_left : (xs : List ℕ) → ((x : ℕ) → occurrences x xs ≤ 0) → xs ≡ []
none_left [] h = refl
none_left (x ∷ xs) h = ground (arith, h x)

-- Either as many CPUs as asked for were reserved, or none remains.
abbrev pub Fills : ℕ → Reserved → Type 0
Fills n r = (length r.vcpus ≤ n) × ((length r.vcpus ≡ n) ⊎ (r.remaining ≡ []))

module _ (m : Machine) (n : ℕ) where
  reserve_loop-Fills :
      (vs : List ℕ) (a : Reserved)
      → length a.vcpus < n
      → ((x : ℕ) → occurrences x a.remaining ≤ occurrences x vs)
      → Fills n (reserve_loop m n vs a)
  unfolding reserve_loop
  reserve_loop-Fills [] a l h = (omega (arith, l), inr (none_left a.remaining h))
  reserve_loop-Fills (v ∷ vs) a l h =
      if-cases (Fills n) (leb n (length (a.vcpus ++ r.vcpus)))
        (λ e. (fits, inl (ground (arith, fits)))) (λ e. reserve_loop-Fills vs b (ground arith) next)
    where
      r : Reserved
      r = reserve m v (leb 2 (n - length a.vcpus)) a.remaining

      b : Reserved
      b = record { vcpus = a.vcpus ++ r.vcpus; remaining = r.remaining }

      fits : length b.vcpus ≤ n
      fits = ground (
        arith,
        l,
        length-append a.vcpus r.vcpus,
        reserve-length m v (leb 2 (n - length a.vcpus)) a.remaining,
      )

      shrinks : Shrinks v a.remaining r.remaining
      shrinks = reserve-Shrinks m v (leb 2 (n - length a.vcpus)) a.remaining

      next : (x : ℕ) → occurrences x b.remaining ≤ occurrences x vs
      next x = elim (Bool-cases (v == x)) [
        | inl e ↦ ground (arith, shrinks.gone)
        | inr e ↦ ground (arith, shrinks.fewer x, h x)
      ]

take-all : (n : ℕ) (xs : List ℕ) → length xs ≤ n → take n xs ≡ xs
take-all zero [] h = refl
take-all zero (x ∷ xs) h = ground arith
take-all (suc n) [] h = refl
take-all (suc n) (x ∷ xs) h = ap (λ ys. x ∷ ys) (take-all n xs (omega (arith, h)))

-- What reserve_n promises of the CPUs that remain.
pub record Reserves (n : ℕ) (before : List ℕ) (r : Reserved) : Type 0 where
  pub splits : Splits before r
  pub fills : Fills n r

pub reserve_n-Reserves :
    (m : Machine) (n : ℕ) (xs : List ℕ) → IsUnique xs → Reserves n xs (reserve_n m n xs)
unfolding reserve_n
reserve_n-Reserves m n xs u =
    if-cases (Reserves n xs) (ltb 0 n)
      (λ e. cut (reserve_loop m n xs start) (record {
        splits =
            reserve_loop-Splits m n xs u xs start
              (record { each = λ x. omega arith; sizes = omega arith });
        fills = reserve_loop-Fills m n xs start (ltb→lt 0 n e) (λ x. omega arith);
      }))
      (λ e. record {
        splits = record { each = λ x. omega arith; sizes = omega arith };
        fills = (omega arith, inl (ground arith));
      })
  where
    start : Reserved
    start = record { vcpus = []; remaining = xs }

    cut :
        (r : Reserved)
        → Reserves n xs r
        → Reserves n xs (record { vcpus = take n r.vcpus; remaining = r.remaining })
    cut r h = rw (take-all n r.vcpus h.fills.0) h
