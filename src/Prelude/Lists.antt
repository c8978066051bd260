-- ===== src/Prelude/Lists.antt =====
-- Lists and the tests that the code makes on them, over the native numbers.
use Prim.Native.Nat.{ℕ, suc, ◌+◌}
use mathlib.Core.Path.{◌≡◌, subst}
use mathlib.Core.Bool.{Bool, true, false, ◌||◌}
use mathlib.Core.List.{List, [], ◌∷◌}
use mathlib.Core.Option.{Option, none, some}
use native.Mathlib.Omega.{arith}
use sbcli.Prelude.Tests.{◌==◌, bit, if◌then◌else◌}

module _ {ℓ} {A : Type ℓ} where
  abbrev pub length : List A → ℕ
  length [] = 0
  length (x ∷ xs) = suc (length xs)

  -- the elements that pass a test, in their order
  abbrev pub keep : (A → Bool) → List A → List A
  keep p [] = []
  keep p (x ∷ xs) = let rest = keep p xs in if p x then x ∷ rest else rest

  -- how many elements pass a test
  abbrev pub count : (A → Bool) → List A → ℕ
  count p [] = 0
  count p (x ∷ xs) = bit (p x) + count p xs

  -- the first element that passes a test
  abbrev pub find : (A → Bool) → List A → Option A
  find p [] = none
  find p (x ∷ xs) = if p x then some x else find p xs

  abbrev pub any : (A → Bool) → List A → Bool
  any p [] = false
  any p (x ∷ xs) = p x || any p xs

  abbrev pub reverse_onto : List A → List A → List A
  reverse_onto [] acc = acc
  reverse_onto (x ∷ xs) acc = reverse_onto xs (x ∷ acc)

  abbrev pub reverse : List A → List A
  reverse xs = reverse_onto xs []

-- `x in xs`
abbrev pub contains : List ℕ → ℕ → Bool
contains xs a = any (λ x. x == a) xs

-- A predicate on every element.
abbrev pub All {ℓ κ} : {A : Type ℓ} → (A → Type κ) → List A → Type κ
All P [] = Unit
All P (x ∷ xs) = P x × All P xs

module _ {ℓ} {A : Type ℓ} (p : A → Bool) where
  -- What a search finds passes the test.
  pub find-passes : (xs : List A) (a : A) → find p xs ≡ some a → p a ≡ true
  find-passes [] a h = ground arith
  find-passes (x ∷ xs) a h = ground (arith, find-passes xs a)

module _ {ℓ κ} {A : Type ℓ} (P : A → Type κ) {a : A} where
  found_first :
      (b : Bool) {x : A} {rest : Option A}
      → (if b then some x else rest) ≡ some a
      → P x
      → (rest ≡ some a → P a)
      → P a
  found_first true e h k = subst P (cc) h
  found_first false e h k = k e

  -- What a search finds has what every element has.
  pub find-All : (p : A → Bool) (xs : List A) → All P xs → find p xs ≡ some a → P a
  find-All p [] h e = absurd (ground arith)
  find-All p (x ∷ xs) h e = found_first (p x) e h.0 (find-All p xs h.1)
