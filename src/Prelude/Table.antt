-- ===== src/Prelude/Table.antt =====
-- A table of objects under a key: what write_to_db and remove of a model do to the stored objects.
use Prim.Native.Nat.{ℕ}
use mathlib.Core.Path.{◌≡◌, refl, ap, ◌∙◌}
use mathlib.Core.Logic.{◌≢◌, inl, inr}
use mathlib.Core.Bool.{Bool, false, not}
use mathlib.Core.List.{List, [], ◌∷◌, map}
use mathlib.Core.Option.{Option, none, some}
use native.Mathlib.Omega.{arith}
use sbcli.Prelude.Tests.{◌==◌, if◌then◌else◌, if-cases, Bool-cases}
use sbcli.Prelude.Lists.{find, keep, All}

module _ {A : Type 0} (key : A → ℕ) where
  -- A write: the object with its key is exchanged, or it is added.
  abbrev pub put : A → List A → List A
  put a [] = a ∷ []
  put a (b ∷ bs) = let rest = put a bs in if key b == key a then a ∷ bs else b ∷ rest

  abbrev pub get : ℕ → List A → Option A
  get k xs = find (λ x. key x == k) xs

  abbrev pub remove : ℕ → List A → List A
  remove k xs = keep (λ x. not (key x == k)) xs

  pub get-put : (a : A) (xs : List A) → get (key a) (put a xs) ≡ some a
  get-put a [] = ground arith
  get-put a (x ∷ xs) = ground (arith, get-put a xs)

  -- A write leaves the others as they are.
  pub get-put_ne : (a : A) (k : ℕ) (xs : List A) → key a ≢ k → get k (put a xs) ≡ get k xs
  get-put_ne a k [] h = ground arith
  get-put_ne a k (x ∷ xs) h = ground (arith, get-put_ne a k xs h)

  pub put-put : (a b : A) (xs : List A) → key a ≡ key b → put b (put a xs) ≡ put b xs
  put-put a b [] e = ground arith
  put-put a b (x ∷ xs) e = ground (arith, put-put a b xs e)

  -- Writing a stored object as it is makes no difference.
  pub put_self : (a : A) (xs : List A) → get (key a) xs ≡ some a → put a xs ≡ xs
  put_self a [] h = cc
  put_self a (x ∷ xs) h = ground (arith, put_self a xs)

  pub get-remove : (k : ℕ) (xs : List A) → get k (remove k xs) ≡ none
  get-remove k [] = refl
  get-remove k (x ∷ xs) = ground (arith, get-remove k xs)

  pub get-remove_ne : (k j : ℕ) (xs : List A) → k ≢ j → get j (remove k xs) ≡ get j xs
  get-remove_ne k j [] h = refl
  get-remove_ne k j (x ∷ xs) h = ground (arith, get-remove_ne k j xs h)

  pub remove_absent : (k : ℕ) (xs : List A) → get k xs ≡ none → remove k xs ≡ xs
  remove_absent k [] h = refl
  remove_absent k (x ∷ xs) h = ground (arith, remove_absent k xs)

  -- Writing an object before it is removed makes no difference.
  pub remove-put : (k : ℕ) (a : A) (xs : List A) → key a ≡ k → remove k (put a xs) ≡ remove k xs
  remove-put k a [] e = ground arith
  remove-put k a (x ∷ xs) e = ground (arith, remove-put k a xs e)

  -- No two objects have the same key.
  abbrev pub HasKeys : List A → Type 0
  HasKeys [] = Unit
  HasKeys (x ∷ xs) = All (λ b. (key x == key b) ≡ false) xs × HasKeys xs

  module _ (p : A → Bool) where
    keep-All :
        (x : A) (xs : List A)
        → All (λ b. (key x == key b) ≡ false) xs
        → All (λ b. (key x == key b) ≡ false) (keep p xs)
    keep-All x [] h = tt
    keep-All x (y ∷ ys) h =
        if-cases (All (λ b. (key x == key b) ≡ false)) (p y) (λ _. (h.0, keep-All x ys h.1))
          (λ _. keep-All x ys h.1)

    pub keep-HasKeys : (xs : List A) → HasKeys xs → HasKeys (keep p xs)
    keep-HasKeys [] h = tt
    keep-HasKeys (x ∷ xs) h =
        if-cases HasKeys (p x) (λ _. (keep-All x xs h.0, keep-HasKeys xs h.1))
          (λ _. keep-HasKeys xs h.1)

  pub remove_other : (k : ℕ) (xs : List A) → All (λ b. (k == key b) ≡ false) xs → remove k xs ≡ xs
  remove_other k [] h = refl
  remove_other k (x ∷ xs) h = ground (arith, remove_other k xs h.1, h.0)

  module _ (f : A → A) where
    -- The objects of a list are written, each as `f` makes it.
    abbrev pub put_all : List A → List A → List A
    put_all [] xs = xs
    put_all (a ∷ bs) xs = put_all bs (put (f a) xs)

    -- A first object that is not written stays.
    put_all-other :
        (x : A) (bs xs : List A)
        → ((a : A) → key (f a) ≡ key a)
        → All (λ b. (key x == key b) ≡ false) bs
        → put_all bs (x ∷ xs) ≡ x ∷ put_all bs xs
    put_all-other x [] xs h k = refl
    put_all-other x (b ∷ bs) xs h k =
        ap (put_all bs) (ground (arith, h b)) ∙ put_all-other x bs (put (f b) xs) h k.1

    module _ (p : A → Bool) where
      -- Where the keys differ, writing what a query finds changes just these objects.
      pub put_all-keep :
          (xs : List A)
          → ((a : A) → key (f a) ≡ key a)
          → HasKeys xs
          → put_all (keep p xs) xs ≡ map (λ x. if p x then f x else x) xs
      put_all-keep [] h k = refl
      put_all-keep (x ∷ xs) h k = elim (Bool-cases (p x)) [
        | inl e ↦ rw e (
            ap (put_all (keep p xs)) (ground (arith, h x))
            ∙ put_all-other (f x) (keep p xs) xs h (rw (h x) (keep-All p x xs k.0))
            ∙ ap (λ ys. f x ∷ ys) (put_all-keep xs h k.1))
        | inr e ↦ rw e (
            put_all-other x (keep p xs) xs h (keep-All p x xs k.0)
            ∙ ap (λ ys. x ∷ ys) (put_all-keep xs h k.1))
      ]

  module _ (P : A → Type 0) where
    pub put-All : (a : A) (xs : List A) → P a → All P xs → All P (put a xs)
    put-All a [] h k = (h, tt)
    put-All a (x ∷ xs) h k =
        if-cases (All P) (key x == key a) (λ _. (h, k.1)) (λ _. (k.0, put-All a xs h k.1))

    pub remove-All : (k : ℕ) (xs : List A) → All P xs → All P (remove k xs)
    remove-All k [] h = tt
    remove-All k (x ∷ xs) h =
        if-cases (All P) (not (key x == k)) (λ _. (h.0, remove-All k xs h.1))
          (λ _. remove-All k xs h.1)
