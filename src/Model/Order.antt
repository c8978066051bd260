-- ===== src/Model/Order.antt =====
-- The task table is ordered by its keys, so that a write of a stored task replaces it.
use sbcli.Prelude.{
  ◌≤◌, Bool, true, List, [], ◌∷◌, ◌≡◌, ◌⊎◌, inl, inr, arith, bit, ◌==◌, count, find, reverse,
  reverse_onto, some, All, find-passes, Bool-cases,
}
use sbcli.Model.Records.{Name, Task, Db}
use sbcli.Model.Query.{put_task, same_key, key_lt, get_task_by_id}

abbrev pub IsSorted : List Task → Type 0
IsSorted [] = Unit
IsSorted (t ∷ ts) = All (λ u. key_lt t u ≡ true) ts × IsSorted ts

-- `t` is one of the tasks.
abbrev pub In : Task → List Task → Type 0
In t [] = ⊥
In t (u ∷ us) = (t ≡ u) ⊎ In t us

put_task-above :
    (v t : Task) (us : List Task)
    → key_lt v t ≡ true
    → All (λ u. key_lt v u ≡ true) us
    → All (λ u. key_lt v u ≡ true) (put_task t us)
unfolding put_task
put_task-above v t [] h k = (h, tt)
put_task-above v t (u ∷ us) h k = elim (Bool-cases (same_key t u)) [
  | inl e ↦ rw e (h, k.1)
  | inr e ↦ rw e (elim (Bool-cases (key_lt t u)) [
    | inl f ↦ rw f (h, (k.0, k.1))
    | inr f ↦ rw f (k.0, put_task-above v t us h k.1)
  ])
]

below-All :
    (t u : Task) (us : List Task)
    → key_lt t u ≡ true
    → All (λ v. key_lt u v ≡ true) us
    → All (λ v. key_lt t v ≡ true) us
below-All t u [] h k = tt
below-All t u (v ∷ vs) h k = (ground arith, below-All t u vs h k.1)

same-All :
    (t u : Task) (us : List Task)
    → same_key t u ≡ true
    → All (λ v. key_lt u v ≡ true) us
    → All (λ v. key_lt t v ≡ true) us
same-All t u [] h k = tt
same-All t u (v ∷ vs) h k = (ground arith, same-All t u vs h k.1)

pub put_task-IsSorted : (t : Task) (us : List Task) → IsSorted us → IsSorted (put_task t us)
unfolding put_task
put_task-IsSorted t [] h = (tt, tt)
put_task-IsSorted t (u ∷ us) h = elim (Bool-cases (same_key t u)) [
  | inl e ↦ rw e (same-All t u us e h.0, h.1)
  | inr e ↦ rw e (elim (Bool-cases (key_lt t u)) [
    | inl f ↦ rw f ((f, below-All t u us f h.0), h)
    | inr f ↦ rw f (put_task-above u t us (ground arith) h.0, put_task-IsSorted t us h.1)
  ])
]

pub All-In {ℓ} : (P : Task → Type ℓ) (t : Task) (us : List Task) → All P us → In t us → P t
All-In P t [] h m = absurd m
All-In P t (u ∷ us) h (inl e) = rw e h.0
All-In P t (u ∷ us) h (inr m) = All-In P t us h.1 m

-- Writing a stored task anew adds nothing to a count that the new task passes only if the old did.
pub count-replace :
    (p : Task → Bool) (u t : Task) (us : List Task)
    → IsSorted us
    → In t us
    → same_key u t ≡ true
    → bit (p u) ≤ bit (p t)
    → count p (put_task u us) ≤ count p us
unfolding put_task
count-replace p u t [] s m k h = absurd m
count-replace p u t (v ∷ vs) s (inl e) k h = ground arith
count-replace p u t (v ∷ vs) s (inr m) k h =
    ground (arith, All-In (λ w. key_lt v w ≡ true) t vs s.0 m, count-replace p u t vs s.1 m k h)

In-reverse_onto : (t : Task) (us acc : List Task) → In t (reverse_onto us acc) → In t us ⊎ In t acc
In-reverse_onto t [] acc m = inr m
In-reverse_onto t (u ∷ us) acc m = elim (In-reverse_onto t us (u ∷ acc) m) [
  | inl a ↦ inl (inr a)
  | inr b ↦ elim b [ inl e ↦ inl (inl e) | inr c ↦ inr c ]
]

find-In : (p : Task → Bool) (t : Task) (us : List Task) → find p us ≡ some t → In t us
find-In p t [] h = cc
find-In p t (u ∷ us) h = elim (Bool-cases (p u)) [
  | inl e ↦ inl (ground arith)
  | inr e ↦ inr (find-In p t us (ground arith))
]

-- What get_task_by_id finds is stored, under the uuid asked for.
pub get_task_by_id-In :
    (id : Name) (t : Task) (db : Db) → get_task_by_id id db ≡ some t → In t db.tasks × (t.uuid ≡ id)
get_task_by_id-In id t db h = (
  elim (In-reverse_onto t db.tasks [] (find-In (λ u. u.uuid == id) t (reverse db.tasks) h)) [
    | inl m ↦ m
    | inr m ↦ absurd m
  ],
  ground (arith, find-passes (λ (u : Task). u.uuid == id) (reverse db.tasks) t h),
)
