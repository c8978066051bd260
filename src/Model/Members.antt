-- ===== src/Model/Members.antt =====
-- Which tasks are stored after a write, and which a query finds.
use sbcli.Prelude.{
  Bool, true, false, List, [], ◌∷◌, ◌≡◌, ◌⊎◌, inl, inr, arith, refl, sym, ◌==◌, keep, reverse_onto,
  Bool-cases, if-cases,
}
use sbcli.Model.Records.{Name, Task, Db}
use sbcli.Model.Query.{put_task, same_key, key_lt, get_job_tasks}
use sbcli.Model.Order.{IsSorted, In, All-In}

-- After a write, a stored task is the new one, or it was stored at another key.
pub In-put_task :
    (u t : Task) (ts : List Task)
    → IsSorted ts
    → In u (put_task t ts)
    → (u ≡ t) ⊎ (In u ts × (same_key t u ≡ false))
unfolding put_task
In-put_task u t [] s (inl e) = inl e
In-put_task u t [] s (inr m) = absurd m
In-put_task u t (v ∷ vs) s m =
    if-cases (λ ws. In u ws → R) (same_key t v) same
      (λ e.
        if-cases (λ ws. In u ws → R) (key_lt t v) (before e)
          (λ f. after e (λ n. In-put_task u t vs s.1 n)))
      m
  where
    above : In u vs → key_lt v u ≡ true
    above n = All-In (λ w. key_lt v w ≡ true) u vs s.0 n

    R : Type 0
    R = (u ≡ t) ⊎ (In u (v ∷ vs) × (same_key t u ≡ false))

    same : same_key t v ≡ true → In u (t ∷ vs) → R
    same e (inl f) = inl f
    same e (inr n) = inr (inr n, ground (arith, above n))

    before : same_key t v ≡ false → key_lt t v ≡ true → In u (t ∷ v ∷ vs) → R
    before e f (inl g) = inl g
    before e f (inr (inl g)) = inr (inl g, rw g e)
    before e f (inr (inr n)) = inr (inr n, ground (arith, above n))

    after :
        same_key t v ≡ false
        → (In u (put_task t vs) → (u ≡ t) ⊎ (In u vs × (same_key t u ≡ false)))
        → In u (v ∷ put_task t vs)
        → R
    after e rest (inl g) = inr (inl g, rw g e)
    after e rest (inr n) = elim (rest n) [ inl g ↦ inl g | inr (k, g) ↦ inr (inr k, g) ]

-- What is written is stored.
pub In-put_task_self : (t : Task) (ts : List Task) → In t (put_task t ts)
unfolding put_task
In-put_task_self t [] = inl refl
In-put_task_self t (u ∷ us) =
    if-cases (In t) (same_key t u) (λ _. inl refl)
      (λ _. if-cases (In t) (key_lt t u) (λ _. inl refl) (λ _. inr (In-put_task_self t us)))

In-keep : (p : Task → Bool) (u : Task) (ts : List Task) → In u ts → p u ≡ true → In u (keep p ts)
In-keep p u [] m h = absurd m
In-keep p u (t ∷ ts) (inl e) h = rw (sym e, h) (inl refl)
In-keep p u (t ∷ ts) (inr m) h = elim (Bool-cases (p t)) [
  | inl e ↦ rw e (inr (In-keep p u ts m h))
  | inr e ↦ rw e (In-keep p u ts m h)
]

In-reverse_onto : (u : Task) (ts acc : List Task) → In u ts ⊎ In u acc → In u (reverse_onto ts acc)
In-reverse_onto u [] acc (inl m) = absurd m
In-reverse_onto u [] acc (inr m) = m
In-reverse_onto u (t ∷ ts) acc (inl (inl e)) = In-reverse_onto u ts (t ∷ acc) (inr (inl e))
In-reverse_onto u (t ∷ ts) acc (inl (inr m)) = In-reverse_onto u ts (t ∷ acc) (inl m)
In-reverse_onto u (t ∷ ts) acc (inr m) = In-reverse_onto u ts (t ∷ acc) (inr (inr m))

-- A stored task is found in its cluster.
pub In-get_job_tasks :
    (u : Task) (c : Name) (db : Db)
    → In u db.tasks
    → (u.cluster_id == c) ≡ true
    → In u (get_job_tasks c db)
In-get_job_tasks u c db m h =
    In-reverse_onto u (keep (λ t. t.cluster_id == c) db.tasks) []
      (inl (In-keep (λ t. t.cluster_id == c) u db.tasks m h))
