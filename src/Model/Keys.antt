-- ===== src/Model/Keys.antt =====
-- Laws of the task table: writing a task at its key, and counting over a query.
use sbcli.Prelude.{
  true, ◌+◌, ◌≤◌, Bool, false, ◌&&◌, List, [], ◌∷◌, ◌≡◌, refl, arith, bit, ◌==◌, count, keep, find,
  reverse_onto, is_some,
}
use sbcli.Model.Records.{Name, Task, Db}
use sbcli.Model.Query.{same_key, put_task, get_job_tasks}

-- A write adds one task to a count at most.
pub count-put_task :
    (p : Task → Bool) (t : Task) (us : List Task) → count p (put_task t us) ≤ bit (p t) + count p us
unfolding put_task
count-put_task p t [] = omega arith
count-put_task p t (u ∷ us) = ground (arith, count-put_task p t us)

-- A search over reversed tasks that finds nothing counts nothing.
find-none-count : (p : Task → Bool) (ts : List Task) → is_some (find p ts) ≡ false → count p ts ≡ 0
find-none-count p [] h = refl
find-none-count p (t ∷ ts) h = ground (arith, find-none-count p ts)

count-reverse_onto :
    (p : Task → Bool) (ts acc : List Task)
    → count p (reverse_onto ts acc) ≡ count p ts + count p acc
count-reverse_onto p [] acc = omega arith
count-reverse_onto p (t ∷ ts) acc = omega (arith, count-reverse_onto p ts (t ∷ acc))

count-keep : (p q : Task → Bool) (ts : List Task) → count p (keep q ts) ≡ count (λ t. q t && p t) ts
count-keep p q [] = refl
count-keep p q (t ∷ ts) = ground (arith, count-keep p q ts)

pub count-get_job_tasks :
    (p : Task → Bool) (c : Name) (db : Db)
    → count p (get_job_tasks c db) ≡ count (λ t. t.cluster_id == c && p t) db.tasks
count-get_job_tasks p c db = omega (
  arith,
  count-reverse_onto p (keep (λ t. t.cluster_id == c) db.tasks) [],
  count-keep p (λ t. t.cluster_id == c) db.tasks,
)

-- A query that finds no task of a cluster: the table has none that passes.
pub not_found-count :
    (p : Task → Bool) (c : Name) (db : Db)
    → is_some (find p (get_job_tasks c db)) ≡ false
    → count (λ t. t.cluster_id == c && p t) db.tasks ≡ 0
not_found-count p c db h =
    omega (arith, count-get_job_tasks p c db, find-none-count p (get_job_tasks c db) h)

-- The last write at a key wins.
pub put-put :
    (t u : Task) (us : List Task) → same_key t u ≡ true → put_task t (put_task u us) ≡ put_task t us
unfolding put_task
put-put t u [] h = ground arith
put-put t u (v ∷ vs) h = ground (arith, put-put t u vs h)
