-- ===== src/Restart/Ends.antt =====
-- The loop of the restart service over one task ends.
use sbcli.Prelude.{
  ℕ, suc, ◌+◌, ◌-◌, ◌≤◌, ◌≢◌, Bool, true, false, ◌≡◌, ◌⊎◌, inl, inr, refl, arith, ltb, ltb→lt, ◌∙◌,
  ap, some, raised,
}
use sbcli.Model.{JobStatus, FunctionName, fn_eq, is_done, Name, Task, Db, get_task_by_id}
use sbcli.Model.Order.{In, get_task_by_id-In}
use sbcli.Migration.{Run}
use sbcli.Restart.{World, task_runner}
use sbcli.Restart.Advances.{task_runner_device-Advances, task_runner_node-Advances, limit, Advances}

-- No two stored tasks have the uuid `id`.
abbrev pub IsSingle : Name → Db → Type 0
IsSingle id x = (a b : Task) → In a x.tasks → In b x.tasks → a.uuid ≡ id → b.uuid ≡ id → a ≡ b

-- While the loop sleeps, other processes do anything but to the task of the uuid, of which they set or clear
-- the mark `canceled` alone.
abbrev pub Sleeps : Name → Db → Db → Type 0
Sleeps id x y =
    (t : Task)
    → get_task_by_id id y ≡ some t
    → (c : Bool) × (get_task_by_id id x ≡ some (record t { canceled = c }))

-- Rounds of the loop, from its task object and the database: while the status of the object is not
-- done, the task is read again, and what was read is run.
pub data Rounds : ℕ → Task → Db → Type 0 where
  stop : {t : Task} {db : Db} → Rounds 0 t db
  round :
      {n : ℕ} {t : Task} {db : Db} (u : Task) (w : World) (after : Db)
      → is_done t.status ≡ false
      → get_task_by_id t.uuid db ≡ some u
      → (task_runner w u db).reply ≢ raised
      → IsSingle t.uuid (task_runner w u db).db
      → Sleeps t.uuid (task_runner w u db).db after
      → Rounds n (task_runner w u db).task after
      → Rounds (suc n) t db

-- A task of one of the two kinds.
abbrev pub IsRestart : Task → Type 0
IsRestart t =
    (t.function_name ≡ FunctionName.dev_restart) ⊎ (t.function_name ≡ FunctionName.node_restart)

task_runner-Advances :
    (w : World) (t : Task) (db : Db)
    → IsRestart t
    → Advances (ltb t.retry (limit t)) t (task_runner w t db)
unfolding task_runner
task_runner-Advances w t db (inl e) =
    let is_device : fn_eq t.function_name FunctionName.dev_restart ≡ true =
      ap (λ f. fn_eq f FunctionName.dev_restart) e in
    rw is_device (task_runner_device-Advances w t db)
task_runner-Advances w t db (inr e) =
    let no_device : fn_eq t.function_name FunctionName.dev_restart ≡ false =
      ap (λ f. fn_eq f FunctionName.dev_restart) e in
    let is_node : fn_eq t.function_name FunctionName.node_restart ≡ true =
      ap (λ f. fn_eq f FunctionName.node_restart) e in
    rw (no_device, is_node) (task_runner_node-Advances w t db)

-- What the next round reads of a task that was stored, up to the mark.
record SameTask (a b : Task) : Type 0 where
  function_name : b.function_name ≡ a.function_name
  max_retry : b.max_retry ≡ a.max_retry
  retry : b.retry ≡ a.retry

read_back :
    (id : Name) (t v : Task) (x y : Db)
    → In t x.tasks
    → t.uuid ≡ id
    → IsSingle id x
    → Sleeps id x y
    → get_task_by_id id y ≡ some v
    → SameTask t v
read_back id t v x y stored own single sleeps found = read (sleeps v found)
  where
    read : (c : Bool) × (get_task_by_id id x ≡ some (record v { canceled = c })) → SameTask t v
    read (c, e) = record {
      function_name = ap (λ k. k.function_name) same;
      max_retry = ap (λ k. k.max_retry) same;
      retry = ap (λ k. k.retry) same;
    }
      where
        at : In (record v { canceled = c }) x.tasks × (v.uuid ≡ id)
        at = get_task_by_id-In id (record v { canceled = c }) x e

        same : record v { canceled = c } ≡ t
        same = single (record v { canceled = c }) t at.0 stored at.1 own

same_limit :
    (t u v : Task)
    → u.function_name ≡ t.function_name
    → u.max_retry ≡ t.max_retry
    → SameTask u v
    → limit v ≡ limit t
same_limit t u v a b s = ground (arith, a, b, s.function_name, s.max_retry)

same_kind : (t v : Task) → v.function_name ≡ t.function_name → IsRestart t → IsRestart v
same_kind t v e k = elim k [ inl f ↦ inl (e ∙ f) | inr f ↦ inr (e ∙ f) ]

done-Rounds : {n : ℕ} {t : Task} {db : Db} → Rounds n t db → t.status ≡ JobStatus.done → n ≡ 0
done-Rounds stop h = refl
done-Rounds (round u w after undone _ _ _ _ _) h = ground arith

-- The first round, if there is one, reads the task.
first-Rounds :
    {n : ℕ} {t : Task} {db : Db}
    → Rounds n t db
    → (n ≡ 0) ⊎ ((u : Task) × (get_task_by_id t.uuid db ≡ some u))
first-Rounds stop = inl refl
first-Rounds (round u w after _ found _ _ _ _) = inr (u, found)

-- The loop over a stored restart task ends, although it reads the task again for every round: while no
-- exception leaves it, it goes through at most one round more than the stored task has tries left, 8 for a device
-- and max_retry for a node in all, whatever the node, the devices and the other processes do, where the
-- latter keep the uuid unique and change, while the loop sleeps, nothing of the task but its mark `canceled`.
pub Rounds-bounded :
    {n : ℕ} {t : Task} {db : Db} (u : Task)
    → Rounds n t db
    → get_task_by_id t.uuid db ≡ some u
    → IsRestart u
    → n ≤ (limit u - u.retry) + 1
Rounds-bounded u stop found k = omega arith
Rounds-bounded {t = t} {db = db} u0
      (round {n = n} u w after undone found answered single sleeps rest) e k =
    elim a.ahead [
      | inl f ↦ absurd (answered f)
      | inr b ↦ elim b [
        | inl is_done ↦ omega (arith, done-Rounds rest is_done)
        | inr (one_more, below, stored) ↦
            more one_more below stored (first-Rounds rest) (λ v. Rounds-bounded v rest)
      ]
    ]
  where
    same : u0 ≡ u
    same = cc (e, found)

    r : Run
    r = task_runner w u db

    kind : IsRestart u
    kind = rw⁻¹ same k

    a : Advances (ltb u.retry (limit u)) u r
    a = task_runner-Advances w u db kind

    uuid : r.task.uuid ≡ t.uuid
    uuid = a.uuid ∙ (get_task_by_id-In t.uuid u db found).1

    Bound : Type 0
    Bound = suc n ≤ (limit u0 - u0.retry) + 1

    more :
        r.task.retry ≡ suc u.retry
        → ltb u.retry (limit u) ≡ true
        → In r.task r.db.tasks
        → (n ≡ 0) ⊎ ((v : Task) × (get_task_by_id r.task.uuid after ≡ some v))
        → ((v : Task)
            → get_task_by_id r.task.uuid after ≡ some v
            → IsRestart v
            → n ≤ (limit v - v.retry) + 1)
        → Bound
    more one_more below stored (inl zero_left) next = omega (arith, zero_left)
    more one_more below stored (inr (v, read)) next = rw same (
        omega (
          arith,
          next v read (same_kind u v (kept.function_name ∙ a.function_name) kind),
          same_limit u r.task v a.function_name a.max_retry kept,
          kept.retry,
          one_more,
          ltb→lt u.retry (limit u) below,
        ))
      where
        kept : SameTask r.task v
        kept = read_back t.uuid r.task v r.db after stored uuid single sleeps (rw⁻¹ uuid read)
