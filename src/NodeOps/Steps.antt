-- ===== src/NodeOps/Steps.antt =====
-- What the steps of the operations on a storage node keep.
use sbcli.Prelude.{
  Bool, true, false, Option, none, some, List, [], ◌∷◌, ◌≡◌, refl, ap, ◌∙◌, sym, arith, if-cases,
  option-cases, Option-cases, inl, inr, Result, returned, raised,
}
use sbcli.Model.{
  NodeStatus, node_eq, Name, Task, Node, Db, is_set, write_task, get_task_by_id,
  get_storage_node_by_id,
}
use sbcli.Model.Order.{IsSorted, put_task-IsSorted}
use sbcli.Devices.Lost.{device_set_retries_exhausted-unchanged}
use sbcli.Devices.Statuses.{status_of, SameStatuses}
use sbcli.Cancel.{has_sub_tasks, cancel_task}
use sbcli.NodeMonitor.{Probes, Outcome, set_node_status, and_then, forget}
use sbcli.NodeMonitor.Statuses.{Sets, set_node_status-Sets}
use sbcli.NodeOps.{Reply, has_tasks, cancel_tasks, ends}

-- A cancellation keeps what a write of a task keeps.
pub cancel_task_keep {ℓ} :
    (P : Db → Type ℓ) (id : Name) (db : Db)
    → ((t : Task) → P (write_task t db))
    → P db
    → P (cancel_task id db).1
unfolding cancel_task
cancel_task_keep P id db step h =
    option-cases Q (get_task_by_id id db) (λ _. h)
      λ t _.
        if-cases Q (has_sub_tasks t) (λ _. h)
          λ _.
            if-cases (λ (x : Db). P (write_task (record t { canceled = true }) x))
              (is_set t.device_id)
              (λ _.
                rw (device_set_retries_exhausted-unchanged t.device_id true db)
                  (step (record t { canceled = true })))
              (λ _. step (record t { canceled = true }))
  where
    Q : Bool × Db → Type ℓ
    Q r = P r.1

pub cancel_tasks_keep {ℓ} :
    (P : Db → Type ℓ)
    → ((t : Task) (x : Db) → P x → P (write_task t x))
    → (test : Task → Bool) (ts : List Task) (db : Db) → P db
    → P (cancel_tasks test ts db)
unfolding cancel_tasks
cancel_tasks_keep P step test [] db h = h
cancel_tasks_keep P step test (t ∷ ts) db h =
    if-cases P (test t)
      (λ _.
        cancel_tasks_keep P step test ts (cancel_task t.uuid db).1
          (cancel_task_keep P t.uuid db (λ u. step u db h) h))
      (λ _. cancel_tasks_keep P step test ts db h)

pub cancel_tasks-SameStatuses :
    (test : Task → Bool) (ts : List Task) (db : Db) → SameStatuses db (cancel_tasks test ts db)
cancel_tasks-SameStatuses test ts db =
    cancel_tasks_keep (SameStatuses db) (λ t x h. h) test ts db (λ k. refl)

pub cancel_tasks_none :
    (test : Task → Bool) (ts : List Task) (db : Db)
    → has_tasks ts ≡ false
    → cancel_tasks test ts db ≡ db
unfolding cancel_tasks
cancel_tasks_none test [] db h = refl
cancel_tasks_none test (t ∷ ts) db h = absurd (ground arith)

pub cancel_tasks-IsSorted :
    (test : Task → Bool) (ts : List Task) (db : Db)
    → IsSorted db.tasks
    → IsSorted (cancel_tasks test ts db).tasks
cancel_tasks-IsSorted test ts db =
    cancel_tasks_keep (λ x. IsSorted x.tasks) (λ t x. put_task-IsSorted t x.tasks) test ts db

-- A node with a status is stored.
pub stored_node :
    (id : Name) (s : NodeStatus) (db : Db)
    → status_of id db ≡ some s
    → (n : Node) × (get_storage_node_by_id id db ≡ some n)
stored_node id s db h = elim (Option-cases (get_storage_node_by_id id db)) [
  | inl e ↦ absurd (missing e)
  | inr x ↦ x
]
  where
    missing : get_storage_node_by_id id db ≡ none → ⊥
    missing e = ground (
      arith,
      sym (ap (λ o. elim o as (λ _. Option NodeStatus) [ none ↦ none | some x ↦ some x.status ]) e)
          ∙ h,
    )

same_stored :
    (id : Name) (n : Node) (a b : Db)
    → get_storage_node_by_id id a ≡ some n
    → SameStatuses a b
    → status_of id b ≡ some n.status
same_stored id n a b h k =
    k id ∙ ap (λ o. elim o as (λ _. Option NodeStatus) [ none ↦ none | some x ↦ some x.status ]) h

-- The status of a stored node is set, where the statuses were kept till then.
pub then-Sets :
    (p : Probes) (id : Name) (s : NodeStatus) (n : Node) (a b : Db)
    → get_storage_node_by_id id a ≡ some n
    → SameStatuses a b
    → Sets id s a (set_node_status p id s b).1
then-Sets p id s n a b h k = moved (stored_node id n.status b (same_stored id n a b h k))
  where
    moved :
        (m : Node) × (get_storage_node_by_id id b ≡ some m)
        → Sets id s a (set_node_status p id s b).1
    moved (m, e) = record { own = set.own; others = λ x f. set.others x f ∙ k x }
      where
        set : Sets id s b (set_node_status p id s b).1
        set = set_node_status-Sets p id s b m e

-- A status other than online is set without a failure.
then_returned :
    (p : Probes) (id : Name) (s : NodeStatus) (n : Node) (a b : Db)
    → get_storage_node_by_id id a ≡ some n
    → SameStatuses a b
    → node_eq s NodeStatus.online ≡ false
    → (set_node_status p id s b).0 ≡ returned true
unfolding set_node_status
then_returned p id s n a b h k o = replied (stored_node id n.status b (same_stored id n a b h k))
  where
    replied :
        (m : Node) × (get_storage_node_by_id id b ≡ some m)
        → (set_node_status p id s b).0 ≡ returned true
    replied (m, e) = rw (e, set_node_status, o) refl

-- The steps of an operation: what holds of the outcome of one holds at the next.
pub and_then_cases {ℓ} :
    (P : Outcome → Type ℓ) (o : Outcome) (next : Db → Outcome)
    → ((x : Db) → o ≡ (raised, x) → P (raised, x))
    → ((x : Db) → o.1 ≡ x → P (next x))
    → P (and_then o next)
and_then_cases P (raised, x) next f g = f x refl
and_then_cases P (returned tt, x) next f g = g x refl

pub ends_cases {ℓ} :
    (P : Reply → Type ℓ) (o : Outcome) (next : Db → Reply)
    → ((x : Db) → o ≡ (raised, x) → P (raised, x))
    → ((x : Db) → o ≡ (returned tt, x) → P (next x))
    → P (ends o next)
ends_cases P (raised, x) next f g = f x refl
ends_cases P (returned tt, x) next f g = g x refl

-- The step that sets a status other than online.
pub forget-Sets :
    (p : Probes) (id : Name) (s : NodeStatus) (n : Node) (a b : Db)
    → get_storage_node_by_id id a ≡ some n
    → SameStatuses a b
    → node_eq s NodeStatus.online ≡ false
    → (forget (set_node_status p id s b) ≡ (returned tt, (set_node_status p id s b).1))
      × Sets id s a (set_node_status p id s b).1
forget-Sets p id s n a b h k o = (
  shown (set_node_status p id s b) (then_returned p id s n a b h k o),
  then-Sets p id s n a b h k,
)
  where
    shown : (r : Result Bool × Db) → r.0 ≡ returned true → forget r ≡ (returned tt, r.1)
    shown r e = rw e refl
