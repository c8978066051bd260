-- ===== src/Migration/Turns/Alone.antt =====
-- What a turn of the failed-device or the expansion service keeps, and when it waits.
use sbcli.Prelude.{
  Bool, true, false, not, some, List, [], ◌∷◌, ◌≡◌, ◌==◌, ◌⊎◌, inl, inr, arith, refl, ℕ, is_some,
  find, keep, reverse_onto, if-cases, option-cases,
}
use sbcli.Model.{
  FunctionName, fn_eq, is_waiting, is_done, Task, Db, get_task_by_id, get_job_tasks, tasks_of,
}
use sbcli.Model.Order.{In, get_task_by_id-In}
use sbcli.TaskQueries.{get_active_node_mig_task, is_node_mig_running}
use sbcli.Migration.{Run, Storage}
use sbcli.Migration.Failed
use sbcli.Migration.Expansion
use sbcli.Migration.Runs.{IsWellFormed, Keeps, failed_runner-Keeps, expansion_runner-Keeps}
use sbcli.Migration.Turns.{run_stored, serve_kind, serve_failed, serve_expansion}

In-find :
    (p : Task → Bool) (v : Task) (us : List Task)
    → In v us
    → p v ≡ true
    → is_some (find p us) ≡ true
In-find p v [] m h = absurd m
In-find p v (u ∷ us) (inl e) h = ground arith
In-find p v (u ∷ us) (inr m) h = ground (arith, In-find p v us m h)

In-keep : (q : Task → Bool) (v : Task) (us : List Task) → In v us → q v ≡ true → In v (keep q us)
In-keep q v [] m h = absurd m
In-keep q v (u ∷ us) (inl e) h = if-cases (In v) (q u) (λ _. inl e) (λ f. absurd (ground arith))
In-keep q v (u ∷ us) (inr m) h =
    if-cases (In v) (q u) (λ _. inr (In-keep q v us m h)) (λ _. In-keep q v us m h)

In-onto : (v : Task) (us acc : List Task) → In v us ⊎ In v acc → In v (reverse_onto us acc)
In-onto v [] acc m = elim m [ inl e ↦ absurd e | inr a ↦ a ]
In-onto v (u ∷ us) acc m =
    In-onto v us (u ∷ acc)
      (elim m [ inl e ↦ elim e [ inl f ↦ inr (inl f) | inr g ↦ inl g ] | inr a ↦ inr (inr a) ])

-- A turn either leaves the database as it was, or is a run that keeps what the runner keeps.
abbrev pub Turns : (most : ℕ) → Task → Db → Run → Type 0
Turns most t db r = (r.db ≡ db) ⊎ Keeps most t db r

module _ (kind : FunctionName) (runner : Task → Db → Run) where
  -- While a migration of the same node and distrib runs, the turn of a waiting task of any runner
  -- leaves the database as it was.
  pub serve_kind-waits :
      (task v : Task) (db : Db)
      → is_waiting task.status ≡ true
      → In v db.tasks
      → (v.cluster_id == task.cluster_id) ≡ true
      → is_node_mig_running task.node_id task.params.distr_name v ≡ true
      → (serve_kind kind runner task db).db ≡ db
  unfolding serve_kind get_active_node_mig_task
  serve_kind-waits task v db waiting stored same running =
      if-cases P (not (fn_eq task.function_name kind)) (λ _. refl)
        λ _.
          if-cases P (is_waiting task.status)
            (λ _.
              option-cases P task.params.distr_name (λ _. refl)
                λ name e.
                  if-cases P
                    (is_some (get_active_node_mig_task task.cluster_id task.node_id (some name) db))
                    (λ _. refl) (λ none_runs. absurd (ground (arith, found name e))))
            (λ f. absurd (ground arith))
    where
      P : Run → Type 0
      P r = r.db ≡ db

      found :
          (name : ℕ)
          → task.params.distr_name ≡ some name
          → is_some (get_active_node_mig_task task.cluster_id task.node_id (some name) db) ≡ true
      found name e =
          In-find (is_node_mig_running task.node_id (some name)) v
            (get_job_tasks task.cluster_id db)
            (In-onto v (tasks_of task.cluster_id db) []
              (inl (In-keep (λ t. t.cluster_id == task.cluster_id) v db.tasks stored same)))
            (rw e at running)

  serve_kind-Turns :
      (k : ℕ) (task u : Task) (db : Db)
      → get_task_by_id task.uuid db ≡ some u
      → Keeps k u db (runner u db)
      → Turns k u db (serve_kind kind runner task db)
  unfolding serve_kind run_stored
  serve_kind-Turns k task u db found keeps =
      if-cases P (not (fn_eq task.function_name kind)) (λ _. inl refl)
        λ _.
          if-cases P (is_waiting task.status)
            (λ _.
              option-cases P task.params.distr_name (λ _. inl refl)
                λ name _.
                  if-cases P
                    (is_some (get_active_node_mig_task task.cluster_id task.node_id (some name) db))
                    (λ _. inl refl) (λ _. ran))
            (λ _. ran)
    where
      P : Run → Type 0
      P = Turns k u db

      ran : P (run_stored runner task db)
      ran = if-cases P (is_done task.status) (λ _. inl refl) (λ _. rw found (inr keeps))

-- A turn of the failed-device service for a task that is stored and not done leaves the database as
-- it was, or keeps the identity of the stored task and the table well-formed, adds at most two
-- retries to it, and writes no other task and no cluster.
pub serve_failed-Turns :
    (s : Storage) (task u : Task) (db : Db)
    → IsWellFormed db
    → get_task_by_id task.uuid db ≡ some u
    → is_done u.status ≡ false
    → Turns 2 u db (serve_failed s task db)
unfolding serve_failed
serve_failed-Turns s task u db h found undone =
    serve_kind-Turns FunctionName.failed_dev_mig (Failed.task_runner s) 2 task u db found
      (failed_runner-Keeps s u db h (get_task_by_id-In task.uuid u db found).0 undone)

-- A turn of the expansion service for a task that is stored and not done leaves the database as it
-- was, or keeps the identity of the stored task and the table well-formed, adds at most one retry to
-- it, and writes no other task and no cluster.
pub serve_expansion-Turns :
    (s : Storage) (task u : Task) (db : Db)
    → IsWellFormed db
    → get_task_by_id task.uuid db ≡ some u
    → is_done u.status ≡ false
    → Turns 1 u db (serve_expansion s task db)
unfolding serve_expansion
serve_expansion-Turns s task u db h found undone =
    serve_kind-Turns FunctionName.new_dev_mig (Expansion.task_runner s) 1 task u db found
      (expansion_runner-Keeps s u db h (get_task_by_id-In task.uuid u db found).0 undone)
