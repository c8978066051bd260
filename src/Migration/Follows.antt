-- ===== src/Migration/Follows.antt =====
-- What a migration runner may change of its task.
use sbcli.Prelude.{
  ◌≢◌, ◌∙◌, ◌⊎◌, ℕ, ◌+◌, ◌≤◌, ℤ, true, Option, none, some, List, ◌≡◌, arith, returned, raised,
  is_some, inl, inr,
}
use sbcli.Model.{Name, Task, Db, write_task, put_task, Message, JobStatus}
use sbcli.Model.Keys.{put-put}
use sbcli.Migration.{
  Run, MigInfo, MigStatus, Storage, handle_info, handle_task_result, poll, poll_failed,
  or_minus_one,
}

-- A run keeps the identity of its task, adds at most a given number of retries, and stores the task object alone.
pub record Follows (most : ℕ) (t : Task) (db : Db) (r : Run) : Type 0 where
  pub uuid : r.task.uuid ≡ t.uuid
  pub cluster_id : r.task.cluster_id ≡ t.cluster_id
  pub date : r.task.date ≡ t.date
  pub node_id : r.task.node_id ≡ t.node_id
  pub device_id : r.task.device_id ≡ t.device_id
  pub function_name : r.task.function_name ≡ t.function_name
  pub distr_name : r.task.params.distr_name ≡ t.params.distr_name
  pub canceled : r.task.canceled ≡ t.canceled
  pub sub_tasks : r.task.sub_tasks ≡ t.sub_tasks
  pub retry_low : t.retry ≤ r.task.retry
  pub retry_high : r.task.retry ≤ t.retry + most
  pub stored : (r.db.tasks ≡ put_task r.task db.tasks) ⊎ ((r.db.tasks ≡ db.tasks) × (r.task ≡ t))
  pub clusters : r.db.clusters ≡ db.clusters

-- What holds of a run that has replied.
abbrev pub Replies : (Run → Type 0) → Run → Type 0
Replies P r = elim r.reply [ raised ↦ Unit {0} | returned _ ↦ P r ]

handle-Follows :
    (codes : List ℤ) (st : MigStatus) (e p : ℤ) (t : Task) (db : Db)
    → is_some t.params.migration ≡ true
    → Follows 1 t db (handle_info codes st e p t db)
handle-Follows codes MigStatus.completed e p t db h = ground arith
handle-Follows codes st e p t db h = ground arith

pub poll-Follows :
    (s : Storage) (codes : List ℤ) (t : Task) (db : Db)
    → is_some t.params.migration ≡ true
    → Follows 1 t db (poll s (handle_task_result codes) t db)
unfolding handle_task_result
poll-Follows s codes t db h = ground arith

-- A run that goes on from a first write.
pub Follows-after :
    (k : ℕ) (t : Task) (st : JobStatus) (m : Message) (mig : Option Name) (db : Db) (r : Run)
    → let u = record t { status = st; result = m; params = record t.params { migration = mig } } in
      Follows k u (write_task u db) r → Follows k t db r
Follows-after k t st m mig db r f = record {
  uuid = f.uuid;
  cluster_id = f.cluster_id;
  date = f.date;
  node_id = f.node_id;
  device_id = f.device_id;
  function_name = f.function_name;
  distr_name = f.distr_name;
  canceled = f.canceled;
  sub_tasks = f.sub_tasks;
  retry_low = f.retry_low;
  retry_high = f.retry_high;
  stored = elim f.stored [
    | inl e ↦ inl (e ∙ put-put r.task u db.tasks (ground (arith, f.uuid, f.cluster_id, f.date)))
    | inr both ↦ inl (cc (both.0, both.1))
  ];
  clusters = f.clusters;
}
  where
    u : Task
    u = record t { status = st; result = m; params = record t.params { migration = mig } }

-- A run that starts from a database with the same tasks and clusters.
pub Follows-from :
    (k : ℕ) (t : Task) (a b : Db) (r : Run)
    → a.tasks ≡ b.tasks
    → a.clusters ≡ b.clusters
    → Follows k t a r
    → Follows k t b r
Follows-from k t a b r same same_clusters f = record {
  uuid = f.uuid;
  cluster_id = f.cluster_id;
  date = f.date;
  node_id = f.node_id;
  device_id = f.device_id;
  function_name = f.function_name;
  distr_name = f.distr_name;
  canceled = f.canceled;
  sub_tasks = f.sub_tasks;
  retry_low = f.retry_low;
  retry_high = f.retry_high;
  stored = rw⁻¹ same f.stored;
  clusters = f.clusters ∙ same_clusters;
}

-- A run whose last step changes no task and no cluster.
pub Follows-settled :
    (k : ℕ) (t : Task) (db : Db) (r : Run) (after : Db)
    → Follows k t db r
    → after.tasks ≡ r.db.tasks
    → after.clusters ≡ r.db.clusters
    → Follows k t db (record r { db = after })
Follows-settled k t db r after f same same_clusters = record {
  uuid = f.uuid;
  cluster_id = f.cluster_id;
  date = f.date;
  node_id = f.node_id;
  device_id = f.device_id;
  function_name = f.function_name;
  distr_name = f.distr_name;
  canceled = f.canceled;
  sub_tasks = f.sub_tasks;
  retry_low = f.retry_low;
  retry_high = f.retry_high;
  stored = elim f.stored [ inl e ↦ inl (same ∙ e) | inr both ↦ inr (same ∙ both.0, both.1) ];
  clusters = same_clusters ∙ f.clusters;
}

pub handle_task_result-Follows :
    (codes : List ℤ) (t : Task) (info : Option MigInfo) (db : Db)
    → is_some t.params.migration ≡ true
    → Follows 1 t db (handle_task_result codes t info db)
unfolding handle_task_result
handle_task_result-Follows codes t none db h = ground arith
handle_task_result-Follows codes t (some i) db h =
    handle-Follows codes i.status (or_minus_one i.error) (or_minus_one i.progress) t db h

-- With a migration in the task the handler does not raise.
pub handle_task_result-returns :
    (codes : List ℤ) (t : Task) (info : Option MigInfo) (db : Db)
    → is_some t.params.migration ≡ true
    → (handle_task_result codes t info db).reply ≢ raised
unfolding handle_task_result
handle_task_result-returns codes t info db h = ground arith

pub poll_failed-Follows : (t : Task) (db : Db) → Follows 1 t db (poll_failed t db)
poll_failed-Follows t db = ground arith

-- A run with a smaller bound on its retries.
pub Follows-weaken : (t : Task) (db : Db) (r : Run) → Follows 1 t db r → Follows 2 t db r
Follows-weaken t db r f = record {
  uuid = f.uuid;
  cluster_id = f.cluster_id;
  date = f.date;
  node_id = f.node_id;
  device_id = f.device_id;
  function_name = f.function_name;
  distr_name = f.distr_name;
  canceled = f.canceled;
  sub_tasks = f.sub_tasks;
  retry_low = f.retry_low;
  retry_high = omega (arith, f.retry_high);
  stored = f.stored;
  clusters = f.clusters;
}
