-- ===== src/Migration.antt =====
-- Data migration tasks: what the three migration runners share. handle_task_result of
-- simplyblock_core/utils, and the parts of simplyblock_core/services/tasks_runner_*migration.py.
pub mod Follows
pub mod Unique
pub mod Rebalance
pub mod Failed
pub mod Expansion
pub mod Master
pub mod Runs
pub mod Turns
use sbcli.Prelude.{
  ℕ, suc, ◌+◌, ◌-◌, ℤ, pos, negsuc, Bool, true, false, not, ◌&&◌, ◌||◌, Option, none, some, List,
  [], ◌∷◌, ◌==◌, if◌then◌else◌, ltb, eqb_ℤ, is_some, Result, returned, raised,
}
use sbcli.Model.{
  JobStatus, NodeStatus, DeviceStatus, node_eq, device_eq, Name, Time, Message, Task, Device, Node,
  Db, write_task,
}

-- What a runner leaves: its reply, with None read as False, the task object and the database.
pub record Run : Type 0 where
  pub reply : Result Bool
  pub task : Task
  pub db : Db

-- task.write_to_db(); return reply
abbrev pub ends : Bool → Task → Db → Run
ends reply t db = record { reply = returned reply; task = t; db = write_task t db }

abbrev pub finished : Message → Task → Task
finished m t = record t { result = m; status = JobStatus.done }

abbrev pub postponed : Message → Task → Task
postponed m t = record t { result = m; status = JobStatus.suspended; retry = t.retry + 1 }

abbrev pub drop_migration : Task → Task
drop_migration t = record t { params = record t.params { migration = none } }

-- The status of a migration, as the storage process reports it.
pub data MigStatus : Type 0 where
  completed failed nothing : MigStatus
  other : Name → MigStatus

-- The first entry of the reply to distr_migration_status; `none` where a key is missing.
pub record MigInfo : Type 0 where
  pub status : MigStatus
  pub error : Option ℤ
  pub progress : Option ℤ

-- res_data.get(key, -1)
abbrev pub or_minus_one : Option ℤ → ℤ
or_minus_one none = negsuc 0
or_minus_one (some n) = n

abbrev pub in_codes : List ℤ → ℤ → Bool
in_codes [] c = false
in_codes (d ∷ ds) c = eqb_ℤ c d || in_codes ds c

-- `if not allowed_error_codes: allowed_error_codes = [0]`
abbrev pub codes_or_zero : List ℤ → List ℤ
codes_or_zero [] = pos 0 ∷ []
codes_or_zero (c ∷ cs) = c ∷ cs

-- `del task.function_params['migration']`, then the write and `return True`; without the key the
-- deletion raises, and the task object keeps what was assigned before.
abbrev pub retry_without_migration : Message → Task → Db → Run
retry_without_migration m t db =
    let t' = postponed m t in
    if is_some t.params.migration
    then ends true (drop_migration t') db
    else record { reply = raised; task = t'; db = db }

-- The branches of handle_task_result on a reply.
abbrev pub handle_info : List ℤ → MigStatus → ℤ → ℤ → Task → Db → Run
handle_info allowed MigStatus.completed error progress t db =
    if eqb_ℤ error (pos 0)
    then ends true (finished Message.done_text t) db
    else if in_codes (codes_or_zero allowed) error
    then ends true (finished (Message.mig_completed error) t) db
    else retry_without_migration (Message.mig_error error) t db
handle_info allowed MigStatus.failed error progress t db =
    ends true (finished Message.mig_failed t) db
handle_info allowed MigStatus.nothing error progress t db =
    retry_without_migration Message.mig_retry_after_restart t db
handle_info allowed (MigStatus.other text) error progress t db =
    ends false (record t { result = Message.mig_progress text progress }) db

-- handle_task_result; `none` is an empty reply.
unfoldable pub handle_task_result : List ℤ → Task → Option MigInfo → Db → Run
handle_task_result allowed t none db = record { reply = returned false; task = t; db = db }
handle_task_result allowed t (some info) db =
    handle_info allowed info.status (or_minus_one info.error) (or_minus_one info.progress) t db

-- What the storage process answers to a runner. A reply to the status query that is no list of
-- objects makes the caller raise.
pub record Storage : Type 0 where
  pub now : Time
  pub started : Bool
  pub migration_status : Result (Option MigInfo)

-- datetime.now(utc) - fromisoformat(online_since) < 60 seconds
abbrev pub too_young : Time → Node → Bool
too_young now n = elim n.online_since [ none ↦ false | some since ↦ ltb (now - since) 60_000_000 ]

abbrev pub poll_failed : Task → Db → Run
poll_failed t db =
    ends false (record t { result = Message.migration_status_failed; retry = t.retry + 1 }) db

-- The `try` around the status query, and what follows it: any exception is one more try.
abbrev pub poll : Storage → (Task → Option MigInfo → Db → Run) → Task → Db → Run
poll s handle t db = elim s.migration_status [
  | raised ↦ poll_failed t db
  | returned info ↦
      let r = handle t info db in elim r.reply [ raised ↦ poll_failed r.task r.db | returned b ↦ r ]
]
