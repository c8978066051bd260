-- ===== src/Tests/RestartTests.antt =====
-- An example for the theorem about the restart service.
use sbcli.Prelude.{◌≤◌, ◌+◌, ◌-◌, false, ◌≢◌, refl, arith, raised}
use sbcli.Model.{FunctionName, JobStatus, NodeStatus, Task, Db, put_task}
use sbcli.Restart.{World, task_runner}
use sbcli.Restart.Advances.{limit}
use sbcli.Migration.{Run}
use sbcli.Restart.Ends.{IsSingle, Sleeps, Rounds, round, stop, Rounds-bounded}
use sbcli.Tests.Sample.{cluster, node, task, stamps}
use sbcli.Prelude.{inl, inr, sym, ◌∙◌, [], ◌∷◌}

-- The node answers neither a ping nor a call of its API.
abbrev silent : World
silent = record {
  restart_device = λ d db. db;
  set_node_offline = λ n db. db;
  ping = false;
  node_api = false;
  reset_node = λ n db. db;
  pause = λ db. db;
  stamps = stamps;
}

abbrev restart : Task
restart = task FunctionName.node_restart JobStatus.running

abbrev down_db : Db
down_db = record {
  clusters = cluster ∷ [];
  nodes = record node { status = NodeStatus.offline } ∷ [];
  tasks = restart ∷ [];
}

abbrev run : Run
run = task_runner silent restart down_db

answers : run.reply ≢ raised
unfolding task_runner
answers = ground arith

-- The one stored task is the only one.
only : IsSingle restart.uuid run.db
unfolding task_runner put_task
only a b (inl e) (inl f) h k = e ∙ sym f
only a b (inl e) (inr m) h k = absurd m
only a b (inr m) n h k = absurd m

rests : Sleeps restart.uuid run.db run.db
rests t e = (t.canceled, e)

one_round : Rounds 1 restart down_db
one_round = round restart silent run.db refl refl answers only rests stop

Rounds-bounded_example : 1 ≤ (limit restart - restart.retry) + 1
Rounds-bounded_example = Rounds-bounded restart one_round refl (inr refl)
