-- ===== src/Tests/PortTests.antt =====
-- An example for the theorem about the tasks that open a port.
use sbcli.Prelude.{[], ◌∷◌, true, false, some, none, returned}
use sbcli.Model.{FunctionName, JobStatus, Task}
use sbcli.PortAllow.{Peers}
use sbcli.Tests.Sample.{task}

abbrev peers : Peers
peers = record {
  ping = false;
  second_ping = true;
  remote_devices = returned (30 ∷ 31 ∷ 32 ∷ []);
  remote_jm_devices = returned (35 ∷ 36 ∷ []);
  lvstore_check = true;
  finds_secondary = true;
}

abbrev port_task : Task
port_task = record (task FunctionName.port_allow JobStatus.suspended) {
  params = record { distr_name = none; migration = none; port_number = some 9100 };
}
