-- ===== src/Tests/DevicesTests.antt =====
-- Examples for the theorems about the removal of devices.
use sbcli.Prelude.{true, false, some, ◌≡◌, refl}
use sbcli.Model.{DeviceStatus, get_storage_device_by_id}
use sbcli.Devices.{locate}
use sbcli.Devices.Removal.{Replies, device_remove}
use sbcli.Devices.Removal.Taken.{Takes, device_remove-Takes}
use sbcli.Tests.Sample.{device, node, mig_task, db_with}

abbrev replies : Replies
replies = record {
  subsystem = true;
  passthrough = true;
  alceml = true;
  qos = false;
  testing = true;
  has_test_device = false;
}

is_located : locate 31 (db_with mig_task) ≡ some (node, device 31 DeviceStatus.online)
unfolding get_storage_device_by_id
is_located = refl

device_remove-Takes_example :
    Takes replies true 31 node
      (device 31 DeviceStatus.online)
      (db_with mig_task)
      (device_remove replies true 31 (db_with mig_task))
device_remove-Takes_example =
    device_remove-Takes replies true 31 node (device 31 DeviceStatus.online) (db_with mig_task)
      is_located
