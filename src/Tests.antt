-- ===== src/Tests.antt =====
-- The theorems at concrete inputs: for each part of the library a module of examples.
pub mod Sample
mod TasksTests
mod DevicesTests
mod NodeTests
mod NodeOpsTests
mod PortTests
mod CapacityTests
mod MonitorTests
mod MigrationTests
mod RestartTests
mod UtilsTests
mod VolumesTests
mod SnapshotsTests
mod PoolsTests
mod LvolsTests
mod CreationTests
