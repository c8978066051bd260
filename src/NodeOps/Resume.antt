-- ===== src/NodeOps/Resume.antt =====
-- resume_storage_node of simplyblock_core/storage_node_ops.py.
pub mod Awake
use sbcli.Prelude.{
  Bool, true, false, not, Option, none, some, List, if◌then◌else◌, ◌==◌, keep, Result, returned,
  raised,
}
use sbcli.Prelude.Table.{put_all}
use sbcli.Model.{NodeStatus, node_eq, Name, Node, Db, get_storage_node_by_id}
use sbcli.Volumes.{LvolStatus, Lvol, Store, lvol_key, get_lvols_by_node_id}
use sbcli.NodeOps.{has_status}
use sbcli.NodeMonitor.{Probes, Outcome, set_node_status, for_devices, is_unavailable, put_online}

-- The reply, and what is stored then.
abbrev pub Resumed : Type 0
Resumed = Result Bool × (Db × Store)

-- The assignments of the loop over the volumes.
abbrev pub awake : Lvol → Lvol
awake l = record l { status = LvolStatus.online; io_error = false; health_check = true }

-- The volumes of a node are written, with these assignments.
abbrev pub wake : Name → Store → Store
wake id s = record s { lvols = put_all lvol_key awake (get_lvols_by_node_id id s) s.lvols }

-- From the read of the secondary node on; `partner` is the status of the node that is read, `none`
-- for a KeyError, after which the test of `sec_node` behind the loop raises UnboundLocalError.
pub resume_volumes : Probes → Option NodeStatus → Name → Db → Store → Resumed
resume_volumes p partner id db s = elim partner [
  | none ↦ (raised, (db, wake id s))
  | some t ↦
      if node_eq t NodeStatus.unreachable
      then (returned false, (db, s))
      else (let (reply, db') = set_node_status p id NodeStatus.online db in
          elim reply [
            | raised ↦ (raised, (db', wake id s))
            | returned _ ↦ (returned true, (db', wake id s))
          ])
]

-- resume_storage_node
pub resume_storage_node : Probes → Option NodeStatus → Name → Db → Store → Resumed
unfolding resume_volumes
resume_storage_node p partner id db s = elim (get_storage_node_by_id id db) [
  | none ↦ (returned false, (db, s))
  | some n ↦
      if not (has_status NodeStatus.suspended n)
      then (returned false, (db, s))
      else (let (r, x) = for_devices is_unavailable (put_online p) n.devices db in
          elim r [
            | raised ↦ (raised, (x, s))
            | returned _ ↦
                if not p.connects then (returned false, (x, s)) else resume_volumes p partner id x s
          ])
]
