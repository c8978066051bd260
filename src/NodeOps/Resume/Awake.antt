-- ===== src/NodeOps/Resume/Awake.antt =====
-- What the resumption of a node comes to.
use sbcli.Prelude.{
  Bool, true, false, Option, none, some, List, map, ◌≡◌, ◌≢◌, ◌⊎◌, ◌==◌, if◌then◌else◌, Result,
  returned, raised,
}
use sbcli.Prelude.Table.{HasKeys}
use sbcli.Model.{NodeStatus, node_eq, Name, Node, Db, get_storage_node_by_id}
use sbcli.Volumes.{Lvol, Store, lvol_key}
use sbcli.Devices.Statuses.{SameStatuses}
use sbcli.NodeMonitor.{Probes}
use sbcli.NodeMonitor.Statuses.{Sets}
use sbcli.NodeOps.Resume.{Resumed, awake}

-- The volumes of a node with the assignments of the loop.
abbrev pub awake_of : Name → List Lvol → List Lvol
awake_of id ls = map (λ l. if l.node_id == id then awake l else l) ls

pub data Resumes (p : Probes) (partner : Option NodeStatus) (id : Name) (db : Db) (s : Store)
    : Resumed → Type 0 where
  missing :
      get_storage_node_by_id id db ≡ none → Resumes p partner id db s (returned false, (db, s))
  refused :
      (n : Node)
      → get_storage_node_by_id id db ≡ some n
      → node_eq n.status NodeStatus.suspended ≡ false
      → Resumes p partner id db s (returned false, (db, s))
  halfway :
      {reply : Result Bool} {x : Db} (n : Node)
      → get_storage_node_by_id id db ≡ some n
      → node_eq n.status NodeStatus.suspended ≡ true
      → (reply ≡ raised)
        ⊎ ((reply ≡ returned false)
            × ((p.connects ≡ false)
                ⊎ ((t : NodeStatus) × ((partner ≡ some t)
                      × (node_eq t NodeStatus.unreachable ≡ true)))))
      → SameStatuses db x
      → Resumes p partner id db s (reply, (x, s))
  unbound :
      {x : Db} {s' : Store} (n : Node)
      → get_storage_node_by_id id db ≡ some n
      → node_eq n.status NodeStatus.suspended ≡ true
      → p.connects ≡ true
      → partner ≡ none
      → SameStatuses db x
      → s'.lvols ≡ awake_of id s.lvols
      → Resumes p partner id db s (raised, (x, s'))
  resumed :
      {reply : Result Bool} {x : Db} {s' : Store} (n : Node) (t : NodeStatus)
      → get_storage_node_by_id id db ≡ some n
      → node_eq n.status NodeStatus.suspended ≡ true
      → p.connects ≡ true
      → partner ≡ some t
      → node_eq t NodeStatus.unreachable ≡ false
      → reply ≢ returned false
      → Sets id NodeStatus.online db x
      → s'.lvols ≡ awake_of id s.lvols
      → Resumes p partner id db s (reply, (x, s'))

module _ (p : Probes) (partner : Option NodeStatus) (id : Name) (n : Node) (db : Db) (s : Store)
    (stored : get_storage_node_by_id id db ≡ some n)
    (suspended : node_eq n.status NodeStatus.suspended ≡ true)
    (keyed : HasKeys lvol_key s.lvols) where
  abbrev P : Resumed → Type 0
  P = Resumes p partner id db s
