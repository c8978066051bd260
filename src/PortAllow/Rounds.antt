-- ===== src/PortAllow/Rounds.antt =====
-- The rounds of the port-allow runner, and the steps in them that write no node.
use sbcli.Prelude.{
  true, false, not, ◌&&◌, ◌≡◌, ◌⊎◌, inl, refl, arith, returned, if-cases, option-cases,
}
use sbcli.Model.{JobStatus, job_eq, Message, Task, Node, Db, write_task}
use sbcli.Migration.{Run}
use sbcli.Migration.Follows.{Follows, Follows-after, Follows-from}
use sbcli.NodeMonitor.{lvstore_ready}
use sbcli.PortAllow.{Peers, waits, open_port, check_lvstore}
use sbcli.Devices.Links.Kept.{LinksOf, same_nodes, then_links}

-- What a round comes to: no try is counted, the task is done exactly if it was canceled or the port
-- was opened, or else it waits; of the nodes at most its own gets other connections.
pub record Round (Opens : Db → Type 0) (t : Task) (db : Db) (r : Run) : Type 0 where
  pub follows : Follows 0 t db r
  pub opens : r.reply ≡ returned true → Opens r.db
  pub opened : r.reply ≡ returned true → r.task.status ≡ JobStatus.done
  pub waits : r.reply ≡ returned false → (r.task.status ≡ JobStatus.suspended) ⊎ (t.canceled ≡ true)
  pub nodes : LinksOf t.node_id db r.db

-- The same where no node is written.
pub record Step (Opens : Type 0) (t : Task) (db : Db) (r : Run) : Type 0 where
  pub follows : Follows 0 t db r
  pub opens : r.reply ≡ returned true → Opens
  pub opened : r.reply ≡ returned true → r.task.status ≡ JobStatus.done
  pub waits : r.reply ≡ returned false → (r.task.status ≡ JobStatus.suspended) ⊎ (t.canceled ≡ true)
  pub kept : r.db.nodes ≡ db.nodes

pub waiting : {Opens : Type 0} (m : Message) (t : Task) (db : Db) → Step Opens t db (waits m t db)
waiting m t db = record {
  follows = ground arith;
  opens = λ h. ground arith;
  opened = λ h. ground arith;
  waits = λ h. inl refl;
  kept = refl;
}

module _ (Opens : Db → Type 0) (t : Task) where
  -- A step without an opened port.
  pub as_round : (db : Db) (r : Run) → Step ⊥ t db r → Round Opens t db r
  as_round db r s = record {
    follows = s.follows;
    opens = λ h. absurd (s.opens h);
    opened = s.opened;
    waits = s.waits;
    nodes = same_nodes t.node_id db r.db s.kept;
  }

  -- A round that goes on from a write of its node.
  pub after_write :
      (db x : Db) (r : Run)
      → x.tasks ≡ db.tasks
      → x.clusters ≡ db.clusters
      → LinksOf t.node_id db x
      → Round Opens t x r
      → Round Opens t db r
  after_write db x r tasks clusters links s = record {
    follows = Follows-from 0 t x db r tasks clusters s.follows;
    opens = s.opens;
    opened = s.opened;
    waits = s.waits;
    nodes = then_links t.node_id db x r.db links s.nodes;
  }

module _ (p : Peers) where
  open_port-Step : (t : Task) (db : Db) → Step (Unit {0}) t db (open_port p t db)
  unfolding open_port
  open_port-Step t db =
      option-cases (Step (Unit {0}) t db) t.params.port_number
        (λ _. record {
          follows = ground arith;
          opens = λ h. tt;
          opened = λ h. cc;
          waits = λ h. cc;
          kept = refl;
        })
        (λ port _.
          if-cases (Step (Unit {0}) t db) (not p.finds_secondary)
            (λ _. record {
              follows = ground arith;
              opens = λ h. tt;
              opened = λ h. cc;
              waits = λ h. cc;
              kept = refl;
            })
            (λ _. record {
              follows = ground arith;
              opens = λ h. tt;
              opened = λ h. refl;
              waits = λ h. ground arith;
              kept = refl;
            }))

  -- The lvstore is good if it is ready.
  abbrev pub Checked : Node → Type 0
  Checked n = lvstore_ready n.lvstore_status ≡ true → p.lvstore_check ≡ true

  pub check_lvstore-Step :
      (n : Node) (t : Task) (db : Db) → Step (Checked n) t db (check_lvstore p n t db)
  unfolding check_lvstore
  check_lvstore-Step n t db =
      if-cases P (lvstore_ready n.lvstore_status && not p.lvstore_check)
        (λ _. waiting Message.lvstore_check_failed t db)
        λ e.
          if-cases P (job_eq t.status JobStatus.running)
            (λ _.
              (let r = open_port-Step t db in
                record {
                  follows = r.follows;
                  opens = λ h k. ground arith;
                  opened = r.opened;
                  waits = r.waits;
                  kept = r.kept;
                }))
            (λ _.
              (let r = open_port-Step t' (write_task t' db) in
                record {
                  follows =
                      Follows-after 0 t JobStatus.running t.result t.params.migration db _
                        r.follows;
                  opens = λ h k. ground arith;
                  opened = r.opened;
                  waits = r.waits;
                  kept = r.kept;
                }))
    where
      P : Run → Type 0
      P = Step (Checked n) t db

      t' : Task
      t' = record t { status = JobStatus.running }
