-- ===== src/NodeMonitor/Statuses.antt =====
-- What the calls of the node monitor do to the stored statuses of the nodes.
use sbcli.Prelude.{
  Bool, false, not, Option, none, some, List, [], ◌∷◌, ◌≡◌, refl, ap, ◌∙◌, arith, ◌==◌,
  if◌then◌else◌, Result, returned, raised, if-cases, option-cases, result-cases, find-passes,
}
use sbcli.Model.{
  NodeStatus, node_eq, Name, Device, Node, Db, get_storage_node_by_id, get_cluster_by_id,
}
use sbcli.Tasks.{add_device_mig_task, add_node_to_auto_restart}
use sbcli.Tasks.Nodes.{add_device_mig_task_nodes, add_node_to_auto_restart_nodes}
use sbcli.Devices.{write_node, device_set_online}
use sbcli.Devices.Statuses.{
  status_in, status_of, SameStatuses, replace_node_status, found_key,
  device_set_unavailable-SameStatuses, device_set_online-SameStatuses,
}
use sbcli.NodeMonitor.{
  Probes, Outcome, set_node_status, for_devices, put_online, migrate, put_unavailable, auto_restart,
  and_then, forget,
}

-- The node `id` has the status `s`, and all others keep theirs.
pub record Sets (id : Name) (s : NodeStatus) (before after : Db) : Type 0 where
  pub own : status_of id after ≡ some s
  pub others : (k : Name) → (id == k) ≡ false → status_of k after ≡ status_of k before

pub Sets-SameStatuses :
    (id : Name) (s : NodeStatus) (a b c : Db) → Sets id s a b → SameStatuses b c → Sets id s a c
Sets-SameStatuses id s a b c h k = record { own = k id ∙ h.own; others = λ x e. k x ∙ h.others x e }

pub Sets-again :
    (id : Name) (s t : NodeStatus) (a b c : Db) → Sets id s a b → Sets id t b c → Sets id t a c
Sets-again id s t a b c h k = record { own = k.own; others = λ x e. k.others x e ∙ h.others x e }

pub set_node_status-Sets :
    (p : Probes) (id : Name) (s : NodeStatus) (db : Db) (n : Node)
    → get_storage_node_by_id id db ≡ some n
    → Sets id s db (set_node_status p id s db).1
unfolding set_node_status
set_node_status-Sets p id s db n h =
    rw (h, set_node_status)
      (if-cases P (node_eq s NodeStatus.online)
        (λ _.
          if-cases P (not p.connects) (λ _. written)
            (λ _.
              option-cases P (get_cluster_by_id n.cluster_id after) (λ _. written)
                (λ _ _. written)))
        (λ _. written))
  where
    P : Result Bool × Db → Type 0
    P r = Sets id s db r.1

    m : Node
    m = record n {
      status = s;
      online_since = if node_eq s NodeStatus.online then some p.now else none;
    }

    after : Db
    after = if node_eq n.status s then db else write_node m db

    key : n.uuid ≡ id
    key = ground (arith, find-passes (λ (x : Node). x.uuid == id) db.nodes n h)

    written : Sets id s db after
    written =
        if-cases (Sets id s db) (node_eq n.status s)
          (λ e. record {
            own = ground (
              arith,
              ap (λ o. elim o as (λ _. Option NodeStatus) [ none ↦ none | some x ↦ some x.status ])
                  h,
            );
            others = λ k f. refl;
          })
          (λ e. record {
            own = ground (arith, replace_node_status id n m db.nodes (found_key id n db h), key);
            others = λ k f.
                ground (arith, replace_node_status k n m db.nodes (found_key id n db h), key);
          })

-- A call after another one.
pub and_then_keep {ℓ} :
    (P : Db → Type ℓ) (r : Outcome) (next : Db → Outcome)
    → P r.1
    → ((x : Db) → P x → P (next x).1)
    → P (and_then r next).1
and_then_keep P (raised, x) next h k = h
and_then_keep P (returned u, x) next h k = k x h

pub for_devices_keep {ℓ} :
    (P : Db → Type ℓ) (test : Device → Bool) (call : Device → Db → Outcome)
    → ((d : Device) (x : Db) → P x → P (call d x).1)
    → (ds : List Device) (db : Db) → P db
    → P (for_devices test call ds db).1
unfolding for_devices
for_devices_keep P test call step [] db h = h
for_devices_keep P test call step (d ∷ ds) db h =
    if-cases Q (test d)
      (λ _.
        result-cases Q (call d db).0 (λ _. step d db h)
          (λ _ _. for_devices_keep P test call step ds (call d db).1 (step d db h)))
      (λ _. for_devices_keep P test call step ds db h)
  where
    Q : Outcome → Type ℓ
    Q r = P r.1

-- A loop whose calls raise no exception raises none.
pub for_devices_returns :
    (test : Device → Bool) (call : Device → Db → Outcome)
    → ((d : Device) (x : Db) → (call d x).0 ≡ returned tt)
    → (ds : List Device) (db : Db) → (for_devices test call ds db).0 ≡ returned tt
unfolding for_devices
for_devices_returns test call safe [] db = refl
for_devices_returns test call safe (d ∷ ds) db =
    if-cases (λ (o : Outcome). o.0 ≡ returned tt) (test d)
      (λ _. rw (safe d db) (for_devices_returns test call safe ds (call d db).1))
      (λ _. for_devices_returns test call safe ds db)

forget_db : (r : Result Bool × Db) → (forget r).1 ≡ r.1
forget_db (raised, x) = refl
forget_db (returned b, x) = refl

pub forget_keep {ℓ} : (P : Db → Type ℓ) (r : Result Bool × Db) → P r.1 → P (forget r).1
forget_keep P (raised, x) h = h
forget_keep P (returned b, x) h = h

pub put_online-SameStatuses :
    (p : Probes) (d : Device) (db : Db) → SameStatuses db (put_online p d db).1
unfolding put_online
put_online-SameStatuses p d db =
    forget_keep (SameStatuses db) (device_set_online (p.stamps d.uuid) d.uuid db)
      (device_set_online-SameStatuses (p.stamps d.uuid) d.uuid db)

pub migrate-SameStatuses : (p : Probes) (d : Device) (db : Db) → SameStatuses db (migrate p d db).1
unfolding migrate
migrate-SameStatuses p d db =
    forget_keep (SameStatuses db) (add_device_mig_task (p.stamps d.uuid) d.uuid db)
      (λ id. ap (status_in id) (add_device_mig_task_nodes (p.stamps d.uuid) d.uuid db))

pub put_unavailable-SameStatuses : (d : Device) (db : Db) → SameStatuses db (put_unavailable d db).1
unfolding put_unavailable
put_unavailable-SameStatuses d db = device_set_unavailable-SameStatuses d.uuid db

pub auto_restart-SameStatuses :
    (p : Probes) (n : Node) (db : Db) → SameStatuses db (auto_restart p n db).1
unfolding auto_restart
auto_restart-SameStatuses p n db =
    result-cases (λ (r : Outcome). SameStatuses db r.1)
      (add_node_to_auto_restart n (p.stamps n.uuid 0) db).0 (λ _. same) (λ _ _. same)
  where
    same : SameStatuses db (add_node_to_auto_restart n (p.stamps n.uuid 0) db).1
    same id = ap (status_in id) (add_node_to_auto_restart_nodes n (p.stamps n.uuid 0) db)
