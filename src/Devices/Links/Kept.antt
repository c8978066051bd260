-- ===== src/Devices/Links/Kept.antt =====
-- What the changes of the connections and of a JM device leave as it is.
use sbcli.Prelude.{
  false, none, some, List, [], ◌∷◌, ◌==◌, ◌≡◌, ◌∙◌, refl, ap, sym, arith, map, find, find-passes,
  All, if◌then◌else◌, if-cases, Option, Result, returned, raised,
}
use sbcli.Prelude.Table.{HasKeys, put_all-keep}
use sbcli.Model.{DeviceStatus, device_eq, Name, Device, JmDevice, Node, Db, get_storage_node_by_id}
use sbcli.Devices.{write_node, replace_node}
use sbcli.Devices.Statuses.{status_in, SameStatuses}
use sbcli.Devices.Links.{
  node_name, without, connects_to, disconnect_device, get_storage_node_by_jm_device,
  set_jm_device_state, remove_jm_device,
}

-- A node without its connections and its JM device.
abbrev pub bare : Node → Node
bare n = record n { jm_device = none; remote_devices = []; remote_jm_devices = [] }

-- Nothing but connections and JM devices differs.
pub record SameButLinks (a b : Db) : Type 0 where
  pub tasks : b.tasks ≡ a.tasks
  pub clusters : b.clusters ≡ a.clusters
  pub nodes : map bare b.nodes ≡ map bare a.nodes

pub same_db : (a : Db) → SameButLinks a a
same_db a = record { tasks = refl; clusters = refl; nodes = refl }

pub then_same : (a b c : Db) → SameButLinks a b → SameButLinks b c → SameButLinks a c
then_same a b c h k = record {
  tasks = k.tasks ∙ h.tasks;
  clusters = k.clusters ∙ h.clusters;
  nodes = k.nodes ∙ h.nodes;
}

status_in-bare : (k : Name) (ns : List Node) → status_in k (map bare ns) ≡ status_in k ns
status_in-bare k [] = refl
status_in-bare k (n ∷ ns) = ground (arith, status_in-bare k ns)

pub SameButLinks-SameStatuses : (a b : Db) → SameButLinks a b → SameStatuses a b
SameButLinks-SameStatuses a b h k =
    sym (status_in-bare k b.nodes) ∙ ap (status_in k) h.nodes ∙ status_in-bare k a.nodes

replace_node-bare :
    (m n : Node) (ns : List Node)
    → find (λ x. x.uuid == m.uuid) ns ≡ some n
    → bare m ≡ bare n
    → map bare (replace_node m ns) ≡ map bare ns
replace_node-bare m n [] h e = refl
replace_node-bare m n (x ∷ xs) h e = ground (arith, replace_node-bare m n xs)

-- A write of a stored node with other connections, or with another JM device.
pub write_node-SameButLinks :
    (m n : Node) (db : Db)
    → get_storage_node_by_id m.uuid db ≡ some n
    → bare m ≡ bare n
    → SameButLinks db (write_node m db)
write_node-SameButLinks m n db h e = record {
  tasks = refl;
  clusters = refl;
  nodes = replace_node-bare m n db.nodes h e;
}

get-replace_node :
    (m n : Node) (ns : List Node)
    → find (λ x. x.uuid == m.uuid) ns ≡ some n
    → find (λ x. x.uuid == m.uuid) (replace_node m ns) ≡ some m
get-replace_node m n [] h = cc
get-replace_node m n (x ∷ xs) h = ground (arith, get-replace_node m n xs)

get-replace_node_ne :
    (k : Name) (m : Node) (ns : List Node)
    → (k == m.uuid) ≡ false
    → find (λ x. x.uuid == k) (replace_node m ns) ≡ find (λ x. x.uuid == k) ns
get-replace_node_ne k m [] h = refl
get-replace_node_ne k m (x ∷ xs) h = ground (arith, get-replace_node_ne k m xs)

-- Of the nodes, nothing but the connections and the JM device of one differs.
pub record LinksOf (id : Name) (a b : Db) : Type 0 where
  pub nodes : map bare b.nodes ≡ map bare a.nodes
  pub others :
      (k : Name) → (k == id) ≡ false → get_storage_node_by_id k b ≡ get_storage_node_by_id k a

pub same_nodes : (id : Name) (a b : Db) → b.nodes ≡ a.nodes → LinksOf id a b
same_nodes id a b e = record {
  nodes = ap (map bare) e;
  others = λ k f. ap (find (λ x. x.uuid == k)) e;
}

pub then_links : (id : Name) (a b c : Db) → LinksOf id a b → LinksOf id b c → LinksOf id a c
then_links id a b c h k = record {
  nodes = k.nodes ∙ h.nodes;
  others = λ x f. k.others x f ∙ h.others x f;
}

-- A write of the stored node, with other connections.
module _ (id : Name) (m n : Node) (db : Db) (stored : get_storage_node_by_id id db ≡ some n)
    (same : bare m ≡ bare n) where
  own_key : m.uuid ≡ id
  own_key =
      ap (λ x. x.uuid) same
      ∙ ground (arith, find-passes (λ (x : Node). x.uuid == id) db.nodes n stored)

  at_key : get_storage_node_by_id m.uuid db ≡ some n
  at_key = rw own_key stored

  pub write_node-stored : get_storage_node_by_id id (write_node m db) ≡ some m
  write_node-stored = rw⁻¹ own_key (get-replace_node m n db.nodes at_key)

  pub write_node-LinksOf : LinksOf id db (write_node m db)
  write_node-LinksOf = record {
    nodes = replace_node-bare m n db.nodes at_key same;
    others = λ k f. get-replace_node_ne k m db.nodes (rw own_key f);
  }

map_if-bare :
    (d : Device) (ns : List Node)
    → map bare (map (λ n. if connects_to d n then without d.uuid n else n) ns) ≡ map bare ns
map_if-bare d [] = refl
map_if-bare d (n ∷ ns) = ground (arith, map_if-bare d ns)

pub disconnect_device-SameButLinks :
    (d : Device) (db : Db) → HasKeys node_name db.nodes → SameButLinks db (disconnect_device d db)
unfolding disconnect_device
disconnect_device-SameButLinks d db keyed = record {
  tasks = refl;
  clusters = refl;
  nodes =
      ap (map bare)
        (put_all-keep node_name (without d.uuid) (connects_to d) db.nodes (λ n. refl) keyed)
      ∙ map_if-bare d db.nodes;
}

module _ (k : Name) where
  abbrev Others : List Node → Type 0
  Others = All (λ (n : Node). (k == node_name n) ≡ false)

  to_bare : (ns : List Node) → Others ns → Others (map bare ns)
  to_bare [] h = tt
  to_bare (n ∷ ns) h = (h.0, to_bare ns h.1)

  from_bare : (ns : List Node) → Others (map bare ns) → Others ns
  from_bare [] h = tt
  from_bare (n ∷ ns) h = (h.0, from_bare ns h.1)

keys_to_bare : (ns : List Node) → HasKeys node_name ns → HasKeys node_name (map bare ns)
keys_to_bare [] h = tt
keys_to_bare (n ∷ ns) h = (to_bare n.uuid ns h.0, keys_to_bare ns h.1)

keys_from_bare : (ns : List Node) → HasKeys node_name (map bare ns) → HasKeys node_name ns
keys_from_bare [] h = tt
keys_from_bare (n ∷ ns) h = (from_bare n.uuid ns h.0, keys_from_bare ns h.1)

-- The keys of the nodes stay distinct.
pub SameButLinks-HasKeys :
    (a b : Db) → SameButLinks a b → HasKeys node_name a.nodes → HasKeys node_name b.nodes
SameButLinks-HasKeys a b h k = keys_from_bare b.nodes (rw h.nodes (keys_to_bare a.nodes k))

module _ (id : Name) (n : Node) (jm : JmDevice) where
  found-All :
      (P : Node → Type 0) (ns : List Node)
      → All P ns
      → get_storage_node_by_jm_device id ns ≡ returned (some (n, jm))
      → P n
  unfolding get_storage_node_by_jm_device
  found-All P [] h e = cc
  found-All P (x ∷ xs) h e = ground (arith, found-All P xs h.1, h.0)

  -- A node that is found by its JM device is stored at its key.
  found_at_key :
      (ns : List Node)
      → HasKeys node_name ns
      → get_storage_node_by_jm_device id ns ≡ returned (some (n, jm))
      → find (λ x. x.uuid == n.uuid) ns ≡ some n
  unfolding get_storage_node_by_jm_device
  found_at_key [] k e = cc
  found_at_key (x ∷ xs) k e =
      ground (arith, found_at_key xs k.1, found-All (λ y. (x.uuid == y.uuid) ≡ false) xs k.0)

pub set_jm_device_state-SameButLinks :
    (id : Name) (state : DeviceStatus) (db : Db)
    → HasKeys node_name db.nodes
    → SameButLinks db (set_jm_device_state id state db).1
unfolding set_jm_device_state
set_jm_device_state-SameButLinks id state db keyed =
    by_search (get_storage_node_by_jm_device id db.nodes) refl
  where
    Q : Result (Unit {0}) × Db → Type 0
    Q o = SameButLinks db o.1

    by_search :
        (r : Result (Option (Node × JmDevice)))
        → get_storage_node_by_jm_device id db.nodes ≡ r
        → Q (elim r [
          | raised ↦ (raised, db)
          | returned found ↦ elim found [
            | none ↦ (returned tt, db)
            | some (n, jm) ↦ if device_eq jm.status state then (returned tt, db) else (
              returned tt,
              write_node (record n { jm_device = some (record jm { status = state }) }) db,
            )
          ]
        ])
    by_search raised e = same_db db
    by_search (returned none) e = same_db db
    by_search (returned (some (n, jm))) e =
        if-cases Q (device_eq jm.status state) (λ _. same_db db)
          (λ _.
            write_node-SameButLinks (record n { jm_device = some (record jm { status = state }) }) n
              db (found_at_key id n jm db.nodes keyed e) refl)

pub remove_jm_device-SameButLinks :
    (id : Name) (db : Db) → HasKeys node_name db.nodes → SameButLinks db (remove_jm_device id db).1
unfolding remove_jm_device
remove_jm_device-SameButLinks id db keyed = by_search (get_storage_node_by_jm_device id db.nodes)
  where
    Q : Result (Unit {0}) × Db → Type 0
    Q o = SameButLinks db o.1

    after :
        (o : Result (Unit {0}) × Db)
        → SameButLinks db o.1
        → Q (
            let (r, x) = o in
            let rest = set_jm_device_state id DeviceStatus.removed x in
            elim r [ raised ↦ (raised, x) | returned _ ↦ rest ])
    after (raised, x) h = h
    after (returned tt, x) h = then_same db x _ h (
        set_jm_device_state-SameButLinks id DeviceStatus.removed x
          (SameButLinks-HasKeys db x h keyed))

    by_search :
        (r : Result (Option (Node × JmDevice)))
        → Q (elim r [
          | raised ↦ (raised, db)
          | returned found ↦ elim found [
            | none ↦ (returned tt, db)
            | some (n, jm) ↦
                let (o, x) = set_jm_device_state id DeviceStatus.unavailable db in
                let rest = set_jm_device_state id DeviceStatus.removed x in
                elim o [ raised ↦ (raised, x) | returned _ ↦ rest ]
          ]
        ])
    by_search raised = same_db db
    by_search (returned none) = same_db db
    by_search (returned (some (n, jm))) =
        after (set_jm_device_state id DeviceStatus.unavailable db)
          (set_jm_device_state-SameButLinks id DeviceStatus.unavailable db keyed)
