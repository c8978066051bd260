-- ===== src/Devices/Stored.antt =====
-- A device is read back as a state change has stored it.
use sbcli.Prelude.{
  Bool, true, false, not, Option, none, some, List, [], ◌∷◌, ◌++◌, ◌≡◌, inl, inr, refl, ap, sym,
  ◌∙◌, arith, ◌==◌, find, find-passes, Bool-cases, if-cases, option-cases,
}
use sbcli.Model.{
  DeviceStatus, device_eq, Name, Device, Node, Db, get_storage_device_by_id, get_storage_node_by_id,
  all_devices,
}
use sbcli.Devices.Statuses.{found_key}
use sbcli.Devices.{
  replace_node, write_node, replace_device, with_device, locate, enter_state, set_state,
  device_set_state,
}

-- The node that a found device names.
abbrev node_id_of : Option Device → Option Name
node_id_of o = elim o [ none ↦ none | some d ↦ some d.node_id ]

find-++ :
    (id : Name) (xs ys : List Device)
    → find (λ d. d.uuid == id) (xs ++ ys)
      ≡ elim (find (λ d. d.uuid == id) xs) [ none ↦ find (λ d. d.uuid == id) ys | some d ↦ some d ]
find-++ id [] ys = refl
find-++ id (x ∷ xs) ys = ground (arith, find-++ id xs ys)

-- A device of a node is exchanged for one that names the same node.
find-replace_device :
    (id : Name) (d e : Device) (ds : List Device)
    → find (λ x. x.uuid == id) ds ≡ some d
    → e.uuid ≡ d.uuid
    → find (λ x. x.uuid == id) (replace_device e ds) ≡ some e
find-replace_device id d e [] h k = cc
find-replace_device id d e (x ∷ xs) h k =
    ground (
      arith,
      find-replace_device id d e xs,
      find-passes (λ (y : Device). y.uuid == id) (x ∷ xs) d h,
    )

find-replace_node :
    (id : Name) (n m : Node) (ns : List Node)
    → find (λ x. x.uuid == id) ns ≡ some n
    → m.uuid ≡ n.uuid
    → find (λ x. x.uuid == id) (replace_node m ns) ≡ some m
find-replace_node id n m [] h k = cc
find-replace_node id n m (x ∷ xs) h k =
    ground
      (arith, find-replace_node id n m xs, find-passes (λ (y : Node). y.uuid == id) (x ∷ xs) n h)

-- The first of two searches that finds a device.
abbrev or_else : Option Device → Option Device → Option Device
or_else a r = elim a [ none ↦ r | some d ↦ some d ]

or_else-node_id_of :
    (a b r t : Option Device)
    → node_id_of a ≡ node_id_of b
    → node_id_of r ≡ node_id_of t
    → node_id_of (or_else a r) ≡ node_id_of (or_else b t)
or_else-node_id_of none none r t h k = k
or_else-node_id_of none (some d) r t h k = cc
or_else-node_id_of (some c) none r t h k = cc
or_else-node_id_of (some c) (some d) r t h k = h

devices_after :
    (id : Name) (n m : Node) (ns : List Node)
    → find (λ x. x.uuid == n.uuid) ns ≡ some n
    → m.uuid ≡ n.uuid
    → node_id_of (find (λ d. d.uuid == id) m.devices)
      ≡ node_id_of (find (λ d. d.uuid == id) n.devices)
    → node_id_of (find (λ d. d.uuid == id) (all_devices (replace_node m ns)))
      ≡ node_id_of (find (λ d. d.uuid == id) (all_devices ns))
unfolding all_devices
devices_after id n m [] h k e = cc
devices_after id n m (x ∷ xs) h k e = elim (Bool-cases (x.uuid == m.uuid)) [
  | inl f ↦ rw f (
      rw (find-++ id m.devices (all_devices xs), find-++ id x.devices (all_devices xs))
        (or_else-node_id_of (find (λ d. d.uuid == id) m.devices)
          (find (λ d. d.uuid == id) x.devices) _ _
          (e ∙ ap (λ (y : Node). node_id_of (find (λ d. d.uuid == id) y.devices)) (first f)) refl))
  | inr f ↦ rw f (
      rw
        (
          find-++ id x.devices (all_devices (replace_node m xs)),
          find-++ id x.devices (all_devices xs),
        )
        (or_else-node_id_of (find (λ d. d.uuid == id) x.devices)
          (find (λ d. d.uuid == id) x.devices) _ _ refl (devices_after id n m xs (rest f) k e)))
]
  where
    first : (x.uuid == m.uuid) ≡ true → n ≡ x
    first f = ground arith

    rest : (x.uuid == m.uuid) ≡ false → find (λ y. y.uuid == n.uuid) xs ≡ some n
    rest f = ground arith

-- What a successful query of a device has found.
pub record Finds (id : Name) (n : Node) (d : Device) (db : Db) : Type 0 where
  pub dev : Device
  pub is_stored : get_storage_device_by_id id db ≡ some dev
  pub on_node : get_storage_node_by_id dev.node_id db ≡ some n
  pub in_node : find (λ x. x.uuid == id) n.devices ≡ some d

pub locate-Finds :
    (id : Name) (n : Node) (d : Device) (db : Db) → locate id db ≡ some (n, d) → Finds id n d db
locate-Finds id n d db =
    option-cases P (get_storage_device_by_id id db) (λ _. λ h. cc)
      λ dev e.
        option-cases P (get_storage_node_by_id dev.node_id db) (λ _. λ h. cc)
          λ m f.
            option-cases P (find (λ x. x.uuid == id) m.devices) (λ _. λ h. cc)
              λ x g. λ h. record {
                dev = dev;
                is_stored = e;
                on_node = f ∙ ap some (ap (λ (y : Node × Device). y.0) (inj (m, x) h));
                in_node =
                    ap (λ (y : Node × Device). find (λ z. z.uuid == id) y.0.devices)
                      (sym (inj (m, x) h))
                    ∙ g
                    ∙ ap some (ap (λ (y : Node × Device). y.1) (inj (m, x) h));
              }
  where
    P : Option (Node × Device) → Type 0
    P o = o ≡ some (n, d) → Finds id n d db

    inj : (q : Node × Device) → some q ≡ some (n, d) → q ≡ (n, d)
    inj q e = cc

Finds-locate :
    (id : Name) (n : Node) (d : Device) (db : Db) → Finds id n d db → locate id db ≡ some (n, d)
Finds-locate id n d db f = rw (f.is_stored, locate) (rw f.on_node (rw f.in_node refl))

module _ (id : Name) (n : Node) (d e : Device) (db : Db) (f : Finds id n d db)
    (same_uuid : e.uuid ≡ d.uuid) (same_node : e.node_id ≡ d.node_id) where
  m : Node
  m = with_device n e

  in_m : find (λ x. x.uuid == id) m.devices ≡ some e
  unfolding m
  in_m = find-replace_device id d e n.devices f.in_node same_uuid

  m_stored : get_storage_node_by_id f.dev.node_id (write_node m db) ≡ some m
  unfolding m
  m_stored = find-replace_node f.dev.node_id n (with_device n e) db.nodes f.on_node refl

  names_node : node_id_of (get_storage_device_by_id id (write_node m db)) ≡ some f.dev.node_id
  unfolding m get_storage_device_by_id
  names_node =
      devices_after id n (with_device n e) db.nodes (found_key f.dev.node_id n db f.on_node) refl
        (ap node_id_of in_m ∙ ap some same_node ∙ sym (ap node_id_of f.in_node))
      ∙ ap node_id_of f.is_stored

  located :
      (o : Option Device)
      → get_storage_device_by_id id (write_node m db) ≡ o
      → node_id_of o ≡ some f.dev.node_id
      → Finds id m e (write_node m db)
  located none g h = absurd (ground arith)
  located (some x) g h = record {
    dev = x;
    is_stored = g;
    on_node = rw (ap (λ o. elim o as (λ _. Name) [ none ↦ 0 | some k ↦ k ]) h) m_stored;
    in_node = in_m;
  }

  written : locate id (write_node m db) ≡ some (m, e)
  written =
      Finds-locate id m e (write_node m db)
        (located (get_storage_device_by_id id (write_node m db)) refl names_node)

-- The stored status of the device that a query finds.
abbrev pub status_at : Name → Db → Option DeviceStatus
status_at id db = elim (locate id db) [ none ↦ none | some p ↦ some p.1.status ]

device_eq_same : (a b : DeviceStatus) → device_eq a b ≡ true → a ≡ b
device_eq_same a b h = ground arith

-- A state change other than to read-only sets the stored status.
pub device_set_state-status :
    (id : Name) (n : Node) (d : Device) (s : DeviceStatus) (db : Db)
    → locate id db ≡ some (n, d)
    → device_eq s DeviceStatus.readonly ≡ false
    → (p : Node × Device) × (locate id (device_set_state id s db).1 ≡ some p) × (p.1.status ≡ s)
unfolding device_set_state set_state m
device_set_state-status id n d s db h r =
    rw (h, device_set_state)
      (rw r (
        if-cases P (not (device_eq d.status s))
          (λ g. (
            (with_device n (enter_state s d), enter_state s d),
            written id n d (enter_state s d) db (locate-Finds id n d db h) refl refl,
            refl,
          ))
          (λ g. ((n, d), h, device_eq_same d.status s (ground arith)))))
  where
    P : Bool × Db → Type 0
    P y = (p : Node × Device) × (locate id y.1 ≡ some p) × (p.1.status ≡ s)
