-- ===== src/NodeOps/Remove/Spared.antt =====
-- What the steps of a node's removal leave as it is.
use sbcli.Prelude.{
  returned, raised, Bool, true, false, ◌&&◌, ◌||◌, Option, none, some, ◌≡◌, refl, arith, if-cases,
  option-cases, Result, if◌then◌else◌,
}
use sbcli.Model.{DeviceStatus, device_eq, is_set, Name, Device, Node, Db}
use sbcli.Volumes.{Store, get_lvols_by_node_id}
use sbcli.Devices.{device_set_failed}
use sbcli.Prelude.Table.{HasKeys}
use sbcli.Devices.Links.{node_name, disconnect_device, remove_jm_device}
use sbcli.Devices.Links.Kept.{
  SameButLinks, SameButLinks-HasKeys, same_db, then_same, disconnect_device-SameButLinks,
  remove_jm_device-SameButLinks,
}
use sbcli.Devices.Statuses.{SameStatuses, device_set_failed-SameStatuses}
use sbcli.NodeMonitor.{Probes, Outcome, returns, for_devices, is_online}
use sbcli.NodeMonitor.Statuses.{and_then_keep, for_devices_keep, forget_keep}
use sbcli.NodeOps.Remove.{
  Removing, is_empty, node_snaps, clear_lvols, clear_snaps, put_failed, disconnect,
}

pub disconnect-SameButLinks :
    (n : Node) (x : Db) → HasKeys node_name x.nodes → SameButLinks x (disconnect n x).1
unfolding disconnect
disconnect-SameButLinks n x keyed =
    and_then_keep K (for_devices is_online call n.devices x)
      (λ y. elim n.jm_device [
        | none ↦ returns y
        | some jm ↦
            if is_set jm.uuid
              && (device_eq jm.status DeviceStatus.online
                  || device_eq jm.status DeviceStatus.unavailable)
            then remove_jm_device jm.uuid y
            else returns y
      ])
      (for_devices_keep K is_online call step n.devices x (same_db x))
      (λ y h.
        option-cases (λ (o : Outcome). K o.1) n.jm_device (λ _. h)
          λ jm _.
            if-cases (λ (o : Outcome). K o.1)
              (is_set jm.uuid
                && (device_eq jm.status DeviceStatus.online
                    || device_eq jm.status DeviceStatus.unavailable))
              (λ _.
                then_same x y _ h
                  (remove_jm_device-SameButLinks jm.uuid y (SameButLinks-HasKeys x y h keyed)))
              (λ _. h))
  where
    K : Db → Type 0
    K = SameButLinks x

    call : Device → Db → Outcome
    call d y = returns (disconnect_device d y)

    step : (d : Device) (y : Db) → K y → K (call d y).1
    step d y h =
        then_same x y _ h (disconnect_device-SameButLinks d y (SameButLinks-HasKeys x y h keyed))

pub put_failed-SameStatuses :
    (p : Probes) (d : Device) (x : Db) → SameStatuses x (put_failed p d x).1
unfolding put_failed
put_failed-SameStatuses p d x =
    forget_keep (SameStatuses x) (device_set_failed (p.stamps d.uuid) d.uuid x)
      (device_set_failed-SameStatuses (p.stamps d.uuid) d.uuid x)

-- Without force_remove the loops delete nothing, and go on exactly if `free` holds.
abbrev pub Spares : Bool → Bool → Store → Option (Result (Unit {0}) × Store) → Type 0
Spares force free s none = free ≡ false
Spares force free s (some (raised, s')) = force ≡ true
Spares force free s (some (returned tt, s')) = force ≡ false → (s' ≡ s) × (free ≡ true)

forced :
    (force free : Bool) (s : Store)
    → force ≡ true
    → (o : Result (Unit {0}) × Store) → Spares force free s (some o)
forced force free s e (raised, s') = e
forced force free s e (returned tt, s') = λ f. absurd (ground arith)

pub clear_lvols-Spares :
    (r : Removing) (id : Name) (db : Db) (s : Store)
    → Spares r.force_remove
        (is_empty (get_lvols_by_node_id id s) || r.force_migrate)
        s
        (clear_lvols r id db s)
unfolding clear_lvols
clear_lvols-Spares r id db s =
    if-cases Q (is_empty (get_lvols_by_node_id id s) || r.force_migrate) (λ e. λ f. (refl, e))
      λ g. if-cases Q r.force_remove (λ e. forced _ _ s e _) (λ e. g)
  where
    Q : Option (Result (Unit {0}) × Store) → Type 0
    Q = Spares r.force_remove (is_empty (get_lvols_by_node_id id s) || r.force_migrate) s

pub clear_snaps-Spares :
    (r : Removing) (id : Name) (db : Db) (s : Store)
    → Spares r.force_remove (is_empty (node_snaps id s)) s (clear_snaps r id db s)
unfolding clear_snaps
clear_snaps-Spares r id db s =
    if-cases Q (is_empty (node_snaps id s)) (λ e. λ f. (refl, e))
      λ g.
        if-cases Q r.force_migrate (λ _. g)
          λ _. if-cases Q r.force_remove (λ e. forced _ _ s e _) (λ e. g)
  where
    Q : Option (Result (Unit {0}) × Store) → Type 0
    Q = Spares r.force_remove (is_empty (node_snaps id s)) s
