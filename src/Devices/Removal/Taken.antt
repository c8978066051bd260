-- ===== src/Devices/Removal/Taken.antt =====
-- What a removal does to the stored device.
use sbcli.Prelude.{
  Bool, true, false, not, ◌&&◌, some, ◌≡◌, ◌⊎◌, inl, inr, refl, ap, ◌∙◌, arith, is_some, Bool-cases,
  if-cases, Result, returned,
}
use sbcli.Model.{DeviceStatus, Name, Device, Node, Db}
use sbcli.TaskQueries.{get_active_dev_restart_task}
use sbcli.Devices.Removal.{Replies, all_deleted, cannot_remove, remove_found, device_remove}
use sbcli.Devices.Stored.{Finds, locate-Finds, status_at, device_set_state-status}
use sbcli.Devices.Statuses.{
  SameStatuses, device_set_state-SameStatuses, device_set_unavailable-SameStatuses,
}
use sbcli.Devices.{locate, device_set_state, device_set_unavailable}

-- What the removal of a found device comes to.
pub data Takes (r : Replies) (force : Bool) (id : Name) (n : Node) (d : Device) (db : Db)
    : Result Bool × Db → Type 0 where
  refused : Takes r force id n d db (returned false, db)
  unavailable :
      {x : Db}
      → force ≡ false
      → all_deleted r ≡ false
      → status_at id x ≡ some DeviceStatus.unavailable
      → SameStatuses db x
      → Takes r force id n d db (returned false, x)
  taken :
      {x : Db}
      → cannot_remove d.status ≡ false
      → (force ≡ true)
        ⊎ ((is_some (get_active_dev_restart_task n.cluster_id id db) ≡ false)
            × (all_deleted r ≡ true))
      → status_at id x ≡ some DeviceStatus.removed
      → SameStatuses db x
      → Takes r force id n d db (returned true, x)

module _ (r : Replies) (force : Bool) (id : Name) (n : Node) (d : Device) (db : Db)
    (h : locate id db ≡ some (n, d)) where
  abbrev P : Result Bool × Db → Type 0
  P = Takes r force id n d db

  shown :
      (s : DeviceStatus) (y : Db)
      → (p : Node × Device) × (locate id y ≡ some p) × (p.1.status ≡ s)
      → status_at id y ≡ some s
  shown s y (p, e, g) = rw (e, status_at) (ap some g)

  x : Db
  x = (device_set_unavailable id db).1

  at_x : (p : Node × Device) × (locate id x ≡ some p) × (p.1.status ≡ DeviceStatus.unavailable)
  unfolding x device_set_unavailable
  at_x = device_set_state-status id n d DeviceStatus.unavailable db h refl

  same_x : SameStatuses db x
  unfolding x
  same_x = device_set_unavailable-SameStatuses id db

  at_end :
      (p : Node × Device) × (locate id x ≡ some p) × (p.1.status ≡ DeviceStatus.unavailable)
      → status_at id (device_set_state id DeviceStatus.removed x).1 ≡ some DeviceStatus.removed
  at_end (p, e, g) =
      shown DeviceStatus.removed (device_set_state id DeviceStatus.removed x).1
        (device_set_state-status id p.0 p.1 DeviceStatus.removed x e refl)

  remove_found-Takes : P (remove_found r force id n d db)
  unfolding remove_found x
  remove_found-Takes =
      if-cases P (cannot_remove d.status) (λ _. refused)
        λ a.
          if-cases P (is_some (get_active_dev_restart_task n.cluster_id id db) && not force)
            (λ _. refused)
            λ b.
              if-cases P (not (all_deleted r) && not force)
                (λ c.
                  unavailable (ground arith) (ground arith) (shown DeviceStatus.unavailable x at_x)
                    same_x)
                (λ c.
                  taken a (may b c (Bool-cases force)) (at_end at_x)
                    (λ k. device_set_state-SameStatuses id DeviceStatus.removed x k ∙ same_x k))
    where
      may :
          (is_some (get_active_dev_restart_task n.cluster_id id db) && not force) ≡ false
          → (not (all_deleted r) && not force) ≡ false
          → (force ≡ true) ⊎ (force ≡ false)
          → (force ≡ true)
            ⊎ ((is_some (get_active_dev_restart_task n.cluster_id id db) ≡ false)
                × (all_deleted r ≡ true))
      may b c (inl f) = inl f
      may b c (inr f) = inr (ground arith, ground arith)

-- The removal of a device that is found on a node: a refusal changes nothing; when a deletion fails and the removal is
-- not forced the device is stored as unavailable; else it is stored as removed, it was neither removed
-- nor failed, and unless it was forced no restart task of it was running and all its bdevs were
-- deleted. The nodes keep their statuses.
pub device_remove-Takes :
    (r : Replies) (force : Bool) (id : Name) (n : Node) (d : Device) (db : Db)
    → locate id db ≡ some (n, d)
    → Takes r force id n d db (device_remove r force id db)
unfolding device_remove
device_remove-Takes r force id n d db h = found (locate-Finds id n d db h)
  where
    found : Finds id n d db → Takes r force id n d db (device_remove r force id db)
    found f =
        rw (f.is_stored, device_remove)
          (rw f.on_node (rw f.in_node (remove_found-Takes r force id n d db h)))
