-- ===== src/Volumes/Watch.antt =====
-- simplyblock_core/services/lvol_monitor.py: what the service does with one volume of a node.
pub mod Watched
pub mod Life
pub mod Ends
use sbcli.Prelude.{
  ℕ, zero, suc, ℤ, pos, negsuc, Bool, true, false, not, ◌&&◌, ◌||◌, Option, none, some, List, [],
  ◌∷◌, ◌==◌, ltb, if◌then◌else◌, eqb_ℤ, length, map, keep, Result, returned, raised,
}
use sbcli.Model.{
  HaType, NodeStatus, DeviceStatus, LvstoreStatus, node_eq, device_eq, Name, Device, Node, Db,
  is_set, get_storage_node_by_id,
}
use sbcli.Volumes.{LvolStatus, Lvol, Store, get_lvol_by_id, write_lvol, remove_lvol}
use sbcli.Volumes.Deletion.{delete_lvol_from_node, in_deletion}
use sbcli.Migration.{in_codes}

-- What the storage processes reply: whether a node leads the volume store, where no reply makes the
-- service raise; the status of a deletion, where `raised` is a timeout; the health of the volume on
-- its node and on the secondary one.
pub record Replies : Type 0 where
  pub leads : Name → Result Bool
  pub delete_status : Result ℤ
  pub healthy : Bool
  pub healthy_on_secondary : Bool

-- How the turn of a volume ends: with the next volume, with the next node, or with the service.
pub data Flow : Type 0 where
  continue break stop : Flow

-- `expands` are the devices for which add_new_device_mig_task is called.
pub record Turn : Type 0 where
  pub flow : Flow
  pub store : Store
  pub expands : List Name

abbrev pub goes_on : Store → Turn
goes_on s = record { flow = Flow.continue; store = s; expands = [] }

abbrev pub stops : Store → Turn
stops s = record { flow = Flow.stop; store = s; expands = [] }

abbrev pub status_tag : LvolStatus → ℕ
status_tag LvolStatus.in_creation = 0
status_tag LvolStatus.online = 1
status_tag LvolStatus.offline = 2
status_tag LvolStatus.in_deletion = 3

-- set_lvol_status, for the object `l`, of a volume that is stored.
abbrev pub set_lvol_status : Lvol → LvolStatus → Store → Store
set_lvol_status l status s =
    if status_tag l.status == status_tag status then s else elim (get_lvol_by_id l.uuid s) [
      | none ↦ s
      | some m ↦ write_lvol (record m { status = status }) s
    ]

abbrev pub bit_eq : Bool → Bool → Bool
bit_eq true b = b
bit_eq false b = not b

-- set_lvol_health_check, of a volume that is stored.
abbrev pub set_lvol_health_check : Lvol → Bool → Store → Store
set_lvol_health_check l healthy s = elim (get_lvol_by_id l.uuid s) [
  | none ↦ s
  | some m ↦
      if bit_eq m.health_check healthy
      then s
      else write_lvol (record m { health_check = healthy }) s
]

-- status in [STATUS_ONLINE, STATUS_SUSPENDED, STATUS_DOWN]
abbrev pub is_reachable : NodeStatus → Bool
is_reachable s =
    node_eq s NodeStatus.online || node_eq s NodeStatus.suspended || node_eq s NodeStatus.down

-- The secondary node, if it leads; `leads` is `raised` where the reply is missing, which makes the
-- service raise.
abbrev pub second_leader : (Name → Result Bool) → Option Node → Result Node
second_leader leads none = raised
second_leader leads (some sec) = elim (leads sec.uuid) [
  | raised ↦ raised
  | returned yields ↦ if yields then returned sec else raised
]

-- "check leadership"
abbrev pub leader_of : (Name → Result Bool) → Node → Option Node → Result Node
leader_of leads snode sec =
    if is_reachable snode.status
    then elim (leads snode.uuid) [
      | raised ↦ raised
      | returned yields ↦ if yields then returned snode else second_leader leads sec
    ]
    else second_leader leads sec

-- The loop over the devices in process_lvol_delete_finish: those that are not failed, and the full
-- ones among them.
abbrev pub live_devices : List Device → List Device
live_devices = keep (λ d.
    not (
      device_eq d.status DeviceStatus.failed
      || device_eq d.status DeviceStatus.failed_and_migrated))

abbrev pub full_devices : List Device → List Device
full_devices ds = keep (λ d. device_eq d.status DeviceStatus.cannot_allocate) (live_devices ds)

-- `if 0 < len(full_devs_ids) == len(all_devs_ids)`
abbrev pub expansions : List Device → List Name
expansions ds =
    if ltb 0 (length (full_devices ds)) && length (full_devices ds) == length (live_devices ds)
    then map (λ d. d.uuid) (full_devices ds)
    else []

-- The end of process_lvol_delete_finish.
abbrev pub gone : Lvol → Node → Store → Turn
gone l snode s = record {
  flow = Flow.continue;
  store = remove_lvol l.uuid s;
  expands = expansions snode.devices;
}

-- process_lvol_delete_finish from the secondary node on.
finish_secondary : Lvol → Node → Db → Store → Turn
finish_secondary l snode db s =
    if is_set snode.secondary_node_id
    then elim (get_storage_node_by_id snode.secondary_node_id db) [
      | none ↦ stops s
      | some sec ↦
          if node_eq sec.status NodeStatus.online || node_eq sec.status NodeStatus.down
          then gone l snode (delete_lvol_from_node l.uuid sec.uuid db s)
          else gone l snode s
    ]
    else gone l snode s

-- process_lvol_delete_finish
finish : Lvol → Node → Db → Store → Turn
unfolding finish_secondary
finish l snode db s = elim (get_storage_node_by_id l.node_id db) [
  | none ↦ stops s
  | some primary ↦ finish_secondary l snode db (
      if node_eq primary.status NodeStatus.online
      then delete_lvol_from_node l.uuid primary.uuid db s
      else s)
]

-- The codes of bdev_lvol_get_lvol_delete_status, by what the service does.
abbrev pub finish_codes : List ℤ
finish_codes = pos 0 ∷ pos 2 ∷ negsuc 1 ∷ []

abbrev pub offline_codes : List ℤ
offline_codes = pos 4 ∷ negsuc 0 ∷ negsuc 18 ∷ []

abbrev pub again_codes : List ℤ
again_codes = negsuc 4 ∷ negsuc 10 ∷ negsuc 11 ∷ negsuc 15 ∷ negsuc 34 ∷ negsuc 35 ∷ []

-- The volume is read again and marked; the status is that of the object, so that the second write
-- follows.
set_failed : Lvol → Store → Turn
set_failed l s = elim (get_lvol_by_id l.uuid s) [
  | none ↦ stops s
  | some m ↦
      let m' = record m { io_error = true } in
      goes_on (set_lvol_status m' LvolStatus.offline (write_lvol m' s))
]

-- process_lvol_delete_try_again
try_again : Lvol → Store → Turn
try_again l s = elim (get_lvol_by_id l.uuid s) [
  | none ↦ stops s
  | some m ↦ goes_on (write_lvol (record m { deletion_status = 0 }) s)
]

-- The branches on the status of the deletion.
handle_status : ℤ → Lvol → Node → Db → Store → Turn
unfolding finish set_failed try_again
handle_status code l snode db s =
    if in_codes finish_codes code
    then finish l snode db s
    else if in_codes offline_codes code
    then set_failed l s
    else if in_codes again_codes code
    then try_again l s
    else goes_on s

-- The branch of a volume in deletion; `sec` is the secondary node as read for the node.
pub watch_deletion : Replies → Node → Option Node → Lvol → Db → Store → Turn
unfolding handle_status
watch_deletion r snode sec l db s = elim (get_storage_node_by_id snode.uuid db) [
  | none ↦ stops s
  | some node ↦ elim (leader_of r.leads node sec) [
    | raised ↦ stops s
    | returned leader ↦
        let s' =
          if l.deletion_status == leader.uuid && is_set l.deletion_status
          then s
          else delete_lvol_from_node l.uuid leader.uuid db s in
        elim r.delete_status [
          | raised ↦ record { flow = Flow.break; store = s'; expands = [] }
          | returned code ↦ handle_status code l node db s'
        ]
  ]
]

-- The end of the turn of any other volume, by the status of the node's volume store.
record_health : LvstoreStatus → Lvol → Bool → Store → Turn
record_health LvstoreStatus.ready l healthy s = elim (get_lvol_by_id l.uuid s) [
  | none ↦ stops s
  | some _ ↦
      let s' = set_lvol_health_check l healthy s in
      goes_on (if healthy then set_lvol_status l LvolStatus.online s' else s')
]
record_health LvstoreStatus.in_creation l healthy s = goes_on s
record_health LvstoreStatus.other l healthy s = goes_on s

-- The branch of any other volume, by its type.
watch_health : HaType → Replies → Node → Lvol → Db → Store → Turn
unfolding record_health
watch_health HaType.ha r snode l db s = elim (get_storage_node_by_id snode.secondary_node_id db) [
  | none ↦ stops s
  | some sec ↦
      record_health snode.lvstore_status l
        (r.healthy && (not (node_eq sec.status NodeStatus.online) || r.healthy_on_secondary)) s
]
watch_health HaType.single r snode l db s = record_health snode.lvstore_status l r.healthy s
watch_health HaType.other r snode l db s = record_health snode.lvstore_status l r.healthy s

watch_by : LvolStatus → Replies → Node → Option Node → Lvol → Db → Store → Turn
unfolding watch_deletion watch_health
watch_by LvolStatus.in_creation r snode sec l db s = goes_on s
watch_by LvolStatus.in_deletion r snode sec l db s = watch_deletion r snode sec l db s
watch_by LvolStatus.online r snode sec l db s = watch_health l.ha_type r snode l db s
watch_by LvolStatus.offline r snode sec l db s = watch_health l.ha_type r snode l db s

-- The body of the loop over the volumes of a node.
pub watch : Replies → Node → Option Node → Lvol → Db → Store → Turn
unfolding watch_by
watch r snode sec l db s = watch_by l.status r snode sec l db s
