-- ===== src/Lvols/Creation.antt =====
-- The creation of a volume: add_lvol_ha of simplyblock_core/controllers/lvol_controller.py, for a
-- call without a namespace.
pub mod Created
pub mod Admission
pub mod Within
use sbcli.Prelude.{
  ℕ, ◌+◌, ◌*◌, ◌++◌, any, pos, Bool, true, false, not, ◌&&◌, ◌||◌, Option, none, some, List, [],
  ◌∷◌, ltb, ◌==◌, find, keep, length, if◌then◌else◌, Result, returned, raised,
}
use sbcli.Model.{
  NodeStatus, DeviceStatus, ClusterStatus, HaType, node_eq, device_eq, cluster_eq, Name, Device,
  Node, Cluster, Db, is_set, get_storage_node_by_id, get_storage_nodes_by_cluster_id,
  get_cluster_by_id,
}
use sbcli.Volumes.{
  LvolStatus, Limits, Lvol, Pool, Store, get_lvols, get_lvols_by_node_id, get_lvol_by_id,
  write_lvol, remove_lvol,
}
use sbcli.Volumes.Placement.{placed, secondary_down, both_offline, place, is_online}
use sbcli.Pools.{zero_ℤ}
use sbcli.Lvols.{is_called, wants_qos, validate_add_lvol_func}
use sbcli.Lvols.Choice.{Draw, get_next_3_nodes}
use sbcli.Lvols.Qos.{set_lvol}

-- A key for the encryption: its length, and whether int(key, 16) reads it.
pub record Key : Type 0 where
  pub length : ℕ
  pub is_hex : Bool

-- validate_aes_xts_keys
abbrev pub validate_aes_xts_keys : Key → Key → Bool
validate_aes_xts_keys k1 k2 =
    k1.length == k2.length && (k1.length == 32 || k1.length == 64) && k1.is_hex && k2.is_hex

-- The arguments; `ha_type` is `none` for "default", `keys` for no encryption. An unset name is 0, as
-- an unset limit is.
pub record Request : Type 0 where
  pub name : Name
  pub size : ℕ
  pub max_size : ℕ
  pub host : Name
  pub ha_type : Option HaType
  pub pool : Name
  pub limits : Limits
  pub keys : Option (Option Key × Option Key)
  pub uid : Name

-- What the environment supplies: the new uuid, the first node with the host's name, the size of the
-- cluster in its last capacity record, the draws and weights for the choice of a node, how Python
-- computes int((a / b) * 100), what the storage processes reply, and whether the limits are accepted.
pub record Supplies : Type 0 where
  pub uuid : Name
  pub named : Option Node
  pub capacity : Option ℕ
  pub draws : List Draw
  pub weights : Node → ℕ
  pub percent : ℕ → ℕ → ℕ
  pub leads : Name → Bool
  pub creates : Name → Bool
  pub accepts : Bool

-- The reply is the uuid, `none` for False with a message.
abbrev pub Added : Type 0
Added = Result (Option Name) × Store

abbrev pub refuses : Store → Added
refuses s = (returned none, s)

abbrev pub new_uuid : Supplies → Request → Name
new_uuid e q = if is_set q.uid then q.uid else e.uuid

-- Set the limits, whose reply is not read.
unfoldable pub finish_qos : Supplies → Request → Name → Db → Store → Added
finish_qos e q id db s =
    if wants_qos q.limits
    then (let (reply, s') = set_lvol e.accepts id q.limits 0 db s in
        elim reply [ raised ↦ (raised, s') | returned _ ↦ (returned (some id), s') ])
    else (returned (some id), s)

-- From `lvol.pool_uuid = pool.get_id()` on. The call of connect_lvol_to_pool changes nothing stored.
unfoldable pub finish_lvol : Supplies → Request → Pool → Lvol → Db → Store → Added
unfolding finish_qos
finish_lvol e q pool l db s =
    finish_qos e q l.uuid db
      (write_lvol (record l { pool_uuid = pool.uuid; status = LvolStatus.online }) s)

-- The branch of a volume on a pair of nodes.
unfoldable pub create_on_pair : Supplies → Request → Pool → Lvol → Node → Db → Store → Added
unfolding finish_lvol
create_on_pair e q pool l host db s = elim (get_storage_node_by_id host.secondary_node_id db) [
  | none ↦ (raised, s)
  | some sec ↦ elim (place e.leads host sec) [
    | secondary_down ↦ refuses (remove_lvol l.uuid s)
    | both_offline ↦ refuses (remove_lvol l.uuid s)
    | placed primary second ↦
        if e.creates primary.uuid && elim second [ none ↦ true | some n ↦ e.creates n.uuid ]
        then finish_lvol e q pool l db s
        else refuses (remove_lvol l.uuid s)
  ]
]

-- The branches of the type, after the write of the volume.
unfoldable pub create_on_nodes :
    HaType → Supplies → Request → Pool → Lvol → Node → Db → Store → Added
unfolding create_on_pair
create_on_nodes HaType.single e q pool l host db s =
    if is_online host && e.creates host.uuid
    then finish_lvol e q pool l db s
    else refuses (remove_lvol l.uuid s)
create_on_nodes HaType.ha e q pool l host db s = create_on_pair e q pool l host db s
create_on_nodes HaType.other e q pool l host db s = finish_lvol e q pool l db s

-- The new volume, which has no pool yet.
abbrev pub new_lvol : Name → Request → ℕ → HaType → Node → Lvol
new_lvol uuid q max_size kind host = record {
  uuid = uuid;
  lvol_name = q.name;
  node_id = host.uuid;
  pool_uuid = 0;
  size = q.size;
  max_size = max_size;
  status = LvolStatus.in_creation;
  ha_type = kind;
  cloned_from_snap = 0;
  deletion_status = 0;
  io_error = false;
  health_check = true;
  deleted = false;
  rw_ios_per_sec = pos 0;
  rw_mbytes_per_sec = pos 0;
  r_mbytes_per_sec = pos 0;
  w_mbytes_per_sec = pos 0;
}

abbrev pub keys_valid : Option (Option Key × Option Key) → Bool
keys_valid none = true
keys_valid (some (some k1, some k2)) = validate_aes_xts_keys k1 k2
keys_valid (some (some k1, none)) = false
keys_valid (some (none, k2)) = false

-- From the host's attributes on.
unfoldable pub create_on : Supplies → Request → ℕ → HaType → Pool → Node → Db → Store → Added
unfolding create_on_nodes
create_on e q max_size kind pool host db s =
    if ltb host.max_lvol (length (get_lvols_by_node_id host.uuid s))
    then refuses s
    else if not (keys_valid q.keys)
    then refuses s
    else (let l = new_lvol (new_uuid e q) q max_size kind host in
        create_on_nodes kind e q pool l host db (write_lvol l s))

-- The choice of the host, where it is not given; `raised` stands for a loop that goes on.
unfoldable pub create_hosted :
    Supplies → Request → ℕ → HaType → Pool → Option Node → Db → Store → Added
unfolding create_on
create_hosted e q max_size kind pool (some host) db s = create_on e q max_size kind pool host db s
create_hosted e q max_size kind pool none db s =
    elim (get_next_3_nodes e.draws e.weights pool.cluster_id db s) [
      | none ↦ (raised, s)
      | some [] ↦ refuses s
      | some (host ∷ hosts) ↦ create_on e q max_size kind pool host db s
    ]

-- The sizes of all volumes of a list.
abbrev pub provisioned : List Lvol → ℕ
provisioned [] = 0
provisioned (l ∷ ls) = l.size + provisioned ls

abbrev pub is_device_online : Device → Bool
is_device_online d = device_eq d.status DeviceStatus.online

-- The devices that the loop over the nodes counts.
abbrev pub online_devices : List Node → List Device
online_devices [] = []
online_devices (n ∷ ns) =
    let rest = online_devices ns in
    if is_online n then keep is_device_online n.devices ++ rest else rest

abbrev pub device_sizes : List Device → ℕ
device_sizes [] = 0
device_sizes (d ∷ ds) = d.size + device_sizes ds

-- The maximal size of the volume; `none` is the refusal.
abbrev pub max_size_of : Supplies → Request → Option ℕ
max_size_of e q =
    if ltb 0 q.max_size
    then (if ltb q.max_size q.size then none else some q.max_size)
    else some (elim e.capacity [ none ↦ q.size * 10 | some total ↦ total ])

-- From the sums of the sizes on.
unfoldable pub create_in_cluster :
    Supplies → Request → HaType → Pool → Cluster → Option Node → Db → Store → Added
unfolding create_hosted
create_in_cluster e q kind pool c host db s =
    let nodes = get_storage_nodes_by_cluster_id c.uuid db in
    let devices = online_devices nodes in
    let total = device_sizes devices in
    let util = e.percent (provisioned (get_lvols c.uuid db s) + q.size) total in
    if not (any is_online nodes)
    then refuses s
    else if length devices == 0
    then refuses s
    else if elim host [ none ↦ false | some n ↦ not (is_online n) ]
    then refuses s
    else if total == 0
    then (raised, s)
    else if not (c.prov_cap_crit == 0) && ltb c.prov_cap_crit util
    then refuses s
    else elim (max_size_of e q) [
      | none ↦ refuses s
      | some max_size ↦ create_hosted e q max_size kind pool host db s
    ]

-- The validation.
unfoldable pub create_validated :
    Supplies → Request → Pool → Cluster → Option Node → Db → Store → Added
unfolding create_in_cluster
create_validated e q pool c host db s =
    elim (validate_add_lvol_func q.name (pos q.size) q.pool q.limits db s) [
      | some refusal ↦ refuses s
      | none ↦
          create_in_cluster e q (elim q.ha_type [ none ↦ c.ha_type | some kind ↦ kind ]) pool c host
            db s
    ]

-- A volume that has the uid already gets the name, where there is one.
abbrev pub renamed : Request → Lvol → Lvol
renamed q l = record l { lvol_name = if is_set q.name then q.name else l.lvol_name }

-- From the search of the pool on.
unfoldable pub create_for : Supplies → Request → Option Node → Db → Store → Added
unfolding create_validated
create_for e q host db s = elim (find (is_called q.pool) s.pools) [
  | none ↦ refuses s
  | some pool ↦ elim (get_cluster_by_id pool.cluster_id db) [
    | none ↦ (raised, s)
    | some c ↦
        if not
          (cluster_eq c.status ClusterStatus.active || cluster_eq c.status ClusterStatus.degraded)
        then refuses s
        else elim (if is_set q.uid then get_lvol_by_id q.uid s else none) [
          | some l ↦ (returned (some q.uid), write_lvol (renamed q l) s)
          | none ↦ create_validated e q pool c host db s
        ]
  ]
]

-- add_lvol_ha
unfoldable pub add_lvol_ha : Supplies → Request → Db → Store → Added
unfolding create_for
add_lvol_ha e q db s =
    if not (is_set q.host)
    then create_for e q none db s
    else elim (get_storage_node_by_id q.host db) [
      | some host ↦ create_for e q (some host) db s
      | none ↦ elim e.named [ some host ↦ create_for e q (some host) db s | none ↦ refuses s ]
    ]
