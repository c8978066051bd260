-- ===== src/Model/Query.antt =====
-- Queries and writes of simplyblock_core/db_controller.py and BaseModel.write_to_db.
use sbcli.Prelude.{
  Bool, ◌||◌, ◌&&◌, not, Option, List, [], ◌∷◌, ◌++◌, ltb, ◌==◌, if◌then◌else◌, keep, find, reverse,
}
use sbcli.Model.Records.{Name, Task, Device, Node, Cluster, Db}

-- `if text:`
abbrev pub is_set : Name → Bool
is_set n = not (n == 0)

-- JobSchedule.get_id: "cluster_id/date/uuid"
abbrev pub same_key : Task → Task → Bool
same_key t u = t.cluster_id == u.cluster_id && (t.date == u.date && t.uuid == u.uuid)

-- The order of two keys: dates have the same number of digits, uuids the same number of letters.
abbrev pub key_lt : Task → Task → Bool
key_lt t u =
    ltb t.cluster_id u.cluster_id
    || t.cluster_id == u.cluster_id && (ltb t.date u.date || t.date == u.date && ltb t.uuid u.uuid)

-- kv_store.set at the key of the task
unfoldable pub put_task : Task → List Task → List Task
put_task t [] = t ∷ []
put_task t (u ∷ us) =
    let rest = put_task t us in
    if same_key t u then t ∷ us else if key_lt t u then t ∷ u ∷ us else u ∷ rest

abbrev pub write_task : Task → Db → Db
write_task t db = record db { tasks = put_task t db.tasks }

-- get_job_tasks(cluster_id, reverse=False)
abbrev pub tasks_of : Name → Db → List Task
tasks_of c db = keep (λ t. t.cluster_id == c) db.tasks

-- get_job_tasks(cluster_id)
abbrev pub get_job_tasks : Name → Db → List Task
get_job_tasks c db = reverse (tasks_of c db)

-- `none` stands for KeyError here and below.
abbrev pub get_task_by_id : Name → Db → Option Task
get_task_by_id id db = find (λ t. t.uuid == id) (reverse db.tasks)

abbrev pub get_storage_nodes_by_cluster_id : Name → Db → List Node
get_storage_nodes_by_cluster_id c db = keep (λ n. n.cluster_id == c) db.nodes

abbrev pub get_primary_storage_nodes_by_cluster_id : Name → Db → List Node
get_primary_storage_nodes_by_cluster_id c db =
    keep (λ n. n.cluster_id == c && not n.is_secondary) db.nodes

abbrev pub get_storage_node_by_id : Name → Db → Option Node
get_storage_node_by_id id db = find (λ n. n.uuid == id) db.nodes

unfoldable pub all_devices : List Node → List Device
all_devices [] = []
all_devices (n ∷ ns) = n.devices ++ all_devices ns

unfoldable pub get_storage_device_by_id : Name → Db → Option Device
unfolding all_devices
get_storage_device_by_id id db = find (λ d. d.uuid == id) (all_devices db.nodes)

abbrev pub get_cluster_by_id : Name → Db → Option Cluster
get_cluster_by_id id db = find (λ c. c.uuid == id) db.clusters
