-- ===== src/Devices/Lost.antt =====
-- What the state changes of a device store, and what they lose.
use sbcli.Prelude.{
  Bool, true, false, none, some, List, [], ◌∷◌, ◌==◌, find, ◌≡◌, refl, arith, ap, if◌then◌else◌,
  Option-cases, inl, inr, find-passes,
}
use sbcli.Model.{Name, Node, Db, get_storage_device_by_id, get_storage_node_by_id}
use sbcli.Devices.{same_bool, write_node, replace_node, device_set_retries_exhausted}

-- Writing a node as it was read changes nothing.
replace_node_self :
    (id : Name) (ns : List Node) (n : Node)
    → find (λ m. m.uuid == id) ns ≡ some n
    → replace_node n ns ≡ ns
replace_node_self id [] n h = refl
replace_node_self id (m ∷ ms) n h =
    ground (arith, replace_node_self id ms n, find-passes (λ x. x.uuid == id) (m ∷ ms) n h)

write_node_self :
    (id : Name) (n : Node) (db : Db) → get_storage_node_by_id id db ≡ some n → write_node n db ≡ db
write_node_self id n db h = ap (λ ns. record db { nodes = ns }) (replace_node_self id db.nodes n h)

after_query :
    (id : Name) (b c : Bool) (db : Db)
    → (elim (get_storage_node_by_id id db) as (λ _. Bool × Db) [
      | none ↦ (false, db)
      | some snode ↦ if same_bool b c then (true, db) else (true, write_node snode db)
    ]).1
      ≡ db
after_query id b c db = elim (Option-cases (get_storage_node_by_id id db)) [
  | inl e ↦ rw e
  | inr (n, e) ↦ rw e (ground (arith, write_node_self id n db e))
]

-- Setting or clearing the retries_exhausted flag of a device never changes the database.
pub device_set_retries_exhausted-unchanged :
    (id : Name) (b : Bool) (db : Db) → (device_set_retries_exhausted id b db).1 ≡ db
unfolding device_set_retries_exhausted
device_set_retries_exhausted-unchanged id b db =
    elim (Option-cases (get_storage_device_by_id id db)) [
      | inl e ↦ rw (e, device_set_retries_exhausted)
      | inr (d, e) ↦
          rw (e, device_set_retries_exhausted) (after_query d.node_id d.retries_exhausted b db)
    ]
