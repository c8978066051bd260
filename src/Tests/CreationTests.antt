-- ===== src/Tests/CreationTests.antt =====
-- Examples for the theorems about the creation of volumes.
use sbcli.Prelude.{ℕ, true, some, none, [], ◌∷◌, List, refl, arith, pos, ◌≡◌, ◌≤ℤ◌, returned}
use sbcli.Model.{HaType, Node}
use sbcli.Lvols.Choice.{Draw, get_next_3_nodes}
use sbcli.Lvols.Choice.Chosen.{Chooses, get_next_3_nodes-Chooses}
use sbcli.Pools.{get_pool_total_capacity}
use sbcli.Lvols.{total_of, validate_add_lvol_func, check_pool}
use sbcli.Volumes.{Store}
use sbcli.Volumes.Placement.{place}
use sbcli.Lvols.Creation.{
  Request, Supplies, add_lvol_ha, create_for, create_validated, create_in_cluster, create_hosted,
  create_on, create_on_nodes, create_on_pair, finish_lvol, finish_qos,
}
use sbcli.Lvols.Creation.Within.{add_lvol_ha-IsWithin}
use sbcli.Tests.LvolsTests.{no_limits, pool, volume}
use sbcli.Tests.VolumesTests.{db, store}

abbrev last : Draw
last n = n

abbrev first : Draw
first n = 0

abbrev draws : List Draw
draws = last ∷ first ∷ last ∷ []

abbrev weights : Node → ℕ
weights n = n.uuid

get_next_3_nodes-Chooses_example : Chooses store 1 db (get_next_3_nodes draws weights 1 db store)
get_next_3_nodes-Chooses_example =
    get_next_3_nodes-Chooses draws weights 1 db store
      (λ n. omega arith, (λ n. omega arith, (λ n. omega arith, tt))) (omega arith)
      ((refl, tt), (tt, tt))

abbrev request : Request
request = record {
  name = 96;
  size = 150_000_000;
  max_size = 0;
  host = 20;
  ha_type = some HaType.ha;
  pool = 90;
  limits = no_limits;
  keys = none;
  uid = 0;
}

abbrev supplies : Supplies
supplies = record {
  uuid = 100;
  named = none;
  capacity = none;
  draws = draws;
  weights = weights;
  percent = λ a b. 17;
  leads = λ _. true;
  creates = λ _. true;
  accepts = true;
}

abbrev one_volume : Store
one_volume = record store { lvols = volume ∷ []; snapshots = [] }

is_created : (add_lvol_ha supplies request db one_volume).0 ≡ returned (some 100)
unfolding add_lvol_ha create_for create_validated create_in_cluster create_hosted create_on
    create_on_nodes create_on_pair finish_lvol finish_qos validate_add_lvol_func check_pool
    get_pool_total_capacity place
is_created = refl

add_lvol_ha-IsWithin_example :
    pos (total_of 80 (add_lvol_ha supplies request db one_volume).1) ≤ℤ pos 400_000_000
add_lvol_ha-IsWithin_example =
    add_lvol_ha-IsWithin supplies request pool db one_volume refl refl refl refl is_created
