-- ===== src/Tests/LvolsTests.antt =====
-- Examples for the theorems about new volumes.
use sbcli.Prelude.{pos, true, false, none, [], ◌∷◌, ◌≡◌, inl, inr, refl, arith}
use sbcli.Model.{HaType, Db}
use sbcli.Volumes.{LvolStatus, Limits, Pool, PoolStatus, Lvol, Store}
use sbcli.Pools.{get_pool_total_capacity}
use sbcli.Lvols.{validate_add_lvol_func, check_pool}
use sbcli.Lvols.Admitted.{Admits, validate_add_lvol_func-Admits, Admits-validate_add_lvol_func}
use sbcli.Tests.Sample.{cluster, mig_task, db_with}

abbrev pub no_limits : Limits
no_limits = record {
  pool_max_size = pos 400_000_000;
  lvol_max_size = pos 0;
  max_rw_ios_per_sec = pos 0;
  max_rw_mbytes_per_sec = pos 0;
  max_r_mbytes_per_sec = pos 0;
  max_w_mbytes_per_sec = pos 0;
}

abbrev pub pool : Pool
pool = record {
  uuid = 80;
  cluster_id = 1;
  numeric_id = 1;
  pool_name = 90;
  limits = no_limits;
  status = PoolStatus.active;
}

abbrev pub volume : Lvol
volume = record {
  uuid = 60;
  lvol_name = 95;
  node_id = 20;
  pool_uuid = 80;
  size = 200_000_000;
  max_size = 0;
  status = LvolStatus.online;
  ha_type = HaType.single;
  cloned_from_snap = 0;
  deletion_status = 0;
  io_error = false;
  health_check = true;
  deleted = false;
  rw_ios_per_sec = pos 0;
  rw_mbytes_per_sec = pos 0;
  r_mbytes_per_sec = pos 0;
  w_mbytes_per_sec = pos 0;
}

abbrev store : Store
store = record { clusters = cluster ∷ []; pools = pool ∷ []; lvols = volume ∷ []; snapshots = [] }

abbrev db : Db
db = db_with mig_task

volume-Admits : Admits 96 (pos 150_000_000) 90 no_limits db store
unfolding get_pool_total_capacity
volume-Admits = record {
  named = refl;
  large = omega arith;
  pool = pool;
  called = refl;
  fits = record {
    active = refl;
    below_lvol_max = inl (omega arith);
    below_pool_max = inr (omega arith);
    new_name = (inr (λ e. ground arith), tt);
    one_qos = inl refl;
  };
}

Admits-validate_add_lvol_func_example :
    validate_add_lvol_func 96 (pos 150_000_000) 90 no_limits db store ≡ none
Admits-validate_add_lvol_func_example =
    Admits-validate_add_lvol_func 96 (pos 150_000_000) no_limits db store 90 volume-Admits

is_accepted : validate_add_lvol_func 96 (pos 150_000_000) 90 no_limits db store ≡ none
unfolding validate_add_lvol_func check_pool get_pool_total_capacity
is_accepted = refl

validate_add_lvol_func-Admits_example : Admits 96 (pos 150_000_000) 90 no_limits db store
validate_add_lvol_func-Admits_example =
    validate_add_lvol_func-Admits 96 (pos 150_000_000) no_limits db store 90 is_accepted

abbrev new_volume : Lvol
new_volume = record volume { lvol_name = 96; size = 150_000_000 }
