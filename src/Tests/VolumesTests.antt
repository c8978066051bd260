-- ===== src/Tests/VolumesTests.antt =====
-- Examples for the theorems about volumes and snapshots.
use mathlib.Core.Path.{subst}
use sbcli.Migration.{in_codes}
use sbcli.Prelude.{ℤ, pos, negsuc, true, false, none, some, [], ◌∷◌, ◌++◌, ◌≡◌, refl, returned}
use sbcli.Model.{HaType, Name, Node, Db}
use sbcli.Volumes.{Lvol, LvolStatus, Snapshot, SnapStatus, Store, get_lvol_by_id}
use sbcli.Volumes.Placement.{place, Places, place-Places}
use sbcli.Volumes.Deletion.{Remote, Outcome, delete_snapshot, delete_lvol, accepted}
use sbcli.Volumes.Deletion.Settled.{Settled, delete_snapshot-Settled}
use sbcli.Volumes.Deletion.Deleted.{IsOrderly, Deleted, delete_lvol-Deleted}
use sbcli.Volumes.Watch.{Replies, offline_codes, watch, watch_deletion}
use sbcli.Volumes.Watch.Watched.{Watched, watch_deletion-Watched}
use sbcli.Volumes.Watch.Life.{Lives, watch-Lives}
use sbcli.Volumes.Watch.Ends.{rounds, IsPatient, IsFinal, rounds_gone}
use sbcli.Volumes.SnapWatch.{SnapReplies, watch_snapshot}
use sbcli.Volumes.SnapWatch.Removal.{Turned, watch_snapshot-Turned}
use sbcli.Tests.Sample.{cluster, node}
use sbcli.Tests.LvolsTests.{pool, volume}

abbrev pub partner : Node
partner = record node { uuid = 21; secondary_node_id = 20 }

abbrev pub db : Db
db = record { clusters = cluster ∷ []; nodes = node ∷ partner ∷ []; tasks = [] }

abbrev doomed : Lvol
doomed = record volume {
  uuid = 61;
  ha_type = HaType.ha;
  status = LvolStatus.in_deletion;
  cloned_from_snap = 70;
}

abbrev snap : Snapshot
snap = record {
  uuid = 70;
  snap_name = 71;
  cluster_id = 1;
  lvol = volume;
  size = 10;
  used_size = 5;
  ref_count = pos 1;
  snap_ref_id = 0;
  status = SnapStatus.online;
  deletion_status = 0;
  health_check = true;
  deleted = false;
}

abbrev pub store : Store
store = record {
  clusters = cluster ∷ [];
  pools = pool ∷ [];
  lvols = volume ∷ doomed ∷ [];
  snapshots = snap ∷ [];
}

place-Places_example : Places (λ _. true) node partner (place (λ _. true) node partner)
place-Places_example = place-Places (λ _. true) node partner

abbrev pub remote : Remote
remote = record { leads = λ _. true; deletes = λ _. true }

abbrev nothing : Name → Store → Outcome
nothing id s = (returned accepted, s)

delete_snapshot-Settled_example :
    Settled remote false 70 db store (delete_snapshot nothing remote false 70 db store)
delete_snapshot-Settled_example =
    delete_snapshot-Settled nothing remote false 70 db store (refl, (refl, tt))

store-IsOrderly : IsOrderly store
store-IsOrderly = record { keyed = (refl, (refl, tt)); unmarked = (refl, (refl, tt)) }

delete_lvol-Deleted_example :
    Deleted false true 60 db store (delete_lvol 2 remote false true 60 db store)
delete_lvol-Deleted_example = delete_lvol-Deleted 2 remote false true 60 db store store-IsOrderly

-- The volume store is led by every node, and the deletion has the status `code`.
abbrev reporting : ℤ → Replies
reporting code = record {
  leads = λ _. returned true;
  delete_status = returned code;
  healthy = true;
  healthy_on_secondary = true;
}

watch_deletion-Watched_example :
    Watched
      (reporting (pos 4))
      doomed
      store.lvols
      (watch_deletion (reporting (pos 4)) node (some partner) doomed db store)
watch_deletion-Watched_example =
    watch_deletion-Watched (reporting (pos 4)) node (some partner) doomed db store refl refl

watch-Lives_example :
    Lives 60 store (watch (reporting (pos 0)) node (some partner) volume db store).store
watch-Lives_example = watch-Lives (reporting (pos 0)) node (some partner) volume db store refl

abbrev snap_reporting : ℤ → SnapReplies
snap_reporting code = record {
  leads = λ _. returned true;
  deletes = true;
  delete_status = returned code;
  present = false;
}

abbrev doomed_snap : Snapshot
doomed_snap = record snap { status = SnapStatus.in_deletion }

abbrev snap_store : Store
snap_store = record store { snapshots = doomed_snap ∷ [] }

watch_snapshot-Turned_example :
    Turned
      (snap_reporting (pos 2))
      doomed_snap
      snap_store
      (watch_snapshot (snap_reporting (pos 2)) node (some partner) doomed_snap db snap_store)
watch_snapshot-Turned_example =
    watch_snapshot-Turned (snap_reporting (pos 2)) node (some partner) doomed_snap db snap_store
      refl

reporting-IsPatient : (c : ℤ) → in_codes offline_codes c ≡ false → IsPatient (reporting c)
reporting-IsPatient c h code e = subst (λ x. in_codes offline_codes x ≡ false) same h
  where
    same : c ≡ code
    same = cc

done-IsFinal : IsFinal (reporting (negsuc 1)) node (some partner)
done-IsFinal = record {
  leader = node;
  leads = refl;
  code = negsuc 1;
  status = refl;
  is_finish = refl;
}

rounds_gone_example :
    get_lvol_by_id 61 (
      rounds
        ((reporting (pos 1) ∷ reporting (negsuc 10) ∷ []) ++ reporting (negsuc 1) ∷ [])
        node
        (some partner)
        61
        db
        store)
    ≡ none
rounds_gone_example =
    rounds_gone (reporting (pos 1) ∷ reporting (negsuc 10) ∷ []) (reporting (negsuc 1)) node node
      node partner (some partner) doomed db store refl refl refl refl refl
      (reporting-IsPatient (pos 1) refl, (reporting-IsPatient (negsuc 10) refl, tt)) done-IsFinal
