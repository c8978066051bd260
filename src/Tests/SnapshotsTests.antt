-- ===== src/Tests/SnapshotsTests.antt =====
-- Examples for the theorems about new snapshots and clones.
use sbcli.Prelude.{true, some, none, refl}
use sbcli.Lvols.Resize.{Resizing, resize_lvol}
use sbcli.Lvols.Resize.Resized.{Resizes, resize_lvol-Resizes}
use sbcli.Snapshots.{Creation, add_snapshot}
use sbcli.Snapshots.Added.{Adds, add_snapshot-Adds}
use sbcli.Snapshots.Clone.{clone}
use sbcli.Snapshots.Clone.Outcome.{Clones}
use sbcli.Snapshots.Clone.Cloned.{clone-Clones}
use sbcli.Tests.LvolsTests.{volume}
use sbcli.Tests.VolumesTests.{db, store}

abbrev creation : Creation
creation = record { leads = λ _. true; creates = λ _. true; used_size = some 7; registers = true }

abbrev resizing : Resizing
resizing = record { leads = λ _. true; resizes = λ _. true }

add_snapshot-Adds_example :
    Adds creation 100 101 none volume db store (add_snapshot creation 100 60 101 none db store)
add_snapshot-Adds_example = add_snapshot-Adds creation 100 101 none volume db store refl

clone-Clones_example :
    Clones 100 70 101 150_000_000 db store (clone creation resizing 100 70 101 150_000_000 db store)
clone-Clones_example = clone-Clones creation resizing 100 70 101 150_000_000 db store refl

resize_lvol-Resizes_example :
    Resizes 250_000_000 volume store (resize_lvol resizing 60 250_000_000 db store)
resize_lvol-Resizes_example = resize_lvol-Resizes resizing 250_000_000 volume db store refl
