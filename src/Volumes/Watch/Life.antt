-- ===== src/Volumes/Watch/Life.antt =====
-- The life of a volume, as the monitor and the deletion move it, and that a deletion ends.
use sbcli.Prelude.{
  Bool, Option, none, some, ◌≡◌, ◌≢◌, ◌==◌, if-cases, option-cases, arith, refl, sym, ap, ◌∙◌,
}
use sbcli.Model.{HaType, LvstoreStatus, Name, Node, Db, get_storage_node_by_id}
use sbcli.Volumes.{lvol_key, LvolStatus, Lvol, Store, get_lvol_by_id, put_lvol}
use sbcli.Prelude.Table.{get-put_ne, get-put, put-put, get-remove_ne, get-remove, put_self}
use sbcli.Volumes.Watch.{
  Replies, Turn, watch_deletion, watch, watch_by, watch_health, record_health,
  set_lvol_health_check, set_lvol_status, status_tag, bit_eq,
}
use sbcli.Volumes.Watch.Watched.{Watched, under_way, failed, ended, told_at, watch_deletion-Watched}

-- What a volume is to its users: a status, or nothing when it is gone.
abbrev pub Stage : Type 0
Stage = Option LvolStatus

pub stage_of : Name → Store → Stage
stage_of id s = elim (get_lvol_by_id id s) [ none ↦ none | some l ↦ some l.status ]

stage_some :
    (id : Name) (s : Store) (l : Lvol)
    → get_lvol_by_id id s ≡ some l
    → stage_of id s ≡ some l.status
unfolding stage_of
stage_some id s l h = ground arith

stage_none : (id : Name) (s : Store) → get_lvol_by_id id s ≡ none → stage_of id s ≡ none
unfolding stage_of
stage_none id s h = ground arith

-- The steps of a volume in a turn of the monitor.
pub data Life : Stage → Stage → Type 0 where
  rests : (x : Stage) → Life x x
  heals :
      (x : LvolStatus)
      → x ≢ LvolStatus.in_creation
      → x ≢ LvolStatus.in_deletion
      → Life (some x) (some LvolStatus.online)
  fails : Life (some LvolStatus.in_deletion) (some LvolStatus.offline)
  ends : Life (some LvolStatus.in_deletion) none

-- The step of one volume, with the others as they were.
pub record Lives (id : Name) (s s' : Store) : Type 0 where
  pub life : Life (stage_of id s) (stage_of id s')
  pub others : (other : Name) → id ≢ other → get_lvol_by_id other s' ≡ get_lvol_by_id other s

put-Lives :
    (l m : Lvol) (s s' : Store)
    → get_lvol_by_id l.uuid s ≡ some l
    → m.uuid ≡ l.uuid
    → Life (some l.status) (some m.status)
    → s'.lvols ≡ put_lvol m s.lvols
    → Lives l.uuid s s'
put-Lives l m s s' stored same step e = record {
  life = rw (stage_some l.uuid s l stored, stage_some l.uuid s' m found) step;
  others = λ other h. rw e (get-put_ne lvol_key m other s.lvols (λ g. h (rw (← same) g)));
}
  where
    found : get_lvol_by_id l.uuid s' ≡ some m
    found = rw (e, ← same) (get-put lvol_key m s.lvols)

Watched-Lives :
    (r : Replies) (l : Lvol) (s : Store) (t : Turn)
    → get_lvol_by_id l.uuid s ≡ some l
    → l.status ≡ LvolStatus.in_deletion
    → Watched r l s.lvols t
    → Lives l.uuid s t.store
Watched-Lives r l s t stored deleting (under_way at e) =
    put-Lives l (told_at l at) s t.store stored refl (rests (some l.status)) e
Watched-Lives r l s t stored deleting (failed code at a b e) =
    put-Lives l _ s t.store stored refl (rw deleting fails) e
Watched-Lives r l s t stored deleting (ended code a b e) = record {
  life = rw (stage_some l.uuid s l stored, deleting, stage_none l.uuid t.store found) ends;
  others = λ other h. rw e (get-remove_ne lvol_key l.uuid other s.lvols h);
}
  where
    found : get_lvol_by_id l.uuid t.store ≡ none
    found = rw e (get-remove lvol_key l.uuid s.lvols)

module _ (l : Lvol) (s : Store) (stored : get_lvol_by_id l.uuid s ≡ some l) where
  -- The store with another version of `l`, in a status that `l` may step to.
  abbrev Holds : Store → Type 0
  Holds s' =
      (m : Lvol) × (m.uuid ≡ l.uuid)
      × (Life (some l.status) (some m.status))
      × (s'.lvols ≡ put_lvol m s.lvols)

  Holds-Lives : (s' : Store) → Holds s' → Lives l.uuid s s'
  Holds-Lives s' (m, same, step, e) = put-Lives l m s s' stored same step e

  here : Holds s
  here = (l, refl, rests (some l.status), sym (put_self lvol_key l s.lvols stored))

  health-Holds : (healthy : Bool) → Holds (set_lvol_health_check l healthy s)
  health-Holds healthy =
      rw (stored, set_lvol_health_check)
        (if-cases Holds (bit_eq l.health_check healthy) (λ _. here)
          (λ _. (record l { health_check = healthy }, refl, rests (some l.status), refl)))

  status-Holds :
      (s' : Store)
      → l.status ≢ LvolStatus.in_creation
      → l.status ≢ LvolStatus.in_deletion
      → Holds s'
      → Holds (set_lvol_status l LvolStatus.online s')
  status-Holds s' p q (m, same, step, e) =
      if-cases Holds (status_tag l.status == 1) (λ _. (m, same, step, e))
        (λ _.
          rw (found, set_lvol_status)
            (
              record m { status = LvolStatus.online },
              same,
              heals l.status p q,
              ap (put_lvol (record m { status = LvolStatus.online })) e
                  ∙ put-put lvol_key m (record m { status = LvolStatus.online }) s.lvols refl,
            ))
    where
      found : get_lvol_by_id l.uuid s' ≡ some m
      found = rw (e, ← same) (get-put lvol_key m s.lvols)

  record_health-Holds :
      (x : LvstoreStatus) (healthy : Bool)
      → l.status ≢ LvolStatus.in_creation
      → l.status ≢ LvolStatus.in_deletion
      → Holds (record_health x l healthy s).store
  unfolding record_health
  record_health-Holds LvstoreStatus.ready healthy p q =
      option-cases (λ (t : Turn). Holds t.store) (get_lvol_by_id l.uuid s) (λ _. here)
        λ _ _.
          if-cases Holds healthy
            (λ _. status-Holds (set_lvol_health_check l healthy s) p q (health-Holds healthy))
            (λ _. health-Holds healthy)
  record_health-Holds LvstoreStatus.in_creation healthy p q = here
  record_health-Holds LvstoreStatus.other healthy p q = here

  watch_health-Holds :
      (t : HaType) (r : Replies) (snode : Node) (db : Db)
      → l.status ≢ LvolStatus.in_creation
      → l.status ≢ LvolStatus.in_deletion
      → Holds (watch_health t r snode l db s).store
  unfolding watch_health
  watch_health-Holds HaType.ha r snode db p q =
      option-cases (λ (t : Turn). Holds t.store) (get_storage_node_by_id snode.secondary_node_id db)
        (λ _. here) (λ sec _. record_health-Holds snode.lvstore_status _ p q)
  watch_health-Holds HaType.single r snode db p q =
      record_health-Holds snode.lvstore_status r.healthy p q
  watch_health-Holds HaType.other r snode db p q =
      record_health-Holds snode.lvstore_status r.healthy p q

watch_by-Lives :
    (x : LvolStatus) (r : Replies) (snode : Node) (sec : Option Node) (l : Lvol) (db : Db)
    (s : Store)
    → get_lvol_by_id l.uuid s ≡ some l
    → l.status ≡ x
    → Lives l.uuid s (watch_by x r snode sec l db s).store
unfolding watch_by
watch_by-Lives LvolStatus.in_creation r snode sec l db s stored e =
    Holds-Lives l s stored s (here l s stored)
watch_by-Lives LvolStatus.in_deletion r snode sec l db s stored e =
    Watched-Lives r l s (watch_deletion r snode sec l db s) stored e
      (watch_deletion-Watched r snode sec l db s e stored)
watch_by-Lives LvolStatus.online r snode sec l db s stored e =
    Holds-Lives l s stored (watch_health l.ha_type r snode l db s).store
      (watch_health-Holds l s stored l.ha_type r snode db (λ h. ground arith) (λ h. ground arith))
watch_by-Lives LvolStatus.offline r snode sec l db s stored e =
    Holds-Lives l s stored (watch_health l.ha_type r snode l db s).store
      (watch_health-Holds l s stored l.ha_type r snode db (λ h. ground arith) (λ h. ground arith))

-- Whatever the storage processes reply, the turn of a stored volume is a step of its life: a volume
-- in creation stays as it is; one in deletion stays, goes offline or is gone; any other stays or
-- comes online. No other volume changes.
pub watch-Lives :
    (r : Replies) (snode : Node) (sec : Option Node) (l : Lvol) (db : Db) (s : Store)
    → get_lvol_by_id l.uuid s ≡ some l
    → Lives l.uuid s (watch r snode sec l db s).store
unfolding watch
watch-Lives r snode sec l db s stored = watch_by-Lives l.status r snode sec l db s stored refl
