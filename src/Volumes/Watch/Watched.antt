-- ===== src/Volumes/Watch/Watched.antt =====
-- What a turn of the volume monitor does to a volume in deletion.
use sbcli.Prelude.{
  ℤ, true, false, not, ◌&&◌, ◌||◌, Option, some, List, [], ◌≡◌, ◌==◌, arith, refl, sym, ap, ◌∙◌,
  if◌then◌else◌, if-cases, option-cases, result-cases, keep, is_some, returned, raised,
}
use sbcli.Model.{Name, Node, Db, NodeStatus, node_eq, is_set, get_storage_node_by_id}
use sbcli.Migration.{in_codes}
use sbcli.Volumes.{lvol_key, LvolStatus, Lvol, Store, get_lvol_by_id, put_lvol, write_lvol}
use sbcli.Prelude.Table.{get-put, put-put, remove-put, put_self}
use sbcli.Volumes.Deletion.{delete_lvol_from_node}
use sbcli.Volumes.Watch.{
  Replies, Turn, leader_of, finish_codes, offline_codes, finish_secondary, finish, set_failed,
  try_again, set_lvol_status, status_tag, handle_status, watch_deletion, gone, again_codes, Flow,
}

-- `l` with another deletion status.
abbrev pub told_at : Lvol → Name → Lvol
told_at l at = record l { deletion_status = at }

-- The outcomes for the table of volumes: the deletion is under way, it has failed, or the volume is
-- gone.
pub data Watched (r : Replies) (l : Lvol) (before : List Lvol) : Turn → Type 0 where
  under_way :
      {t : Turn} (at : Name) → t.store.lvols ≡ put_lvol (told_at l at) before → Watched r l before t
  failed :
      {t : Turn} (code : ℤ) (at : Name)
      → r.delete_status ≡ returned code
      → in_codes offline_codes code ≡ true
      → t.store.lvols
        ≡ put_lvol
            (record l { deletion_status = at; io_error = true; status = LvolStatus.offline })
            before
      → Watched r l before t
  ended :
      {t : Turn} (code : ℤ)
      → r.delete_status ≡ returned code
      → in_codes finish_codes code ≡ true
      → t.store.lvols ≡ keep (λ m. not (m.uuid == l.uuid)) before
      → Watched r l before t

-- The second write of set_failed.
set_lvol_status_lem :
    (m : Lvol) (status : LvolStatus) (s : Store)
    → (status_tag m.status == status_tag status) ≡ false
    → set_lvol_status m status (write_lvol m s)
      ≡ write_lvol (record m { status = status }) (write_lvol m s)
set_lvol_status_lem m status s h = rw (h, get-put lvol_key m s.lvols) refl

module _ (r : Replies) (l : Lvol) (before : List Lvol) (db : Db) where
  -- The store holds `l`, told to some node.
  abbrev Holds : Store → Type 0
  Holds s = (at : Name) × (s.lvols ≡ put_lvol (told_at l at) before)

  lookup_told : (s : Store) (h : Holds s) → get_lvol_by_id l.uuid s ≡ some (told_at l h.0)
  lookup_told s (at, e) = rw e (get-put lvol_key (told_at l at) before)

  from_node-Holds : (id : Name) (s : Store) → Holds s → Holds (delete_lvol_from_node l.uuid id db s)
  unfolding delete_lvol_from_node
  from_node-Holds id s (at, e) =
      rw (lookup_told s (at, e), delete_lvol_from_node)
        (if-cases Holds (is_some (get_storage_node_by_id id db))
          (λ _. (
            id,
            ap (put_lvol (told_at l id)) e
                ∙ put-put lvol_key (told_at l at) (told_at l id) before refl,
          ))
          (λ _. (at, e)))

  module _ (code : ℤ) (status : r.delete_status ≡ returned code) where
    module _ (is_finish : in_codes finish_codes code ≡ true) where
      gone-Watched : (snode : Node) (s : Store) → Holds s → Watched r l before (gone l snode s)
      gone-Watched snode s (at, e) = ended code status is_finish (
          ap (keep (λ m. not (m.uuid == l.uuid))) e
          ∙ remove-put lvol_key l.uuid (told_at l at) before refl)

      finish_secondary-Watched :
          (snode : Node) (s : Store) → Holds s → Watched r l before (finish_secondary l snode db s)
      unfolding finish_secondary
      finish_secondary-Watched snode s h =
          if-cases (Watched r l before) (is_set snode.secondary_node_id)
            (λ _.
              option-cases (Watched r l before) (get_storage_node_by_id snode.secondary_node_id db)
                (λ _. under_way h.0 h.1)
                λ sec _.
                  if-cases (Watched r l before)
                    (node_eq sec.status NodeStatus.online || node_eq sec.status NodeStatus.down)
                    (λ _.
                      gone-Watched snode (delete_lvol_from_node l.uuid sec.uuid db s)
                        (from_node-Holds sec.uuid s h))
                    (λ _. gone-Watched snode s h))
            (λ _. gone-Watched snode s h)

      finish-Watched :
          (snode : Node) (s : Store) → Holds s → Watched r l before (finish l snode db s)
      unfolding finish
      finish-Watched snode s h =
          option-cases (Watched r l before) (get_storage_node_by_id l.node_id db)
            (λ _. under_way h.0 h.1)
            λ primary _. finish_secondary-Watched snode _ (
              if-cases Holds (node_eq primary.status NodeStatus.online)
                (λ _. from_node-Holds primary.uuid s h) (λ _. h))

    set_failed-Watched :
        (s : Store)
        → in_codes offline_codes code ≡ true
        → l.status ≡ LvolStatus.in_deletion
        → Holds s
        → Watched r l before (set_failed l s)
    unfolding set_failed
    set_failed-Watched s is_offline deleting (at, e) =
        rw (lookup_told s (at, e), set_failed)
          (failed code at status is_offline (
            ap (λ (x : Store). x.lvols)
              (set_lvol_status_lem broken LvolStatus.offline s (ground arith))
            ∙ put-put lvol_key broken dead s.lvols refl
            ∙ ap (put_lvol dead) e
            ∙ put-put lvol_key (told_at l at) dead before refl))
      where
        broken : Lvol
        broken = record l { deletion_status = at; io_error = true }

        dead : Lvol
        dead = record broken { status = LvolStatus.offline }

    try_again-Watched : (s : Store) → Holds s → Watched r l before (try_again l s)
    unfolding try_again
    try_again-Watched s (at, e) =
        rw (lookup_told s (at, e), try_again)
          (under_way 0 (
            ap (put_lvol (told_at l 0)) e
            ∙ put-put lvol_key (told_at l at) (told_at l 0) before refl))

    handle_status-Watched :
        (snode : Node) (s : Store)
        → l.status ≡ LvolStatus.in_deletion
        → Holds s
        → Watched r l before (handle_status code l snode db s)
    unfolding handle_status
    handle_status-Watched snode s deleting h =
        if-cases (Watched r l before) (in_codes finish_codes code)
          (λ is_finish. finish-Watched is_finish snode s h)
          (λ _.
            if-cases (Watched r l before) (in_codes offline_codes code)
              (λ is_offline. set_failed-Watched s is_offline deleting h)
              (λ _.
                if-cases (Watched r l before) (in_codes again_codes code)
                  (λ _. try_again-Watched s h) (λ _. under_way h.0 h.1)))

-- A finished deletion, where the nodes of the volume are known, removes it.
module _ (l : Lvol) (before : List Lvol) (db : Db) (r : Replies) where
  abbrev IsGone : Turn → Type 0
  IsGone t = t.store.lvols ≡ keep (λ m. not (m.uuid == l.uuid)) before

  gone_lem : (snode : Node) (s : Store) → Holds r l before db s → IsGone (gone l snode s)
  gone_lem snode s (at, e) =
      ap (keep (λ m. not (m.uuid == l.uuid))) e
      ∙ remove-put lvol_key l.uuid (told_at l at) before refl

  finish_secondary-IsGone :
      (snode second : Node) (s : Store)
      → get_storage_node_by_id snode.secondary_node_id db ≡ some second
      → Holds r l before db s
      → IsGone (finish_secondary l snode db s)
  unfolding finish_secondary
  finish_secondary-IsGone snode second s has_second h =
      if-cases IsGone (is_set snode.secondary_node_id)
        (λ _.
          option-cases IsGone (get_storage_node_by_id snode.secondary_node_id db)
            (λ e. absurd (ground arith))
            λ sec _.
              if-cases IsGone
                (node_eq sec.status NodeStatus.online || node_eq sec.status NodeStatus.down)
                (λ _.
                  gone_lem snode (delete_lvol_from_node l.uuid sec.uuid db s)
                    (from_node-Holds r l before db sec.uuid s h))
                (λ _. gone_lem snode s h))
        (λ _. gone_lem snode s h)

  finish-IsGone :
      (snode primary second : Node) (s : Store)
      → get_storage_node_by_id l.node_id db ≡ some primary
      → get_storage_node_by_id snode.secondary_node_id db ≡ some second
      → Holds r l before db s
      → IsGone (finish l snode db s)
  unfolding finish
  finish-IsGone snode primary second s has_primary has_second h =
      option-cases IsGone (get_storage_node_by_id l.node_id db) (λ e. absurd (ground arith))
        λ p _.
          secondary
            (if node_eq p.status NodeStatus.online
              then delete_lvol_from_node l.uuid p.uuid db s
              else s)
            (if-cases (Holds r l before db) (node_eq p.status NodeStatus.online)
              (λ _. from_node-Holds r l before db p.uuid s h) (λ _. h))
    where
      secondary : (s' : Store) → Holds r l before db s' → IsGone (finish_secondary l snode db s')
      secondary s' h' = finish_secondary-IsGone snode second s' has_second h'

-- A turn of the monitor for a stored volume in deletion, whatever the storage processes reply: the
-- volume is gone only on a status that says so, it goes offline with an I/O error only on a status
-- of failure, and otherwise only the node it was told to is another; no other volume changes.
pub watch_deletion-Watched :
    (r : Replies) (snode : Node) (sec : Option Node) (l : Lvol) (db : Db) (s : Store)
    → l.status ≡ LvolStatus.in_deletion
    → get_lvol_by_id l.uuid s ≡ some l
    → Watched r l s.lvols (watch_deletion r snode sec l db s)
unfolding watch_deletion
watch_deletion-Watched r snode sec l db s deleting stored =
    option-cases P (get_storage_node_by_id snode.uuid db) (λ _. under_way here.0 here.1)
      λ node _.
        result-cases P (leader_of r.leads node sec) (λ _. under_way here.0 here.1)
          λ leader _.
            told node
              (if l.deletion_status == leader.uuid && is_set l.deletion_status
                then s
                else delete_lvol_from_node l.uuid leader.uuid db s)
              (if-cases (Holds r l s.lvols db)
                (l.deletion_status == leader.uuid && is_set l.deletion_status) (λ _. here)
                (λ _. from_node-Holds r l s.lvols db leader.uuid s here))
  where
    P : Turn → Type 0
    P = Watched r l s.lvols

    here : Holds r l s.lvols db s
    here = (l.deletion_status, sym (put_self lvol_key l s.lvols stored))

    told :
        (node : Node) (s' : Store)
        → Holds r l s.lvols db s'
        → P (elim r.delete_status [
          | raised ↦ record { flow = Flow.break; store = s'; expands = [] }
          | returned code ↦ handle_status code l node db s'
        ])
    told node s' h =
        result-cases P r.delete_status (λ _. under_way h.0 h.1)
          λ code status. handle_status-Watched r l s.lvols db code status node s' deleting h

-- The same for a whole turn.
pub watch_deletion_gone :
    (r : Replies) (snode node leader primary second : Node) (sec : Option Node) (l : Lvol) (db : Db)
    (s : Store) (code : ℤ)
    → get_lvol_by_id l.uuid s ≡ some l
    → get_storage_node_by_id snode.uuid db ≡ some node
    → get_storage_node_by_id l.node_id db ≡ some primary
    → get_storage_node_by_id node.secondary_node_id db ≡ some second
    → leader_of r.leads node sec ≡ returned leader
    → r.delete_status ≡ returned code
    → in_codes finish_codes code ≡ true
    → (watch_deletion r snode sec l db s).store.lvols ≡ keep (λ m. not (m.uuid == l.uuid)) s.lvols
unfolding watch_deletion handle_status
watch_deletion_gone r snode node leader primary second sec l db s code stored read has_primary
      has_second leads status is_finish =
    rw (read, leads, status, is_finish, watch_deletion)
      (finish-IsGone l s.lvols db r node primary second
        (if l.deletion_status == leader.uuid && is_set l.deletion_status
          then s
          else delete_lvol_from_node l.uuid leader.uuid db s)
        has_primary has_second
        (if-cases (Holds r l s.lvols db)
          (l.deletion_status == leader.uuid && is_set l.deletion_status) (λ _. here)
          (λ _. from_node-Holds r l s.lvols db leader.uuid s here)))
  where
    here : Holds r l s.lvols db s
    here = (l.deletion_status, sym (put_self lvol_key l s.lvols stored))
