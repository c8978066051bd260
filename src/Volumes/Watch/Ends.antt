-- ===== src/Volumes/Watch/Ends.antt =====
-- The deletion of a volume ends: the rounds of the volume monitor for one volume.
use mathlib.Core.Path.{subst}
use sbcli.Prelude.{
  ℤ, true, false, not, Option, none, some, List, [], ◌∷◌, ◌++◌, ◌≡◌, ◌==◌, ◌⊎◌, inl, inr, arith,
  refl, sym, All, returned, keep,
}
use sbcli.Model.{Name, Node, Db, get_storage_node_by_id}
use sbcli.Migration.{in_codes}
use sbcli.Volumes.{lvol_key, LvolStatus, Lvol, Store, get_lvol_by_id}
use sbcli.Prelude.Table.{get-put, get-remove}
use sbcli.Volumes.Watch.{
  Replies, Turn, leader_of, watch, watch_by, watch_deletion, finish_codes, offline_codes,
}
use sbcli.Volumes.Watch.Watched.{
  Watched, under_way, failed, ended, told_at, watch_deletion-Watched, watch_deletion_gone,
}

-- One round of the service for the volume `id`, if it is stored, and a series of rounds.
pub round : Replies → Node → Option Node → Name → Db → Store → Store
unfolding watch
round r snode sec id db s = elim (get_lvol_by_id id s) [
  | none ↦ s
  | some l ↦ (watch r snode sec l db s).store
]

pub rounds : List Replies → Node → Option Node → Name → Db → Store → Store
unfolding round
rounds [] snode sec id db s = s
rounds (r ∷ rs) snode sec id db s = rounds rs snode sec id db (round r snode sec id db s)

-- The storage reports no failure of the deletion.
abbrev pub IsPatient : Replies → Type 0
IsPatient r = (code : ℤ) → r.delete_status ≡ returned code → in_codes offline_codes code ≡ false

-- The storage has a leader, which reports that the deletion is done.
pub record IsFinal (r : Replies) (node : Node) (sec : Option Node) : Type 0 where
  pub leader : Node
  pub leads : leader_of r.leads node sec ≡ returned leader
  pub code : ℤ
  pub status : r.delete_status ≡ returned code
  pub is_finish : in_codes finish_codes code ≡ true

watch_deleting :
    (r : Replies) (snode : Node) (sec : Option Node) (l : Lvol) (db : Db) (s : Store)
    → l.status ≡ LvolStatus.in_deletion
    → watch r snode sec l db s ≡ watch_deletion r snode sec l db s
unfolding watch watch_by
watch_deleting r snode sec l db s e = rw e refl

module _ (snode node primary second : Node) (sec : Option Node) (id at : Name) (db : Db)
    (read : get_storage_node_by_id snode.uuid db ≡ some node)
    (has_primary : get_storage_node_by_id at db ≡ some primary)
    (has_second : get_storage_node_by_id node.secondary_node_id db ≡ some second) where
  -- The volume is gone, or in deletion on its node.
  abbrev Leaving : Store → Type 0
  Leaving s =
      (get_lvol_by_id id s ≡ none)
      ⊎ ((l : Lvol) × (get_lvol_by_id id s ≡ some l)
          × (l.uuid ≡ id)
          × (l.status ≡ LvolStatus.in_deletion)
          × (l.node_id ≡ at))

  key :
      (l : Lvol) (s : Store)
      → l.uuid ≡ id
      → get_lvol_by_id id s ≡ some l
      → get_lvol_by_id l.uuid s ≡ some l
  key l s u = subst (λ x. get_lvol_by_id x s ≡ some l) (sym u)

  Watched-Leaving :
      (r : Replies) (l : Lvol) (s : Store) (t : Turn)
      → IsPatient r
      → l.uuid ≡ id
      → l.status ≡ LvolStatus.in_deletion
      → l.node_id ≡ at
      → Watched r l s.lvols t
      → Leaving t.store
  Watched-Leaving r l s t patient u e f (under_way where_to h) =
      inr (told_at l where_to, rw (h, ← u) (get-put lvol_key (told_at l where_to) s.lvols), u, e, f)
  Watched-Leaving r l s t patient u e f (failed code where_to b c h) =
      absurd (ground (arith, patient code b))
  Watched-Leaving r l s t patient u e f (ended code b c h) =
      inl (rw (h, ← u) (get-remove lvol_key l.uuid s.lvols))

  round-Leaving :
      (r : Replies) (s : Store) → IsPatient r → Leaving s → Leaving (round r snode sec id db s)
  unfolding round
  round-Leaving r s patient (inl gone) = rw (gone, round) (inl gone)
  round-Leaving r s patient (inr (l, stored, u, e, f)) =
      rw (stored, round, watch_deleting r snode sec l db s e)
        (Watched-Leaving r l s (watch_deletion r snode sec l db s) patient u e f
          (watch_deletion-Watched r snode sec l db s e (key l s u stored)))

  last-round :
      (r : Replies) (s : Store)
      → IsFinal r node sec
      → Leaving s
      → get_lvol_by_id id (round r snode sec id db s) ≡ none
  unfolding round
  last-round r s final (inl gone) = rw (gone, round) gone
  last-round r s final (inr (l, stored, u, e, f)) =
      rw (stored, round, watch_deleting r snode sec l db s e, gone, ← u)
        (get-remove lvol_key l.uuid s.lvols)
    where
      gone :
          (watch_deletion r snode sec l db s).store.lvols
          ≡ keep (λ m. not (m.uuid == l.uuid)) s.lvols
      gone =
          watch_deletion_gone r snode node final.leader primary second sec l db s final.code
            (key l s u stored) read
            (subst (λ n. get_storage_node_by_id n db ≡ some primary) (sym f) has_primary) has_second
            final.leads final.status final.is_finish

  rounds-Leaving :
      (rs : List Replies) (r : Replies) (s : Store)
      → All IsPatient rs
      → IsFinal r node sec
      → Leaving s
      → get_lvol_by_id id (rounds (rs ++ r ∷ []) snode sec id db s) ≡ none
  unfolding rounds
  rounds-Leaving [] r s patient final h = last-round r s final h
  rounds-Leaving (q ∷ rs) r s patient final h =
      rounds-Leaving rs r (round q snode sec id db s) patient.1 final
        (round-Leaving q s patient.0 h)

-- A deletion ends: when the nodes of a stored volume in deletion are known, and after rounds in which
-- the storage reports no failure there is one in which a leader reports that the deletion is done,
-- the volume is gone.
pub rounds_gone :
    (rs : List Replies) (r : Replies) (snode node primary second : Node) (sec : Option Node)
    (l : Lvol) (db : Db) (s : Store)
    → get_lvol_by_id l.uuid s ≡ some l
    → l.status ≡ LvolStatus.in_deletion
    → get_storage_node_by_id snode.uuid db ≡ some node
    → get_storage_node_by_id l.node_id db ≡ some primary
    → get_storage_node_by_id node.secondary_node_id db ≡ some second
    → All IsPatient rs
    → IsFinal r node sec
    → get_lvol_by_id l.uuid (rounds (rs ++ r ∷ []) snode sec l.uuid db s) ≡ none
rounds_gone rs r snode node primary second sec l db s stored deleting read has_primary has_second
      patient final =
    rounds-Leaving snode node primary second sec l.uuid l.node_id db read has_primary has_second rs
      r s patient final (inr (l, stored, refl, deleting, refl))
