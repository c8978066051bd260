-- ===== src/Volumes/Placement.antt =====
-- The node of a pair on which a volume or a snapshot is created or deleted: the same branches in
-- add_lvol_ha and delete_lvol of simplyblock_core/controllers/lvol_controller.py, and in add, delete
-- and clone of simplyblock_core/controllers/snapshot_controller.py.
use sbcli.Prelude.{
  Bool, true, false, Option, none, some, ◌≡◌, if-cases, Bool-cases, ◌&&◌, ◌||◌, ◌⊎◌, inl, inr,
  if◌then◌else◌, arith,
}
use sbcli.Model.{NodeStatus, node_eq, Name, Node}

-- Where the work is done; `secondary_down` and `both_offline` are refusals.
pub data Placement : Type 0 where
  placed : Node → Option Node → Placement
  secondary_down both_offline : Placement

abbrev pub is_online : Node → Bool
is_online n = node_eq n.status NodeStatus.online

-- `leads` is what is_node_leader replies for a node.
unfoldable pub place : (leads : Name → Bool) → (host sec : Node) → Placement
place leads host sec =
    if is_online host
    then (if leads host.uuid
        then (if node_eq sec.status NodeStatus.down
            then secondary_down
            else placed host (if is_online sec then some sec else none))
        else if is_online sec
        then (if leads sec.uuid then placed sec (some host) else placed host (some sec))
        else placed host none)
    else if is_online sec
    then placed sec none
    else both_offline

-- A node of the pair that is online and leads the volume store.
abbrev pub is_leader : (Name → Bool) → Node → Bool
is_leader leads n = is_online n && leads n.uuid

-- The nodes of a placement are online, and the first is a leader if the pair has one.
pub record IsSound (leads : Name → Bool) (host sec primary : Node) (secondary : Option Node)
    : Type 0 where
  pub primary_online : is_online primary ≡ true
  pub one_of_two : (primary ≡ host) ⊎ (primary ≡ sec)
  pub secondary_online : elim secondary [ none ↦ true | some n ↦ is_online n ] ≡ true
  pub leader : (is_leader leads host || is_leader leads sec) ≡ leads primary.uuid

-- What a placement says of the pair.
abbrev pub Places : (Name → Bool) → Node → Node → Placement → Type 0
Places leads host sec (placed p o) = IsSound leads host sec p o
Places leads host sec secondary_down =
    (is_leader leads host ≡ true) × (node_eq sec.status NodeStatus.down ≡ true)
Places leads host sec both_offline = (is_online host ≡ false) × (is_online sec ≡ false)

-- Where work is placed, both nodes used are online and of the pair, and the first leads the volume
-- store if an online node of the pair does; work is refused only if the leading node's partner is
-- down, or if no node of the pair is online.
pub place-Places :
    (leads : Name → Bool) (host sec : Node) → Places leads host sec (place leads host sec)
unfolding place
place-Places leads host sec =
    if-cases P (is_online host)
      (λ a.
        if-cases P (leads host.uuid)
          (λ b.
            if-cases P (node_eq sec.status NodeStatus.down) (λ c. ground arith)
              (λ c. elim (Bool-cases (is_online sec)) [
                | inl d ↦ rw d (ground arith)
                | inr d ↦ rw d (ground arith)
              ]))
          (λ b.
            if-cases P (is_online sec)
              (λ c. if-cases P (leads sec.uuid) (λ d. ground arith) (λ d. ground arith))
              (λ c. ground arith)))
      (λ a. if-cases P (is_online sec) (λ c. ground arith) (λ c. ground arith))
  where
    P : Placement → Type 0
    P = Places leads host sec
