-- ===== src/Lvols/Choice/Chosen.antt =====
-- Which nodes are chosen for a new volume.
use mathlib.Core.Path.{subst}
use sbcli.Prelude.{
  ◌<◌, ℕ, zero, suc, ◌+◌, ◌≤◌, Bool, true, false, not, ◌&&◌, Option, none, some, List, [], ◌∷◌, ◌≡◌,
  refl, ap, arith, leb, ◌==◌, if-cases, Bool-cases, inl, inr, keep, length, All,
}
use sbcli.Prelude.Table.{HasKeys, keep-HasKeys, remove, remove_other, remove-All}
use sbcli.Model.{Name, Node, Db, get_storage_nodes_by_cluster_id}
use sbcli.Volumes.{Store}
use sbcli.Lvols.Choice.{
  node_key, is_eligible, total_weight, hit, Draw, select, at_most_3, get_next_3_nodes,
}

-- randint stays within its bounds.
abbrev pub InBounds : Draw → Type 0
InBounds draw = (n : ℕ) → draw n ≤ n

module _ (w : Node → ℕ) where
  -- An index within the ranges hits one of the nodes.
  hit-some :
      (start index : ℕ) (ns : List Node)
      → start ≤ index
      → index ≤ start + total_weight w ns
      → 1 ≤ length ns
      → (n : Node) × (hit w start index ns ≡ some n)
  hit-some start index [] a b c = absurd (omega arith)
  hit-some start index (n ∷ ns) a b c = elim (Bool-cases (leb index (start + w n))) [
    | inl e ↦ (n, ground arith)
    | inr e ↦
        later e (
          hit-some (start + w n) index ns (ground arith) (ground arith)
            (others ns (ground arith) b))
  ]
    where
      others :
          (ms : List Node)
          → start + w n < index
          → index ≤ start + (w n + total_weight w ms)
          → 1 ≤ length ms
      others [] f g = absurd (omega arith)
      others (m ∷ ms) f g = ground arith

      later :
          leb index (start + w n) ≡ false
          → (m : Node) × (hit w (start + w n) index ns ≡ some m)
          → (m : Node) × (hit w start index (n ∷ ns) ≡ some m)
      later e (m, f) = (m, ground arith)

  hit-All :
      (Q : Node → Type 0) (start index : ℕ) (n : Node) (ns : List Node)
      → hit w start index ns ≡ some n
      → All Q ns
      → Q n
  hit-All Q start index n [] e h = cc
  hit-All Q start index n (m ∷ ns) e h =
      elim (Bool-cases (leb start index && leb index (start + w m))) [
        | inl f ↦ subst Q (ground arith) h.0
        | inr f ↦ hit-All Q (start + w m) index n ns (ground arith) h.1
      ]

  -- The node that is hit is taken out of the ones that are left.
  hit-remove :
      (start index : ℕ) (n : Node) (ns : List Node)
      → HasKeys node_key ns
      → hit w start index ns ≡ some n
      → suc (length (remove node_key n.uuid ns)) ≡ length ns
  hit-remove start index n [] k e = cc
  hit-remove start index n (m ∷ ns) k e =
      elim (Bool-cases (leb start index && leb index (start + w m))) [
        | inl f ↦
            subst (λ (x : Node). suc (length (remove node_key x.uuid (m ∷ ns))) ≡ length (m ∷ ns))
              (same f) (ground (arith, remove_other node_key m.uuid ns k.0))
        | inr f ↦ ground (
          arith,
          hit-remove (start + w m) index n ns k.1 (ground arith),
          hit-All (λ b. (node_key m == node_key b) ≡ false) (start + w m) index n ns (ground arith)
              k.0,
        )
      ]
    where
      same : (leb start index && leb index (start + w m)) ≡ true → m ≡ n
      same f = ground arith

-- The outcome of the choice of `k` of the nodes `ns`.
record Selects (k : ℕ) (ns : List Node) (o : Option (List Node)) : Type 1 where
  chosen : List Node
  is_chosen : o ≡ some chosen
  count : length chosen ≡ k
  distinct : HasKeys node_key chosen
  among : (Q : Node → Type 0) → All Q ns → All Q chosen

apart :
    (n : Node) (ns : List Node)
    → All (λ b. (node_key n == node_key b) ≡ false) (remove node_key n.uuid ns)
apart n [] = tt
apart n (m ∷ ns) =
    if-cases (All (λ b. (node_key n == node_key b) ≡ false)) (not (node_key m == n.uuid))
      (λ e. (ground arith, apart n ns)) (λ e. apart n ns)

select-Selects :
    (draws : List Draw) (k : ℕ) (w : Node → ℕ) (ns : List Node)
    → All InBounds draws
    → k ≤ length draws
    → k ≤ length ns
    → HasKeys node_key ns
    → Selects k ns (select draws k w ns)
unfolding select
select-Selects draws zero w ns b h l k = record {
  chosen = [];
  is_chosen = refl;
  count = refl;
  distinct = tt;
  among = λ Q q. tt;
}
select-Selects [] (suc j) w ns b h l k = absurd (omega arith)
select-Selects (draw ∷ draws) (suc j) w ns b h l k =
    first
      (hit-some w 0 (draw (total_weight w ns)) ns (omega arith)
        (omega (arith, b.0 (total_weight w ns))) (omega arith))
      (λ n e.
        select-Selects draws j w (remove node_key n.uuid ns) b.1 (omega arith)
          (omega (arith, hit-remove w 0 (draw (total_weight w ns)) n ns k e))
          (keep-HasKeys node_key _ ns k))
  where
    R : Option Node → Type 1
    R o = Selects (suc j) ns (elim o [
      | none ↦ select draws (suc j) w ns
      | some n ↦ elim (select draws j w (remove node_key n.uuid ns)) [
        | none ↦ none
        | some rest ↦ some (n ∷ rest)
      ]
    ])

    joined :
        (n : Node)
        → hit w 0 (draw (total_weight w ns)) ns ≡ some n
        → Selects j (remove node_key n.uuid ns) (select draws j w (remove node_key n.uuid ns))
        → R (some n)
    joined n e r = record {
      chosen = n ∷ r.chosen;
      is_chosen = rw (r.is_chosen) refl;
      count = ap suc r.count;
      distinct = (r.among (λ b. (node_key n == node_key b) ≡ false) (apart n ns), r.distinct);
      among = λ Q q. (
        hit-All w Q 0 (draw (total_weight w ns)) n ns e q,
        r.among Q (remove-All node_key Q n.uuid ns q),
      );
    }

    first :
        (n : Node) × (hit w 0 (draw (total_weight w ns)) ns ≡ some n)
        → ((n : Node)
            → hit w 0 (draw (total_weight w ns)) ns ≡ some n
            → Selects j (remove node_key n.uuid ns) (select draws j w (remove node_key n.uuid ns)))
        → R (hit w 0 (draw (total_weight w ns)) ns)
    first (n, e) rest = rw e (joined n e (rest n e))

-- What the choice of the nodes for a new volume comes to.
pub record Chooses (s : Store) (cluster : Name) (db : Db) (o : Option (List Node)) : Type 0 where
  pub nodes : List Node
  pub is_chosen : o ≡ some nodes
  pub eligible : All (λ n. is_eligible s n ≡ true) nodes
  pub distinct : HasKeys node_key nodes
  pub count :
      length nodes
      ≡ at_most_3 (length (keep (is_eligible s) (get_storage_nodes_by_cluster_id cluster db)))

keep-passes : (p : Node → Bool) (ns : List Node) → All (λ n. p n ≡ true) (keep p ns)
keep-passes p [] = tt
keep-passes p (n ∷ ns) =
    if-cases (All (λ m. p m ≡ true)) (p n) (λ e. (e, keep-passes p ns)) (λ e. keep-passes p ns)

-- With three draws that stay in their bounds and distinct stored nodes, the choice of nodes for a volume ends
-- with as many distinct nodes of the cluster as it can, at most three, each of which is online, is not a
-- secondary node and has room for another volume, whatever the weights are.
pub get_next_3_nodes-Chooses :
    (draws : List Draw) (w : Node → ℕ) (cluster : Name) (db : Db) (s : Store)
    → All InBounds draws
    → 3 ≤ length draws
    → HasKeys node_key db.nodes
    → Chooses s cluster db (get_next_3_nodes draws w cluster db s)
unfolding get_next_3_nodes
get_next_3_nodes-Chooses draws w cluster db s bounds enough keyed =
    if-cases (Chooses s cluster db) (leb (length ns) 1)
      (λ e. record {
        nodes = ns;
        is_chosen = refl;
        eligible = keep-passes (is_eligible s) (get_storage_nodes_by_cluster_id cluster db);
        distinct = unique;
        count = ground arith;
      })
      (λ e. chosen (
        select-Selects draws (at_most_3 (length ns)) w ns bounds (ground arith) (ground arith)
          unique))
  where
    ns : List Node
    ns = keep (is_eligible s) (get_storage_nodes_by_cluster_id cluster db)

    unique : HasKeys node_key ns
    unique =
        keep-HasKeys node_key (is_eligible s) _
          (keep-HasKeys node_key (λ n. n.cluster_id == cluster) db.nodes keyed)

    chosen :
        Selects (at_most_3 (length ns)) ns (select draws (at_most_3 (length ns)) w ns)
        → Chooses s cluster db (select draws (at_most_3 (length ns)) w ns)
    chosen r = record {
      nodes = r.chosen;
      is_chosen = r.is_chosen;
      eligible =
          r.among (λ n. is_eligible s n ≡ true)
            (keep-passes (is_eligible s) (get_storage_nodes_by_cluster_id cluster db));
      distinct = r.distinct;
      count = r.count;
    }
