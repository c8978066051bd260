-- ===== src/Monitor/Tallied.antt =====
-- What the loop of get_next_cluster_status counts, against a description that has no order.
use sbcli.Prelude.{
  if-cases, if-keep, sym, ap, ◌∙◌, bit, ℕ, ◌+◌, Bool, true, false, not, ◌&&◌, ◌||◌, List, [], ◌∷◌,
  ◌++◌, ◌≡◌, refl, arith, ◌==◌, any, count, contains, if◌then◌else◌, Bool-cases, inl, inr,
}
use sbcli.Model.{NodeStatus, node_eq, Name, Node, Db}
use sbcli.Monitor.{
  Tally, counts_online, is_affected, add_host, is_new_migrated_node, tally_devices, tally_node,
  tally_nodes, no_tally,
}

-- The nodes that the loop does not skip: neither in creation nor online and in expansion.
abbrev pub is_considered : Name → Db → Node → Bool
is_considered cluster db n =
    not (node_eq n.status NodeStatus.in_creation)
    && not (node_eq n.status NodeStatus.online && is_new_migrated_node cluster n db)

abbrev pub is_online : Node → Bool
is_online n = node_eq n.status NodeStatus.online

-- The online devices of the nodes that pass a test.
abbrev pub devices_of : (Node → Bool) → List Node → ℕ
devices_of p [] = 0
devices_of p (n ∷ ns) = (if p n then count counts_online n.devices else 0) + devices_of p ns

-- No name twice.
abbrev pub IsDistinct : List Name → Type 0
IsDistinct [] = Unit
IsDistinct (x ∷ xs) = (contains xs x ≡ false) × IsDistinct xs

or-false : (b : Bool) → (b || false) ≡ b
or-false true = refl
or-false false = refl

contains-append :
    (xs : List Name) (y ip : Name) → contains (xs ++ y ∷ []) ip ≡ (contains xs ip || y == ip)
contains-append [] y ip = ground arith
contains-append (x ∷ xs) y ip = ground (arith, contains-append xs y ip)

append-IsDistinct :
    (xs : List Name) (y : Name) → IsDistinct xs → contains xs y ≡ false → IsDistinct (xs ++ y ∷ [])
append-IsDistinct [] y h k = (refl, tt)
append-IsDistinct (x ∷ xs) y h k =
    (ground (arith, contains-append xs y x, h.0), append-IsDistinct xs y h.1 (ground arith))

add_host-IsDistinct : (ip : Name) (xs : List Name) → IsDistinct xs → IsDistinct (add_host ip xs)
add_host-IsDistinct ip xs h = elim (Bool-cases (contains xs ip)) [
  | inl e ↦ rw e h
  | inr e ↦ rw e (append-IsDistinct xs ip h e)
]

contains-add_host :
    (ip x : Name) (xs : List Name) → contains (add_host ip xs) x ≡ (contains xs x || ip == x)
contains-add_host ip x xs = elim (Bool-cases (contains xs ip)) [
  | inl e ↦ rw e (ground arith)
  | inr e ↦ rw e (contains-append xs ip x)
]

-- The hosts after a node's devices are counted.
touched : Node → List Name → List Name
touched n xs = if is_affected n then add_host n.mgmt_ip xs else xs

contains-touched :
    (n : Node) (xs : List Name) (ip : Name)
    → contains (touched n xs) ip ≡ (contains xs ip || (is_affected n && n.mgmt_ip == ip))
unfolding touched
contains-touched n xs ip = elim (Bool-cases (is_affected n)) [
  | inl e ↦ rw e (contains-add_host n.mgmt_ip ip xs)
  | inr e ↦ rw e (sym (or-false (contains xs ip)))
]

touched-IsDistinct : (n : Node) (xs : List Name) → IsDistinct xs → IsDistinct (touched n xs)
unfolding touched
touched-IsDistinct n xs h =
    if-keep IsDistinct (is_affected n) (add_host-IsDistinct n.mgmt_ip xs h) h

module _ (jm : Name → List Bool) (cluster : Name) (db : Db) where
  -- The counts are those of the nodes considered; the hosts are those of the affected ones among
  -- them, each once.
  pub record Describes (ns : List Node) (a b : Tally) : Type 0 where
    pub online_nodes :
        b.online_nodes ≡ a.online_nodes + count (λ n. is_considered cluster db n && is_online n) ns
    pub online_devices :
        b.online_devices ≡ a.online_devices + devices_of (is_considered cluster db) ns
    pub jm_replication : b.jm_replication ≡ (
        a.jm_replication
        || any (λ n. is_considered cluster db n && (is_online n && any not (jm n.uuid))) ns)
    pub hosts :
        (ip : Name)
        → contains b.affected ip ≡ (
            contains a.affected ip
            || any (λ n. is_considered cluster db n && (is_affected n && n.mgmt_ip == ip)) ns)
    pub distinct : IsDistinct a.affected → IsDistinct b.affected

  skipped : (n : Node) (a : Tally) → is_considered cluster db n ≡ false → Describes (n ∷ []) a a
  skipped n a e = record {
    online_nodes = rw e (omega arith);
    online_devices = rw e (omega arith);
    jm_replication = rw e (sym (or-false a.jm_replication));
    hosts = λ ip. rw e (sym (or-false (contains a.affected ip)));
    distinct = λ d. d;
  }

  counted :
      (n : Node) (b a : Tally)
      → is_considered cluster db n ≡ true
      → b.online_nodes ≡ a.online_nodes + bit (is_online n)
      → b.jm_replication ≡ (a.jm_replication || (is_online n && any not (jm n.uuid)))
      → b.affected ≡ a.affected
      → b.online_devices ≡ a.online_devices
      → Describes (n ∷ []) a (tally_devices n b)
  unfolding touched
  counted n b a e nodes jms hs ds = record {
    online_nodes = rw e (omega arith);
    online_devices = rw e (omega arith);
    jm_replication = rw e (
        jms
        ∙ ap (λ x. a.jm_replication || x) (sym (or-false (is_online n && any not (jm n.uuid)))));
    hosts = λ ip.
        rw (e, hs)
          (contains-touched n a.affected ip
            ∙ ap (λ x. contains a.affected ip || x)
                (sym (or-false (is_affected n && n.mgmt_ip == ip))));
    distinct = λ d. rw hs (touched-IsDistinct n a.affected d);
  }

  tally_node-Describes :
      (n : Node) (a : Tally) → Describes (n ∷ []) a (tally_node jm cluster db n a)
  unfolding tally_node
  tally_node-Describes n a =
      if-cases P (node_eq n.status NodeStatus.in_creation) (λ e. skipped n a (rw e))
        λ named.
          if-cases P (is_online n)
            (λ e.
              if-cases P (is_new_migrated_node cluster n db) (λ f. skipped n a (rw (e, f, named)))
                λ f.
                  counted n
                    (record a {
                      online_nodes = a.online_nodes + 1;
                      jm_replication = a.jm_replication || any not (jm n.uuid);
                    })
                    a (rw (e, f, named)) (rw e) (rw e) refl refl)
            (λ e.
              counted n a a (rw (e, named)) (rw e (omega arith))
                (rw e (sym (or-false a.jm_replication))) refl refl)
    where
      P : Tally → Type 0
      P = Describes (n ∷ []) a

  -- Two rounds of the loop.
  joined :
      (n : Node) (ns : List Node) (a b c : Tally)
      → Describes (n ∷ []) a b
      → Describes ns b c
      → Describes (n ∷ ns) a c
  joined n ns a b c f g = record {
    online_nodes = omega (arith, f.online_nodes, g.online_nodes);
    online_devices = omega (arith, f.online_devices, g.online_devices);
    jm_replication = ground (arith, f.jm_replication, g.jm_replication);
    hosts = λ ip. ground (arith, f.hosts ip, g.hosts ip);
    distinct = λ d. g.distinct (f.distinct d);
  }

  tally_nodes-from : (ns : List Node) (a : Tally) → Describes ns a (tally_nodes jm cluster db ns a)
  unfolding tally_nodes
  tally_nodes-from [] a = record {
    online_nodes = omega arith;
    online_devices = omega arith;
    jm_replication = sym (or-false a.jm_replication);
    hosts = λ ip. sym (or-false (contains a.affected ip));
    distinct = λ d. d;
  }
  tally_nodes-from (n ∷ ns) a =
      joined n ns a _ _ (tally_node-Describes n a)
        (tally_nodes-from ns (tally_node jm cluster db n a))

-- The loop of get_next_cluster_status counts, over the nodes that are neither in creation nor
-- online and in expansion: the online ones, their online devices, whether an online one has a
-- journal replication, and the hosts of the affected ones, each host once.
pub tally_nodes-Describes :
    (jm : Name → List Bool) (cluster : Name) (db : Db) (ns : List Node)
    → Describes jm cluster db ns no_tally (tally_nodes jm cluster db ns no_tally)
      × IsDistinct (tally_nodes jm cluster db ns no_tally).affected
tally_nodes-Describes jm cluster db ns = (
  tally_nodes-from jm cluster db ns no_tally,
  (tally_nodes-from jm cluster db ns no_tally).distinct tt,
)
