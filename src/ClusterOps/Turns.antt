-- ===== src/ClusterOps/Turns.antt =====
-- The turns of the loop over the nodes of a cluster in expansion, as a relation.
use sbcli.Prelude.{
  Bool, true, false, not, ◌&&◌, ◌||◌, some, List, [], ◌∷◌, ◌≡◌, refl, arith, if-cases, option-cases,
}
use sbcli.Model.{
  NodeStatus, LvstoreStatus, HaType, node_eq, is_ha, Name, Node, Db, is_set, get_storage_node_by_id,
}
use sbcli.Devices.{write_node}
use sbcli.ClusterOps.{Means, Step, make_lvstore, pair_nodes, expand_node, expand_nodes}

-- An online node without a volume store.
abbrev pub wants : Node → Bool
wants n = node_eq n.status NodeStatus.online && not (is_set n.lvstore)

module _ (w : Means) (kind : HaType) where
  abbrev lacks_partner : Node → Bool
  lacks_partner n = is_ha kind && not (is_set n.secondary_node_id)

  -- The node, with a secondary node if it has to get one, and the database then.
  pub data Paired (n : Node) (a : Db) : Node → Db → Type 0 where
    as_it_is : lacks_partner n ≡ false → Paired n a n a
    with_partner :
        (sec : Name) (secs : List Name) (m k : Node)
        → lacks_partner n ≡ true
        → w.partners n a ≡ sec ∷ secs
        → get_storage_node_by_id n.uuid a ≡ some m
        → get_storage_node_by_id sec (write_node (record m { secondary_node_id = sec }) a) ≡ some k
        → Paired n a
            (record m { secondary_node_id = sec })
            (write_node
              (record k { lvstore_stack_secondary_1 = n.uuid })
              (write_node (record m { secondary_node_id = sec }) a))

  -- The volume store of a node is made, or not, and the node is written with `status`.
  pub record Makes (ok : Bool) (status : LvstoreStatus) (n : Node) (a b : Db) : Type 0 where
    pub wanted : wants n ≡ true
    pub target : Node
    pub begun : Db
    pub paired : Paired n a target begun
    pub reply : (w.create_lvstore target begun).0 ≡ ok
    pub stored : Node
    pub found : get_storage_node_by_id target.uuid (w.create_lvstore target begun).1 ≡ some stored
    pub after :
        b ≡ write_node (record stored { lvstore_status = status }) (w.create_lvstore target begun).1

  -- A node that is served.
  pub data Goes (n : Node) (a : Db) : Db → Type 0 where
    passes : wants n ≡ false → Goes n a a
    makes : {b : Db} → Makes true LvstoreStatus.ready n a b → Goes n a b

  -- A node for which there is no secondary node.
  pub record Lacks (n : Node) (a : Db) : Type 0 where
    pub wanted : wants n ≡ true
    pub lacking : lacks_partner n ≡ true
    pub no_partner : w.partners n a ≡ []

  -- The nodes `ns` are served one after another, up to those of the second list.
  pub data Served : List Node → Db → List Node → Db → Type 0 where
    here : {ns : List Node} {a : Db} → Served ns a ns a
    next :
        {n : Node} {ns ms : List Node} {a b c : Db}
        → Goes n a b
        → Served ns b ms c
        → Served (n ∷ ns) a ms c

  -- How the steps for one node end.
  abbrev Turns : Node → Db → Step × Db → Type 0
  Turns n a (Step.continue, b) = Goes n a b
  Turns n a (Step.too_few_nodes, b) = Lacks n a × (b ≡ a)
  Turns n a (Step.lvstore_failed, b) = Makes false LvstoreStatus.other n a b
  Turns n a (Step.broken, b) = Unit

  -- How the loop ends.
  abbrev pub Loops : List Node → Db → Step × Db → Type 0
  Loops ns a (Step.continue, b) = Served ns a [] b
  Loops ns a (Step.too_few_nodes, b) =
      (n : Node) × ((ms : List Node) × (Served ns a (n ∷ ms) b × Lacks n b))
  Loops ns a (Step.lvstore_failed, b) =
      (n : Node) × ((ms : List Node) × ((x : Db) × (Served ns a (n ∷ ms) x
            × Makes false LvstoreStatus.other n x b)))
  Loops ns a (Step.broken, b) = Unit

  make_lvstore-Turns :
      (n target : Node) (a begun : Db)
      → wants n ≡ true
      → Paired n a target begun
      → Turns n a (make_lvstore w target begun)
  unfolding make_lvstore
  make_lvstore-Turns n target a begun wanted paired =
      option-cases P (get_storage_node_by_id target.uuid (w.create_lvstore target begun).1)
        (λ _. tt)
        λ m found.
          if-cases P (w.create_lvstore target begun).0
            (λ e. makes (record {
              wanted = wanted;
              target = target;
              begun = begun;
              paired = paired;
              reply = e;
              stored = m;
              found = found;
              after = refl;
            }))
            (λ e. record {
              wanted = wanted;
              target = target;
              begun = begun;
              paired = paired;
              reply = e;
              stored = m;
              found = found;
              after = refl;
            })
    where
      P : Step × Db → Type 0
      P = Turns n a

  expand_node-Turns : (n : Node) (a : Db) → Turns n a (expand_node w kind n a)
  unfolding expand_node pair_nodes
  expand_node-Turns n a =
      if-cases P (not (node_eq n.status NodeStatus.online) || is_set n.lvstore)
        (λ e. passes (ground arith))
        λ e.
          if-cases P (lacks_partner n) (λ f. pairs (ground arith) f (w.partners n a) refl)
            (λ f. make_lvstore-Turns n n a a (ground arith) (as_it_is f))
    where
      P : Step × Db → Type 0
      P = Turns n a

      pairs :
          wants n ≡ true
          → lacks_partner n ≡ true
          → (partners : List Name) → w.partners n a ≡ partners
          → P (elim partners [ [] ↦ (Step.too_few_nodes, a) | sec ∷ _ ↦ pair_nodes w n sec a ])
      pairs wanted f [] e = (record { wanted = wanted; lacking = f; no_partner = e }, refl)
      pairs wanted f (sec ∷ secs) e =
          option-cases P (get_storage_node_by_id n.uuid a) (λ _. tt)
            λ m at_n.
              option-cases P
                (get_storage_node_by_id sec (write_node (record m { secondary_node_id = sec }) a))
                (λ _. tt)
                λ k at_sec.
                  make_lvstore-Turns n (record m { secondary_node_id = sec }) a _ wanted
                    (with_partner sec secs m k f e at_n at_sec)

  pub expand_nodes-Loops : (ns : List Node) (a : Db) → Loops ns a (expand_nodes w kind ns a)
  unfolding expand_nodes
  expand_nodes-Loops [] a = here
  expand_nodes-Loops (n ∷ ns) a =
      turned (expand_node w kind n a) (expand_node-Turns n a) (λ x. expand_nodes-Loops ns x)
    where
      went : {b : Db} → Goes n a b → (r : Step × Db) → Loops ns b r → Loops (n ∷ ns) a r
      went g (Step.continue, c) h = next g h
      went g (Step.too_few_nodes, c) (m, (ms, (s, l))) = (m, (ms, (next g s, l)))
      went g (Step.lvstore_failed, c) (m, (ms, (x, (s, l)))) = (m, (ms, (x, (next g s, l))))
      went g (Step.broken, c) h = tt

      turned :
          (r : Step × Db)
          → Turns n a r
          → ((x : Db) → Loops ns x (expand_nodes w kind ns x))
          → Loops (n ∷ ns) a (
              let (step, x) = r in
              let rest = expand_nodes w kind ns x in
              elim step as (λ _. Step × Db) [
                | Step.continue ↦ rest
                | Step.too_few_nodes ↦ (Step.too_few_nodes, x)
                | Step.lvstore_failed ↦ (Step.lvstore_failed, x)
                | Step.broken ↦ (Step.broken, x)
              ])
      turned (Step.continue, x) g k = went g (expand_nodes w kind ns x) (k x)
      turned (Step.too_few_nodes, x) (l, e) k = (n, (ns, (rw e here, rw e l)))
      turned (Step.lvstore_failed, x) m k = (n, (ns, (a, (here, m))))
      turned (Step.broken, x) g k = tt
