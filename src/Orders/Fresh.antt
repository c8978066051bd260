-- ===== src/Orders/Fresh.antt =====
-- New orders and labels are new.
use sbcli.Prelude.{
  ℕ, ◌<◌, ℤ, pos, negsuc, ltb_ℤ, ◌≤ℤ◌, true, false, Option, none, some, List, [], ◌∷◌, ◌≡◌, refl,
  arith, ltb, ◌==◌, contains, All, any, ◌&&◌, ◌||◌, if-cases,
}
use sbcli.Model.{Name, Device, Node, Db, get_storage_nodes_by_cluster_id}
use sbcli.Utils.Ports.{search}
use sbcli.Utils.Ports.Free.{search-returns}
use sbcli.Orders.{
  max_ℤ, succ_ℤ, max_of_devices, max_of_nodes, get_next_cluster_device_order, Labels, own, used,
  scan_labels, get_next_physical_device_order,
}

-- An order that a maximum covers.
abbrev Below : ℤ → Option ℤ → Type 0
Below x none = ⊥
Below x (some m) = x ≤ℤ m

Below-max :
    (x y : ℤ) (m : Option ℤ)
    → Below x m
    → Below x (some (max_ℤ (elim m [ none ↦ pos 0 | some z ↦ z ]) y))
Below-max x y none h = absurd h
Below-max x y (some m) h = ground (arith, h)

max_covers : (y : ℤ) (m : ℤ) → y ≤ℤ max_ℤ m y
max_covers y m = ground arith

devices-grow : (x : ℤ) (ds : List Device) (m : Option ℤ) → Below x m → Below x (max_of_devices ds m)
devices-grow x [] m h = h
devices-grow x (d ∷ ds) m h = devices-grow x ds _ (Below-max x d.order m h)

devices-covered :
    (ds : List Device) (m : Option ℤ) → All (λ d. Below d.order (max_of_devices ds m)) ds
devices-covered [] m = tt
devices-covered (d ∷ ds) m = (
  devices-grow d.order ds _ (max_covers d.order (elim m [ none ↦ pos 0 | some z ↦ z ])),
  devices-covered ds _,
)

nodes-grow : (x : ℤ) (ns : List Node) (m : Option ℤ) → Below x m → Below x (max_of_nodes ns m)
nodes-grow x [] m h = h
nodes-grow x (n ∷ ns) m h = nodes-grow x ns _ (devices-grow x n.devices m h)

All-map :
    (P Q : Device → Type 0) → ((d : Device) → P d → Q d) → (ds : List Device) → All P ds → All Q ds
All-map P Q f [] h = tt
All-map P Q f (d ∷ ds) h = (f d h.0, All-map P Q f ds h.1)

-- Every device of every node has an order below `r`.
abbrev pub AllBelow : ℤ → List Node → Type 0
AllBelow r ns = All (λ n. All (λ d. ltb_ℤ d.order r ≡ true) n.devices) ns

nodes-AllBelow :
    (r : ℤ) (ns : List Node) (m : Option ℤ)
    → ((x : ℤ) → Below x (max_of_nodes ns m) → ltb_ℤ x r ≡ true)
    → AllBelow r ns
nodes-AllBelow r [] m h = tt
nodes-AllBelow r (n ∷ ns) m h = (
  All-map (λ d. Below d.order (max_of_devices n.devices m)) (λ d. ltb_ℤ d.order r ≡ true)
      (λ d k. h d.order (nodes-grow d.order ns (max_of_devices n.devices m) k)) n.devices
      (devices-covered n.devices m),
  nodes-AllBelow r ns (max_of_devices n.devices m) h,
)

succ-above : (x m : ℤ) → x ≤ℤ m → ltb_ℤ x (succ_ℤ m) ≡ true
succ-above x (pos n) h = ground (arith, h)
succ-above x (negsuc n) h = ground (arith, h)

-- The order of a new device is above those of all devices of the cluster.
pub get_next_cluster_device_order-AllBelow :
    (cluster : Name) (db : Db)
    → AllBelow
        (get_next_cluster_device_order cluster db)
        (get_storage_nodes_by_cluster_id cluster db)
unfolding get_next_cluster_device_order
get_next_cluster_device_order-AllBelow cluster db =
    nodes-AllBelow (get_next_cluster_device_order cluster db)
      (get_storage_nodes_by_cluster_id cluster db) none
      (above (max_of_nodes (get_storage_nodes_by_cluster_id cluster db) none))
  where
    above :
        (m : Option ℤ) (x : ℤ)
        → Below x m
        → ltb_ℤ x (elim m [ none ↦ pos 0 | some z ↦ succ_ℤ z ]) ≡ true
    above none x h = absurd h
    above (some m) x h = succ-above x m h

-- A label for the host `ip`: that of a node of the host that has one, or else one that no node
-- has.
pub data IsLabel (ip : Name) (ns : List Node) (l : ℕ) : Type 0 where
  of_host : 0 < l → any (λ n. n.mgmt_ip == ip && n.physical_label == l) ns ≡ true → IsLabel ip ns l
  of_none :
      0 < l
      → any (λ n. n.mgmt_ip == ip && ltb 0 n.physical_label) ns ≡ false
      → any (λ n. n.physical_label == l) ns ≡ false
      → IsLabel ip ns l

-- What the loop has found.
Scanned : Name → List Node → List ℕ → Labels → Type 0
Scanned ip ns ls (own l) = (0 < l) × (any (λ n. n.mgmt_ip == ip && n.physical_label == l) ns ≡ true)
Scanned ip ns ls (used us) =
    (any (λ n. n.mgmt_ip == ip && ltb 0 n.physical_label) ns ≡ false)
    × ((l : ℕ)
        → 0 < l
        → contains us l ≡ false
        → (any (λ n. n.physical_label == l) ns || contains ls l) ≡ false)

scan_labels-Scanned :
    (ip : Name) (ns : List Node) (ls : List ℕ) → Scanned ip ns ls (scan_labels ip ns ls)
unfolding Scanned
scan_labels-Scanned ip [] ls = (refl, λ l a b. b)
scan_labels-Scanned ip (n ∷ ns) ls =
    if-cases P (ltb 0 n.physical_label)
      (λ e.
        if-cases P (n.mgmt_ip == ip) (λ f. (ground arith, ground arith))
          (λ f.
            further e f (scan_labels ip ns (n.physical_label ∷ ls))
              (scan_labels-Scanned ip ns (n.physical_label ∷ ls))))
      (λ e. passed e (scan_labels ip ns ls) (scan_labels-Scanned ip ns ls))
  where
    P : Labels → Type 0
    P = Scanned ip (n ∷ ns) ls

    further :
        ltb 0 n.physical_label ≡ true
        → (n.mgmt_ip == ip) ≡ false
        → (r : Labels) → Scanned ip ns (n.physical_label ∷ ls) r
        → P r
    further e f (own l) h = (h.0, ground (arith, h.1))
    further e f (used us) h = (ground (arith, h.0), λ l a b. ground (arith, h.1 l a b))

    passed : ltb 0 n.physical_label ≡ false → (r : Labels) → Scanned ip ns ls r → P r
    passed e (own l) h = (h.0, ground (arith, h.1))
    passed e (used us) h = (ground (arith, h.0), λ l a b. ground (arith, h.1 l a b))

-- The search for the label of a host ends, with the label that a node of the host has in the
-- cluster, or, where none has one, with one that no node of the cluster has.
pub get_next_physical_device_order-IsLabel :
    (snode : Node) (db : Db)
    → (l : ℕ) × (get_next_physical_device_order snode db ≡ some l)
      × IsLabel snode.mgmt_ip (get_storage_nodes_by_cluster_id snode.cluster_id db) l
unfolding get_next_physical_device_order Scanned
get_next_physical_device_order-IsLabel snode db =
    found (scan_labels snode.mgmt_ip ns []) (scan_labels-Scanned snode.mgmt_ip ns [])
  where
    ns : List Node
    ns = get_storage_nodes_by_cluster_id snode.cluster_id db

    found :
        (r : Labels)
        → Scanned snode.mgmt_ip ns [] r
        → (l : ℕ) × ((elim r as (λ _. Option ℕ) [ own x ↦ some x | used us ↦ search 1 us ])
            ≡ some l)
          × IsLabel snode.mgmt_ip ns l
    found (own l) h = (l, refl, of_host h.0 h.1)
    found (used us) h =
        let (l, e, first) = search-returns 1 us in
        let positive : 0 < l = omega (arith, first.low) in
        (l, e, of_none positive h.0 (ground (arith, h.1 l positive first.free)))
