-- ===== src/Registry/Maps.antt =====
-- What the loops of the registry do to the map of ready peers and to the keys, peer by peer.
use mpc_go.Common.{
  ◌≡◌, ◌∷◌, List, Option, none, some, Text, Bool, true, false, refl, ◌∙◌, [], same_iff, contains,
  lookup, insert, lookup-insert, lookup-delete, arith, if◌then◌else◌, ◌&&◌, not, ap,
}
use mpc_go.Identity.{remove_symmetric_key}
use mpc_go.Registry.{
  Registry, register_found, register_each, difference, disconnect_one, disconnect_each,
}

register_found-ready_map :
    (r : Registry) (o : Option Bool) (p : Text)
    → (register_found r o p).0.ready_map ≡ insert p true r.ready_map
unfolding register_found
register_found-ready_map r none p = refl
register_found-ready_map r (some true) p = refl
register_found-ready_map r (some false) p = refl

-- Registering marks exactly the listed peers, and leaves the others as they were.
pub lookup-register_each :
    (r : Registry) (ps : List Text) (q : Text)
    → lookup q (register_each r ps).0.ready_map
      ≡ (if contains ps q then some true else lookup q r.ready_map)
unfolding register_each contains
lookup-register_each r [] q = refl
lookup-register_each r (p ∷ ps) q =
    let r' = (register_found r (lookup p r.ready_map) p).0 in
    ground (
      arith,
      lookup-register_each r' ps q,
      register_found-ready_map r (lookup p r.ready_map) p,
      ap (lookup q) (register_found-ready_map r (lookup p r.ready_map) p),
      lookup-insert p q true r.ready_map,
    )

pub lookup-disconnect_each :
    (r : Registry) (ps : List Text) (q : Text)
    → lookup q (disconnect_each r ps).0.ready_map
      ≡ (if contains ps q then some false else lookup q r.ready_map)
unfolding disconnect_each disconnect_one contains
lookup-disconnect_each r [] q = refl
lookup-disconnect_each r (p ∷ ps) q =
    ground
      (arith, lookup-disconnect_each (disconnect_one r p) ps q, lookup-insert p q false r.ready_map)

-- The key of each disconnected peer goes, and no other.
pub lookup-disconnect_each_key :
    (r : Registry) (ps : List Text) (q : Text)
    → lookup q (disconnect_each r ps).0.identity_store
      ≡ (if contains ps q then none else lookup q r.identity_store)
unfolding disconnect_each disconnect_one contains remove_symmetric_key
lookup-disconnect_each_key r [] q = refl
lookup-disconnect_each_key r (p ∷ ps) q = ground (
  arith,
  lookup-disconnect_each_key (disconnect_one r p) ps q,
  lookup-delete p q r.identity_store,
)

pub contains-difference :
    (xs ys : List Text) (q : Text)
    → contains (difference xs ys) q ≡ (contains xs q && not (contains ys q))
unfolding difference contains
contains-difference [] ys q = refl
contains-difference (x ∷ xs) ys q = ground (arith, contains-difference xs ys q, same_iff x q)

register_found_rest :
    (r : Registry) (o : Option Bool) (p : Text)
    → let r' = (register_found r o p).0 in
      (r'.identity_store ≡ r.identity_store)
      × (r'.peer_node_ids ≡ r.peer_node_ids)
      × (r'.ready ≡ r.ready)
      × (r'.node_id ≡ r.node_id)
unfolding register_found
register_found_rest r none p = (refl, refl, refl, refl)
register_found_rest r (some true) p = (refl, refl, refl, refl)
register_found_rest r (some false) p = (refl, refl, refl, refl)

-- Registering leaves the keys, the peer list, the flag and the node's own ID alone.
pub register_each_rest :
    (r : Registry) (ps : List Text)
    → let r' = (register_each r ps).0 in
      (r'.identity_store ≡ r.identity_store)
      × (r'.peer_node_ids ≡ r.peer_node_ids)
      × (r'.ready ≡ r.ready)
      × (r'.node_id ≡ r.node_id)
unfolding register_each
register_each_rest r [] = (refl, refl, refl, refl)
register_each_rest r (p ∷ ps) =
    let r' = (register_found r (lookup p r.ready_map) p).0 in
    let (a, b, c, d) = register_each_rest r' ps in
    let (e, f, g, h) = register_found_rest r (lookup p r.ready_map) p in
    (a ∙ e, b ∙ f, c ∙ g, d ∙ h)

-- So does disconnecting, but for the keys.
pub disconnect_each_rest :
    (r : Registry) (ps : List Text)
    → let r' = (disconnect_each r ps).0 in
      (r'.peer_node_ids ≡ r.peer_node_ids) × (r'.ready ≡ r.ready) × (r'.node_id ≡ r.node_id)
unfolding disconnect_each disconnect_one
disconnect_each_rest r [] = (refl, refl, refl)
disconnect_each_rest r (p ∷ ps) = disconnect_each_rest (disconnect_one r p) ps
