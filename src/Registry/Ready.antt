-- ===== src/Registry/Ready.antt =====
-- Which peers are ready after a tick, and what a failed listing does.
use mpc_go.Common.{
  suc, ◌==◌, ◌≡◌, ◌≢◌, ◌↔◌, List, Option, none, some, Text, true, false, [], contains, lookup,
  arith, if◌then◌else◌, ◌&&◌, ◌||◌, not, ap, length, pos, ◌≤ℤ◌, ◌+ℤ◌, ◌<◌, ◌^◌, signed, decrement,
}
use mpc_go.Identity.{check_symmetric_key_complete}
use mpc_go.Registry.{
  Registry, register_ready_pairs, ready_peers, difference, drop_missing, watch_tick,
  get_ready_peers_from_kv_store, or_nil, are_majority_ready, is_ecdh_ready, get_ready_peers_count,
  get_ready_peers_count_exclude_self,
}
use mpc_go.Registry.Maps.{
  lookup-register_each, lookup-disconnect_each, lookup-disconnect_each_key, contains-difference,
  register_each_rest,
}
use mpc_go.Registry.Count.{is_ready, IsConsistent, contains-ready_peers}

-- The peers that a tick's listing names.
abbrev pub listed : Registry → Option (List Text) → List Text
listed r pairs = get_ready_peers_from_kv_store r.node_id (or_nil pairs)

lookup-register_ready_pairs :
    (r : Registry) (ps : List Text) (q : Text)
    → lookup q (register_ready_pairs r ps).0.ready_map
      ≡ (if contains ps q then some true else lookup q r.ready_map)
unfolding register_ready_pairs
lookup-register_ready_pairs r ps q = ground (arith, lookup-register_each r ps q)

register_ready_pairs_keys :
    (r : Registry) (ps : List Text)
    → (register_ready_pairs r ps).0.identity_store ≡ r.identity_store
unfolding register_ready_pairs
register_ready_pairs_keys r ps = ground (arith, register_each_rest r ps)

ready-drop_missing :
    (r : Registry) (ps : List Text) (q : Text)
    → IsConsistent r
    → is_ready (lookup q (drop_missing r ps).0.ready_map) ≡ (
        is_ready (lookup q r.ready_map) && ((length ps == length r.peer_node_ids) || contains ps q))
unfolding drop_missing
ready-drop_missing r ps q v = ground (
  arith,
  lookup-disconnect_each (record r { ready = false }) (difference (ready_peers r.ready_map) ps) q,
  contains-difference (ready_peers r.ready_map) ps q,
  contains-ready_peers r.ready_map q v.distinct,
)

-- After a tick a peer is ready exactly if the listing names it, or if it was ready before and the
-- listing has as many names as there are peers, in which case nobody is checked for having left.
pub ready-watch_tick :
    (r : Registry) (pairs : Option (List Text)) (q : Text)
    → IsConsistent r
    → is_ready (lookup q (watch_tick r pairs).0.ready_map) ≡ (
        contains (listed r pairs) q
        || (is_ready (lookup q r.ready_map) && (length (listed r pairs) == length r.peer_node_ids)))
unfolding watch_tick
ready-watch_tick r pairs q v = ground (
  arith,
  lookup-register_ready_pairs (drop_missing r (listed r pairs)).0 (listed r pairs) q,
  ready-drop_missing r (listed r pairs) q v,
)

key-drop_missing :
    (r : Registry) (ps : List Text) (q : Text)
    → IsConsistent r
    → lookup q (drop_missing r ps).0.identity_store ≡ (
        if is_ready (lookup q r.ready_map)
          && not ((length ps == length r.peer_node_ids) || contains ps q)
        then none
        else lookup q r.identity_store)
unfolding drop_missing
key-drop_missing r ps q v = ground (
  arith,
  lookup-disconnect_each_key (record r { ready = false }) (difference (ready_peers r.ready_map) ps)
      q,
  contains-difference (ready_peers r.ready_map) ps q,
  contains-ready_peers r.ready_map q v.distinct,
)

-- A tick removes the symmetric key of a peer exactly if it takes the peer from ready to not ready;
-- every other key stays.
pub key-watch_tick :
    (r : Registry) (pairs : Option (List Text)) (q : Text)
    → IsConsistent r
    → lookup q (watch_tick r pairs).0.identity_store ≡ (
        if is_ready (lookup q r.ready_map)
          && not (is_ready (lookup q (watch_tick r pairs).0.ready_map))
        then none
        else lookup q r.identity_store)
key-watch_tick r pairs q v = ground (
  arith,
  ready-watch_tick r pairs q v,
  key-drop_missing r (listed r pairs) q v,
  tick_keys r pairs,
  ap (lookup q) (tick_keys r pairs),
)
  where
    tick_keys :
        (r : Registry) (pairs : Option (List Text))
        → (watch_tick r pairs).0.identity_store ≡ (drop_missing r (listed r pairs)).0.identity_store
    tick_keys r pairs =
        unfold watch_tick in
        register_ready_pairs_keys (drop_missing r (listed r pairs)).0 (listed r pairs)

-- A failed listing is taken for an empty one: if the node has peers, each peer is marked as not
-- ready, and each peer that was ready loses its key.
pub failed_listing :
    (r : Registry) (q : Text)
    → IsConsistent r
    → r.peer_node_ids ≢ []
    → (is_ready (lookup q (watch_tick r none).0.ready_map) ≡ false)
      × (is_ready (lookup q r.ready_map) ≡ true
          → lookup q (watch_tick r none).0.identity_store ≡ none)
unfolding get_ready_peers_from_kv_store contains
failed_listing r q v h = ground (arith, ready-watch_tick r none q v, key-watch_tick r none q v)

-- In a consistent registry a majority is ready exactly if the peers that are marked ready and the
-- node itself are more than `threshold`, and there are as many symmetric keys as such peers.
pub are_majority_ready_iff :
    (r : Registry)
    → IsConsistent r
    → suc (length (ready_peers r.ready_map)) < 2 ^ 63
    → (are_majority_ready r ≡ true) ↔ (
        (r.threshold +ℤ pos 1 ≤ℤ pos (suc (length (ready_peers r.ready_map))))
        × (length r.identity_store ≡ length (ready_peers r.ready_map)))
unfolding are_majority_ready is_ecdh_ready check_symmetric_key_complete get_ready_peers_count
    get_ready_peers_count_exclude_self signed decrement
are_majority_ready_iff r v h = ground (arith, v.counted)
