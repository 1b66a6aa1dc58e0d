-- ===== src/Tests/Registries.antt =====
-- A registry of three nodes over some ticks.
use mpc_go.Common.{
  ◌≡◌, refl, none, some, true, false, Bool, Text, List, codes, arith, ◌∷◌, [], pos, length, lookup,
  insert, contains, same, not, ◌&&◌, ◌||◌, ◌==◌, if◌then◌else◌,
}
use mpc_go.Registry.{
  Registry, peer_disconnected, new_registry, others, watch_tick, watch_peers_ready,
  get_ready_peers_count, get_ready_peers_include_self, register_ready_pairs, register_each,
  register_found, ready_peers, drop_missing, disconnect_each, disconnect_one, difference,
  get_ready_peers_from_kv_store, scan_ready, scan_word, word, drop_literal,
}
use mpc_go.Registry.Count.{
  IsConsistent, is_ready, watch_tick-IsConsistent, get_ready_peers_count-eq-length,
}
use mpc_go.Registry.Ready.{listed, ready-watch_tick, key-watch_tick}

abbrev node0 : Text
node0 = codes "node0"

abbrev node1 : Text
node1 = codes "node1"

abbrev node2 : Text
node2 = codes "node2"

-- Two peers, the first of which is ready and has exchanged a key.
abbrev half_ready : Registry
half_ready = record {
  node_id = node0;
  peer_node_ids = node1 ∷ node2 ∷ [];
  ready_map = (node1, true) ∷ [];
  ready_count = 2;
  ready = false;
  threshold = pos 1;
  identity_store = (node1, codes "key") ∷ [];
  on_peer_connected = false;
  on_peer_disconnected = true;
  on_peer_reconnected = false;
}

abbrev fresh : Registry
fresh = record half_ready {
  ready_map = [];
  ready_count = 1;
  identity_store = [];
  on_peer_disconnected = false;
}

half_ready-IsConsistent : IsConsistent half_ready
unfolding ready_peers lookup
half_ready-IsConsistent = record { counted = refl; distinct = (refl, tt) }

abbrev all_keys : List Text
all_keys = codes "ready/node0" ∷ codes "ready/node1" ∷ codes "ready/node2" ∷ []

all_listed : get_ready_peers_from_kv_store node0 all_keys ≡ node1 ∷ node2 ∷ []
unfolding get_ready_peers_from_kv_store scan_ready scan_word word drop_literal same
all_listed = refl

-- A key that does not parse yields a peer with an empty ID.
bare_key : get_ready_peers_from_kv_store node0 (codes "ready/" ∷ []) ≡ [] ∷ []
unfolding get_ready_peers_from_kv_store scan_ready scan_word word drop_literal same
bare_key = refl

failed_tick : (watch_tick half_ready none).1 ≡ peer_disconnected node1 ∷ []
unfolding watch_tick get_ready_peers_from_kv_store drop_missing disconnect_each difference
    ready_peers contains register_ready_pairs register_each disconnect_one
failed_tick = refl

made : new_registry node0 (node0 ∷ node1 ∷ node2 ∷ []) (pos 1) [] ≡ some fresh
unfolding new_registry others same
made = refl

watch_tick-IsConsistent_example : IsConsistent (watch_tick half_ready (some all_keys)).0
watch_tick-IsConsistent_example =
    watch_tick-IsConsistent half_ready (some all_keys) half_ready-IsConsistent

get_ready_peers_count-eq-length_example :
    get_ready_peers_count (watch_peers_ready fresh (some all_keys ∷ none ∷ []))
    ≡ pos (
        length (get_ready_peers_include_self (watch_peers_ready fresh (some all_keys ∷ none ∷ []))))
unfolding watch_peers_ready watch_tick get_ready_peers_from_kv_store scan_ready scan_word word
    drop_literal same drop_missing register_ready_pairs register_each register_found lookup insert
    ready_peers get_ready_peers_include_self disconnect_each disconnect_one difference contains
get_ready_peers_count-eq-length_example =
    get_ready_peers_count-eq-length node0 (node0 ∷ node1 ∷ node2 ∷ []) (pos 1) [] fresh
      (some all_keys ∷ none ∷ []) made (omega arith)

ready-watch_tick_example :
    is_ready (lookup node2 (watch_tick half_ready (some all_keys)).0.ready_map) ≡ (
      contains (listed half_ready (some all_keys)) node2
      || (is_ready (lookup node2 half_ready.ready_map)
          && (length (listed half_ready (some all_keys)) == length half_ready.peer_node_ids)))
ready-watch_tick_example = ready-watch_tick half_ready (some all_keys) node2 half_ready-IsConsistent

key-watch_tick_example : lookup node1 (watch_tick half_ready none).0.identity_store ≡ (
    if is_ready (lookup node1 half_ready.ready_map)
      && not (is_ready (lookup node1 (watch_tick half_ready none).0.ready_map))
    then none
    else lookup node1 half_ready.identity_store)
key-watch_tick_example = key-watch_tick half_ready none node1 half_ready-IsConsistent

abbrev only_node2_is_gone : Text → Bool
only_node2_is_gone p = same p node2
