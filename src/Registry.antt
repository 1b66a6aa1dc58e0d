-- ===== src/Registry.antt =====
-- The peer registry (pkg/mpc/registry.go). A registry is the record of what `registry` keeps; a
-- method returns the new record, with the callbacks and exchanges that it sets off as `Effect`s.
pub mod Maps
pub mod Count
pub mod Ready
pub mod Health
use mpc_go.Common.{
  ℕ, ◌+◌, ◌==◌, ◌<◌, ◌++◌, ◌∷◌, [], List, Option, none, some, Text, Bool, true, false, not, ◌&&◌,
  same, contains, codes, is_space, split_n, if◌then◌else◌, lookup, insert, length, ltb, ℤ, pos,
  negsuc, leb_ℤ, ltb_ℤ, ◌+ℤ◌, signed, increment, decrement,
}
use mathlib.Core.Option
use mpc_go.Identity.{SymmetricKeys, remove_symmetric_key, check_symmetric_key_complete}

pub record Registry : Type 0 where
  pub node_id : Text
  pub peer_node_ids : List Text
  pub ready_map : List (Text × Bool)
  pub ready_count : ℕ  -- int64, as a bit pattern
  pub ready : Bool
  pub threshold : ℤ
  pub identity_store : SymmetricKeys
  -- whether the callback is set
  pub on_peer_connected : Bool
  pub on_peer_disconnected : Bool
  pub on_peer_reconnected : Bool

pub data Effect : Type 0 where
  peer_connected peer_disconnected peer_reconnected : Text → Effect
  trigger_ecdh_exchange : Effect

-- `lo.Filter` by `item != nodeID`.
unfoldable pub others : Text → List Text → List Text
others node_id [] = []
others node_id (p ∷ ps) = if same p node_id then others node_id ps else p ∷ others node_id ps

-- `none` is the fatal exit on a threshold below 1. The store comes with what it already holds.
unfoldable pub new_registry : Text → List Text → ℤ → SymmetricKeys → Option Registry
new_registry node_id peer_node_ids threshold keys =
    if ltb_ℤ threshold (pos 1)
    then none
    else some (record {
      node_id = node_id;
      peer_node_ids = others node_id peer_node_ids;
      ready_map = [];
      ready_count = 1;
      ready = false;
      threshold = threshold;
      identity_store = keys;
      on_peer_connected = false;
      on_peer_disconnected = false;
      on_peer_reconnected = false;
    })

abbrev pub when : Bool → Effect → List Effect
when true e = e ∷ []
when false e = []

-- One round of the loop of `registerReadyPairs`; the second argument is `r.readyMap[peerID]`.
unfoldable pub register_found : Registry → Option Bool → Text → Registry × List Effect
register_found r none p = (
  record r { ready_count = increment r.ready_count; ready_map = insert p true r.ready_map },
  when r.on_peer_connected (peer_connected p) ++ trigger_ecdh_exchange ∷ [],
)
register_found r (some false) p = (
  record r { ready_count = increment r.ready_count; ready_map = insert p true r.ready_map },
  when r.on_peer_reconnected (peer_reconnected p) ++ trigger_ecdh_exchange ∷ [],
)
register_found r (some true) p = (record r { ready_map = insert p true r.ready_map }, [])

unfoldable pub register_each : Registry → List Text → Registry × List Effect
register_each r [] = (r, [])
register_each r (p ∷ ps) =
    let (r', es) = register_found r (lookup p r.ready_map) p in
    let (r'', fs) = register_each r' ps in (r'', es ++ fs)

unfoldable pub register_ready_pairs : Registry → List Text → Registry × List Effect
register_ready_pairs r peer_ids =
    let (r', es) = register_each r peer_ids in
    (
      if (length peer_ids == length r'.peer_node_ids) && not r'.ready
          then record r' { ready = true }
          else r',
      es,
    )

-- The peers of `readyMap` that are marked ready.
unfoldable pub ready_peers : List (Text × Bool) → List Text
ready_peers [] = []
ready_peers ((p, true) ∷ m) = p ∷ ready_peers m
ready_peers ((p, false) ∷ m) = ready_peers m

unfoldable pub get_ready_peers_include_self : Registry → List Text
get_ready_peers_include_self r = ready_peers r.ready_map ++ r.node_id ∷ []

-- `fmt.Sscanf(key, "ready/%s", &peerNodeID)`: the literal must match, spaces are skipped, and the
-- word goes up to the next space. `none` is its error, which a line break or the end gives.
unfoldable pub word : Text → Text
word [] = []
word (c ∷ s) = if is_space c then [] else c ∷ word s

unfoldable pub scan_word : Text → Option Text
scan_word [] = none
scan_word (c ∷ s) =
    let rest = scan_word s in
    if is_space c then (if c == 10 then none else rest) else some (c ∷ word s)

unfoldable pub drop_literal : Text → Text → Option Text
drop_literal [] s = some s
drop_literal (a ∷ p) [] = none
drop_literal (a ∷ p) (b ∷ s) = if a == b then drop_literal p s else none

unfoldable pub scan_ready : Text → Option Text
scan_ready key = elim (drop_literal (codes "ready/") key) [ none ↦ none | some s ↦ scan_word s ]

abbrev pub or_empty : Option Text → Text
or_empty none = []
or_empty (some s) = s

-- A key that does not parse is logged, and its empty ID is used all the same.
unfoldable pub get_ready_peers_from_kv_store : Text → List Text → List Text
get_ready_peers_from_kv_store node_id [] = []
get_ready_peers_from_kv_store node_id (key ∷ keys) =
    let rest = get_ready_peers_from_kv_store node_id keys in
    let peer_node_id = or_empty (scan_ready key) in
    if same peer_node_id node_id then rest else peer_node_id ∷ rest

-- The first result of `lo.Difference`.
unfoldable pub difference : List Text → List Text → List Text
difference [] bs = []
difference (a ∷ as') bs = if contains bs a then difference as' bs else a ∷ difference as' bs

-- The loop over the disconnected peers.
unfoldable pub disconnect_one : Registry → Text → Registry
disconnect_one r p = record r {
  ready_map = insert p false r.ready_map;
  ready_count = decrement r.ready_count;
  identity_store = remove_symmetric_key r.identity_store p;
}

unfoldable pub disconnect_each : Registry → List Text → Registry × List Effect
disconnect_each r [] = (r, [])
disconnect_each r (p ∷ ps) =
    let (r', fs) = disconnect_each (disconnect_one r p) ps in
    (r', when r.on_peer_disconnected (peer_disconnected p) ++ fs)

-- What a tick does before it registers the peers that are listed.
unfoldable pub drop_missing : Registry → List Text → Registry × List Effect
drop_missing r new_ready =
    if length new_ready == length r.peer_node_ids
    then (r, [])
    else disconnect_each (record r { ready = false })
        (difference (ready_peers r.ready_map) new_ready)

abbrev pub or_nil : Option (List Text) → List Text
or_nil none = []
or_nil (some ps) = ps

-- One tick of `WatchPeersReady`, with the keys that `consulKV.List` returned. `none` is its error:
-- it is logged, and the tick goes on with no pairs.
unfoldable pub watch_tick : Registry → Option (List Text) → Registry × List Effect
watch_tick r pairs =
    let new_ready = get_ready_peers_from_kv_store r.node_id (or_nil pairs) in
    let (r', es) = drop_missing r new_ready in
    let (r'', fs) = register_ready_pairs r' new_ready in (r'', es ++ fs)

-- Any number of ticks.
unfoldable pub watch_peers_ready : Registry → List (Option (List Text)) → Registry
watch_peers_ready r [] = r
watch_peers_ready r (pairs ∷ ticks) = watch_peers_ready (watch_tick r pairs).0 ticks

unfoldable pub get_ready_peers_count : Registry → ℤ
get_ready_peers_count r = signed r.ready_count

unfoldable pub get_ready_peers_count_exclude_self : Registry → ℤ
get_ready_peers_count_exclude_self r = signed (decrement r.ready_count)

unfoldable pub is_ecdh_ready : Registry → Bool
is_ecdh_ready r =
    check_symmetric_key_complete r.identity_store (get_ready_peers_count_exclude_self r)

unfoldable pub are_peers_ready : Registry → Bool
are_peers_ready r = r.ready && is_ecdh_ready r

unfoldable pub are_majority_ready : Registry → Bool
are_majority_ready r = leb_ℤ (r.threshold +ℤ pos 1) (get_ready_peers_count r) && is_ecdh_ready r

unfoldable pub get_total_peers_count : Registry → ℕ
get_total_peers_count r = length r.peer_node_ids + 1

-- `readyKey`, and the same text again as `ComposeReadyKey` of pkg/mpc/node.go.
unfoldable pub ready_key : Text → Text
ready_key node_id = codes "ready/" ++ node_id

-- `strconv.ParseBool`; `none` is its error.
unfoldable pub parse_bool : Text → Option Bool
parse_bool s =
    if contains
      (codes "1" ∷ codes "t" ∷ codes "T" ∷ codes "true" ∷ codes "TRUE" ∷ codes "True" ∷ []) s
    then some true
    else if contains
        (codes "0" ∷ codes "f" ∷ codes "F" ∷ codes "false" ∷ codes "FALSE" ∷ codes "False" ∷ []) s
    then some false
    else none

unfoldable pub compose_health_data : Registry → Text
compose_health_data r =
    r.node_id ++ b',' ∷ (if is_ecdh_ready r then codes "true" else codes "false")

abbrev pub health_parts : List Text → Option (Text × Bool)
health_parts (peer_id ∷ flag ∷ []) = Option.map (λ b. (peer_id, b)) (parse_bool flag)
health_parts _ = none

-- `none` is an error: the format, or the flag.
unfoldable pub parse_health_data_split : Text → Option (Text × Bool)
parse_health_data_split s = health_parts (split_n b',' 2 s)

-- One round of `checkPeersHealth` over the keys that it lists; `no_responders` tells for which peers
-- the health check finds nobody. Each such peer's key is deleted from the store.
unfoldable pub delete_key : Text → List Text → List Text
delete_key key [] = []
delete_key key (k ∷ ks) = if same k key then delete_key key ks else k ∷ delete_key key ks

unfoldable pub drop_unresponsive : (Text → Bool) → List Text → List Text → List Text
drop_unresponsive no_responders [] keys = keys
drop_unresponsive no_responders (p ∷ ps) keys =
    drop_unresponsive no_responders ps
      (if no_responders p then delete_key (ready_key p) keys else keys)

unfoldable pub check_peers_health : Registry → (Text → Bool) → List Text → List Text
check_peers_health r no_responders keys =
    drop_unresponsive no_responders (get_ready_peers_from_kv_store r.node_id keys) keys
