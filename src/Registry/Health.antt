-- ===== src/Registry/Health.antt =====
-- The health check: its messages are read back as they were composed, and a round deletes the keys
-- of exactly the peers that do not answer.
use mpc_go.Common.{
  ◌≡◌, ◌∷◌, [], List, some, Text, Bool, true, false, refl, contains, same, same_iff, codes, NoSpace,
  not_space, Lacks, split_n, split_n-append, if◌then◌else◌, not, ◌&&◌, ◌||◌, arith, Bool-cases, inl,
  inr,
}
use mpc_go.Registry.{
  Registry, is_ecdh_ready, compose_health_data, parse_health_data_split, parse_bool, ready_key,
  scan_ready, scan_word, word, drop_literal, delete_key, drop_unresponsive, check_peers_health,
  get_ready_peers_from_kv_store,
}

-- A health message tells its receiver the sender's ID and whether the sender has all its keys.
pub parse-compose_health_data :
    (r : Registry)
    → Lacks b',' r.node_id
    → parse_health_data_split (compose_health_data r) ≡ some (r.node_id, is_ecdh_ready r)
unfolding parse_health_data_split compose_health_data parse_bool contains same split_n
parse-compose_health_data r h = elim (Bool-cases (is_ecdh_ready r)) [
  | inl e ↦ rw (e, split_n-append b',' 0 r.node_id (codes "true") h)
  | inr e ↦ rw (e, split_n-append b',' 0 r.node_id (codes "false") h)
]

word-NoSpace : (p : Text) → NoSpace p → word p ≡ p
unfolding word
word-NoSpace [] h = refl
word-NoSpace (c ∷ p) h = rw (not_space c h.0, word-NoSpace p h.1)

-- A peer ID as a ready key can carry it.
abbrev pub IsWord : Text → Type 0
IsWord [] = ⊥
IsWord (c ∷ p) = NoSpace (c ∷ p)

scan_ready-ready_key : (p : Text) → IsWord p → scan_ready (ready_key p) ≡ some p
unfolding scan_ready ready_key drop_literal scan_word
scan_ready-ready_key [] h = absurd h
scan_ready-ready_key (c ∷ p) h = rw (not_space c h.0, word-NoSpace p h.1)

contains-delete_key :
    (key : Text) (keys : List Text) (k : Text)
    → contains (delete_key key keys) k ≡ (contains keys k && not (same key k))
unfolding delete_key contains
contains-delete_key key [] k = refl
contains-delete_key key (j ∷ keys) k =
    ground (arith, contains-delete_key key keys k, same_iff j k, same_iff key k, same_iff j key)

-- Whether some peer of the list that does not answer has this ready key.
unfoldable pub is_dropped : (Text → Bool) → List Text → Text → Bool
is_dropped no_responders [] k = false
is_dropped no_responders (p ∷ ps) k =
    (no_responders p && same (ready_key p) k) || is_dropped no_responders ps k

contains-drop_unresponsive :
    (no_responders : Text → Bool) (ps keys : List Text) (k : Text)
    → contains (drop_unresponsive no_responders ps keys) k
      ≡ (contains keys k && not (is_dropped no_responders ps k))
unfolding drop_unresponsive is_dropped
contains-drop_unresponsive f [] keys k = ground arith
contains-drop_unresponsive f (p ∷ ps) keys k = ground (
  arith,
  contains-drop_unresponsive f ps (if f p then delete_key (ready_key p) keys else keys) k,
  contains-delete_key (ready_key p) keys k,
)

ready_key-injective : (p q : Text) → ready_key p ≡ ready_key q → p ≡ q
unfolding ready_key
ready_key-injective p q e = cc

is_dropped_key :
    (f : Text → Bool) (ps : List Text) (q : Text)
    → is_dropped f ps (ready_key q) ≡ (f q && contains ps q)
unfolding is_dropped contains
is_dropped_key f [] q = ground arith
is_dropped_key f (p ∷ ps) q = ground (
  arith,
  is_dropped_key f ps q,
  same_iff p q,
  same_iff (ready_key p) (ready_key q),
  ready_key-injective p q,
)

listed_key :
    (node_id : Text) (keys : List Text) (q : Text)
    → IsWord q
    → same q node_id ≡ false
    → contains keys (ready_key q) ≡ true
    → contains (get_ready_peers_from_kv_store node_id keys) q ≡ true
unfolding contains get_ready_peers_from_kv_store
listed_key node_id [] q w d m = cc
listed_key node_id (k ∷ keys) q w d m = ground (
  arith,
  listed_key node_id keys q w d,
  scan_ready-ready_key q w,
  same_iff k (ready_key q),
  same_iff q q,
)

-- After a round the ready key of another peer is in the store exactly if it was there and the peer
-- answered.
pub check_peers_health_iff :
    (r : Registry) (no_responders : Text → Bool) (keys : List Text) (q : Text)
    → IsWord q
    → same q r.node_id ≡ false
    → contains (check_peers_health r no_responders keys) (ready_key q)
      ≡ (contains keys (ready_key q) && not (no_responders q))
unfolding check_peers_health
check_peers_health_iff r f keys q w d =
    let ps = get_ready_peers_from_kv_store r.node_id keys in
    ground (
      arith,
      contains-drop_unresponsive f ps keys (ready_key q),
      is_dropped_key f ps q,
      listed_key r.node_id keys q w d,
    )
