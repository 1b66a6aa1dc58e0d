-- ===== src/Registry/Count.antt =====
-- The counter of ready peers agrees with the map, after any ticks.
use mpc_go.Common.{
  suc, ◌^◌, ◌%◌, ◌≡◌, ◌∷◌, List, Option, none, some, Text, Bool, true, false, refl, [], same_iff,
  contains, lookup, insert, lookup-insert, arith, if◌then◌else◌, length, length-append, increment,
  decrement, ℤ, pos, signed, ◌<◌,
}
use mpc_go.Registry.{
  Registry, new_registry, register_found, register_each, register_ready_pairs, ready_peers,
  get_ready_peers_include_self, difference, disconnect_one, disconnect_each, drop_missing,
  watch_tick, watch_peers_ready, get_ready_peers_count, get_ready_peers_from_kv_store, or_nil,
}
use mpc_go.Registry.Maps.{contains-difference}

abbrev pub is_ready : Option Bool → Bool
is_ready (some true) = true
is_ready _ = false

-- No key stands twice.
abbrev pub Distinct : List (Text × Bool) → Type 0
Distinct [] = Unit
Distinct ((k, v) ∷ m) = (lookup k m ≡ none) × Distinct m

Distinct-insert :
    (k : Text) (v : Bool) (m : List (Text × Bool)) → Distinct m → Distinct (insert k v m)
unfolding insert lookup
Distinct-insert k v [] d = (refl, tt)
Distinct-insert k v ((j, w) ∷ m) d =
    ground (arith, same_iff j k, same_iff k j, lookup-insert k j v m, Distinct-insert k v m d.1)

length-insert-true :
    (k : Text) (m : List (Text × Bool))
    → length (ready_peers (insert k true m))
      ≡ (if is_ready (lookup k m) then length (ready_peers m) else suc (length (ready_peers m)))
unfolding insert lookup ready_peers
length-insert-true k [] = refl
length-insert-true k ((j, true) ∷ m) = ground (arith, length-insert-true k m)
length-insert-true k ((j, false) ∷ m) = ground (arith, length-insert-true k m)

length-insert-false :
    (k : Text) (m : List (Text × Bool))
    → lookup k m ≡ some true
    → suc (length (ready_peers (insert k false m))) ≡ length (ready_peers m)
unfolding insert lookup ready_peers
length-insert-false k [] h = cc
length-insert-false k ((j, true) ∷ m) h = ground (arith, length-insert-false k m)
length-insert-false k ((j, false) ∷ m) h = ground (arith, length-insert-false k m)

pub contains-ready_peers :
    (m : List (Text × Bool)) (q : Text)
    → Distinct m
    → contains (ready_peers m) q ≡ is_ready (lookup q m)
unfolding contains lookup ready_peers
contains-ready_peers [] q d = refl
contains-ready_peers ((j, true) ∷ m) q d = ground (arith, contains-ready_peers m q d.1)
contains-ready_peers ((j, false) ∷ m) q d =
    ground (arith, same_iff j q, contains-ready_peers m q d.1)

abbrev Unique : List Text → Type 0
Unique [] = Unit
Unique (p ∷ ps) = (contains ps p ≡ false) × Unique ps

ready_peers-Unique : (m : List (Text × Bool)) → Distinct m → Unique (ready_peers m)
unfolding ready_peers
ready_peers-Unique [] d = tt
ready_peers-Unique ((j, true) ∷ m) d =
    (ground (arith, contains-ready_peers m j d.1), ready_peers-Unique m d.1)
ready_peers-Unique ((j, false) ∷ m) d = ready_peers-Unique m d.1

difference-Unique : (xs ys : List Text) → Unique xs → Unique (difference xs ys)
unfolding difference
difference-Unique [] ys u = tt
difference-Unique (x ∷ xs) ys u =
    ground (arith, contains-difference xs ys x, difference-Unique xs ys u.1)

-- The counter is one more than the number of peers that are marked, up to its 64 bits.
pub record IsConsistent (r : Registry) : Type 0 where
  pub counted : r.ready_count ≡ suc (length (ready_peers r.ready_map)) % 2 ^ 64
  pub distinct : Distinct r.ready_map

new_registry-IsConsistent :
    (node_id : Text) (peers : List Text) (threshold : ℤ) (keys : List (Text × Text)) {r : Registry}
    → new_registry node_id peers threshold keys ≡ some r
    → IsConsistent r
unfolding new_registry ready_peers
new_registry-IsConsistent node_id peers threshold keys h = ground arith

register_found-IsConsistent :
    (r : Registry) (p : Text)
    → IsConsistent r
    → IsConsistent (register_found r (lookup p r.ready_map) p).0
unfolding register_found increment
register_found-IsConsistent r p v =
    ground (arith, length-insert-true p r.ready_map, Distinct-insert p true r.ready_map v.distinct)

register_each-IsConsistent :
    (r : Registry) (ps : List Text) → IsConsistent r → IsConsistent (register_each r ps).0
unfolding register_each
register_each-IsConsistent r [] v = v
register_each-IsConsistent r (p ∷ ps) v =
    register_each-IsConsistent (register_found r (lookup p r.ready_map) p).0 ps
      (register_found-IsConsistent r p v)

register_ready_pairs-IsConsistent :
    (r : Registry) (ps : List Text) → IsConsistent r → IsConsistent (register_ready_pairs r ps).0
unfolding register_ready_pairs
register_ready_pairs-IsConsistent r ps v = ground (arith, register_each-IsConsistent r ps v)

disconnect_one-IsConsistent :
    (r : Registry) (p : Text)
    → lookup p r.ready_map ≡ some true
    → IsConsistent r
    → IsConsistent (disconnect_one r p)
unfolding disconnect_one decrement
disconnect_one-IsConsistent r p h v = record {
  counted = omega (arith, length-insert-false p r.ready_map h, v.counted);
  distinct = Distinct-insert p false r.ready_map v.distinct;
}

abbrev AllReady : List (Text × Bool) → List Text → Type 0
AllReady m [] = Unit
AllReady m (p ∷ ps) = (lookup p m ≡ some true) × AllReady m ps

AllReady-insert :
    (k : Text) (m : List (Text × Bool)) (ps : List Text)
    → contains ps k ≡ false
    → AllReady m ps
    → AllReady (insert k false m) ps
unfolding contains
AllReady-insert k m [] h a = tt
AllReady-insert k m (p ∷ ps) h a =
    ground (arith, lookup-insert k p false m, same_iff k p, same_iff p k, AllReady-insert k m ps)

disconnect_each-IsConsistent :
    (r : Registry) (ps : List Text)
    → Unique ps
    → AllReady r.ready_map ps
    → IsConsistent r
    → IsConsistent (disconnect_each r ps).0
unfolding disconnect_each
disconnect_each-IsConsistent r [] u a v = v
disconnect_each-IsConsistent r (p ∷ ps) u a v =
    disconnect_each-IsConsistent (disconnect_one r p) ps u.1
      (unfold disconnect_one in AllReady-insert p r.ready_map ps u.0 a.1)
      (disconnect_one-IsConsistent r p a.0 v)

contains-head : (p : Text) (ps : List Text) → contains (p ∷ ps) p ≡ true
unfolding contains
contains-head p ps = ground (arith, same_iff p p)

contains-tail :
    (p : Text) (ps : List Text) (q : Text) → contains ps q ≡ true → contains (p ∷ ps) q ≡ true
unfolding contains
contains-tail p ps q h = ground arith

AllReady-sub :
    (m : List (Text × Bool)) (ps : List Text)
    → Distinct m
    → ((q : Text) → contains ps q ≡ true → contains (ready_peers m) q ≡ true)
    → AllReady m ps
AllReady-sub m [] d h = tt
AllReady-sub m (p ∷ ps) d h = (
  ground (arith, h p (contains-head p ps), contains-ready_peers m p d),
  AllReady-sub m ps d (λ q k. h q (contains-tail p ps q k)),
)

missing-AllReady :
    (m : List (Text × Bool)) (ps : List Text)
    → Distinct m
    → AllReady m (difference (ready_peers m) ps)
missing-AllReady m ps d =
    AllReady-sub m (difference (ready_peers m) ps) d
      λ q k. ground (arith, contains-difference (ready_peers m) ps q)

drop_missing-IsConsistent :
    (r : Registry) (ps : List Text) → IsConsistent r → IsConsistent (drop_missing r ps).0
unfolding drop_missing
drop_missing-IsConsistent r ps v = ground (
  arith,
  disconnect_each-IsConsistent (record r { ready = false })
      (difference (ready_peers r.ready_map) ps)
      (difference-Unique (ready_peers r.ready_map) ps (ready_peers-Unique r.ready_map v.distinct))
      (missing-AllReady r.ready_map ps v.distinct)
      (record { counted = v.counted; distinct = v.distinct }),
)

-- Every tick, also one whose listing failed, keeps the counter in step with the map, and the map
-- free of duplicate keys.
pub watch_tick-IsConsistent :
    (r : Registry) (pairs : Option (List Text))
    → IsConsistent r
    → IsConsistent (watch_tick r pairs).0
unfolding watch_tick
watch_tick-IsConsistent r pairs v =
    let ps = get_ready_peers_from_kv_store r.node_id (or_nil pairs) in
    register_ready_pairs-IsConsistent (drop_missing r ps).0 ps (drop_missing-IsConsistent r ps v)

watch_peers_ready-IsConsistent :
    (r : Registry) (ticks : List (Option (List Text)))
    → IsConsistent r
    → IsConsistent (watch_peers_ready r ticks)
unfolding watch_peers_ready
watch_peers_ready-IsConsistent r [] v = v
watch_peers_ready-IsConsistent r (pairs ∷ ticks) v =
    watch_peers_ready-IsConsistent (watch_tick r pairs).0 ticks (watch_tick-IsConsistent r pairs v)

-- Every registry that ticks reach from a new one is consistent.
pub new_registry-watch_peers_ready-IsConsistent :
    (node_id : Text) (peers : List Text) (threshold : ℤ) (keys : List (Text × Text)) (r : Registry)
    (ticks : List (Option (List Text)))
    → new_registry node_id peers threshold keys ≡ some r
    → IsConsistent (watch_peers_ready r ticks)
new_registry-watch_peers_ready-IsConsistent node_id peers threshold keys r ticks made =
    watch_peers_ready-IsConsistent r ticks
      (new_registry-IsConsistent node_id peers threshold keys made)

count_of_IsConsistent :
    (r : Registry)
    → IsConsistent r
    → length (get_ready_peers_include_self r) < 2 ^ 63
    → get_ready_peers_count r ≡ pos (length (get_ready_peers_include_self r))
unfolding get_ready_peers_count get_ready_peers_include_self signed
count_of_IsConsistent r v h =
    ground (arith, length-append (ready_peers r.ready_map) (r.node_id ∷ []), v.counted)

-- Whatever the ticks of a new registry have listed, the count that it reports is the length of the
-- list of ready peers that it reports, itself included, as long as that fits 63 bits.
pub get_ready_peers_count-eq-length :
    (node_id : Text) (peers : List Text) (threshold : ℤ) (keys : List (Text × Text)) (r : Registry)
    (ticks : List (Option (List Text)))
    → new_registry node_id peers threshold keys ≡ some r
    → length (get_ready_peers_include_self (watch_peers_ready r ticks)) < 2 ^ 63
    → get_ready_peers_count (watch_peers_ready r ticks)
      ≡ pos (length (get_ready_peers_include_self (watch_peers_ready r ticks)))
get_ready_peers_count-eq-length node_id peers threshold keys r ticks made h =
    count_of_IsConsistent (watch_peers_ready r ticks)
      (new_registry-watch_peers_ready-IsConsistent node_id peers threshold keys r ticks made) h
