-- ===== src/SigningConsumer/Laws.antt =====
-- What becomes of a delivery of a signing request (pkg/eventconsumer/signing.go), and how long a consumer
-- waits for peers.
use mpc_go.Common.{
  suc, true, false, refl, ◌&&◌, ◌==◌, leb_ℤ, pos, if◌then◌else◌, ◌<◌, ◌^◌, ◌≡◌, ◌∷◌, [], List,
  Option, some, Text, Bool, ◌+ℤ◌, length, length-append, ℤ, arith,
}
use mpc_go.Registry.{
  Registry, new_registry, watch_peers_ready, are_majority_ready, get_ready_peers_include_self,
  ready_peers,
}
use mpc_go.Registry.Count.{
  IsConsistent, get_ready_peers_count-eq-length, new_registry-watch_peers_ready-IsConsistent,
}
use mpc_go.Registry.Ready.{are_majority_ready_iff}
use mpc_go.Messages.{SigningMessage}
use mpc_go.EventConsumer.{SigningFailure}
use mpc_go.RequestConsumer.{JetstreamMsg, Delivery, Effect}
use mpc_go.RequestConsumer.Settled.{
  is_decoded, is_served, Settles, forward-Settles, answers, handed_on, forward-answers,
}
use mpc_go.SigningConsumer.{
  SigningConsumer, new_signing_consumer, Round, ticked, proceeds, wait_for_sufficient_peers,
  mpc_sign_event, handle_signing_error, handle_signing_event,
}

-- A majority is ready: the node and the peers that are marked ready are more than the registry's threshold,
-- and there are as many symmetric keys as such peers.
abbrev pub is_enough : Registry → Bool
is_enough r =
    leb_ℤ (r.threshold +ℤ pos 1) (pos (suc (length (ready_peers r.ready_map))))
    && (length r.identity_store == length (ready_peers r.ready_map))

are_majority_ready-is_enough :
    (r : Registry)
    → IsConsistent r
    → suc (length (ready_peers r.ready_map)) < 2 ^ 63
    → are_majority_ready r ≡ is_enough r
are_majority_ready-is_enough r v h = ground (arith, are_majority_ready_iff r v h)

-- What becomes of a delivery, given whether the request decodes and a majority is ready: if not, it is
-- answered with one failure and acknowledged, though nothing is signed; if so, it is handed on once, if
-- the reply inbox can be subscribed, and acknowledged if a reply comes in time, and refused otherwise.
abbrev pub IsHandled : Bool → Delivery SigningMessage → List (Effect SigningFailure) → Type 0
IsHandled true d es =
    (answers es ≡ 0)
    × (handed_on es ≡ (if d.is_subscribed then 1 else 0))
    × Settles es (is_served d)
IsHandled false d es = (answers es ≡ 1) × (handed_on es ≡ 0) × Settles es true

handled :
    (sc : SigningConsumer) (d : Delivery SigningMessage) (m : JetstreamMsg) (decodes enough : Bool)
    → is_decoded d.decoded.1 ≡ decodes
    → are_majority_ready sc.peer_registry ≡ enough
    → IsHandled (decodes && enough) d (handle_signing_event sc d m)
unfolding handle_signing_event handle_signing_error
handled sc d m true true e f = ground (
  arith,
  forward-Settles SigningMessage SigningFailure mpc_sign_event d m,
  forward-answers SigningMessage SigningFailure mpc_sign_event d m,
)
handled sc d m true false e f = ground arith
handled sc d m false enough e f = ground arith

-- A delivery to a consumer whose registry has seen any ticks. If the request decodes and a majority is
-- ready, nothing is answered, the request is handed on if its reply inbox can be subscribed, and the
-- delivery gets one acknowledgement if a reply comes in time and else one refusal. Otherwise one failure
-- is answered, nothing is handed on, and the delivery gets one acknowledgement.
pub handle_signing_event-IsHandled :
    (node_id : Text) (peers : List Text) (threshold required : ℤ) (keys : List (Text × Text))
    (r : Registry) (ticks : List (Option (List Text))) (d : Delivery SigningMessage)
    (m : JetstreamMsg)
    → new_registry node_id peers threshold keys ≡ some r
    → suc (length (ready_peers (watch_peers_ready r ticks).ready_map)) < 2 ^ 63
    → IsHandled (is_decoded d.decoded.1 && is_enough (watch_peers_ready r ticks)) d (
        handle_signing_event
          (record { threshold = required; peer_registry = watch_peers_ready r ticks })
          d
          m)
handle_signing_event-IsHandled node_id peers threshold required keys r ticks d m made h =
    handled (record { threshold = required; peer_registry = watch_peers_ready r ticks }) d m _ _
      refl
      (are_majority_ready-is_enough (watch_peers_ready r ticks)
        (new_registry-watch_peers_ready-IsConsistent node_id peers threshold keys r ticks made) h)

-- A registry lists its own node.
self_listed : (r : Registry) → 0 < length (get_ready_peers_include_self r)
unfolding get_ready_peers_include_self
self_listed r = omega (arith, length-append (ready_peers r.ready_map) (r.node_id ∷ []))

-- A consumer as it is made waits for one ready peer: the node itself is one, so the wait ends at the
-- first tick, whatever the ticks of a new registry have listed and whatever its threshold is, as long
-- as the number of peers fits 63 bits.
pub wait-new_signing_consumer :
    (node_id : Text) (peers : List Text) (threshold : ℤ) (keys : List (Text × Text)) (r : Registry)
    (ticks : List (Option (List Text))) (rounds : List Round)
    → new_registry node_id peers threshold keys ≡ some r
    → length (get_ready_peers_include_self (watch_peers_ready r ticks)) < 2 ^ 63
    → wait_for_sufficient_peers
        (new_signing_consumer (watch_peers_ready r ticks))
        (ticked (watch_peers_ready r ticks) ∷ rounds)
      ≡ proceeds
unfolding wait_for_sufficient_peers new_signing_consumer ◌+ℤ◌
wait-new_signing_consumer node_id peers threshold keys r ticks rounds made h = ground (
  arith,
  get_ready_peers_count-eq-length node_id peers threshold keys r ticks made h,
  self_listed (watch_peers_ready r ticks),
)
