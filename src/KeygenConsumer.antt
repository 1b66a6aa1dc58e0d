-- ===== src/KeygenConsumer.antt =====
-- The consumer that takes keygen requests off JetStream (pkg/eventconsumer/keygen.go).
pub mod Laws
use mpc_go.Common.{◌++◌, ◌∷◌, [], List, Option, none, some, Text, Bool, not, codes, if◌then◌else◌}
use mpc_go.ErrorCode.{ErrorCode, unmarshal_failure, cluster_not_ready}
use mpc_go.Messages.{KeygenMessage, KeygenResponse}
use mpc_go.Registry.{Registry, are_peers_ready}
use mpc_go.RequestConsumer.{
  JetstreamMsg, Effect, enqueued, ack, Delivery, build_idempotent_key, forward,
}
use mpc_go.SigningConsumer.{Round, cancelled, expired, ticked, Waited, proceeds, gave_up, waiting}
use mpc_go.EventConsumer.Keygen.{generate_wallet_result_prefix}

-- Its state is the peer registry.
unfoldable pub wait_for_sufficient_peers : List Round → Waited
wait_for_sufficient_peers [] = waiting
wait_for_sufficient_peers (cancelled ∷ rounds) = proceeds
wait_for_sufficient_peers (expired ∷ rounds) = gave_up
wait_for_sufficient_peers (ticked r ∷ rounds) =
    let rest = wait_for_sufficient_peers rounds in if are_peers_ready r then proceeds else rest

abbrev pub mpc_generate_event : Text
mpc_generate_event = codes "mpc:generate"

unfoldable pub handle_keygen_error :
    KeygenMessage → ErrorCode → Text → Text → List (Effect KeygenResponse)
handle_keygen_error msg code error_text session_id =
    enqueued (generate_wallet_result_prefix ++ msg.wallet_id)
      (record {
        wallet_id = msg.wallet_id;
        ecdsa_pub_key = [];
        eddsa_pub_key = [];
        error_code = code;
        error_reason = error_text;
      })
      (build_idempotent_key msg.wallet_id session_id generate_wallet_result_prefix)
    ∷ []

unfoldable pub handle_keygen_event :
    Registry → Delivery KeygenMessage → JetstreamMsg → List (Effect KeygenResponse)
handle_keygen_event r d m = elim d.decoded.1 [
  | some e ↦ handle_keygen_error d.decoded.0 unmarshal_failure e m.session_id ++ ack ∷ []
  | none ↦
      if not (are_peers_ready r)
      then handle_keygen_error d.decoded.0 cluster_not_ready (codes "not all peers are ready")
          m.session_id
        ++ ack ∷ []
      else forward mpc_generate_event d m
]
