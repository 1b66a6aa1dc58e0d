-- ===== src/ResharingConsumer.antt =====
-- The consumer that takes resharing requests off JetStream (pkg/eventconsumer/resharing.go). It does not
-- ask the peer registry.
pub mod Laws
use mpc_go.Common.{◌++◌, ◌∷◌, [], List, Option, none, some, Text, codes}
use mpc_go.ErrorCode.{ErrorCode, unmarshal_failure}
use mpc_go.Messages.{ResharingMessage, ResharingResponse}
use mpc_go.RequestConsumer.{
  JetstreamMsg, Effect, enqueued, ack, Delivery, build_idempotent_key, forward,
}
use mpc_go.EventConsumer.Resharing.{resharing_wallet_result_prefix}

abbrev pub mpc_resharing_event : Text
mpc_resharing_event = codes "mpc:resharing"

abbrev pub resharing_result_complete_topic : Text
resharing_result_complete_topic = codes "mpc.mpc_resharing_result.complete"

unfoldable pub handle_resharing_error :
    ResharingMessage → ErrorCode → Text → Text → List (Effect ResharingResponse)
handle_resharing_error msg code error_text session_id =
    enqueued resharing_result_complete_topic
      (record {
        wallet_id = msg.wallet_id;
        new_threshold = msg.new_threshold;
        key_type = msg.key_type;
        pub_key = [];
        error_code = code;
        error_reason = error_text;
      })
      (build_idempotent_key msg.wallet_id session_id resharing_wallet_result_prefix)
    ∷ []

unfoldable pub handle_resharing_event :
    Delivery ResharingMessage → JetstreamMsg → List (Effect ResharingResponse)
handle_resharing_event d m = elim d.decoded.1 [
  | some e ↦ handle_resharing_error d.decoded.0 unmarshal_failure e m.session_id ++ ack ∷ []
  | none ↦ forward mpc_resharing_event d m
]
