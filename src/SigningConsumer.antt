-- ===== src/SigningConsumer.antt =====
-- The consumer that takes signing requests off JetStream (pkg/eventconsumer/signing.go): it hands a
-- request to the event consumer and waits for the reply. The handler is the list of its effects.
pub mod Laws
use mpc_go.Common.{
  ◌++◌, ◌∷◌, ◌==◌, [], List, Option, none, some, Text, Bool, true, false, not, codes, decimal,
  if◌then◌else◌, length, ℤ, pos, leb_ℤ, ◌+ℤ◌,
}
use mpc_go.ErrorCode.{ErrorCode, unmarshal_failure, not_majority}
use mpc_go.Messages.{SigningMessage}
use mpc_go.Registry.{Registry, are_majority_ready, get_ready_peers_count}
use mpc_go.RequestConsumer.{
  JetstreamMsg, Effect, enqueued, ack, Delivery, build_idempotent_key, forward,
}
use mpc_go.EventConsumer.{
  SigningFailure, signing_result_prefix, signing_result_complete_topic, int_text,
}

pub record SigningConsumer : Type 0 where
  pub threshold : ℤ
  pub peer_registry : Registry

-- The constructor leaves the threshold at its zero value.
unfoldable pub new_signing_consumer : Registry → SigningConsumer
new_signing_consumer r = record { threshold = pos 0; peer_registry = r }

-- What a round of the wait finds: the context's end, cancelled or not, or the registry at a tick.
pub data Round : Type 0 where
  cancelled expired : Round
  ticked : Registry → Round

-- How the wait ends; `waiting` is that it has not ended.
pub data Waited : Type 0 where
  proceeds gave_up waiting : Waited

unfoldable pub wait_for_sufficient_peers : SigningConsumer → List Round → Waited
wait_for_sufficient_peers sc [] = waiting
wait_for_sufficient_peers sc (cancelled ∷ rounds) = proceeds
wait_for_sufficient_peers sc (expired ∷ rounds) = gave_up
wait_for_sufficient_peers sc (ticked r ∷ rounds) =
    let rest = wait_for_sufficient_peers sc rounds in
    if leb_ℤ (sc.threshold +ℤ pos 1) (get_ready_peers_count r) then proceeds else rest

unfoldable pub handle_signing_error :
    SigningMessage → ErrorCode → Text → Text → List (Effect SigningFailure)
handle_signing_error msg code error_text session_id =
    enqueued signing_result_complete_topic
      (record {
        error_code = code;
        error_reason = error_text;
        wallet_id = msg.wallet_id;
        tx_id = msg.tx_id;
      })
      (build_idempotent_key msg.tx_id session_id signing_result_prefix)
    ∷ []

abbrev pub mpc_sign_event : Text
mpc_sign_event = codes "mpc:signing"

abbrev pub shortage_text : SigningConsumer → Text
shortage_text sc =
    codes "not enough peers to process signing request: ready="
    ++ int_text (get_ready_peers_count sc.peer_registry)
    ++ codes ", required="
    ++ int_text (sc.threshold +ℤ pos 1)

unfoldable pub handle_signing_event :
    SigningConsumer → Delivery SigningMessage → JetstreamMsg → List (Effect SigningFailure)
handle_signing_event sc d m = elim d.decoded.1 [
  | some e ↦ handle_signing_error d.decoded.0 unmarshal_failure e m.session_id ++ ack ∷ []
  | none ↦
      if not (are_majority_ready sc.peer_registry)
      then handle_signing_error d.decoded.0 not_majority (shortage_text sc) m.session_id ++ ack ∷ []
      else forward mpc_sign_event d m
]
