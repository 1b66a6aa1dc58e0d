-- ===== src/EventConsumer/Resharing/Running.antt =====
-- A resharing that has begun (`handleResharingEvent` of pkg/eventconsumer/event.go, with `Reshare` of
-- pkg/mpc/ecdsa/resharing.go and pkg/mpc/eddsa/resharing.go): the goroutines of the two sessions, those
-- that wait for them, and the handler that waits for all. There is no deadline.
use mpc_go.Common.{◌≡◌, ◌∷◌, ◌++◌, [], List, Option, none, some, Text, Bool, true, false, codes}
use mpc_go.ErrorCode.{no_code}
use mpc_go.Messages.{ResharingMessage, ResharingResponse}
use mpc_go.EventConsumer.{NatsMsg, Effect, enqueued_success, send_reply_to_remove_msg}
use mpc_go.EventConsumer.Keygen.Running.{
  Watch, watching, ended, broke, Side, Unpublished, not_marshalled, not_enqueued,
}
use mpc_go.EventConsumer.Resharing.{
  resharing_wallet_result_prefix, compose_resharing_result_idempotent_key,
  handle_resharing_session_error,
}

-- The handler waits, or its result was published or could not be.
pub data Stage : Type 0 where
  waiting published unpublished : Stage

-- `none` is a committee that the node is not in.
pub record ResharingRun : Type 0 where
  pub old : Option Side
  pub new : Option Side
  pub stage : Stage

pub data SideStep (m : NatsMsg) (msg : ResharingMessage) (context_msg : Text)
    : Side → List (Effect ResharingResponse ResharingResponse) → Side → Type 0 where
  reshares :
      {s : Side} (key : Text)
      → s.generated ≡ false
      → SideStep m msg context_msg s []
          (record s { generated = true; cancelled = true; pub_key = key })
  ends :
      {s : Side}
      → s.watch ≡ watching
      → s.cancelled ≡ true
      → SideStep m msg context_msg s [] (record s { watch = ended; response_key = s.pub_key })
  fails :
      {s : Side} (error : Text)
      → s.watch ≡ watching
      → SideStep m msg context_msg s
          (handle_resharing_session_error msg error context_msg m)
          (record s { watch = broke; cancelled = true })

abbrev pub is_over : Watch → Bool
is_over watching = false
is_over ended = true
is_over broke = true

abbrev pub side_over : Option Side → Bool
side_over none = true
side_over (some s) = is_over s.watch

abbrev pub response_key_of : Option Side → Text
response_key_of none = []
response_key_of (some s) = s.response_key

abbrev pub success_response : ResharingMessage → ResharingRun → ResharingResponse
success_response msg r = record {
  wallet_id = msg.wallet_id;
  new_threshold = msg.new_threshold;
  key_type = msg.key_type;
  pub_key = response_key_of r.new;
  error_code = no_code;
  error_reason = [];
}

-- What the handler does at the end, if publishing succeeds.
abbrev pub final_effects :
    NatsMsg
    → ResharingMessage
    → ResharingRun
    → Option Side
    → List (Effect ResharingResponse ResharingResponse)
final_effects m msg r none = send_reply_to_remove_msg m
final_effects m msg r (some new) =
    enqueued_success (resharing_wallet_result_prefix ++ msg.session_id) (success_response msg r)
      (compose_resharing_result_idempotent_key msg.session_id m)
    ∷ send_reply_to_remove_msg m

abbrev pub old_context : Text
old_context = codes "Old reshare session error"

abbrev pub new_context : Text
new_context = codes "New reshare session error"

abbrev pub publish_context : Unpublished → Text
publish_context not_marshalled = codes "Failed to marshal reshare success event"
publish_context not_enqueued = codes "Failed to publish reshare success message"

pub data ResharingStep (m : NatsMsg) (msg : ResharingMessage)
    : ResharingRun → List (Effect ResharingResponse ResharingResponse) → ResharingRun → Type 0 where
  old_goes :
      {r : ResharingRun} {es : List (Effect ResharingResponse ResharingResponse)} {s t : Side}
      → r.old ≡ some s
      → SideStep m msg old_context s es t
      → ResharingStep m msg r es (record r { old = some t })
  new_goes :
      {r : ResharingRun} {es : List (Effect ResharingResponse ResharingResponse)} {s t : Side}
      → r.new ≡ some s
      → SideStep m msg new_context s es t
      → ResharingStep m msg r es (record r { new = some t })
  publishes :
      {r : ResharingRun}
      → r.stage ≡ waiting
      → side_over r.old ≡ true
      → side_over r.new ≡ true
      → ResharingStep m msg r (final_effects m msg r r.new) (record r { stage = published })
  publish_fails :
      {r : ResharingRun} {s : Side} (cause : Unpublished) (error : Text)
      → r.stage ≡ waiting
      → side_over r.old ≡ true
      → r.new ≡ some s
      → is_over s.watch ≡ true
      → ResharingStep m msg r
          (handle_resharing_session_error msg error (publish_context cause) m)
          (record r { stage = unpublished })

pub data ResharingRuns (m : NatsMsg) (msg : ResharingMessage)
    : ResharingRun → List (Effect ResharingResponse ResharingResponse) → ResharingRun → Type 0 where
  rests : {r : ResharingRun} → ResharingRuns m msg r [] r
  goes :
      {r q p : ResharingRun} {es fs : List (Effect ResharingResponse ResharingResponse)}
      → ResharingStep m msg r es q
      → ResharingRuns m msg q fs p
      → ResharingRuns m msg r (es ++ fs) p
