-- ===== src/TimeoutConsumer.antt =====
-- The consumer of the server's advisories that a request was delivered too often
-- (pkg/eventconsumer/timeout.go): it publishes a failure in place of the request's result.
pub mod Laws
use mpc_go.Common.{ℕ, ◌∷◌, [], List, Option, none, some, Text, true, codes, lookup}
use mpc_go.ErrorCode.{max_delivery_attempts}
use mpc_go.Messages.{KeygenResponse, SigningResponse, ResharingResponse}

-- The stream handlers.
pub data StreamHandler : Type 0 where
  signing resharing keygen : StreamHandler

-- The advisory's fields that are read.
pub record Advisory : Type 0 where
  pub stream : Text
  pub stream_seq : ℕ

-- A result that is enqueued.
pub data Response : Type 0 where
  signing_response : SigningResponse → Response
  resharing_response : ResharingResponse → Response
  keygen_response : KeygenResponse → Response

-- What is enqueued: the topic, the result, and the idempotent key.
pub record Enqueued : Type 0 where
  pub topic : Text
  pub response : Response
  pub idempotent_key : Text

-- JSON: a request's bytes read as a result of its kind, `none` if that fails.
pub record ResponseJson : Type 0 where
  pub signing_json : Text → Option SigningResponse
  pub resharing_json : Text → Option ResharingResponse
  pub keygen_json : Text → Option KeygenResponse

abbrev pub signing_timeout : Text
signing_timeout = codes "Signing failed: maximum delivery attempts exceeded"

abbrev pub resharing_timeout : Text
resharing_timeout = codes "Resharing failed: maximum delivery attempts exceeded"

abbrev pub keygen_timeout : Text
keygen_timeout = codes "Keygen failed: maximum delivery attempts exceeded"

abbrev pub signing_result_topic : Text
signing_result_topic = codes "mpc.mpc_signing_result.*"

abbrev pub resharing_result_topic : Text
resharing_result_topic = codes "mpc.mpc_resharing_result.*"

abbrev pub keygen_result_topic : Text
keygen_result_topic = codes "mpc.mpc_keygen_result.*"

unfoldable pub handle_signing_timeout : ResponseJson → Text → Option Enqueued
handle_signing_timeout j dat = elim (j.signing_json dat) [
  | none ↦ none
  | some response ↦ some (record {
    topic = signing_result_topic;
    response = signing_response (record response {
      error_code = max_delivery_attempts;
      is_timeout = true;
      error_reason = signing_timeout;
    });
    idempotent_key = response.tx_id;
  })
]

unfoldable pub handle_resharing_timeout : ResponseJson → Text → Option Enqueued
handle_resharing_timeout j dat = elim (j.resharing_json dat) [
  | none ↦ none
  | some response ↦ some (record {
    topic = resharing_result_topic;
    response =
        resharing_response (record response {
          error_code = max_delivery_attempts;
          error_reason = resharing_timeout;
        });
    idempotent_key = response.wallet_id;
  })
]

unfoldable pub handle_keygen_timeout : ResponseJson → Text → Option Enqueued
handle_keygen_timeout j dat = elim (j.keygen_json dat) [
  | none ↦ none
  | some response ↦ some (record {
    topic = keygen_result_topic;
    response =
        keygen_response
          (record response { error_code = max_delivery_attempts; error_reason = keygen_timeout });
    idempotent_key = response.wallet_id;
  })
]

unfoldable pub handle_timeout : ResponseJson → StreamHandler → Text → Option Enqueued
handle_timeout j signing dat = handle_signing_timeout j dat
handle_timeout j resharing dat = handle_resharing_timeout j dat
handle_timeout j keygen dat = handle_keygen_timeout j dat

-- The map from streams to handlers.
unfoldable pub new_timeout_consumer : List (Text × StreamHandler)
new_timeout_consumer =
    (codes "mpc-signing", signing)
    ∷ (codes "mpc-resharing", resharing)
    ∷ (codes "mpc-keygen", keygen)
    ∷ []

-- The arguments are the advisory, if it decodes, and the server's `GetMsg`.
unfoldable pub handle_deadline_exceeded :
    ResponseJson
    → List (Text × StreamHandler)
    → Option Advisory
    → (Text → ℕ → Option Text)
    → Option Enqueued
handle_deadline_exceeded j handlers none get_msg = none
handle_deadline_exceeded j handlers (some a) get_msg = elim (lookup a.stream handlers) [
  | none ↦ none
  | some handler ↦ elim (get_msg a.stream a.stream_seq) [
    | none ↦ none
    | some dat ↦ handle_timeout j handler dat
  ]
]
