-- ===== src/EventConsumer/Keygen/Running.antt =====
-- A key generation that has begun (`handleKeyGenEvent` of pkg/eventconsumer/event.go, with `GenerateKey`
-- of pkg/mpc/ecdsa/keygen.go and pkg/mpc/eddsa/keygen.go): the two goroutines that generate, the two
-- that wait for an error or for the end, the deadline and the handler itself. Their interleavings are
-- the steps of a relation.
use mpc_go.Common.{◌≡◌, ◌⊎◌, ◌∷◌, ◌++◌, [], List, Text, Bool, true, false, codes, ◌||◌}
use mpc_go.ErrorCode.{no_code}
use mpc_go.Messages.{KeygenResponse}
use mpc_go.EventConsumer.{NatsMsg, Effect, enqueued_success, send_reply_to_remove_msg}
use mpc_go.EventConsumer.Keygen.{
  generate_wallet_result_prefix, compose_keygen_idempotent_key, handle_keygen_session_error,
}

-- Whether a goroutine still waits, and how its wait ended.
pub data Watch : Type 0 where
  watching ended broke : Watch

-- One curve: what waits for it, whether its key has been generated, whether its context is cancelled,
-- the session's public key, and the key that the response has of it.
pub record Side : Type 0 where
  pub watch : Watch
  pub generated : Bool
  pub cancelled : Bool
  pub pub_key : Text
  pub response_key : Text

pub record KeygenRun : Type 0 where
  pub ecdsa : Side
  pub eddsa : Side
  pub expired : Bool  -- the deadline of `baseCtx`
  pub waiting : Bool  -- the handler itself

abbrev pub fresh_side : Side
fresh_side = record {
  watch = watching;
  generated = false;
  cancelled = false;
  pub_key = [];
  response_key = [];
}

abbrev pub begun : KeygenRun
begun = record { ecdsa = fresh_side; eddsa = fresh_side; expired = false; waiting = true }

-- A session sets its key before it cancels the context. The wait ends if the context is cancelled or
-- past its deadline, and an error may be taken even then, since Go picks among the cases that are ready.
pub data SideStep (m : NatsMsg) (wallet_id context_msg : Text) (expired : Bool)
    : Side → List (Effect KeygenResponse KeygenResponse) → Side → Type 0 where
  generates :
      {s : Side} (key : Text)
      → s.generated ≡ false
      → SideStep m wallet_id context_msg expired s []
          (record s { generated = true; cancelled = true; pub_key = key })
  ends :
      {s : Side}
      → s.watch ≡ watching
      → (s.cancelled || expired) ≡ true
      → SideStep m wallet_id context_msg expired s []
          (record s { watch = ended; response_key = s.pub_key })
  fails :
      {s : Side} (error : Text)
      → s.watch ≡ watching
      → SideStep m wallet_id context_msg expired s
          (handle_keygen_session_error wallet_id error context_msg m)
          (record s { watch = broke; cancelled = true })

abbrev pub ecdsa_context : Text
ecdsa_context = codes "ECDSA keygen session error"

abbrev pub eddsa_context : Text
eddsa_context = codes "EdDSA keygen session error"

-- Why a success is not published.
pub data Unpublished : Type 0 where
  not_marshalled not_enqueued : Unpublished

abbrev pub publish_context : Unpublished → Text
publish_context not_marshalled = codes "Failed to marshal keygen success event"
publish_context not_enqueued = codes "Failed to publish key generation success message"

abbrev pub timeout_context : Text
timeout_context = codes "Key generation timed out"

abbrev pub timeout_error : Text
timeout_error = codes "keygen session timed out after 30s"

abbrev pub success_response : Text → KeygenRun → KeygenResponse
success_response wallet_id r = record {
  wallet_id = wallet_id;
  ecdsa_pub_key = r.ecdsa.response_key;
  eddsa_pub_key = r.eddsa.response_key;
  error_code = no_code;
  error_reason = [];
}

-- The handler goes on when neither goroutine waits or when the deadline has passed, and may take either
-- if both hold. An error that was reported ends it silently.
pub data KeygenStep (m : NatsMsg) (wallet_id : Text)
    : KeygenRun → List (Effect KeygenResponse KeygenResponse) → KeygenRun → Type 0 where
  ecdsa_goes :
      {r : KeygenRun} {es : List (Effect KeygenResponse KeygenResponse)} {s : Side}
      → SideStep m wallet_id ecdsa_context r.expired r.ecdsa es s
      → KeygenStep m wallet_id r es (record r { ecdsa = s })
  eddsa_goes :
      {r : KeygenRun} {es : List (Effect KeygenResponse KeygenResponse)} {s : Side}
      → SideStep m wallet_id eddsa_context r.expired r.eddsa es s
      → KeygenStep m wallet_id r es (record r { eddsa = s })
  expires :
      {r : KeygenRun}
      → r.expired ≡ false
      → KeygenStep m wallet_id r [] (record r { expired = true })
  publishes :
      {r : KeygenRun}
      → r.waiting ≡ true
      → r.ecdsa.watch ≡ ended
      → r.eddsa.watch ≡ ended
      → KeygenStep m wallet_id r
          (enqueued_success
              (generate_wallet_result_prefix ++ wallet_id)
              (success_response wallet_id r)
              (compose_keygen_idempotent_key wallet_id m)
            ∷ send_reply_to_remove_msg m)
          (record r { waiting = false })
  publish_fails :
      {r : KeygenRun} (cause : Unpublished) (error : Text)
      → r.waiting ≡ true
      → r.ecdsa.watch ≡ ended
      → r.eddsa.watch ≡ ended
      → KeygenStep m wallet_id r
          (handle_keygen_session_error wallet_id error (publish_context cause) m)
          (record r { waiting = false })
  stops :
      {r : KeygenRun}
      → r.waiting ≡ true
      → ((r.ecdsa.watch ≡ broke) × (r.eddsa.watch ≡ ended))
        ⊎ (((r.ecdsa.watch ≡ ended) × (r.eddsa.watch ≡ broke))
            ⊎ ((r.ecdsa.watch ≡ broke) × (r.eddsa.watch ≡ broke)))
      → KeygenStep m wallet_id r [] (record r { waiting = false })
  times_out :
      {r : KeygenRun}
      → r.waiting ≡ true
      → r.expired ≡ true
      → KeygenStep m wallet_id r
          (handle_keygen_session_error wallet_id timeout_error timeout_context m)
          (record r { waiting = false })

-- Any number of steps, with the count of them.
pub data KeygenRuns (m : NatsMsg) (wallet_id : Text)
    : KeygenRun → List (Effect KeygenResponse KeygenResponse) → KeygenRun → Type 0 where
  rests : {r : KeygenRun} → KeygenRuns m wallet_id r [] r
  goes :
      {r q p : KeygenRun} {es fs : List (Effect KeygenResponse KeygenResponse)}
      → KeygenStep m wallet_id r es q
      → KeygenRuns m wallet_id q fs p
      → KeygenRuns m wallet_id r (es ++ fs) p
