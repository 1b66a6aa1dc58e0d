-- ===== src/Tests/Wiring.antt =====
-- The message system, the timeouts, the rounds, the client and the configuration at concrete inputs.
use mpc_go.Common.{
  inl, ℕ, ◌≡◌, ◌≢◌, ◌⊎◌, ◌∷◌, ◌++◌, [], List, none, some, Text, true, false, refl, codes, arith,
  pos, same, lookup, same_iff,
}
use mpc_go.ErrorCode.{max_delivery_attempts, no_code}
use mpc_go.Messages.{SigningResponse, signing_message, raw, sig}
use mpc_go.Messaging.Direct.{
  Call, listens, unsubscribes, send_to_self, run_calls, new_nats_direct_messaging,
}
use mpc_go.Messaging.Broker.{with_retention_policy, with_max_age, new_jet_stream_broker}
use mpc_go.Messaging.Laws.{send_to_self-run_calls, AsksTheSame, new_jet_stream_broker-unused}
use mpc_go.TimeoutConsumer.{
  Advisory, ResponseJson, Enqueued, signing_response, new_timeout_consumer, handle_timeout,
  handle_signing_timeout, handle_deadline_exceeded, signing_timeout, signing_result_topic,
}
use mpc_go.TimeoutConsumer.Laws.{code_of, prefix_of, handle_deadline_exceeded-key}
use mpc_go.EventConsumer.{
  Surroundings, NatsMsg, begin_signing, compose_idempotent_key, handle_signing_event,
}
use mpc_go.Client.{Initiator, sent, with_signature, send_request, publish, sign_transaction}
use mpc_go.Client.Verified.{is_accepted, handle-sign_transaction}
use mpc_go.Configuration.{Config, App, load_config, new_event_consumer}
use mpc_go.Configuration.Laws.{IsLoaded, limits_of, load_config-IsLoaded}
use mpc_go.Tests.Initiators.{signing_request, initiator_json}
use mpc_go.Tests.Nodes.{node}
use mpc_go.Tests.Peers.{signatures, store_a}
use mpc_go.Tests.Requests.{message, fresh, surroundings_for}

abbrev calls : List (Call ℕ)
calls =
    listens true true 0 (codes "t") 7
    ∷ listens true false 1 (codes "t") 8
    ∷ unsubscribes 0
    ∷ listens true true 2 (codes "t") 9
    ∷ []

send_to_self-run_calls_example :
    send_to_self (codes "t") (run_calls calls new_nats_direct_messaging) ≡ some (7 ∷ 9 ∷ [])
unfolding same
send_to_self-run_calls_example = send_to_self-run_calls (codes "t") calls

new_jet_stream_broker-unused_example :
    AsksTheSame
      (new_jet_stream_broker (codes "s") [] (with_max_age (pos 9) ∷ with_retention_policy 2 ∷ []))
      (new_jet_stream_broker (codes "s") [] (with_max_age (pos 9) ∷ []))
new_jet_stream_broker-unused_example =
    new_jet_stream_broker-unused (codes "s") [] (with_max_age (pos 9) ∷ []) []
      (with_retention_policy 2) tt

abbrev request_read : SigningResponse
request_read = record {
  error_code = no_code;
  error_reason = [];
  is_timeout = false;
  wallet_id = codes "w";
  tx_id = codes "x";
  r = [];
  s = [];
  signature_recovery = [];
  signature = codes "ij";
}

abbrev responses : ResponseJson
responses = record {
  signing_json = λ _. some request_read;
  resharing_json = λ _. none;
  keygen_json = λ _. none;
}

abbrev advisory : Advisory
advisory = record { stream = codes "mpc-signing"; stream_seq = 4 }

abbrev timed_out : Enqueued
timed_out = record {
  topic = signing_result_topic;
  response = signing_response (record request_read {
    error_code = max_delivery_attempts;
    is_timeout = true;
    error_reason = signing_timeout;
  });
  idempotent_key = codes "x";
}

deadline_handled :
    handle_deadline_exceeded responses new_timeout_consumer
      (some advisory)
      (λ _ _. some (codes "j"))
    ≡ some timed_out
unfolding handle_deadline_exceeded new_timeout_consumer lookup same handle_timeout
    handle_signing_timeout
deadline_handled = refl

handle_deadline_exceeded-key_example :
    (code_of timed_out.response ≡ max_delivery_attempts)
    × (codes "x" ≢ compose_idempotent_key (codes "x") message (prefix_of timed_out.response))
handle_deadline_exceeded-key_example =
    handle_deadline_exceeded-key responses new_timeout_consumer (some advisory)
      (λ _ _. some (codes "j")) timed_out message (codes "x") deadline_handled (inl refl)

-- The signature alone stands for a request.
abbrev initiator : Initiator
initiator = record {
  payload_json = initiator_json;
  sign = λ payload. some (codes "i" ++ payload);
  message_json = λ m. some (sig m);
  is_published = λ _ _. true;
}

abbrev reads_signature : Surroundings
reads_signature = record (surroundings_for signing_request) {
  decode_signing = λ dat. some (record signing_request { signature = dat });
}

abbrev delivered : NatsMsg
delivered = record message { dat = codes "ij" }

sends :
    sign_transaction initiator signing_request ≡ sent (codes "mpc.signing_request.x") (codes "ij")
unfolding sign_transaction send_request publish raw sig with_signature
sends = refl

accepted :
    (payload signature : Text)
    → initiator.sign payload ≡ some signature
    → is_accepted signatures store_a payload signature ≡ true
accepted payload signature h = ground (arith, same_iff (codes "i" ++ payload) signature)

read_back :
    (signature : Text)
    → initiator.message_json (with_signature signature (signing_message signing_request))
      ≡ some delivered.dat
    → reads_signature.decode_signing delivered.dat
      ≡ some (record signing_request { signature = signature })
unfolding with_signature sig
read_back signature h = ground arith

handle-sign_transaction_example :
    (signature : Text) × (handle_signing_event reads_signature node store_a 7 delivered fresh fresh
      ≡ begin_signing reads_signature node store_a 7 delivered
          (record signing_request { signature = signature })
          fresh
          fresh)
handle-sign_transaction_example =
    handle-sign_transaction initiator reads_signature node store_a 7 fresh fresh
      (codes "mpc.signing_request.x") signing_request delivered refl accepted read_back sends

abbrev little : Config
little = record {
  environment = codes "production";
  badger_password = [];
  db_path = [];
  backup_dir = [];
  backup_enabled = true;
  backup_period_seconds = pos 0;
  event_initiator_algorithm = [];
  event_initiator_pub_key = codes "k";
  threshold = pos 2;
  max_concurrent_keygen = pos 0;
  max_concurrent_signing = pos 0;
  max_concurrent_resharing = pos 3;
  session_warm_up_delay_millis = pos 0;
}

abbrev nothing_loaded : App
nothing_loaded = none

load_config-IsLoaded_example :
    (load_config (some little) nothing_loaded ≡ (none, nothing_loaded))
    ⊎ ((cfg : Config) × (load_config (some little) nothing_loaded ≡ (some cfg, some cfg))
        × IsLoaded cfg
        × (new_event_consumer cfg ≡ limits_of cfg))
load_config-IsLoaded_example = load_config-IsLoaded (some little) nothing_loaded
