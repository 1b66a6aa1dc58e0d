-- ===== src/Tests/Requests.antt =====
-- A signing request at a node with two ready peers.
use mpc_go.Common.{
  subst, sym, ◌+ℤ◌, ◌≡◌, ◌≤◌, ◌∷◌, ◌++◌, [], List, none, some, true, false, Text, refl, codes,
  arith, same, lookup, pos, All, contains, ◌+ℤ◌,
}
use mpc_go.Messages.{SigningMessage}
use mpc_go.Session.{Manager, new_manager, has_session}
use mpc_go.Session.{starts, add_session, cleanup_stale_sessions}
use mpc_go.Session.Meanwhile.{Meanwhile, nothing, adds, cleans}
use mpc_go.EventConsumer.{
  NatsMsg, SigningFailure, Effect, answered, Surroundings, handle_signing_event, begin_signing,
  init_and_start, handle_signing_session_error, duplicate_text,
  compose_signing_result_idempotent_key, session_type_from_key_type, send_reply_to_remove_msg,
  enqueued_success, signing_result_complete_topic,
}
use mpc_go.EventConsumer.Signing.{Began, handle_signing_event-started, handle_signing_event-again}
use mpc_go.EventConsumer.Running.{
  begun, Runs, fails, signs, rests, goes, failures, Runs-failures, HasKey, Runs-HasKey,
}
use mpc_go.Node.{get_ready_peers_for_session}
use mpc_go.Node.Initialise.{init_signing_session, init_with_key_info}
use mpc_go.KeyInfo.{get, compose_store_key}
use mpc_go.Topic.{compose_key}
use mpc_go.Registry.{get_ready_peers_include_self, ready_peers}
use mpc_go.Tests.Nodes.{all_shares, node, unsorted, no_uuid, signed_session, session_made}
use mpc_go.Tests.Peers.{store_a, signatures}
use mpc_go.Tests.Initiators.{signing_request, initiator_json, request_passes}

abbrev pub surroundings_for : SigningMessage → Surroundings
surroundings_for msg = record {
  sort_party_ids = unsorted;
  uuid = no_uuid;
  decode_signing = λ _. some msg;
  initiator_json = initiator_json;
  signatures = signatures;
  store_error = codes "failed to get key info";
  shares = all_shares;
  share_error = codes "Key not found";
  json_error = codes "bad";
}

abbrev pub message : NatsMsg
message = record { dat = codes "j"; reply = codes "inbox"; session_id = codes "s" }

abbrev redelivered : NatsMsg
redelivered = record message { session_id = codes "r" }

abbrev pub fresh : Manager
fresh = new_manager (pos 5) (pos 30)

abbrev key : Text
key = compose_signing_result_idempotent_key (codes "x") message

initialises : init_signing_session all_shares node signed_session ≡ none
unfolding init_signing_session init_with_key_info get compose_store_key lookup compose_key same
    get_ready_peers_for_session get_ready_peers_include_self ready_peers contains ◌+ℤ◌
initialises = refl

unknown_yet : has_session (codes "w") (codes "x") fresh ≡ false
unfolding has_session lookup new_manager
unknown_yet = refl

begins :
    (handle_signing_event
      (surroundings_for signing_request)
      node
      store_a
      7
      message
      fresh
      fresh).started
    ≡ some (signed_session, key)
unfolding handle_signing_event begin_signing init_and_start session_type_from_key_type same
begins = ground (arith, request_passes, session_made, unknown_yet, initialises)

handle_signing_event-started_example :
    (msg : SigningMessage) × Began
      (surroundings_for signing_request)
      node
      store_a
      7
      message
      fresh
      fresh
      signed_session
      key
      msg
handle_signing_event-started_example =
    handle_signing_event-started (surroundings_for signing_request) node store_a 7 message fresh
      fresh signed_session key begins

-- Another session is added and a cleanup comes after the first one has begun.
abbrev known : Manager
known =
    cleanup_stale_sessions 30
      (add_session 8 (codes "v") (codes "y") (add_session 7 (codes "w") (codes "x") fresh))

kept_known :
    Meanwhile 7 37
      (handle_signing_event
        (surroundings_for signing_request)
        node
        store_a
        7
        message
        fresh
        fresh).manager
      known
unfolding handle_signing_event begin_signing init_and_start session_type_from_key_type same
kept_known =
    let e : (handle_signing_event (surroundings_for signing_request) node store_a 7 message fresh
          fresh).manager
        ≡ add_session 7 (codes "w") (codes "x") fresh =
      ground (arith, request_passes, session_made, unknown_yet, initialises) in
    subst (λ (k : Manager). Meanwhile 7 37 k known) (sym e)
      (adds 8 (codes "v") (codes "y") (omega arith) (omega arith) (cleans 30 (omega arith) nothing))

handle_signing_event-again_example :
    (msg : SigningMessage) × ((surroundings_for signing_request).decode_signing message.dat
      ≡ some msg)
    × (handle_signing_event
          (surroundings_for signing_request)
          node
          store_a
          31
          redelivered
          known
          fresh
        ≡ answered fresh (
            handle_signing_session_error msg.wallet_id msg.tx_id
              (duplicate_text msg)
              (codes "Duplicate session")
              redelivered))
handle_signing_event-again_example =
    handle_signing_event-again (surroundings_for signing_request) node store_a 7 31 37 message
      redelivered fresh fresh known fresh signed_session key (starts (pos 5) (pos 30)) begins refl
      (omega arith) (omega arith) (unfold new_manager ◌+ℤ◌ in omega arith) kept_known

-- Two handlers of the same request that both ask the manager before either adds its session both begin
-- one.
begins_twice :
    (handle_signing_event
      (surroundings_for signing_request)
      node
      store_a
      9
      redelivered
      fresh
      (add_session 7 (codes "w") (codes "x") fresh)).started
    ≡ some (signed_session, compose_signing_result_idempotent_key (codes "x") redelivered)
unfolding handle_signing_event begin_signing init_and_start session_type_from_key_type same
begins_twice = ground (arith, request_passes, session_made, unknown_yet, initialises)

-- An error and a success of the same session.
abbrev both : List (Effect SigningFailure Text)
both =
    handle_signing_session_error (codes "w") (codes "x") (codes "timed out")
      (codes "Failed to sign tx") message
    ++ ((enqueued_success signing_result_complete_topic (codes "rs")
            (compose_signing_result_idempotent_key (codes "x") message)
          ∷ send_reply_to_remove_msg message)
        ++ [])

error_then_success :
    Runs key message signing_request begun both (record { watching = false; done = true })
error_then_success = goes (fails (codes "timed out") refl) (goes (signs (codes "rs") refl) rests)

Runs-failures_example : failures both ≤ 1
Runs-failures_example =
    Runs-failures key message signing_request (record { watching = false; done = true }) both
      error_then_success

Runs-HasKey_example : All (HasKey key) both
Runs-HasKey_example =
    Runs-HasKey (surroundings_for signing_request) node store_a 7 message fresh fresh signed_session
      key signing_request (record { watching = false; done = true }) both begins refl
      error_then_success
