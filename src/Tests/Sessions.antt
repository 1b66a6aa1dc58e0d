-- ===== src/Tests/Sessions.antt =====
-- Key generations and resharings that run, and their requests at a node.
use mpc_go.Common.{
  ◌≡◌, ◌≤◌, ◌⊎◌, ◌∷◌, ◌++◌, ◌&&◌, ◌+◌, same, [], List, Option, none, some, Text, true, false, not,
  refl, codes, arith, pos, All, contains,
}
use mpc_go.Party.Laws.{IsNodeId}
use mpc_go.Messages.{KeygenMessage, KeygenResponse, ResharingMessage, ResharingResponse}
use mpc_go.Identity.Store.{IdentityError}
use mpc_go.Registry.{get_ready_peers_include_self, ready_peers}
use mpc_go.Node.{session_ecdsa, get_ready_peers_for_session}
use mpc_go.Node.Signing.{ready_participants}
use mpc_go.EventConsumer.{Effect, enqueued_success, send_reply_to_remove_msg}
use mpc_go.EventConsumer.Running.{failures}
use mpc_go.EventConsumer.Keygen.{
  handle_key_gen_event, generate_wallet_result_prefix, compose_keygen_idempotent_key,
}
use mpc_go.EventConsumer.Keygen.Running.{
  KeygenRun, Side, ended, broke, begun, ecdsa_goes, eddsa_goes, expires, publishes, generates, ends,
  KeygenRuns, rests, goes, success_response,
}
use mpc_go.EventConsumer.Keygen.Laws.{successes, KeygenRuns-exclusive}
use mpc_go.EventConsumer.Keygen.Ending.{Stands, KeygenRuns-Stands}
use mpc_go.EventConsumer.Keygen.Keys.{Carries, KeygenRuns-Carries}
use mpc_go.EventConsumer.Keygen.Requests.{Decided, handle_key_gen_event-Decided}
use mpc_go.EventConsumer.Resharing.{
  handle_resharing_event, handle_resharing_session_error, get_legacy_committee_peers,
}
use mpc_go.EventConsumer.Resharing.Running as Resharings
use mpc_go.EventConsumer.Resharing.Running.{
  ResharingRun, ResharingRuns, waiting, published, old_goes, new_goes, final_effects, old_context,
}
use mpc_go.EventConsumer.Resharing.Laws.{
  starting, side_broken, unpublished_count, published_count, ResharingRuns-counts,
}
use mpc_go.EventConsumer.Resharing.Requests.{
  Decided as DecidedResharing, handle_resharing_event-Decided,
}
use mpc_go.EventConsumer.Resharing.Committees.{legacy-create_resharing_session}
use mpc_go.Tests.Nodes.{
  node, unsorted, no_uuid, wallet, everyone, reshared, reshared_made, old_known,
}
use mpc_go.Tests.Peers.{store_a}
use mpc_go.Tests.Initiators.{signing_request}
use mpc_go.Tests.Requests.{message, surroundings_for}

-- Both curves generate and end, and the result is published.
abbrev side_of : Text → Side
side_of key = record {
  watch = ended;
  generated = true;
  cancelled = true;
  pub_key = key;
  response_key = key;
}

abbrev both_ended : KeygenRun
both_ended = record {
  ecdsa = side_of (codes "K");
  eddsa = side_of (codes "L");
  expired = false;
  waiting = true;
}

abbrev keygen_effects : List (Effect KeygenResponse KeygenResponse)
keygen_effects =
    []
    ++ ([]
        ++ ([]
            ++ ([]
                ++ ((enqueued_success (generate_wallet_result_prefix ++ codes "w")
                        (success_response (codes "w") both_ended)
                        (compose_keygen_idempotent_key (codes "w") message)
                      ∷ send_reply_to_remove_msg message)
                    ++ []))))

keygen_runs :
    KeygenRuns message (codes "w") begun keygen_effects (record both_ended { waiting = false })
keygen_runs = goes (ecdsa_goes (generates (codes "K") refl)) (
    goes (ecdsa_goes (ends refl refl)) (
      goes (eddsa_goes (generates (codes "L") refl))
        (goes (eddsa_goes (ends refl refl)) (goes (publishes refl refl refl) rests))))

-- One session has ended, the other never does, and the deadline has passed.
abbrev overdue : KeygenRun
overdue = record begun { ecdsa = side_of (codes "K"); expired = true }

gets_overdue : KeygenRuns message (codes "w") begun [] overdue
gets_overdue =
    goes (ecdsa_goes (generates (codes "K") refl))
      (goes (ecdsa_goes (ends refl refl)) (goes (expires refl) rests))

KeygenRuns-Stands_example : Stands message (codes "w") true true overdue
KeygenRuns-Stands_example = KeygenRuns-Stands message (codes "w") overdue [] gets_overdue

KeygenRuns-exclusive_example :
    (failures keygen_effects ≤ 3)
    × ((successes keygen_effects ≡ 0)
        ⊎ ((successes keygen_effects ≡ 1) × (failures keygen_effects ≡ 0)))
KeygenRuns-exclusive_example =
    KeygenRuns-exclusive message (codes "w") (record both_ended { waiting = false }) keygen_effects
      keygen_runs

KeygenRuns-Carries_example : All (Carries (record both_ended { waiting = false })) keygen_effects
KeygenRuns-Carries_example =
    KeygenRuns-Carries message (codes "w") (record both_ended { waiting = false }) keygen_effects
      keygen_runs refl

-- Past the deadline a success may go out with no keys at all.
abbrev empty_side : Side
empty_side = record (side_of []) { generated = false; cancelled = false }

abbrev late : KeygenRun
late = record { ecdsa = empty_side; eddsa = empty_side; expired = true; waiting = true }

late_success :
    KeygenRuns message
      (codes "w")
      begun
      ([]
        ++ ([]
            ++ ([]
                ++ ((enqueued_success
                        (generate_wallet_result_prefix ++ codes "w")
                        (success_response (codes "w") late)
                        (compose_keygen_idempotent_key (codes "w") message)
                      ∷ send_reply_to_remove_msg message)
                    ++ []))))
      (record late { waiting = false })
late_success = goes (expires refl) (
    goes (ecdsa_goes (ends refl refl))
      (goes (eddsa_goes (ends refl refl)) (goes (publishes refl refl refl) rests)))

abbrev decode_keygen : Text → KeygenMessage × Option Text
decode_keygen dat = (record { wallet_id = codes "new"; signature = codes "inew" }, none)

abbrev identity_text : IdentityError → Text
identity_text e = codes "invalid signature from initiator"

handle_key_gen_event-Decided_example :
    Decided
      (surroundings_for signing_request)
      decode_keygen
      identity_text
      node
      store_a
      (pos 1)
      message
      (handle_key_gen_event
        (surroundings_for signing_request)
        decode_keygen
        identity_text
        node
        store_a
        (pos 1)
        message)
handle_key_gen_event-Decided_example =
    handle_key_gen_event-Decided (surroundings_for signing_request) decode_keygen identity_text node
      store_a (pos 1) message

abbrev resharing_request : ResharingMessage
resharing_request = record {
  session_id = codes "s";
  node_ids = everyone;
  new_threshold = pos 2;
  key_type = codes "secp256k1";
  wallet_id = codes "w";
  signature = codes "ij";
}

-- The old session fails, the new one reshares, and a result is published all the same.
abbrev failed_side : Side
failed_side = record {
  watch = broke;
  generated = false;
  cancelled = true;
  pub_key = [];
  response_key = [];
}

abbrev one_failed : ResharingRun
one_failed = record { old = some failed_side; new = some (side_of (codes "K")); stage = waiting }

abbrev resharing_effects : List (Effect ResharingResponse ResharingResponse)
resharing_effects =
    handle_resharing_session_error resharing_request (codes "timed out") old_context message
    ++ ([] ++ ([] ++ (final_effects message resharing_request one_failed one_failed.new ++ [])))

resharing_runs :
    ResharingRuns message resharing_request
      (record { old = starting true; new = starting true; stage = waiting })
      resharing_effects
      (record one_failed { stage = published })
resharing_runs = Resharings.goes (old_goes refl (Resharings.fails (codes "timed out") refl)) (
    Resharings.goes (new_goes refl (Resharings.reshares (codes "K") refl)) (
      Resharings.goes (new_goes refl (Resharings.ends refl refl))
        (Resharings.goes (Resharings.publishes refl refl refl) Resharings.rests)))

ResharingRuns-counts_example :
    (failures resharing_effects
      ≡ side_broken (some failed_side) + side_broken one_failed.new + unpublished_count published)
    × (successes resharing_effects ≡ published_count published one_failed.new)
ResharingRuns-counts_example =
    ResharingRuns-counts message resharing_request true true
      (record one_failed { stage = published }) resharing_effects resharing_runs

abbrev decode_resharing : Text → ResharingMessage × Option Text
decode_resharing dat = (resharing_request, none)

handle_resharing_event-Decided_example :
    DecidedResharing
      (surroundings_for signing_request)
      decode_resharing
      identity_text
      node
      store_a
      message
      (handle_resharing_event
        (surroundings_for signing_request)
        decode_resharing
        identity_text
        node
        store_a
        message).effects
      (handle_resharing_event
        (surroundings_for signing_request)
        decode_resharing
        identity_text
        node
        store_a
        message).started
handle_resharing_event-Decided_example =
    handle_resharing_event-Decided (surroundings_for signing_request) decode_resharing identity_text
      node store_a message

named : All IsNodeId (ready_participants node wallet)
unfolding get_ready_peers_for_session get_ready_peers_include_self ready_peers contains same
named = omega arith

legacy-create_resharing_session_example :
    contains (get_legacy_committee_peers reshared) (codes "node1") ≡ (
      contains everyone (codes "node1")
      && contains (get_ready_peers_include_self node.peer_registry) (codes "node1")
      && not (contains everyone (codes "node1")))
legacy-create_resharing_session_example =
    legacy-create_resharing_session unsorted no_uuid node session_ecdsa (codes "w") (pos 2) everyone
      true wallet reshared (λ ps q. refl) named old_known reshared_made (codes "node1")
