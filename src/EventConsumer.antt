-- ===== src/EventConsumer.antt =====
-- The event consumer (pkg/eventconsumer/event.go): what its handlers share, and the handler of a signing
-- request, from the message to the session that it begins and what it answers. A handler is a function
-- from the session manager to the new one, the effects in their order, and the session that is running
-- afterwards.
pub mod Keys
pub mod Signing
pub mod Running
pub mod Keygen
pub mod Resharing
pub mod Workers
use mpc_go.Common.{
  ℕ, suc, ◌≡◌, ◌∷◌, ◌++◌, ◌==◌, [], List, Option, none, some, Text, Bool, true, false, not, same,
  codes, decimal, if◌then◌else◌, length, ℤ, pos, negsuc,
}
use mpc_go.Party.{PartyId}
use mpc_go.ErrorCode.{ErrorCode, get_error_code_from_error}
use mpc_go.Messages.{
  SigningMessage, InitiatorJson, signing_message, key_type_secp256k1, key_type_ed25519,
}
use mpc_go.Identity.Store.{Signatures, FileStore, good, bad, panicked, verify_initiator_message}
use mpc_go.Session.{Manager, add_session, has_session}
use mpc_go.Node.{
  not_enough_old_peers, no_old_key_info, no_key_prefix, Node, Session, SessionType, session_ecdsa,
  session_eddsa, Error, nodes_not_ready, key_already_exists, unknown_session_type,
  unsupported_session_type, key_info_unavailable, key_info_not_found, not_enough_peers,
  not_in_participant_list, not_enough_participants, not_enough_ready, new_peer_list_too_small,
  new_peer_not_ready, Outcome, ok, err, exit, create_signing_session,
}
use mpc_go.Node.Initialise.{
  InitError, Shares, no_key_info, too_few_participants, incompatible_peer_ids, no_share,
  unreadable_share, init_signing_session,
}

-- What the handlers read of a `nats.Msg`: the header is "SessionID".
pub record NatsMsg : Type 0 where
  pub dat : Text
  pub reply : Text
  pub session_id : Text

-- A failed `types.SigningResponse`; its other fields are empty.
pub record SigningFailure : Type 0 where
  pub error_code : ErrorCode
  pub error_reason : Text
  pub wallet_id : Text
  pub tx_id : Text

-- The effects of a handler whose failures are `R` and whose successful results are `S`, for signing the
-- encoded signature.
pub data Effect (R S : Type 0) : Type 0 where
  enqueued : Text → R → Text → Effect R S  -- topic, failure, idempotent key
  enqueued_success : Text → S → Text → Effect R S  -- topic, result, idempotent key
  replied : Text → Text → Effect R S  -- inbox, bytes
  exited : Effect R S  -- `logger.Fatal`, or a nil pointer

-- The format of the key, without the `%s` at its end.
abbrev pub signing_result_prefix : Text
signing_result_prefix = codes "mpc.mpc_signing_result."

abbrev pub signing_result_complete_topic : Text
signing_result_complete_topic = codes "mpc.mpc_signing_result.complete"

unfoldable pub compose_idempotent_key : Text → NatsMsg → Text → Text
compose_idempotent_key base_id m prefix =
    prefix ++ (if length m.session_id == 0 then base_id else base_id ++ b':' ∷ m.session_id)

unfoldable pub compose_signing_result_idempotent_key : Text → NatsMsg → Text
compose_signing_result_idempotent_key tx_id m = compose_idempotent_key tx_id m signing_result_prefix

unfoldable pub send_reply_to_remove_msg : {R S : Type 0} → NatsMsg → List (Effect R S)
send_reply_to_remove_msg m = if length m.reply == 0 then [] else replied m.reply m.dat ∷ []

-- The error's text, the context, and the message. `json.Marshal` does not fail on a result.
unfoldable pub handle_signing_session_error :
    Text → Text → Text → Text → NatsMsg → List (Effect SigningFailure Text)
handle_signing_session_error wallet_id tx_id error_text context_msg m =
    enqueued signing_result_complete_topic
      (record {
        error_code = get_error_code_from_error (some error_text);
        error_reason = context_msg ++ codes ": " ++ error_text;
        wallet_id = wallet_id;
        tx_id = tx_id;
      })
      (compose_signing_result_idempotent_key tx_id m)
    ∷ send_reply_to_remove_msg m

unfoldable pub session_type_from_key_type : Text → Option SessionType
session_type_from_key_type key_type =
    if same key_type key_type_secp256k1
    then some session_ecdsa
    else if same key_type key_type_ed25519
    then some session_eddsa
    else none

abbrev pub int_text : ℤ → Text
int_text (pos n) = decimal n
int_text (negsuc n) = b'-' ∷ decimal (suc n)

-- The texts of the errors that pkg/mpc/node.go makes; the first argument is that of a store that does
-- not answer.
unfoldable pub error_text : Text → Error → Text
error_text store_error nodes_not_ready = codes "All nodes are not ready!"
error_text store_error (key_already_exists wallet_id) = codes "key already exists: " ++ wallet_id
error_text store_error unknown_session_type = codes "unknown session type"
error_text store_error unsupported_session_type = codes "unsupported session type"
error_text store_error key_info_unavailable = store_error
error_text store_error key_info_not_found = codes "key info not found"
error_text store_error (not_enough_peers expected got) =
    codes "not enough peers to create signing session! expected "
    ++ int_text expected
    ++ codes ", got "
    ++ decimal got
error_text store_error (not_enough_old_peers expected got) =
    codes "not enough peers to create resharing session! expected "
    ++ int_text expected
    ++ codes ", got "
    ++ decimal got
error_text store_error (no_old_key_info e) =
    codes "failed to get old key info: " ++ error_text store_error e
error_text store_error (no_key_prefix e) =
    codes "failed to get session key prefix: " ++ error_text store_error e
error_text store_error not_in_participant_list = codes "Node is not in the participant list"
error_text store_error not_enough_participants = codes "Not enough participants to sign"
error_text store_error (not_enough_ready expected got) =
    codes "not enough peers to create reshare session! Expected at least "
    ++ int_text expected
    ++ codes ", got "
    ++ int_text got
error_text store_error new_peer_list_too_small = codes "new peer list is smaller than required t+1"
error_text store_error (new_peer_not_ready peer_id) =
    codes "new peer " ++ peer_id ++ codes " is not ready"

abbrev pub duplicate_text : SigningMessage → Text
duplicate_text msg =
    codes "session already exists for walletID=" ++ msg.wallet_id ++ codes " txID=" ++ msg.tx_id

-- What a handler leaves: the manager, the effects, and the session that was begun with its key for
-- the result.
pub record Handled : Type 0 where
  pub manager : Manager
  pub effects : List (Effect SigningFailure Text)
  pub started : Option (Session × Text)

abbrev pub answered : Manager → List (Effect SigningFailure Text) → Handled
answered mgr es = record { manager = mgr; effects = es; started = none }

-- What is not the program's own: the sorting and the UUIDs of the parties, the JSON decoder, the texts
-- of the errors that the stores and the decoder return, and where the shares are kept.
pub record Surroundings : Type 0 where
  pub sort_party_ids : List PartyId → List PartyId
  pub uuid : ℕ → Text
  pub decode_signing : Text → Option SigningMessage
  pub initiator_json : InitiatorJson
  pub signatures : Signatures
  pub store_error : Text
  pub shares : Shares
  pub share_error : Text
  pub json_error : Text

-- `%v` of a list of strings.
abbrev spaced : List Text → Text
spaced [] = []
spaced (t ∷ []) = t
spaced (t ∷ u ∷ ts) = t ++ b' ' ∷ spaced (u ∷ ts)

abbrev list_text : List Text → Text
list_text ts = codes "[" ++ spaced ts ++ codes "]"

-- The texts of the errors of `Init`, as the ECDSA session has them.
unfoldable pub init_error_text : Surroundings → InitError → Text
init_error_text x (no_key_info e) =
    codes "Failed to get key info data: " ++ error_text x.store_error e
init_error_text x too_few_participants = codes "Not enough participants to sign"
init_error_text x (incompatible_peer_ids current expected) =
    codes "incompatible peerIDs to participate in signing. Current participants: "
    ++ list_text current
    ++ codes ", expected participants: "
    ++ list_text expected
init_error_text x no_share = codes "Failed to get wallet data from KVStore: " ++ x.share_error
init_error_text x unreadable_share = codes "Failed to unmarshal wallet data: " ++ x.json_error

module _ (x : Surroundings) (n : Node) (s : FileStore) where
  unfoldable pub init_and_start : ℕ → NatsMsg → SigningMessage → Manager → Session → Handled
  init_and_start now m msg mgr session = elim (init_signing_session x.shares n session) [
    | some e ↦ answered mgr (
        handle_signing_session_error msg.wallet_id msg.tx_id (init_error_text x e)
          (codes "Failed to init signing session") m)
    | none ↦ record {
      manager = add_session now msg.wallet_id msg.tx_id mgr;
      effects = [];
      started = some (session, compose_signing_result_idempotent_key msg.tx_id m);
    }
  ]

  unfoldable pub session_error : NatsMsg → SigningMessage → Text → List (Effect SigningFailure Text)
  session_error m msg text =
      handle_signing_session_error msg.wallet_id msg.tx_id text
        (codes "Failed to create signing session") m

  -- The two errors that are skipped, and the others.
  unfoldable pub creation_failed :
      NatsMsg → SigningMessage → Error → List (Effect SigningFailure Text)
  creation_failed m msg not_enough_participants = []
  creation_failed m msg not_in_participant_list = []
  creation_failed m msg e = session_error m msg (error_text x.store_error e)

  -- From the check for a duplicate on. Handlers run at the same time, so the manager that `HasSession`
  -- reads is not the one that `AddSession` changes: `seen` is the first, and the last argument the second.
  unfoldable pub begin_signing : ℕ → NatsMsg → SigningMessage → Manager → Manager → Handled
  begin_signing now m msg seen mgr =
      if has_session msg.wallet_id msg.tx_id seen
      then answered mgr (
          handle_signing_session_error msg.wallet_id msg.tx_id (duplicate_text msg)
            (codes "Duplicate session") m)
      else elim (session_type_from_key_type msg.key_type) [
        | none ↦ answered mgr (session_error m msg (codes "unsupported key type: " ++ msg.key_type))
        | some t ↦ elim (create_signing_session x.sort_party_ids x.uuid n t msg.wallet_id) [
          | ok session ↦ init_and_start now m msg mgr session
          | err e ↦ answered mgr (creation_failed m msg e)
          | exit ↦ answered mgr (exited ∷ [])
        ]
      ]

  unfoldable pub handle_signing_event : ℕ → NatsMsg → Manager → Manager → Handled
  handle_signing_event now m seen mgr = elim (x.decode_signing m.dat) [
    | none ↦ answered mgr []
    | some msg ↦
        elim (verify_initiator_message x.initiator_json x.signatures s (signing_message msg)) [
          | good _ ↦ begin_signing now m msg seen mgr
          | bad _ ↦ answered mgr []
          | panicked ↦ answered mgr (exited ∷ [])
        ]
  ]
