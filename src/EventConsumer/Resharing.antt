-- ===== src/EventConsumer/Resharing.antt =====
-- The event consumer's handler of a resharing request (pkg/eventconsumer/event.go): from the message to
-- the sessions of the old and of the new committee, with `Init` and `GetLegacyCommitteePeers` of
-- pkg/mpc/ecdsa/resharing.go and pkg/mpc/eddsa/resharing.go.
pub mod Running
pub mod Laws
pub mod Requests
pub mod Committees
use mpc_go.Common.{
  ◌∷◌, ◌++◌, ◌==◌, [], List, Option, none, some, Text, Bool, true, false, codes, ℤ, length,
  contains, if◌then◌else◌,
}
use mpc_go.Party.{party_ids_to_node_ids}
use mpc_go.Topic.{Curve, ecdsa, eddsa, compose_key}
use mpc_go.ErrorCode.{get_error_code_from_error}
use mpc_go.Messages.{ResharingMessage, ResharingResponse, resharing_message}
use mpc_go.Identity.Store.{
  IdentityError, FileStore, Result, good, bad, panicked, verify_initiator_message,
}
use mpc_go.PartySession.{Loaded, loaded, get_failed, decode_failed, load_old_share_data_generic}
use mpc_go.Node.{Node, ResharingSession, SessionType, Outcome, ok, err, exit}
use mpc_go.Node.Resharing.{create_resharing_session}
use mpc_go.EventConsumer.{
  NatsMsg, Effect, enqueued, exited, compose_idempotent_key, send_reply_to_remove_msg, Surroundings,
  error_text, session_type_from_key_type,
}

-- The format of the subject and of the key, without the `%s` at its end.
abbrev pub resharing_wallet_result_prefix : Text
resharing_wallet_result_prefix = codes "mpc.mpc_resharing_result."

unfoldable pub compose_resharing_result_idempotent_key : Text → NatsMsg → Text
compose_resharing_result_idempotent_key id m =
    compose_idempotent_key id m resharing_wallet_result_prefix

abbrev pub resharing_failure_response : ResharingMessage → Text → Text → ResharingResponse
resharing_failure_response msg error_text context_msg = record {
  wallet_id = msg.wallet_id;
  new_threshold = msg.new_threshold;
  key_type = msg.key_type;
  pub_key = [];
  error_code = get_error_code_from_error (some error_text);
  error_reason = context_msg ++ codes ": " ++ error_text;
}

-- Of the request it takes the wallet, the key type and the threshold.
unfoldable pub handle_resharing_session_error :
    ResharingMessage → Text → Text → NatsMsg → List (Effect ResharingResponse ResharingResponse)
handle_resharing_session_error msg error_text context_msg m =
    enqueued (resharing_wallet_result_prefix ++ msg.wallet_id)
      (resharing_failure_response msg error_text context_msg)
      (compose_resharing_result_idempotent_key msg.wallet_id m)
    ∷ send_reply_to_remove_msg m

-- The function `difference` in `GetLegacyCommitteePeers`.
unfoldable pub peer_difference : List Text → List Text → List Text
peer_difference [] bs = []
peer_difference (a ∷ as') bs =
    let rest = peer_difference as' bs in if contains bs a then rest else a ∷ rest

unfoldable pub get_legacy_committee_peers : ResharingSession → List Text
get_legacy_committee_peers s =
    peer_difference (party_ids_to_node_ids s.old_party_ids) s.new_peer_ids

abbrev curve_text : Curve → Text
curve_text ecdsa = codes "ecdsa"
curve_text eddsa = codes "eddsa"

-- The error's text; `none` is success. `LoadOldShareDataGeneric` passes on the store's error.
unfoldable pub init_resharing_session : Surroundings → ResharingSession → Option Text
init_resharing_session x s =
    let share =
      load_old_share_data_generic (compose_key s.session.curve) x.shares.get_share
        (λ k. if x.shares.is_share k then some k else none) s.session.wallet_id s.session.version in
    let context_msg =
      codes "failed to load old share data " ++ curve_text s.session.curve ++ codes ": " in
    if s.is_new_party then none else elim share [
      | loaded _ ↦ none
      | get_failed ↦ some (context_msg ++ x.share_error)
      | decode_failed ↦
          some (context_msg ++ codes "failed to unmarshal wallet data: " ++ x.json_error)
    ]

-- What a session has begun to listen to: its own committee, or more peers.
pub data Listening : Type 0 where
  incoming : ResharingSession → Listening
  peers : ResharingSession → List Text → Listening

-- What the handler leaves, and the sessions that go on, of the old and of the new committee.
pub record ResharingHandled : Type 0 where
  pub effects : List (Effect ResharingResponse ResharingResponse)
  pub listening : List Listening
  pub started : Option (Option ResharingSession × Option ResharingSession)

abbrev pub settled :
    List (Effect ResharingResponse ResharingResponse) → List Listening → ResharingHandled
settled es ls = record { effects = es; listening = ls; started = none }

module _ (x : Surroundings) (decode : Text → ResharingMessage × Option Text)
    (identity_error : IdentityError → Text) (n : Node) (s : FileStore) where
  unfoldable pub listen_old : Option ResharingSession → List Listening
  listen_old none = []
  listen_old (some old) = incoming old ∷ []

  -- The last argument is what `Init` of the new committee's session gives.
  unfoldable pub new_initialised :
      NatsMsg
      → ResharingMessage
      → Option ResharingSession
      → ResharingSession
      → Option Text
      → ResharingHandled
  new_initialised m msg old new (some e) =
      settled
        (handle_resharing_session_error msg e (codes "Failed to init new resharing session") m)
        (listen_old old)
  new_initialised m msg old new none = record {
    effects = [];
    listening = listen_old old ++ (incoming new ∷ peers new (get_legacy_committee_peers new) ∷ []);
    started = some (old, some new);
  }

  unfoldable pub init_new :
      NatsMsg
      → ResharingMessage
      → Option ResharingSession
      → Option ResharingSession
      → ResharingHandled
  init_new m msg old none = record {
    effects = [];
    listening = listen_old old;
    started = some (old, none);
  }
  init_new m msg old (some new) = new_initialised m msg old new (init_resharing_session x new)

  unfoldable pub old_initialised :
      NatsMsg
      → ResharingMessage
      → ResharingSession
      → Option ResharingSession
      → Option Text
      → ResharingHandled
  old_initialised m msg old new (some e) =
      settled
        (handle_resharing_session_error msg e (codes "Failed to init old resharing session") m) []
  old_initialised m msg old new none = init_new m msg (some old) new

  unfoldable pub init_sessions :
      NatsMsg
      → ResharingMessage
      → Option ResharingSession
      → Option ResharingSession
      → ResharingHandled
  init_sessions m msg none none = settled (send_reply_to_remove_msg m) []
  init_sessions m msg none (some new) = init_new m msg none (some new)
  init_sessions m msg (some old) new = old_initialised m msg old new (init_resharing_session x old)

  -- After the creation of one session, which may be the nil session.
  unfoldable pub when_created :
      NatsMsg
      → ResharingMessage
      → Text
      → (Option ResharingSession → ResharingHandled)
      → Outcome (Option ResharingSession)
      → ResharingHandled
  when_created m msg context_msg next (ok session) = next session
  when_created m msg context_msg next (err e) =
      settled (handle_resharing_session_error msg (error_text x.store_error e) context_msg m) []
  when_created m msg context_msg next exit = settled (exited ∷ []) []

  unfoldable pub create_sessions :
      NatsMsg → ResharingMessage → Option SessionType → ResharingHandled
  create_sessions m msg none =
      settled
        (handle_resharing_session_error msg (codes "unsupported key type: " ++ msg.key_type)
          (codes "Failed to get session type") m)
        []
  create_sessions m msg (some t) =
      let create =
        create_resharing_session x.sort_party_ids x.uuid n t msg.wallet_id msg.new_threshold
          msg.node_ids in
      when_created m msg (codes "Failed to create old resharing session")
        (λ old.
          when_created m msg (codes "Failed to create new resharing session")
            (λ new. init_sessions m msg old new) (create true))
        (create false)

  unfoldable pub when_verified : NatsMsg → ResharingMessage → Result (Unit {0}) → ResharingHandled
  when_verified m msg (good _) = create_sessions m msg (session_type_from_key_type msg.key_type)
  when_verified m msg (bad e) =
      settled
        (handle_resharing_session_error msg (identity_error e)
          (codes "Failed to verify initiator message") m)
        []
  when_verified m msg panicked = settled (exited ∷ []) []

  unfoldable pub when_decoded : NatsMsg → ResharingMessage × Option Text → ResharingHandled
  when_decoded m (msg, some e) =
      settled
        (handle_resharing_session_error msg e (codes "Failed to unmarshal resharing message") m) []
  when_decoded m (msg, none) =
      if length msg.session_id == 0
      then settled
          (handle_resharing_session_error msg (codes "validation: session ID is empty")
            (codes "Session ID is empty") m)
          []
      else when_verified m msg
          (verify_initiator_message x.initiator_json x.signatures s (resharing_message msg))

  unfoldable pub handle_resharing_event : NatsMsg → ResharingHandled
  handle_resharing_event m = when_decoded m (decode m.dat)
