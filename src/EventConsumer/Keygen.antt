-- ===== src/EventConsumer/Keygen.antt =====
-- The event consumer's handler of a keygen request (pkg/eventconsumer/event.go): from the message to the
-- two sessions that it begins, with the failures that it publishes on the way.
pub mod Running
pub mod Laws
pub mod Ending
pub mod Keys
pub mod Requests
use mpc_go.Common.{◌∷◌, ◌++◌, [], List, Option, none, some, Text, codes, ℤ}
use mpc_go.ErrorCode.{get_error_code_from_error}
use mpc_go.Messages.{KeygenMessage, KeygenResponse, keygen_message}
use mpc_go.Identity.Store.{
  IdentityError, FileStore, Result, good, bad, panicked, verify_initiator_message,
}
use mpc_go.Node.{
  Node, Session, SessionType, session_ecdsa, session_eddsa, Outcome, ok, err, exit,
  create_keygen_session,
}
use mpc_go.EventConsumer.{
  NatsMsg, Effect, enqueued, exited, compose_idempotent_key, send_reply_to_remove_msg, Surroundings,
  error_text,
}

-- The format of the subject and of the key, without the `%s` at its end.
abbrev pub generate_wallet_result_prefix : Text
generate_wallet_result_prefix = codes "mpc.mpc_keygen_result."

unfoldable pub compose_keygen_idempotent_key : Text → NatsMsg → Text
compose_keygen_idempotent_key wallet_id m =
    compose_idempotent_key wallet_id m generate_wallet_result_prefix

abbrev pub keygen_failure_response : Text → Text → Text → KeygenResponse
keygen_failure_response wallet_id error_text context_msg = record {
  wallet_id = wallet_id;
  ecdsa_pub_key = [];
  eddsa_pub_key = [];
  error_code = get_error_code_from_error (some error_text);
  error_reason = context_msg ++ codes ": " ++ error_text;
}

-- The error's text, the context, and the message.
unfoldable pub handle_keygen_session_error :
    Text → Text → Text → NatsMsg → List (Effect KeygenResponse KeygenResponse)
handle_keygen_session_error wallet_id error_text context_msg m =
    enqueued (generate_wallet_result_prefix ++ wallet_id)
      (keygen_failure_response wallet_id error_text context_msg)
      (compose_keygen_idempotent_key wallet_id m)
    ∷ send_reply_to_remove_msg m

-- What a request has come to: an end, with its effects, or two sessions.
pub data KeygenHandled : Type 0 where
  settled : List (Effect KeygenResponse KeygenResponse) → KeygenHandled
  begun_with : Text → Session → Session → KeygenHandled  -- the wallet, ECDSA and EdDSA

-- `decode` gives the message as far as it was filled in and the error's text; `identity_error` is the
-- text of an error of the identity store.
module _ (x : Surroundings) (decode : Text → KeygenMessage × Option Text)
    (identity_error : IdentityError → Text) (n : Node) (s : FileStore) (threshold : ℤ) where
  -- After the creation of one session.
  unfoldable pub when_created :
      NatsMsg → Text → Text → (Session → KeygenHandled) → Outcome Session → KeygenHandled
  when_created m wallet_id context_msg next (ok session) = next session
  when_created m wallet_id context_msg next (err e) =
      settled (handle_keygen_session_error wallet_id (error_text x.store_error e) context_msg m)
  when_created m wallet_id context_msg next exit = settled (exited ∷ [])

  unfoldable pub begin_keygen : NatsMsg → Text → KeygenHandled
  begin_keygen m wallet_id =
      let create = λ (t : SessionType).
        create_keygen_session x.sort_party_ids x.uuid n t wallet_id threshold in
      when_created m wallet_id (codes "Failed to create ECDSA key generation session")
        (λ ecdsa_session.
          when_created m wallet_id (codes "Failed to create EdDSA key generation session")
            (λ eddsa_session. begun_with wallet_id ecdsa_session eddsa_session)
            (create session_eddsa))
        (create session_ecdsa)

  unfoldable pub when_verified : NatsMsg → Text → Result (Unit {0}) → KeygenHandled
  when_verified m wallet_id (good _) = begin_keygen m wallet_id
  when_verified m wallet_id (bad e) = settled (
      handle_keygen_session_error wallet_id (identity_error e)
        (codes "Failed to verify initiator message") m)
  when_verified m wallet_id panicked = settled (exited ∷ [])

  unfoldable pub when_decoded : NatsMsg → KeygenMessage × Option Text → KeygenHandled
  when_decoded m (msg, some e) =
      settled
        (handle_keygen_session_error msg.wallet_id e (codes "Failed to unmarshal keygen message") m)
  when_decoded m (msg, none) =
      when_verified m msg.wallet_id
        (verify_initiator_message x.initiator_json x.signatures s (keygen_message msg))

  unfoldable pub handle_key_gen_event : NatsMsg → KeygenHandled
  handle_key_gen_event m = when_decoded m (decode m.dat)
