-- ===== src/EventConsumer/Keygen/Requests.antt =====
-- What becomes of a keygen request.
use mpc_go.Common.{
  ◌≡◌, ◌⊎◌, ◌∷◌, [], Option, none, some, Text, true, false, arith, refl, inl, inr, ℤ, subst, ap,
}
use mpc_go.Messages.{KeygenMessage, keygen_message}
use mpc_go.Identity.Store.{
  IdentityError, FileStore, Result, good, bad, panicked, verify_initiator_message,
}
use mpc_go.Registry.{are_peers_ready}
use mpc_go.Node.{
  Node, Session, SessionType, session_ecdsa, session_eddsa, Outcome, ok, err, exit, get_key_info,
  create_keygen_session,
}
use mpc_go.Node.Signing.{is_ok}
use mpc_go.Node.Keygen.{create_keygen_session_iff}
use mpc_go.EventConsumer.{NatsMsg, exited, Surroundings, error_text}
use mpc_go.EventConsumer.Running.{failures}
use mpc_go.EventConsumer.Keygen.{
  KeygenHandled, settled, begun_with, when_created, begin_keygen, when_verified, when_decoded,
  handle_key_gen_event,
}
use mpc_go.EventConsumer.Keygen.Laws.{failures-error}

module _ (x : Surroundings) (decode : Text → KeygenMessage × Option Text)
    (identity_error : IdentityError → Text) (n : Node) (s : FileStore) (threshold : ℤ) where
  -- The node may generate a key of this type for the wallet.
  abbrev pub MayGenerate : SessionType → Text → Type 0
  MayGenerate t wallet_id =
      (are_peers_ready n.peer_registry ≡ true) × (is_ok (get_key_info n t wallet_id) ≡ false)

  -- A request that ends at once is answered with one failure, unless the node stops; one that begins has
  -- passed all checks.
  abbrev pub Decided : NatsMsg → KeygenHandled → Type 0
  Decided m (settled es) = (failures es ≡ 1) ⊎ (es ≡ exited ∷ [])
  Decided m (begun_with wallet_id ecdsa_session eddsa_session) =
      ((decode m.dat).0.wallet_id ≡ wallet_id)
      × ((decode m.dat).1 ≡ none)
      × (verify_initiator_message x.initiator_json x.signatures s (keygen_message (decode m.dat).0)
          ≡ good tt)
      × (create_keygen_session x.sort_party_ids x.uuid n session_ecdsa wallet_id threshold
          ≡ ok ecdsa_session)
      × (create_keygen_session x.sort_party_ids x.uuid n session_eddsa wallet_id threshold
          ≡ ok eddsa_session)
      × MayGenerate session_ecdsa wallet_id
      × MayGenerate session_eddsa wallet_id

  may_generate :
      (t : SessionType) (wallet_id : Text) (session : Session)
      → create_keygen_session x.sort_party_ids x.uuid n t wallet_id threshold ≡ ok session
      → MayGenerate t wallet_id
  may_generate t wallet_id session h =
      ground (arith, (create_keygen_session_iff x.sort_party_ids x.uuid n t wallet_id threshold).0)

  -- The three stages, from the last to the first.
  when_created-Decided :
      (m : NatsMsg) (wallet_id context_msg : Text) (next : Session → KeygenHandled)
      (o : Outcome Session)
      → ((session : Session) → o ≡ ok session → Decided m (next session))
      → Decided m
          (when_created x decode identity_error n s threshold m wallet_id context_msg next o)
  unfolding when_created
  when_created-Decided m wallet_id context_msg next (ok session) f = f session refl
  when_created-Decided m wallet_id context_msg next (err z) f =
      inl (failures-error wallet_id (error_text x.store_error z) context_msg m)
  when_created-Decided m wallet_id context_msg next exit f = inr refl

  begin_keygen-Decided :
      (m : NatsMsg)
      → (decode m.dat).1 ≡ none
      → verify_initiator_message x.initiator_json x.signatures s (keygen_message (decode m.dat).0)
        ≡ good tt
      → Decided m (begin_keygen x decode identity_error n s threshold m (decode m.dat).0.wallet_id)
  unfolding begin_keygen
  begin_keygen-Decided m d v = when_created-Decided m _ _ _ _ λ a h.
      when_created-Decided m _ _ _ _ λ b k.
        (refl, d, v, h, k, may_generate session_ecdsa _ a h, may_generate session_eddsa _ b k)

  when_verified-Decided :
      (m : NatsMsg) (v : Result (Unit {0}))
      → (decode m.dat).1 ≡ none
      → verify_initiator_message x.initiator_json x.signatures s (keygen_message (decode m.dat).0)
        ≡ v
      → Decided m
          (when_verified x decode identity_error n s threshold m (decode m.dat).0.wallet_id v)
  unfolding when_verified
  when_verified-Decided m (good tt) d h = begin_keygen-Decided m d h
  when_verified-Decided m (bad z) d h = inl (failures-error _ (identity_error z) _ m)
  when_verified-Decided m panicked d h = inr refl

  when_decoded-Decided :
      (m : NatsMsg) (d : KeygenMessage × Option Text)
      → decode m.dat ≡ d
      → Decided m (when_decoded x decode identity_error n s threshold m d)
  unfolding when_decoded
  when_decoded-Decided m (msg, some z) e = inl (failures-error msg.wallet_id z _ m)
  when_decoded-Decided m (msg, none) e =
      subst
        (λ (w : KeygenMessage). Decided m (
          when_verified x decode identity_error n s threshold m w.wallet_id
            (verify_initiator_message x.initiator_json x.signatures s (keygen_message w))))
        (ap (λ z. z.0) e) (when_verified-Decided m _ (ap (λ z. z.1) e) refl)

  -- A keygen request is either answered at once with exactly one failure, unless the node stops, or begins
  -- both sessions; it begins only if it decodes and its initiator's signature verifies, all peers are
  -- ready, no key of either curve is found for the wallet, and the node creates the two sessions.
  pub handle_key_gen_event-Decided :
      (m : NatsMsg) → Decided m (handle_key_gen_event x decode identity_error n s threshold m)
  unfolding handle_key_gen_event
  handle_key_gen_event-Decided m = when_decoded-Decided m (decode m.dat) refl
