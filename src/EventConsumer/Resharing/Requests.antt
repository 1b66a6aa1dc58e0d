-- ===== src/EventConsumer/Resharing/Requests.antt =====
-- What becomes of a resharing request.
use mpc_go.Common.{
  ◌≡◌, ◌⊎◌, ◌∷◌, ◌==◌, [], List, Option, none, some, Text, true, false, refl, inl, inr, length,
  subst, ap, Bool-cases,
}
use mpc_go.Messages.{ResharingMessage, ResharingResponse, resharing_message}
use mpc_go.Identity.Store.{
  IdentityError, FileStore, Result, good, bad, panicked, verify_initiator_message,
}
use mpc_go.Node.{Node, ResharingSession, SessionType, Outcome, ok, err, exit}
use mpc_go.Node.Resharing.{create_resharing_session}
use mpc_go.EventConsumer.{
  NatsMsg, Effect, exited, send_reply_to_remove_msg, Surroundings, error_text,
  session_type_from_key_type,
}
use mpc_go.EventConsumer.Running.{failures}
use mpc_go.EventConsumer.Resharing.{
  ResharingHandled, init_resharing_session, new_initialised, init_new, old_initialised,
  init_sessions, when_created, create_sessions, when_verified, when_decoded, handle_resharing_event,
}
use mpc_go.EventConsumer.Resharing.Laws.{failures-error}

-- The session initialises, where there is one.
abbrev pub Initialises : Surroundings → Option ResharingSession → Type 0
Initialises x none = Unit
Initialises x (some s) = init_resharing_session x s ≡ none

module _ (x : Surroundings) (decode : Text → ResharingMessage × Option Text)
    (identity_error : IdentityError → Text) (n : Node) (s : FileStore) where
  -- The sessions that a verified request is created with.
  abbrev pub Created : ResharingMessage → Option ResharingSession → Option ResharingSession → Type 0
  Created msg old new =
      (t : SessionType) × (session_type_from_key_type msg.key_type ≡ some t)
      × (create_resharing_session x.sort_party_ids x.uuid n t msg.wallet_id msg.new_threshold
            msg.node_ids false
          ≡ ok old)
      × (create_resharing_session x.sort_party_ids x.uuid n t msg.wallet_id msg.new_threshold
            msg.node_ids true
          ≡ ok new)

  abbrev Passed : NatsMsg → Type 0
  Passed m =
      ((decode m.dat).1 ≡ none)
      × ((length (decode m.dat).0.session_id == 0) ≡ false)
      × (verify_initiator_message x.initiator_json x.signatures s
            (resharing_message (decode m.dat).0)
          ≡ good tt)

  -- A request that ends at once is answered with one failure, unless the node stops or is in neither
  -- committee, and then it only replies; one that begins has passed all checks.
  abbrev pub Decided :
      NatsMsg
      → List (Effect ResharingResponse ResharingResponse)
      → Option (Option ResharingSession × Option ResharingSession)
      → Type 0
  Decided m es none =
      (failures es ≡ 1)
      ⊎ ((es ≡ exited ∷ [])
          ⊎ ((es ≡ send_reply_to_remove_msg m) × Passed m × Created (decode m.dat).0 none none))
  Decided m es (some (old, new)) =
      (es ≡ [])
      × Passed m
      × Created (decode m.dat).0 old new
      × Initialises x old
      × Initialises x new

  abbrev HandledWell : NatsMsg → ResharingHandled → Type 0
  HandledWell m h = Decided m h.effects h.started

  new_initialised_decided :
      (m : NatsMsg) (old : Option ResharingSession) (new : ResharingSession) (i : Option Text)
      → Passed m
      → Created (decode m.dat).0 old (some new)
      → Initialises x old
      → init_resharing_session x new ≡ i
      → HandledWell m (new_initialised x decode identity_error n s m (decode m.dat).0 old new i)
  unfolding new_initialised
  new_initialised_decided m old new (some e) p c u v = inl (failures-error _ e _ m).0
  new_initialised_decided m old new none p c u v = (refl, p, c, u, v)

  init_new_decided :
      (m : NatsMsg) (old new : Option ResharingSession)
      → Passed m
      → Created (decode m.dat).0 old new
      → Initialises x old
      → HandledWell m (init_new x decode identity_error n s m (decode m.dat).0 old new)
  unfolding init_new
  init_new_decided m old none p c u = (refl, p, c, u, tt)
  init_new_decided m old (some new) p c u = new_initialised_decided m old new _ p c u refl

  old_initialised_decided :
      (m : NatsMsg) (old : ResharingSession) (new : Option ResharingSession) (i : Option Text)
      → Passed m
      → Created (decode m.dat).0 (some old) new
      → init_resharing_session x old ≡ i
      → HandledWell m (old_initialised x decode identity_error n s m (decode m.dat).0 old new i)
  unfolding old_initialised
  old_initialised_decided m old new (some e) p c v = inl (failures-error _ e _ m).0
  old_initialised_decided m old new none p c v = init_new_decided m (some old) new p c v

  init_sessions_decided :
      (m : NatsMsg) (old new : Option ResharingSession)
      → Passed m
      → Created (decode m.dat).0 old new
      → HandledWell m (init_sessions x decode identity_error n s m (decode m.dat).0 old new)
  unfolding init_sessions
  init_sessions_decided m none none p c = inr (inr (refl, p, c))
  init_sessions_decided m none (some new) p c = init_new_decided m none (some new) p c tt
  init_sessions_decided m (some old) new p c = old_initialised_decided m old new _ p c refl

  when_created-Decided :
      (m : NatsMsg) (msg : ResharingMessage) (context_msg : Text)
      (next : Option ResharingSession → ResharingHandled) (o : Outcome (Option ResharingSession))
      → ((session : Option ResharingSession) → o ≡ ok session → HandledWell m (next session))
      → HandledWell m (when_created x decode identity_error n s m msg context_msg next o)
  unfolding when_created
  when_created-Decided m msg c next (ok session) f = f session refl
  when_created-Decided m msg c next (err e) f =
      inl (failures-error msg (error_text x.store_error e) c m).0
  when_created-Decided m msg c next exit f = inr (inl refl)

  create_sessions_decided :
      (m : NatsMsg) (t : Option SessionType)
      → Passed m
      → session_type_from_key_type (decode m.dat).0.key_type ≡ t
      → HandledWell m (create_sessions x decode identity_error n s m (decode m.dat).0 t)
  unfolding create_sessions
  create_sessions_decided m none p h = inl (failures-error _ _ _ m).0
  create_sessions_decided m (some t) p h = when_created-Decided m _ _ _ _ λ old u.
      when_created-Decided m _ _ _ _ λ new v. init_sessions_decided m old new p (t, h, u, v)

  when_verified-Decided :
      (m : NatsMsg) (v : Result (Unit {0}))
      → (decode m.dat).1 ≡ none
      → (length (decode m.dat).0.session_id == 0) ≡ false
      → verify_initiator_message x.initiator_json x.signatures s
          (resharing_message (decode m.dat).0)
        ≡ v
      → HandledWell m (when_verified x decode identity_error n s m (decode m.dat).0 v)
  unfolding when_verified
  when_verified-Decided m (good tt) d l h = create_sessions_decided m _ (d, l, h) refl
  when_verified-Decided m (bad e) d l h = inl (failures-error _ (identity_error e) _ m).0
  when_verified-Decided m panicked d l h = inr (inl refl)

  decoded_decided :
      (m : NatsMsg)
      → (decode m.dat).1 ≡ none
      → HandledWell m (when_decoded x decode identity_error n s m ((decode m.dat).0, none))
  unfolding when_decoded
  decoded_decided m d = elim (Bool-cases (length (decode m.dat).0.session_id == 0)) [
    | inl l ↦ rw l (inl (failures-error _ _ _ m).0)
    | inr l ↦ rw l (when_verified-Decided m _ d l refl)
  ]

  when_decoded-Decided :
      (m : NatsMsg) (d : ResharingMessage × Option Text)
      → decode m.dat ≡ d
      → HandledWell m (when_decoded x decode identity_error n s m d)
  unfolding when_decoded
  when_decoded-Decided m (msg, some e) h = inl (failures-error msg e _ m).0
  when_decoded-Decided m (msg, none) h =
      subst (λ w. HandledWell m (when_decoded x decode identity_error n s m (w, none)))
        (ap (λ z. z.0) h) (decoded_decided m (ap (λ z. z.1) h))

  -- A resharing request ends at once, with exactly one failure, unless the node stops, or with a bare reply
  -- if the node is in neither committee; or it begins with nothing published yet, and then it decodes,
  -- has a session ID and a valid signature of the initiator, the node created the sessions of both
  -- committees that it is in for the request's key type, and they initialise.
  pub handle_resharing_event-Decided :
      (m : NatsMsg)
      → Decided m
          (handle_resharing_event x decode identity_error n s m).effects
          (handle_resharing_event x decode identity_error n s m).started
  unfolding handle_resharing_event
  handle_resharing_event-Decided m = when_decoded-Decided m (decode m.dat) refl
