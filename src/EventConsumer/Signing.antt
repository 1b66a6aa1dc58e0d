-- ===== src/EventConsumer/Signing.antt =====
-- When a signing request begins a session, and what happens to one that does not.
use mpc_go.Common.{
  ◌<◌, ◌^◌, pos, ◌+ℤ◌, ◌≤ℤ◌, ◌≡◌, ◌⊎◌, [], ℕ, none, some, Text, true, false, arith, refl, sym, ap,
  ◌∙◌, subst, codes, Option-cases, inl, inr,
}
use mpc_go.Messages.{SigningMessage, signing_message}
use mpc_go.Identity.Store.{FileStore, good, verify_initiator_message}
use mpc_go.Session.{Manager, add_session, has_session, Reachable}
use mpc_go.Session.Laws.{Reachable-Distinct}
use mpc_go.Session.Meanwhile.{Meanwhile, has_session-Meanwhile}
use mpc_go.Node.{Node, Session, SessionType, Outcome, ok, err, exit, create_signing_session}
use mpc_go.Node.Signing.{is_ok}
use mpc_go.Node.Initialise.{init_signing_session}
use mpc_go.EventConsumer.{
  NatsMsg, Handled, answered, Surroundings, handle_signing_session_error, duplicate_text,
  compose_signing_result_idempotent_key, session_type_from_key_type, init_and_start, begin_signing,
  handle_signing_event,
}

Outcome-cases {ℓ} : {A : Type ℓ} (o : Outcome A) → ((a : A) × (o ≡ ok a)) ⊎ (is_ok o ≡ false)
Outcome-cases (ok a) = inl (a, refl)
Outcome-cases (err e) = inr refl
Outcome-cases exit = inr refl

module _ (x : Surroundings) (n : Node) (s : FileStore) where
  -- The node created this session for the request's key type.
  abbrev pub Created : SigningMessage → Session → Type 0
  Created msg session =
      (t : SessionType) × (session_type_from_key_type msg.key_type ≡ some t)
      × (create_signing_session x.sort_party_ids x.uuid n t msg.wallet_id ≡ ok session)

  -- What holds of a request that began a session.
  abbrev pub Began : ℕ → NatsMsg → Manager → Manager → Session → Text → SigningMessage → Type 0
  Began now m seen mgr session key msg =
      (x.decode_signing m.dat ≡ some msg)
      × (verify_initiator_message x.initiator_json x.signatures s (signing_message msg) ≡ good tt)
      × Created msg session
      × (has_session msg.wallet_id msg.tx_id seen ≡ false)
      × (init_signing_session x.shares n session ≡ none)
      × (key ≡ compose_signing_result_idempotent_key msg.tx_id m)
      × (handle_signing_event x n s now m seen mgr ≡ record {
        manager = add_session now msg.wallet_id msg.tx_id mgr;
        effects = [];
        started = some (session, key);
      })

  init_and_start-started :
      (now : ℕ) (m : NatsMsg) (mgr : Manager) (msg : SigningMessage) (made session : Session)
      (key : Text)
      → (init_and_start x n s now m msg mgr made).started ≡ some (session, key)
      → (made ≡ session)
        × (init_signing_session x.shares n session ≡ none)
        × (key ≡ compose_signing_result_idempotent_key msg.tx_id m)
        × (init_and_start x n s now m msg mgr made ≡ record {
          manager = add_session now msg.wallet_id msg.tx_id mgr;
          effects = [];
          started = some (session, key);
        })
  unfolding init_and_start
  init_and_start-started now m mgr msg made session key h = ground arith

  begin_signing-Created :
      (now : ℕ) (m : NatsMsg) (seen mgr : Manager) (msg : SigningMessage) (made : Session)
      → Created msg made
      → has_session msg.wallet_id msg.tx_id seen ≡ false
      → begin_signing x n s now m msg seen mgr ≡ init_and_start x n s now m msg mgr made
  unfolding begin_signing
  begin_signing-Created now m seen mgr msg made (t, e, f) h = rw (h, e, f) refl

  begin_signing-started :
      (now : ℕ) (m : NatsMsg) (seen mgr : Manager) (msg : SigningMessage) (started : Session × Text)
      → (begin_signing x n s now m msg seen mgr).started ≡ some started
      → (has_session msg.wallet_id msg.tx_id seen ≡ false) × ((made : Session) × Created msg made)
  unfolding begin_signing
  begin_signing-started now m seen mgr msg started h = (
    ground arith,
    elim (Option-cases (session_type_from_key_type msg.key_type)) [
      | inl e ↦ absurd (ground arith)
      | inr (t, e) ↦
          elim (Outcome-cases (create_signing_session x.sort_party_ids x.uuid n t msg.wallet_id)) [
            | inl (made, f) ↦ (made, (t, e, f))
            | inr f ↦ absurd (ground arith)
          ]
    ],
  )

  pub handle_signing_event-verified :
      (now : ℕ) (m : NatsMsg) (seen mgr : Manager) (msg : SigningMessage)
      → x.decode_signing m.dat ≡ some msg
      → verify_initiator_message x.initiator_json x.signatures s (signing_message msg) ≡ good tt
      → handle_signing_event x n s now m seen mgr ≡ begin_signing x n s now m msg seen mgr
  unfolding handle_signing_event
  handle_signing_event-verified now m seen mgr msg d v = ground arith

  handled-started :
      (now : ℕ) (m : NatsMsg) (seen mgr : Manager) (started : Session × Text)
      → (handle_signing_event x n s now m seen mgr).started ≡ some started
      → (msg : SigningMessage) × (x.decode_signing m.dat ≡ some msg)
        × (verify_initiator_message x.initiator_json x.signatures s (signing_message msg) ≡ good tt)
  unfolding handle_signing_event
  handled-started now m seen mgr started h = elim (Option-cases (x.decode_signing m.dat)) [
    | inl e ↦ absurd (ground arith)
    | inr (msg, e) ↦ (msg, e, ground arith)
  ]

  -- A session begins only if the request decodes, its initiator's signature verifies, the manager knows
  -- no session of the wallet and transaction when it is asked, the node creates this session for the request's key
  -- type, and the session initialises. The manager then knows it from now on, nothing is answered yet,
  -- and its result will have the key of the transaction and the request.
  pub handle_signing_event-started :
      (now : ℕ) (m : NatsMsg) (seen mgr : Manager) (session : Session) (key : Text)
      → (handle_signing_event x n s now m seen mgr).started ≡ some (session, key)
      → (msg : SigningMessage) × Began now m seen mgr session key msg
  handle_signing_event-started now m seen mgr session key h =
      let (msg, d, v) = handled-started now m seen mgr (session, key) h in
      let whole = handle_signing_event-verified now m seen mgr msg d v in
      let h' = sym (ap (λ (r : Handled). r.started) whole) ∙ h in
      let (fresh, (made, created)) = begin_signing-started now m seen mgr msg (session, key) h' in
      let begun = begin_signing-Created now m seen mgr msg made created fresh in
      let (e, i, k, r) =
        init_and_start-started now m mgr msg made session key
          (sym (ap (λ (r : Handled). r.started) begun) ∙ h') in
      (msg, (d, v, subst (λ z. Created msg z) e created, fresh, i, k, whole ∙ begun ∙ r))

  begin_signing-duplicate :
      (now : ℕ) (m : NatsMsg) (seen mgr : Manager) (msg : SigningMessage)
      → has_session msg.wallet_id msg.tx_id seen ≡ true
      → begin_signing x n s now m msg seen mgr
        ≡ answered mgr (
            handle_signing_session_error msg.wallet_id msg.tx_id
              (duplicate_text msg)
              (codes "Duplicate session")
              m)
  unfolding begin_signing
  begin_signing-duplicate now m seen mgr msg h = rw h refl

  -- A request whose session has begun is repeated: whatever other handlers do to the manager in between
  -- and whenever it is cleaned up, as long as that is at most the timeout after the session was added,
  -- a handler that asks the manager only then begins no second session. It answers with the failure of a
  -- duplicate, whatever has become of the manager (`after`) by the time it ends.
  pub handle_signing_event-again :
      (now later limit : ℕ) (m again : NatsMsg) (seen mgr known after : Manager) (session : Session)
      (key : Text)
      → Reachable mgr
      → (handle_signing_event x n s now m seen mgr).started ≡ some (session, key)
      → again.dat ≡ m.dat
      → now < 2 ^ 63
      → limit < 2 ^ 63
      → pos limit ≤ℤ pos now +ℤ mgr.session_timeout
      → Meanwhile now limit (handle_signing_event x n s now m seen mgr).manager known
      → (msg : SigningMessage) × (x.decode_signing m.dat ≡ some msg)
        × (handle_signing_event x n s later again known after
            ≡ answered after (
                handle_signing_session_error msg.wallet_id msg.tx_id
                  (duplicate_text msg)
                  (codes "Duplicate session")
                  again))
  handle_signing_event-again now later limit m again seen mgr known after session key reached h d t
        l e steps =
      let (msg, (decoded, v, _, _, _, _, r)) =
        handle_signing_event-started now m seen mgr session key h in
      let added =
        subst (λ (k : Manager). Meanwhile now limit k known) (ap (λ (q : Handled). q.manager) r)
          steps in
      let there =
        has_session-Meanwhile now limit msg.wallet_id msg.tx_id mgr known
          (Reachable-Distinct mgr reached) t l e added in
      (
        msg,
        decoded,
        handle_signing_event-verified later again known after msg (ap x.decode_signing d ∙ decoded)
              v
            ∙ begin_signing-duplicate later again known after msg there,
      )
