-- ===== src/Client/Verified.antt =====
-- What the client sends is what the nodes accept.
use mpc_go.Common.{
  ◌≡◌, ◌==◌, ◌∙◌, none, some, Text, Bool, true, false, arith, refl, ap, Option-cases, inl, inr,
  length, if◌then◌else◌, ℕ,
}
use mpc_go.Encryption.{verify_p256_signature}
use mpc_go.Messages.{
  SigningMessage, InitiatorMessage, signing_message, keygen_message, resharing_message,
  InitiatorJson, raw, sig, signing_payload,
}
use mpc_go.Identity.Store.{
  Signatures, FileStore, Algorithm, ed25519, p256, other_algorithm, good, verify_initiator_message,
  verify_ed25519, verify_p256,
}
use mpc_go.Session.{Manager}
use mpc_go.Node.{Node}
use mpc_go.EventConsumer.{NatsMsg, Surroundings, begin_signing, handle_signing_event}
use mpc_go.EventConsumer.Signing.{handle_signing_event-verified}
use mpc_go.Client.{Initiator, sent, with_signature, publish, send_request, sign_transaction}

raw-with_signature :
    (j : InitiatorJson) (signature : Text) (m : InitiatorMessage)
    → raw j (with_signature signature m) ≡ raw j m
unfolding raw with_signature signing_payload
raw-with_signature j signature (signing_message m) = refl
raw-with_signature j signature (keygen_message m) = refl
raw-with_signature j signature (resharing_message m) = refl

sig-with_signature :
    (signature : Text) (m : InitiatorMessage) → sig (with_signature signature m) ≡ signature
unfolding sig with_signature
sig-with_signature signature (signing_message m) = refl
sig-with_signature signature (keygen_message m) = refl
sig-with_signature signature (resharing_message m) = refl

-- A node's initiator key accepts this signature of these bytes.
abbrev accepts : Signatures → FileStore → Algorithm → Text → Text → Bool
accepts c s ed25519 payload signature =
    if length signature == 0
    then false
    else c.ed25519_verify s.initiator_key.ed25519_key payload signature
accepts c s p256 payload signature = elim s.initiator_key.p256_key [
  | none ↦ false
  | some key ↦ verify_p256_signature c.sha256 c.verify_asn1 (some key) payload signature
]
accepts c s (other_algorithm _) payload signature = false

abbrev pub is_accepted : Signatures → FileStore → Text → Text → Bool
is_accepted c s payload signature = accepts c s s.initiator_key.algorithm payload signature

verified :
    (j : InitiatorJson) (c : Signatures) (s : FileStore) (m : InitiatorMessage)
    (payload signature : Text)
    → raw j m ≡ some payload
    → is_accepted c s payload signature ≡ true
    → verify_initiator_message j c s (with_signature signature m) ≡ good tt
unfolding verify_initiator_message verify_ed25519 verify_p256
verified j c s m payload signature r a =
    ground (arith, raw-with_signature j signature m, sig-with_signature signature m)

request_sent :
    (x : Initiator) (topic t bytes : Text) (m : InitiatorMessage)
    → send_request x topic m ≡ sent t bytes
    → (payload : Text) × ((signature : Text) × (raw x.payload_json m ≡ some payload)
        × (x.sign payload ≡ some signature)
        × (x.message_json (with_signature signature m) ≡ some bytes)
        × (t ≡ topic))
unfolding send_request publish
request_sent x topic t bytes m h = elim (Option-cases (raw x.payload_json m)) [
  | inl r ↦ absurd (ground arith)
  | inr (payload, r) ↦ elim (Option-cases (x.sign payload)) [
    | inl g ↦ absurd (ground arith)
    | inr (signature, g) ↦ elim (Option-cases (x.message_json (with_signature signature m))) [
      | inl b ↦ absurd (ground arith)
      | inr (made, b) ↦ (payload, (signature, r, g, ground arith, ground arith))
    ]
  ]
]

-- What a client publishes is its request with a signature that a node accepts, if the node's initiator key
-- accepts what the client's signer signs.
pub send_request-verified :
    (x : Initiator) (c : Signatures) (s : FileStore) (topic t bytes : Text) (m : InitiatorMessage)
    → ((payload signature : Text)
        → x.sign payload ≡ some signature
        → is_accepted c s payload signature ≡ true)
    → send_request x topic m ≡ sent t bytes
    → (signature : Text) × (x.message_json (with_signature signature m) ≡ some bytes)
      × (t ≡ topic)
      × (verify_initiator_message x.payload_json c s (with_signature signature m) ≡ good tt)
send_request-verified x c s topic t bytes m law h =
    let (payload, (signature, r, g, b, e)) = request_sent x topic t bytes m h in
    (signature, b, e, verified x.payload_json c s m payload signature r (law payload signature g))

-- The transaction that a client asks to sign reaches, at a node that shares its encoding and accepts its
-- signer, the check for a duplicate session: no request of it is dropped as unreadable or unverified.
pub handle-sign_transaction :
    (x : Initiator) (u : Surroundings) (n : Node) (s : FileStore) (now : ℕ) (seen mgr : Manager)
    (t : Text) (m : SigningMessage) (message : NatsMsg)
    → u.initiator_json ≡ x.payload_json
    → ((payload signature : Text)
        → x.sign payload ≡ some signature
        → is_accepted u.signatures s payload signature ≡ true)
    → ((signature : Text)
        → x.message_json (with_signature signature (signing_message m)) ≡ some message.dat
        → u.decode_signing message.dat ≡ some (record m { signature = signature }))
    → sign_transaction x m ≡ sent t message.dat
    → (signature : Text) × (handle_signing_event u n s now message seen mgr
        ≡ begin_signing u n s now message (record m { signature = signature }) seen mgr)
unfolding sign_transaction with_signature
handle-sign_transaction x u n s now seen mgr t m message j law json h =
    let (signature, b, _, v) =
      send_request-verified x u.signatures s _ t message.dat (signing_message m) law h in
    (
      signature,
      handle_signing_event-verified u n s now message seen mgr (record m { signature = signature })
          (json signature b)
          (ap
              (λ z.
                verify_initiator_message z u.signatures s
                  (signing_message (record m { signature = signature })))
              j
            ∙ v),
    )
