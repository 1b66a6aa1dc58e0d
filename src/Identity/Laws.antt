-- ===== src/Identity/Laws.antt =====
-- What the identity store guarantees about signed and encrypted messages.
use mpc_go.Common.{◌≡◌, refl, none, some, Text, true, lookup, length, arith, Option-cases, inl, inr}
use mpc_go.Party.{PartyId, signer_node_id}
use mpc_go.Encryption.{Aead, AeadLaws}
use mpc_go.Encryption.Laws.{decrypt-encrypt}
use mpc_go.Messages.{
  InitiatorMessage, InitiatorJson, keygen_message, raw, sig, TssMessage, TssJson, signing_data,
}
use mpc_go.Identity.{get_symmetric_key}
use mpc_go.Identity.Store.{
  Signatures, FileStore, good, panicked, get_public_key, marshal_for_signing, sign_message,
  verify_message, encrypt_message, decrypt_message, verify_ed25519, verify_p256,
  verify_initiator_message,
}

-- The signature that a node makes on a protocol message verifies at every node that has the public key
-- of its private key under the node ID in the message's sender.
pub verify_message-sign_message :
    (j : TssJson) (c : Signatures) (s r : FileStore) (m : TssMessage) (sender : PartyId)
    (public_key signature : Text)
    → m.from ≡ some sender
    → lookup (signer_node_id sender) r.public_keys ≡ some public_key
    → ((t : Text) → c.ed25519_verify public_key t (c.ed25519_sign s.private_key t) ≡ true)
    → sign_message j c s m ≡ good signature
    → verify_message j c r (record m { signature = some signature }) ≡ good tt
unfolding sign_message verify_message get_public_key marshal_for_signing signing_data
verify_message-sign_message j c s r m sender public_key signature f k v e =
    elim (Option-cases (j.signing_json (signing_data m sender))) [
      | inl h ↦ ground arith
      | inr (t, h) ↦ ground (arith, v t)
    ]

-- A message that has a signature and no sender stops the node that checks it, whatever the signature.
pub verify_message-no_sender :
    (j : TssJson) (c : Signatures) (r : FileStore) (m : TssMessage) (signature : Text)
    → m.signature ≡ some signature
    → m.from ≡ none
    → verify_message j c r m ≡ panicked
unfolding verify_message
verify_message-no_sender j c r m signature e f = rw (e, f) refl

-- What a node encrypts for a peer, the peer decrypts, if the two have the same key for each other and
-- the nonce has the cipher's size.
pub decrypt_message-encrypt_message :
    (a : Aead)
    → AeadLaws a
    → (s r : FileStore) (self peer : Text) (nonce plaintext cipher : Text)
    → get_symmetric_key s.symmetric_keys peer ≡ get_symmetric_key r.symmetric_keys self
    → length nonce ≡ a.nonce_size
    → encrypt_message a s (some nonce) plaintext peer ≡ good cipher
    → decrypt_message a r cipher self ≡ good plaintext
unfolding encrypt_message decrypt_message
decrypt_message-encrypt_message a laws s r self peer nonce plaintext cipher k size e =
    elim (Option-cases (get_symmetric_key r.symmetric_keys self)) [
      | inl h ↦ ground arith
      | inr (key, h) ↦ ground (arith, decrypt-encrypt a laws nonce plaintext key cipher size)
    ]

-- Both checks read only the text and the signature.
module _ (j : InitiatorJson) (c : Signatures) (s : FileStore) (m n : InitiatorMessage) where
  same_ed25519 : raw j m ≡ raw j n → sig m ≡ sig n → verify_ed25519 j c s m ≡ verify_ed25519 j c s n
  unfolding verify_ed25519
  same_ed25519 p q = rw (p, q) refl

  same_p256 : raw j m ≡ raw j n → sig m ≡ sig n → verify_p256 j c s m ≡ verify_p256 j c s n
  unfolding verify_p256
  same_p256 p q = rw (p, q) refl

  same_check :
      raw j m ≡ raw j n
      → sig m ≡ sig n
      → verify_initiator_message j c s m ≡ verify_initiator_message j c s n
  unfolding verify_initiator_message
  same_check p q = ground (arith, same_ed25519 p q, same_p256 p q)

-- A signature on any message of the initiator is one on the request to make a key for the wallet whose
-- ID is the text that was signed: the two messages pass the check together.
pub verify_initiator_message-keygen_message :
    (j : InitiatorJson) (c : Signatures) (s : FileStore) (m : InitiatorMessage) (t : Text)
    → raw j m ≡ some t
    → verify_initiator_message j c s m
      ≡ verify_initiator_message j c s
          (keygen_message (record { wallet_id = t; signature = sig m }))
unfolding raw sig
verify_initiator_message-keygen_message j c s m t e =
    same_check j c s m (keygen_message (record { wallet_id = t; signature = sig m })) e refl
