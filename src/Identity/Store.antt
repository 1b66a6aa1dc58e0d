-- ===== src/Identity/Store.antt =====
-- The identity store of pkg/identity/identity.go: it signs and checks the messages of the protocol
-- and of the key exchange, encrypts what goes to one peer, and checks the initiator's signature.
use mpc_go.Common.{
  ◌==◌, List, Option, none, some, Text, Bool, true, false, not, if◌then◌else◌, lookup, length, ℤ,
}
use mpc_go.Party.{signer_node_id}
use mpc_go.Encryption.{
  Aead, Crypted, crypted, refused, CipherError, P256PublicKey, encrypt_aes_gcm_with_nonce_embed,
  decrypt_aes_gcm_with_nonce_embed, verify_p256_signature,
}
use mpc_go.Messages.{
  InitiatorMessage, InitiatorJson, raw, sig, TssMessage, TssJson, signing_data, EcdhMessage,
  ecdh_signing_data,
}
use mpc_go.Identity.{SymmetricKeys, get_symmetric_key}

-- Go's ed25519, sha256 and ecdsa, for keys of the right size: on others `ed25519.Sign` and
-- `ed25519.Verify` panic, which is not modelled.
pub record Signatures : Type 0 where
  pub ed25519_sign : Text → Text → Text  -- private key, message
  pub ed25519_verify : Text → Text → Text → Bool  -- public key, message, signature
  pub sha256 : Text → Text
  pub verify_asn1 : Text → Text → Text → Bool  -- point, hash, signature

pub data Algorithm : Type 0 where
  ed25519 p256 : Algorithm
  other_algorithm : Text → Algorithm

pub record InitiatorKey : Type 0 where
  pub algorithm : Algorithm
  pub ed25519_key : Text
  pub p256_key : Option P256PublicKey

pub record FileStore : Type 0 where
  pub public_keys : List (Text × Text)
  pub private_key : Text
  pub initiator_key : InitiatorKey
  pub symmetric_keys : SymmetricKeys

pub data IdentityError : Type 0 where
  no_signature no_public_key not_marshalled invalid_signature : IdentityError
  no_symmetric_key : IdentityError
  cipher_error : CipherError → IdentityError
  signature_is_empty no_raw_data key_is_not_set unsupported_algorithm : IdentityError

-- What a method returns; `panicked` is a nil pointer that it follows.
pub data Result {ℓ} (A : Type ℓ) : Type ℓ where
  good : A → Result A
  bad : IdentityError → Result A
  panicked : Result A

infixl 5 ◌>>=◌
abbrev pub ◌>>=◌ {ℓ κ} : {A : Type ℓ} {B : Type κ} → Result A → (A → Result B) → Result B
good a >>= f = f a
bad e >>= f = bad e
panicked >>= f = panicked

abbrev pub some_or {ℓ} : {A : Type ℓ} → IdentityError → Option A → Result A
some_or e none = bad e
some_or e (some a) = good a

abbrev pub not_nil {ℓ} : {A : Type ℓ} → Option A → Result A
not_nil none = panicked
not_nil (some a) = good a

abbrev pub check : Bool → IdentityError → Result (Unit {0})
check true e = good tt
check false e = bad e

unfoldable pub get_public_key : FileStore → Text → Result Text
get_public_key s node_id = some_or no_public_key (lookup node_id s.public_keys)

-- `MarshalForSigning`, which follows the pointer to the sender.
unfoldable pub marshal_for_signing : TssJson → TssMessage → Result Text
marshal_for_signing j m = do
  p ← not_nil m.from
  some_or not_marshalled (j.signing_json (signing_data m p))

unfoldable pub sign_message : TssJson → Signatures → FileStore → TssMessage → Result Text
sign_message j c s m = do
  msg_bytes ← marshal_for_signing j m
  good (c.ed25519_sign s.private_key msg_bytes)

unfoldable pub verify_message : TssJson → Signatures → FileStore → TssMessage → Result (Unit {0})
verify_message j c s m = do
  signature ← some_or no_signature m.signature
  sender ← not_nil m.from
  public_key ← get_public_key s (signer_node_id sender)
  msg_bytes ← marshal_for_signing j m
  check (c.ed25519_verify public_key msg_bytes signature) invalid_signature

abbrev pub decoded : Crypted → Result Text
decoded (crypted t) = good t
decoded (refused e) = bad (cipher_error e)

-- The key of a peer; an empty one counts as none.
abbrev pub key_for : FileStore → Text → Result Text
key_for s peer_id = do
  key ← some_or no_symmetric_key (get_symmetric_key s.symmetric_keys peer_id)
  if length key == 0 then bad no_symmetric_key else good key

-- The nonce is the one that is drawn.
unfoldable pub encrypt_message : Aead → FileStore → Option Text → Text → Text → Result Text
encrypt_message a s nonce plaintext peer_id = do
  key ← key_for s peer_id
  decoded (encrypt_aes_gcm_with_nonce_embed a nonce plaintext key)

unfoldable pub decrypt_message : Aead → FileStore → Text → Text → Result Text
decrypt_message a s cipher peer_id = do
  key ← key_for s peer_id
  decoded (decrypt_aes_gcm_with_nonce_embed a cipher key)

-- The key exchange's messages; the first argument encodes the map of what is signed.
unfoldable pub sign_ecdh_message :
    (Text × Text × ℤ → Option Text) → Signatures → FileStore → EcdhMessage → Result Text
sign_ecdh_message encode c s m = do
  msg_bytes ← some_or not_marshalled (encode (ecdh_signing_data m))
  good (c.ed25519_sign s.private_key msg_bytes)

unfoldable pub verify_signature :
    (Text × Text × ℤ → Option Text) → Signatures → FileStore → EcdhMessage → Result (Unit {0})
verify_signature encode c s m = do
  signature ← some_or no_signature m.signature
  sender_pk ← get_public_key s m.from
  msg_bytes ← some_or not_marshalled (encode (ecdh_signing_data m))
  check (c.ed25519_verify sender_pk msg_bytes signature) invalid_signature

unfoldable pub verify_ed25519 :
    InitiatorJson → Signatures → FileStore → InitiatorMessage → Result (Unit {0})
verify_ed25519 j c s m = do
  msg_bytes ← some_or no_raw_data (raw j m)
  _ ← check (not (length (sig m) == 0)) signature_is_empty
  check (c.ed25519_verify s.initiator_key.ed25519_key msg_bytes (sig m)) invalid_signature

unfoldable pub verify_p256 :
    InitiatorJson → Signatures → FileStore → InitiatorMessage → Result (Unit {0})
verify_p256 j c s m = do
  msg_bytes ← some_or no_raw_data (raw j m)
  key ← some_or key_is_not_set s.initiator_key.p256_key
  check (verify_p256_signature c.sha256 c.verify_asn1 (some key) msg_bytes (sig m))
      invalid_signature

unfoldable pub verify_initiator_message :
    InitiatorJson → Signatures → FileStore → InitiatorMessage → Result (Unit {0})
verify_initiator_message j c s m = elim s.initiator_key.algorithm [
  | ed25519 ↦ verify_ed25519 j c s m
  | p256 ↦ verify_p256 j c s m
  | other_algorithm _ ↦ bad unsupported_algorithm
]
