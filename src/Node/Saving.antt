-- ===== src/Node/Saving.antt =====
-- How a session of the protocol ends: `GenerateKey`, `Reshare` and `Sign` of pkg/mpc/ecdsa and pkg/mpc/eddsa
-- (keygen.go, resharing.go, signing.go) from what the protocol has produced on.
pub mod Laws
use mpc_go.Common.{
  ◌∷◌, ◌+◌, [], List, Option, none, some, Text, Bool, true, false, not, codes, insert,
  if◌then◌else◌,
}
use mpc_go.Topic.{Curve, ecdsa, eddsa, compose_key, wallet_id_with_version}
use mpc_go.KeyInfo.{KeyInfo, Store}
use mpc_go.KeyInfo
use mpc_go.ErrorCode.{no_code}
use mpc_go.Messages.{SigningResponse}
use mpc_go.Node.{Session, ResharingSession}
use mpc_go.Node.Resharing.{saved_key_info}

-- The node's key-value store and the key info store.
pub record Stores : Type 0 where
  pub kvstore : List (Text × Text)
  pub keyinfo_store : Store

-- What the protocol has produced: its JSON, `none` if that fails, whether the key-value store takes it and
-- the key info store answers at that moment, and its public key as it is encoded.
pub record SaveData : Type 0 where
  pub key_bytes : Option Text
  pub is_put : Bool
  pub is_saved : Bool
  pub pub_key_bytes : Text

pub data SaveError : Type 0 where
  not_marshalled not_stored key_info_not_saved : SaveError

-- How a session ends: with its public key, or with an error on `ErrCh`.
pub data Ended : Type 0 where
  finished : Text → Ended
  failed : SaveError → Ended

-- The share is stored under the wallet's version, then the key info under the wallet.
unfoldable pub save_share : Curve → Text → KeyInfo → SaveData → Stores → Stores × Ended
save_share c wallet_id info d st = elim d.key_bytes [
  | none ↦ (st, failed not_marshalled)
  | some key_bytes ↦
      if not d.is_put
      then (st, failed not_stored)
      else let kv =
          insert (compose_key c (wallet_id_with_version wallet_id info.version)) key_bytes
            st.kvstore in
        elim (KeyInfo.save (record st.keyinfo_store { available = d.is_saved })
          (compose_key c wallet_id) info) [
            | none ↦ (record st { kvstore = kv }, failed key_info_not_saved)
            | some saved ↦ (
              record {
                kvstore = kv;
                keyinfo_store = record st.keyinfo_store { entries = saved.entries };
              },
              finished d.pub_key_bytes,
            )
          ]
]

abbrev pub generated_key_info : Session → KeyInfo
generated_key_info s = record {
  participant_peer_ids = s.participant_peer_ids;
  threshold = s.threshold;
  version = s.version;
}

unfoldable pub generate_key : Session → SaveData → Stores → Stores × Ended
generate_key s d st = save_share s.curve s.wallet_id (generated_key_info s) d st

-- `none` is what the old committee gets: no public key; the session's stays nil.
unfoldable pub reshare : ResharingSession → Option SaveData → Stores → Stores × Ended
reshare s none st = (st, finished [])
reshare s (some d) st = save_share s.session.curve s.session.wallet_id (saved_key_info s) d st

-- A signature of the protocol; an EdDSA response carries `signature` alone.
pub record SignatureData : Type 0 where
  pub r : Text
  pub s : Text
  pub signature_recovery : Text
  pub signature : Text

unfoldable pub signing_success : Curve → Text → Text → SignatureData → SigningResponse
signing_success ecdsa wallet_id tx_id sig = record {
  error_code = no_code;
  error_reason = [];
  is_timeout = false;
  wallet_id = wallet_id;
  tx_id = tx_id;
  r = sig.r;
  s = sig.s;
  signature_recovery = sig.signature_recovery;
  signature = [];
}
signing_success eddsa wallet_id tx_id sig = record {
  error_code = no_code;
  error_reason = [];
  is_timeout = false;
  wallet_id = wallet_id;
  tx_id = tx_id;
  r = [];
  s = [];
  signature_recovery = [];
  signature = sig.signature;
}

-- What `Sign` does with a signature: whether it verifies under the share's public key, the response's JSON,
-- and whether the queue takes it; it publishes at most once, and then calls `onSuccess`.
pub data Signed : Type 0 where
  sign_error : Text → Signed
  signed : SigningResponse → Text → Text → Signed  -- response, bytes, idempotent key

unfoldable pub sign_result :
    (SignatureData → Bool)
    → (SigningResponse → Option Text)
    → Bool
    → Session
    → Text
    → Text
    → SignatureData
    → Signed
sign_result verify marshal is_enqueued s tx_id idempotent_key sig =
    if not (verify sig)
    then sign_error (codes "Failed to verify signature")
    else elim (marshal (signing_success s.curve s.wallet_id tx_id sig)) [
      | none ↦ sign_error (codes "Failed to marshal raw signature")
      | some bytes ↦
          if is_enqueued
          then signed (signing_success s.curve s.wallet_id tx_id sig) bytes idempotent_key
          else sign_error (codes "Failed to publish sign success message")
    ]
