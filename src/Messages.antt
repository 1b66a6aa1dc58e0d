-- ===== src/Messages.antt =====
-- The messages of pkg/types: what the initiator asks for, what a party of the protocol sends, and the
-- bytes of each that are signed. JSON is the library's: an encoder is an argument, and takes what is
-- encoded as a record of its fields.
use mpc_go.Common.{[], List, Option, none, some, Text, Bool, false, ℤ, codes}
use mpc_go.Party.{PartyId}
use mpc_go.ErrorCode.{ErrorCode}

pub record SigningMessage : Type 0 where
  pub key_type : Text
  pub wallet_id : Text
  pub tx_id : Text
  pub tx : Text
  pub signature : Text

pub record KeygenMessage : Type 0 where
  pub wallet_id : Text
  pub signature : Text

pub record ResharingMessage : Type 0 where
  pub session_id : Text
  pub node_ids : List Text
  pub new_threshold : ℤ
  pub key_type : Text
  pub wallet_id : Text
  pub signature : Text

-- The results that are published; `no_code` is that of a success.
pub record KeygenResponse : Type 0 where
  pub wallet_id : Text
  pub ecdsa_pub_key : Text
  pub eddsa_pub_key : Text
  pub error_code : ErrorCode
  pub error_reason : Text

pub record SigningResponse : Type 0 where
  pub error_code : ErrorCode
  pub error_reason : Text
  pub is_timeout : Bool
  pub wallet_id : Text
  pub tx_id : Text
  pub r : Text
  pub s : Text
  pub signature_recovery : Text
  pub signature : Text

pub record ResharingResponse : Type 0 where
  pub wallet_id : Text
  pub new_threshold : ℤ
  pub key_type : Text
  pub pub_key : Text
  pub error_code : ErrorCode
  pub error_reason : Text

abbrev pub key_type_secp256k1 : Text
key_type_secp256k1 = codes "secp256k1"

abbrev pub key_type_ed25519 : Text
key_type_ed25519 = codes "ed25519"

-- The interface of what carries a payload and the initiator's signature.
pub data InitiatorMessage : Type 0 where
  signing_message : SigningMessage → InitiatorMessage
  keygen_message : KeygenMessage → InitiatorMessage
  resharing_message : ResharingMessage → InitiatorMessage

-- The anonymous struct that `SigningMessage.Raw` encodes.
pub record SigningPayload : Type 0 where
  pub key_type : Text
  pub wallet_id : Text
  pub tx_id : Text
  pub tx : Text

-- `json.Marshal` on the two structs; `none` is its error.
pub record InitiatorJson : Type 0 where
  pub signing_json : SigningPayload → Option Text
  pub resharing_json : ResharingMessage → Option Text

unfoldable pub signing_payload : SigningMessage → SigningPayload
signing_payload m = record {
  key_type = m.key_type;
  wallet_id = m.wallet_id;
  tx_id = m.tx_id;
  tx = m.tx;
}

unfoldable pub raw : InitiatorJson → InitiatorMessage → Option Text
raw j (signing_message m) = j.signing_json (signing_payload m)
raw j (keygen_message m) = some m.wallet_id
raw j (resharing_message m) = j.resharing_json (record m { signature = [] })

unfoldable pub sig : InitiatorMessage → Text
sig (signing_message m) = m.signature
sig (keygen_message m) = m.signature
sig (resharing_message m) = m.signature

unfoldable pub initiator_id : InitiatorMessage → Text
initiator_id (signing_message m) = m.tx_id
initiator_id (keygen_message m) = m.wallet_id
initiator_id (resharing_message m) = m.wallet_id

-- A message of the protocol. `none` is the nil pointer and the nil slice.
pub record TssMessage : Type 0 where
  pub wallet_id : Text
  pub msg_bytes : Text
  pub is_broadcast : Bool
  pub from : Option PartyId
  pub to : List PartyId
  pub is_to_old_committee : Bool
  pub is_to_old_and_new_committees : Bool
  pub signature : Option Text

unfoldable pub new_tss_message : Text → Text → Bool → PartyId → List PartyId → TssMessage
new_tss_message wallet_id msg_bytes is_broadcast from to = record {
  wallet_id = wallet_id;
  msg_bytes = msg_bytes;
  is_broadcast = is_broadcast;
  from = some from;
  to = to;
  is_to_old_committee = false;
  is_to_old_and_new_committees = false;
  signature = none;
}

-- The map that `MarshalForSigning` encodes: of the sender only the random ID.
pub record SigningData : Type 0 where
  pub session_id : Text
  pub msg_bytes : Text
  pub is_broadcast : Bool
  pub from : Text
  pub to : List PartyId
  pub is_to_old_committee : Bool
  pub is_to_old_and_new_committees : Bool

unfoldable pub signing_data : TssMessage → PartyId → SigningData
signing_data m sender = record {
  session_id = m.wallet_id;
  msg_bytes = m.msg_bytes;
  is_broadcast = m.is_broadcast;
  from = sender.id;
  to = m.to;
  is_to_old_committee = m.is_to_old_committee;
  is_to_old_and_new_committees = m.is_to_old_and_new_committees;
}

-- JSON of a protocol message, as sent and as signed.
pub record TssJson : Type 0 where
  pub signing_json : SigningData → Option Text
  pub marshal_tss_message : TssMessage → Option Text
  pub unmarshal_tss_message : Text → Option TssMessage

pub record EcdhMessage : Type 0 where
  pub from : Text
  pub public_key : Text
  pub timestamp : ℤ
  pub signature : Option Text

-- The map of the three fields that are signed.
unfoldable pub ecdh_signing_data : EcdhMessage → Text × Text × ℤ
ecdh_signing_data m = (m.from, m.public_key, m.timestamp)
