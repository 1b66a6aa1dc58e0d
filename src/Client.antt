-- ===== src/Client.antt =====
-- The client that asks for keys, signatures and resharings (pkg/client/client.go). The signer, JSON and the
-- broker's answer are arguments.
pub mod Verified
pub mod Signer
use mpc_go.Common.{
  ◌∷◌, ◌++◌, [], List, Option, none, some, Text, Bool, true, false, codes, if◌then◌else◌,
}
use mpc_go.Messages.{
  SigningMessage, KeygenMessage, ResharingMessage, InitiatorMessage, signing_message,
  keygen_message, resharing_message, InitiatorJson, raw,
}

pub data ClientError : Type 0 where
  raw_payload_error sign_error marshal_error publish_error : ClientError

-- What a method publishes: the subject and the bytes; or its error.
pub data Sent : Type 0 where
  sent : Text → Text → Sent
  failed : ClientError → Sent

-- What the methods use: the encoders of what is signed and of the message itself, the signer, and whether
-- the broker takes the message.
pub record Initiator : Type 0 where
  pub payload_json : InitiatorJson
  pub sign : Text → Option Text
  pub message_json : InitiatorMessage → Option Text
  pub is_published : Text → Text → Bool

unfoldable pub with_signature : Text → InitiatorMessage → InitiatorMessage
with_signature signature (signing_message m) = signing_message (record m { signature = signature })
with_signature signature (keygen_message m) = keygen_message (record m { signature = signature })
with_signature signature (resharing_message m) =
    resharing_message (record m { signature = signature })

unfoldable pub publish : Initiator → Text → Text → Sent
publish c topic bytes =
    if c.is_published topic bytes then sent topic bytes else failed publish_error

-- The steps that the three methods share.
unfoldable pub send_request : Initiator → Text → InitiatorMessage → Sent
send_request c topic m = elim (raw c.payload_json m) [
  | none ↦ failed raw_payload_error
  | some payload ↦ elim (c.sign payload) [
    | none ↦ failed sign_error
    | some signature ↦ elim (c.message_json (with_signature signature m)) [
      | none ↦ failed marshal_error
      | some bytes ↦ publish c topic bytes
    ]
  ]
]

unfoldable pub create_wallet : Initiator → Text → Sent
create_wallet c wallet_id =
    send_request c (codes "mpc.keygen_request." ++ wallet_id)
      (keygen_message (record { wallet_id = wallet_id; signature = [] }))

unfoldable pub sign_transaction : Initiator → SigningMessage → Sent
sign_transaction c m = send_request c (codes "mpc.signing_request." ++ m.tx_id) (signing_message m)

unfoldable pub resharing : Initiator → ResharingMessage → Sent
resharing c m = send_request c (codes "mpc.resharing_request." ++ m.wallet_id) (resharing_message m)

-- What the callbacks of the three `On...Result` methods make of a message: a decoded result goes to the
-- caller's callback, an error to the queue.
pub data Heard {ℓ} (R : Type ℓ) : Type ℓ where
  called : R → Heard R
  not_decoded : Heard R

unfoldable pub on_result {ℓ} : {R : Type ℓ} → (Text → Option R) → Text → Heard R
on_result decode msg = elim (decode msg) [ none ↦ not_decoded | some event ↦ called event ]
