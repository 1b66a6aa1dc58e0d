-- ===== src/Tests/Initiators.antt =====
-- Requests of the initiator, what one node encrypts for the other, and the versions of a share.
use mpc_go.Common.{◌≡◌, ◌==◌, ◌∷◌, [], none, some, refl, codes, same, lookup, insert, if◌then◌else◌}
use mpc_go.Topic.{ecdsa, compose_key, wallet_id_with_version}
use mpc_go.Messages.{SigningMessage, InitiatorJson, InitiatorMessage, signing_message, raw, sig}
use mpc_go.Identity.Store.{good, verify_initiator_message, verify_ed25519}
use mpc_go.PartySession.{load_old_share_data_generic}
use mpc_go.PartySession.Shares.{load_old_share_data-insert, decoded_share}
use mpc_go.Tests.Peers.{signatures, store_a}

abbrev pub signing_request : SigningMessage
signing_request = record {
  key_type = codes "secp256k1";
  wallet_id = codes "w";
  tx_id = codes "x";
  tx = codes "d";
  signature = codes "ij";
}

abbrev pub request : InitiatorMessage
request = signing_message signing_request

abbrev pub initiator_json : InitiatorJson
initiator_json = record { signing_json = λ _. some (codes "j"); resharing_json = λ _. none }

-- The signed request passes.
pub request_passes : verify_initiator_message initiator_json signatures store_a request ≡ good tt
unfolding verify_initiator_message verify_ed25519 raw sig same
request_passes = refl

load_old_share_data-insert_example :
    load_old_share_data_generic
      (compose_key ecdsa)
      (λ k. lookup k (
        insert
          (compose_key ecdsa (wallet_id_with_version (codes "w") 2))
          (codes "new")
          ((codes "ecdsa:w_v1", codes "old") ∷ [])))
      some
      (codes "w")
      1
    ≡ (if 2 == 1
        then decoded_share some ecdsa (codes "w") (some (codes "new"))
        else load_old_share_data_generic
            (compose_key ecdsa)
            (λ k. lookup k ((codes "ecdsa:w_v1", codes "old") ∷ []))
            some
            (codes "w")
            1)
load_old_share_data-insert_example =
    load_old_share_data-insert some ecdsa (codes "w") ((codes "ecdsa:w_v1", codes "old") ∷ []) 2 1
      (codes "new")
