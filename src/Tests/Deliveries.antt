-- ===== src/Tests/Deliveries.antt =====
-- Messages from one node to the other, and messages that neither of them sent.
use mpc_go.Common.{
  ◌≡◌, ◌≢◌, ◌∷◌, [], none, some, true, false, refl, codes, arith, same, same_iff, lookup, cut,
  bytes, digits,
}
use mpc_go.Party.{signer_node_id}
use mpc_go.Topic.{ecdsa, keygen}
use mpc_go.Messages.{TssMessage, new_tss_message}
use mpc_go.Identity.Store.{
  good, bad, sign_message, verify_message, marshal_for_signing, get_public_key, invalid_signature,
}
use mpc_go.PartySession.{
  updated, sent_to_other, published, send_failed, publish_failed, report_unless, handle_tss_message,
  receive_p2p_tss_message, receive_broadcast_tss_message,
}
use mpc_go.PartySession.Delivery.{
  receive_p2p-handle_tss_message, receive_broadcast-handle_tss_message, signed_message,
}
use mpc_go.Tests.Peers.{
  party_a, party_b, cipher, signatures, store_a, store_b, session_a, session_b, network, json_for,
  to_b, direct, self_a, cipher-AeadLaws, apart, shared_key, b_is_b, sealed_for_b,
}

receive_p2p-handle_tss_message_example :
    (handle_tss_message
        (json_for to_b)
        signatures
        cipher
        store_a
        network
        session_a
        (some (codes "hi", record { from = party_a; to = party_b ∷ []; is_broadcast = false }))
        (λ _. some (codes "n"))
      ≡ sent_to_other direct (codes "nkt")
        ∷ report_unless (network.send_to_other direct (codes "nkt")) (send_failed direct))
    × (receive_p2p_tss_message
          (json_for to_b)
          signatures
          cipher
          store_b
          network
          session_b
          direct
          (codes "nkt")
        ≡ updated (codes "hi") (some party_a) false ∷ [])
receive_p2p-handle_tss_message_example =
    receive_p2p-handle_tss_message (json_for to_b) signatures cipher cipher-AeadLaws network store_a
      store_b session_a session_b keygen ecdsa (codes "w") party_a party_b (codes "hi") false
      (λ _. some (codes "n")) (codes "n") (codes "t") (codes "nkt")
      (record { index = 1; round_msg = codes "r"; msg_identifier = codes "m" }) refl
      (rw self_a (omega arith)) (rw self_a refl) apart shared_key b_is_b refl refl refl refl refl
      sealed_for_b

signer_a : signer_node_id party_a ≡ codes "a"
unfolding signer_node_id cut bytes digits
signer_a = refl

known_a : lookup (signer_node_id party_a) store_b.public_keys ≡ some (codes "p")
unfolding lookup same
known_a = rw signer_a refl

abbrev to_all : TssMessage
to_all = signed_message session_a (codes "hi") party_a (codes "ps")

signed_by_a :
    sign_message
      (json_for to_all)
      signatures
      store_a
      (new_tss_message (codes "w") (codes "hi") true party_a [])
    ≡ good (codes "ps")
unfolding sign_message marshal_for_signing new_tss_message
signed_by_a = refl

receive_broadcast-handle_tss_message_example :
    (handle_tss_message
        (json_for to_all)
        signatures
        cipher
        store_a
        network
        session_a
        (some (codes "hi", record { from = party_a; to = []; is_broadcast = true }))
        (λ _. none)
      ≡ published (codes "all") (codes "t")
        ∷ report_unless (network.publish (codes "all") (codes "t")) publish_failed)
    × (receive_broadcast_tss_message
          (json_for to_all)
          signatures
          cipher
          store_b
          network
          session_b
          (codes "t")
        ≡ updated (codes "hi") (some party_a) true ∷ [])
receive_broadcast-handle_tss_message_example =
    receive_broadcast-handle_tss_message (json_for to_all) signatures cipher cipher-AeadLaws network
      store_a store_b session_a session_b party_a (codes "hi") (λ _. none) (codes "p") (codes "ps")
      (codes "t") (record { index = 1; round_msg = codes "r"; msg_identifier = codes "m" }) known_a
      (λ x. (same_iff _ _).1 refl) signed_by_a refl refl refl

abbrev forged : TssMessage
forged = signed_message session_a (codes "hi") party_a (codes "x")

forged_refused : verify_message (json_for forged) signatures store_b forged ≡ bad invalid_signature
unfolding verify_message marshal_for_signing get_public_key lookup same signer_node_id cut bytes
    digits new_tss_message
forged_refused = refl

forged_fails : verify_message (json_for forged) signatures store_b forged ≢ good tt
forged_fails e = ground (arith, forged_refused)

abbrev nameless : TssMessage
nameless = record to_all { from = none }
