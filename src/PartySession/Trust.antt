-- ===== src/PartySession/Trust.antt =====
-- What a session takes from the message system without a check, and what it refuses.
use mpc_go.Common.{
  ◌≡◌, ◌≢◌, ◌==◌, ◌∷◌, ◌∙◌, ◌⊎◌, [], ap, none, some, Text, false, same_iff, length, Lacks, arith,
}
use mpc_go.Topic.{Protocol, Curve, compose_direct_topic}
use mpc_go.Topic.Laws.{extract_sender-compose_direct_topic}
use mpc_go.Encryption.{Aead}
use mpc_go.Messages.{TssMessage, TssJson}
use mpc_go.Identity.Store.{Signatures, FileStore, good, verify_message}
use mpc_go.Identity.Laws.{verify_message-no_sender}
use mpc_go.PartySession.{
  PartySession, Network, reported, crashed, verify_failed, self_id, receive_tss_message,
  receive_from, receive_p2p_tss_message, receive_broadcast_tss_message,
}

module _ (j : TssJson) (c : Signatures) (a : Aead) (r : FileStore) (net : Network) where
  receive_from_self :
      (rs : PartySession) (t : Text) (m : TssMessage)
      → (length (self_id rs) == 0) ≡ false
      → j.unmarshal_tss_message t ≡ some m
      → receive_from j c a r net rs (self_id rs) t ≡ receive_tss_message j c a r net rs m
  unfolding receive_from
  receive_from_self rs t m e f = ground (arith, same_iff (self_id rs) (self_id rs))

  -- Any message that arrives on the topic from a node to itself is received as it stands: it is neither
  -- decrypted nor are its signature and its sender looked at.
  pub receive_p2p-own_topic :
      (rs : PartySession) (p : Protocol) (v : Curve) (id t : Text) (m : TssMessage)
      → Lacks b':' (self_id rs)
      → (length (self_id rs) == 0) ≡ false
      → j.unmarshal_tss_message t ≡ some m
      → receive_p2p_tss_message j c a r net rs
          (compose_direct_topic p v (self_id rs) (self_id rs) id)
          t
        ≡ receive_tss_message j c a r net rs m
  unfolding receive_p2p_tss_message
  receive_p2p-own_topic rs p v id t m l e f =
      ap (λ x. receive_from j c a r net rs x t)
        (extract_sender-compose_direct_topic p v (self_id rs) (self_id rs) id l)
      ∙ receive_from_self rs t m e f

  -- A broadcast whose signature does not verify goes no further: it is reported, or it stops the node.
  pub receive_broadcast-unverified :
      (rs : PartySession) (t : Text) (m : TssMessage)
      → j.unmarshal_tss_message t ≡ some m
      → verify_message j c r m ≢ good tt
      → (receive_broadcast_tss_message j c a r net rs t ≡ reported verify_failed ∷ [])
        ⊎ (receive_broadcast_tss_message j c a r net rs t ≡ crashed ∷ [])
  unfolding receive_broadcast_tss_message
  receive_broadcast-unverified rs t m f v = ground arith

  -- A broadcast that has some signature and names no sender stops every node that receives it.
  pub receive_broadcast-no_sender :
      (rs : PartySession) (t signature : Text) (m : TssMessage)
      → j.unmarshal_tss_message t ≡ some m
      → m.signature ≡ some signature
      → m.from ≡ none
      → receive_broadcast_tss_message j c a r net rs t ≡ crashed ∷ []
  unfolding receive_broadcast_tss_message
  receive_broadcast-no_sender rs t signature m f e n =
      ground (arith, verify_message-no_sender j c r m signature e n)
