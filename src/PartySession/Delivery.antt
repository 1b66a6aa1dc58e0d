-- ===== src/PartySession/Delivery.antt =====
-- What a session sends, the addressed session hands to its party: direct messages under encryption,
-- broadcasts under a signature.
use mpc_go.Common.{
  append_nil, ℕ, ◌≡◌, ◌==◌, ◌∷◌, ◌&&◌, ◌||◌, ◌∙◌, [], refl, ap, Option, some, Text, Bool, true,
  false, same, same_iff, length, lookup, Lacks, arith,
}
use mpc_go.Party.{PartyId, party_id_to_node_id, compare_party_ids, signer_node_id}
use mpc_go.Topic.{Protocol, Curve, compose_direct_topic}
use mpc_go.Topic.Laws.{extract_sender-compose_direct_topic}
use mpc_go.Encryption.{Aead, AeadLaws}
use mpc_go.Messages.{TssMessage, TssJson, new_tss_message}
use mpc_go.Identity.{get_symmetric_key}
use mpc_go.Identity.Store.{
  Signatures, FileStore, good, sign_message, encrypt_message, verify_message,
}
use mpc_go.Identity.Laws.{decrypt_message-encrypt_message, verify_message-sign_message}
use mpc_go.PartySession.{
  PartySession, Network, RoundInfo, updated, sent_to_other, published, publish_failed, send_failed,
  report_unless, self_id, is_to_self, send_direct, send_all, send_p2p, send_broadcast,
  handle_tss_message, receive_tss_message, receive_plaintext, receive_from, receive_p2p_tss_message,
  receive_broadcast_tss_message,
}

-- Two party IDs with the same key are of the same node.
pub compare_party_ids-node_id :
    (x y : PartyId)
    → compare_party_ids x y ≡ true
    → party_id_to_node_id (some x) ≡ party_id_to_node_id (some y)
unfolding compare_party_ids party_id_to_node_id
compare_party_ids-node_id x y h = rw ((same_iff _ _).0 h) refl

-- The broadcast with its signature.
abbrev pub signed_message : PartySession → Text → PartyId → Text → TssMessage
signed_message ps msg_bytes from signature =
    record (new_tss_message ps.wallet_id msg_bytes true from []) { signature = some signature }

module _ (j : TssJson) (c : Signatures) (a : Aead) (aead_laws : AeadLaws a) (net : Network) where
  -- What a node encrypts for this session's node, the session receives under the other's ID, if the two
  -- are different nodes that have the same key for each other.
  pub receive_from-encrypt_message :
      (s r : FileStore) (rs : PartySession) (sender_id : Text) (m : TssMessage)
      (nonce t cipher : Text)
      → (length sender_id == 0) ≡ false
      → same sender_id (self_id rs) ≡ false
      → get_symmetric_key s.symmetric_keys (self_id rs)
        ≡ get_symmetric_key r.symmetric_keys sender_id
      → length nonce ≡ a.nonce_size
      → j.unmarshal_tss_message t ≡ some m
      → encrypt_message a s (some nonce) t (self_id rs) ≡ good cipher
      → receive_from j c a r net rs sender_id cipher ≡ receive_tss_message j c a r net rs m
  unfolding receive_from
  receive_from-encrypt_message s r rs sender_id m nonce t cipher e n k size f g =
      rw
        (
          e,
          n,
          decrypt_message-encrypt_message a aead_laws s r sender_id (self_id rs) nonce t cipher k
              size g,
        )
        (rw (receive_plaintext, f) refl)

  -- An addressed message with a sender and a sound share goes to the party.
  receive_tss_message-addressed :
      (r : FileStore) (rs : PartySession) (m : TssMessage) (from : PartyId) (info : RoundInfo)
      → rs.get_round m.msg_bytes rs.self_party_id m.is_broadcast ≡ some info
      → m.from ≡ some from
      → ((m.is_broadcast && (length m.to == 0)) || is_to_self rs.self_party_id m.to) ≡ true
      → receive_tss_message j c a r net rs m ≡ updated m.msg_bytes (some from) m.is_broadcast ∷ []
  unfolding receive_tss_message
  receive_tss_message-addressed r rs m from info g f h = ground arith

  -- To another node the cipher goes out on the direct topic.
  send_direct-other :
      (s : FileStore) (ps : PartySession) (to : PartyId) (drawn : Option Text)
      (other topic msg cipher : Text)
      → party_id_to_node_id (some to) ≡ other
      → ps.compose_direct_topic (self_id ps) other ≡ topic
      → same (self_id ps) other ≡ false
      → encrypt_message a s drawn msg other ≡ good cipher
      → send_direct j c a s net ps msg drawn to
        ≡ sent_to_other topic cipher
          ∷ report_unless (net.send_to_other topic cipher) (send_failed topic)
  unfolding send_direct
  send_direct-other s ps to drawn other topic msg cipher o t h e = rw (o) (rw (t, h, e) refl)

  send_p2p-single :
      (s : FileStore) (ps : PartySession) (m : TssMessage) (to : PartyId) (draw : ℕ → Option Text)
      (msg : Text)
      → m.to ≡ to ∷ []
      → j.marshal_tss_message m ≡ some msg
      → send_p2p j c a s net ps m draw ≡ send_direct j c a s net ps msg (draw 0) to
  unfolding send_p2p send_all
  send_p2p-single s ps m to draw msg e f =
      ground (arith, append_nil (send_direct j c a s net ps msg (draw 0) to))

  -- A party's message for one other party goes out once, under encryption, on the topic from the one
  -- node to the other; when what is sent arrives there, that party gets the message's bytes, sender
  -- and flag, and nothing else happens. The two nodes have the same key for each other, the topics are
  -- those of one curve, protocol and wallet, and the share is sound.
  pub receive_p2p-handle_tss_message :
      (s r : FileStore) (ps rs : PartySession) (p : Protocol) (v : Curve) (id : Text)
      (from to : PartyId) (msg_bytes : Text) (flag : Bool) (draw : ℕ → Option Text)
      (nonce t cipher : Text) (info : RoundInfo)
      → ps.compose_direct_topic (self_id ps) (self_id rs)
        ≡ compose_direct_topic p v (self_id ps) (self_id rs) id
      → Lacks b':' (self_id ps)
      → (length (self_id ps) == 0) ≡ false
      → same (self_id ps) (self_id rs) ≡ false
      → get_symmetric_key s.symmetric_keys (self_id rs)
        ≡ get_symmetric_key r.symmetric_keys (self_id ps)
      → compare_party_ids to rs.self_party_id ≡ true
      → rs.get_round msg_bytes rs.self_party_id flag ≡ some info
      → draw 0 ≡ some nonce
      → length nonce ≡ a.nonce_size
      → j.marshal_tss_message (new_tss_message ps.wallet_id msg_bytes flag from (to ∷ [])) ≡ some t
      → j.unmarshal_tss_message t
        ≡ some (new_tss_message ps.wallet_id msg_bytes flag from (to ∷ []))
      → encrypt_message a s (some nonce) t (self_id rs) ≡ good cipher
      → (handle_tss_message j c a s net ps
            (some (msg_bytes, record { from = from; to = to ∷ []; is_broadcast = flag }))
            draw
          ≡ sent_to_other (compose_direct_topic p v (self_id ps) (self_id rs) id) cipher
            ∷ report_unless
                (net.send_to_other (compose_direct_topic p v (self_id ps) (self_id rs) id) cipher)
                (send_failed (compose_direct_topic p v (self_id ps) (self_id rs) id)))
        × (receive_p2p_tss_message j c a r net rs
              (compose_direct_topic p v (self_id ps) (self_id rs) id)
              cipher
            ≡ updated msg_bytes (some from) flag ∷ [])
  unfolding handle_tss_message send_p2p send_all send_direct receive_p2p_tss_message new_tss_message
  receive_p2p-handle_tss_message s r ps rs p v id from to msg_bytes flag draw nonce t cipher info
        topic colon nonempty apart keys addressed round drawn size marshalled unmarshalled
        encrypted =
      (
        ground (
          arith,
          compare_party_ids-node_id to rs.self_party_id addressed,
          send_p2p-single s ps (new_tss_message ps.wallet_id msg_bytes flag from (to ∷ [])) to draw
              t refl marshalled,
          send_direct-other s ps to (some nonce) (self_id rs)
              (compose_direct_topic p v (self_id ps) (self_id rs) id) t cipher,
        ),
        ap (λ x. receive_from j c a r net rs x cipher)
              (extract_sender-compose_direct_topic p v (self_id ps) (self_id rs) id colon)
            ∙ receive_from-encrypt_message s r rs (self_id ps)
                (new_tss_message ps.wallet_id msg_bytes flag from (to ∷ [])) nonce t cipher nonempty
                apart keys size unmarshalled encrypted
            ∙ receive_tss_message-addressed r rs
                (new_tss_message ps.wallet_id msg_bytes flag from (to ∷ [])) from info round refl
                (ground arith),
      )

  -- A party's broadcast goes out once, signed, on the session's topic; where it arrives, a session whose
  -- node has the sender's public key hands its bytes, sender and flag to its party, and nothing else
  -- happens, if the share is sound.
  pub receive_broadcast-handle_tss_message :
      (s r : FileStore) (ps rs : PartySession) (from : PartyId) (msg_bytes : Text)
      (draw : ℕ → Option Text) (public_key signature t : Text) (info : RoundInfo)
      → lookup (signer_node_id from) r.public_keys ≡ some public_key
      → ((x : Text) → c.ed25519_verify public_key x (c.ed25519_sign s.private_key x) ≡ true)
      → sign_message j c s (new_tss_message ps.wallet_id msg_bytes true from []) ≡ good signature
      → j.marshal_tss_message (signed_message ps msg_bytes from signature) ≡ some t
      → j.unmarshal_tss_message t ≡ some (signed_message ps msg_bytes from signature)
      → rs.get_round msg_bytes rs.self_party_id true ≡ some info
      → (handle_tss_message j c a s net ps
            (some (msg_bytes, record { from = from; to = []; is_broadcast = true }))
            draw
          ≡ published ps.broadcast_topic t
            ∷ report_unless (net.publish ps.broadcast_topic t) publish_failed)
        × (receive_broadcast_tss_message j c a r net rs t ≡ updated msg_bytes (some from) true ∷ [])
  unfolding handle_tss_message send_broadcast receive_broadcast_tss_message new_tss_message
  receive_broadcast-handle_tss_message s r ps rs from msg_bytes draw public_key signature t info
        known keys signed marshalled unmarshalled round =
      (ground arith, ground (arith, verified, received))
    where
      verified : verify_message j c r (signed_message ps msg_bytes from signature) ≡ good tt
      verified =
          verify_message-sign_message j c s r (new_tss_message ps.wallet_id msg_bytes true from [])
            from public_key signature refl known keys signed

      received :
          receive_tss_message j c a r net rs (signed_message ps msg_bytes from signature)
          ≡ updated msg_bytes (some from) true ∷ []
      received =
          receive_tss_message-addressed r rs (signed_message ps msg_bytes from signature) from info
            round refl refl
