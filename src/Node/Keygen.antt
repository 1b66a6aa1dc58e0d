-- ===== src/Node/Keygen.antt =====
-- `CreateKeyGenSession` of pkg/mpc/node.go.
use mpc_go.Common.{◌≡◌, List, Text, arith, ◌&&◌, not, ℤ, ℕ}
use mpc_go.Party.{PartyId, default_version}
use mpc_go.Registry.{are_peers_ready, get_ready_peers_include_self}
use mpc_go.Node.{
  Node, Session, SessionType, session_ecdsa, session_eddsa, other, ok, get_key_info,
  create_keygen_session, create_keygen_session_for,
}
use mpc_go.Node.Signing.{is_ok, is_known}

module _ (sort_party_ids : List PartyId → List PartyId) (uuid : ℕ → Text) where
  -- A key generation session is created exactly if all peers are ready, the type is known, and no
  -- key info is found for the wallet; a store that does not answer counts as finding none. It then
  -- has all ready peers as participants.
  pub create_keygen_session_iff :
      (n : Node) (t : SessionType) (wallet_id : Text) (threshold : ℤ)
      → (is_ok (create_keygen_session sort_party_ids uuid n t wallet_id threshold) ≡ (
          are_peers_ready n.peer_registry
          && (not (is_ok (get_key_info n t wallet_id)) && is_known t)))
        × ((s : Session)
            → create_keygen_session sort_party_ids uuid n t wallet_id threshold ≡ ok s
            → (s.participant_peer_ids ≡ get_ready_peers_include_self n.peer_registry)
              × (s.threshold ≡ threshold)
              × (s.version ≡ default_version))
  unfolding create_keygen_session create_keygen_session_for
  create_keygen_session_iff n session_ecdsa w th = (ground arith, λ s h. ground arith)
  create_keygen_session_iff n session_eddsa w th = (ground arith, λ s h. ground arith)
  create_keygen_session_iff n (other t) w th = (ground arith, λ s h. ground arith)
