-- ===== src/Node/Parties.antt =====
-- The parties that the node makes out of a list of peers.
use mpc_go.Common.{
  ℕ, suc, ◌≡◌, ◌∷◌, List, Option, none, some, Text, Bool, true, false, refl, [], same_iff, contains,
  arith, ◌&&◌, map, set_bytes, Option-cases, inl, inr,
}
use mpc_go.Party.{PartyId, create_party_id, party_key, party_id_to_node_id}
use mpc_go.Party.Laws.{IsNodeId, node_id-create_party_id}
use mpc_go.Node.{get_ready_peers_for_session, create_party_ids, find_self}

abbrev pub is_some {ℓ} : {A : Type ℓ} → Option A → Bool
is_some none = false
is_some (some _) = true

-- The peers of a session are the participants that are ready.
pub contains-get_ready_peers_for_session :
    (ps ready : List Text) (q : Text)
    → contains (get_ready_peers_for_session ps ready) q ≡ (contains ps q && contains ready q)
unfolding get_ready_peers_for_session contains
contains-get_ready_peers_for_session [] ready q = refl
contains-get_ready_peers_for_session (p ∷ ps) ready q =
    ground (arith, contains-get_ready_peers_for_session ps ready q, same_iff p q)

module _ (sort_party_ids : List PartyId → List PartyId) (uuid : ℕ → Text) where
  -- The keys of the parties depend on the peers and the version alone.
  pub map-key-create_party_ids :
      (label : Text) (version i : ℕ) (ps : List Text)
      → map (λ p. p.key) (create_party_ids sort_party_ids uuid label version i ps)
        ≡ map (λ p. set_bytes (party_key p version)) ps
  unfolding create_party_ids create_party_id
  map-key-create_party_ids label version i [] = refl
  map-key-create_party_ids label version i (p ∷ ps) =
      cc (map-key-create_party_ids label version (suc i) ps)

  -- The node finds itself exactly if it is among the peers.
  pub is_some-find_self :
      (node_id label : Text) (version i : ℕ) (ps : List Text)
      → is_some (find_self sort_party_ids uuid node_id label version i ps) ≡ contains ps node_id
  unfolding find_self contains
  is_some-find_self node_id label version i [] = refl
  is_some-find_self node_id label version i (p ∷ ps) =
      ground (arith, is_some-find_self node_id label version (suc i) ps)

  -- What it finds is a party ID made for itself.
  pub find_self-node_id :
      (node_id label : Text) (version i : ℕ) (ps : List Text) (self : PartyId)
      → IsNodeId node_id
      → find_self sort_party_ids uuid node_id label version i ps ≡ some self
      → party_id_to_node_id (some self) ≡ node_id
  unfolding find_self
  find_self-node_id node_id label version i [] self v h = cc
  find_self-node_id node_id label version i (p ∷ ps) self v h = ground (
    arith,
    same_iff p node_id,
    find_self-node_id node_id label version (suc i) ps self v,
    (node_id-create_party_id (uuid i) node_id label version v).0,
  )

  -- A node among the peers has a party, and it is the node's.
  pub find_self_found :
      (node_id label : Text) (version i : ℕ) (ps : List Text)
      → IsNodeId node_id
      → contains ps node_id ≡ true
      → (self : PartyId) × (find_self sort_party_ids uuid node_id label version i ps ≡ some self)
        × (party_id_to_node_id (some self) ≡ node_id)
  find_self_found node_id label version i ps v h =
      elim (Option-cases (find_self sort_party_ids uuid node_id label version i ps)) [
        | inl e ↦ absurd (ground (arith, is_some-find_self node_id label version i ps))
        | inr (self, e) ↦ (self, e, find_self-node_id node_id label version i ps self v e)
      ]
