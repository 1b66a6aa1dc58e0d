-- ===== src/EventConsumer/Resharing/Committees.antt =====
-- The peers of the old committee that a session of the new one listens to besides its own.
use mpc_go.Common.{
  ℕ, suc, ◌≡◌, ◌∷◌, ◌&&◌, [], List, some, Text, Bool, not, arith, refl, ap, ◌∙◌, contains, ℤ, All,
  same_iff,
}
use mpc_go.Party.{PartyId, party_ids_to_node_ids}
use mpc_go.Party.Laws.{IsNodeId, node_id-create_party_id}
use mpc_go.KeyInfo.{KeyInfo}
use mpc_go.Registry.{get_ready_peers_include_self}
use mpc_go.Node.{
  Node, ResharingSession, SessionType, ok, create_party_ids, keygen_party_ids, purpose_keygen,
}
use mpc_go.Node.Parties.{contains-get_ready_peers_for_session}
use mpc_go.Node.Signing.{ready_participants, get_version-known}
use mpc_go.Node.Resharing.{load_old_key_info, new_resharing_session, create_resharing_session}
use mpc_go.Node.Resharing.Laws.{create_steps, resharing_session_for_made, load_old_known}
use mpc_go.EventConsumer.Resharing.{peer_difference, get_legacy_committee_peers}

contains-peer_difference :
    (p : Text) (as' bs : List Text)
    → contains (peer_difference as' bs) p ≡ (contains as' p && not (contains bs p))
unfolding peer_difference contains
contains-peer_difference p [] bs = refl
contains-peer_difference p (a ∷ as') bs =
    ground (arith, contains-peer_difference p as' bs, same_iff a p)

module _ (sort_party_ids : List PartyId → List PartyId) (uuid : ℕ → Text) where
  node_ids-create_party_ids :
      (label : Text) (version i : ℕ) (ps : List Text)
      → All IsNodeId ps
      → party_ids_to_node_ids (create_party_ids sort_party_ids uuid label version i ps) ≡ ps
  unfolding create_party_ids party_ids_to_node_ids
  node_ids-create_party_ids label version i [] h = refl
  node_ids-create_party_ids label version i (p ∷ ps) h = cc (
    (node_id-create_party_id (uuid i) p label version h.0).0,
    node_ids-create_party_ids label version (suc i) ps h.1,
  )

  -- The sort keeps which nodes there are.
  abbrev pub SortKeeps : Type 0
  SortKeeps =
      (ps : List PartyId) (q : Text)
      → contains (party_ids_to_node_ids (sort_party_ids ps)) q
        ≡ contains (party_ids_to_node_ids ps) q

  old_peers :
      (n : Node) (ps : List Text) (version i : ℕ) (q : Text)
      → SortKeeps
      → All IsNodeId ps
      → contains
          (party_ids_to_node_ids
            (keygen_party_ids sort_party_ids uuid n purpose_keygen ps version i).1)
          q
        ≡ contains ps q
  unfolding keygen_party_ids
  old_peers n ps version i q k h =
      k _ q ∙ ap (λ ids. contains ids q) (node_ids-create_party_ids purpose_keygen version i ps h)

  -- Besides its own committee, the session of the new committee listens exactly to the peers of the old
  -- one that are ready and not in the new one, if no node's name is cut short in a party ID and the
  -- library's sort keeps the parties.
  pub legacy-create_resharing_session :
      (n : Node) (t : SessionType) (wallet_id : Text) (new_threshold : ℤ) (new_peers : List Text)
      (is_new : Bool) (old : KeyInfo) (s : ResharingSession)
      → SortKeeps
      → All IsNodeId (ready_participants n old)
      → load_old_key_info n t wallet_id ≡ ok old
      → create_resharing_session sort_party_ids uuid n t wallet_id new_threshold new_peers is_new
        ≡ ok (some s)
      → (q : Text)
      → contains (get_legacy_committee_peers s) q ≡ (
          contains old.participant_peer_ids q
          && contains (get_ready_peers_include_self n.peer_registry) q
          && not (contains new_peers q))
  unfolding get_legacy_committee_peers new_resharing_session
  legacy-create_resharing_session n t w th ps b old s k h loaded made q =
      let (_, rest) = create_steps sort_party_ids uuid n t w th ps b old s loaded made in
      let (_, _, (c, built)) =
        resharing_session_for_made sort_party_ids uuid n t w th ps b old s
          (get_version-known n t w old (load_old_known n t w old loaded)) rest in
      ap (λ (s : ResharingSession). contains (get_legacy_committee_peers s) q) built
      ∙ ground (
        arith,
        contains-peer_difference q
            (party_ids_to_node_ids
              (keygen_party_ids sort_party_ids uuid n purpose_keygen (ready_participants n old)
                old.version 0).1)
            ps,
        old_peers n (ready_participants n old) old.version 0 q k h,
        contains-get_ready_peers_for_session old.participant_peer_ids
            (get_ready_peers_include_self n.peer_registry) q,
      )
