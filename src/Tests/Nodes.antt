-- ===== src/Tests/Nodes.antt =====
-- Sessions of a node with two ready peers.
use mpc_go.Common.{
  add_int, ◌^◌, ◌-◌, ℕ, ◌≡◌, ◌∷◌, [], List, some, true, false, Text, refl, codes, arith, pos, ◌+ℤ◌,
  ◌≤ℤ◌, ◌&&◌, contains, length, map, same, lookup, signed,
}
use mpc_go.Party.{PartyId, party_id_to_node_id}
use mpc_go.Topic.{ecdsa, compose_key}
use mpc_go.KeyInfo.{KeyInfo, Store, compose_store_key, get}
use mpc_go.Registry.{Registry, ready_peers, get_ready_peers_include_self, get_ready_peers_count}
use mpc_go.Node.{
  Node, Session, ResharingSession, session_ecdsa, ok, get_key_info, session_curve,
  create_signing_session, signing_session_for, get_version, get_ready_peers_for_session,
  ensure_node_is_participant, keygen_party_ids,
}
use mpc_go.Node.Signing.{ready_participants, create_signing_session_parties}
use mpc_go.Node.Resharing.{
  create_resharing_session, resharing_session_for, new_resharing_session, load_old_key_info,
  is_irrelevant, saved_key_info, check_new_peers, require_ready,
}
use mpc_go.Node.Resharing.Laws.{IsCovered, create_resharing_session_parties, signing-resharing_keys}
use mpc_go.Node.Initialise.{Shares, load_share, init_signing_session}
use mpc_go.Node.Initialise.Laws.{init-create_signing_session}

abbrev node0 : Text
node0 = codes "node0"

abbrev node1 : Text
node1 = codes "node1"

abbrev node2 : Text
node2 = codes "node2"

abbrev pub everyone : List Text
everyone = node1 ∷ node2 ∷ node0 ∷ []

abbrev two_ready : Registry
two_ready = record {
  node_id = node0;
  peer_node_ids = node1 ∷ node2 ∷ [];
  ready_map = (node1, true) ∷ (node2, true) ∷ [];
  ready_count = 3;
  ready = true;
  threshold = pos 1;
  identity_store = (node1, codes "k1") ∷ (node2, codes "k2") ∷ [];
  on_peer_connected = false;
  on_peer_disconnected = false;
  on_peer_reconnected = false;
}

abbrev pub wallet : KeyInfo
wallet = record { participant_peer_ids = everyone; threshold = pos 1; version = 1 }

abbrev renewed : KeyInfo
renewed = record wallet { version = 2 }

abbrev store_with : KeyInfo → Store
store_with info = record {
  entries = (codes "threshold_keyinfo/ecdsa:w", info) ∷ [];
  available = true;
}

abbrev pub node : Node
node = record { node_id = node0; peer_registry = two_ready; keyinfo_store = store_with wallet }

-- A stand-in for the library's sort, and for its UUIDs.
abbrev pub unsorted : List PartyId → List PartyId
unsorted ps = ps

abbrev pub no_uuid : ℕ → Text
no_uuid i = []

-- Only the node itself is ready.
abbrev alone : Node
alone = record node { peer_registry = record two_ready { ready_map = (node1, false) ∷ [] } }

known : get_key_info node session_ecdsa (codes "w") ≡ ok wallet
unfolding get_key_info session_curve get compose_store_key lookup compose_key same
known = refl

known_alone : get_key_info alone session_ecdsa (codes "w") ≡ ok wallet
unfolding get_key_info session_curve get compose_store_key lookup compose_key same
known_alone = refl

abbrev pub signed_session : Session
signed_session = record {
  curve = ecdsa;
  wallet_id = codes "w";
  participant_peer_ids = ready_participants node wallet;
  self_party_id =
      (keygen_party_ids unsorted no_uuid node (codes "keygen") (ready_participants node wallet) 1
        0).0;
  party_ids =
      (keygen_party_ids unsorted no_uuid node (codes "keygen") (ready_participants node wallet) 1
        0).1;
  threshold = pos 1;
  pre_params = some 0;
  version = 0;
}

pub session_made :
    create_signing_session unsorted no_uuid node session_ecdsa (codes "w") ≡ ok signed_session
unfolding create_signing_session signing_session_for get_version get_key_info session_curve get
    compose_store_key lookup compose_key same get_ready_peers_for_session
    get_ready_peers_include_self ready_peers contains ensure_node_is_participant ◌+ℤ◌
session_made = refl

create_signing_session_parties_example :
    ((q : Text)
      → contains signed_session.participant_peer_ids q
        ≡ (contains everyone q && contains (get_ready_peers_include_self two_ready) q))
    × (pos 1 +ℤ pos 1 ≤ℤ pos (length signed_session.participant_peer_ids))
    × ((self : PartyId) × (signed_session.self_party_id ≡ some self)
        × (party_id_to_node_id (some self) ≡ node0))
create_signing_session_parties_example =
    create_signing_session_parties unsorted no_uuid node session_ecdsa (codes "w") wallet
      signed_session refl (omega arith) known session_made

abbrev pub reshared : ResharingSession
reshared =
    new_resharing_session unsorted no_uuid node ecdsa (codes "w") (pos 2) everyone true wallet 1
      (ready_participants node wallet)

pub old_known : load_old_key_info node session_ecdsa (codes "w") ≡ ok wallet
unfolding load_old_key_info session_curve get compose_store_key lookup compose_key same
old_known = refl

pub reshared_made :
    create_resharing_session unsorted no_uuid node session_ecdsa (codes "w") (pos 2) everyone true
    ≡ ok (some reshared)
unfolding create_resharing_session check_new_peers require_ready resharing_session_for
    load_old_key_info is_irrelevant get_version session_curve get compose_store_key lookup
    compose_key same get_ready_peers_for_session get_ready_peers_include_self ready_peers contains
    get_ready_peers_count signed ◌+ℤ◌ add_int
reshared_made = refl

create_resharing_session_parties_example :
    ((q : Text)
      → contains everyone q ≡ true
      → contains (get_ready_peers_include_self two_ready) q ≡ true)
    × IsCovered (pos 2) everyone
    × (pos 1 +ℤ pos 1 ≤ℤ pos (length (ready_participants node wallet)))
    × (is_irrelevant node wallet everyone true ≡ false)
    × ((self : PartyId) × (reshared.session.self_party_id ≡ some self)
        × (party_id_to_node_id (some self) ≡ node0))
create_resharing_session_parties_example =
    create_resharing_session_parties unsorted no_uuid node session_ecdsa (codes "w") (pos 2)
      everyone true wallet reshared (omega arith) refl (omega arith) old_known reshared_made

-- The largest threshold is covered by no peers at all.
largest_threshold : check_new_peers node (pos (2 ^ 63 - 1)) [] ≡ ok tt
unfolding check_new_peers require_ready add_int get_ready_peers_count signed
largest_threshold = refl

-- The node after the resharing: its store has the key info that the session saved.
abbrev node_later : Node
node_later = record node { keyinfo_store = store_with (saved_key_info reshared) }

abbrev signed_later : Session
signed_later = record {
  curve = ecdsa;
  wallet_id = codes "w";
  participant_peer_ids = ready_participants node_later (saved_key_info reshared);
  self_party_id =
      (keygen_party_ids unsorted no_uuid node_later (codes "keygen")
        (ready_participants node_later (saved_key_info reshared)) 2 0).0;
  party_ids =
      (keygen_party_ids unsorted no_uuid node_later (codes "keygen")
        (ready_participants node_later (saved_key_info reshared)) 2 0).1;
  threshold = pos 2;
  pre_params = some 0;
  version = 0;
}

signing-resharing_keys_example :
    map (λ p. p.key) signed_later.party_ids ≡ map (λ p. p.key) reshared.new_party_ids
unfolding create_signing_session signing_session_for get_version get_key_info session_curve get
    compose_store_key lookup compose_key same get_ready_peers_for_session
    get_ready_peers_include_self ready_peers contains ensure_node_is_participant saved_key_info
    new_resharing_session keygen_party_ids ◌+ℤ◌
signing-resharing_keys_example =
    signing-resharing_keys unsorted no_uuid (λ xs ys e. e) no_uuid node session_ecdsa (codes "w")
      (pos 2) everyone true wallet reshared node_later signed_later old_known reshared_made refl
      refl refl

-- Every share is there; an intersection keeps what of the second list is in the first.
abbrev pub all_shares : Shares
all_shares = record {
  intersect = λ xs ys. get_ready_peers_for_session ys xs;
  get_share = λ _. some (codes "share");
  is_share = λ _. true;
}

init-create_signing_session_example :
    init_signing_session all_shares node signed_session
    ≡ load_share all_shares signed_session wallet
init-create_signing_session_example =
    init-create_signing_session unsorted no_uuid all_shares node session_ecdsa (codes "w") wallet
      signed_session (λ xs ys. refl) known session_made
