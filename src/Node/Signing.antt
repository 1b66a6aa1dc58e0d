-- ===== src/Node/Signing.antt =====
-- `CreateSigningSession` and `CreateKeyGenSession` of pkg/mpc/node.go: when they succeed, and with
-- which parties.
use mpc_go.Common.{
  ℕ, ◌≡◌, ◌≢◌, ◌∷◌, ◌++◌, List, some, Text, Bool, true, false, refl, [], same_iff, contains, arith,
  ◌&&◌, ap, length, pos, leb_ℤ, ◌≤ℤ◌, ◌+ℤ◌, +ℤ_parts, ◌∙◌,
}
use mpc_go.Party.{PartyId, party_id_to_node_id}
use mpc_go.Party.Laws.{IsNodeId}
use mpc_go.KeyInfo
use mpc_go.KeyInfo.{KeyInfo, Fetched, found, not_found, failed}
use mpc_go.Topic.{ecdsa, eddsa, compose_key}
use mpc_go.Registry.{ready_peers, get_ready_peers_include_self}
use mpc_go.Node.{
  Node, Session, SessionType, session_ecdsa, session_eddsa, other, Outcome, ok, err, fetch,
  version_of, session_curve, signing_session_for, create_party_ids, not_enough_participants,
  not_enough_peers, get_key_info, get_version, get_ready_peers_for_session,
  ensure_node_is_participant, find_self, keygen_party_ids, create_signing_session, purpose_keygen,
}
use mpc_go.Node.Parties.{contains-get_ready_peers_for_session, find_self_found}

-- The participants of the wallet that are ready now.
abbrev pub ready_participants : Node → KeyInfo → List Text
ready_participants n info =
    get_ready_peers_for_session info.participant_peer_ids
      (get_ready_peers_include_self n.peer_registry)

abbrev pub is_ok {ℓ} : {A : Type ℓ} → Outcome A → Bool
is_ok (ok _) = true
is_ok _ = false

-- The registry knows the node under its own ID.
abbrev pub IsSelf : Node → Type 0
IsSelf n = n.peer_registry.node_id ≡ n.node_id

contains-append :
    (xs ys : List Text) (q : Text) → contains ys q ≡ true → contains (xs ++ ys) q ≡ true
unfolding contains
contains-append [] ys q h = h
contains-append (x ∷ xs) ys q h = ground (arith, contains-append xs ys q h)

pub self_ready :
    (n : Node) → IsSelf n → contains (get_ready_peers_include_self n.peer_registry) n.node_id ≡ true
unfolding get_ready_peers_include_self
self_ready n e =
    contains-append (ready_peers n.peer_registry.ready_map) (n.peer_registry.node_id ∷ []) n.node_id
      (unfold contains in ground (arith, same_iff n.peer_registry.node_id n.node_id))

fetch_version :
    (n : Node) (t : SessionType) (wallet_id : Text) (f : Fetched) (info : KeyInfo)
    → fetch f ≡ ok info
    → version_of f ≡ info.version
fetch_version n t wallet_id (found i) info h = ground arith
fetch_version n t wallet_id not_found info h = cc
fetch_version n t wallet_id failed info h = cc

-- A wallet whose key info is found has the version that is stored there.
pub get_version-known :
    (n : Node) (t : SessionType) (wallet_id : Text) (info : KeyInfo)
    → get_key_info n t wallet_id ≡ ok info
    → get_version n t wallet_id ≡ ok info.version
unfolding get_version get_key_info session_curve
get_version-known n session_ecdsa w info h =
    ap ok
      (fetch_version n session_ecdsa w (KeyInfo.get n.keyinfo_store (compose_key ecdsa w)) info h)
get_version-known n session_eddsa w info h =
    ap ok
      (fetch_version n session_ecdsa w (KeyInfo.get n.keyinfo_store (compose_key eddsa w)) info h)
get_version-known n (other t) w info h = cc

abbrev pub is_known : SessionType → Bool
is_known (other _) = false
is_known _ = true

known_type :
    (n : Node) (t : SessionType) (wallet_id : Text) (info : KeyInfo)
    → get_key_info n t wallet_id ≡ ok info
    → is_known t ≡ true
unfolding get_key_info session_curve
known_type n session_ecdsa w info h = refl
known_type n session_eddsa w info h = refl
known_type n (other t) w info h = cc

module _ (sort_party_ids : List PartyId → List PartyId) (uuid : ℕ → Text) where
  pub create_signing_session_known :
      (n : Node) (t : SessionType) (wallet_id : Text) (info : KeyInfo)
      → get_key_info n t wallet_id ≡ ok info
      → create_signing_session sort_party_ids uuid n t wallet_id
        ≡ signing_session_for sort_party_ids uuid n t wallet_id info.version info
  unfolding create_signing_session
  create_signing_session_known n t w info h = rw (get_version-known n t w info h, h)

  is_ok-signing_session_for :
      (n : Node) (t : SessionType) (wallet_id : Text) (version : ℕ) (info : KeyInfo)
      → is_known t ≡ true
      → is_ok (signing_session_for sort_party_ids uuid n t wallet_id version info) ≡ (
          leb_ℤ (info.threshold +ℤ pos 1) (pos (length (ready_participants n info)))
          && contains info.participant_peer_ids n.node_id)
  unfolding signing_session_for ensure_node_is_participant
  is_ok-signing_session_for n session_ecdsa w version info h = ground arith
  is_ok-signing_session_for n session_eddsa w version info h = ground arith
  is_ok-signing_session_for n (other t) w version info h = cc

  -- A signing session for a known wallet is created exactly if more than `threshold` participants
  -- are ready and the node is one of the participants.
  pub is_ok-create_signing_session :
      (n : Node) (t : SessionType) (wallet_id : Text) (info : KeyInfo)
      → get_key_info n t wallet_id ≡ ok info
      → is_ok (create_signing_session sort_party_ids uuid n t wallet_id) ≡ (
          leb_ℤ (info.threshold +ℤ pos 1) (pos (length (ready_participants n info)))
          && contains info.participant_peer_ids n.node_id)
  is_ok-create_signing_session n t w info h =
      rw (create_signing_session_known n t w info h)
        (is_ok-signing_session_for n t w info.version info (known_type n t w info h))

  pub signing_session_for_self :
      (n : Node) (t : SessionType) (wallet_id : Text) (version : ℕ) (info : KeyInfo) (s : Session)
      → signing_session_for sort_party_ids uuid n t wallet_id version info ≡ ok s
      → (contains info.participant_peer_ids n.node_id ≡ true)
        × (s.participant_peer_ids ≡ ready_participants n info)
        × (s.self_party_id
            ≡ find_self sort_party_ids uuid n.node_id purpose_keygen version 0
                (ready_participants n info))
        × (s.party_ids
            ≡ sort_party_ids (
                create_party_ids sort_party_ids uuid purpose_keygen version 0
                  (ready_participants n info)))
        × (info.threshold +ℤ pos 1 ≤ℤ pos (length s.participant_peer_ids))
  unfolding signing_session_for ensure_node_is_participant keygen_party_ids
  signing_session_for_self n session_ecdsa w version info s h = ground arith
  signing_session_for_self n session_eddsa w version info s h = ground arith
  signing_session_for_self n (other t) w version info s h = ground arith

  pub create_signing_session_made :
      (n : Node) (t : SessionType) (wallet_id : Text) (info : KeyInfo) (s : Session)
      → get_key_info n t wallet_id ≡ ok info
      → create_signing_session sort_party_ids uuid n t wallet_id ≡ ok s
      → (contains info.participant_peer_ids n.node_id ≡ true)
        × (s.participant_peer_ids ≡ ready_participants n info)
        × (s.self_party_id
            ≡ find_self sort_party_ids uuid n.node_id purpose_keygen info.version 0
                (ready_participants n info))
        × (s.party_ids
            ≡ sort_party_ids (
                create_party_ids sort_party_ids uuid purpose_keygen info.version 0
                  (ready_participants n info)))
        × (info.threshold +ℤ pos 1 ≤ℤ pos (length s.participant_peer_ids))
  create_signing_session_made n t w info s known made =
      signing_session_for_self n t w info.version info s
        (rw (create_signing_session_known n t w info known) at made)

  -- In a signing session the peers are exactly the participants of the wallet that are ready, they
  -- are more than the wallet's threshold, and the session's own party belongs to the node.
  pub create_signing_session_parties :
      (n : Node) (t : SessionType) (wallet_id : Text) (info : KeyInfo) (s : Session)
      → IsSelf n
      → IsNodeId n.node_id
      → get_key_info n t wallet_id ≡ ok info
      → create_signing_session sort_party_ids uuid n t wallet_id ≡ ok s
      → ((q : Text)
          → contains s.participant_peer_ids q ≡ (
              contains info.participant_peer_ids q
              && contains (get_ready_peers_include_self n.peer_registry) q))
        × (info.threshold +ℤ pos 1 ≤ℤ pos (length s.participant_peer_ids))
        × ((self : PartyId) × (s.self_party_id ≡ some self)
            × (party_id_to_node_id (some self) ≡ n.node_id))
  create_signing_session_parties n t w info s e v known made =
      let (member, peers, self, all, enough) =
        create_signing_session_made n t w info s known made in
      let ready = get_ready_peers_include_self n.peer_registry in
      let (party, found_it, node) =
        find_self_found sort_party_ids uuid n.node_id purpose_keygen info.version 0
          (ready_participants n info) v
          (ground (
            arith,
            contains-get_ready_peers_for_session info.participant_peer_ids ready n.node_id,
            self_ready n e,
          )) in
      (
        λ q. rw peers (contains-get_ready_peers_for_session info.participant_peer_ids ready q),
        enough,
        (party, self ∙ found_it, node),
      )

  signing_session_for_errors :
      (n : Node) (t : SessionType) (wallet_id : Text) (version : ℕ) (info : KeyInfo)
      → is_known t ≡ true
      → pos (length (ready_participants n info)) ≤ℤ info.threshold
      → signing_session_for sort_party_ids uuid n t wallet_id version info
        ≡ err (not_enough_peers (info.threshold +ℤ pos 1) (length (ready_participants n info)))
  unfolding signing_session_for
  signing_session_for_errors n t w version info k h =
      ground (arith, +ℤ_parts info.threshold (pos 1))

  -- With too few participants ready the creation fails with an error that names the numbers, and
  -- not with `ErrNotEnoughParticipants`, for which the event handler would let the request be
  -- retried.
  pub create_signing_session_shortage :
      (n : Node) (t : SessionType) (wallet_id : Text) (info : KeyInfo)
      → get_key_info n t wallet_id ≡ ok info
      → pos (length (ready_participants n info)) ≤ℤ info.threshold
      → (create_signing_session sort_party_ids uuid n t wallet_id
          ≡ err (not_enough_peers (info.threshold +ℤ pos 1) (length (ready_participants n info))))
        × (create_signing_session sort_party_ids uuid n t wallet_id ≢ err not_enough_participants)
  create_signing_session_shortage n t w info known h =
      let failed_so =
        create_signing_session_known n t w info known
        ∙ signing_session_for_errors n t w info.version info (known_type n t w info known) h in
      (failed_so, λ e. ground arith)
