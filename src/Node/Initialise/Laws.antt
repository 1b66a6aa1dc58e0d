-- ===== src/Node/Initialise/Laws.antt =====
-- A session that the node has just created can fail to initialise only for want of its share.
use mpc_go.Common.{
  ℕ, ◌≡◌, ◌∷◌, ◌∙◌, [], refl, ap, sym, List, some, Text, true, length, pos, ◌+ℤ◌, ◌≤ℤ◌, contains,
  same_iff, arith,
}
use mpc_go.KeyInfo.{KeyInfo}
use mpc_go.Party.{PartyId}
use mpc_go.Registry.{get_ready_peers_include_self}
use mpc_go.Node.{
  Node, Session, SessionType, session_ecdsa, session_eddsa, other, ok, get_key_info, session_curve,
  get_ready_peers_for_session, create_signing_session, signing_session_for,
}
use mpc_go.Node.Parties.{contains-get_ready_peers_for_session}
use mpc_go.Node.Signing.{ready_participants, create_signing_session_known, signing_session_for_self}
use mpc_go.Node.Initialise.{Shares, load_share, init_with_key_info, init_signing_session}

-- Intersecting with the participants that are ready gives these again.
filter_again :
    (ps qs ready : List Text)
    → ((q : Text) → contains qs q ≡ true → contains ps q ≡ true)
    → get_ready_peers_for_session qs (get_ready_peers_for_session ps ready)
      ≡ get_ready_peers_for_session qs ready
unfolding get_ready_peers_for_session contains
filter_again ps [] ready h = refl
filter_again ps (q ∷ qs) ready h = ground (
  arith,
  contains-get_ready_peers_for_session ps ready q,
  h q,
  same_iff q q,
  filter_again ps qs ready (λ r e. h r (ground arith)),
)

module _ (sort_party_ids : List PartyId → List PartyId) (uuid : ℕ → Text) (sh : Shares) where
  session_of :
      (n : Node) (t : SessionType) (w : Text) (version : ℕ) (info : KeyInfo) (s : Session)
      → signing_session_for sort_party_ids uuid n t w version info ≡ ok s
      → (session_curve t ≡ some s.curve) × (s.wallet_id ≡ w)
  unfolding signing_session_for session_curve
  session_of n session_ecdsa w version info s h = ground arith
  session_of n session_eddsa w version info s h = ground arith
  session_of n (other t) w version info s h = ground arith

  same_participants :
      (n : Node) (info : KeyInfo) (s : Session)
      → ((xs ys : List Text) → sh.intersect xs ys ≡ get_ready_peers_for_session ys xs)
      → s.participant_peer_ids ≡ ready_participants n info
      → sh.intersect s.participant_peer_ids info.participant_peer_ids ≡ s.participant_peer_ids
  same_participants n info s law e =
      law s.participant_peer_ids info.participant_peer_ids
      ∙ ap (λ r. get_ready_peers_for_session info.participant_peer_ids r) e
      ∙ filter_again info.participant_peer_ids info.participant_peer_ids
          (get_ready_peers_include_self n.peer_registry) (λ q h. h)
      ∙ sym e

  init_with_ready :
      (info : KeyInfo) (s : Session)
      → length (sh.intersect s.participant_peer_ids info.participant_peer_ids)
        ≡ length s.participant_peer_ids
      → info.threshold +ℤ pos 1 ≤ℤ pos (length s.participant_peer_ids)
      → init_with_key_info sh s info ≡ load_share sh s info
  unfolding init_with_key_info
  init_with_ready info s e le = ground arith

  key_info_of :
      (n : Node) (t : SessionType) (w : Text) (info : KeyInfo) (s : Session)
      → get_key_info n t w ≡ ok info
      → session_curve t ≡ some s.curve
      → s.wallet_id ≡ w
      → init_signing_session sh n s ≡ init_with_key_info sh s info
  unfolding init_signing_session get_key_info
  key_info_of n t w info s g c e = ground arith

  -- A signing session that the node creates for a known wallet initialises with the key info as it was
  -- when it was created, unless its share is missing or does not decode: there are enough participants
  -- and all of them are the wallet's. `lo.Intersect` keeps the elements of the second list that are in
  -- the first.
  pub init-create_signing_session :
      (n : Node) (t : SessionType) (w : Text) (info : KeyInfo) (s : Session)
      → ((xs ys : List Text) → sh.intersect xs ys ≡ get_ready_peers_for_session ys xs)
      → get_key_info n t w ≡ ok info
      → create_signing_session sort_party_ids uuid n t w ≡ ok s
      → init_signing_session sh n s ≡ load_share sh s info
  init-create_signing_session n t w info s law g h =
      let made = sym (create_signing_session_known sort_party_ids uuid n t w info g) ∙ h in
      let (curve, wallet) = session_of n t w info.version info s made in
      let (_, ready, _, _, enough) =
        signing_session_for_self sort_party_ids uuid n t w info.version info s made in
      key_info_of n t w info s g curve wallet
      ∙ init_with_ready info s (ap length (same_participants n info s law ready)) enough
