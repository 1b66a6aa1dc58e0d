-- ===== src/Node/Resharing/Laws.antt =====
-- What a resharing session is created with, and what the wallet's next signing session makes of it.
use mpc_go.Common.{
  ◌^◌, ◌-◌, ◌⊎◌, inl, inr, IsInt, add_int, add_int-one, ℕ, ◌+◌, ◌≡◌, ◌∷◌, [], List, some, Text,
  Bool, true, false, refl, sym, subst, ap, ◌∙◌, contains, length, ℤ, pos, ◌+ℤ◌, ◌≤ℤ◌, same_iff,
  arith, map,
}
use mpc_go.Party.{PartyId, party_id_to_node_id}
use mpc_go.Party.Laws.{IsNodeId}
use mpc_go.Topic.{Curve, ecdsa, eddsa}
use mpc_go.KeyInfo.{KeyInfo}
use mpc_go.Registry.{get_ready_peers_count, get_ready_peers_include_self}
use mpc_go.Node.{
  Error, Outcome, err, exit, no_old_key_info, Node, Session, ResharingSession, SessionType,
  session_ecdsa, session_eddsa, other, ok, get_key_info, get_version, session_curve,
  ensure_node_is_participant, keygen_party_ids, create_party_ids, create_signing_session,
  purpose_keygen, purpose_resharing,
}
use mpc_go.Node.Parties.{
  contains-get_ready_peers_for_session, find_self_found, map-key-create_party_ids,
}
use mpc_go.Node.Signing.{
  IsSelf, self_ready, ready_participants, get_version-known, create_signing_session_made,
}
use mpc_go.Node.Resharing.{
  in_context, require_ready, check_new_peers, load_old_key_info, is_irrelevant,
  new_resharing_session, resharing_session_for, create_resharing_session, saved_key_info,
}

require_ready_sound :
    (ps ready : List Text)
    → require_ready ps ready ≡ ok tt
    → (q : Text) → contains ps q ≡ true
    → contains ready q ≡ true
unfolding require_ready contains
require_ready_sound [] ready h q m = cc
require_ready_sound (p ∷ ps) ready h q m =
    ground (arith, same_iff p q, require_ready_sound ps ready (ground arith) q)

check_new_peers_sound :
    (n : Node) (new_threshold : ℤ) (new_peers : List Text)
    → check_new_peers n new_threshold new_peers ≡ ok tt
    → (add_int new_threshold (pos 1) ≤ℤ get_ready_peers_count n.peer_registry)
      × (add_int new_threshold (pos 1) ≤ℤ pos (length new_peers))
      × (require_ready new_peers (get_ready_peers_include_self n.peer_registry) ≡ ok tt)
unfolding check_new_peers
check_new_peers_sound n th ps h = ground arith

in_context-ok :
    (context : Error → Error) (o : Outcome KeyInfo) (old : KeyInfo)
    → in_context context o ≡ ok old
    → o ≡ ok old
in_context-ok context (ok a) old h = h
in_context-ok context (err e) old h = absurd (ground arith)
in_context-ok context exit old h = absurd (ground arith)

pub load_old_known :
    (n : Node) (t : SessionType) (w : Text) (old : KeyInfo)
    → load_old_key_info n t w ≡ ok old
    → get_key_info n t w ≡ ok old
unfolding load_old_key_info get_key_info session_curve
load_old_known n session_ecdsa w old h = in_context-ok no_old_key_info _ old h
load_old_known n session_eddsa w old h = in_context-ok no_old_key_info _ old h
load_old_known n (other t) w old h = absurd (ground arith)

-- There are more new peers than the new threshold. The largest `int` has no successor: the sum that the
-- code compares wraps around, so such a threshold passes with any list of ready peers.
abbrev pub IsCovered : ℤ → List Text → Type 0
IsCovered new_threshold new_peers =
    (new_threshold ≡ pos (2 ^ 63 - 1)) ⊎ (new_threshold +ℤ pos 1 ≤ℤ pos (length new_peers))

covered :
    (new_threshold : ℤ) (new_peers : List Text)
    → IsInt new_threshold
    → add_int new_threshold (pos 1) ≤ℤ pos (length new_peers)
    → IsCovered new_threshold new_peers
covered th ps i h = elim (add_int-one th i) [
  | inl e ↦ inl e
  | inr e ↦ inr (subst (λ z. z ≤ℤ pos (length ps)) e h)
]

module _ (sort_party_ids : List PartyId → List PartyId) (uuid : ℕ → Text) where
  pub resharing_session_for_made :
      (n : Node) (t : SessionType) (wallet_id : Text) (new_threshold : ℤ) (new_peers : List Text)
      (is_new : Bool) (old : KeyInfo) (s : ResharingSession)
      → get_version n t wallet_id ≡ ok old.version
      → resharing_session_for sort_party_ids uuid n t wallet_id new_threshold new_peers is_new old
        ≡ ok (some s)
      → (is_irrelevant n old new_peers is_new ≡ false)
        × (old.threshold +ℤ pos 1 ≤ℤ pos (length (ready_participants n old)))
        × ((c : Curve) × (s
              ≡ new_resharing_session sort_party_ids uuid n c wallet_id new_threshold new_peers
                  is_new old old.version
                  (ready_participants n old)))
  unfolding resharing_session_for session_curve ensure_node_is_participant
  resharing_session_for_made n session_ecdsa w th ps b old s k h =
      (ground arith, ground arith, (ecdsa, ground arith))
  resharing_session_for_made n session_eddsa w th ps b old s k h =
      (ground arith, ground arith, (eddsa, ground arith))
  resharing_session_for_made n (other t) w th ps b old s k h = absurd (ground arith)

  self_made :
      (n : Node) (c : Curve) (wallet_id : Text) (new_threshold : ℤ) (new_peers : List Text)
      (is_new : Bool) (old : KeyInfo)
      → IsSelf n
      → IsNodeId n.node_id
      → is_irrelevant n old new_peers is_new ≡ false
      → (self : PartyId) × ((new_resharing_session sort_party_ids uuid n c wallet_id new_threshold
            new_peers is_new old old.version
            (ready_participants n old)).session.self_party_id
          ≡ some self)
        × (party_id_to_node_id (some self) ≡ n.node_id)
  unfolding new_resharing_session keygen_party_ids is_irrelevant
  self_made n c w th ps true old e v h =
      find_self_found sort_party_ids uuid n.node_id purpose_resharing (old.version + 1)
        (length (ready_participants n old)) ps v (ground arith)
  self_made n c w th ps false old e v h =
      find_self_found sort_party_ids uuid n.node_id purpose_keygen old.version 0
        (ready_participants n old) v
        (ground (
          arith,
          contains-get_ready_peers_for_session old.participant_peer_ids
              (get_ready_peers_include_self n.peer_registry) n.node_id,
          self_ready n e,
        ))

  pub create_steps :
      (n : Node) (t : SessionType) (wallet_id : Text) (new_threshold : ℤ) (new_peers : List Text)
      (is_new : Bool) (old : KeyInfo) (s : ResharingSession)
      → load_old_key_info n t wallet_id ≡ ok old
      → create_resharing_session sort_party_ids uuid n t wallet_id new_threshold new_peers is_new
        ≡ ok (some s)
      → (check_new_peers n new_threshold new_peers ≡ ok tt)
        × (resharing_session_for sort_party_ids uuid n t wallet_id new_threshold new_peers is_new
              old
            ≡ ok (some s))
  unfolding create_resharing_session
  create_steps n t w th ps b old s loaded made = ground arith

  -- A resharing session that is created, for the old or the new committee: each new peer is ready,
  -- there are more of them than the new threshold unless that is the largest `int`, more old
  -- participants than the old threshold are ready, the node is in the committee that the session is for,
  -- and the session's party is its own.
  pub create_resharing_session_parties :
      (n : Node) (t : SessionType) (wallet_id : Text) (new_threshold : ℤ) (new_peers : List Text)
      (is_new : Bool) (old : KeyInfo) (s : ResharingSession)
      → IsInt new_threshold
      → IsSelf n
      → IsNodeId n.node_id
      → load_old_key_info n t wallet_id ≡ ok old
      → create_resharing_session sort_party_ids uuid n t wallet_id new_threshold new_peers is_new
        ≡ ok (some s)
      → ((q : Text)
          → contains new_peers q ≡ true
          → contains (get_ready_peers_include_self n.peer_registry) q ≡ true)
        × IsCovered new_threshold new_peers
        × (old.threshold +ℤ pos 1 ≤ℤ pos (length (ready_participants n old)))
        × (is_irrelevant n old new_peers is_new ≡ false)
        × ((self : PartyId) × (s.session.self_party_id ≡ some self)
            × (party_id_to_node_id (some self) ≡ n.node_id))
  create_resharing_session_parties n t w th ps b old s i e v loaded made =
      let (checked, rest) = create_steps n t w th ps b old s loaded made in
      let (count, size, ready) = check_new_peers_sound n th ps checked in
      let (relevant, enough, (c, built)) =
        resharing_session_for_made n t w th ps b old s
          (get_version-known n t w old (load_old_known n t w old loaded)) rest in
      let (self, found, node) = self_made n c w th ps b old e v relevant in
      (
        require_ready_sound ps (get_ready_peers_include_self n.peer_registry) ready,
        covered th ps i size,
        enough,
        relevant,
        (self, ap (λ s. s.session.self_party_id) built ∙ found, node),
      )

  new_committee :
      (n : Node) (c : Curve) (wallet_id : Text) (new_threshold : ℤ) (new_peers : List Text)
      (is_new : Bool) (old : KeyInfo) (ready_old : List Text)
      → let s =
          new_resharing_session sort_party_ids uuid n c wallet_id new_threshold new_peers is_new old
            old.version ready_old in
        s.new_party_ids
        ≡ sort_party_ids (
            create_party_ids sort_party_ids uuid purpose_resharing
              (s.session.version + 1)
              (length ready_old)
              s.new_peer_ids)
  unfolding new_resharing_session keygen_party_ids
  new_committee n c w th ps b old ready_old = refl

  committee_of :
      (s s' : ResharingSession) (i : ℕ)
      → s' ≡ s
      → s'.new_party_ids
        ≡ sort_party_ids (
            create_party_ids sort_party_ids uuid purpose_resharing
              (s'.session.version + 1)
              i
              s'.new_peer_ids)
      → s.new_party_ids
        ≡ sort_party_ids (
            create_party_ids sort_party_ids uuid purpose_resharing
              (s.session.version + 1)
              i
              s.new_peer_ids)
  committee_of s s' i e h =
      subst
        (λ x.
          x.new_party_ids
          ≡ sort_party_ids (
              create_party_ids sort_party_ids uuid purpose_resharing (x.session.version + 1) i
                x.new_peer_ids))
        e h

  same_keys :
      (uuid' : ℕ → Text) (i : ℕ) (version : ℕ) (ps : List Text)
      → map (λ p. p.key) (create_party_ids sort_party_ids uuid' purpose_keygen version 0 ps)
        ≡ map (λ p. p.key) (create_party_ids sort_party_ids uuid purpose_resharing version i ps)
  same_keys uuid' i version ps =
      map-key-create_party_ids sort_party_ids uuid' purpose_keygen version 0 ps
      ∙ sym (map-key-create_party_ids sort_party_ids uuid purpose_resharing version i ps)

  -- When the new committee has finished a resharing session and the key info that it saved is the
  -- wallet's, a signing session for which all of the new committee is ready has parties with exactly
  -- the keys of the new committee, in the same order: the labels and the UUIDs differ, but the node
  -- IDs and the version agree. `sort_party_ids` is taken to order by the keys alone.
  pub signing-resharing_keys :
      (by_key : (xs ys : List PartyId)
        → map (λ p. p.key) xs ≡ map (λ p. p.key) ys
        → map (λ p. p.key) (sort_party_ids xs) ≡ map (λ p. p.key) (sort_party_ids ys))
      (uuid' : ℕ → Text) (n : Node) (t : SessionType) (wallet_id : Text) (new_threshold : ℤ)
      (new_peers : List Text) (is_new : Bool) (old : KeyInfo) (s : ResharingSession) (m : Node)
      (r : Session)
      → load_old_key_info n t wallet_id ≡ ok old
      → create_resharing_session sort_party_ids uuid n t wallet_id new_threshold new_peers is_new
        ≡ ok (some s)
      → get_key_info m t wallet_id ≡ ok (saved_key_info s)
      → ready_participants m (saved_key_info s) ≡ s.new_peer_ids
      → create_signing_session sort_party_ids uuid' m t wallet_id ≡ ok r
      → map (λ p. p.key) r.party_ids ≡ map (λ p. p.key) s.new_party_ids
  unfolding saved_key_info
  signing-resharing_keys by_key uuid' n t w th ps b old s m r loaded made known all_ready signed =
      let (checked, rest) = create_steps n t w th ps b old s loaded made in
      let (relevant, enough, (c, built)) =
        resharing_session_for_made n t w th ps b old s
          (get_version-known n t w old (load_old_known n t w old loaded)) rest in
      let (member, peers, self, all, big) =
        create_signing_session_made sort_party_ids uuid' m t w (saved_key_info s) r known signed in
      let i = length (ready_participants n old) in
      let made_of =
        committee_of s _ i (sym built)
          (new_committee n c w th ps b old (ready_participants n old)) in
      ap (map (λ p. p.key)) all
      ∙ ap
          (λ qs.
            map (λ p. p.key)
              (sort_party_ids (
                create_party_ids sort_party_ids uuid' purpose_keygen (saved_key_info s).version 0
                  qs)))
          all_ready
      ∙ by_key _ _ (same_keys uuid' i (s.session.version + 1) s.new_peer_ids)
      ∙ ap (map (λ p. p.key)) (sym made_of)
