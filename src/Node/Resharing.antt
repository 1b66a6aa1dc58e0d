-- ===== src/Node/Resharing.antt =====
-- `CreateResharingSession` of pkg/mpc/node.go, and the key info that a resharing session saves when
-- it ends (`Reshare` in pkg/mpc/ecdsa/resharing.go and pkg/mpc/eddsa/resharing.go).
pub mod Laws
use mpc_go.Common.{
  ℕ, suc, ◌+◌, ◌∷◌, [], List, Option, none, some, Text, Bool, true, false, not, ◌&&◌, contains,
  length, ℤ, pos, ltb_ℤ, ◌+ℤ◌, add_int, if◌then◌else◌,
}
use mpc_go.Party.{PartyId}
use mpc_go.Topic.{Curve, ecdsa, eddsa, compose_key}
use mpc_go.KeyInfo.{KeyInfo}
use mpc_go.KeyInfo
use mpc_go.Registry.{get_ready_peers_count, get_ready_peers_include_self}
use mpc_go.Node.{
  Node, Session, ResharingSession, SessionType, Outcome, ok, err, exit, ◌>>=◌, ◌>>◌, fail_if, fetch,
  Error, not_enough_ready, new_peer_list_too_small, new_peer_not_ready, unsupported_session_type,
  not_enough_old_peers, no_old_key_info, no_key_prefix, session_curve, get_version,
  get_ready_peers_for_session, ensure_node_is_participant, keygen_party_ids, purpose_keygen,
  purpose_resharing,
}

-- The loop that looks for a new peer that is not ready.
unfoldable pub require_ready : List Text → List Text → Outcome (Unit {0})
require_ready [] ready = ok tt
require_ready (p ∷ ps) ready =
    let rest = require_ready ps ready in
    if contains ready p then rest else err (new_peer_not_ready p)

-- The checks that do not depend on the wallet.
unfoldable pub check_new_peers : Node → ℤ → List Text → Outcome (Unit {0})
check_new_peers n new_threshold new_peer_ids = do
  let count = get_ready_peers_count n.peer_registry
  let required = add_int new_threshold (pos 1)
  fail_if (ltb_ℤ count required) (not_enough_ready required count)
  fail_if (ltb_ℤ (pos (length new_peer_ids)) required) new_peer_list_too_small
  require_ready new_peer_ids (get_ready_peers_include_self n.peer_registry)

-- `fmt.Errorf` of an error in its context.
abbrev pub in_context {ℓ} : {A : Type ℓ} → (Error → Error) → Outcome A → Outcome A
in_context context (ok a) = ok a
in_context context (err e) = err (context e)
in_context context exit = exit

unfoldable pub load_old_key_info : Node → SessionType → Text → Outcome KeyInfo
load_old_key_info n t wallet_id = elim (session_curve t) [
  | none ↦ err (no_key_prefix unsupported_session_type)
  | some c ↦
      in_context no_old_key_info (fetch (KeyInfo.get n.keyinfo_store (compose_key c wallet_id)))
]

-- Whether the node stays out of the session: it is not in the committee that the session is for.
unfoldable pub is_irrelevant : Node → KeyInfo → List Text → Bool → Bool
is_irrelevant n old new_peer_ids true = not (contains new_peer_ids n.node_id)
is_irrelevant n old new_peer_ids false = not (contains old.participant_peer_ids n.node_id)

-- ECDSA takes all participants of the old committee, EdDSA those that are ready.
unfoldable pub resharing_participants : Curve → Bool → KeyInfo → List Text → List Text → List Text
resharing_participants c true old ready_old new_peer_ids = new_peer_ids
resharing_participants ecdsa false old ready_old new_peer_ids = old.participant_peer_ids
resharing_participants eddsa false old ready_old new_peer_ids = ready_old

unfoldable pub resharing_pre_params : Curve → Bool → Option ℕ
resharing_pre_params ecdsa true = some 1
resharing_pre_params ecdsa false = some 0
resharing_pre_params eddsa _ = none

module _ (sort_party_ids : List PartyId → List PartyId) (uuid : ℕ → Text) where
  -- The session constructors; the old committee's party IDs are drawn first.
  unfoldable pub new_resharing_session :
      Node → Curve → Text → ℤ → List Text → Bool → KeyInfo → ℕ → List Text → ResharingSession
  new_resharing_session n c wallet_id new_threshold new_peer_ids is_new old version ready_old =
      let (old_self, old_all) =
        keygen_party_ids sort_party_ids uuid n purpose_keygen ready_old version 0 in
      let (new_self, new_all) =
        keygen_party_ids sort_party_ids uuid n purpose_resharing new_peer_ids (version + 1)
          (length ready_old) in
      record {
        session = record {
          curve = c;
          wallet_id = wallet_id;
          participant_peer_ids = resharing_participants c is_new old ready_old new_peer_ids;
          self_party_id = if is_new then new_self else old_self;
          party_ids = if is_new then new_all else old_all;
          threshold = old.threshold;
          pre_params = resharing_pre_params c is_new;
          version = old.version;
        };
        old_party_ids = old_all;
        new_party_ids = new_all;
        new_threshold = new_threshold;
        new_peer_ids = new_peer_ids;
        is_new_party = is_new;
      }

  -- From the old key info on; `some c` is the curve of a known type.
  unfoldable pub resharing_session_for :
      Node → SessionType → Text → ℤ → List Text → Bool → KeyInfo → Outcome (Option ResharingSession)
  resharing_session_for n t wallet_id new_threshold new_peer_ids is_new old =
      let ready_old =
        get_ready_peers_for_session old.participant_peer_ids
          (get_ready_peers_include_self n.peer_registry) in
      if is_irrelevant n old new_peer_ids is_new then ok none else do
        fail_if (ltb_ℤ (pos (length ready_old)) (old.threshold +ℤ pos 1))
            (not_enough_old_peers (old.threshold +ℤ pos 1) (length ready_old))
        if is_new then ok tt else ensure_node_is_participant n old
        version ← get_version n t wallet_id
        elim (session_curve t) [
          | none ↦ err unsupported_session_type
          | some c ↦ ok (
              some (
                new_resharing_session n c wallet_id new_threshold new_peer_ids is_new old version
                  ready_old))
        ]

  -- `ok none` is the nil session of a node that is not concerned.
  unfoldable pub create_resharing_session :
      Node → SessionType → Text → ℤ → List Text → Bool → Outcome (Option ResharingSession)
  create_resharing_session n t wallet_id new_threshold new_peer_ids is_new = do
    check_new_peers n new_threshold new_peer_ids
    old ← load_old_key_info n t wallet_id
    resharing_session_for n t wallet_id new_threshold new_peer_ids is_new old

-- What `Reshare` saves as the wallet's key info when the protocol has produced a key.
unfoldable pub saved_key_info : ResharingSession → KeyInfo
saved_key_info s = record {
  participant_peer_ids = s.new_peer_ids;
  threshold = s.new_threshold;
  version = s.session.version + 1;
}
