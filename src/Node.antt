-- ===== src/Node.antt =====
-- The node (pkg/mpc/node.go): which sessions it opens, with which parties. The sessions' own
-- dependencies (messaging, stores) are left out of `Session`, which keeps what the node decides.
pub mod Parties
pub mod Signing
pub mod Resharing
pub mod Initialise
pub mod Saving
pub mod Keygen
use mpc_go.Common.{
  ℕ, suc, ◌+◌, ◌∷◌, ◌++◌, [], List, Option, none, some, Text, Bool, true, false, not, ◌&&◌, same,
  contains, codes, if◌then◌else◌, length, ℤ, pos, ltb_ℤ, ◌+ℤ◌,
}
use mpc_go.Party.{PartyId, create_party_id, default_version}
use mpc_go.Topic.{Curve, ecdsa, eddsa, compose_key}
use mpc_go.KeyInfo.{KeyInfo, Fetched, found, not_found, failed, Store}
use mpc_go.KeyInfo
use mpc_go.Registry.{Registry, are_peers_ready, get_ready_peers_count, get_ready_peers_include_self}

-- `core.SessionType` is a string; two of its values are known.
pub data SessionType : Type 0 where
  session_ecdsa session_eddsa : SessionType
  other : Text → SessionType

-- The errors that the creation of a session returns, by the place that makes them.
pub data Error : Type 0 where
  nodes_not_ready : Error
  key_already_exists : Text → Error
  unknown_session_type : Error
  unsupported_session_type : Error
  key_info_unavailable key_info_not_found : Error
  not_enough_peers not_enough_old_peers : ℤ → ℕ → Error
  no_old_key_info no_key_prefix : Error → Error
  not_in_participant_list : Error  -- core.ErrNotInParticipantList
  not_enough_participants : Error  -- core.ErrNotEnoughParticipants
  not_enough_ready : ℤ → ℤ → Error
  new_peer_list_too_small : Error
  new_peer_not_ready : Text → Error

-- `exit` is `logger.Fatal`.
pub data Outcome {ℓ} (A : Type ℓ) : Type ℓ where
  ok : A → Outcome A
  err : Error → Outcome A
  exit : Outcome A

infixl 5 ◌>>=◌ ◌>>◌
abbrev pub ◌>>=◌ {ℓ κ} : {A : Type ℓ} {B : Type κ} → Outcome A → (A → Outcome B) → Outcome B
ok a >>= f = f a
err e >>= f = err e
exit >>= f = exit

abbrev pub ◌>>◌ {ℓ} : {B : Type ℓ} → Outcome (Unit {0}) → Outcome B → Outcome B
m >> k = m >>= λ _. k

-- Returns the error if the test holds.
abbrev pub fail_if : Bool → Error → Outcome (Unit {0})
fail_if true e = err e
fail_if false e = ok tt

pub record Node : Type 0 where
  pub node_id : Text
  pub peer_registry : Registry
  pub keyinfo_store : Store

pub record Session : Type 0 where
  pub curve : Curve
  pub wallet_id : Text
  pub participant_peer_ids : List Text
  pub self_party_id : Option PartyId
  pub party_ids : List PartyId
  pub threshold : ℤ
  pub pre_params : Option ℕ  -- which of the two, for ECDSA
  pub version : ℕ

pub record ResharingSession : Type 0 where
  pub session : Session
  pub old_party_ids : List PartyId
  pub new_party_ids : List PartyId
  pub new_threshold : ℤ
  pub new_peer_ids : List Text
  pub is_new_party : Bool

abbrev pub purpose_keygen : Text
purpose_keygen = codes "keygen"

abbrev pub purpose_resharing : Text
purpose_resharing = codes "resharing"

-- The prefix that names the curve in the key info store.
unfoldable pub session_curve : SessionType → Option Curve
session_curve session_ecdsa = some ecdsa
session_curve session_eddsa = some eddsa
session_curve (other _) = none

abbrev pub fetch : Fetched → Outcome KeyInfo
fetch (found info) = ok info
fetch not_found = err key_info_not_found
fetch failed = err key_info_unavailable

unfoldable pub get_key_info : Node → SessionType → Text → Outcome KeyInfo
get_key_info n t wallet_id = elim (session_curve t) [
  | none ↦ err unsupported_session_type
  | some c ↦ fetch (KeyInfo.get n.keyinfo_store (compose_key c wallet_id))
]

abbrev pub version_of : Fetched → ℕ
version_of (found info) = info.version
version_of _ = default_version

-- An error of the store is logged, and gives the default version.
unfoldable pub get_version : Node → SessionType → Text → Outcome ℕ
get_version n t wallet_id = elim (session_curve t) [
  | none ↦ exit
  | some c ↦ ok (version_of (KeyInfo.get n.keyinfo_store (compose_key c wallet_id)))
]

unfoldable pub get_ready_peers_for_session : List Text → List Text → List Text
get_ready_peers_for_session [] ready_peers = []
get_ready_peers_for_session (p ∷ ps) ready_peers =
    let rest = get_ready_peers_for_session ps ready_peers in
    if contains ready_peers p then p ∷ rest else rest

unfoldable pub ensure_node_is_participant : Node → KeyInfo → Outcome (Unit {0})
ensure_node_is_participant n info =
    fail_if (not (contains info.participant_peer_ids n.node_id)) not_in_participant_list

-- `tss.SortPartyIDs` and the UUIDs that `uuid.NewString` draws are the libraries'.
module _ (sort_party_ids : List PartyId → List PartyId) (uuid : ℕ → Text) where
  -- The party IDs in the order of the peers; the UUIDs are drawn from the `i`-th on.
  unfoldable pub create_party_ids : Text → ℕ → ℕ → List Text → List PartyId
  create_party_ids label version i [] = []
  create_party_ids label version i (p ∷ ps) =
      create_party_id (uuid i) p label version ∷ create_party_ids label version (suc i) ps

  -- The variable `self` of the loop: the last party ID made for the node.
  unfoldable pub find_self : Text → Text → ℕ → ℕ → List Text → Option PartyId
  find_self node_id label version i [] = none
  find_self node_id label version i (p ∷ ps) = elim (find_self node_id label version (suc i) ps) [
    | some self ↦ some self
    | none ↦ if same p node_id then some (create_party_id (uuid i) p label version) else none
  ]

  unfoldable pub keygen_party_ids : Node → Text → List Text → ℕ → ℕ → Option PartyId × List PartyId
  keygen_party_ids n label ready_peer_ids version i = (
    find_self n.node_id label version i ready_peer_ids,
    sort_party_ids (create_party_ids label version i ready_peer_ids),
  )

  abbrev pub first_pre_params : Curve → Option ℕ
  first_pre_params ecdsa = some 0
  first_pre_params eddsa = none

  unfoldable pub create_keygen_session_for : Node → Curve → Text → ℤ → ℕ → Session
  create_keygen_session_for n c wallet_id threshold version =
      let ready_peer_ids = get_ready_peers_include_self n.peer_registry in
      let (self, all) = keygen_party_ids n purpose_keygen ready_peer_ids version 0 in
      record {
        curve = c;
        wallet_id = wallet_id;
        participant_peer_ids = ready_peer_ids;
        self_party_id = self;
        party_ids = all;
        threshold = threshold;
        pre_params = first_pre_params c;
        version = default_version;
      }

  -- The error of `getKeyInfo` is dropped: only an entry that is found stops the creation.
  abbrev pub exists : Outcome KeyInfo → Bool
  exists (ok _) = true
  exists _ = false

  abbrev pub for_curve {ℓ} : {A : Type ℓ} → SessionType → Error → (Curve → A) → Outcome A
  for_curve session_ecdsa e f = ok (f ecdsa)
  for_curve session_eddsa e f = ok (f eddsa)
  for_curve (other _) e f = err e

  unfoldable pub create_keygen_session : Node → SessionType → Text → ℤ → Outcome Session
  create_keygen_session n t wallet_id threshold = do
    fail_if (not (are_peers_ready n.peer_registry)) nodes_not_ready
    fail_if (exists (get_key_info n t wallet_id)) (key_already_exists wallet_id)
    for_curve t unknown_session_type
        λ c. create_keygen_session_for n c wallet_id threshold default_version

  -- `CreateSigningSession`, from the check of the ready participants on.
  unfoldable pub signing_session_for : Node → SessionType → Text → ℕ → KeyInfo → Outcome Session
  signing_session_for n t wallet_id version info = do
    let ready_peers = get_ready_peers_include_self n.peer_registry
    let ready = get_ready_peers_for_session info.participant_peer_ids ready_peers
    fail_if (ltb_ℤ (pos (length ready)) (info.threshold +ℤ pos 1))
        (not_enough_peers (info.threshold +ℤ pos 1) (length ready))
    ensure_node_is_participant n info
    let parties = keygen_party_ids n purpose_keygen ready version 0
    for_curve t unknown_session_type λ c. record {
      curve = c;
      wallet_id = wallet_id;
      participant_peer_ids = ready;
      self_party_id = parties.0;
      party_ids = parties.1;
      threshold = info.threshold;
      pre_params = first_pre_params c;
      version = 0;
    }

  unfoldable pub create_signing_session : Node → SessionType → Text → Outcome Session
  create_signing_session n t wallet_id = do
    version ← get_version n t wallet_id
    info ← get_key_info n t wallet_id
    signing_session_for n t wallet_id version info
