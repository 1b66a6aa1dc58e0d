-- ===== src/Node/Initialise.antt =====
-- `Init` of a signing session (pkg/mpc/ecdsa/signing.go and pkg/mpc/eddsa/signing.go): it checks the
-- participants again and loads the share.
pub mod Laws
use mpc_go.Common.{
  ◌∷◌, [], List, Option, none, some, Text, Bool, true, false, if◌then◌else◌, length, pos, ltb_ℤ,
  ◌+ℤ◌,
}
use mpc_go.KeyInfo
use mpc_go.KeyInfo.{KeyInfo}
use mpc_go.Topic.{compose_key, wallet_id_with_version}
use mpc_go.Node.{Node, Session, Error, Outcome, ok, err, exit, fetch, key_info_unavailable}

pub data InitError : Type 0 where
  no_key_info : Error → InitError
  too_few_participants : InitError  -- core.ErrNotEnoughParticipants
  incompatible_peer_ids : List Text → List Text → InitError  -- the current and the expected
  no_share unreadable_share : InitError

-- `lo.Intersect`, the key-value store's `Get`, and whether the stored bytes decode to a share.
pub record Shares : Type 0 where
  pub intersect : List Text → List Text → List Text
  pub get_share : Text → Option Text
  pub is_share : Text → Bool

abbrev pub load_share : Shares → Session → KeyInfo → Option InitError
load_share sh s info =
    elim (sh.get_share (compose_key s.curve (wallet_id_with_version s.wallet_id info.version))) [
      | none ↦ some no_share
      | some key_data ↦ if sh.is_share key_data then none else some unreadable_share
    ]

unfoldable pub init_with_key_info : Shares → Session → KeyInfo → Option InitError
init_with_key_info sh s info =
    let required = info.threshold +ℤ pos 1 in
    if ltb_ℤ (pos (length s.participant_peer_ids)) required
    then some too_few_participants
    else if ltb_ℤ (pos (length (sh.intersect s.participant_peer_ids info.participant_peer_ids)))
        required
    then some (incompatible_peer_ids s.participant_peer_ids info.participant_peer_ids)
    else load_share sh s info

-- `none` is success.
unfoldable pub init_signing_session : Shares → Node → Session → Option InitError
init_signing_session sh n s =
    elim (fetch (KeyInfo.get n.keyinfo_store (compose_key s.curve s.wallet_id))) [
      | ok info ↦ init_with_key_info sh s info
      | err e ↦ some (no_key_info e)
      | exit ↦ some (no_key_info key_info_unavailable)
    ]
