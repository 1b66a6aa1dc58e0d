-- ===== src/KeyInfo.antt =====
-- Key information (pkg/keyinfo/keyinfo.go). Consul and the JSON codec are not modelled: a fetch finds
-- an entry, finds none, or fails (the request or the decoding).
use mpc_go.Common.{
  ℕ, List, Option, none, some, Text, ℤ, ◌++◌, codes, lookup, insert, Bool, true, false,
}

pub record KeyInfo : Type 0 where
  pub participant_peer_ids : List Text
  pub threshold : ℤ
  pub version : ℕ  -- int; versions start at 0 or 1 and only grow

pub data Fetched : Type 0 where
  found : KeyInfo → Fetched
  not_found failed : Fetched

-- The entries of the Consul store, and whether it answers.
pub record Store : Type 0 where
  pub entries : List (Text × KeyInfo)
  pub available : Bool

unfoldable pub compose_store_key : Text → Text
compose_store_key wallet_id = codes "threshold_keyinfo/" ++ wallet_id

abbrev pub fetched : Option KeyInfo → Fetched
fetched none = not_found
fetched (some info) = found info

abbrev pub if_available : Bool → Fetched → Fetched
if_available true f = f
if_available false f = failed

unfoldable pub get : Store → Text → Fetched
get s wallet_id =
    if_available s.available (fetched (lookup (compose_store_key wallet_id) s.entries))

-- `none` is the error of a failed put.
unfoldable pub save : Store → Text → KeyInfo → Option Store
save s wallet_id info = elim s.available [
  | true ↦ some (record s { entries = insert (compose_store_key wallet_id) info s.entries })
  | false ↦ none
]
