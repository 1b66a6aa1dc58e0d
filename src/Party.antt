-- ===== src/Party.antt =====
-- Party identifiers of the threshold protocol (pkg/mpc/core/party_id.go), and the copy of the
-- translation to a node ID in pkg/identity/identity.go. `tss.PartyID` is the library's struct; its
-- key is kept as the number that `KeyInt` returns.
pub mod Laws
use mpc_go.Common.{
  ℕ, ◌==◌, ◌++◌, ◌∷◌, [], List, map, Option, none, some, Text, Bool, same, cut, trim_space,
  if◌then◌else◌, set_bytes, bytes, decimal,
}

pub record PartyId : Type 0 where
  pub id : Text
  pub moniker : Text
  pub key : ℕ

abbrev pub backward_compatible_version : ℕ
backward_compatible_version = 0

abbrev pub default_version : ℕ
default_version = 1

-- The text whose bytes make the key. A version is never negative.
unfoldable pub party_key : Text → ℕ → Text
party_key node_id version =
    if version == backward_compatible_version then node_id else node_id ++ b':' ∷ decimal version

-- The first argument is the random UUID that `uuid.NewString` makes.
unfoldable pub create_party_id : Text → Text → Text → ℕ → PartyId
create_party_id uuid node_id label version = record {
  id = uuid;
  moniker = label;
  key = set_bytes (party_key node_id version);
}

-- `none` is the nil pointer.
unfoldable pub party_id_to_node_id : Option PartyId → Text
party_id_to_node_id none = []
party_id_to_node_id (some p) = trim_space (cut b':' (bytes p.key)).0

unfoldable pub party_ids_to_node_ids : List PartyId → List Text
party_ids_to_node_ids ps = map (λ p. party_id_to_node_id (some p)) ps

unfoldable pub compare_party_ids : PartyId → PartyId → Bool
compare_party_ids x y = same (bytes x.key) (bytes y.key)

-- The identity store's own translation, by `strings.Split` and with no trimming.
unfoldable pub signer_node_id : PartyId → Text
signer_node_id p = (cut b':' (bytes p.key)).0
