-- ===== src/Tests/Stores.antt =====
-- What sessions leave in the stores, an identity store that loads, secrets in memory, and passphrases.
use mpc_go.Common.{
  ◌≡◌, ◌∷◌, ◌++◌, [], List, none, some, Text, Bool, true, false, refl, codes, arith, All, same,
  lookup, insert, ◌+ℤ◌, decimal, digits, has_prefix,
}
use mpc_go.Topic.{compose_key, wallet_id_with_version}
use mpc_go.KeyInfo.{get, save, compose_store_key}
use mpc_go.Encryption.Keys.{
  Der, decode_hex, parse_p256_public_key_from_hex, parse_p256_public_key_from_bytes,
}
use mpc_go.Identity.Store.{FileStore, p256}
use mpc_go.Identity.Loading.{
  Surroundings, ok, load_peers, new_file_store, load_private_key, load_initiator_keys,
  load_p256_initiator_key, load_public_keys, load_public_key,
}
use mpc_go.Identity.Loading.Laws.{has_key, IsUsable, new_file_store-keys}
use mpc_go.Node.{Session}
use mpc_go.Node.Resharing.{saved_key_info, new_resharing_session}
use mpc_go.Node.Initialise.{init_signing_session}
use mpc_go.Node.Saving.{
  Stores, SaveData, key_info_not_saved, finished, failed, save_share, generate_key, reshare,
}
use mpc_go.Node.Saving.Laws.{with_stores, shares_of, init-generate_key, init-reshare-failed}
use mpc_go.Secrets.Memory.{
  read, new_secure_bytes, copy, clear, zeros, bytes_of, clear-new_secure_bytes,
}
use mpc_go.Tests.Nodes.{node, wallet, everyone, reshared, signed_session}

abbrev generated : Session
generated = record signed_session { participant_peer_ids = everyone; version = 1 }

abbrev empty_stores : Stores
empty_stores = record { kvstore = []; keyinfo_store = record { entries = []; available = true } }

abbrev produced : SaveData
produced = record {
  key_bytes = some (codes "share");
  is_put = true;
  is_saved = true;
  pub_key_bytes = codes "K";
}

abbrev stores_after : Stores
stores_after = record {
  kvstore = (codes "ecdsa:w_v1", codes "share") ∷ [];
  keyinfo_store = record {
    entries = (codes "threshold_keyinfo/ecdsa:w", wallet) ∷ [];
    available = true;
  };
}

abbrev second : List Text → List Text → List Text
second a b = b

all_shares : Text → Bool
all_shares k = true

saved : generate_key generated produced empty_stores ≡ (stores_after, finished (codes "K"))
unfolding generate_key save_share save compose_key compose_store_key wallet_id_with_version insert
    decimal digits
saved = refl

init-generate_key_example :
    init_signing_session
      (shares_of second all_shares stores_after)
      (with_stores stores_after node)
      generated
    ≡ none
unfolding all_shares ◌+ℤ◌
init-generate_key_example =
    init-generate_key second all_shares node generated generated (codes "share") (codes "K")
      produced empty_stores stores_after refl refl refl saved refl refl (omega arith) (omega arith)

-- The key info store does not answer when the new share has been stored.
abbrev half : SaveData
half = record produced { is_saved = false }

abbrev stores_half : Stores
stores_half = record stores_after {
  kvstore = (codes "ecdsa:w_v1", codes "share") ∷ (codes "ecdsa:w_v2", codes "share") ∷ [];
}

half_saved : reshare reshared (some half) stores_after ≡ (stores_half, failed key_info_not_saved)
unfolding reshare save_share save compose_key compose_store_key wallet_id_with_version insert same
    saved_key_info decimal digits new_resharing_session
half_saved = refl

init-reshare-failed_example :
    init_signing_session
      (shares_of second all_shares stores_half)
      (with_stores stores_half node)
      generated
    ≡ init_signing_session
        (shares_of second all_shares stores_after)
        (with_stores stores_after node)
        generated
unfolding get compose_key compose_store_key lookup same new_resharing_session
init-reshare-failed_example =
    init-reshare-failed second all_shares node reshared generated wallet half key_info_not_saved
      stores_after stores_half half_saved refl refl refl refl

-- A public key is its point, and the other formats hold nothing.
abbrev no_der : Der
no_der = record {
  parse_pkcs8 = λ _. none;
  parse_ec = λ _. none;
  parse_pkix = λ b. some (some (record { on_p256 = true; point = b }));
  marshal_pkix = λ k. some k.point;
  decode_base64 = λ _. none;
}

abbrev pub files : Surroundings
files = record {
  mkdir = λ _. true;
  safe_path = λ dir name. some (dir ++ codes "/" ++ name);
  exists = λ _. true;
  read_file = λ _. some (codes "0a");
  read_password = none;
  age_decrypt = λ _ _. none;
  peers_json = λ _. some ((codes "n", codes "a") ∷ []);
  identity_json = λ _. some (record { node_id = codes "a"; public_key = codes "ff" });
  der = no_der;
  event_initiator_algorithm = codes "p256";
  event_initiator_pub_key = codes "0x78";
}

abbrev loaded_store : FileStore
loaded_store = record {
  public_keys = (codes "a", 255 ∷ []) ∷ [];
  private_key = 10 ∷ [];
  initiator_key = record {
    algorithm = p256;
    ed25519_key = [];
    p256_key = some (record { on_p256 = true; point = codes "x" });
  };
  symmetric_keys = [];
}

loads : new_file_store files (codes "d") (codes "n") false [] ≡ ok loaded_store
unfolding new_file_store load_private_key decode_hex load_initiator_keys load_p256_initiator_key
    load_peers load_public_keys load_public_key insert same parse_p256_public_key_from_hex
    parse_p256_public_key_from_bytes has_prefix
loads = refl

new_file_store-keys_example :
    ((peers : List (Text × Text)) × (load_peers files ≡ ok peers)
      × All (λ p. has_key loaded_store.public_keys p.1 ≡ true) peers)
    × IsUsable files loaded_store.initiator_key
    × (loaded_store.symmetric_keys ≡ [])
new_file_store-keys_example =
    new_file_store-keys files (codes "d") (codes "n") [] false loaded_store loads

abbrev secret_heap : List Text
secret_heap = codes "other" ∷ codes "secret" ∷ []

clear-new_secure_bytes_example :
    let (made, sb) = new_secure_bytes secret_heap 1 in
    let (copied, c) = copy made sb in
    let (cleared, sb') = clear copied sb in
    (bytes_of sb ≡ some 2)
    × (read cleared 2 ≡ zeros (codes "secret"))
    × (read cleared c ≡ codes "secret")
    × (read cleared 1 ≡ codes "secret")
    × (clear cleared sb' ≡ (cleared, sb'))
unfolding read
clear-new_secure_bytes_example = clear-new_secure_bytes secret_heap 1 (omega arith)
