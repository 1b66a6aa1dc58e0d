-- ===== src/Identity/Loading.antt =====
-- How an identity store is made (`NewFileStore` of pkg/identity/identity.go, with the parsing of Ed25519 keys
-- in pkg/encryption/ed25519.go). The file system, `filesystem.SafePath`, age, JSON and the DER formats are
-- arguments.
pub mod Laws
use mpc_go.Common.{
  ℕ, ◌∷◌, ◌++◌, ◌-◌, ◌+◌, ◌*◌, ◌==◌, ◌&&◌, [], List, Option, none, some, Text, Bool, true, false,
  not, codes, leb, same, length, insert, trim_space, if◌then◌else◌,
}
use mpc_go.Encryption.{P256PublicKey}
use mpc_go.Encryption.Keys.{
  Der, decode_hex, parse_p256_public_key_from_hex, parse_p256_public_key_from_base64,
}
use mpc_go.Identity.Store.{Algorithm, ed25519, p256, InitiatorKey, FileStore}

pub data LoadError : Type 0 where
  no_directory bad_private_key_format bad_path not_read not_decrypted : LoadError
  no_passphrase invalid_algorithm no_initiator_key bad_initiator_key : LoadError
  no_peers_file bad_peers_file bad_identity_file bad_public_key : LoadError
  node_id_mismatch : Text → Text → LoadError  -- in peers.json and in the identity file

pub data Loaded {ℓ} (A : Type ℓ) : Type ℓ where
  ok : A → Loaded A
  err : LoadError → Loaded A

infixl 5 ◌>>=◌
abbrev pub ◌>>=◌ {ℓ κ} : {A : Type ℓ} {B : Type κ} → Loaded A → (A → Loaded B) → Loaded B
ok a >>= f = f a
err e >>= f = err e

abbrev pub or_fail {ℓ} : {A : Type ℓ} → LoadError → Option A → Loaded A
or_fail e none = err e
or_fail e (some a) = ok a

abbrev pub require : Bool → LoadError → Loaded (Unit {0})
require true e = ok tt
require false e = err e

-- `ValidateEd25519PublicKey` refuses by the length alone.
unfoldable pub validate_ed25519_public_key : Text → Bool
validate_ed25519_public_key key_bytes = length key_bytes == 32

unfoldable pub parse_ed25519_public_key_from_hex : Text → Option Text
parse_ed25519_public_key_from_hex hex_key =
    if length hex_key == 0 then none else elim (decode_hex hex_key) [
      | none ↦ none
      | some key_bytes ↦ if validate_ed25519_public_key key_bytes then some key_bytes else none
    ]

pub record NodeIdentity : Type 0 where
  pub node_id : Text
  pub public_key : Text

-- What is not the program's own, and the configuration.
pub record Surroundings : Type 0 where
  pub mkdir : Text → Bool
  pub safe_path : Text → Text → Option Text
  pub exists : Text → Bool
  pub read_file : Text → Option Text
  pub read_password : Option Text
  pub age_decrypt : Text → Text → Option Text  -- file, passphrase
  pub peers_json : Text → Option (List (Text × Text))
  pub identity_json : Text → Option NodeIdentity
  pub der : Der
  pub event_initiator_algorithm : Text
  pub event_initiator_pub_key : Text

module _ (x : Surroundings) where
  unfoldable pub load_ed25519_initiator_key : Loaded Text
  load_ed25519_initiator_key =
      if length x.event_initiator_pub_key == 0
      then err no_initiator_key
      else or_fail bad_initiator_key (parse_ed25519_public_key_from_hex x.event_initiator_pub_key)

  -- Hex, and base64 if that fails.
  unfoldable pub load_p256_initiator_key : Loaded P256PublicKey
  load_p256_initiator_key =
      if length x.event_initiator_pub_key == 0
      then err no_initiator_key
      else elim (parse_p256_public_key_from_hex x.der x.event_initiator_pub_key) [
        | some key ↦ ok key
        | none ↦
            or_fail bad_initiator_key
              (parse_p256_public_key_from_base64 x.der x.event_initiator_pub_key)
      ]

  abbrev pub algorithm_name : Text
  algorithm_name =
      if length x.event_initiator_algorithm == 0
      then codes "ed25519"
      else x.event_initiator_algorithm

  unfoldable pub load_initiator_keys : Loaded InitiatorKey
  load_initiator_keys =
      if same algorithm_name (codes "ed25519")
      then load_ed25519_initiator_key
        >>= (λ key. ok (record { algorithm = ed25519; ed25519_key = key; p256_key = none }))
      else if same algorithm_name (codes "p256")
      then load_p256_initiator_key
        >>= (λ key. ok (record { algorithm = p256; ed25519_key = []; p256_key = some key }))
      else err invalid_algorithm

  -- The passphrase from the file, or from the terminal.
  unfoldable pub load_passphrase : Text → Loaded Text
  load_passphrase age_password_file =
      if not (length age_password_file == 0)
      then or_fail not_read (x.read_file age_password_file) >>= (λ dat. ok (trim_space dat))
      else or_fail no_passphrase x.read_password

  unfoldable pub load_private_key : Text → Text → Bool → Text → Loaded Text
  load_private_key identity_dir node_name decrypt age_password_file = do
    encrypted ← or_fail bad_path (x.safe_path identity_dir (node_name ++ codes "_private.key.age"))
    plain ← or_fail bad_path (x.safe_path identity_dir (node_name ++ codes "_private.key"))
    if decrypt
        then if x.exists encrypted
          then load_passphrase age_password_file
            >>= (λ passphrase. or_fail not_decrypted (x.age_decrypt encrypted passphrase))
          else err not_read
        else if x.exists plain
        then or_fail not_read (x.read_file plain)
        else err not_read

  abbrev pub checked_identity : Text → NodeIdentity → Loaded Text
  checked_identity node_id identity =
      if same identity.node_id node_id
      then or_fail bad_public_key (decode_hex identity.public_key)
      else err (node_id_mismatch node_id identity.node_id)

  -- One round of the loop over the peers: the node's public key.
  unfoldable pub load_public_key : Text → Text → Text → Loaded Text
  load_public_key identity_dir node_name node_id = do
    path ← or_fail bad_path (x.safe_path identity_dir (node_name ++ codes "_identity.json"))
    dat ← or_fail not_read (x.read_file path)
    identity ← or_fail bad_identity_file (x.identity_json dat)
    checked_identity node_id identity

  -- The pairs are names and IDs.
  unfoldable pub load_public_keys :
      Text → List (Text × Text) → List (Text × Text) → Loaded (List (Text × Text))
  load_public_keys identity_dir [] keys = ok keys
  load_public_keys identity_dir ((node_name, node_id) ∷ peers) keys =
      load_public_key identity_dir node_name node_id >>= λ key.
      load_public_keys identity_dir peers (insert node_id key keys)

  unfoldable pub load_peers : Loaded (List (Text × Text))
  load_peers = do
    dat ← or_fail no_peers_file (x.read_file (codes "peers.json"))
    or_fail bad_peers_file (x.peers_json dat)

  unfoldable pub new_file_store : Text → Text → Bool → Text → Loaded FileStore
  new_file_store identity_dir node_name decrypt age_password_file = do
    _ ← require (x.mkdir identity_dir) no_directory
    private_key_hex ← load_private_key identity_dir node_name decrypt age_password_file
    private_key ← or_fail bad_private_key_format (decode_hex private_key_hex)
    initiator_key ← load_initiator_keys
    peers ← load_peers
    public_keys ← load_public_keys identity_dir peers []
    ok (record {
      public_keys = public_keys;
      private_key = private_key;
      initiator_key = initiator_key;
      symmetric_keys = [];
    })
