-- ===== src/Client/Signer.antt =====
-- The signer of a client that holds its own key (pkg/client/signer/local.go). Files, age, the DER formats
-- and the signature schemes are arguments.
pub mod Origin
pub mod Laws
use mpc_go.Common.{
  ◌∷◌, ◌==◌, [], List, Option, none, some, Text, Bool, true, false, not, ◌||◌, ◌&&◌, codes, ltb,
  leb, ◌-◌, same, length, drop, trim_space, if◌then◌else◌,
}
use mpc_go.Encryption.Keys.{
  Der, EcdsaKey, decode_hex, encode_hex, parse_p256_private_key, marshal_p256_public_key,
  sign_with_p256,
}
use mpc_go.Identity.Store.{Algorithm, ed25519, p256, other_algorithm}

pub record Surroundings : Type 0 where
  pub exists : Text → Bool
  pub read_file : Text → Option Text
  pub age_decrypt : Text → Text → Option Text  -- bytes, password
  pub der : Der
  pub key_from_seed : Text → Text  -- `ed25519.NewKeyFromSeed` of 32 bytes
  pub ed25519_public : Text → Text
  pub ed25519_sign : Text → Text → Text  -- private key, message
  pub sha256 : Text → Text
  pub sign_asn1 : Text → Text → Option Text  -- private key, hash

pub data SignerError : Type 0 where
  key_file_not_found no_password not_read not_decrypted : SignerError
  bad_ed25519_key bad_p256_key unsupported_key_type : SignerError

-- `crashed` is the panic of `NewKeyFromSeed` on a seed of another length.
pub data Made {ℓ} (A : Type ℓ) : Type ℓ where
  made : A → Made A
  refused : SignerError → Made A
  crashed : Made A

infixl 5 ◌>>=◌
abbrev pub ◌>>=◌ {ℓ κ} : {A : Type ℓ} {B : Type κ} → Made A → (A → Made B) → Made B
made a >>= f = f a
refused e >>= f = refused e
crashed >>= f = crashed

abbrev pub or_refuse {ℓ} : {A : Type ℓ} → SignerError → Option A → Made A
or_refuse e none = refused e
or_refuse e (some a) = made a

pub record LocalSigner : Type 0 where
  pub key_type : Algorithm
  pub ed25519_key : Option Text
  pub p256_key : Option EcdsaKey

-- `strings.HasSuffix`.
abbrev has_suffix : Text → Text → Bool
has_suffix s t = leb (length t) (length s) && same (drop (length s - length t) s) t

module _ (x : Surroundings) where
  unfoldable pub read_key_file : Text → Bool → Text → Made Text
  read_key_file key_path encrypted password =
      if not (x.exists key_path)
      then refused key_file_not_found
      else if not encrypted
      then or_refuse not_read (x.read_file key_path)
      else if length password == 0
      then refused no_password
      else or_refuse not_read (x.read_file key_path)
        >>= (λ bytes. or_refuse not_decrypted (x.age_decrypt bytes password))

  unfoldable pub load_ed25519_key : Text → Made LocalSigner
  load_ed25519_key key_data = elim (decode_hex (trim_space key_data)) [
    | none ↦ refused bad_ed25519_key
    | some seed ↦
        if length seed == 32
        then made (record {
          key_type = ed25519;
          ed25519_key = some (x.key_from_seed seed);
          p256_key = none;
        })
        else crashed
  ]

  unfoldable pub load_p256_key : Text → Made LocalSigner
  load_p256_key key_data = elim (parse_p256_private_key x.der key_data) [
    | none ↦ refused bad_p256_key
    | some key ↦ made (record { key_type = p256; ed25519_key = none; p256_key = some key })
  ]

  abbrev pub load_key : Algorithm → Text → Made LocalSigner
  load_key ed25519 key_data = load_ed25519_key key_data
  load_key p256 key_data = load_p256_key key_data
  load_key (other_algorithm _) key_data = refused unsupported_key_type

  abbrev pub path_or_default : Text → Text
  path_or_default key_path = if length key_path == 0 then codes "event_initiator.key" else key_path

  unfoldable pub new_local_signer : Algorithm → Text → Bool → Text → Made LocalSigner
  new_local_signer key_type key_path encrypted password =
      let path = path_or_default key_path in
      read_key_file path (encrypted || has_suffix path (codes ".age")) password
      >>= (λ key_data. load_key key_type key_data)

  -- `Sign`; `none` is an error.
  unfoldable pub sign : LocalSigner → Text → Option Text
  sign s dat = elim s.key_type [
    | ed25519 ↦ elim s.ed25519_key [ none ↦ none | some key ↦ some (x.ed25519_sign key dat) ]
    | p256 ↦ elim s.p256_key [
      | none ↦ none
      | some key ↦ sign_with_p256 x.sha256 x.sign_asn1 key dat
    ]
    | other_algorithm _ ↦ none
  ]

  -- `PublicKey`, in hex.
  unfoldable pub public_key : LocalSigner → Option Text
  public_key s = elim s.key_type [
    | ed25519 ↦ elim s.ed25519_key [
      | none ↦ none
      | some key ↦ some (encode_hex (x.ed25519_public key))
    ]
    | p256 ↦ elim s.p256_key [
      | none ↦ none
      | some key ↦ elim (marshal_p256_public_key x.der key.public_key) [
        | none ↦ none
        | some bytes ↦ some (encode_hex bytes)
      ]
    ]
    | other_algorithm _ ↦ none
  ]
