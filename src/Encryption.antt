-- ===== src/Encryption.antt =====
-- Symmetric encryption (pkg/encryption/aes.go) and the check of a P-256 signature
-- (pkg/encryption/p256.go). The ciphers, the hash and the curves are Go's packages.
pub mod Laws
pub mod Keys
use mpc_go.Common.{
  ℕ, ◌≡◌, ◌++◌, ◌==◌, List, Option, none, some, Text, Bool, true, false, not, if◌then◌else◌, ltb,
  length, take, drop,
}

-- AES in Galois counter mode: which keys `aes.NewCipher` takes, and the AEAD that `NewGCM` gives.
pub record Aead : Type 0 where
  pub is_key : Text → Bool
  pub nonce_size : ℕ
  pub seal : Text → Text → Text → Text  -- key, nonce, plaintext
  pub open_sealed : Text → Text → Text → Option Text  -- key, nonce, ciphertext

-- What is sealed opens under the same key and nonce.
pub record AeadLaws (a : Aead) : Type 0 where
  pub open-seal :
      (key nonce plain : Text) → a.open_sealed key nonce (a.seal key nonce plain) ≡ some plain

pub data CipherError : Type 0 where
  bad_key no_nonce too_short decryption_failed : CipherError

pub data Crypted : Type 0 where
  crypted : Text → Crypted
  refused : CipherError → Crypted

-- The pair of ciphertext and nonce; `none` is an error.
unfoldable pub encrypt_aes_gcm : Aead → Option Text → Text → Text → Option (Text × Text)
encrypt_aes_gcm a nonce plain key =
    if not (a.is_key key)
    then none
    else elim nonce [ none ↦ none | some n ↦ some (a.seal key n plain, n) ]

unfoldable pub decrypt_aes_gcm : Aead → Text → Text → Text → Option Text
decrypt_aes_gcm a ciphertext key nonce =
    if not (a.is_key key) then none else a.open_sealed key nonce ciphertext

-- The nonce is what `rand.Read` fills in; `none` is its failure.
unfoldable pub encrypt_aes_gcm_with_nonce_embed : Aead → Option Text → Text → Text → Crypted
encrypt_aes_gcm_with_nonce_embed a nonce plaintext key =
    if not (a.is_key key)
    then refused bad_key
    else elim nonce [ none ↦ refused no_nonce | some n ↦ crypted (n ++ a.seal key n plaintext) ]

abbrev opened : Option Text → Crypted
opened none = refused decryption_failed
opened (some plaintext) = crypted plaintext

unfoldable pub decrypt_aes_gcm_with_nonce_embed : Aead → Text → Text → Crypted
decrypt_aes_gcm_with_nonce_embed a dat key =
    if not (a.is_key key)
    then refused bad_key
    else if ltb (length dat) a.nonce_size
    then refused too_short
    else opened (a.open_sealed key (take a.nonce_size dat) (drop a.nonce_size dat))

-- An ECDSA public key; the flag is whether its curve is P-256.
pub record P256PublicKey : Type 0 where
  pub on_p256 : Bool
  pub point : Text

unfoldable pub verify_p256_signature :
    (Text → Text) → (Text → Text → Text → Bool) → Option P256PublicKey → Text → Text → Bool
verify_p256_signature sha256 verify_asn1 none dat signature = false
verify_p256_signature sha256 verify_asn1 (some k) dat signature =
    if not k.on_p256
    then false
    else if length signature == 0
    then false
    else verify_asn1 k.point (sha256 dat) signature
