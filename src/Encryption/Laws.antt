-- ===== src/Encryption/Laws.antt =====
-- A ciphertext with its nonce embedded decrypts to what was encrypted.
use mpc_go.Common.{
  ◌≡◌, ◌++◌, refl, some, Text, true, false, length, sym, length-append, take-append, drop-append,
  ltb, arith,
}
use mpc_go.Encryption.{
  Aead, AeadLaws, crypted, encrypt_aes_gcm_with_nonce_embed, decrypt_aes_gcm_with_nonce_embed,
}

long_enough :
    (a : Aead) (nonce rest : Text)
    → length nonce ≡ a.nonce_size
    → ltb (length (nonce ++ rest)) a.nonce_size ≡ false
long_enough a nonce rest h = ground (arith, length-append nonce rest)

pub decrypt-sealed :
    (a : Aead)
    → AeadLaws a
    → (nonce plaintext key : Text) → length nonce ≡ a.nonce_size
    → a.is_key key ≡ true
    → decrypt_aes_gcm_with_nonce_embed a (nonce ++ a.seal key nonce plaintext) key
      ≡ crypted plaintext
unfolding decrypt_aes_gcm_with_nonce_embed
decrypt-sealed a laws nonce plaintext key size k =
    rw (k, long_enough a nonce (a.seal key nonce plaintext) size)
      (rw (sym size) (
        rw
          (
            take-append nonce (a.seal key nonce plaintext),
            drop-append nonce (a.seal key nonce plaintext),
            laws.open-seal key nonce plaintext,
          )
          refl))

-- What one node encrypts under a key and a nonce of the cipher's size, the other decrypts under the
-- same key.
pub decrypt-encrypt :
    (a : Aead)
    → AeadLaws a
    → (nonce plaintext key cipher : Text) → length nonce ≡ a.nonce_size
    → encrypt_aes_gcm_with_nonce_embed a (some nonce) plaintext key ≡ crypted cipher
    → decrypt_aes_gcm_with_nonce_embed a cipher key ≡ crypted plaintext
unfolding encrypt_aes_gcm_with_nonce_embed decrypt_aes_gcm_with_nonce_embed
decrypt-encrypt a laws nonce plaintext key cipher size e =
    ground (arith, decrypt-sealed a laws nonce plaintext key size)
