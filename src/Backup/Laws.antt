-- ===== src/Backup/Laws.antt =====
-- A backup that was written restores what was backed up, and the watermark advances only with one.
use mpc_go.Common.{
  ℕ, ◌≤◌, ◌≡◌, ◌++◌, some, Text, same_iff, length, length-append, append_nil, take-append,
  drop-append, arith,
}
use mpc_go.Encryption.{Aead, AeadLaws, encrypt_aes_gcm, decrypt_aes_gcm}
use mpc_go.Backup.{
  BadgerBackupMeta, Codecs, Attempt, magic, put_uint32, get_uint32, concat, new_meta, chunks,
  max_uint32, read_full, open_backup, read_meta, load_encrypted_backup,
}

pub get_uint32-put_uint32 : (n : ℕ) → n ≤ max_uint32 → get_uint32 (put_uint32 n) ≡ n
unfolding get_uint32 put_uint32
get_uint32-put_uint32 n h = omega arith

-- Reading as many bytes as stand first gives them and the rest.
read_full-append : (s t : Text) → read_full (length s) (s ++ t) ≡ some (s, t)
unfolding read_full
read_full-append s t = ground (arith, length-append s t, take-append s t, drop-append s t)

read_length : (n : ℕ) (t : Text) → read_full 4 (put_uint32 n ++ t) ≡ some (put_uint32 n, t)
unfolding put_uint32
read_length n t = read_full-append (put_uint32 n) t

module _ (j : Codecs) (a : Aead) (key : Text) where
  read_meta-chunks :
      (m : BadgerBackupMeta) (ct : Text)
      → length (j.encode_meta m) ≤ max_uint32
      → j.decode_meta (j.encode_meta m) ≡ some m
      → read_meta j a key (put_uint32 (length (j.encode_meta m)) ++ (j.encode_meta m ++ ct))
        ≡ open_backup j a key m ct
  unfolding read_meta
  read_meta-chunks m ct h d = ground (
    arith,
    read_length (length (j.encode_meta m)) (j.encode_meta m ++ ct),
    get_uint32-put_uint32 (length (j.encode_meta m)) h,
    read_full-append (j.encode_meta m) ct,
  )

  pub load-chunks :
      (m : BadgerBackupMeta) (ct : Text)
      → length (j.encode_meta m) ≤ max_uint32
      → j.decode_meta (j.encode_meta m) ≡ some m
      → load_encrypted_backup j a key (concat (chunks j m ct)) ≡ open_backup j a key m ct
  unfolding load_encrypted_backup chunks
  load-chunks m ct h d = ground (
    arith,
    append_nil ct,
    read_full-append magic (put_uint32 (length (j.encode_meta m)) ++ (j.encode_meta m ++ ct)),
    same_iff magic magic,
    read_meta-chunks m ct h d,
  )

  pub open-new_meta :
      AeadLaws a
      → (at : Attempt) (plain ct nonce : Text) (since next_since : ℕ)
      → j.decode_b64 (j.encode_b64 nonce) ≡ some nonce
      → encrypt_aes_gcm a at.nonce plain key ≡ some (ct, nonce)
      → open_backup j a key (new_meta j key at nonce since next_since) ct ≡ some plain
  unfolding open_backup new_meta encrypt_aes_gcm decrypt_aes_gcm
  open-new_meta laws at plain ct nonce since next_since b e =
      ground (arith, laws.open-seal key nonce plain)
