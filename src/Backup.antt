-- ===== src/Backup.antt =====
-- Encrypted incremental backups of the key-value store (pkg/kvstore/badger_backup.go). The directory
-- is a record of its files; what Badger, the clock, the random source and the file system do in one
-- run is a record too, so that a run is a function.
pub mod Laws
pub mod Runs
pub mod Truncated
use mpc_go.Common.{
  ℕ, zero, suc, ◌+◌, ◌-◌, ◌*◌, ◌/◌, ◌%◌, ◌^◌, ◌≡◌, ◌∷◌, ◌++◌, ◌==◌, ◌||◌, ◌&&◌, [], List, Option,
  none, some, Text, Bool, true, false, not, same, codes, decimal, if◌then◌else◌, ltb, length, take,
  drop, lookup, insert,
}
use mpc_go.Encryption.{Aead, encrypt_aes_gcm, decrypt_aes_gcm}

pub record BadgerBackupMeta : Type 0 where
  pub algo : Text
  pub nonce_b64 : Text
  pub created_at : Text
  pub since : ℕ
  pub next_since : ℕ
  pub encryption_key_id : Text

pub record BadgerBackupVersionInfo : Type 0 where
  pub version : ℕ  -- uint64
  pub since : ℕ  -- uint64
  pub updated_at : Text

-- JSON, base64 and the hexadecimal SHA-256 of the libraries.
pub record Codecs : Type 0 where
  pub encode_meta : BadgerBackupMeta → Text
  pub decode_meta : Text → Option BadgerBackupMeta
  pub encode_b64 : Text → Text
  pub decode_b64 : Text → Option Text
  pub sha256_hex : Text → Text

-- The backup directory: the backups by name, and "latest.version" if it is there.
pub record Directory : Type 0 where
  pub files : List (Text × Text)
  pub latest_version : Option BadgerBackupVersionInfo

-- One run's surroundings.
pub record Attempt : Type 0 where
  pub is_readable : Bool  -- whether "latest.version", where it is there, can be read
  pub now : Text  -- as in the file's name
  pub created_at : Text
  pub backup : ℕ → Option (Text × ℕ)  -- `DB.Backup` from a watermark on
  pub nonce : Option Text
  -- how many of creating the file and its four writes succeed
  pub writes : ℕ
  pub is_saved : Bool  -- whether "latest.version" can be written

pub data Report : Type 0 where
  succeeded skipped failed : Report

abbrev pub magic : Text
magic = codes "MPCIUM_BACKUP"

-- `binary.Write` and `binary.Read` of a uint32 in big-endian order.
unfoldable pub put_uint32 : ℕ → Text
put_uint32 n = (n / 2 ^ 24) % 256 ∷ (n / 2 ^ 16) % 256 ∷ (n / 2 ^ 8) % 256 ∷ n % 256 ∷ []

unfoldable pub get_uint32 : Text → ℕ
get_uint32 (a ∷ b ∷ c ∷ d ∷ []) = a * 2 ^ 24 + b * 2 ^ 16 + c * 2 ^ 8 + d
get_uint32 _ = 0

unfoldable pub default_info : Attempt → BadgerBackupVersionInfo
default_info at = record { version = 0; since = 0; updated_at = at.created_at }

-- `none` is an error; a file that is missing is none.
unfoldable pub load_version_info : Attempt → Directory → Option BadgerBackupVersionInfo
load_version_info at dir = elim dir.latest_version [
  | none ↦ some (default_info at)
  | some info ↦ if at.is_readable then some info else none
]

unfoldable pub file_name : Text → Text → ℕ → Text
file_name node_id now version =
    codes "backup-" ++ node_id ++ codes "-" ++ now ++ codes "-" ++ decimal version ++ codes ".enc"

abbrev pub concat : List Text → Text
concat [] = []
concat (t ∷ ts) = t ++ concat ts

unfoldable pub new_meta : Codecs → Text → Attempt → Text → ℕ → ℕ → BadgerBackupMeta
new_meta j key at nonce since next_since = record {
  algo = codes "AES-256-GCM";
  nonce_b64 = j.encode_b64 nonce;
  created_at = at.created_at;
  since = since;
  next_since = next_since;
  encryption_key_id = take 16 (j.sha256_hex key);
}

-- What is written, in the order of the writes.
unfoldable pub chunks : Codecs → BadgerBackupMeta → Text → List Text
chunks j m ct = magic ∷ put_uint32 (length (j.encode_meta m)) ∷ j.encode_meta m ∷ ct ∷ []

abbrev pub max_uint32 : ℕ
max_uint32 = 2 ^ 32 - 1

-- How far the writes get, where one that fails leaves nothing: after the magic a length that is too large stops them.
unfoldable pub writes_made : ℕ → ℕ → ℕ
writes_made meta_len allowed = if ltb max_uint32 meta_len && ltb 1 allowed then 2 else allowed

unfoldable pub save_version_info : Attempt → ℕ → ℕ → Directory → Directory
save_version_info at counter since dir =
    if at.is_saved
    then record dir {
      latest_version =
          some (record { version = counter; since = since; updated_at = at.created_at });
    }
    else dir

-- From the encryption's result on: the file, and after it the version info.
unfoldable pub write_backup :
    Codecs → Text → Text → Attempt → ℕ → ℕ → ℕ → Text → Text → Directory → Report × Directory
write_backup j key name at version since next_since ct nonce dir =
    let meta = new_meta j key at nonce since next_since in
    let made = writes_made (length (j.encode_meta meta)) at.writes in
    let written = record dir {
      files = insert name (concat (take (made - 1) (chunks j meta ct))) dir.files;
    } in
    if made == 0
    then (failed, dir)
    else if ltb made 5
    then (failed, written)
    else (succeeded, save_version_info at version next_since written)

unfoldable pub execute : Codecs → Aead → Text → Text → Attempt → Directory → Report × Directory
execute j a key node_id at dir = elim (load_version_info at dir) [
  | none ↦ (failed, dir)
  | some info ↦
      let version = (info.version + 1) % 2 ^ 64 in
      elim (at.backup info.since) [
        | none ↦ (failed, dir)
        | some (plain, next_since) ↦
            if (length plain == 0) || (next_since == info.since)
            then (skipped, dir)
            else elim (encrypt_aes_gcm a at.nonce plain key) [
              | none ↦ (failed, dir)
              | some (ct, nonce) ↦
                  write_backup j key (file_name node_id at.now version) at version info.since
                    next_since ct nonce dir
            ]
      ]
]

-- `io.ReadFull`: what is read, and the rest.
unfoldable pub read_full : ℕ → Text → Option (Text × Text)
read_full n t = if ltb (length t) n then none else some (take n t, drop n t)

unfoldable pub open_backup : Codecs → Aead → Text → BadgerBackupMeta → Text → Option Text
open_backup j a key meta ct = elim (j.decode_b64 meta.nonce_b64) [
  | none ↦ none
  | some nonce ↦ decrypt_aes_gcm a ct key nonce
]

unfoldable pub read_meta : Codecs → Aead → Text → Text → Option Text
read_meta j a key t = elim (read_full 4 t) [
  | none ↦ none
  | some (len, rest) ↦ elim (read_full (get_uint32 len) rest) [
    | none ↦ none
    | some (meta_buf, ct) ↦ elim (j.decode_meta meta_buf) [
      | none ↦ none
      | some meta ↦ open_backup j a key meta ct
    ]
  ]
]

-- `loadEncryptedBackup` up to what it hands to `db.Load`; `none` is an error.
unfoldable pub load_encrypted_backup : Codecs → Aead → Text → Text → Option Text
load_encrypted_backup j a key t = elim (read_full (length magic) t) [
  | none ↦ none
  | some (magic_buf, rest) ↦ if same magic_buf magic then read_meta j a key rest else none
]

-- The loop of `RestoreAllBackupsEncrypted` over the files in the order of their names; the last
-- argument of it is `db.Load`, and `none` the first error.
unfoldable pub restore_all {ℓ} :
    {DB : Type ℓ}
    → Codecs
    → Aead
    → Text
    → (Text → DB → Option DB)
    → List (Text × Text)
    → DB
    → Option DB
restore_all j a key load [] db = some db
restore_all j a key load ((name, content) ∷ rest) db =
    elim (load_encrypted_backup j a key content) [
      | none ↦ none
      | some plain ↦ elim (load plain db) [
        | none ↦ none
        | some next ↦ restore_all j a key load rest next
      ]
    ]
