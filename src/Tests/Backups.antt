-- ===== src/Tests/Backups.antt =====
-- Backups of a store with one change.
use mpc_go.Common.{ℕ, ◌+◌, ◌≡◌, ◌∷◌, [], List, none, some, Text, true, refl, codes, arith}
use mpc_go.Encryption.{encrypt_aes_gcm}
use mpc_go.Backup.{
  BadgerBackupMeta, BadgerBackupVersionInfo, Codecs, Directory, Attempt, succeeded, failed,
  load_version_info, new_meta, execute, write_backup, writes_made, default_info, restore_all,
}
use mpc_go.Backup.Runs.{BackedUp, execute-succeeded}
use mpc_go.Backup.Truncated.{restore_all-execute}
use mpc_go.Tests.Peers.{cipher, cipher-AeadLaws}

abbrev key : Text
key = codes "k"

abbrev node_id : Text
node_id = codes "node0"

abbrev watermarks : ℕ → ℕ → BadgerBackupMeta
watermarks s n = record {
  algo = codes "AES-256-GCM";
  nonce_b64 = codes "n";
  created_at = codes "then";
  since = s;
  next_since = n;
  encryption_key_id = codes "k";
}

abbrev meta_of : Text → BadgerBackupMeta
meta_of (s ∷ n ∷ _) = watermarks s n
meta_of _ = watermarks 0 0

-- The two watermarks stand for the metadata.
abbrev codecs : Codecs
codecs = record {
  encode_meta = λ m. m.since ∷ m.next_since ∷ [];
  decode_meta = λ t. some (meta_of t);
  encode_b64 = λ t. t;
  decode_b64 = λ t. some t;
  sha256_hex = λ t. t;
}

abbrev attempt : Attempt
attempt = record {
  is_readable = true;
  now = codes "now";
  created_at = codes "then";
  backup = λ since. some (codes "change", since + 3);
  nonce = some (codes "n");
  writes = 5;
  is_saved = true;
}

abbrev empty : Directory
empty = record { files = []; latest_version = none }

runs : (execute codecs cipher key node_id attempt empty).0 ≡ succeeded
unfolding execute load_version_info default_info encrypt_aes_gcm write_backup writes_made
runs = refl

execute-succeeded_example :
    (info : BadgerBackupVersionInfo) × (plain : Text) × (next_since : ℕ) × (content : Text)
    × BackedUp codecs cipher key node_id attempt empty
        (execute codecs cipher key node_id attempt empty).1
        info
        plain
        next_since
        content
execute-succeeded_example =
    execute-succeeded codecs cipher key cipher-AeadLaws attempt (codes "n") refl
      (λ s n. unfold new_meta in refl) (λ s n. omega arith) refl node_id empty runs

abbrev stopped : Attempt
stopped = record attempt { writes = 2 }

stops : (execute codecs cipher key node_id stopped empty).0 ≡ failed
unfolding execute load_version_info default_info encrypt_aes_gcm write_backup writes_made
stops = refl

restore_all-execute_example :
    ((execute codecs cipher key node_id stopped empty).0 ≡ failed)
    × (restore_all codecs cipher key
          (λ plain db. some (plain ∷ db))
          (execute codecs cipher key node_id stopped empty).1.files
          []
        ≡ none)
restore_all-execute_example =
    restore_all-execute codecs cipher key (λ (plain : Text) (db : List Text). some (plain ∷ db)) []
      node_id stopped empty (default_info stopped) (codes "change") (codes "kchange") (codes "n") 3
      (unfold load_version_info in refl) (unfold default_info in refl) refl
      (unfold default_info in refl) (unfold encrypt_aes_gcm in refl) (omega arith) (omega arith)
      (omega arith) (omega arith)
