-- ===== src/Backup/Truncated.antt =====
-- A run whose writes stop early leaves a file that no restoration gets past.
use mpc_go.Common.{
  ℕ, zero, suc, ◌+◌, ◌-◌, ◌≤◌, ◌<◌, ◌%◌, ◌^◌, ◌≡◌, ◌∷◌, ◌==◌, [], refl, ap, List, Option, none,
  some, Text, Bool, false, same, same_iff, if◌then◌else◌, length, take, lookup, insert,
  lookup-insert, arith, ◌∙◌, inl, inr, Option-cases,
}
use mpc_go.Encryption.{Aead, encrypt_aes_gcm}
use mpc_go.Backup.{
  BadgerBackupMeta, BadgerBackupVersionInfo, Codecs, Directory, Attempt, failed, put_uint32,
  load_version_info, file_name, concat, new_meta, chunks, max_uint32, writes_made, write_backup,
  execute, read_full, read_meta, load_encrypted_backup, restore_all,
}
use mpc_go.Backup.Laws.{get_uint32-put_uint32}

module _ (j : Codecs) (a : Aead) (key : Text) where
  restore_all-unreadable :
      {DB : Type 0} (load : Text → DB → Option DB) (name content : Text)
      (files : List (Text × Text)) (db : DB)
      → lookup name files ≡ some content
      → load_encrypted_backup j a key content ≡ none
      → restore_all j a key load files db ≡ none
  unfolding restore_all lookup
  restore_all-unreadable load name content [] db h u = ground arith
  restore_all-unreadable load name content ((other, t) ∷ files) db h u =
      elim (Option-cases (load_encrypted_backup j a key t)) [
        | inl e ↦ ground arith
        | inr (plain, e) ↦ elim (Option-cases (load plain db)) [
          | inl f ↦ ground arith
          | inr (next, f) ↦
              ground (arith, restore_all-unreadable load name content files next (ground arith) u)
        ]
      ]

  truncated :
      (m : BadgerBackupMeta) (ct : Text) (k : ℕ)
      → 1 ≤ k
      → k ≤ 3
      → 0 < length (j.encode_meta m)
      → length (j.encode_meta m) ≤ max_uint32
      → load_encrypted_backup j a key (concat (take (k - 1) (chunks j m ct))) ≡ none
  unfolding load_encrypted_backup chunks read_full read_meta same put_uint32
  truncated m ct zero l h p q = absurd (omega arith)
  truncated m ct (suc zero) l h p q = refl
  truncated m ct (suc (suc zero)) l h p q = refl
  truncated m ct (suc (suc (suc zero))) l h p q =
      ground (arith, get_uint32-put_uint32 (length (j.encode_meta m)) q)
  truncated m ct (suc (suc (suc (suc k)))) l h p q = absurd (omega arith)

  cut_short :
      (node_id : Text) (at : Attempt) (dir : Directory) (info : BadgerBackupVersionInfo)
      (plain ct nonce : Text) (next_since : ℕ)
      → load_version_info at dir ≡ some info
      → at.backup info.since ≡ some (plain, next_since)
      → (length plain == 0) ≡ false
      → (next_since == info.since) ≡ false
      → encrypt_aes_gcm a at.nonce plain key ≡ some (ct, nonce)
      → 1 ≤ at.writes
      → at.writes ≤ 3
      → length (j.encode_meta (new_meta j key at nonce info.since next_since)) ≤ max_uint32
      → execute j a key node_id at dir ≡ (
        failed,
        record dir {
          files =
              insert
                (file_name node_id at.now ((info.version + 1) % 2 ^ 64))
                (concat (
                  take
                    (at.writes - 1)
                    (chunks j (new_meta j key at nonce info.since next_since) ct)))
                dir.files;
        },
      )
  unfolding execute write_backup writes_made
  cut_short node_id at dir info plain ct nonce next_since l b p n e lo hi q = ground arith

  -- A run that has changes to back up but only gets as far as creating its file, writing the magic or
  -- writing the length reports a failure and leaves the file behind; from then on restoring the
  -- directory fails, whatever the other files hold, while the file stays.
  pub restore_all-execute :
      {DB : Type 0} (load : Text → DB → Option DB) (db : DB) (node_id : Text) (at : Attempt)
      (dir : Directory) (info : BadgerBackupVersionInfo) (plain ct nonce : Text) (next_since : ℕ)
      → load_version_info at dir ≡ some info
      → at.backup info.since ≡ some (plain, next_since)
      → (length plain == 0) ≡ false
      → (next_since == info.since) ≡ false
      → encrypt_aes_gcm a at.nonce plain key ≡ some (ct, nonce)
      → 1 ≤ at.writes
      → at.writes ≤ 3
      → 0 < length (j.encode_meta (new_meta j key at nonce info.since next_since))
      → length (j.encode_meta (new_meta j key at nonce info.since next_since)) ≤ max_uint32
      → ((execute j a key node_id at dir).0 ≡ failed)
        × (restore_all j a key load (execute j a key node_id at dir).1.files db ≡ none)
  restore_all-execute load db node_id at dir info plain ct nonce next_since l b p n e lo hi z q =
      let name = file_name node_id at.now ((info.version + 1) % 2 ^ 64) in
      let m = new_meta j key at nonce info.since next_since in
      let content = concat (take (at.writes - 1) (chunks j m ct)) in
      let r = cut_short node_id at dir info plain ct nonce next_since l b p n e lo hi q in
      (
        ap (λ v. v.0) r,
        restore_all-unreadable load name content (execute j a key node_id at dir).1.files db
            (ap (λ v. lookup name v.1.files) r
              ∙ lookup-insert name name content dir.files
              ∙ ap (λ (t : Bool). if t then some content else lookup name dir.files)
                  ((same_iff name name).1 refl))
            (truncated m ct at.writes lo hi z q),
      )
