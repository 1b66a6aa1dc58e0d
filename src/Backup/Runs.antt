-- ===== src/Backup/Runs.antt =====
-- What one run of `Execute` leaves in the directory.
use mpc_go.Common.{
  ℕ, zero, suc, ◌+◌, ◌-◌, ◌≤◌, ◌%◌, ◌^◌, ◌≡◌, ◌≢◌, ◌∷◌, ◌∙◌, [], refl, ap, sym, some, Text, Bool,
  same_iff, if◌then◌else◌, length, take, lookup, insert, lookup-insert, arith, inl, inr,
  Option-cases,
}
use mpc_go.Encryption.{Aead, AeadLaws, encrypt_aes_gcm}
use mpc_go.Backup.{
  BadgerBackupMeta, BadgerBackupVersionInfo, Codecs, Directory, Attempt, succeeded,
  load_version_info, file_name, concat, new_meta, chunks, max_uint32, writes_made,
  save_version_info, write_backup, execute, load_encrypted_backup,
}
use mpc_go.Backup.Laws.{load-chunks, open-new_meta}

take_all : (n : ℕ) (a b c d : Text) → 4 ≤ n → take n (a ∷ b ∷ c ∷ d ∷ []) ≡ a ∷ b ∷ c ∷ d ∷ []
take_all zero a b c d h = absurd (omega arith)
take_all (suc zero) a b c d h = absurd (omega arith)
take_all (suc (suc zero)) a b c d h = absurd (omega arith)
take_all (suc (suc (suc zero))) a b c d h = absurd (omega arith)
take_all (suc (suc (suc (suc n)))) a b c d h = refl

module _ (j : Codecs) (a : Aead) (key : Text) where
  -- A run changes the recorded version and watermark only if it succeeds.
  pub execute-latest_version :
      (node_id : Text) (at : Attempt) (dir : Directory)
      → (execute j a key node_id at dir).0 ≢ succeeded
      → (execute j a key node_id at dir).1.latest_version ≡ dir.latest_version
  unfolding execute write_backup
  execute-latest_version node_id at dir h = ground arith

  all_chunks :
      (m : BadgerBackupMeta) (ct : Text) (n : ℕ)
      → 5 ≤ n
      → take (n - 1) (chunks j m ct) ≡ chunks j m ct
  unfolding chunks
  all_chunks m ct n h = take_all (n - 1) _ _ _ _ (omega arith)

  write_backup-succeeded :
      (name : Text) (at : Attempt) (version since next_since : ℕ) (ct nonce : Text)
      (dir : Directory)
      → (write_backup j key name at version since next_since ct nonce dir).0 ≡ succeeded
      → (write_backup j key name at version since next_since ct nonce dir).1
        ≡ save_version_info at version next_since (record dir {
          files =
              insert name
                (concat (chunks j (new_meta j key at nonce since next_since) ct))
                dir.files;
        })
  unfolding write_backup
  write_backup-succeeded name at version since next_since ct nonce dir h = ground (
    arith,
    all_chunks (new_meta j key at nonce since next_since) ct
        (writes_made (length (j.encode_meta (new_meta j key at nonce since next_since))) at.writes),
  )

  -- What a run that succeeds has done: it read the version info, Badger had changes since the recorded
  -- watermark, the new file restores exactly these changes, and the next version with the new watermark
  -- is recorded if it could be saved.
  abbrev pub BackedUp :
      Text → Attempt → Directory → Directory → BadgerBackupVersionInfo → Text → ℕ → Text → Type 0
  BackedUp node_id at dir dir' info plain next_since content =
      (load_version_info at dir ≡ some info)
      × (at.backup info.since ≡ some (plain, next_since))
      × (lookup (file_name node_id at.now ((info.version + 1) % 2 ^ 64)) dir'.files ≡ some content)
      × (load_encrypted_backup j a key content ≡ some plain)
      × (dir'.latest_version ≡ (
          if at.is_saved
          then some (record {
            version = (info.version + 1) % 2 ^ 64;
            since = next_since;
            updated_at = at.created_at;
          })
          else dir.latest_version))

  -- The nonce that comes with a ciphertext is the one that was drawn.
  drawn_nonce :
      (plain ct nonce other : Text)
      → encrypt_aes_gcm a (some nonce) plain key ≡ some (ct, other)
      → other ≡ nonce
  unfolding encrypt_aes_gcm
  drawn_nonce plain ct nonce other e = ground arith

  module _ (laws : AeadLaws a) (at : Attempt) (nonce : Text) (drawn : at.nonce ≡ some nonce)
      (meta_json : (s n : ℕ)
        → j.decode_meta (j.encode_meta (new_meta j key at nonce s n))
          ≡ some (new_meta j key at nonce s n))
      (meta_size : (s n : ℕ) → length (j.encode_meta (new_meta j key at nonce s n)) ≤ max_uint32)
      (base64 : j.decode_b64 (j.encode_b64 nonce) ≡ some nonce) where
    restores :
        (plain ct : Text) (since next_since : ℕ)
        → encrypt_aes_gcm a at.nonce plain key ≡ some (ct, nonce)
        → load_encrypted_backup j a key
            (concat (chunks j (new_meta j key at nonce since next_since) ct))
          ≡ some plain
    restores plain ct since next_since e =
        load-chunks j a key (new_meta j key at nonce since next_since) ct
          (meta_size since next_since) (meta_json since next_since)
        ∙ open-new_meta j a key laws at plain ct nonce since next_since base64 e

    saved_files :
        (version since : ℕ) (dir : Directory)
        → ((save_version_info at version since dir).files ≡ dir.files)
          × ((save_version_info at version since dir).latest_version ≡ (
              if at.is_saved
              then some (record { version = version; since = since; updated_at = at.created_at })
              else dir.latest_version))
    unfolding save_version_info
    saved_files version since dir = ground arith

    execute-written :
        (node_id : Text) (dir : Directory) (info : BadgerBackupVersionInfo) (plain ct : Text)
        (next_since : ℕ)
        → load_version_info at dir ≡ some info
        → at.backup info.since ≡ some (plain, next_since)
        → encrypt_aes_gcm a at.nonce plain key ≡ some (ct, nonce)
        → (execute j a key node_id at dir).0 ≡ succeeded
        → (execute j a key node_id at dir).1
          ≡ save_version_info at ((info.version + 1) % 2 ^ 64) next_since (record dir {
            files =
                insert
                  (file_name node_id at.now ((info.version + 1) % 2 ^ 64))
                  (concat (chunks j (new_meta j key at nonce info.since next_since) ct))
                  dir.files;
          })
    unfolding execute
    execute-written node_id dir info plain ct next_since l b e h = ground (
      arith,
      write_backup-succeeded (file_name node_id at.now ((info.version + 1) % 2 ^ 64)) at
          ((info.version + 1) % 2 ^ 64) info.since next_since ct nonce dir,
    )

    backed_up :
        (node_id : Text) (dir : Directory) (info : BadgerBackupVersionInfo) (plain ct : Text)
        (next_since : ℕ)
        → load_version_info at dir ≡ some info
        → at.backup info.since ≡ some (plain, next_since)
        → encrypt_aes_gcm a at.nonce plain key ≡ some (ct, nonce)
        → (execute j a key node_id at dir).0 ≡ succeeded
        → BackedUp node_id at dir
            (execute j a key node_id at dir).1
            info
            plain
            next_since
            (concat (chunks j (new_meta j key at nonce info.since next_since) ct))
    backed_up node_id dir info plain ct next_since l b e h =
        let name = file_name node_id at.now ((info.version + 1) % 2 ^ 64) in
        let content = concat (chunks j (new_meta j key at nonce info.since next_since) ct) in
        let written : Directory = record dir { files = insert name content dir.files } in
        let r = execute-written node_id dir info plain ct next_since l b e h in
        let (fs, latest) = saved_files ((info.version + 1) % 2 ^ 64) next_since written in
        (
          l,
          b,
          ap (λ (d : Directory). lookup name d.files) r
              ∙ ap (λ f. lookup name f) fs
              ∙ lookup-insert name name content dir.files
              ∙ ap (λ (t : Bool). if t then some content else lookup name dir.files)
                  ((same_iff name name).1 refl),
          restores plain ct info.since next_since e,
          ap (λ (d : Directory). d.latest_version) r ∙ latest,
        )

    -- A run succeeds only after it has read the version info and found changes since the recorded
    -- watermark, and then the new file, under the name of the next version, restores exactly these
    -- changes, and the next version and the new watermark are recorded if they could be saved. The
    -- cipher opens what it seals, the run's metadata and nonce decode to what was encoded, and the
    -- metadata fit the length field.
    pub execute-succeeded :
        (node_id : Text) (dir : Directory)
        → (execute j a key node_id at dir).0 ≡ succeeded
        → (info : BadgerBackupVersionInfo) × (plain : Text) × (next_since : ℕ) × (content : Text)
          × BackedUp node_id at dir (execute j a key node_id at dir).1 info plain next_since content
    unfolding execute
    execute-succeeded node_id dir h = elim (Option-cases (load_version_info at dir)) [
      | inl l ↦ absurd (ground arith)
      | inr (info, l) ↦ elim (Option-cases (at.backup info.since)) [
        | inl b ↦ absurd (ground arith)
        | inr ((plain, next_since), b) ↦
            elim (Option-cases (encrypt_aes_gcm a at.nonce plain key)) [
              | inl e ↦ absurd (ground arith)
              | inr ((ct, other), e) ↦ (
                info,
                plain,
                next_since,
                concat (chunks j (new_meta j key at nonce info.since next_since) ct),
                backed_up node_id dir info plain ct next_since l b
                    (e
                      ∙ ap (λ z. some (ct, z))
                          (drawn_nonce plain ct nonce other
                            (ap (λ o. encrypt_aes_gcm a o plain key) (sym drawn) ∙ e)))
                    h,
              )
            ]
      ]
    ]
