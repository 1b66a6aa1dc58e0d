-- ===== src/Client/Signer/Origin.antt =====
-- What `NewLocalSigner` (pkg/client/signer/local.go) makes.
use mpc_go.Common.{
  ◌≡◌, ◌==◌, none, some, Text, Bool, arith, inl, inr, length, trim_space, Option-cases, Bool-cases,
  ==_iff,
}
use mpc_go.Encryption.Keys.{EcdsaKey, decode_hex, parse_p256_private_key}
use mpc_go.Identity.Store.{Algorithm, ed25519, p256, other_algorithm}
use mpc_go.Client.Signer.{
  Surroundings, Made, made, refused, crashed, ◌>>=◌, LocalSigner, load_ed25519_key, load_p256_key,
  load_key, new_local_signer,
}

abbrev pub ed25519_signer : Text → LocalSigner
ed25519_signer key = record { key_type = ed25519; ed25519_key = some key; p256_key = none }

abbrev pub p256_signer : EcdsaKey → LocalSigner
p256_signer key = record { key_type = p256; ed25519_key = none; p256_key = some key }

>>=-made :
    (o : Made Text) (f : Text → Made LocalSigner) (s : LocalSigner)
    → o >>= f ≡ made s
    → (dat : Text) × (f dat ≡ made s)
>>=-made (made dat) f s h = (dat, h)
>>=-made (refused e) f s h = ground arith
>>=-made crashed f s h = ground arith

module _ (x : Surroundings) where
  -- A signer has a key that was made from a seed or read from a file.
  abbrev pub IsMade : Algorithm → LocalSigner → Type 0
  IsMade ed25519 s =
      (seed : Text) × (length seed ≡ 32) × (s ≡ ed25519_signer (x.key_from_seed seed))
  IsMade p256 s =
      (dat : Text) × ((key : EcdsaKey) × (parse_p256_private_key x.der dat ≡ some key)
        × (s ≡ p256_signer key))
  IsMade (other_algorithm _) s = ⊥

  load_key-IsMade :
      (a : Algorithm) (dat : Text) (s : LocalSigner) → load_key x a dat ≡ made s → IsMade a s
  unfolding load_ed25519_key load_p256_key
  load_key-IsMade ed25519 dat s h = elim (Option-cases (decode_hex (trim_space dat))) [
    | inl e ↦ absurd (ground arith)
    | inr (seed, e) ↦ elim (Bool-cases (length seed == 32)) [
      | inl l ↦ (seed, ground (arith, ==_iff (length seed) 32), ground arith)
      | inr l ↦ absurd (ground arith)
    ]
  ]
  load_key-IsMade p256 dat s h = elim (Option-cases (parse_p256_private_key x.der dat)) [
    | inl e ↦ absurd (ground arith)
    | inr (key, e) ↦ (dat, (key, e, ground arith))
  ]
  load_key-IsMade (other_algorithm _) dat s h = ground arith

  pub new_local_signer-IsMade :
      (a : Algorithm) (path : Text) (encrypted : Bool) (password : Text) (s : LocalSigner)
      → new_local_signer x a path encrypted password ≡ made s
      → IsMade a s
  unfolding new_local_signer
  new_local_signer-IsMade a path encrypted password s h =
      let (dat, e) = >>=-made _ (load_key x a) s h in load_key-IsMade a dat s e
