-- ===== src/Client/Signer/Laws.antt =====
-- A node that is given a signer's public key accepts what the signer signs.
use mpc_go.Common.{
  ◌<◌, ◌≡◌, ◌==◌, [], none, some, Text, Bool, true, false, arith, ap, subst, sym, inl, inr, codes,
  length, has_prefix, same, All, Option-cases, Bool-cases,
}
use mpc_go.Encryption.{P256PublicKey, verify_p256_signature}
use mpc_go.Encryption.Keys.{
  EcdsaKey, decode_hex, encode_hex, decode_hex-encode_hex, parse_p256_private_key,
  length-encode_hex, encode_hex-has_prefix, marshal_p256_public_key, sign_with_p256,
  parse_p256_public_key_from_hex, parse_p256_public_key_from_bytes,
}
use mpc_go.Identity.Store.{
  Signatures, FileStore, InitiatorKey, Algorithm, ed25519, p256, other_algorithm,
}
use mpc_go.Identity.Loading.{
  ok, validate_ed25519_public_key, parse_ed25519_public_key_from_hex, load_ed25519_initiator_key,
  load_p256_initiator_key, load_initiator_keys,
}
use mpc_go.Identity.Loading as Identities
use mpc_go.Client.Verified.{is_accepted}
use mpc_go.Client.Signer.Origin.{ed25519_signer, p256_signer, new_local_signer-IsMade}
use mpc_go.Client.Signer.{Surroundings, made, LocalSigner, new_local_signer, sign, public_key}

-- What Ed25519, ECDSA and the DER encoding of public keys promise, for keys that were made or parsed.
pub record SignerLaws (x : Surroundings) (c : Signatures) : Type 0 where
  pub length-ed25519_public :
      (seed : Text) → length seed ≡ 32 → length (x.ed25519_public (x.key_from_seed seed)) ≡ 32
  pub ed25519_public-All : (key : Text) → All (λ b. b < 256) (x.ed25519_public key)
  pub ed25519_verify-ed25519_sign :
      (seed m : Text)
      → length seed ≡ 32
      → c.ed25519_verify
          (x.ed25519_public (x.key_from_seed seed))
          m
          (x.ed25519_sign (x.key_from_seed seed) m)
        ≡ true
  pub length-ed25519_sign : (key m : Text) → (length (x.ed25519_sign key m) == 0) ≡ false
  pub same_sha256 : (t : Text) → x.sha256 t ≡ c.sha256 t
  pub verify_asn1-sign_asn1 :
      (dat hash signature : Text) (key : EcdsaKey)
      → parse_p256_private_key x.der dat ≡ some key
      → x.sign_asn1 key.secret hash ≡ some signature
      → (c.verify_asn1 key.public_key.point hash signature ≡ true)
        × ((length signature == 0) ≡ false)
  pub parse_pkix-marshal_pkix :
      (key : P256PublicKey) (bytes : Text)
      → x.der.marshal_pkix key ≡ some bytes
      → (x.der.parse_pkix bytes ≡ some (some key))
        × All (λ b. b < 256) bytes
        × ((length bytes == 0) ≡ false)

-- What `event_initiator_algorithm` says of a node whose initiator has such a key.
abbrev pub name_of : Algorithm → Text
name_of ed25519 = codes "ed25519"
name_of p256 = codes "p256"
name_of (other_algorithm name) = name

module _ (x : Surroundings) (c : Signatures) (y : Identities.Surroundings) where
  -- The key that the node loads, and that it accepts the signer's signatures with it.
  abbrev pub Accepts : LocalSigner → Type 0
  Accepts s =
      (k : InitiatorKey) × (load_initiator_keys y ≡ ok k)
      × ((store : FileStore) (payload signature : Text)
          → store.initiator_key ≡ k
          → sign x s payload ≡ some signature
          → is_accepted c store payload signature ≡ true)

module _ (x : Surroundings) (c : Signatures) (laws : SignerLaws x c)
    (y : Identities.Surroundings) where
  ed25519_loads :
      (key : Text)
      → length key ≡ 32
      → All (λ b. b < 256) key
      → y.event_initiator_pub_key ≡ encode_hex key
      → y.event_initiator_algorithm ≡ codes "ed25519"
      → load_initiator_keys y
        ≡ ok (record { algorithm = ed25519; ed25519_key = key; p256_key = none })
  unfolding load_initiator_keys load_ed25519_initiator_key parse_ed25519_public_key_from_hex
      validate_ed25519_public_key same
  ed25519_loads key l b k a =
      let h : (length (encode_hex key) == 0) ≡ false = length-encode_hex key (ground arith) in
      let g : decode_hex (encode_hex key) ≡ some key = decode_hex-encode_hex key b in ground arith

  p256_loads :
      (key : P256PublicKey) (bytes : Text)
      → key.on_p256 ≡ true
      → y.der.parse_pkix bytes ≡ some (some key)
      → All (λ b. b < 256) bytes
      → (length bytes == 0) ≡ false
      → y.event_initiator_pub_key ≡ encode_hex bytes
      → y.event_initiator_algorithm ≡ codes "p256"
      → load_initiator_keys y
        ≡ ok (record { algorithm = p256; ed25519_key = []; p256_key = some key })
  unfolding load_initiator_keys load_p256_initiator_key parse_p256_public_key_from_hex
      parse_p256_public_key_from_bytes same
  p256_loads key bytes o d b z k a =
      let h : (length (encode_hex bytes) == 0) ≡ false = length-encode_hex bytes z in
      let g : decode_hex (encode_hex bytes) ≡ some bytes = decode_hex-encode_hex bytes b in
      let f : has_prefix (encode_hex bytes) (codes "0x") ≡ false = encode_hex-has_prefix bytes in
      ground arith

  ed25519_is_accepted :
      (store : FileStore) (key payload signature : Text)
      → store.initiator_key ≡ record { algorithm = ed25519; ed25519_key = key; p256_key = none }
      → c.ed25519_verify key payload signature ≡ true
      → (length signature == 0) ≡ false
      → is_accepted c store payload signature ≡ true
  ed25519_is_accepted store key payload signature i v z =
      let a : store.initiator_key.algorithm ≡ ed25519 = ap (λ k. k.algorithm) i in
      let k : store.initiator_key.ed25519_key ≡ key = ap (λ k. k.ed25519_key) i in ground arith

  p256_is_accepted :
      (store : FileStore) (key : P256PublicKey) (payload signature : Text)
      → store.initiator_key ≡ record { algorithm = p256; ed25519_key = []; p256_key = some key }
      → key.on_p256 ≡ true
      → c.verify_asn1 key.point (c.sha256 payload) signature ≡ true
      → (length signature == 0) ≡ false
      → is_accepted c store payload signature ≡ true
  unfolding verify_p256_signature
  p256_is_accepted store key payload signature i o v z =
      let a : store.initiator_key.algorithm ≡ p256 = ap (λ k. k.algorithm) i in
      let k : store.initiator_key.p256_key ≡ some key = ap (λ k. k.p256_key) i in ground arith

  ed25519_signer-Accepts :
      (seed hex : Text)
      → length seed ≡ 32
      → public_key x (ed25519_signer (x.key_from_seed seed)) ≡ some hex
      → y.event_initiator_pub_key ≡ hex
      → y.event_initiator_algorithm ≡ codes "ed25519"
      → Accepts x c y (ed25519_signer (x.key_from_seed seed))
  unfolding public_key sign load_initiator_keys load_ed25519_initiator_key
      parse_ed25519_public_key_from_hex validate_ed25519_public_key same
  ed25519_signer-Accepts seed hex l p k a =
      let key = x.ed25519_public (x.key_from_seed seed) in
      (
        record { algorithm = ed25519; ed25519_key = key; p256_key = none },
        ed25519_loads key (laws.length-ed25519_public seed l)
            (laws.ed25519_public-All (x.key_from_seed seed)) (ground arith) a,
        λ store payload signature i g.
            let v = laws.ed25519_verify-ed25519_sign seed payload l in
            let z = laws.length-ed25519_sign (x.key_from_seed seed) payload in
            ed25519_is_accepted store key payload signature i (ground arith) (ground arith),
      )

  p256_signer-Accepts :
      (dat hex : Text) (key : EcdsaKey)
      → parse_p256_private_key x.der dat ≡ some key
      → public_key x (p256_signer key) ≡ some hex
      → y.event_initiator_pub_key ≡ hex
      → y.event_initiator_algorithm ≡ codes "p256"
      → y.der ≡ x.der
      → Accepts x c y (p256_signer key)
  unfolding public_key sign load_initiator_keys load_p256_initiator_key marshal_p256_public_key
      sign_with_p256 parse_p256_public_key_from_hex parse_p256_public_key_from_bytes same
  p256_signer-Accepts dat hex key e p k a d = elim (Bool-cases key.public_key.on_p256) [
    | inr o ↦ absurd (ground arith)
    | inl o ↦ elim (Option-cases (x.der.marshal_pkix key.public_key)) [
      | inl m ↦ absurd (ground arith)
      | inr (bytes, m) ↦
          let (q, b, z) = laws.parse_pkix-marshal_pkix key.public_key bytes m in
          (
            record { algorithm = p256; ed25519_key = []; p256_key = some key.public_key },
            p256_loads key.public_key bytes o (ground arith) b z (ground arith) a,
            λ store payload signature i g.
                let (v, w) = laws.verify_asn1-sign_asn1 dat (x.sha256 payload) signature key e g in
                let t = laws.same_sha256 payload in
                p256_is_accepted store key.public_key payload signature i o (ground arith) w,
          )
    ]
  ]

-- What a local signer signs is accepted by every node whose configuration names the signer's kind of key
-- and its public key as `PublicKey` prints it: the node loads an initiator key, and a store with that key
-- accepts every signature that the signer makes.
pub load_initiator_keys-new_local_signer :
    (x : Surroundings) (c : Signatures) (y : Identities.Surroundings) (a : Algorithm) (path : Text)
    (encrypted : Bool) (password hex : Text) (s : LocalSigner)
    → SignerLaws x c
    → new_local_signer x a path encrypted password ≡ made s
    → public_key x s ≡ some hex
    → y.event_initiator_pub_key ≡ hex
    → y.event_initiator_algorithm ≡ name_of a
    → y.der ≡ x.der
    → Accepts x c y s
load_initiator_keys-new_local_signer x c y ed25519 path encrypted password hex s laws h p k n d =
    let (seed, l, e) = new_local_signer-IsMade x ed25519 path encrypted password s h in
    subst (Accepts x c y) (sym e) (
      ed25519_signer-Accepts x c laws y seed hex l (subst (λ t. public_key x t ≡ some hex) e p) k n)
load_initiator_keys-new_local_signer x c y p256 path encrypted password hex s laws h p k n d =
    let (dat, (key, g, e)) = new_local_signer-IsMade x p256 path encrypted password s h in
    subst (Accepts x c y) (sym e) (
      p256_signer-Accepts x c laws y dat hex key g (subst (λ t. public_key x t ≡ some hex) e p) k n
        d)
load_initiator_keys-new_local_signer x c y (other_algorithm a) path encrypted password hex s laws h
      p k n d =
    absurd (new_local_signer-IsMade x (other_algorithm a) path encrypted password s h)
