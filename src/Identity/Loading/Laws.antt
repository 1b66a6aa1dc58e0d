-- ===== src/Identity/Loading/Laws.antt =====
-- What an identity store that loads contains.
use mpc_go.Common.{
  Option-cases, Bool-cases, same, codes, ◌≡◌, ◌⊎◌, ◌∷◌, [], List, none, some, Text, Bool, true,
  false, arith, refl, inl, inr, length, lookup, insert, lookup-insert, same_iff, All,
}
use mpc_go.Encryption.{P256PublicKey}
use mpc_go.Encryption.Keys.{
  parse_p256_public_key_from_hex, parse_p256_public_key_from_base64,
  parse_p256_public_key_from_bytes, decode_hex, trim_0x,
}
use mpc_go.Identity.Store.{ed25519, p256, InitiatorKey, FileStore}
use mpc_go.Identity.Loading.{
  Loaded, ok, err, validate_ed25519_public_key, parse_ed25519_public_key_from_hex, Surroundings,
  algorithm_name, load_ed25519_initiator_key, load_p256_initiator_key, load_initiator_keys,
  load_private_key, load_public_key, load_public_keys, load_peers, new_file_store,
}

abbrev pub has_key : List (Text × Text) → Text → Bool
has_key keys node_id = elim (lookup node_id keys) [ none ↦ false | some _ ↦ true ]

>>=-cases {ℓ} : {A : Type ℓ} (o : Loaded A) → ((a : A) × (o ≡ ok a)) ⊎ ((e : _) × (o ≡ err e))
>>=-cases (ok a) = inl (a, refl)
>>=-cases (err e) = inr (e, refl)

module _ (x : Surroundings) where
  -- A key that is there is not lost.
  load_public_keys-kept :
      (dir : Text) (peers keys loaded : List (Text × Text)) (id : Text)
      → load_public_keys x dir peers keys ≡ ok loaded
      → has_key keys id ≡ true
      → has_key loaded id ≡ true
  unfolding load_public_keys
  load_public_keys-kept dir [] keys loaded id h k = ground arith
  load_public_keys-kept dir ((name, node) ∷ peers) keys loaded id h k =
      elim (>>=-cases (load_public_key x dir name node)) [
        | inl (key, e) ↦
            load_public_keys-kept dir peers (insert node key keys) loaded id (ground arith)
              (ground (arith, lookup-insert node id key keys))
        | inr (z, e) ↦ absurd (ground arith)
      ]

  load_public_keys-All :
      (dir : Text) (peers keys loaded : List (Text × Text))
      → load_public_keys x dir peers keys ≡ ok loaded
      → All (λ p. has_key loaded p.1 ≡ true) peers
  unfolding load_public_keys
  load_public_keys-All dir [] keys loaded h = tt
  load_public_keys-All dir ((name, node) ∷ peers) keys loaded h =
      elim (>>=-cases (load_public_key x dir name node)) [
        | inl (key, e) ↦
            let rest : load_public_keys x dir peers (insert node key keys) ≡ ok loaded =
              ground arith in
            (
              load_public_keys-kept dir peers (insert node key keys) loaded node rest
                  (ground (arith, lookup-insert node node key keys, same_iff node node)),
              load_public_keys-All dir peers (insert node key keys) loaded rest,
            )
        | inr (z, e) ↦ absurd (ground arith)
      ]

  -- The initiator's key fits its algorithm.
  abbrev pub IsUsable : InitiatorKey → Type 0
  IsUsable k =
      ((k.algorithm ≡ ed25519) × (length k.ed25519_key ≡ 32))
      ⊎ ((k.algorithm ≡ p256)
          × ((key : P256PublicKey) × (k.p256_key ≡ some key) × (key.on_p256 ≡ true)))

  ed25519_length : (key : Text) → load_ed25519_initiator_key x ≡ ok key → length key ≡ 32
  unfolding load_ed25519_initiator_key parse_ed25519_public_key_from_hex validate_ed25519_public_key
  ed25519_length key h = ground arith

  bytes_curve :
      (bytes : Text) (key : P256PublicKey)
      → parse_p256_public_key_from_bytes x.der bytes ≡ some key
      → key.on_p256 ≡ true
  unfolding parse_p256_public_key_from_bytes
  bytes_curve bytes key h = ground arith

  hex_curve :
      (s : Text) (key : P256PublicKey)
      → parse_p256_public_key_from_hex x.der s ≡ some key
      → key.on_p256 ≡ true
  unfolding parse_p256_public_key_from_hex
  hex_curve s key h = elim (Option-cases (decode_hex (trim_0x s))) [
    | inl e ↦ absurd (ground arith)
    | inr (bytes, e) ↦ bytes_curve bytes key (ground arith)
  ]

  base64_curve :
      (s : Text) (key : P256PublicKey)
      → parse_p256_public_key_from_base64 x.der s ≡ some key
      → key.on_p256 ≡ true
  unfolding parse_p256_public_key_from_base64
  base64_curve s key h = elim (Option-cases (x.der.decode_base64 s)) [
    | inl e ↦ absurd (ground arith)
    | inr (bytes, e) ↦ bytes_curve bytes key (ground arith)
  ]

  p256_curve : (key : P256PublicKey) → load_p256_initiator_key x ≡ ok key → key.on_p256 ≡ true
  unfolding load_p256_initiator_key
  p256_curve key h =
      ground
        (arith, hex_curve x.event_initiator_pub_key key, base64_curve x.event_initiator_pub_key key)

  load_initiator_keys-IsUsable : (k : InitiatorKey) → load_initiator_keys x ≡ ok k → IsUsable k
  unfolding load_initiator_keys
  load_initiator_keys-IsUsable k h = elim (Bool-cases (same (algorithm_name x) (codes "ed25519"))) [
    | inl a ↦ elim (>>=-cases (load_ed25519_initiator_key x)) [
      | inl (key, e) ↦ inl (ground arith, ground (arith, ed25519_length key e))
      | inr (z, e) ↦ absurd (ground arith)
    ]
    | inr a ↦ elim (>>=-cases (load_p256_initiator_key x)) [
      | inl (key, e) ↦ inr (ground arith, (key, ground arith, p256_curve key e))
      | inr (z, e) ↦ absurd (ground arith)
    ]
  ]

  store_parts :
      (dir name password_file : Text) (decrypt : Bool) (s : FileStore)
      → new_file_store x dir name decrypt password_file ≡ ok s
      → ((peers : List (Text × Text)) × (load_peers x ≡ ok peers)
          × (load_public_keys x dir peers [] ≡ ok s.public_keys))
        × (load_initiator_keys x ≡ ok s.initiator_key)
        × (s.symmetric_keys ≡ [])
  unfolding new_file_store
  store_parts dir name password_file decrypt s h =
      elim (>>=-cases (load_private_key x dir name decrypt password_file)) [
        | inr (z, e) ↦ absurd (ground arith)
        | inl (private_key_hex, e) ↦ elim (>>=-cases (load_initiator_keys x)) [
          | inr (z, f) ↦ absurd (ground arith)
          | inl (initiator_key, f) ↦ elim (>>=-cases (load_peers x)) [
            | inr (z, g) ↦ absurd (ground arith)
            | inl (peers, g) ↦ elim (>>=-cases (load_public_keys x dir peers [])) [
              | inr (z, k) ↦ absurd (ground arith)
              | inl (keys, k) ↦ ((peers, g, ground arith), ground arith, ground arith)
            ]
          ]
        ]
      ]

  -- A store that loads has a public key for every node of peers.json and no symmetric key yet, and its
  -- initiator key is an Ed25519 key of 32 bytes or an ECDSA key on P-256, as its algorithm says.
  pub new_file_store-keys :
      (dir name password_file : Text) (decrypt : Bool) (s : FileStore)
      → new_file_store x dir name decrypt password_file ≡ ok s
      → ((peers : List (Text × Text)) × (load_peers x ≡ ok peers)
          × All (λ p. has_key s.public_keys p.1 ≡ true) peers)
        × IsUsable s.initiator_key
        × (s.symmetric_keys ≡ [])
  new_file_store-keys dir name password_file decrypt s h =
      let ((peers, g, k), f, e) = store_parts dir name password_file decrypt s h in
      (
        (peers, g, load_public_keys-All dir peers [] s.public_keys k),
        load_initiator_keys-IsUsable s.initiator_key f,
        e,
      )
