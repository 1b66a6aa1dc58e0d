-- ===== src/KeyExchange/Agreement.antt =====
-- Two nodes that hear of each other have the same symmetric key, and only a signed message changes one.
use mpc_go.Common.{
  ◌≡◌, ◌≢◌, ◌⊎◌, ◌∷◌, ◌∙◌, [], some, Text, true, false, arith, refl, ap, sym, inl, inr, Bool-cases,
  Option-cases, ℤ, same, same_iff, lookup, lookup-insert,
}
use mpc_go.Messages.{EcdhMessage, ecdh_signing_data}
use mpc_go.Identity.{SymmetricKeys, get_symmetric_key, set_symmetric_key}
use mpc_go.Identity.Store.{
  Signatures, FileStore, Result, good, bad, panicked, get_public_key, sign_ecdh_message,
  verify_signature,
}
use mpc_go.KeyExchange.{
  Exchange, EcdhSession, less, derive_consistent_info, derive_symmetric_key, Taken, taken, crashed,
  store_key, take_public_key, when_verified, on_exchange, unsigned_message, broadcast_public_key,
}

less_asym : (s t : Text) → less s t ≡ true → less t s ≡ false
unfolding less
less_asym [] [] h = refl
less_asym [] (_ ∷ _) h = refl
less_asym (_ ∷ _) [] h = ground arith
less_asym (a ∷ s) (b ∷ t) h = ground (arith, less_asym s t)

less_total : (s t : Text) → less s t ≡ false → less t s ≡ false → s ≡ t
unfolding less
less_total [] [] h k = refl
less_total [] (_ ∷ _) h k = ground arith
less_total (_ ∷ _) [] h k = ground arith
less_total (a ∷ s) (b ∷ t) h k = ground (arith, less_total s t)

-- Both nodes derive from the same bytes.
info_comm : (a b : Text) → derive_consistent_info a b ≡ derive_consistent_info b a
unfolding derive_consistent_info
info_comm a b = ground (arith, less_asym a b, less_asym b a, less_total a b)

-- The symmetric keys that the callback leaves.
abbrev pub keys_after : Taken → SymmetricKeys → SymmetricKeys
keys_after (taken s _) keys = s.symmetric_keys
keys_after crashed keys = keys

-- The callback derives a key for the sender, and otherwise changes none.
data Derived (x : Exchange) (e : EcdhSession) (s : FileStore) (m : EcdhMessage) : Type 0 where
  kept : keys_after (take_public_key x e s m) s.symmetric_keys ≡ s.symmetric_keys → Derived x e s m
  derived :
      (key : Text)
      → keys_after (take_public_key x e s m) s.symmetric_keys
        ≡ set_symmetric_key s.symmetric_keys m.from key
      → Derived x e s m

take_public_key-Derived :
    (x : Exchange) (e : EcdhSession) (s : FileStore) (m : EcdhMessage) → Derived x e s m
unfolding take_public_key store_key
take_public_key-Derived x e s m = elim (Option-cases (x.new_public_key m.public_key)) [
  | inl h ↦ kept (ground arith)
  | inr (p, h) ↦ elim (Option-cases e.private_key) [
    | inl k ↦ kept (ground arith)
    | inr (q, k) ↦ elim (Option-cases (x.ecdh q p)) [
      | inl l ↦ kept (ground arith)
      | inr (z, l) ↦ derived (derive_symmetric_key x e z m.from).0 (ground arith)
    ]
  ]
]

when_verified-lookup :
    (x : Exchange) (e : EcdhSession) (s : FileStore) (m : EcdhMessage) (v : Result (Unit {0}))
    (peer : Text)
    → (get_symmetric_key (keys_after (when_verified x e s m v) s.symmetric_keys) peer
        ≡ get_symmetric_key s.symmetric_keys peer)
      ⊎ ((v ≡ good tt) × (m.from ≡ peer))
unfolding when_verified get_symmetric_key set_symmetric_key
when_verified-lookup x e s m (bad error) peer = inl refl
when_verified-lookup x e s m panicked peer = inl refl
when_verified-lookup x e s m (good tt) peer = elim (Bool-cases (same m.from peer)) [
  | inl h ↦ inr (refl, (same_iff m.from peer).0 h)
  | inr h ↦ inl (elim (take_public_key-Derived x e s m) [
    | kept k ↦ ap (λ (keys : SymmetricKeys). lookup peer keys) k
    | derived key k ↦
        ap (λ (keys : SymmetricKeys). lookup peer keys) k
        ∙ lookup-insert m.from peer key s.symmetric_keys
        ∙ rw h refl
  ])
]

-- What reaches the callback changes the symmetric key of a peer only if it decodes to a message of that
-- peer, another node, whose signature verifies.
pub on_exchange-lookup :
    (x : Exchange) (c : Signatures) (e : EcdhSession) (s : FileStore) (dat peer : Text)
    → (get_symmetric_key (keys_after (on_exchange x c e s dat) s.symmetric_keys) peer
        ≡ get_symmetric_key s.symmetric_keys peer)
      ⊎ ((m : EcdhMessage) × (x.unmarshal dat ≡ some m)
          × (m.from ≡ peer)
          × (peer ≢ e.node_id)
          × (verify_signature x.encode_signed c s m ≡ good tt))
unfolding on_exchange
on_exchange-lookup x c e s dat peer = elim (Option-cases (x.unmarshal dat)) [
  | inl h ↦ inl (ground arith)
  | inr (m, h) ↦ elim (Bool-cases (same m.from e.node_id)) [
    | inl k ↦ inl (ground arith)
    | inr k ↦ elim (when_verified-lookup x e s m (verify_signature x.encode_signed c s m) peer) [
      | inl l ↦ inl (ground (arith, l))
      | inr (v, f) ↦ inr (m, h, f, ground (arith, same_iff m.from e.node_id), v)
    ]
  ]
]

-- The message of a node whose private key is this, as it is signed.
abbrev pub signed_message :
    Exchange → Signatures → EcdhSession → FileStore → Text → ℤ → Text → EcdhMessage
signed_message x c e s private_key now bytes =
    record (unsigned_message e (x.public_key private_key) now) {
      signature = some (c.ed25519_sign s.private_key bytes);
    }

broadcast_made :
    (x : Exchange) (c : Signatures) (e : EcdhSession) (s : FileStore) (now : ℤ)
    (private_key bytes : Text)
    → e.private_key ≡ some private_key
    → x.encode_signed (e.node_id, x.public_key private_key, now) ≡ some bytes
    → broadcast_public_key x c e s now
      ≡ good (x.marshal (signed_message x c e s private_key now bytes))
unfolding broadcast_public_key sign_ecdh_message ecdh_signing_data
broadcast_made x c e s now private_key bytes h k = ground arith

-- A node hears a signed message of another.
heard :
    (x : Exchange) (c : Signatures) (from to : EcdhSession) (sender receiver : FileStore) (now : ℤ)
    (from_key to_key bytes verify_key secret key : Text)
    → to.private_key ≡ some to_key
    → from.node_id ≢ to.node_id
    → x.encode_signed (from.node_id, x.public_key from_key, now) ≡ some bytes
    → lookup from.node_id receiver.public_keys ≡ some verify_key
    → c.ed25519_verify verify_key bytes (c.ed25519_sign sender.private_key bytes) ≡ true
    → x.unmarshal (x.marshal (signed_message x c from sender from_key now bytes))
      ≡ some (signed_message x c from sender from_key now bytes)
    → x.new_public_key (x.public_key from_key) ≡ some (x.public_key from_key)
    → x.ecdh to_key (x.public_key from_key) ≡ some secret
    → x.hkdf secret (derive_consistent_info to.node_id from.node_id) ≡ some key
    → on_exchange x c to receiver (x.marshal (signed_message x c from sender from_key now bytes))
      ≡ taken
          (record receiver {
            symmetric_keys = set_symmetric_key receiver.symmetric_keys from.node_id key;
          })
          []
unfolding on_exchange when_verified take_public_key verify_signature get_public_key
    ecdh_signing_data derive_symmetric_key store_key
heard x c from to sender receiver now from_key to_key bytes verify_key secret key p d e k v u n q
      h =
    ground (arith, same_iff from.node_id to.node_id)

-- What makes a node's message readable for another: its fields encode, the other has the public key
-- that belongs to the signing key, JSON gives the message back, and the public key is well-formed.
abbrev pub IsReadable :
    Exchange → Signatures → EcdhSession → FileStore → FileStore → ℤ → Text → Type 0
IsReadable x c from sender receiver now from_key =
    (bytes : Text) × (x.encode_signed (from.node_id, x.public_key from_key, now) ≡ some bytes)
    × ((verify_key : Text) × (lookup from.node_id receiver.public_keys ≡ some verify_key)
        × (c.ed25519_verify verify_key bytes (c.ed25519_sign sender.private_key bytes) ≡ true))
    × (x.unmarshal (x.marshal (signed_message x c from sender from_key now bytes))
        ≡ some (signed_message x c from sender from_key now bytes))
    × (x.new_public_key (x.public_key from_key) ≡ some (x.public_key from_key))

hears_broadcast :
    (x : Exchange) (c : Signatures) (from to : EcdhSession) (sender receiver : FileStore) (now : ℤ)
    (from_key to_key secret key dat : Text)
    → from.private_key ≡ some from_key
    → to.private_key ≡ some to_key
    → from.node_id ≢ to.node_id
    → IsReadable x c from sender receiver now from_key
    → x.ecdh to_key (x.public_key from_key) ≡ some secret
    → x.hkdf secret (derive_consistent_info to.node_id from.node_id) ≡ some key
    → broadcast_public_key x c from sender now ≡ good dat
    → get_symmetric_key
        (keys_after (on_exchange x c to receiver dat) receiver.symmetric_keys)
        from.node_id
      ≡ some key
unfolding get_symmetric_key set_symmetric_key
hears_broadcast x c from to sender receiver now from_key to_key secret key dat p q d readable e h
      b =
    let (bytes, k, (verify_key, l, v), u, n) = readable in
    let sent : dat ≡ x.marshal (signed_message x c from sender from_key now bytes) =
      ground (arith, broadcast_made x c from sender now from_key bytes p k) in
    ap
      (λ z.
        lookup from.node_id (keys_after (on_exchange x c to receiver z) receiver.symmetric_keys))
      sent
    ∙ ap (λ z. lookup from.node_id (keys_after z receiver.symmetric_keys))
        (heard x c from to sender receiver now from_key to_key bytes verify_key secret key q d k l v
          u n e h)
    ∙ lookup-insert from.node_id from.node_id key receiver.symmetric_keys
    ∙ ground (arith, same_iff from.node_id from.node_id)

-- Two nodes with different names, each of which can read what the other broadcasts, have the same
-- symmetric key for each other once each has heard the other, where the shared secret of X25519 is the
-- same from both sides and HKDF derives a key from it.
pub on_exchange-agreement :
    (x : Exchange) (c : Signatures) (a b : EcdhSession) (store_a store_b : FileStore)
    (now_a now_b : ℤ) (key_a key_b secret key dat_a dat_b : Text)
    → a.private_key ≡ some key_a
    → b.private_key ≡ some key_b
    → a.node_id ≢ b.node_id
    → IsReadable x c a store_a store_b now_a key_a
    → IsReadable x c b store_b store_a now_b key_b
    → x.ecdh key_a (x.public_key key_b) ≡ some secret
    → x.ecdh key_b (x.public_key key_a) ≡ some secret
    → x.hkdf secret (derive_consistent_info a.node_id b.node_id) ≡ some key
    → broadcast_public_key x c a store_a now_a ≡ good dat_a
    → broadcast_public_key x c b store_b now_b ≡ good dat_b
    → (get_symmetric_key
          (keys_after (on_exchange x c a store_a dat_b) store_a.symmetric_keys)
          b.node_id
        ≡ some key)
      × (get_symmetric_key
            (keys_after (on_exchange x c b store_b dat_a) store_b.symmetric_keys)
            a.node_id
          ≡ some key)
on_exchange-agreement x c a b store_a store_b now_a now_b key_a key_b secret key dat_a dat_b p q d
      ra rb e f h sa sb =
    (
      hears_broadcast x c b a store_b store_a now_b key_b key_a secret key dat_b q p
          (λ z. d (sym z)) rb e h sb,
      hears_broadcast x c a b store_a store_b now_a key_a key_b secret key dat_a p q d ra f
          (ap (x.hkdf secret) (info_comm b.node_id a.node_id) ∙ h) sa,
    )
