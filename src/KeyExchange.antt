-- ===== src/KeyExchange.antt =====
-- The key exchange between two nodes (pkg/mpc/key_exchange_session.go): each broadcasts a signed public
-- key and derives a symmetric key from what the other broadcasts.
pub mod Agreement
use mpc_go.Common.{
  ◌∷◌, ◌++◌, [], List, Option, none, some, Text, Bool, true, false, ltb, ◌==◌, ◌||◌, ◌&&◌, ℤ, same,
  if◌then◌else◌,
}
use mpc_go.Messages.{EcdhMessage}
use mpc_go.Identity.{set_symmetric_key, remove_symmetric_key, get_symmetric_key_count}
use mpc_go.Identity.Store.{
  Signatures, FileStore, IdentityError, Result, good, bad, panicked, sign_ecdh_message,
  verify_signature,
}

-- Go's crypto/ecdh on X25519, HKDF with SHA-256 and no salt, which reads 32 bytes, and JSON: of the map
-- that is signed, and of the message.
pub record Exchange : Type 0 where
  pub public_key : Text → Text  -- of a private key
  pub new_public_key : Text → Option Text
  pub ecdh : Text → Text → Option Text  -- private key, public key
  pub hkdf : Text → Text → Option Text  -- secret, info
  pub encode_signed : Text × Text × ℤ → Option Text
  pub marshal : EcdhMessage → Text
  pub unmarshal : Text → Option EcdhMessage

-- The fields of `ecdhSession` that the methods read; `none` is that no key pair was generated yet.
pub record EcdhSession : Type 0 where
  pub node_id : Text
  pub peer_ids : List Text
  pub private_key : Option Text

unfoldable pub new_ecdh_session : Text → List Text → EcdhSession
new_ecdh_session node_id peer_ids = record {
  node_id = node_id;
  peer_ids = peer_ids;
  private_key = none;
}

pub data ExchangeError : Type 0 where
  not_verified : IdentityError → ExchangeError
  bad_public_key no_shared_secret no_symmetric_key : ExchangeError

-- Go's `<` on strings.
unfoldable pub less : Text → Text → Bool
less [] [] = false
less [] (_ ∷ _) = true
less (_ ∷ _) [] = false
less (a ∷ s) (b ∷ t) = ltb a b || ((a == b) && less s t)

unfoldable pub derive_consistent_info : Text → Text → Text
derive_consistent_info a b = if less a b then a ++ b else b ++ a

-- The key, and what is sent on `errCh`; after an error the key is nil.
unfoldable pub derive_symmetric_key :
    Exchange → EcdhSession → Text → Text → Text × List ExchangeError
derive_symmetric_key x e shared_secret peer_id =
    elim (x.hkdf shared_secret (derive_consistent_info e.node_id peer_id)) [
      | none ↦ ([], no_symmetric_key ∷ [])
      | some key ↦ (key, [])
    ]

-- What the callback leaves: the store and the errors that it reports. `crashed` follows a nil pointer.
pub data Taken : Type 0 where
  taken : FileStore → List ExchangeError → Taken
  crashed : Taken

unfoldable pub store_key : FileStore → Text → Text × List ExchangeError → Taken
store_key s from (key, errors) =
    taken (record s { symmetric_keys = set_symmetric_key s.symmetric_keys from key }) errors

-- The callback from the checked signature on.
unfoldable pub take_public_key : Exchange → EcdhSession → FileStore → EcdhMessage → Taken
take_public_key x e s m = elim (x.new_public_key m.public_key) [
  | none ↦ taken s (bad_public_key ∷ [])
  | some peer_public_key ↦ elim e.private_key [
    | none ↦ crashed
    | some private_key ↦ elim (x.ecdh private_key peer_public_key) [
      | none ↦ taken s (no_shared_secret ∷ [])
      | some shared_secret ↦ store_key s m.from (derive_symmetric_key x e shared_secret m.from)
    ]
  ]
]

unfoldable pub when_verified :
    Exchange → EcdhSession → FileStore → EcdhMessage → Result (Unit {0}) → Taken
when_verified x e s m (good _) = take_public_key x e s m
when_verified x e s m (bad error) = taken s (not_verified error ∷ [])
when_verified x e s m panicked = crashed

-- The callback of `ListenKeyExchange`.
unfoldable pub on_exchange : Exchange → Signatures → EcdhSession → FileStore → Text → Taken
on_exchange x c e s dat = elim (x.unmarshal dat) [
  | none ↦ taken s []
  | some m ↦
      if same m.from e.node_id
      then taken s []
      else when_verified x e s m (verify_signature x.encode_signed c s m)
]

-- `ListenKeyExchange` before it subscribes: the generated private key, `none` if that fails.
unfoldable pub listen_key_exchange : Option Text → EcdhSession → Option EcdhSession
listen_key_exchange none e = none
listen_key_exchange (some private_key) e = some (record e { private_key = some private_key })

abbrev pub unsigned_message : EcdhSession → Text → ℤ → EcdhMessage
unsigned_message e public_key now = record {
  from = e.node_id;
  public_key = public_key;
  timestamp = now;
  signature = none;
}

-- The bytes that are published; the clock's reading is an argument.
unfoldable pub broadcast_public_key :
    Exchange → Signatures → EcdhSession → FileStore → ℤ → Result Text
broadcast_public_key x c e s now = elim e.private_key [
  | none ↦ panicked
  | some private_key ↦
      elim (sign_ecdh_message x.encode_signed c s
        (unsigned_message e (x.public_key private_key) now)) [
          | good signature ↦ good (
              x.marshal (record (unsigned_message e (x.public_key private_key) now) {
                signature = some signature;
              }))
          | bad error ↦ bad error
          | panicked ↦ panicked
        ]
]

unfoldable pub remove_peer : FileStore → Text → FileStore
remove_peer s peer_id = record s { symmetric_keys = remove_symmetric_key s.symmetric_keys peer_id }
