-- ===== src/Tests/Exchanges.antt =====
-- Two nodes that exchange keys, with functions that are easy to follow.
use mpc_go.Common.{
  ◌≡◌, ◌≢◌, ◌⊎◌, ◌∷◌, ◌++◌, [], some, refl, codes, arith, pos, same, lookup, if◌then◌else◌,
}
use mpc_go.Messages.{EcdhMessage}
use mpc_go.Identity.{get_symmetric_key}
use mpc_go.Identity.Store.{good, sign_ecdh_message, verify_signature}
use mpc_go.KeyExchange.{
  Exchange, EcdhSession, derive_consistent_info, less, on_exchange, broadcast_public_key,
}
use mpc_go.KeyExchange.Agreement.{IsReadable, keys_after, on_exchange-lookup, on_exchange-agreement}
use mpc_go.Tests.Peers.{signatures, store_a, store_b}

abbrev exchange_a : EcdhSession
exchange_a = record {
  node_id = codes "a";
  peer_ids = codes "b" ∷ [];
  private_key = some (codes "x");
}

abbrev exchange_b : EcdhSession
exchange_b = record {
  node_id = codes "b";
  peer_ids = codes "a" ∷ [];
  private_key = some (codes "y");
}

-- What the signature of node "a" and that of node "b" are on what is encoded.
abbrev from_a : EcdhMessage
from_a = record {
  from = codes "a";
  public_key = codes "x";
  timestamp = pos 1;
  signature = some (codes "pax");
}

abbrev from_b : EcdhMessage
from_b = record {
  from = codes "b";
  public_key = codes "y";
  timestamp = pos 2;
  signature = some (codes "qby");
}

-- The secret of two keys joins them in their order; the sender's name stands for the message.
abbrev exchange : Exchange
exchange = record {
  public_key = λ k. k;
  new_public_key = some;
  ecdh = λ k l. some (derive_consistent_info k l);
  hkdf = λ secret info. some (secret ++ info);
  encode_signed = λ fields. some (fields.0 ++ fields.1);
  marshal = λ m. m.from;
  unmarshal = λ dat. if same dat (codes "a") then some from_a else some from_b;
}

IsReadable-a : IsReadable exchange signatures exchange_a store_a store_b (pos 1) (codes "x")
unfolding lookup same
IsReadable-a = (codes "ax", refl, (codes "p", refl, refl), refl, refl)

IsReadable-b : IsReadable exchange signatures exchange_b store_b store_a (pos 2) (codes "y")
unfolding lookup same
IsReadable-b = (codes "by", refl, (codes "q", refl, refl), refl, refl)

on_exchange-agreement_example :
    (get_symmetric_key
        (keys_after
          (on_exchange exchange signatures exchange_a store_a (codes "b"))
          store_a.symmetric_keys)
        (codes "b")
      ≡ some (codes "xyab"))
    × (get_symmetric_key
          (keys_after
            (on_exchange exchange signatures exchange_b store_b (codes "a"))
            store_b.symmetric_keys)
          (codes "a")
        ≡ some (codes "xyab"))
unfolding derive_consistent_info less broadcast_public_key sign_ecdh_message
on_exchange-agreement_example =
    on_exchange-agreement exchange signatures exchange_a exchange_b store_a store_b (pos 1) (pos 2)
      (codes "x") (codes "y") (codes "xy") (codes "xyab") (codes "a") (codes "b") refl refl
      (ground arith) IsReadable-a IsReadable-b refl refl refl refl refl

on_exchange-lookup_example :
    (get_symmetric_key
        (keys_after
          (on_exchange exchange signatures exchange_a store_a (codes "b"))
          store_a.symmetric_keys)
        (codes "b")
      ≡ get_symmetric_key store_a.symmetric_keys (codes "b"))
    ⊎ ((m : EcdhMessage) × (exchange.unmarshal (codes "b") ≡ some m)
        × (m.from ≡ codes "b")
        × (codes "b" ≢ codes "a")
        × (verify_signature exchange.encode_signed signatures store_a m ≡ good tt))
on_exchange-lookup_example =
    on_exchange-lookup exchange signatures exchange_a store_a (codes "b") (codes "b")
