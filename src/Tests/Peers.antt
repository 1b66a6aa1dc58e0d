-- ===== src/Tests/Peers.antt =====
-- Two nodes with a cipher, a signature and an encoding that are easy to follow.
use mpc_go.Common.{
  ◌≡◌, ◌∷◌, ◌++◌, [], Option, none, some, true, false, Text, Bool, refl, codes, same, same_iff,
  length, drop, drop-append, ap, lookup, cut, bytes, digits, trim_space, trim_left, trim_right,
}
use mpc_go.Party.{PartyId, party_id_to_node_id, compare_party_ids}
use mpc_go.Topic.{ecdsa, keygen, compose_direct_topic}
use mpc_go.Encryption.{Aead, AeadLaws, encrypt_aes_gcm_with_nonce_embed}
use mpc_go.Messages.{TssMessage, TssJson, new_tss_message}
use mpc_go.Identity.{get_symmetric_key}
use mpc_go.Identity.Store.{Signatures, FileStore, ed25519, good, encrypt_message}
use mpc_go.PartySession.{PartySession, Network, RoundInfo, self_id}

-- The parties of the nodes "a" and "b".
abbrev pub party_a : PartyId
party_a = record { id = codes "u"; moniker = []; key = b'a' }

abbrev pub party_b : PartyId
party_b = record { id = codes "v"; moniker = []; key = b'b' }

abbrev pub cipher : Aead
cipher = record {
  is_key = λ _. true;
  nonce_size = 1;
  seal = λ key nonce plain. key ++ plain;
  open_sealed = λ key nonce sealed. some (drop (length key) sealed);
}

abbrev pub signatures : Signatures
signatures = record {
  ed25519_sign = λ key t. key ++ t;
  ed25519_verify = λ key t s. same (key ++ t) s;
  sha256 = λ t. t;
  verify_asn1 = λ key t s. same (key ++ t) s;
}

abbrev pub store_a : FileStore
store_a = record {
  public_keys = (codes "a", codes "p") ∷ (codes "b", codes "q") ∷ [];
  private_key = codes "p";
  initiator_key = record { algorithm = ed25519; ed25519_key = codes "i"; p256_key = none };
  symmetric_keys = (codes "b", codes "k") ∷ [];
}

abbrev pub store_b : FileStore
store_b = record store_a { private_key = codes "q"; symmetric_keys = (codes "a", codes "k") ∷ [] }

abbrev round_of : Text → PartyId → Bool → Option RoundInfo
round_of _ _ _ = some (record { index = 1; round_msg = codes "r"; msg_identifier = codes "m" })

abbrev pub session_a : PartySession
session_a = record {
  wallet_id = codes "w";
  self_party_id = party_a;
  party_ids = party_a ∷ party_b ∷ [];
  broadcast_topic = codes "all";
  compose_direct_topic = λ from to. compose_direct_topic keygen ecdsa from to (codes "w");
  get_round = round_of;
}

abbrev pub session_b : PartySession
session_b = record session_a { self_party_id = party_b }

abbrev pub network : Network
network = record {
  publish = λ _ _. true;
  send_to_self = λ _ _. true;
  send_to_other = λ _ _. true;
  listen = λ _. true;
}

-- An encoding for one message.
abbrev pub json_for : TssMessage → TssJson
json_for m = record {
  signing_json = λ _. some (codes "s");
  marshal_tss_message = λ _. some (codes "t");
  unmarshal_tss_message = λ _. some m;
}

abbrev pub to_b : TssMessage
to_b = new_tss_message (codes "w") (codes "hi") false party_a (party_b ∷ [])

abbrev pub direct : Text
direct = compose_direct_topic keygen ecdsa (self_id session_a) (self_id session_b) (codes "w")

pub self_a : self_id session_a ≡ codes "a"
unfolding party_id_to_node_id cut bytes digits trim_space trim_left trim_right
self_a = refl

pub self_b : self_id session_b ≡ codes "b"
unfolding party_id_to_node_id cut bytes digits trim_space trim_left trim_right
self_b = refl

pub cipher-AeadLaws : AeadLaws cipher
cipher-AeadLaws = record { open-seal = λ key nonce plain. ap some (drop-append key plain) }

pub apart : same (self_id session_a) (self_id session_b) ≡ false
unfolding same
apart = rw (self_a, self_b) refl

pub shared_key :
    get_symmetric_key store_a.symmetric_keys (self_id session_b)
    ≡ get_symmetric_key store_b.symmetric_keys (self_id session_a)
unfolding get_symmetric_key lookup same
shared_key = rw (self_a, self_b) refl

pub b_is_b : compare_party_ids party_b session_b.self_party_id ≡ true
unfolding compare_party_ids
b_is_b = (same_iff _ _).1 refl

pub sealed_for_b :
    encrypt_message cipher store_a (some (codes "n")) (codes "t") (self_id session_b)
    ≡ good (codes "nkt")
unfolding encrypt_message encrypt_aes_gcm_with_nonce_embed get_symmetric_key lookup same
sealed_for_b = rw self_b refl
