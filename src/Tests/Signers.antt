-- ===== src/Tests/Signers.antt =====
-- A local signer with an Ed25519 key, and a node that has its public key.
use mpc_go.Common.{
  ◌≡◌, ◌∷◌, ◌++◌, ◌==◌, ◌<◌, ◌&&◌, [], Option, none, some, Text, true, false, if◌then◌else◌, All,
  arith, refl, codes, length, same, same_iff, trim_space, trim_left, trim_right,
}
use mpc_go.Encryption.{P256PublicKey}
use mpc_go.Encryption.Keys.{decode_hex, encode_hex}
use mpc_go.Identity.Store.{Signatures, ed25519}
use mpc_go.Identity.Loading as Identities
use mpc_go.Client.Signer.{
  Surroundings, made, new_local_signer, read_key_file, load_ed25519_key, public_key,
}
use mpc_go.Client.Signer.Origin.{ed25519_signer}
use mpc_go.Client.Signer.Laws.{SignerLaws, Accepts, load_initiator_keys-new_local_signer}
use mpc_go.Tests.Stores.{files}

abbrev eight : Text
eight = 1 ∷ 2 ∷ 3 ∷ 4 ∷ 5 ∷ 6 ∷ 7 ∷ 8 ∷ []

abbrev seed : Text
seed = eight ++ eight ++ eight ++ eight

-- The only public key that is encoded.
abbrev known : P256PublicKey
known = record { on_p256 = true; point = codes "x" }

abbrev marshal_known : P256PublicKey → Option Text
marshal_known k = if k.on_p256 && same k.point (codes "x") then some (codes "x") else none

abbrev signer_files : Surroundings
signer_files = record {
  exists = λ _. true;
  read_file = λ _. some (encode_hex seed ++ b'\n' ∷ []);
  age_decrypt = λ _ _. none;
  der = record {
    parse_pkcs8 = λ _. none;
    parse_ec = λ dat. some (record { secret = dat; public_key = known });
    parse_pkix = λ _. some (some known);
    marshal_pkix = marshal_known;
    decode_base64 = λ _. none;
  };
  key_from_seed = λ s. s ++ s;
  ed25519_public = λ _. seed;
  ed25519_sign = λ key m. 1 ∷ m;
  sha256 = λ m. 3 ∷ m;
  sign_asn1 = λ key hash. some (2 ∷ hash);
}

abbrev checks : Signatures
checks = record {
  ed25519_sign = λ key m. 1 ∷ m;
  ed25519_verify = λ key m signature. same signature (1 ∷ m);
  sha256 = λ m. 3 ∷ m;
  verify_asn1 = λ point hash signature. same signature (2 ∷ hash);
}

encoded :
    (key : P256PublicKey) (bytes : Text)
    → marshal_known key ≡ some bytes
    → (some (some known) ≡ some (some key))
      × All (λ b. b < 256) bytes
      × ((length bytes == 0) ≡ false)
encoded key bytes h = ground (arith, same_iff key.point (codes "x"))

laws : SignerLaws signer_files checks
laws = record {
  length-ed25519_public = λ s l. refl;
  ed25519_public-All = λ key. ground arith;
  ed25519_verify-ed25519_sign = λ s m l. ground (arith, same_iff (1 ∷ m) (1 ∷ m));
  length-ed25519_sign = λ key m. ground arith;
  same_sha256 = λ t. refl;
  verify_asn1-sign_asn1 =
      λ dat hash signature key p h. ground (arith, same_iff signature (2 ∷ hash));
  parse_pkix-marshal_pkix = encoded;
}

abbrev reader : Identities.Surroundings
reader = record files {
  der = signer_files.der;
  event_initiator_algorithm = codes "ed25519";
  event_initiator_pub_key = encode_hex seed;
}

makes : new_local_signer signer_files ed25519 [] false [] ≡ made (ed25519_signer (seed ++ seed))
unfolding new_local_signer read_key_file load_ed25519_key decode_hex encode_hex trim_space trim_left
    trim_right same
makes = refl

prints : public_key signer_files (ed25519_signer (seed ++ seed)) ≡ some (encode_hex seed)
unfolding public_key
prints = refl

load_initiator_keys-new_local_signer_example :
    Accepts signer_files checks reader (ed25519_signer (seed ++ seed))
load_initiator_keys-new_local_signer_example =
    load_initiator_keys-new_local_signer signer_files checks reader ed25519 [] false []
      (encode_hex seed) (ed25519_signer (seed ++ seed)) laws makes prints refl refl refl
