-- ===== src/Encryption/Keys.antt =====
-- Keys in hex (package encoding/hex) and the P-256 keys of pkg/encryption/p256.go. The DER formats are
-- those of Go's crypto/x509, and the signature is crypto/ecdsa's.
use mpc_go.Common.{
  ℕ, ◌∷◌, ◌-◌, ◌+◌, ◌*◌, ◌/◌, ◌%◌, ◌<◌, ◌≡◌, ◌==◌, ◌&&◌, [], Option, none, some, Text, false, leb,
  ltb, codes, trim_space, has_prefix, drop, if◌then◌else◌, All, arith, refl, length,
}
use mpc_go.Encryption.{P256PublicKey}

-- `hex.DecodeString`, of two digits at a time.
abbrev nibble : ℕ → Option ℕ
nibble c =
    if leb b'0' c && leb c b'9'
    then some (c - b'0')
    else if leb b'a' c && leb c b'f'
    then some (c - b'a' + 10)
    else if leb b'A' c && leb c b'F'
    then some (c - b'A' + 10)
    else none

abbrev join_nibbles : Option ℕ → Option ℕ → Option Text → Option Text
join_nibbles (some h) (some l) (some rest) = some ((h * 16 + l) ∷ rest)
join_nibbles (some h) (some l) none = none
join_nibbles (some h) none _ = none
join_nibbles none _ _ = none

unfoldable pub decode_hex : Text → Option Text
decode_hex [] = some []
decode_hex (c ∷ []) = none
decode_hex (c ∷ d ∷ s) = join_nibbles (nibble c) (nibble d) (decode_hex s)

-- `hex.EncodeToString`, of bytes.
abbrev hex_digit : ℕ → ℕ
hex_digit n = if ltb n 10 then n + b'0' else n - 10 + b'a'

unfoldable pub encode_hex : Text → Text
encode_hex [] = []
encode_hex (b ∷ s) = hex_digit (b / 16) ∷ hex_digit (b % 16) ∷ encode_hex s

nibble-hex_digit : (n : ℕ) → n < 16 → nibble (hex_digit n) ≡ some n
nibble-hex_digit n h = ground arith

pub decode_hex-encode_hex : (s : Text) → All (λ b. b < 256) s → decode_hex (encode_hex s) ≡ some s
unfolding decode_hex encode_hex
decode_hex-encode_hex [] h = refl
decode_hex-encode_hex (b ∷ s) (h, hs) = ground (
  arith,
  nibble-hex_digit (b / 16) (omega arith),
  nibble-hex_digit (b % 16) (omega arith),
  decode_hex-encode_hex s hs,
)

pub encode_hex-has_prefix : (s : Text) → has_prefix (encode_hex s) (codes "0x") ≡ false
unfolding has_prefix encode_hex
encode_hex-has_prefix [] = refl
encode_hex-has_prefix (b ∷ s) = ground arith

pub length-encode_hex : (s : Text) → (length s == 0) ≡ false → (length (encode_hex s) == 0) ≡ false
unfolding encode_hex
length-encode_hex [] h = h
length-encode_hex (b ∷ s) h = ground arith

pub record EcdsaKey : Type 0 where
  pub secret : Text
  pub public_key : P256PublicKey

-- crypto/x509 and base64; where a format holds keys of other kinds too, the inner `none` is one of those.
-- A key that is parsed has a curve.
pub record Der : Type 0 where
  pub parse_pkcs8 : Text → Option (Option EcdsaKey)
  pub parse_ec : Text → Option EcdsaKey
  pub parse_pkix : Text → Option (Option P256PublicKey)
  pub marshal_pkix : P256PublicKey → Option Text
  pub decode_base64 : Text → Option Text

abbrev flatten {ℓ} : {A : Type ℓ} → Option (Option A) → Option A
flatten none = none
flatten (some o) = o

-- `strings.TrimPrefix(s, "0x")`.
abbrev pub trim_0x : Text → Text
trim_0x s = if has_prefix s (codes "0x") then drop 2 s else s

abbrev parse_der : Der → Text → Option EcdsaKey
parse_der d dat = elim (flatten (d.parse_pkcs8 dat)) [ none ↦ d.parse_ec dat | some key ↦ some key ]

unfoldable pub parse_p256_private_key : Der → Text → Option EcdsaKey
parse_p256_private_key d key_data = elim (parse_der d key_data) [
  | some key ↦ some key
  | none ↦ elim (decode_hex (trim_0x (trim_space key_data))) [
    | none ↦ none
    | some key_bytes ↦ parse_der d key_bytes
  ]
]

-- The second of the source's two attempts is the first again.
unfoldable pub parse_p256_public_key_from_bytes : Der → Text → Option P256PublicKey
parse_p256_public_key_from_bytes d key_bytes = elim (flatten (d.parse_pkix key_bytes)) [
  | none ↦ none
  | some key ↦ if key.on_p256 then some key else none
]

unfoldable pub parse_p256_public_key_from_hex : Der → Text → Option P256PublicKey
parse_p256_public_key_from_hex d hex_string = elim (decode_hex (trim_0x hex_string)) [
  | none ↦ none
  | some key_bytes ↦ parse_p256_public_key_from_bytes d key_bytes
]

unfoldable pub parse_p256_public_key_from_base64 : Der → Text → Option P256PublicKey
parse_p256_public_key_from_base64 d base64_string = elim (d.decode_base64 base64_string) [
  | none ↦ none
  | some key_bytes ↦ parse_p256_public_key_from_bytes d key_bytes
]

unfoldable pub marshal_p256_public_key : Der → P256PublicKey → Option Text
marshal_p256_public_key d key = if key.on_p256 then d.marshal_pkix key else none

-- `sign_asn1` is `ecdsa.SignASN1`, `none` if it fails.
unfoldable pub sign_with_p256 :
    (Text → Text) → (Text → Text → Option Text) → EcdsaKey → Text → Option Text
sign_with_p256 sha256 sign_asn1 key dat = sign_asn1 key.secret (sha256 dat)
