-- ===== src/Jwks/Key.antt =====
-- auth/jwks/jwks.go: the entries of a key set and the public keys they stand for.
use api_security_sdk.Common.{
  ℕ, ◌-◌, ◌^◌, ◌%◌, String, ◌==◌, none, some, Result, ok, err, ltb, if◌then◌else◌,
}
use api_security_sdk.Common.Int.{ℤ, pos, negsuc}
use api_security_sdk.Common.Base64.{decode_base64_url, set_bytes}

pub data Curve : Type 0 where
  p256 p384 p521 : Curve

pub data PublicKey : Type 0 where
  rsa : (n : ℕ) (e : ℤ) → PublicKey
  ecdsa : Curve → (x y : ℕ) → PublicKey

pub data KeyError : Type 0 where
  unsupported_key_type invalid_modulus invalid_exponent invalid_x invalid_y : KeyError
  unsupported_curve : String → KeyError

-- `rawJWK`
pub record RawJwk : Type 0 where
  pub kty : String
  pub kid : String
  pub use_for : String
  pub alg : String
  pub n : String
  pub e : String
  pub crv : String
  pub x : String
  pub y : String

-- `int(i.Int64())`, the lower 64 bits.
abbrev pub to_int_64 : ℕ → ℤ
to_int_64 n =
    if ltb (n % 2 ^ 64) (2 ^ 63) then pos (n % 2 ^ 64) else negsuc (2 ^ 64 - 1 - n % 2 ^ 64)

unfoldable pub to_rsa : RawJwk → Result KeyError PublicKey
to_rsa r = elim (decode_base64_url r.n) [
  | none ↦ err invalid_modulus
  | some n_bytes ↦ elim (decode_base64_url r.e) [
    | none ↦ err invalid_exponent
    | some e_bytes ↦ ok (rsa (set_bytes n_bytes) (to_int_64 (set_bytes e_bytes)))
  ]
]

unfoldable pub curve_of : String → Result KeyError Curve
curve_of crv =
    if crv == "P-256"
    then ok p256
    else if crv == "P-384"
    then ok p384
    else if crv == "P-521"
    then ok p521
    else err (unsupported_curve crv)

unfoldable pub to_ecdsa : RawJwk → Result KeyError PublicKey
unfolding curve_of
to_ecdsa r = elim (curve_of r.crv) [
  | err e ↦ err e
  | ok curve ↦ elim (decode_base64_url r.x) [
    | none ↦ err invalid_x
    | some x_bytes ↦ elim (decode_base64_url r.y) [
      | none ↦ err invalid_y
      | some y_bytes ↦ ok (ecdsa curve (set_bytes x_bytes) (set_bytes y_bytes))
    ]
  ]
]

unfoldable pub to_public_key : RawJwk → Result KeyError PublicKey
unfolding to_rsa to_ecdsa
to_public_key r =
    if r.kty == "RSA"
    then to_rsa r
    else if r.kty == "EC"
    then to_ecdsa r
    else err unsupported_key_type
