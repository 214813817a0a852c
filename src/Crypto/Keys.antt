-- ===== src/Crypto/Keys.antt =====
-- crypto/keys.go: key pairs and their PEM texts. crypto/x509, encoding/pem and the generators are the
-- argument `Library`, over the types of the keys.
use api_security_sdk.Common.{String, Option, none, some, Result, ok, err}
use api_security_sdk.Common.Int.{ℤ}
use api_security_sdk.Common.Bytes.{Bytes}

-- A key in x509: of RSA, of ECDSA, or of another kind.
pub data AnyKey (R E : Type 0) : Type 0 where
  rsa_key : R → AnyKey R E
  ecdsa_key : E → AnyKey R E
  other_key : AnyKey R E

pub record Block : Type 0 where
  pub label : String
  pub content : Bytes

-- The library over the private and the public keys; a curve is any value.
pub record Library (R RP E EP C : Type 0) : Type 0 where
  pub generate_rsa : ℤ → Result String R
  pub generate_ecdsa : C → Result String E
  pub rsa_public : R → RP
  pub ecdsa_public : E → EP
  pub marshal_pkcs8_private_key : AnyKey R E → Result String Bytes
  pub marshal_pkix_public_key : AnyKey RP EP → Result String Bytes
  pub parse_pkcs8_private_key : Bytes → Result String (AnyKey R E)
  pub parse_pkix_public_key : Bytes → Result String (AnyKey RP EP)
  pub encode_to_memory : Block → Bytes
  pub decode : Bytes → Option Block

pub data Error : Type 0 where
  generation_failed : String → Error
  x509_error : String → Error
  no_block : Error
  not_rsa not_ecdsa : Error

module _ {R RP E EP C : Type 0} (lib : Library R RP E EP C) where
  unfoldable pub generate_rsa_key_pair : ℤ → Result Error (R × RP)
  generate_rsa_key_pair bits = elim (lib.generate_rsa bits) [
    | err e ↦ err (generation_failed e)
    | ok priv ↦ ok (priv, lib.rsa_public priv)
  ]

  unfoldable pub generate_ecdsa_key_pair : C → Result Error (E × EP)
  generate_ecdsa_key_pair curve = elim (lib.generate_ecdsa curve) [
    | err e ↦ err (generation_failed e)
    | ok priv ↦ ok (priv, lib.ecdsa_public priv)
  ]

  -- The end of the functions to PEM.
  unfoldable pub to_pem : String → Result String Bytes → Result Error Bytes
  to_pem label (err e) = err (x509_error e)
  to_pem label (ok der) = ok (lib.encode_to_memory (record { label = label; content = der }))

  unfoldable pub rsa_private_key_to_pem : R → Result Error Bytes
  rsa_private_key_to_pem key = to_pem "PRIVATE KEY" (lib.marshal_pkcs8_private_key (rsa_key key))

  unfoldable pub rsa_public_key_to_pem : RP → Result Error Bytes
  rsa_public_key_to_pem key = to_pem "PUBLIC KEY" (lib.marshal_pkix_public_key (rsa_key key))

  unfoldable pub ecdsa_private_key_to_pem : E → Result Error Bytes
  ecdsa_private_key_to_pem key =
      to_pem "PRIVATE KEY" (lib.marshal_pkcs8_private_key (ecdsa_key key))

  unfoldable pub ecdsa_public_key_to_pem : EP → Result Error Bytes
  ecdsa_public_key_to_pem key = to_pem "PUBLIC KEY" (lib.marshal_pkix_public_key (ecdsa_key key))

  -- The head of the functions from PEM; the label of the block is not looked at.
  unfoldable pub parse_block : {K : Type 0} → (Bytes → Result String K) → Bytes → Result Error K
  parse_block parse pem = elim (lib.decode pem) [
    | none ↦ err no_block
    | some block ↦ elim (parse block.content) [ err e ↦ err (x509_error e) | ok key ↦ ok key ]
  ]

  unfoldable pub parse_rsa_private_key_pem : Bytes → Result Error R
  parse_rsa_private_key_pem pem = elim (parse_block lib.parse_pkcs8_private_key pem) [
    | err e ↦ err e
    | ok (rsa_key key) ↦ ok key
    | ok (ecdsa_key _) ↦ err not_rsa
    | ok other_key ↦ err not_rsa
  ]

  unfoldable pub parse_rsa_public_key_pem : Bytes → Result Error RP
  parse_rsa_public_key_pem pem = elim (parse_block lib.parse_pkix_public_key pem) [
    | err e ↦ err e
    | ok (rsa_key key) ↦ ok key
    | ok (ecdsa_key _) ↦ err not_rsa
    | ok other_key ↦ err not_rsa
  ]

  unfoldable pub parse_ecdsa_private_key_pem : Bytes → Result Error E
  parse_ecdsa_private_key_pem pem = elim (parse_block lib.parse_pkcs8_private_key pem) [
    | err e ↦ err e
    | ok (ecdsa_key key) ↦ ok key
    | ok (rsa_key _) ↦ err not_ecdsa
    | ok other_key ↦ err not_ecdsa
  ]

  unfoldable pub parse_ecdsa_public_key_pem : Bytes → Result Error EP
  parse_ecdsa_public_key_pem pem = elim (parse_block lib.parse_pkix_public_key pem) [
    | err e ↦ err e
    | ok (ecdsa_key key) ↦ ok key
    | ok (rsa_key _) ↦ err not_ecdsa
    | ok other_key ↦ err not_ecdsa
  ]
