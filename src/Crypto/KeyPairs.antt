-- ===== src/Crypto/KeyPairs.antt =====
-- crypto/keys.go: a key of a PEM text is read back as the kind it was written as, and as no other.
use api_security_sdk.Common.{
  String, ◌≡◌, refl, some, Result, ok, err, arith, Result-cases, ◌⊎◌, inl, inr,
}
use api_security_sdk.Common.Bytes.{Bytes}
use api_security_sdk.Crypto.Keys.{
  AnyKey, rsa_key, ecdsa_key, Block, Library, not_rsa, not_ecdsa, to_pem, parse_block,
  rsa_private_key_to_pem, rsa_public_key_to_pem, ecdsa_private_key_to_pem, ecdsa_public_key_to_pem,
  parse_rsa_private_key_pem, parse_rsa_public_key_pem, parse_ecdsa_private_key_pem,
  parse_ecdsa_public_key_pem,
}

-- What the code relies on of encoding/pem and crypto/x509: they read back what they write, PEM under
-- the labels of the code.
pub record IsLibrary {R RP E EP C : Type 0} (lib : Library R RP E EP C) : Type 0 where
  pub decode_encode :
      (b : Block)
      → (b.label ≡ "PRIVATE KEY") ⊎ (b.label ≡ "PUBLIC KEY")
      → lib.decode (lib.encode_to_memory b) ≡ some b
  pub parse_private :
      (key : AnyKey R E) (der : Bytes)
      → lib.marshal_pkcs8_private_key key ≡ ok der
      → lib.parse_pkcs8_private_key der ≡ ok key
  pub parse_public :
      (key : AnyKey RP EP) (der : Bytes)
      → lib.marshal_pkix_public_key key ≡ ok der
      → lib.parse_pkix_public_key der ≡ ok key

-- What the four writers and readers share.
block_read :
    {R RP E EP C K : Type 0} (lib : Library R RP E EP C) (good : IsLibrary lib)
    (parse : Bytes → Result String K) (marshalled : Result String Bytes) (label : String) (key : K)
    (pem : Bytes)
    → (label ≡ "PRIVATE KEY") ⊎ (label ≡ "PUBLIC KEY")
    → ((der : Bytes) → marshalled ≡ ok der → parse der ≡ ok key)
    → to_pem lib label marshalled ≡ ok pem
    → parse_block lib parse pem ≡ ok key
unfolding to_pem parse_block
block_read lib good parse marshalled label key pem known reads wrote =
    elim (Result-cases marshalled) [
      | inr (e, failed) ↦ absurd (ground arith)
      | inl (der, made) ↦
          let block : Block = record { label = label; content = der } in
          let written : lib.encode_to_memory block ≡ pem = ground arith in
          ground (arith, good.decode_encode block known, reads der made)
    ]

-- The PEM text of an RSA private key is read back as that key and refused as an ECDSA key, and the PEM
-- text of an ECDSA private key is read back as that key and refused as an RSA key.
pub parse-private_key_to_pem :
    {R RP E EP C : Type 0} (lib : Library R RP E EP C) (key : R) (key' : E) (pem pem' : Bytes)
    → IsLibrary lib
    → rsa_private_key_to_pem lib key ≡ ok pem
    → ecdsa_private_key_to_pem lib key' ≡ ok pem'
    → (parse_rsa_private_key_pem lib pem ≡ ok key)
      × (parse_ecdsa_private_key_pem lib pem ≡ err not_ecdsa)
      × (parse_ecdsa_private_key_pem lib pem' ≡ ok key')
      × (parse_rsa_private_key_pem lib pem' ≡ err not_rsa)
unfolding rsa_private_key_to_pem ecdsa_private_key_to_pem parse_rsa_private_key_pem
    parse_ecdsa_private_key_pem
parse-private_key_to_pem lib key key' pem pem' good wrote wrote' =
    let read =
      block_read lib good lib.parse_pkcs8_private_key (lib.marshal_pkcs8_private_key (rsa_key key))
        "PRIVATE KEY" (rsa_key key) pem (inl refl) (good.parse_private (rsa_key key)) wrote in
    let read' =
      block_read lib good lib.parse_pkcs8_private_key
        (lib.marshal_pkcs8_private_key (ecdsa_key key')) "PRIVATE KEY" (ecdsa_key key') pem'
        (inl refl) (good.parse_private (ecdsa_key key')) wrote' in
    (ground (arith, read), ground (arith, read), ground (arith, read'), ground (arith, read'))

-- The PEM text of an RSA public key is read back as that key and refused as an ECDSA key, and the PEM
-- text of an ECDSA public key is read back as that key and refused as an RSA key.
pub parse-public_key_to_pem :
    {R RP E EP C : Type 0} (lib : Library R RP E EP C) (key : RP) (key' : EP) (pem pem' : Bytes)
    → IsLibrary lib
    → rsa_public_key_to_pem lib key ≡ ok pem
    → ecdsa_public_key_to_pem lib key' ≡ ok pem'
    → (parse_rsa_public_key_pem lib pem ≡ ok key)
      × (parse_ecdsa_public_key_pem lib pem ≡ err not_ecdsa)
      × (parse_ecdsa_public_key_pem lib pem' ≡ ok key')
      × (parse_rsa_public_key_pem lib pem' ≡ err not_rsa)
unfolding rsa_public_key_to_pem ecdsa_public_key_to_pem parse_rsa_public_key_pem
    parse_ecdsa_public_key_pem
parse-public_key_to_pem lib key key' pem pem' good wrote wrote' =
    let read =
      block_read lib good lib.parse_pkix_public_key (lib.marshal_pkix_public_key (rsa_key key))
        "PUBLIC KEY" (rsa_key key) pem (inr refl) (good.parse_public (rsa_key key)) wrote in
    let read' =
      block_read lib good lib.parse_pkix_public_key (lib.marshal_pkix_public_key (ecdsa_key key'))
        "PUBLIC KEY" (ecdsa_key key') pem' (inr refl) (good.parse_public (ecdsa_key key')) wrote' in
    (ground (arith, read), ground (arith, read), ground (arith, read'), ground (arith, read'))
