-- ===== src/Crypto/Token.antt =====
-- crypto/token.go: random tokens in base64url. The random source is the outcome of a read.
use api_security_sdk.Common.{ℕ, String, ◌≡◌, some, Result, ok, err, length, arith}
use api_security_sdk.Common.Int.{ℤ, pos, negsuc}
use api_security_sdk.Common.Bytes.{Bytes, IsBytes}
use api_security_sdk.Common.Base64.{encode_base64_url, decode_base64_url}
use api_security_sdk.Common.Base64.RoundTrip.{decode-encode_base64_url}

-- A failed random source, and a panic.
pub data Error : Type 0 where
  random_failed : String → Error
  panics : Error

-- `GenerateToken`; a slice of negative length panics.
unfoldable pub generate_token : (ℕ → Result String Bytes) → ℤ → Result Error String
generate_token random (pos length) = elim (random length) [
  | err e ↦ err (random_failed e)
  | ok b ↦ ok (encode_base64_url b)
]
generate_token random (negsuc _) = err panics

-- `MustGenerateToken`, which panics on every error.
unfoldable pub must_generate_token : (ℕ → Result String Bytes) → ℤ → Result Error String
unfolding generate_token
must_generate_token random length = elim (generate_token random length) [
  | err _ ↦ err panics
  | ok t ↦ ok t
]

-- A token stands for the random bytes: it decodes to all of them, so that two reads with one token
-- are the same.
pub generate_token-injective :
    (random random' : ℕ → Result String Bytes) (n : ℕ) (b b' : Bytes) (token : String)
    → random n ≡ ok b
    → random' n ≡ ok b'
    → IsBytes b
    → IsBytes b'
    → generate_token random (pos n) ≡ ok token
    → generate_token random' (pos n) ≡ ok token
    → (decode_base64_url token ≡ some b) × (b ≡ b')
unfolding generate_token
generate_token-injective random random' n b b' token drawn drawn' bytes bytes' made made' =
    let this : encode_base64_url b ≡ token = ground arith in
    let that : encode_base64_url b' ≡ token = ground arith in
    ground (arith, decode-encode_base64_url b bytes, decode-encode_base64_url b' bytes')
