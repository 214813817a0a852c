-- ===== src/Tests/Hashes.antt =====
-- crypto: a derivation that keeps the password's bytes, and a key library of numbered keys.
use api_security_sdk.Common.{
  ℕ, zero, suc, ◌%◌, ◌<◌, ◌≡◌, ◌↔◌, inl, refl, String, Bool, true, ◌||◌, ◌==◌, Option, none, some,
  [], ◌∷◌, Result, ok, err, eqb, length, arith, if◌then◌else◌, eq_iff,
}
use api_security_sdk.Common.Int.{pos}
use api_security_sdk.Common.Bytes.{Bytes, IsBytes, utf8}
use api_security_sdk.Common.Base64.{decode_base64_url, encode_base64_url}
use api_security_sdk.Crypto.Password.{
  PasswordConfig, panics, Argon2, encode_hash, decode_hash, hash_password_with_config,
  verify_password, config_of,
}
use api_security_sdk.Crypto.Phc.{IsConfig, decode_hash-encode_hash}
use api_security_sdk.Crypto.Verify.{IsArgon2, verify_password-hash, verify_password-panics}
use api_security_sdk.Crypto.Token.{generate_token, generate_token-injective}
use api_security_sdk.Crypto.Keys.{
  AnyKey, to_pem, rsa_key, ecdsa_key, other_key, Block, Library, not_rsa, not_ecdsa,
  rsa_private_key_to_pem, rsa_public_key_to_pem, ecdsa_private_key_to_pem, ecdsa_public_key_to_pem,
  parse_rsa_private_key_pem, parse_rsa_public_key_pem, parse_ecdsa_private_key_pem,
  parse_ecdsa_public_key_pem,
}
use api_security_sdk.Crypto.KeyPairs.{IsLibrary, parse-private_key_to_pem, parse-public_key_to_pem}

abbrev derive : ℕ → Bytes → Bytes
derive zero _ = []
derive (suc n) [] = 0 ∷ derive n []
derive (suc n) (b ∷ bs) = b % 256 ∷ derive n bs

abbrev argon2 : Argon2
argon2 = record {
  version = 19;
  id_key = λ password salt time memory threads key_length.
      if eqb time 0 || eqb threads 0 then none else some (derive key_length password);
}

derive-IsBytes : (n : ℕ) (bs : Bytes) → IsBytes (derive n bs)
derive-IsBytes zero _ = tt
derive-IsBytes (suc n) [] = (omega arith, derive-IsBytes n [])
derive-IsBytes (suc n) (b ∷ bs) = (omega arith, derive-IsBytes n bs)

length-derive : (n : ℕ) (bs : Bytes) → length (derive n bs) ≡ n
length-derive zero _ = refl
length-derive (suc n) [] = ground (arith, length-derive n [])
length-derive (suc n) (b ∷ bs) = ground (arith, length-derive n bs)

argon2-IsArgon2 : IsArgon2 argon2
argon2-IsArgon2 = record {
  version_fits = omega arith;
  gives_key = λ password salt time memory threads key_length passes lanes bytes. (
    derive key_length password,
    ground (arith, passes, lanes),
    derive-IsBytes key_length password,
    length-derive key_length password,
  );
  panics_without = λ password salt time memory threads key_length nothing. ground (arith, nothing);
}

abbrev small_config : ℕ → PasswordConfig
small_config iterations = record {
  memory = 64;
  iterations = iterations;
  parallelism = 2;
  salt_length = 3;
  key_length = 4;
}

small_IsConfig : (n : ℕ) → n < 5 → IsConfig (small_config n)
small_IsConfig n few = record {
  memory_fits = omega arith;
  iterations_fit = omega arith;
  parallelism_fits = omega arith;
}

abbrev salt : Bytes
salt = 7 ∷ 250 ∷ 64 ∷ []

abbrev hash : Bytes
hash = 255 ∷ 0 ∷ 1 ∷ 2 ∷ []

salt_IsBytes : IsBytes salt
salt_IsBytes = (omega arith, (omega arith, (omega arith, tt)))

hash_IsBytes : IsBytes hash
hash_IsBytes = (omega arith, (omega arith, (omega arith, (omega arith, tt))))

decode_hash-encode_hash_example :
    decode_hash (encode_hash argon2 hash salt (small_config 3))
    ≡ ok (record { cfg = config_of 64 3 2 salt hash; salt = salt; hash = hash })
decode_hash-encode_hash_example =
    decode_hash-encode_hash argon2 hash salt (small_config 3) hash_IsBytes salt_IsBytes
      (small_IsConfig 3 (omega arith)) (omega arith)

verify_password-panics_example :
    verify_password argon2 "guess" (encode_hash argon2 hash salt (small_config 0)) ≡ err panics
verify_password-panics_example =
    verify_password-panics argon2 (small_config 0) "guess" salt hash argon2-IsArgon2
      (small_IsConfig 0 (omega arith)) salt_IsBytes hash_IsBytes (inl refl)

abbrev draw : ℕ → Result String Bytes
draw n = ok salt

verify_password-hash_example :
    (encoded : String) × (hash_password_with_config argon2 draw "secret" (small_config 3)
      ≡ ok encoded)
    × (verify_password argon2 "secret" encoded ≡ ok true)
    × ((other : String)
        → (same : Bool) × (verify_password argon2 other encoded ≡ ok same)
          × ((same ≡ true) ↔ (
              argon2.id_key (utf8 other) salt 3 64 2 4
              ≡ argon2.id_key (utf8 "secret") salt 3 64 2 4)))
verify_password-hash_example =
    verify_password-hash argon2 draw (small_config 3) "secret" salt argon2-IsArgon2
      (record {
        fits = small_IsConfig 3 (omega arith);
        some_iterations = omega arith;
        some_parallelism = omega arith;
        some_key = omega arith;
        key_fits = omega arith;
        salt_fits = omega arith;
      })
      refl refl salt_IsBytes

token : generate_token draw (pos 3) ≡ ok "B_pA"
unfolding generate_token encode_base64_url
token = refl

token_decodes : (decode_base64_url "B_pA" ≡ some salt) × (salt ≡ salt)
token_decodes =
    generate_token-injective draw draw 3 salt salt "B_pA" refl refl salt_IsBytes salt_IsBytes token
      token

abbrev marshal : AnyKey ℕ ℕ → Result String Bytes
marshal (rsa_key n) = ok (0 ∷ n ∷ [])
marshal (ecdsa_key n) = ok (1 ∷ n ∷ [])
marshal other_key = err "x509: unknown key type"

abbrev parse : Bytes → Result String (AnyKey ℕ ℕ)
parse (zero ∷ n ∷ []) = ok (rsa_key n)
parse (suc zero ∷ n ∷ []) = ok (ecdsa_key n)
parse _ = err "x509: malformed key"

abbrev block_of : Bytes → Option Block
block_of [] = none
block_of (zero ∷ content) = some (record { label = "PRIVATE KEY"; content = content })
block_of (suc _ ∷ content) = some (record { label = "PUBLIC KEY"; content = content })

abbrev library : Library ℕ ℕ ℕ ℕ Unit
library = record {
  generate_rsa = λ bits. err "no entropy";
  generate_ecdsa = λ curve. ok 5;
  rsa_public = λ key. key;
  ecdsa_public = λ key. key;
  marshal_pkcs8_private_key = marshal;
  marshal_pkix_public_key = marshal;
  parse_pkcs8_private_key = parse;
  parse_pkix_public_key = parse;
  encode_to_memory = λ b. (if b.label == "PRIVATE KEY" then 0 else 1) ∷ b.content;
  decode = block_of;
}

parse-marshal : (key : AnyKey ℕ ℕ) (der : Bytes) → marshal key ≡ ok der → parse der ≡ ok key
parse-marshal (rsa_key n) der made = ground (arith, made)
parse-marshal (ecdsa_key n) der made = ground (arith, made)
parse-marshal other_key der made = absurd (ground (arith, made))

library-IsLibrary : IsLibrary library
library-IsLibrary = record {
  decode_encode = λ b known. ground (arith, known, eq_iff b.label "PRIVATE KEY");
  parse_private = parse-marshal;
  parse_public = parse-marshal;
}

private_keys_read_back :
    (parse_rsa_private_key_pem library (0 ∷ 0 ∷ 8 ∷ []) ≡ ok 8)
    × (parse_ecdsa_private_key_pem library (0 ∷ 0 ∷ 8 ∷ []) ≡ err not_ecdsa)
    × (parse_ecdsa_private_key_pem library (0 ∷ 1 ∷ 9 ∷ []) ≡ ok 9)
    × (parse_rsa_private_key_pem library (0 ∷ 1 ∷ 9 ∷ []) ≡ err not_rsa)
unfolding rsa_private_key_to_pem ecdsa_private_key_to_pem to_pem
private_keys_read_back =
    parse-private_key_to_pem library 8 9 (0 ∷ 0 ∷ 8 ∷ []) (0 ∷ 1 ∷ 9 ∷ []) library-IsLibrary refl
      refl

public_keys_read_back :
    (parse_rsa_public_key_pem library (1 ∷ 0 ∷ 8 ∷ []) ≡ ok 8)
    × (parse_ecdsa_public_key_pem library (1 ∷ 0 ∷ 8 ∷ []) ≡ err not_ecdsa)
    × (parse_ecdsa_public_key_pem library (1 ∷ 1 ∷ 9 ∷ []) ≡ ok 9)
    × (parse_rsa_public_key_pem library (1 ∷ 1 ∷ 9 ∷ []) ≡ err not_rsa)
unfolding rsa_public_key_to_pem ecdsa_public_key_to_pem to_pem
public_keys_read_back =
    parse-public_key_to_pem library 8 9 (1 ∷ 0 ∷ 8 ∷ []) (1 ∷ 1 ∷ 9 ∷ []) library-IsLibrary refl
      refl
