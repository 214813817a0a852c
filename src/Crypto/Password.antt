-- ===== src/Crypto/Password.antt =====
-- crypto/password.go: Argon2id hashes of passwords and their PHC texts.
-- The library golang.org/x/crypto/argon2 is the argument `Argon2`, and the random source the outcome
-- of a read of that many bytes. A Go string is a text, or the list of its bytes where it is hashed.
use api_security_sdk.Common.{
  ℕ, ◌*◌, ◌^◌, ◌%◌, String, ◌<>◌, Bool, true, false, not, Option, none, some, List, [], ◌∷◌, Result,
  ok, err, length, show_ℕ, if◌then◌else◌,
}
use api_security_sdk.Common.Bytes.{Bytes, codes, eq_bytes, utf8}
use api_security_sdk.Common.Base64.{encode_base64_std, decode_base64_std}
use api_security_sdk.Common.Scan.{split, scan_literal, scan_uint, scan_int}

pub record PasswordConfig : Type 0 where
  pub memory : ℕ
  pub iterations : ℕ
  pub parallelism : ℕ
  pub salt_length : ℕ
  pub key_length : ℕ

-- A failed random source, errInvalidHash, and a panic of the library.
pub data Error : Type 0 where
  salt_failed : String → Error
  invalid_hash panics : Error

-- `argon2.Version` and `argon2.IDKey`; none is a panic.
pub record Argon2 : Type 0 where
  pub version : ℕ
  pub id_key : (password salt : Bytes) → (time memory threads key_length : ℕ) → Option Bytes

unfoldable pub default_password_config : PasswordConfig
default_password_config = record {
  memory = 64 * 1024;
  iterations = 3;
  parallelism = 2;
  salt_length = 16;
  key_length = 32;
}

module _ (lib : Argon2) where
  -- `encodeHash`
  unfoldable pub encode_hash : (hash salt : Bytes) → PasswordConfig → String
  encode_hash hash salt cfg =
      "$argon2id$v="
      <> (show_ℕ lib.version
          <> ("$m="
              <> (show_ℕ cfg.memory
                  <> (",t="
                      <> (show_ℕ cfg.iterations
                          <> (",p="
                              <> (show_ℕ cfg.parallelism
                                  <> ("$"
                                      <> (encode_base64_std salt
                                          <> ("$" <> encode_base64_std hash))))))))))

  unfoldable pub hash_password_with_config :
      (ℕ → Result String Bytes) → String → PasswordConfig → Result Error String
  hash_password_with_config random password cfg = elim (random cfg.salt_length) [
    | err e ↦ err (salt_failed e)
    | ok salt ↦
        elim (lib.id_key (utf8 password) salt cfg.iterations cfg.memory cfg.parallelism
          cfg.key_length) [ none ↦ err panics | some hash ↦ ok (encode_hash hash salt cfg) ]
  ]

  unfoldable pub hash_password : (ℕ → Result String Bytes) → String → Result Error String
  unfolding default_password_config hash_password_with_config
  hash_password random password = hash_password_with_config random password default_password_config

-- `fmt.Sscanf(s, "v=%d", &version)`; what stands behind the number is passed over.
unfoldable pub scans_version : Bytes → Bool
scans_version part = elim (scan_literal (codes "v=") part) [
  | none ↦ false
  | some rest ↦ elim (scan_int rest) [ none ↦ false | some _ ↦ true ]
]

-- A format's characters, and the number behind them.
unfoldable pub scan_field : String → ℕ → Bytes → Option (ℕ × Bytes)
scan_field literal bits part = elim (scan_literal (codes literal) part) [
  | none ↦ none
  | some rest ↦ scan_uint bits rest
]

-- `fmt.Sscanf(s, "m=%d,t=%d,p=%d", …)`
unfoldable pub scan_params : Bytes → Option (ℕ × ℕ × ℕ)
scan_params part = elim (scan_field "m=" 32 part) [
  | none ↦ none
  | some (memory, part') ↦ elim (scan_field ",t=" 32 part') [
    | none ↦ none
    | some (iterations, part'') ↦ elim (scan_field ",p=" 8 part'') [
      | none ↦ none
      | some (parallelism, _) ↦ some (memory, iterations, parallelism)
    ]
  ]
]

-- What a PHC text holds.
pub record Decoded : Type 0 where
  pub cfg : PasswordConfig
  pub salt : Bytes
  pub hash : Bytes

unfoldable pub config_of : ℕ → ℕ → ℕ → (salt hash : Bytes) → PasswordConfig
config_of memory iterations parallelism salt hash = record {
  memory = memory;
  iterations = iterations;
  parallelism = parallelism;
  salt_length = length salt % 2 ^ 32;
  key_length = length hash % 2 ^ 32;
}

-- The parts behind the name of the algorithm.
unfoldable pub decode_parts : (version params salt_text hash_text : Bytes) → Result Error Decoded
decode_parts version params salt_text hash_text =
    if not (scans_version version) then err invalid_hash else elim (scan_params params) [
      | none ↦ err invalid_hash
      | some (memory, iterations, parallelism) ↦ elim (decode_base64_std salt_text) [
        | none ↦ err invalid_hash
        | some salt ↦ elim (decode_base64_std hash_text) [
          | none ↦ err invalid_hash
          | some hash ↦ ok (record {
            cfg = config_of memory iterations parallelism salt hash;
            salt = salt;
            hash = hash;
          })
        ]
      ]
    ]

-- Six parts, of which the first is not looked at.
unfoldable pub decode_six : List Bytes → Result Error Decoded
decode_six (_ ∷ name ∷ version ∷ params ∷ salt ∷ hash ∷ []) =
    if eq_bytes name (codes "argon2id")
    then decode_parts version params salt hash
    else err invalid_hash
decode_six _ = err invalid_hash

-- `decodeHash`
unfoldable pub decode_hash : String → Result Error Decoded
decode_hash encoded = decode_six (split b'$' (codes encoded))

unfoldable pub verify_password : Argon2 → String → String → Result Error Bool
verify_password lib password encoded = elim (decode_hash encoded) [
  | err e ↦ err e
  | ok d ↦
      elim (lib.id_key (utf8 password) d.salt d.cfg.iterations d.cfg.memory d.cfg.parallelism
        d.cfg.key_length) [ none ↦ err panics | some candidate ↦ ok (eq_bytes d.hash candidate) ]
]
