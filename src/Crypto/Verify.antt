-- ===== src/Crypto/Verify.antt =====
-- crypto/password.go: which passwords a hash verifies, and the texts on which verifying panics.
use api_security_sdk.Crypto.Phc.{IsConfig, decode_hash-encode_hash}
use api_security_sdk.Common.{
  ℕ, ◌^◌, ◌≡◌, ◌↔◌, ◌<◌, refl, sym, ap, ◌∙◌, String, Bool, true, none, some, Result, ok, err,
  length, arith, ◌⊎◌,
}
use api_security_sdk.Common.Bytes.{Bytes, IsBytes, eq_bytes, eq_bytes_iff, utf8}
use api_security_sdk.Crypto.Password.{
  PasswordConfig, panics, Argon2, encode_hash, config_of, decode_hash, hash_password_with_config,
  verify_password,
}

-- What the code relies on of Argon2: with at least one pass, one thread and one byte of key it gives a
-- key of the length, and with no pass or no thread it panics.
pub record IsArgon2 (lib : Argon2) : Type 0 where
  pub version_fits : lib.version < 2 ^ 63
  pub gives_key :
      (password salt : Bytes) (time memory threads key_length : ℕ)
      → 0 < time
      → 0 < threads
      → 0 < key_length
      → (key : Bytes) × (lib.id_key password salt time memory threads key_length ≡ some key)
        × IsBytes key
        × (length key ≡ key_length)
  pub panics_without :
      (password salt : Bytes) (time memory threads key_length : ℕ)
      → (time ≡ 0) ⊎ (threads ≡ 0)
      → lib.id_key password salt time memory threads key_length ≡ none

-- A configuration that can be hashed with.
pub record IsUsable (cfg : PasswordConfig) : Type 0 where
  pub fits : IsConfig cfg
  pub some_iterations : 0 < cfg.iterations
  pub some_parallelism : 0 < cfg.parallelism
  pub some_key : 0 < cfg.key_length
  pub key_fits : cfg.key_length < 2 ^ 32
  pub salt_fits : cfg.salt_length < 2 ^ 32

some-injective : {a b : Bytes} → some a ≡ some b → a ≡ b
some-injective e = cc

config_of-same :
    (cfg : PasswordConfig) (salt hash : Bytes)
    → length salt ≡ cfg.salt_length
    → length hash ≡ cfg.key_length
    → cfg.salt_length < 2 ^ 32
    → cfg.key_length < 2 ^ 32
    → config_of cfg.memory cfg.iterations cfg.parallelism salt hash ≡ cfg
unfolding config_of
config_of-same cfg salt hash sized keyed fits fits' = ground arith

-- Verifying against the text of a hash compares the hash with the key of the other password.
verify_password-encode_hash :
    (lib : Argon2) (cfg : PasswordConfig) (other : String) (salt hash key : Bytes)
    → IsArgon2 lib
    → IsUsable cfg
    → IsBytes salt
    → IsBytes hash
    → length salt ≡ cfg.salt_length
    → length hash ≡ cfg.key_length
    → lib.id_key (utf8 other) salt cfg.iterations cfg.memory cfg.parallelism cfg.key_length
      ≡ some key
    → verify_password lib other (encode_hash lib hash salt cfg) ≡ ok (eq_bytes hash key)
unfolding verify_password
verify_password-encode_hash lib cfg other salt hash key is_lib usable sb hb sized keyed derived =
    let whole = decode_hash-encode_hash lib hash salt cfg hb sb usable.fits is_lib.version_fits in
    let same = config_of-same cfg salt hash sized keyed usable.salt_fits usable.key_fits in
    let exact : decode_hash (encode_hash lib hash salt cfg)
        ≡ ok (record { cfg = cfg; salt = salt; hash = hash }) =
      whole ∙ ap (λ (c : PasswordConfig). ok (record { cfg = c; salt = salt; hash = hash })) same in
    ground (arith, exact, derived)

-- A password is hashed with a random salt of the configured length, and verifying any password
-- against the text answers true exactly if Argon2 derives the same key from it, so for the password
-- itself.
pub verify_password-hash :
    (lib : Argon2) (random : ℕ → Result String Bytes) (cfg : PasswordConfig) (password : String)
    (salt : Bytes)
    → IsArgon2 lib
    → IsUsable cfg
    → random cfg.salt_length ≡ ok salt
    → length salt ≡ cfg.salt_length
    → IsBytes salt
    → (encoded : String) × (hash_password_with_config lib random password cfg ≡ ok encoded)
      × (verify_password lib password encoded ≡ ok true)
      × ((other : String)
          → (same : Bool) × (verify_password lib other encoded ≡ ok same)
            × ((same ≡ true) ↔ (
                lib.id_key
                  (utf8 other)
                  salt
                  cfg.iterations
                  cfg.memory
                  cfg.parallelism
                  cfg.key_length
                ≡ lib.id_key
                    (utf8 password)
                    salt
                    cfg.iterations
                    cfg.memory
                    cfg.parallelism
                    cfg.key_length)))
unfolding hash_password_with_config
verify_password-hash lib random cfg password salt is_lib usable drawn sized salt_bytes =
    let (hash, made, hash_bytes, keyed) =
      is_lib.gives_key (utf8 password) salt cfg.iterations cfg.memory cfg.parallelism cfg.key_length
        usable.some_iterations usable.some_parallelism usable.some_key in
    let compares = λ (other : String) (key : Bytes).
      verify_password-encode_hash lib cfg other salt hash key is_lib usable salt_bytes hash_bytes
        sized keyed in
    (
      encode_hash lib hash salt cfg,
      ground (arith, drawn, made),
      compares password hash made ∙ ap ok ((eq_bytes_iff hash hash).1 refl),
      λ other.
          let (key, derived, _, _) =
            is_lib.gives_key (utf8 other) salt cfg.iterations cfg.memory cfg.parallelism
              cfg.key_length usable.some_iterations usable.some_parallelism usable.some_key in
          (
            eq_bytes hash key,
            compares other key derived,
            (
              λ same. derived ∙ ap some (sym ((eq_bytes_iff hash key).0 same)) ∙ sym made,
              λ e. (eq_bytes_iff hash key).1 (some-injective (sym made ∙ sym e ∙ derived)),
            ),
          ),
    )

-- A PHC text that asks for no iterations or no parallelism is well formed to `decodeHash`, and
-- verifying any password against it panics in Argon2 instead of answering that the text is invalid.
pub verify_password-panics :
    (lib : Argon2) (cfg : PasswordConfig) (password : String) (salt hash : Bytes)
    → IsArgon2 lib
    → IsConfig cfg
    → IsBytes salt
    → IsBytes hash
    → (cfg.iterations ≡ 0) ⊎ (cfg.parallelism ≡ 0)
    → verify_password lib password (encode_hash lib hash salt cfg) ≡ err panics
unfolding verify_password config_of
verify_password-panics lib cfg password salt hash is_lib fits sb hb zero_field =
    let d = config_of cfg.memory cfg.iterations cfg.parallelism salt hash in
    ground (
      arith,
      decode_hash-encode_hash lib hash salt cfg hb sb fits is_lib.version_fits,
      is_lib.panics_without (utf8 password) salt d.iterations d.memory d.parallelism d.key_length
          zero_field,
    )
