-- ===== src/Crypto/Phc.antt =====
-- crypto/password.go: a hash is read back from its PHC text.
use api_security_sdk.Common.{
  ℕ, ◌^◌, ◌≡◌, ◌<◌, refl, ap, ◌∙◌, String, true, false, some, [], ◌∷◌, ◌++◌, ok, eqb, show_ℕ, arith,
  All, All-append, All-imp,
}
use mathlib.Core.List.{append_assoc, append-nil}
use api_security_sdk.Common.Bytes.{Bytes, IsBytes, codes, codes-append}
use api_security_sdk.Common.Base64.{encode_base64_std}
use api_security_sdk.Common.Base64.RoundTrip.{decode-encode_base64_std, encode_base64_std-plain}
use api_security_sdk.Common.Decimal.{is_digit}
use api_security_sdk.Common.Decimal.RoundTrip.{All-show}
use api_security_sdk.Common.Scan.{split}
use api_security_sdk.Common.Scan.RoundTrip.{
  split-append, split-last, scan_literal-append, Stops, scan_uint-show, scan_int-show,
}
use api_security_sdk.Crypto.Password.{
  PasswordConfig, Argon2, encode_hash, scans_version, scan_field, scan_params, config_of,
  decode_parts, decode_six, decode_hash,
}

-- The fields of a configuration are machine integers.
pub record IsConfig (cfg : PasswordConfig) : Type 0 where
  pub memory_fits : cfg.memory < 2 ^ 32
  pub iterations_fit : cfg.iterations < 2 ^ 32
  pub parallelism_fits : cfg.parallelism < 2 ^ 8

abbrev Plain : Bytes → Type 0
Plain = All (λ c. eqb c b'$' ≡ false)

digits-Plain : (n : ℕ) → Plain (codes (show_ℕ n))
digits-Plain n =
    All-imp {P = λ c. is_digit c ≡ true} (λ c h. ground arith) (codes (show_ℕ n)) (All-show n)

scan_field-show :
    (literal : String) (bits n : ℕ) (rest : Bytes)
    → n < 2 ^ bits
    → Stops rest
    → scan_field literal bits (codes literal ++ (codes (show_ℕ n) ++ rest)) ≡ some (n, rest)
unfolding scan_field
scan_field-show literal bits n rest small stops = ground (
  arith,
  scan_literal-append (codes literal) (codes (show_ℕ n) ++ rest),
  scan_uint-show bits n rest small stops,
)

-- The parts of a PHC text.
abbrev version_part : ℕ → Bytes
version_part v = codes "v=" ++ codes (show_ℕ v)

abbrev params_part : PasswordConfig → Bytes
params_part cfg =
    codes "m="
    ++ (codes (show_ℕ cfg.memory)
        ++ (codes ",t="
            ++ (codes (show_ℕ cfg.iterations) ++ (codes ",p=" ++ codes (show_ℕ cfg.parallelism)))))

scan_params-show :
    (cfg : PasswordConfig)
    → IsConfig cfg
    → scan_params (params_part cfg) ≡ some (cfg.memory, cfg.iterations, cfg.parallelism)
unfolding scan_params
scan_params-show cfg fits =
    let last = codes ",p=" ++ codes (show_ℕ cfg.parallelism) in
    let middle = codes ",t=" ++ (codes (show_ℕ cfg.iterations) ++ last) in
    ground (
      arith,
      scan_field-show "m=" 32 cfg.memory middle fits.memory_fits refl,
      scan_field-show ",t=" 32 cfg.iterations last fits.iterations_fit refl,
      scan_field-show ",p=" 8 cfg.parallelism [] fits.parallelism_fits tt,
      append-nil (codes (show_ℕ cfg.parallelism)),
    )

scans_version-show : (v : ℕ) → v < 2 ^ 63 → scans_version (version_part v) ≡ true
unfolding scans_version
scans_version-show v small =
    let none_behind = append-nil (codes (show_ℕ v)) in
    ground (
      arith,
      scan_literal-append (codes "v=") (codes (show_ℕ v)),
      none_behind,
      scan_int-show v [] small tt,
    )

-- The characters of a PHC text.
codes-encode_hash :
    (lib : Argon2) (hash salt : Bytes) (cfg : PasswordConfig)
    → codes (encode_hash lib hash salt cfg)
      ≡ b'$'
        ∷ (codes "argon2id"
            ++ b'$'
              ∷ (version_part lib.version
                  ++ b'$'
                    ∷ (params_part cfg
                        ++ b'$'
                          ∷ (codes (encode_base64_std salt)
                              ++ b'$' ∷ codes (encode_base64_std hash)))))
unfolding encode_hash
codes-encode_hash lib hash salt cfg = simp (codes-append, append_assoc)

version_part-Plain : (v : ℕ) → Plain (version_part v)
version_part-Plain v = (refl, (refl, digits-Plain v))

-- A literal without a dollar sign, a number and a plain text behind them.
field-Plain :
    (literal : String) (n : ℕ) (rest : Bytes)
    → Plain (codes literal)
    → Plain rest
    → Plain (codes literal ++ (codes (show_ℕ n) ++ rest))
field-Plain literal n rest plain more =
    All-append (λ c. eqb c b'$' ≡ false) (codes literal) (codes (show_ℕ n) ++ rest) plain
      (All-append (λ c. eqb c b'$' ≡ false) (codes (show_ℕ n)) rest (digits-Plain n) more)

params_part-Plain : (cfg : PasswordConfig) → Plain (params_part cfg)
params_part-Plain cfg =
    let last : Plain (codes ",p=" ++ codes (show_ℕ cfg.parallelism)) =
      (refl, (refl, (refl, digits-Plain cfg.parallelism))) in
    field-Plain "m=" cfg.memory _ (refl, (refl, tt))
      (field-Plain ",t=" cfg.iterations _ (refl, (refl, (refl, tt))) last)

module _ (lib : Argon2) where
  -- The six parts of a PHC text.
  split-encode_hash :
      (hash salt : Bytes) (cfg : PasswordConfig)
      → IsBytes hash
      → IsBytes salt
      → split b'$' (codes (encode_hash lib hash salt cfg))
        ≡ []
          ∷ codes "argon2id"
          ∷ version_part lib.version
          ∷ params_part cfg
          ∷ codes (encode_base64_std salt)
          ∷ codes (encode_base64_std hash)
          ∷ []
  split-encode_hash hash salt cfg bytes salt_bytes =
      let salt_text = codes (encode_base64_std salt) in
      let hash_text = codes (encode_base64_std hash) in
      let after_salt = hash_text in
      let name_plain : Plain (codes "argon2id") =
        (refl, (refl, (refl, (refl, (refl, (refl, (refl, (refl, tt)))))))) in
      let after_params = salt_text ++ b'$' ∷ after_salt in
      let after_version = params_part cfg ++ b'$' ∷ after_params in
      let after_name = version_part lib.version ++ b'$' ∷ after_version in
      rw (codes-encode_hash lib hash salt cfg) (
        split-append b'$' [] (codes "argon2id" ++ b'$' ∷ after_name) tt
        ∙ ap (λ ws. [] ∷ ws)
            (split-append b'$' (codes "argon2id") after_name name_plain
              ∙ ap (λ ws. codes "argon2id" ∷ ws)
                  (split-append b'$' (version_part lib.version) after_version
                      (version_part-Plain lib.version)
                    ∙ ap (λ ws. version_part lib.version ∷ ws)
                        (split-append b'$' (params_part cfg) after_params (params_part-Plain cfg)
                          ∙ ap (λ ws. params_part cfg ∷ ws)
                              (split-append b'$' salt_text after_salt
                                  (encode_base64_std-plain salt salt_bytes)
                                ∙ ap (λ ws. salt_text ∷ ws)
                                    (split-last b'$' hash_text
                                      (encode_base64_std-plain hash bytes)))))))

  -- A PHC text that `encodeHash` makes is decoded to the salt, the hash and the parameters, with the
  -- lengths of the salt and the hash.
  pub decode_hash-encode_hash :
      (hash salt : Bytes) (cfg : PasswordConfig)
      → IsBytes hash
      → IsBytes salt
      → IsConfig cfg
      → lib.version < 2 ^ 63
      → decode_hash (encode_hash lib hash salt cfg)
        ≡ ok (record {
          cfg = config_of cfg.memory cfg.iterations cfg.parallelism salt hash;
          salt = salt;
          hash = hash;
        })
  unfolding decode_hash decode_six decode_parts
  decode_hash-encode_hash hash salt cfg bytes salt_bytes fits version =
      ap decode_six (split-encode_hash hash salt cfg bytes salt_bytes)
      ∙ ground (
        arith,
        scans_version-show lib.version version,
        scan_params-show cfg fits,
        decode-encode_base64_std salt salt_bytes,
        decode-encode_base64_std hash bytes,
      )
