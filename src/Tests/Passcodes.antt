-- ===== src/Tests/Passcodes.antt =====
-- otp: codes of a digest that is the same for every step but one byte.
use Prim.Native.Char.{Char}
use api_security_sdk.Common.{
  Result, suc, zero, [], ◌∷◌, ℕ, ◌%◌, ◌<◌, ◌≡◌, ◌↔◌, refl, String, true, some, ok, err, arith,
}
use api_security_sdk.Common.Int.{pos}
use api_security_sdk.Common.Bytes.{Bytes, IsBytes, utf8}
use api_security_sdk.Common.Base32.{decode_base32}
use api_security_sdk.Common.Decimal.{trim_space}
use api_security_sdk.Otp.{
  new_secret, IsMac, invalid_code, decode_secret, counter_for, first_step, generate_at, verify,
  verify_filled,
}
use api_security_sdk.Otp.Secret.{verify-new_secret}
use api_security_sdk.Otp.Window.{Candidate, verify_filled_iff, verify-generate_at}

abbrev zeros : ℕ → Bytes
zeros zero = []
zeros (suc n) = 0 ∷ zeros n

abbrev last_byte : Bytes → ℕ
last_byte [] = 0
last_byte (b ∷ []) = b % 256
last_byte (b ∷ c ∷ bs) = last_byte (c ∷ bs)

-- The last byte of the message, in the fourth place.
abbrev digest : Bytes → Bytes → Bytes
digest key message = 0 ∷ 0 ∷ 0 ∷ last_byte message ∷ zeros 16

last_byte_small : (message : Bytes) → last_byte message < 256
last_byte_small [] = omega arith
last_byte_small (b ∷ []) = omega arith
last_byte_small (b ∷ c ∷ bs) = last_byte_small (c ∷ bs)

digest_IsMac : IsMac digest
digest_IsMac = record {
  digest_bytes = λ key message. ground (arith, last_byte_small message);
  digest_length = λ key message. refl;
}

abbrev wide : ℕ → ℕ
wide n = 0

abbrev upper : Char → Char
upper c = c

abbrev key : Bytes
key = b'H' ∷ b'e' ∷ b'l' ∷ b'l' ∷ b'o' ∷ []

decoded : decode_secret upper " jbswy3dp" ≡ some key
unfolding decode_secret decode_base32 trim_space
decoded = refl

verify_filled_iff_example :
    ((verify_filled digest wide upper " jbswy3dp" "000200"
          (record { digits = pos 6; period = 30; skew = 1 })
          (pos 6000)
        ≡ ok true)
      ↔ Candidate digest digest_IsMac wide upper " jbswy3dp" key decoded 5
          (omega arith)
          "000200"
          (first_step (counter_for (pos 6000) 30) 1)
          3)
    × ((verify_filled digest wide upper " jbswy3dp" "000200"
            (record { digits = pos 6; period = 30; skew = 1 })
            (pos 6000)
          ≡ err invalid_code)
        ↔ ¬ Candidate digest digest_IsMac wide upper " jbswy3dp" key decoded 5
            (omega arith)
            "000200"
            (first_step (counter_for (pos 6000) 30) 1)
            3)
unfolding utf8
verify_filled_iff_example =
    verify_filled_iff digest digest_IsMac wide upper " jbswy3dp" key decoded 5 (omega arith)
      "000200" (record { digits = pos 6; period = 30; skew = 1 }) (pos 6000) refl refl

verify-generate_at_example :
    (code : String) × (generate_at digest wide upper " jbswy3dp" (pos 1_700_000_000) ≡ ok code)
    × (verify digest wide upper " jbswy3dp" code (pos 1_700_000_029) ≡ ok true)
verify-generate_at_example =
    verify-generate_at digest digest_IsMac wide upper " jbswy3dp" key 1_700_000_000 1_700_000_029
      decoded (omega arith) (omega arith) (omega arith) (omega arith)

zeros-IsBytes : (n : ℕ) → IsBytes (zeros n)
zeros-IsBytes zero = tt
zeros-IsBytes (suc n) = (omega arith, zeros-IsBytes n)

abbrev random : ℕ → Result String Bytes
random n = ok (zeros n)

verify-new_secret_example :
    (secret code : String) × (new_secret random ≡ ok secret)
    × (generate_at digest wide upper secret (pos 1_700_000_000) ≡ ok code)
    × (verify digest wide upper secret code (pos 1_700_000_029) ≡ ok true)
verify-new_secret_example =
    verify-new_secret digest digest_IsMac wide upper random (zeros 20) 1_700_000_000 1_700_000_029
      refl (zeros-IsBytes 20) refl (omega arith) (omega arith) (omega arith) (omega arith)
