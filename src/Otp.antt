-- ===== src/Otp.antt =====
-- otp/totp.go: time-based one-time passwords.
-- HMAC-SHA1 is the argument `mac`, of a key and a message; `wide` is what the conversion of 10^n to
-- a uint32 gives from n = 10 on, which Go leaves to the machine; `upper` is Unicode's upper case of a
-- character above ASCII. A time is a number of seconds, and a panic is the error `panics`. A code is
-- shorter than the million characters that `fmt` pads to, and a skew below 2^63 - 1.
pub mod Code
pub mod Window
pub mod Uri
pub mod Secret
use Prim.Native.Char.{Char, code}
use Prim.Native.String
use api_security_sdk.Common.{
  ℕ, zero, suc, ◌+◌, ◌-◌, ◌*◌, ◌/◌, ◌%◌, ◌^◌, ◌≡◌, String, ◌<>◌, Bool, true, false, ◌&&◌, ◌==◌,
  Option, none, some, List, [], ◌∷◌, Result, ok, err, ltb, leb, eqb, length, show_ℕ, char_at?,
  if◌then◌else◌,
}
use api_security_sdk.Common.Int.{ℤ, pos, negsuc}
use api_security_sdk.Common.Bytes.{Bytes, IsBytes, utf8}
use api_security_sdk.Common.Base32.{encode_base32, decode_base32}
use api_security_sdk.Common.Decimal.{trim_space}

-- What the code relies on of HMAC-SHA1: a digest is 20 bytes.
pub record IsMac (mac : Bytes → Bytes → Bytes) : Type 0 where
  pub digest_bytes : (key message : Bytes) → IsBytes (mac key message)
  pub digest_length : (key message : Bytes) → length (mac key message) ≡ 20

-- ErrInvalidCode, a secret that is not base32, a failed random source, and a panic.
pub data Error : Type 0 where
  invalid_code invalid_secret panics : Error
  random_failed : String → Error

abbrev pub default_digits : ℕ
default_digits = 6

abbrev pub default_period : ℕ
default_period = 30

abbrev pub default_skew : ℕ
default_skew = 1

abbrev pub secret_bytes : ℕ
secret_bytes = 20

-- `NewSecret`, with the outcome of the random source for that many bytes.
unfoldable pub new_secret : (ℕ → Result String Bytes) → Result Error String
new_secret random = elim (random secret_bytes) [
  | err e ↦ err (random_failed e)
  | ok bytes ↦ ok (encode_base32 bytes)
]

-- The upper case of an ASCII character.
abbrev upper_ascii : Char → Char
upper_ascii c =
    if leb b'a' (code c)
    then elim (char_at? "ABCDEFGHIJKLMNOPQRSTUVWXYZ" (code c - b'a')) [ none ↦ c | some u ↦ u ]
    else c

-- `strings.ToUpper`
unfoldable pub to_upper : (Char → Char) → String → String
to_upper upper String.[] = ""
to_upper upper (String.◌∷◌ c s) =
    String.◌∷◌ (if ltb (code c) 128 then upper_ascii c else upper c) (to_upper upper s)

-- `strings.Repeat` of one character.
unfoldable pub repeat_char : Char → ℕ → String
repeat_char c zero = ""
repeat_char c (suc n) = String.◌∷◌ c (repeat_char c n)

-- Up to seven characters, to a multiple of eight bytes.
unfoldable pub pad_secret : String → String
unfolding repeat_char utf8
pad_secret s =
    if eqb (length (utf8 s) % 8) 0 then s else s <> repeat_char "=" (8 - length (utf8 s) % 8)

unfoldable pub decode_secret : (Char → Char) → String → Option Bytes
unfolding to_upper pad_secret
decode_secret upper secret = decode_base32 (utf8 (pad_secret (trim_space (to_upper upper secret))))

-- The `n` lower bytes of a number, the highest first: `binary.BigEndian.PutUint64` for n = 8.
unfoldable pub big_endian : ℕ → ℕ → Bytes
big_endian zero n = []
big_endian (suc k) n = n / 256 ^ k % 256 ∷ big_endian k n

-- `uint64(i)` of an int64.
abbrev pub to_uint_64 : ℤ → ℕ
to_uint_64 (pos n) = n
to_uint_64 (negsuc n) = 2 ^ 64 - 1 - n

unfoldable pub counter_for : ℤ → ℕ → ℕ
counter_for unix period = to_uint_64 unix / period

-- `b[i]`
unfoldable pub byte_at : Bytes → ℕ → Option ℕ
byte_at [] i = none
byte_at (b ∷ bs) zero = some b
byte_at (b ∷ bs) (suc i) = byte_at bs i

-- The four bytes at an offset as a number of 31 bits.
unfoldable pub bits_31 : Bytes → ℕ → Option ℕ
unfolding byte_at
bits_31 h offset = elim (byte_at h offset) [
  | none ↦ none
  | some a ↦ elim (byte_at h (offset + 1)) [
    | none ↦ none
    | some b ↦ elim (byte_at h (offset + 2)) [
      | none ↦ none
      | some c ↦ elim (byte_at h (offset + 3)) [
        | none ↦ none
        | some d ↦ some (a % 128 * 2 ^ 24 + b * 2 ^ 16 + c * 2 ^ 8 + d)
      ]
    ]
  ]
]

-- Dynamic truncation: the lower half of the last byte is the offset. None is an index out of range.
unfoldable pub truncate : Bytes → Option ℕ
unfolding byte_at bits_31
truncate h =
    if eqb (length h) 0
    then none
    else elim (byte_at h (length h - 1)) [ none ↦ none | some last ↦ bits_31 h (last % 16) ]

-- `uint32(math.Pow10(digits))`
abbrev pub pow_10 : (ℕ → ℕ) → ℕ → ℕ
pow_10 wide digits = if ltb digits 10 then 10 ^ digits else wide digits

-- `fmt.Sprintf("%0*d", width, n)`
unfoldable pub pad_zeros : ℕ → ℕ → String
unfolding repeat_char utf8
pad_zeros width n = repeat_char "0" (width - length (utf8 (show_ℕ n))) <> show_ℕ n

abbrev is_zero : ℤ → Bool
is_zero (pos n) = eqb n 0
is_zero (negsuc n) = false

pub record VerifyOptions : Type 0 where
  pub digits : ℤ
  pub period : ℕ
  pub skew : ℕ

-- The defaults of `VerifyWithOptions`.
unfoldable pub fill_defaults : VerifyOptions → VerifyOptions
fill_defaults o = record {
  digits = if is_zero o.digits then pos default_digits else o.digits;
  period = if eqb o.period 0 then default_period else o.period;
  skew = if eqb o.skew 0 then default_skew else o.skew;
}

-- `uint64(int64(counter) - int64(skew))`
abbrev pub first_step : ℕ → ℕ → ℕ
first_step counter skew = (counter + (2 ^ 64 - skew)) % 2 ^ 64

module _ (mac : Bytes → Bytes → Bytes) (wide : ℕ → ℕ) (upper : Char → Char) where
  -- The end of `generateHOTP`: a remainder by zero panics.
  unfoldable pub print_code : ℕ → ℕ → Result Error String
  print_code digits n =
      if eqb (pow_10 wide digits) 0
      then err panics
      else ok (pad_zeros digits (n % pow_10 wide digits))

  unfoldable pub generate_hotp : String → ℕ → ℕ → Result Error String
  generate_hotp secret counter digits = elim (decode_secret upper secret) [
    | none ↦ err invalid_secret
    | some key ↦ elim (truncate (mac key (big_endian 8 counter))) [
      | none ↦ err panics
      | some n ↦ print_code digits n
    ]
  ]

  unfoldable pub generate_at : String → ℤ → Result Error String
  generate_at secret unix = generate_hotp secret (counter_for unix default_period) default_digits

  -- `Generate`, at the time of the clock.
  unfoldable pub generate : String → ℤ → Result Error String
  generate secret now = generate_at secret now

  -- The loop over the steps that are left, from the step `counter` on.
  unfoldable pub try_steps : String → String → ℕ → ℕ → ℕ → Result Error Bool
  try_steps secret code digits counter zero = err invalid_code
  try_steps secret code digits counter (suc n) =
      let rest = try_steps secret code digits ((counter + 1) % 2 ^ 64) n in
      elim (generate_hotp secret counter digits) [
        | err e ↦ err e
        | ok candidate ↦ if candidate == code then ok true else rest
      ]

  -- `VerifyWithOptions` with the defaults filled in.
  unfoldable pub verify_filled : String → String → VerifyOptions → ℤ → Result Error Bool
  verify_filled secret code o unix = elim o.digits [
    | negsuc _ ↦ err invalid_code
    | pos digits ↦
        if eqb (length (utf8 code)) digits
        then try_steps secret code digits (first_step (counter_for unix o.period) o.skew)
            (2 * o.skew + 1)
        else err invalid_code
  ]

  unfoldable pub verify_with_options : String → String → VerifyOptions → ℤ → Result Error Bool
  verify_with_options secret code o unix =
      verify_filled secret (trim_space code) (fill_defaults o) unix

  unfoldable pub verify : String → String → ℤ → Result Error Bool
  verify secret code unix =
      verify_with_options secret code (record { digits = pos 0; period = 0; skew = 0 }) unix
