-- ===== src/Otp/Code.antt =====
-- otp/totp.go: a code has its number of digits, and none of the steps to it panics.
use Prim.Native.Char.{Char}
use api_security_sdk.Common.{
  ℕ, zero, suc, ◌+◌, ◌-◌, ◌*◌, ◌%◌, ◌^◌, ◌<◌, ◌≡◌, refl, ap, ◌∙◌, String, true, some, [], ◌∷◌, ok,
  length, length-append, All, All-append, All-imp, show_ℕ, arith,
}
use native.Mathlib.Nat.{mod-lt, one-le-pow}
use api_security_sdk.Common.Bytes.{Bytes, codes, codes-append, utf8, utf8-ascii}
use api_security_sdk.Common.Decimal.{is_digit}
use api_security_sdk.Common.Decimal.RoundTrip.{All-show, length-show}
use api_security_sdk.Otp.{
  IsMac, repeat_char, decode_secret, big_endian, byte_at, bits_31, truncate, pow_10, pad_zeros,
  print_code, generate_hotp,
}

abbrev pub AllDigits : String → Type 0
AllDigits s = All (λ c. is_digit c ≡ true) (codes s)

AllDigits-zeros : (k : ℕ) → AllDigits (repeat_char "0" k)
unfolding repeat_char
AllDigits-zeros zero = tt
AllDigits-zeros (suc k) = (refl, AllDigits-zeros k)

length-zeros : (k : ℕ) → length (codes (repeat_char "0" k)) ≡ k
unfolding repeat_char
length-zeros zero = refl
length-zeros (suc k) = omega (arith, length-zeros k)

pub utf8-digits : (s : String) → AllDigits s → utf8 s ≡ codes s
utf8-digits s h =
    utf8-ascii s (All-imp {P = λ c. is_digit c ≡ true} (λ c d. ground arith) (codes s) h)

pub pad_zeros-AllDigits : (width n : ℕ) → AllDigits (pad_zeros width n)
unfolding pad_zeros
pad_zeros-AllDigits width n =
    let k = width - length (utf8 (show_ℕ n)) in
    rw (codes-append (repeat_char "0" k) (show_ℕ n)) (
      All-append (λ c. is_digit c ≡ true) (codes (repeat_char "0" k)) (codes (show_ℕ n))
        (AllDigits-zeros k) (All-show n))

pub length-pad_zeros :
    (width n : ℕ) → n < 10 ^ suc width → length (utf8 (pad_zeros (suc width) n)) ≡ suc width
unfolding pad_zeros
length-pad_zeros width n small =
    let plain = utf8-digits (show_ℕ n) (All-show n) in
    let k = suc width - length (utf8 (show_ℕ n)) in
    let whole = utf8-digits (pad_zeros (suc width) n) (pad_zeros-AllDigits (suc width) n) in
    rw whole rw (codes-append (repeat_char "0" k) (show_ℕ n)) omega (
      arith,
      length-append (codes (repeat_char "0" k)) (codes (show_ℕ n)),
      length-zeros k,
      ap length plain,
      length-show width n small,
    )

byte_at-some : (h : Bytes) (i : ℕ) → i < length h → (b : ℕ) × (byte_at h i ≡ some b)
unfolding byte_at
byte_at-some [] i lt = absurd (omega arith)
byte_at-some (b ∷ bs) zero lt = (b, refl)
byte_at-some (b ∷ bs) (suc i) lt = byte_at-some bs i (omega arith)

truncate-some : (h : Bytes) → length h ≡ 20 → (n : ℕ) × (truncate h ≡ some n)
unfolding truncate bits_31
truncate-some h size =
    let (last, found) = byte_at-some h (length h - 1) (omega arith) in
    let offset = last % 16 in
    let (a, at_a) = byte_at-some h offset (omega arith) in
    let (b, at_b) = byte_at-some h (offset + 1) (omega arith) in
    let (c, at_c) = byte_at-some h (offset + 2) (omega arith) in
    let (d, at_d) = byte_at-some h (offset + 3) (omega arith) in
    (a % 128 * 2 ^ 24 + b * 2 ^ 16 + c * 2 ^ 8 + d, ground arith)

module _ (mac : Bytes → Bytes → Bytes) (is_mac : IsMac mac) (wide : ℕ → ℕ)
    (upper : Char → Char) where
  print_code-ok :
      (width n : ℕ)
      → width < 9
      → print_code mac wide upper (suc width) n ≡ ok (pad_zeros (suc width) (n % 10 ^ suc width))
  unfolding print_code
  print_code-ok width n small =
      let sized : pow_10 wide (suc width) ≡ 10 ^ suc width = ground arith in
      let positive = one-le-pow (suc width) 10 (omega arith) in rw sized ground (arith, positive)

  generate_hotp-print_code :
      (secret : String) (key : Bytes) (counter digits n : ℕ)
      → decode_secret upper secret ≡ some key
      → truncate (mac key (big_endian 8 counter)) ≡ some n
      → generate_hotp mac wide upper secret counter digits ≡ print_code mac wide upper digits n
  unfolding generate_hotp
  generate_hotp-print_code secret key counter digits n decoded truncated = ground arith

  -- With a secret that is base32 and one to nine digits, a code is made for every counter: no index
  -- is out of range and no remainder is taken by zero. It has that many bytes, all of them digits.
  pub generate_hotp-total :
      (secret : String) (key : Bytes) (counter width : ℕ)
      → decode_secret upper secret ≡ some key
      → width < 9
      → (code : String) × (generate_hotp mac wide upper secret counter (suc width) ≡ ok code)
        × (length (utf8 code) ≡ suc width)
        × AllDigits code
  generate_hotp-total secret key counter width decoded small =
      let message = big_endian 8 counter in
      let (n, truncated) = truncate-some (mac key message) (is_mac.digest_length key message) in
      let code = pad_zeros (suc width) (n % 10 ^ suc width) in
      (
        code,
        generate_hotp-print_code secret key counter (suc width) n decoded truncated
            ∙ print_code-ok width n small,
        length-pad_zeros width (n % 10 ^ suc width)
            (mod-lt n (one-le-pow (suc width) 10 (omega arith))),
        pad_zeros-AllDigits (suc width) (n % 10 ^ suc width),
      )
