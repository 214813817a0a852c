-- ===== src/Otp/Secret.antt =====
-- otp/totp.go: the secrets of NewSecret are read back as the random bytes, and their codes verify.
use Prim.Native.Char.{Char, code}
use api_security_sdk.Common.{
  ℕ, ◌+◌, ◌*◌, ◌^◌, ◌≡◌, ◌<◌, ◌≤◌, refl, ap, ◌∙◌, String, true, some, List, [], ◌∷◌, Result, ok,
  length, arith, All,
}
use api_security_sdk.Common.Int.{pos}
use api_security_sdk.Common.Bytes.{Bytes, IsBytes, codes, utf8, utf8-ascii}
use api_security_sdk.Common.Base32.{encode_base32}
use api_security_sdk.Common.Base32.RoundTrip.{
  spell, quintets, IsGroups, length-IsGroups, IsQuintet, All-quintets, encode_base32-spell, letter,
  decode-encode_base32,
}
use api_security_sdk.Common.Decimal.RoundTrip.{IsPlain, trim_space-plain}
use api_security_sdk.Otp.{
  IsMac, new_secret, to_upper, pad_secret, decode_secret, secret_bytes, generate_at, verify,
}
use api_security_sdk.Otp.Window.{verify-generate_at}

spell-IsPlain : (vs : List ℕ) → All IsQuintet vs → All IsPlain (codes (spell vs))
unfolding spell
spell-IsPlain [] _ = tt
spell-IsPlain (v ∷ vs) (h, rest) =
    let l = letter v h in ((l.no_space, ground (arith, l.no_line)), spell-IsPlain vs rest)

spell-ascii : (vs : List ℕ) → All IsQuintet vs → All (λ c. c < 128) (codes (spell vs))
unfolding spell
spell-ascii [] _ = tt
spell-ascii (v ∷ vs) (h, rest) = (omega (arith, (letter v h).upper_case), spell-ascii vs rest)

to_upper-spell :
    (upper : Char → Char) (vs : List ℕ) → All IsQuintet vs → to_upper upper (spell vs) ≡ spell vs
unfolding to_upper spell
to_upper-spell upper [] _ = refl
to_upper-spell upper (v ∷ vs) (h, rest) =
    ground (arith, (letter v h).upper_case, to_upper-spell upper vs rest)

-- The text of whole groups has whole groups of eight characters.
length-spell : (bs : Bytes) → IsGroups bs → (j : ℕ) × (length (codes (spell (quintets bs))) ≡ 8 * j)
unfolding spell quintets IsGroups
length-spell [] _ = (0, refl)
length-spell (a ∷ []) none' = absurd none'
length-spell (a ∷ b ∷ []) none' = absurd none'
length-spell (a ∷ b ∷ c ∷ []) none' = absurd none'
length-spell (a ∷ b ∷ c ∷ d ∷ []) none' = absurd none'
length-spell (a ∷ b ∷ c ∷ d ∷ e ∷ rest) whole =
    let (j, size) = length-spell rest whole in (j + 1, omega (arith, size))

pad_secret-whole : (s : String) (j : ℕ) → length (utf8 s) ≡ 8 * j → pad_secret s ≡ s
unfolding pad_secret
pad_secret-whole s j size = ground (arith, size)

-- A secret is read back as its bytes, which are whole groups of five.
decode_secret-encode_base32 :
    (upper : Char → Char) (bs : Bytes)
    → IsBytes bs
    → IsGroups bs
    → decode_secret upper (encode_base32 bs) ≡ some bs
unfolding decode_secret
decode_secret-encode_base32 upper bs h whole =
    let vs = quintets bs in
    let small = All-quintets bs h whole in
    let (j, size) = length-spell bs whole in
    let ascii = utf8-ascii (spell vs) (spell-ascii vs small) in
    let padded = pad_secret-whole (spell vs) j (ap length ascii ∙ size) in
    rw (encode_base32-spell bs whole) rw (to_upper-spell upper vs small) rw
      (trim_space-plain (spell vs) (spell-IsPlain vs small)) rw padded rw ascii
      (rw (← encode_base32-spell bs whole) (decode-encode_base32 bs h whole))

-- With a MAC whose digests are twenty bytes and a random source that gives twenty bytes, `NewSecret`
-- makes a secret, `GenerateAt` makes a code of it, and `Verify` accepts the code at every time from
-- thirty seconds before to thirty seconds after.
pub verify-new_secret :
    (mac : Bytes → Bytes → Bytes) (is_mac : IsMac mac) (wide : ℕ → ℕ) (upper : Char → Char)
    (random : ℕ → Result String Bytes) (bytes : Bytes) (made now : ℕ)
    → random secret_bytes ≡ ok bytes
    → IsBytes bytes
    → length bytes ≡ secret_bytes
    → made < 2 ^ 63
    → now < 2 ^ 63
    → now ≤ made + 30
    → made ≤ now + 30
    → (secret code : String) × (new_secret random ≡ ok secret)
      × (generate_at mac wide upper secret (pos made) ≡ ok code)
      × (verify mac wide upper secret code (pos now) ≡ ok true)
unfolding new_secret
verify-new_secret mac is_mac wide upper random bytes made now drawn h size fits fits' late early =
    let whole = length-IsGroups 4 bytes (omega (arith, size)) in
    let decoded = decode_secret-encode_base32 upper bytes h whole in
    let (code, at, verified) =
      verify-generate_at mac is_mac wide upper (encode_base32 bytes) bytes made now decoded fits
        fits' late early in
    (encode_base32 bytes, code, ground (arith, drawn), at, verified)
