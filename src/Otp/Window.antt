-- ===== src/Otp/Window.antt =====
-- otp/totp.go: which codes are accepted, and that a code is accepted for a step after it was made.
use Prim.Native.Char.{Char}
use api_security_sdk.Common.{
  ℕ, zero, suc, ◌+◌, ◌-◌, ◌*◌, ◌/◌, ◌%◌, ◌^◌, ◌≤◌, ◌<◌, ◌≡◌, ◌↔◌, ◌⊎◌, refl, ap, ◌∙◌, String, true,
  ◌==◌, some, ok, err, length, All-imp, eq_iff, arith, Bool-cases, inl, inr,
}
use api_security_sdk.Common.Int.{ℤ, pos}
use api_security_sdk.Common.Bytes.{Bytes, codes, utf8}
use api_security_sdk.Common.Decimal.RoundTrip.{digit-IsPlain, trim_space-plain}
use api_security_sdk.Otp.{
  IsMac, invalid_code, decode_secret, counter_for, first_step, generate_hotp, generate_at,
  try_steps, VerifyOptions, fill_defaults, verify_filled, verify_with_options, verify,
}
use api_security_sdk.Otp.Code.{generate_hotp-total}

module _ (mac : Bytes → Bytes → Bytes) (is_mac : IsMac mac) (wide : ℕ → ℕ) (upper : Char → Char)
    (secret : String) (key : Bytes) (decoded : decode_secret upper secret ≡ some key) (width : ℕ)
    (small : width < 9) where
  abbrev pub Candidate : String → ℕ → ℕ → Type 0
  Candidate code counter n =
      (k : ℕ) × (k < n)
      × (generate_hotp mac wide upper secret ((counter + k) % 2 ^ 64) (suc width) ≡ ok code)

  Candidate-cons :
      (code : String) (counter n : ℕ)
      → counter < 2 ^ 64
      → Candidate code counter (suc n)
      → (generate_hotp mac wide upper secret counter (suc width) ≡ ok code)
        ⊎ Candidate code ((counter + 1) % 2 ^ 64) n
  Candidate-cons code counter n fits (zero, below, at) =
      let first : (counter + 0) % 2 ^ 64 ≡ counter = omega arith in inl (rw first at at)
  Candidate-cons code counter n fits (suc k, below, at) =
      let shift : (counter + suc k) % 2 ^ 64 ≡ ((counter + 1) % 2 ^ 64 + k) % 2 ^ 64 =
        omega arith in
      inr (k, omega (arith, below), rw shift at at)

  try_steps_cases :
      (code : String) (counter n : ℕ)
      → counter < 2 ^ 64
      → ((try_steps mac wide upper secret code (suc width) counter n ≡ ok true)
          × Candidate code counter n)
        ⊎ ((try_steps mac wide upper secret code (suc width) counter n ≡ err invalid_code)
            × ¬ Candidate code counter n)
  unfolding try_steps
  try_steps_cases code counter zero fits =
      inr (refl, λ (k, below, _). absurd (omega (arith, below)))
  try_steps_cases code counter (suc n) fits =
      let next = (counter + 1) % 2 ^ 64 in
      let first : (counter + 0) % 2 ^ 64 ≡ counter = omega arith in
      let (candidate, made, _, _) =
        generate_hotp-total mac is_mac wide upper secret key counter width decoded small in
      elim (Bool-cases (candidate == code)) [
        | inl same ↦
            let at : generate_hotp mac wide upper secret counter (suc width) ≡ ok code =
              made ∙ ap ok ((eq_iff candidate code).0 same) in
            inl (ground arith, (0, omega arith, rw first at))
        | inr other ↦ elim (try_steps_cases code next n (omega arith)) [
          | inl (found, (k, below, at)) ↦
              let shift : (counter + suc k) % 2 ^ 64 ≡ (next + k) % 2 ^ 64 = omega arith in
              inl (ground arith, (suc k, omega arith, rw shift at))
          | inr (missed, no_candidate) ↦ inr (
            ground arith,
            λ c. elim (Candidate-cons code counter n fits c) [
              | inl at ↦ absurd (ground (arith, made, at, eq_iff candidate code))
              | inr c' ↦ no_candidate c'
            ],
          )
        ]
      ]

  -- The loop of a window around a counter.
  Candidate-near :
      (code : String) (counter skew made : ℕ)
      → counter < 2 ^ 64
      → made < 2 ^ 64
      → skew < 2 ^ 63
      → made ≤ counter + skew
      → counter ≤ made + skew
      → generate_hotp mac wide upper secret made (suc width) ≡ ok code
      → Candidate code (first_step counter skew) (2 * skew + 1)
  Candidate-near code counter skew made fits fits' few above below at =
      let same : ((counter + (2 ^ 64 - skew)) % 2 ^ 64 + (made + skew - counter)) % 2 ^ 64 ≡ made =
        omega arith in
      (made + skew - counter, omega arith, rw same at)

  -- `VerifyWithOptions`, the defaults filled in, with one to nine digits and a base32 secret, answers
  -- for a text of that many bytes: true exactly if the text is the code of one of the 2 * skew + 1
  -- steps around the time's step, counted modulo 2^64, and else ErrInvalidCode.
  pub verify_filled_iff :
      (code : String) (o : VerifyOptions) (unix : ℤ)
      → o.digits ≡ pos (suc width)
      → length (utf8 code) ≡ suc width
      → ((verify_filled mac wide upper secret code o unix ≡ ok true)
          ↔ Candidate code (first_step (counter_for unix o.period) o.skew) (2 * o.skew + 1))
        × ((verify_filled mac wide upper secret code o unix ≡ err invalid_code)
            ↔ ¬ Candidate code (first_step (counter_for unix o.period) o.skew) (2 * o.skew + 1))
  unfolding verify_filled
  verify_filled_iff code o unix digits size =
      let first = first_step (counter_for unix o.period) o.skew in
      let runs : verify_filled mac wide upper secret code o unix
          ≡ try_steps mac wide upper secret code (suc width) first (2 * o.skew + 1) =
        ground (arith, digits, size) in
      elim (try_steps_cases code first (2 * o.skew + 1) (omega arith)) [
        | inl (found, c) ↦ (
          (λ _. c, λ _. runs ∙ found),
          (λ e. absurd (ground (arith, runs, found, e)), λ none_fits. absurd (none_fits c)),
        )
        | inr (missed, no_candidate) ↦ (
          (λ e. absurd (ground (arith, runs, missed, e)), λ c. absurd (no_candidate c)),
          (λ _. no_candidate, λ _. runs ∙ missed),
        )
      ]

-- With a base32 secret, `GenerateAt` makes a code, and `Verify` accepts it at every time from thirty
-- seconds before to thirty seconds after.
pub verify-generate_at :
    (mac : Bytes → Bytes → Bytes) (is_mac : IsMac mac) (wide : ℕ → ℕ) (upper : Char → Char)
    (secret : String) (key : Bytes) (made now : ℕ)
    → decode_secret upper secret ≡ some key
    → made < 2 ^ 63
    → now < 2 ^ 63
    → now ≤ made + 30
    → made ≤ now + 30
    → (code : String) × (generate_at mac wide upper secret (pos made) ≡ ok code)
      × (verify mac wide upper secret code (pos now) ≡ ok true)
unfolding generate_at verify verify_with_options fill_defaults counter_for
verify-generate_at mac is_mac wide upper secret key made now decoded fits fits' late early =
    let (code, at, size, digits) =
      generate_hotp-total mac is_mac wide upper secret key (made / 30) 5 decoded (omega arith) in
    let o : VerifyOptions = record { digits = pos 6; period = 30; skew = 1 } in
    let plain = trim_space-plain code (All-imp digit-IsPlain (codes code) digits) in
    let near =
      Candidate-near mac is_mac wide upper secret key decoded 5 (omega arith) code (now / 30) 1
        (made / 30) (omega arith) (omega arith) (omega arith) (omega arith) (omega arith) at in
    (
      code,
      at,
      rw plain (
          (verify_filled_iff mac is_mac wide upper secret key decoded 5 (omega arith) code o
              (pos now) refl size).0.1
            near),
    )
