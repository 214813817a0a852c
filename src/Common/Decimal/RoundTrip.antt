-- ===== src/Common/Decimal/RoundTrip.antt =====
-- strconv: a number is read back from its print, which has no space and no line break.
use Prim.Native.Nat.{ℕ, zero, suc, ◌+◌, ◌*◌, ◌/◌, ◌%◌, ◌<◌, ◌≤◌, ◌^◌}
use Prim.Native.String.{String}
use mathlib.Core.Path.{◌≡◌, refl, ap, sym, subst, ◌∙◌}
use mathlib.Core.Logic.{◌≢◌}
use mathlib.Core.Bool.{true, false}
use mathlib.Core.Option.{some}
use mathlib.Core.List.{[], ◌∷◌, ◌++◌, append_assoc, append-nil}
use native.Mathlib.Decide.{dec_lt}
use native.Mathlib.Nat.{pow-suc}
use native.Mathlib.Omega.{arith}
use api_security_sdk.Common.Tests.{eqb, ltb, all_below, all_below_sound}
use api_security_sdk.Common.Lists.{length, length-append, All, All-append, All-imp}
use api_security_sdk.Common.Texts.{show_ℕ, show_from, decimal_digit, is_space}
use api_security_sdk.Common.Int.{ℤ, pos, negsuc}
use api_security_sdk.Common.Bytes.{Bytes, codes, codes-append, eq_bytes, eq_bytes_iff}
use api_security_sdk.Common.Decimal.{
  format_int, is_digit, scan, parse_digits, signed_64, parse_int_of, parse_int, trim_left,
  trim_right, trim_space,
}

digit_table : all_below 10 (λ d. eq_bytes (codes (decimal_digit d)) ((b'0' + d) ∷ [])) ≡ true
unfolding decimal_digit
digit_table = refl

codes-decimal_digit : (d : ℕ) → d < 10 → codes (decimal_digit d) ≡ (b'0' + d) ∷ []
codes-decimal_digit d h =
    (eq_bytes_iff (codes (decimal_digit d)) ((b'0' + d) ∷ [])).0 (
      all_below_sound 10 (λ k. eq_bytes (codes (decimal_digit k)) ((b'0' + k) ∷ [])) d digit_table
        h)

-- The bytes of a print: one digit, or those of a tenth and the last digit.
module _ (fuel n : ℕ) where
  codes-show_small : n < 10 → codes (show_from (suc fuel) n) ≡ (b'0' + n) ∷ []
  unfolding show_from
  codes-show_small h = ground (arith, codes-decimal_digit n)

  codes-show_large :
      10 ≤ n
      → codes (show_from (suc fuel) n) ≡ codes (show_from fuel (n / 10)) ++ (b'0' + n % 10) ∷ []
  unfolding show_from
  codes-show_large h =
      let over : ltb n 10 ≡ false = ground arith in
      rw over (
        codes-append (show_from fuel (n / 10)) (decimal_digit (n % 10))
        ∙ ap (λ l. codes (show_from fuel (n / 10)) ++ l)
            (codes-decimal_digit (n % 10) (omega arith)))

scan_step : (d n : ℕ) (rest : Bytes) → d < 10 → scan ((b'0' + d) ∷ rest) n ≡ scan rest (n * 10 + d)
unfolding scan
scan_step d n rest h = ground arith

scan-show_from :
    (fuel n : ℕ) (rest : Bytes) → n < fuel → scan (codes (show_from fuel n) ++ rest) 0 ≡ scan rest n
scan-show_from zero n rest h = absurd (omega arith)
scan-show_from (suc fuel) n rest h = elim (dec_lt n 10) [
  | yes small ↦
      let zero_tens : 0 * 10 + n ≡ n = omega arith in
      rw (codes-show_small fuel n small) (scan_step n 0 rest small ∙ ap (scan rest) zero_tens)
  | no large ↦
      let tenths : n / 10 * 10 + n % 10 ≡ n = omega arith in
      rw (codes-show_large fuel n (omega arith)) (
        ap (λ l. scan l 0)
          (append_assoc (codes (show_from fuel (n / 10))) ((b'0' + n % 10) ∷ []) rest)
        ∙ scan-show_from fuel (n / 10) ((b'0' + n % 10) ∷ rest) (omega arith)
        ∙ scan_step (n % 10) (n / 10) rest (omega arith)
        ∙ ap (scan rest) tenths)
]

-- Every byte of a print is a digit.
All-show_from : (fuel n : ℕ) → n < fuel → All (λ c. is_digit c ≡ true) (codes (show_from fuel n))
All-show_from zero n h = absurd (omega arith)
All-show_from (suc fuel) n h = elim (dec_lt n 10) [
  | yes small ↦ rw (codes-show_small fuel n small) (ground arith, tt)
  | no large ↦ rw (codes-show_large fuel n (omega arith)) (
      All-append (λ c. is_digit c ≡ true) (codes (show_from fuel (n / 10))) ((b'0' + n % 10) ∷ [])
        (All-show_from fuel (n / 10) (omega arith)) (ground arith, tt))
]

pub All-show : (n : ℕ) → All (λ c. is_digit c ≡ true) (codes (show_ℕ n))
unfolding show_ℕ
All-show n = All-show_from (suc n) n (omega arith)

length-show_from :
    (width fuel n : ℕ)
    → n < fuel
    → n < 10 ^ suc width
    → length (codes (show_from fuel n)) ≤ suc width
length-show_from width zero n h small = absurd (omega arith)
length-show_from zero (suc fuel) n h small =
    rw (codes-show_small fuel n (ground arith)) (omega arith)
length-show_from (suc width) (suc fuel) n h small = elim (dec_lt n 10) [
  | yes digit ↦ rw (codes-show_small fuel n digit) (omega arith)
  | no large ↦
      let below : n / 10 < 10 ^ suc width = omega (arith, rw (pow-suc 10 (suc width)) at small) in
      let tenth = length-show_from width fuel (n / 10) (omega arith) below in
      rw (codes-show_large fuel n (omega arith)) (
        omega
          (arith, tenth, length-append (codes (show_from fuel (n / 10))) ((b'0' + n % 10) ∷ [])))
]

-- A number below a power of ten has at most so many digits.
pub length-show : (width n : ℕ) → n < 10 ^ suc width → length (codes (show_ℕ n)) ≤ suc width
unfolding show_ℕ
length-show width n small = length-show_from width (suc n) n (omega arith) small

scan-show : (n : ℕ) (rest : Bytes) → scan (codes (show_ℕ n) ++ rest) 0 ≡ scan rest n
unfolding show_ℕ
scan-show n rest = scan-show_from (suc n) n rest (omega arith)

pub show-ne-nil : (n : ℕ) → codes (show_ℕ n) ≢ []
unfolding show_ℕ
show-ne-nil n empty = elim (dec_lt n 10) [
  | yes small ↦ absurd (omega (arith, ap length (sym (codes-show_small n n small) ∙ empty)))
  | no large ↦ absurd (
      omega (
        arith,
        ap length (sym (codes-show_large n n (omega arith)) ∙ empty),
        length-append (codes (show_from n (n / 10))) ((b'0' + n % 10) ∷ []),
      ))
]

parse_digits-scan : (s : Bytes) → s ≢ [] → parse_digits s ≡ scan s 0
unfolding parse_digits
parse_digits-scan [] h = absurd (h refl)
parse_digits-scan (c ∷ s) h = refl

pub parse_digits-show : (n : ℕ) → parse_digits (codes (show_ℕ n)) ≡ some n
unfolding scan
parse_digits-show n =
    parse_digits-scan (codes (show_ℕ n)) (show-ne-nil n)
    ∙ ap (λ l. scan l 0) (sym (append-nil (codes (show_ℕ n))))
    ∙ scan-show n []

-- Digits are read without a sign.
parse_int-digits :
    (s : Bytes)
    → All (λ c. is_digit c ≡ true) s
    → s ≢ []
    → parse_int_of s ≡ signed_64 false (parse_digits s)
unfolding parse_int_of
parse_int-digits [] _ h = absurd (h refl)
parse_int-digits (c ∷ s) (d, _) h = ground arith

-- The magnitude of an int64: from -2^63 to 2^63 - 1.
abbrev pub IsInt64 : ℤ → Type 0
IsInt64 (pos n) = n < 2 ^ 63
IsInt64 (negsuc n) = n < 2 ^ 63

pub parse_int-format_int : (i : ℤ) → IsInt64 i → parse_int (format_int i) ≡ some i
unfolding parse_int format_int
parse_int-format_int (pos n) h =
    parse_int-digits (codes (show_ℕ n)) (All-show n) (show-ne-nil n)
    ∙ rw (parse_digits-show n) (unfold signed_64 in ground arith)
parse_int-format_int (negsuc n) h =
    ap parse_int_of (codes-append "-" (show_ℕ (suc n)))
    ∙ unfold parse_int_of signed_64 in rw (parse_digits-show (suc n)) (ground arith)

-- Neither a space nor a line break stands in a print.
abbrev pub IsPlain : ℕ → Type 0
IsPlain c = (is_space c ≡ false) × (eqb c b'\n' ≡ false)

pub digit-IsPlain : (c : ℕ) → is_digit c ≡ true → IsPlain c
digit-IsPlain c h = (ground arith, ground arith)

pub format_int-IsPlain : (i : ℤ) → All IsPlain (codes (format_int i))
unfolding format_int
format_int-IsPlain (pos n) = All-imp digit-IsPlain (codes (show_ℕ n)) (All-show n)
format_int-IsPlain (negsuc n) =
    subst (All IsPlain) (sym (codes-append "-" (show_ℕ (suc n))))
      ((refl, refl), All-imp digit-IsPlain (codes (show_ℕ (suc n))) (All-show (suc n)))

trim_left-plain : (s : String) → All IsPlain (codes s) → trim_left s ≡ s
unfolding trim_left
trim_left-plain String.[] _ = refl
trim_left-plain (String.◌∷◌ c s) ((e, _), _) = rw e refl

trim_right-plain : (s : String) → All IsPlain (codes s) → trim_right s ≡ s
unfolding trim_right
trim_right-plain String.[] _ = refl
trim_right-plain (String.◌∷◌ c s) ((e, _), rest) = ground (arith, trim_right-plain s rest)

pub trim_space-plain : (s : String) → All IsPlain (codes s) → trim_space s ≡ s
unfolding trim_space
trim_space-plain s h = rw (trim_left-plain s h) (trim_right-plain s h)

-- Texts that end at their first line break are told apart.
pub line-injective :
    (xs ys a b : Bytes)
    → All IsPlain xs
    → All IsPlain ys
    → xs ++ b'\n' ∷ a ≡ ys ++ b'\n' ∷ b
    → (xs ≡ ys) × (a ≡ b)
line-injective [] [] a b _ _ e = (refl, cc)
line-injective [] (y ∷ ys) a b _ ((_, h), _) e = absurd (ground arith)
line-injective (x ∷ xs) [] a b ((_, h), _) _ e = absurd (ground arith)
line-injective (x ∷ xs) (y ∷ ys) a b (_, hx) (_, hy) e =
    let (same, rest) = line-injective xs ys a b hx hy (cc) in (cc, rest)
