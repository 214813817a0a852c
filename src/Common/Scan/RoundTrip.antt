-- ===== src/Common/Scan/RoundTrip.antt =====
-- fmt.Sscanf and strings.Split: what is printed is scanned, and what is joined is split.
use Prim.Native.Nat.{ℕ, ◌^◌, ◌<◌}
use mathlib.Core.Path.{◌≡◌, refl, ap, ◌∙◌}
use mathlib.Core.Logic.{◌≢◌}
use mathlib.Core.Bool.{true, false}
use mathlib.Core.Option.{Option, none, some}
use mathlib.Core.List.{[], ◌∷◌, ◌++◌}
use native.Mathlib.Omega.{arith}
use api_security_sdk.Common.Tests.{eqb}
use api_security_sdk.Common.Lists.{All}
use api_security_sdk.Common.Texts.{is_space, show_ℕ}
use api_security_sdk.Common.Int.{pos}
use api_security_sdk.Common.Bytes.{Bytes, codes}
use api_security_sdk.Common.Decimal.{is_digit, parse_digits, signed_64}
use api_security_sdk.Common.Decimal.RoundTrip.{All-show, show-ne-nil, parse_digits-show}
use api_security_sdk.Common.Scan.{
  split, scan_literal, skip_space, take_digits, scan_uint, scan_int, scan_signed,
}

-- A text without the separator is the first part.
pub split-append :
    (sep : ℕ) (xs rest : Bytes)
    → All (λ c. eqb c sep ≡ false) xs
    → split sep (xs ++ sep ∷ rest) ≡ xs ∷ split sep rest
unfolding split
split-append sep [] rest _ = ground arith
split-append sep (c ∷ xs) rest (h, more) = rw h rw (split-append sep xs rest more) refl

pub split-last : (sep : ℕ) (xs : Bytes) → All (λ c. eqb c sep ≡ false) xs → split sep xs ≡ xs ∷ []
unfolding split
split-last sep [] _ = refl
split-last sep (c ∷ xs) (h, more) = rw h rw (split-last sep xs more) refl

pub scan_literal-append : (fs rest : Bytes) → scan_literal fs (fs ++ rest) ≡ some rest
unfolding scan_literal
scan_literal-append [] rest = refl
scan_literal-append (f ∷ fs) rest = ground (arith, scan_literal-append fs rest)

abbrev AllDigits : Bytes → Type 0
AllDigits = All (λ c. is_digit c ≡ true)

-- What does not continue a number.
abbrev pub Stops : Bytes → Type 0
Stops [] = Unit
Stops (c ∷ _) = is_digit c ≡ false

take_digits-append :
    (ds rest : Bytes) → AllDigits ds → Stops rest → take_digits (ds ++ rest) ≡ (ds, rest)
unfolding take_digits
take_digits-append [] [] _ _ = refl
take_digits-append [] (c ∷ rest) _ h = rw h refl
take_digits-append (d ∷ ds) rest (h, more) stops =
    rw h rw (take_digits-append ds rest more stops) refl

skip_space-digits :
    (ds rest : Bytes) → ds ≢ [] → AllDigits ds → skip_space (ds ++ rest) ≡ some (ds ++ rest)
unfolding skip_space
skip_space-digits [] rest h _ = absurd (h refl)
skip_space-digits (d ∷ ds) rest _ (h, _) =
    let no_line : eqb d 10 ≡ false = ground arith in
    let no_space : is_space d ≡ false = ground arith in rw no_line rw no_space refl

pub scan_uint-show :
    (bits n : ℕ) (rest : Bytes)
    → n < 2 ^ bits
    → Stops rest
    → scan_uint bits (codes (show_ℕ n) ++ rest) ≡ some (n, rest)
unfolding scan_uint
scan_uint-show bits n rest small stops =
    let skips = skip_space-digits (codes (show_ℕ n)) rest (show-ne-nil n) (All-show n) in
    let taken = take_digits-append (codes (show_ℕ n)) rest (All-show n) stops in
    ground (arith, skips, taken, parse_digits-show n)

scan_signed-digits :
    (ds : Bytes) (n : ℕ) (rest : Bytes)
    → ds ≢ []
    → AllDigits ds
    → n < 2 ^ 63
    → Stops rest
    → parse_digits ds ≡ some n
    → scan_signed (ds ++ rest) ≡ some (pos n, rest)
unfolding take_digits signed_64
scan_signed-digits [] n rest h _ _ _ _ = absurd (h refl)
scan_signed-digits (d ∷ ds) n rest _ (h, more) small stops parsed =
    let no_minus : eqb d b'-' ≡ false = ground arith in
    let no_plus : eqb d b'+' ≡ false = ground arith in
    let taken = take_digits-append (d ∷ ds) rest (h, more) stops in ground (arith, taken, parsed)

pub scan_int-show :
    (n : ℕ) (rest : Bytes)
    → n < 2 ^ 63
    → Stops rest
    → scan_int (codes (show_ℕ n) ++ rest) ≡ some (pos n, rest)
unfolding scan_int
scan_int-show n rest small stops =
    let skips = skip_space-digits (codes (show_ℕ n)) rest (show-ne-nil n) (All-show n) in
    let signed =
      scan_signed-digits (codes (show_ℕ n)) n rest (show-ne-nil n) (All-show n) small stops
        (parse_digits-show n) in
    ap (λ (o : Option Bytes). elim o [ none ↦ none | some input ↦ scan_signed input ]) skips
    ∙ signed
