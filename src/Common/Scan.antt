-- ===== src/Common/Scan.antt =====
-- fmt.Sscanf for the verbs and the formats of the code, and strings.Split, on the characters of a
-- text.
pub mod RoundTrip
use Prim.Native.Nat.{ℕ, zero, suc, ◌^◌}
use mathlib.Core.Bool.{Bool, true, false, ◌&&◌}
use mathlib.Core.Option.{Option, none, some}
use mathlib.Core.List.{List, [], ◌∷◌}
use api_security_sdk.Common.Tests.{eqb, ltb, if◌then◌else◌}
use api_security_sdk.Common.Texts.{is_space}
use api_security_sdk.Common.Int.{ℤ}
use api_security_sdk.Common.Bytes.{Bytes}
use api_security_sdk.Common.Decimal.{is_digit, parse_digits, signed_64}

abbrev cons_first : ℕ → List Bytes → List Bytes
cons_first c [] = (c ∷ []) ∷ []
cons_first c (w ∷ ws) = (c ∷ w) ∷ ws

-- `strings.Split(s, sep)` for a separator of one character.
unfoldable pub split : ℕ → Bytes → List Bytes
split sep [] = [] ∷ []
split sep (c ∷ cs) = let rest = split sep cs in if eqb c sep then [] ∷ rest else cons_first c rest

-- The text behind the characters of a format; none is an error.
unfoldable pub scan_literal : Bytes → Bytes → Option Bytes
scan_literal [] input = some input
scan_literal (f ∷ fs) [] = none
scan_literal (f ∷ fs) (c ∷ input) =
    let rest = scan_literal fs input in if eqb f c then rest else none

-- The spaces before a verb; a line break is an error.
unfoldable pub skip_space : Bytes → Option Bytes
skip_space [] = some []
skip_space (c ∷ input) =
    let rest = skip_space input in
    if eqb c 10 then none else if is_space c then rest else some (c ∷ input)

-- The digits at the front, and the rest.
unfoldable pub take_digits : Bytes → Bytes × Bytes
take_digits [] = ([], [])
take_digits (c ∷ input) =
    let (digits, rest) = take_digits input in
    if is_digit c then (c ∷ digits, rest) else ([], c ∷ input)

abbrev pub with_rest {ℓ} : {A : Type ℓ} → Option A → Bytes → Option (A × Bytes)
with_rest none rest = none
with_rest (some a) rest = some (a, rest)

-- A number below a limit.
abbrev limited : ℕ → Option ℕ → Option ℕ
limited limit none = none
limited limit (some n) = if ltb n limit then some n else none

-- `%d` into an unsigned integer of that many bits.
unfoldable pub scan_uint : ℕ → Bytes → Option (ℕ × Bytes)
unfolding skip_space take_digits
scan_uint bits input = elim (skip_space input) [
  | none ↦ none
  | some input' ↦
      let (digits, rest) = take_digits input' in
      with_rest (limited (2 ^ bits) (parse_digits digits)) rest
]

-- `%d` into an int: the digits behind a sign.
abbrev pub signed_from : Bool → Bytes → Option (ℤ × Bytes)
signed_from negative input =
    let (digits, rest) = take_digits input in
    with_rest (signed_64 negative (parse_digits digits)) rest

abbrev pub scan_signed : Bytes → Option (ℤ × Bytes)
scan_signed [] = none
scan_signed (c ∷ input) =
    if eqb c b'-'
    then signed_from true input
    else if eqb c b'+'
    then signed_from false input
    else signed_from false (c ∷ input)

unfoldable pub scan_int : Bytes → Option (ℤ × Bytes)
unfolding skip_space take_digits
scan_int input = elim (skip_space input) [ none ↦ none | some input' ↦ scan_signed input' ]
