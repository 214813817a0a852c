-- ===== src/Common/Decimal.antt =====
-- strconv in base 10 and strings.TrimSpace: what is printed is read back.
pub mod RoundTrip
use Prim.Native.Char.{Char, code}
use Prim.Native.Nat.{ℕ, zero, suc, ◌+◌, ◌-◌, ◌*◌, ◌/◌, ◌%◌, ◌<◌, ◌≤◌, ◌^◌}
use Prim.Native.String
use Prim.Native.String.{String}
use mathlib.Core.Path.{◌≡◌, refl, ap, sym, ◌∙◌}
use mathlib.Core.Logic.{◌≢◌, ◌⊎◌, inl, inr}
use mathlib.Core.Bool.{Bool, true, false, ◌&&◌, not}
use mathlib.Core.Option.{Option, none, some}
use mathlib.Core.List.{List, [], ◌∷◌, ◌++◌, append_assoc}
use native.Mathlib.Omega.{arith}
use text.Mathlib.Text.{◌==◌}
use api_security_sdk.Common.Tests.{
  eqb, leb, ltb, if◌then◌else◌, all_below, all_below_sound, Bool-cases,
}
use api_security_sdk.Common.Lists.{All}
use api_security_sdk.Common.Texts.{◌<>◌, show_ℕ, is_space}
use api_security_sdk.Common.Int.{ℤ, pos, negsuc}
use api_security_sdk.Common.Bytes.{Bytes, codes, codes-append, eq_bytes, eq_bytes_iff}

-- `strconv.FormatInt(i, 10)`
unfoldable pub format_int : ℤ → String
format_int (pos n) = show_ℕ n
format_int (negsuc n) = "-" <> show_ℕ (suc n)

abbrev pub is_digit : ℕ → Bool
is_digit c = leb b'0' c && leb c b'9'

-- The number of a text of digits behind `n`; none if another character stands there. The code stops
-- at a number that does not fit, which its caller refuses here.
unfoldable pub scan : Bytes → ℕ → Option ℕ
scan [] n = some n
scan (c ∷ s) n = if is_digit c then scan s (n * 10 + (c - b'0')) else none

-- `strconv.ParseUint(s, 10, 64)` but for its bound.
unfoldable pub parse_digits : Bytes → Option ℕ
unfolding scan
parse_digits [] = none
parse_digits (c ∷ s) = scan (c ∷ s) 0

-- An int64 of a magnitude with its sign.
unfoldable pub signed_64 : Bool → Option ℕ → Option ℤ
signed_64 negative none = none
signed_64 false (some n) = if ltb n (2 ^ 63) then some (pos n) else none
signed_64 true (some zero) = some (pos zero)
signed_64 true (some (suc n)) = if ltb n (2 ^ 63) then some (negsuc n) else none

-- `strconv.ParseInt(s, 10, 64)`; none is an error.
unfoldable pub parse_int_of : Bytes → Option ℤ
unfolding signed_64 parse_digits
parse_int_of [] = none
parse_int_of (c ∷ s) =
    if eqb c b'+'
    then signed_64 false (parse_digits s)
    else if eqb c b'-'
    then signed_64 true (parse_digits s)
    else signed_64 false (parse_digits (c ∷ s))

unfoldable pub parse_int : String → Option ℤ
unfolding parse_int_of
parse_int s = parse_int_of (codes s)

unfoldable pub trim_left : String → String
trim_left String.[] = ""
trim_left (String.◌∷◌ c s) = if is_space (code c) then trim_left s else String.◌∷◌ c s

unfoldable pub trim_right : String → String
trim_right String.[] = ""
trim_right (String.◌∷◌ c s) =
    let rest = trim_right s in if rest == "" && is_space (code c) then "" else String.◌∷◌ c rest

-- `strings.TrimSpace(s)`
unfoldable pub trim_space : String → String
unfolding trim_left trim_right
trim_space s = trim_right (trim_left s)

runs :
    (parse_int (trim_space " -007 ") ≡ some (negsuc 6))
    × (parse_int "1_0" ≡ none)
    × (parse_int "9223372036854775808" ≡ none)
    × (parse_int (format_int (negsuc 41)) ≡ some (negsuc 41))
unfolding parse_int trim_space format_int show_ℕ
runs = (refl, refl, refl, refl)
