-- ===== src/Common/Base64.antt =====
-- encoding/base64 without padding, in the URL alphabet and the standard one, and numbers of bytes.
pub mod RoundTrip
use Prim.Native.Char.{Char, nul}
use Prim.Native.String
use Prim.Native.Nat.{ℕ, ◌+◌, ◌-◌, ◌*◌, ◌/◌, ◌%◌}
use Prim.Native.String.{String}
use mathlib.Core.Bool.{◌&&◌, ◌||◌}
use mathlib.Core.Option.{Option, none, some}
use mathlib.Core.List.{List, [], ◌∷◌}
use api_security_sdk.Common.Tests.{eqb, leb, if◌then◌else◌}
use api_security_sdk.Common.Texts.{char_at?}
use api_security_sdk.Common.Bytes.{Bytes, codes}

-- The value of a letter, a digit, or one of the alphabet's last two characters.
abbrev value_of : ℕ → ℕ → ℕ → Option ℕ
value_of c62 c63 c =
    if leb b'A' c && leb c b'Z'
    then some (c - b'A')
    else if leb b'a' c && leb c b'z'
    then some (c - b'a' + 26)
    else if leb b'0' c && leb c b'9'
    then some (c - b'0' + 52)
    else if eqb c c62
    then some 62
    else if eqb c c63
    then some 63
    else none

abbrev pub url_value : ℕ → Option ℕ
url_value = value_of b'-' b'_'

abbrev pub std_value : ℕ → Option ℕ
std_value = value_of b'+' b'/'

-- The values of the characters; line breaks are passed over, another character is an error.
unfoldable pub sextets : (ℕ → Option ℕ) → Bytes → Option (List ℕ)
sextets value [] = some []
sextets value (c ∷ cs) =
    let rest = sextets value cs in
    if eqb c 10 || eqb c 13 then rest else elim (value c) [
      | none ↦ none
      | some v ↦ elim rest [ none ↦ none | some vs ↦ some (v ∷ vs) ]
    ]

-- Three bytes of four values; two or three values at the end give one byte or two, and the bits that
-- are left over are dropped.
unfoldable pub join_sextets : List ℕ → Option Bytes
join_sextets [] = some []
join_sextets (a ∷ []) = none
join_sextets (a ∷ b ∷ []) = some ((a * 4 + b / 16) ∷ [])
join_sextets (a ∷ b ∷ c ∷ []) = some ((a * 4 + b / 16) ∷ (b % 16 * 16 + c / 4) ∷ [])
join_sextets (a ∷ b ∷ c ∷ d ∷ rest) = elim (join_sextets rest) [
  | none ↦ none
  | some bytes ↦ some ((a * 4 + b / 16) ∷ (b % 16 * 16 + c / 4) ∷ (c % 4 * 64 + d) ∷ bytes)
]

-- `DecodeString` of an encoding without padding; none is an error.
unfoldable pub decode_base64 : (ℕ → Option ℕ) → Bytes → Option Bytes
unfolding sextets join_sextets
decode_base64 value text = elim (sextets value text) [ none ↦ none | some vs ↦ join_sextets vs ]

-- `base64.RawURLEncoding.DecodeString` and `base64.RawStdEncoding.DecodeString`
unfoldable pub decode_base64_url : String → Option Bytes
unfolding decode_base64
decode_base64_url s = decode_base64 url_value (codes s)

unfoldable pub decode_base64_std : Bytes → Option Bytes
unfolding decode_base64
decode_base64_std text = decode_base64 std_value text

abbrev pub url_alphabet : String
url_alphabet = "ABCDEFGHIJKLMNOPQRSTUVWXYZabcdefghijklmnopqrstuvwxyz0123456789-_"

abbrev pub std_alphabet : String
std_alphabet = "ABCDEFGHIJKLMNOPQRSTUVWXYZabcdefghijklmnopqrstuvwxyz0123456789+/"

-- Three bytes as four values; one byte or two at the end give two values or three.
unfoldable pub split_sextets : Bytes → List ℕ
split_sextets [] = []
split_sextets (a ∷ []) = (a / 4) ∷ (a % 4 * 16) ∷ []
split_sextets (a ∷ b ∷ []) = (a / 4) ∷ (a % 4 * 16 + b / 16) ∷ (b % 16 * 4) ∷ []
split_sextets (a ∷ b ∷ c ∷ rest) =
    (a / 4) ∷ (a % 4 * 16 + b / 16) ∷ (b % 16 * 4 + c / 64) ∷ (c % 64) ∷ split_sextets rest

unfoldable pub sextet_char : String → ℕ → Char
sextet_char alphabet n = elim (char_at? alphabet n) [ none ↦ nul | some c ↦ c ]

unfoldable pub print_sextets : String → List ℕ → String
unfolding sextet_char
print_sextets alphabet [] = ""
print_sextets alphabet (v ∷ vs) = String.◌∷◌ (sextet_char alphabet v) (print_sextets alphabet vs)

-- `base64.RawURLEncoding.EncodeToString` and `base64.RawStdEncoding.EncodeToString`
unfoldable pub encode_base64_url : Bytes → String
unfolding split_sextets print_sextets
encode_base64_url bytes = print_sextets url_alphabet (split_sextets bytes)

unfoldable pub encode_base64_std : Bytes → String
unfolding split_sextets print_sextets
encode_base64_std bytes = print_sextets std_alphabet (split_sextets bytes)

-- The number of big-endian bytes behind `n`.
abbrev number_from : ℕ → Bytes → ℕ
number_from n [] = n
number_from n (b ∷ bs) = number_from (n * 256 + b) bs

-- `new(big.Int).SetBytes(b)`
unfoldable pub set_bytes : Bytes → ℕ
set_bytes bs = number_from 0 bs
