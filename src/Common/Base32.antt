-- ===== src/Common/Base32.antt =====
-- encoding/base32 in the standard alphabet: without padding to encode, with padding to decode.
pub mod RoundTrip
use Prim.Native.Char.{Char, nul}
use Prim.Native.Nat.{ℕ, zero, suc, ◌+◌, ◌-◌, ◌*◌, ◌/◌, ◌%◌}
use Prim.Native.String.{String}
use mathlib.Core.Bool.{Bool, true, ◌&&◌, ◌||◌}
use mathlib.Core.Option.{Option, none, some}
use mathlib.Core.List.{List, [], ◌∷◌, ◌++◌}
use api_security_sdk.Common.Tests.{eqb, leb, ltb, if◌then◌else◌}
use api_security_sdk.Common.Lists.{length}
use api_security_sdk.Common.Texts.{char_at?}
use api_security_sdk.Common.Bytes.{Bytes}

abbrev pub base32_char : ℕ → Char
base32_char n = elim (char_at? "ABCDEFGHIJKLMNOPQRSTUVWXYZ234567" n) [ none ↦ nul | some c ↦ c ]

abbrev char : ℕ → String → String
char n s = String.◌∷◌ (base32_char n) s

-- `base32.StdEncoding.WithPadding(base32.NoPadding).EncodeToString`
unfoldable pub encode_base32 : Bytes → String
encode_base32 [] = ""
encode_base32 (a ∷ []) = char (a / 8) (char (a % 8 * 4) "")
encode_base32 (a ∷ b ∷ []) =
    char (a / 8) (char (a % 8 * 4 + b / 64) (char (b / 2 % 32) (char (b % 2 * 16) "")))
encode_base32 (a ∷ b ∷ c ∷ []) = char (a / 8) (
    char (a % 8 * 4 + b / 64)
      (char (b / 2 % 32) (char (b % 2 * 16 + c / 16) (char (c % 16 * 2) ""))))
encode_base32 (a ∷ b ∷ c ∷ d ∷ []) = char (a / 8) (
    char (a % 8 * 4 + b / 64) (
      char (b / 2 % 32) (
        char (b % 2 * 16 + c / 16)
          (char (c % 16 * 2 + d / 128) (char (d / 4 % 32) (char (d % 4 * 8) ""))))))
encode_base32 (a ∷ b ∷ c ∷ d ∷ e ∷ rest) = char (a / 8) (
    char (a % 8 * 4 + b / 64) (
      char (b / 2 % 32) (
        char (b % 2 * 16 + c / 16) (
          char (c % 16 * 2 + d / 128)
            (char (d / 4 % 32) (char (d % 4 * 8 + e / 32) (char (e % 32) (encode_base32 rest))))))))

unfoldable pub base32_value : ℕ → Option ℕ
base32_value c =
    if leb b'A' c && leb c b'Z'
    then some (c - b'A')
    else if leb b'2' c && leb c b'7'
    then some (c - b'2' + 26)
    else none

-- The bytes of up to eight values; the bits that are left over are dropped.
unfoldable pub pack : List ℕ → Bytes
pack (a ∷ b ∷ []) = (a * 8 + b / 4) ∷ []
pack (a ∷ b ∷ c ∷ d ∷ []) = (a * 8 + b / 4) ∷ (b % 4 * 64 + c * 2 + d / 16) ∷ []
pack (a ∷ b ∷ c ∷ d ∷ e ∷ []) =
    (a * 8 + b / 4) ∷ (b % 4 * 64 + c * 2 + d / 16) ∷ (d % 16 * 16 + e / 2) ∷ []
pack (a ∷ b ∷ c ∷ d ∷ e ∷ f ∷ g ∷ []) =
    (a * 8 + b / 4)
    ∷ (b % 4 * 64 + c * 2 + d / 16)
    ∷ (d % 16 * 16 + e / 2)
    ∷ (e % 2 * 128 + f * 4 + g / 8)
    ∷ []
pack (a ∷ b ∷ c ∷ d ∷ e ∷ f ∷ g ∷ h ∷ []) =
    (a * 8 + b / 4)
    ∷ (b % 4 * 64 + c * 2 + d / 16)
    ∷ (d % 16 * 16 + e / 2)
    ∷ (e % 2 * 128 + f * 4 + g / 8)
    ∷ (g % 8 * 32 + h)
    ∷ []
pack _ = []

-- The first `n` characters are padding.
unfoldable pub padded : ℕ → Bytes → Bool
padded zero src = true
padded (suc n) [] = true
padded (suc n) (c ∷ src) = eqb c b'=' && padded n src

-- What the padding that starts with the character before `src` makes of the values so far.
unfoldable pub end_padded : List ℕ → Bytes → Option Bytes
unfolding padded pack
end_padded values src =
    if ltb (length src + length values) 7
    then none
    else if padded (7 - length values) src
        && (eqb (length values) 2
            || (eqb (length values) 4 || (eqb (length values) 5 || eqb (length values) 7)))
    then some (pack values)
    else none

-- The values of the group that is being read, and the characters behind it.
unfoldable pub decode_groups : List ℕ → Bytes → Option Bytes
unfolding base32_value end_padded
decode_groups [] [] = some []
decode_groups (v ∷ vs) [] = none
decode_groups values (c ∷ src) =
    if eqb c b'=' && (leb 2 (length values) && ltb (length src) 8)
    then end_padded values src
    else elim (base32_value c) [
      | none ↦ none
      | some v ↦
          let values' = values ++ v ∷ [] in
          let full = eqb (length values') 8 in
          elim (decode_groups (if full then [] else values') src) [
            | none ↦ none
            | some bytes ↦ some (if full then pack values' ++ bytes else bytes)
          ]
    ]

unfoldable pub strip_newlines : Bytes → Bytes
strip_newlines [] = []
strip_newlines (c ∷ src) =
    let rest = strip_newlines src in if eqb c 10 || eqb c 13 then rest else c ∷ rest

-- `base32.StdEncoding.DecodeString`; none is an error.
unfoldable pub decode_base32 : Bytes → Option Bytes
unfolding strip_newlines decode_groups
decode_base32 src = decode_groups [] (strip_newlines src)
