-- ===== src/Common/Bytes.antt =====
-- Byte slices as lists of numbers, the bytes of a text, and encoding/hex.
use Prim.Native.Char.{Char, code, nul}
use Prim.Native.Nat.{ℕ, ◌+◌, ◌-◌, ◌*◌, ◌/◌, ◌%◌, ◌<◌}
use Prim.Native.String.{String}
use mathlib.Core.Path.{◌≡◌, refl, ap}
use mathlib.Core.Logic.{◌↔◌}
use mathlib.Core.Bool.{Bool, true, false, ◌&&◌}
use mathlib.Core.Option.{Option, none, some}
use mathlib.Core.List.{List, [], ◌∷◌, ◌++◌}
use native.Mathlib.Omega.{arith}
use text.Mathlib.TextLemmas.{nil-append, cons-append}
use api_security_sdk.Common.Tests.{all_below, all_below_sound, eqb, leb, ltb, if◌then◌else◌}
use api_security_sdk.Common.Lists.{All}
use api_security_sdk.Common.Texts.{◌<>◌, char_at?}

abbrev pub Bytes : Type 0
Bytes = List ℕ

abbrev pub IsBytes : Bytes → Type 0
IsBytes = All (λ b. b < 256)

-- The code points of a text, which are its bytes if it is ASCII.
abbrev pub codes : String → Bytes
codes String.[] = []
codes (String.◌∷◌ c s) = code c ∷ codes s

pub codes-append : (s t : String) → codes (s <> t) ≡ codes s ++ codes t
codes-append String.[] t = rw nil-append refl
codes-append (String.◌∷◌ c s) t = rw cons-append (ap (λ l. code c ∷ l) (codes-append s t))

-- `hmac.Equal` and `bytes.Equal`
abbrev pub eq_bytes : Bytes → Bytes → Bool
eq_bytes [] [] = true
eq_bytes (a ∷ as') (b ∷ bs) = eqb a b && eq_bytes as' bs
eq_bytes _ _ = false

pub eq_bytes_iff : (xs ys : Bytes) → (eq_bytes xs ys ≡ true) ↔ (xs ≡ ys)
eq_bytes_iff [] [] = ground arith
eq_bytes_iff [] (y ∷ ys) = ground arith
eq_bytes_iff (x ∷ xs) [] = ground arith
eq_bytes_iff (x ∷ xs) (y ∷ ys) = ground (arith, eq_bytes_iff xs ys)

pub eq_bytes_comm : (xs ys : Bytes) → eq_bytes xs ys ≡ eq_bytes ys xs
eq_bytes_comm [] [] = refl
eq_bytes_comm [] (y ∷ ys) = refl
eq_bytes_comm (x ∷ xs) [] = refl
eq_bytes_comm (x ∷ xs) (y ∷ ys) = ground (arith, eq_bytes_comm xs ys)

-- A digit of `hex.EncodeToString`.
unfoldable pub hex_digit : ℕ → Char
hex_digit n = elim (char_at? "0123456789abcdef" n) [ none ↦ nul | some c ↦ c ]

unfoldable pub encode_hex : Bytes → String
encode_hex [] = ""
encode_hex (b ∷ bs) =
    String.◌∷◌ (hex_digit (b / 16)) (String.◌∷◌ (hex_digit (b % 16)) (encode_hex bs))

-- The value of a hexadecimal digit in either case.
unfoldable pub from_hex : ℕ → Option ℕ
from_hex c =
    if leb b'0' c && leb c b'9'
    then some (c - b'0')
    else if leb b'a' c && leb c b'f'
    then some (c - b'a' + 10)
    else if leb b'A' c && leb c b'F'
    then some (c - b'A' + 10)
    else none

-- `hex.DecodeString`; none is an error.
unfoldable pub decode_hex : String → Option Bytes
decode_hex String.[] = some []
decode_hex (String.◌∷◌ c String.[]) = none
decode_hex (String.◌∷◌ c (String.◌∷◌ d s)) = elim (from_hex (code c)) [
  | none ↦ none
  | some hi ↦ elim (from_hex (code d)) [
    | none ↦ none
    | some lo ↦ elim (decode_hex s) [ none ↦ none | some bs ↦ some ((hi * 16 + lo) ∷ bs) ]
  ]
]

-- Whether the test of a digit finds the number.
abbrev gives : Option ℕ → ℕ → Bool
gives none n = false
gives (some m) n = eqb m n

gives_sound : (found : Option ℕ) (n : ℕ) → gives found n ≡ true → found ≡ some n
gives_sound none n h = absurd (ground arith)
gives_sound (some m) n h = ground arith

hex_table : all_below 16 (λ n. gives (from_hex (code (hex_digit n))) n) ≡ true
unfolding from_hex hex_digit
hex_table = refl

from_hex-hex_digit : (n : ℕ) → n < 16 → from_hex (code (hex_digit n)) ≡ some n
from_hex-hex_digit n h =
    gives_sound (from_hex (code (hex_digit n))) n
      (all_below_sound 16 (λ k. gives (from_hex (code (hex_digit k))) k) n hex_table h)

pub decode_hex-encode_hex : (bs : Bytes) → IsBytes bs → decode_hex (encode_hex bs) ≡ some bs
unfolding decode_hex encode_hex
decode_hex-encode_hex [] _ = refl
decode_hex-encode_hex (b ∷ bs) (small, rest) =
    ground
      (arith, from_hex-hex_digit (b / 16), from_hex-hex_digit (b % 16), decode_hex-encode_hex bs)

-- The UTF-8 bytes of a character and of a text.
abbrev utf8_char : ℕ → Bytes
utf8_char c =
    if ltb c 128
    then c ∷ []
    else if ltb c 2048
    then (192 + c / 64) ∷ (128 + c % 64) ∷ []
    else if ltb c 65536
    then (224 + c / 4096) ∷ (128 + c / 64 % 64) ∷ (128 + c % 64) ∷ []
    else (240 + c / 262144) ∷ (128 + c / 4096 % 64) ∷ (128 + c / 64 % 64) ∷ (128 + c % 64) ∷ []

unfoldable pub utf8 : String → Bytes
utf8 String.[] = []
utf8 (String.◌∷◌ c s) = utf8_char (code c) ++ utf8 s

-- A text without characters above ASCII is its code points.
pub utf8-ascii : (s : String) → All (λ c. c < 128) (codes s) → utf8 s ≡ codes s
unfolding utf8
utf8-ascii String.[] _ = refl
utf8-ascii (String.◌∷◌ c s) (small, rest) = ground (arith, utf8-ascii s rest)
