-- ===== src/Common/Base32/RoundTrip.antt =====
-- encoding/base32: whole groups of five bytes are encoded without padding, and decode to themselves.
use Prim.Native.Char.{code}
use Prim.Native.Nat.{ℕ, zero, suc, ◌+◌, ◌*◌, ◌/◌, ◌%◌, ◌<◌}
use Prim.Native.String.{String}
use mathlib.Core.Path.{◌≡◌, refl, ap, ◌∙◌}
use mathlib.Core.Bool.{Bool, true, false, not, ◌&&◌, ◌||◌}
use mathlib.Core.Option.{Option, none, some}
use mathlib.Core.List.{List, [], ◌∷◌, ◌++◌}
use native.Mathlib.Omega.{arith}
use api_security_sdk.Common.Tests.{eqb, ltb, all_below, all_below_sound}
use api_security_sdk.Common.Lists.{length, All}
use api_security_sdk.Common.Texts.{is_space}
use api_security_sdk.Common.Bytes.{Bytes, IsBytes, codes}
use api_security_sdk.Common.Base32.{
  base32_char, encode_base32, base32_value, pack, decode_groups, strip_newlines, decode_base32,
}

-- The text of a list of values.
unfoldable pub spell : List ℕ → String
spell [] = ""
spell (v ∷ vs) = String.◌∷◌ (base32_char v) (spell vs)

-- The values of whole groups of five bytes.
unfoldable pub quintets : Bytes → List ℕ
quintets (a ∷ b ∷ c ∷ d ∷ e ∷ rest) =
    (a / 8)
    ∷ (a % 8 * 4 + b / 64)
    ∷ (b / 2 % 32)
    ∷ (b % 2 * 16 + c / 16)
    ∷ (c % 16 * 2 + d / 128)
    ∷ (d / 4 % 32)
    ∷ (d % 4 * 8 + e / 32)
    ∷ (e % 32)
    ∷ quintets rest
quintets _ = []

-- Whole groups.
unfoldable pub IsGroups : Bytes → Type 0
IsGroups [] = Unit
IsGroups (a ∷ b ∷ c ∷ d ∷ e ∷ rest) = IsGroups rest
IsGroups _ = ⊥

pub length-IsGroups : (k : ℕ) (bs : Bytes) → length bs ≡ 5 * k → IsGroups bs
unfolding IsGroups
length-IsGroups k [] h = tt
length-IsGroups k (a ∷ []) h = absurd (omega arith)
length-IsGroups k (a ∷ b ∷ []) h = absurd (omega arith)
length-IsGroups k (a ∷ b ∷ c ∷ []) h = absurd (omega arith)
length-IsGroups k (a ∷ b ∷ c ∷ d ∷ []) h = absurd (omega arith)
length-IsGroups zero (a ∷ b ∷ c ∷ d ∷ e ∷ rest) h = absurd (omega arith)
length-IsGroups (suc k) (a ∷ b ∷ c ∷ d ∷ e ∷ rest) h = length-IsGroups k rest (omega arith)

abbrev pub IsQuintet : ℕ → Type 0
IsQuintet v = v < 32

pub All-quintets : (bs : Bytes) → IsBytes bs → IsGroups bs → All IsQuintet (quintets bs)
unfolding quintets IsGroups
All-quintets [] _ _ = tt
All-quintets (a ∷ []) _ none' = absurd none'
All-quintets (a ∷ b ∷ []) _ none' = absurd none'
All-quintets (a ∷ b ∷ c ∷ []) _ none' = absurd none'
All-quintets (a ∷ b ∷ c ∷ d ∷ []) _ none' = absurd none'
All-quintets (a ∷ b ∷ c ∷ d ∷ e ∷ rest) (h, (k, (l, (m, (n, more))))) whole = (
  omega arith,
  (
    omega arith,
    (
      omega arith,
      (
        omega arith,
        (omega arith, (omega arith, (omega arith, (omega arith, All-quintets rest more whole)))),
      ),
    ),
  ),
)

pub encode_base32-spell : (bs : Bytes) → IsGroups bs → encode_base32 bs ≡ spell (quintets bs)
unfolding encode_base32 spell quintets IsGroups
encode_base32-spell [] _ = refl
encode_base32-spell (a ∷ []) none' = absurd none'
encode_base32-spell (a ∷ b ∷ []) none' = absurd none'
encode_base32-spell (a ∷ b ∷ c ∷ []) none' = absurd none'
encode_base32-spell (a ∷ b ∷ c ∷ d ∷ []) none' = absurd none'
encode_base32-spell (a ∷ b ∷ c ∷ d ∷ e ∷ rest) whole = rw (encode_base32-spell rest whole) refl

-- What a letter is read as, and what it is not.
abbrev reads_as : ℕ → Option ℕ → ℕ → Bool
reads_as c found n =
    (not (eqb c 10 || eqb c 13) && not (eqb c b'='))
    && ((ltb c 97 && not (is_space c)) && elim found [ none ↦ false | some v ↦ eqb v n ])

abbrev reads : ℕ → Bool
reads n = reads_as (code (base32_char n)) (base32_value (code (base32_char n))) n

all_read : all_below 32 reads ≡ true
unfolding base32_value
all_read = refl

pub record IsLetter (c : ℕ) (n : ℕ) : Type 0 where
  pub no_line : (eqb c 10 || eqb c 13) ≡ false
  pub no_padding : eqb c b'=' ≡ false
  pub upper_case : c < 97
  pub no_space : is_space c ≡ false
  pub value : base32_value c ≡ some n

reads_as_sound :
    (c n : ℕ) (found : Option ℕ) → base32_value c ≡ found → reads_as c found n ≡ true → IsLetter c n
reads_as_sound c n none e h = absurd (ground arith)
reads_as_sound c n (some v) e h = record {
  no_line = ground arith;
  no_padding = ground arith;
  upper_case = ground arith;
  no_space = ground arith;
  value = ground (arith, e);
}

pub letter : (n : ℕ) → n < 32 → IsLetter (code (base32_char n)) n
letter n h =
    reads_as_sound (code (base32_char n)) n (base32_value (code (base32_char n))) refl
      (all_below_sound 32 reads n all_read h)

-- One value more in a group that is not full, and the last of a full one.
decode_groups-next :
    (values : List ℕ) (c v : ℕ) (src : Bytes)
    → IsLetter c v
    → eqb (length (values ++ v ∷ [])) 8 ≡ false
    → decode_groups values (c ∷ src) ≡ decode_groups (values ++ v ∷ []) src
unfolding decode_groups
decode_groups-next values c v src l unfilled = ground (arith, l.value, l.no_padding, unfilled)

decode_groups-full :
    (values : List ℕ) (c v : ℕ) (src bytes : Bytes)
    → IsLetter c v
    → eqb (length (values ++ v ∷ [])) 8 ≡ true
    → decode_groups [] src ≡ some bytes
    → decode_groups values (c ∷ src) ≡ some (pack (values ++ v ∷ []) ++ bytes)
unfolding decode_groups
decode_groups-full values c v src bytes l full rest =
    ground (arith, l.value, l.no_padding, full, rest)

abbrev at : ℕ → ℕ
at n = code (base32_char n)

decode_groups-eight :
    (v w x y z v' w' x' : ℕ) (src bytes : Bytes)
    → All IsQuintet (v ∷ w ∷ x ∷ y ∷ z ∷ v' ∷ w' ∷ x' ∷ [])
    → decode_groups [] src ≡ some bytes
    → decode_groups [] (at v ∷ at w ∷ at x ∷ at y ∷ at z ∷ at v' ∷ at w' ∷ at x' ∷ src)
      ≡ some (pack (v ∷ w ∷ x ∷ y ∷ z ∷ v' ∷ w' ∷ x' ∷ []) ++ bytes)
decode_groups-eight v w x y z v' w' x' src bytes (h1, (h2, (h3, (h4, (h5, (h6, (h7, (h8, _))))))))
      rest =
    decode_groups-next [] (at v) v _ (letter v h1) refl
    ∙ decode_groups-next (v ∷ []) (at w) w _ (letter w h2) refl
    ∙ decode_groups-next (v ∷ w ∷ []) (at x) x _ (letter x h3) refl
    ∙ decode_groups-next (v ∷ w ∷ x ∷ []) (at y) y _ (letter y h4) refl
    ∙ decode_groups-next (v ∷ w ∷ x ∷ y ∷ []) (at z) z _ (letter z h5) refl
    ∙ decode_groups-next (v ∷ w ∷ x ∷ y ∷ z ∷ []) (at v') v' _ (letter v' h6) refl
    ∙ decode_groups-next (v ∷ w ∷ x ∷ y ∷ z ∷ v' ∷ []) (at w') w' _ (letter w' h7) refl
    ∙ decode_groups-full (v ∷ w ∷ x ∷ y ∷ z ∷ v' ∷ w' ∷ []) (at x') x' src bytes (letter x' h8) refl
        rest

-- The bytes of a group are those of its values.
pack-quintets :
    (a b c d e : ℕ)
    → IsBytes (a ∷ b ∷ c ∷ d ∷ e ∷ [])
    → pack (quintets (a ∷ b ∷ c ∷ d ∷ e ∷ [])) ≡ a ∷ b ∷ c ∷ d ∷ e ∷ []
unfolding pack quintets
pack-quintets a b c d e (h, (k, (l, (m, (n, _))))) = ground arith

decode_groups-nil : decode_groups [] [] ≡ some []
unfolding decode_groups
decode_groups-nil = refl

pub decode_groups-spell :
    (bs : Bytes)
    → IsBytes bs
    → IsGroups bs
    → decode_groups [] (codes (spell (quintets bs))) ≡ some bs
unfolding IsGroups spell quintets
decode_groups-spell [] _ _ = decode_groups-nil
decode_groups-spell (a ∷ []) _ none' = absurd none'
decode_groups-spell (a ∷ b ∷ []) _ none' = absurd none'
decode_groups-spell (a ∷ b ∷ c ∷ []) _ none' = absurd none'
decode_groups-spell (a ∷ b ∷ c ∷ d ∷ []) _ none' = absurd none'
decode_groups-spell (a ∷ b ∷ c ∷ d ∷ e ∷ rest) (h, (k, (l, (m, (n, more))))) whole =
    let (h1, (h2, (h3, (h4, (h5, (h6, (h7, (h8, _)))))))) =
      All-quintets (a ∷ b ∷ c ∷ d ∷ e ∷ []) (h, (k, (l, (m, (n, tt))))) tt in
    decode_groups-eight (a / 8) (a % 8 * 4 + b / 64) (b / 2 % 32) (b % 2 * 16 + c / 16)
      (c % 16 * 2 + d / 128) (d / 4 % 32) (d % 4 * 8 + e / 32) (e % 32)
      (codes (spell (quintets rest))) rest (h1, (h2, (h3, (h4, (h5, (h6, (h7, (h8, tt))))))))
      (decode_groups-spell rest more whole)
    ∙ ap (λ bytes. some (bytes ++ rest)) (pack-quintets a b c d e (h, (k, (l, (m, (n, tt))))))

strip_newlines-spell :
    (vs : List ℕ) → All IsQuintet vs → strip_newlines (codes (spell vs)) ≡ codes (spell vs)
unfolding strip_newlines spell
strip_newlines-spell [] _ = refl
strip_newlines-spell (v ∷ vs) (h, rest) =
    ground (arith, (letter v h).no_line, strip_newlines-spell vs rest)

-- What is encoded decodes to its bytes.
pub decode-encode_base32 :
    (bs : Bytes) → IsBytes bs → IsGroups bs → decode_base32 (codes (encode_base32 bs)) ≡ some bs
unfolding decode_base32
decode-encode_base32 bs h whole =
    rw (encode_base32-spell bs whole) rw
      (strip_newlines-spell (quintets bs) (All-quintets bs h whole))
      (decode_groups-spell bs h whole)
