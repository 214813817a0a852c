-- ===== src/Common/Base64/RoundTrip.antt =====
-- encoding/base64: what is encoded decodes to its bytes, and its characters are of the alphabet.
use Prim.Native.Char.{code}
use Prim.Native.Nat.{ℕ, ◌<◌}
use Prim.Native.String.{String}
use mathlib.Core.Path.{◌≡◌, refl}
use mathlib.Core.Bool.{Bool, true, false, ◌&&◌, ◌||◌, not}
use mathlib.Core.Option.{Option, none, some}
use mathlib.Core.List.{List, [], ◌∷◌}
use native.Mathlib.Omega.{arith}
use api_security_sdk.Common.Tests.{all_below, all_below_sound, eqb}
use api_security_sdk.Common.Lists.{All}
use api_security_sdk.Common.Bytes.{Bytes, IsBytes, codes}
use api_security_sdk.Common.Base64.{
  url_value, std_value, sextets, join_sextets, decode_base64, url_alphabet, std_alphabet,
  split_sextets, sextet_char, print_sextets, decode_base64_url, decode_base64_std,
  encode_base64_url, encode_base64_std,
}

abbrev IsSextet : ℕ → Type 0
IsSextet v = v < 64

-- The values of a group and those of the rest.
All-split_sextets : (bs : Bytes) → IsBytes bs → All IsSextet (split_sextets bs)
unfolding split_sextets
All-split_sextets [] _ = tt
All-split_sextets (a ∷ []) (h, _) = (omega arith, (omega arith, tt))
All-split_sextets (a ∷ b ∷ []) (h, (k, _)) = (omega arith, (omega arith, (omega arith, tt)))
All-split_sextets (a ∷ b ∷ c ∷ rest) (h, (k, (l, more))) =
    (omega arith, (omega arith, (omega arith, (omega arith, All-split_sextets rest more))))

join-split : (bs : Bytes) → IsBytes bs → join_sextets (split_sextets bs) ≡ some bs
unfolding join_sextets split_sextets
join-split [] _ = refl
join-split (a ∷ []) (h, _) = ground arith
join-split (a ∷ b ∷ []) (h, (k, _)) = ground arith
join-split (a ∷ b ∷ c ∷ rest) (h, (k, (l, more))) = ground (arith, join-split rest more)

-- The character of a value is read as the value, and is no line break and no dollar sign.
abbrev reads_as : ℕ → Option ℕ → ℕ → Bool
reads_as c found n =
    not (eqb c 10 || (eqb c 13 || eqb c b'$')) && elim found [ none ↦ false | some v ↦ eqb v n ]

abbrev reads : (ℕ → Option ℕ) → String → ℕ → Bool
reads value alphabet n =
    reads_as (code (sextet_char alphabet n)) (value (code (sextet_char alphabet n))) n

reads_as_sound :
    (c : ℕ) (found : Option ℕ) (n : ℕ)
    → reads_as c found n ≡ true
    → (found ≡ some n) × ((eqb c 10 || eqb c 13) ≡ false) × (eqb c b'$' ≡ false)
reads_as_sound c none n h = absurd (ground arith)
reads_as_sound c (some v) n h = (ground arith, ground arith, ground arith)

-- An alphabet and the values of its characters.
pub record IsAlphabet (value : ℕ → Option ℕ) (alphabet : String) : Type 0 where
  pub all_read : all_below 64 (reads value alphabet) ≡ true

pub url_IsAlphabet : IsAlphabet url_value url_alphabet
unfolding sextet_char
url_IsAlphabet = record { all_read = refl }

pub std_IsAlphabet : IsAlphabet std_value std_alphabet
unfolding sextet_char
std_IsAlphabet = record { all_read = refl }

module _ (value : ℕ → Option ℕ) (alphabet : String) (good : IsAlphabet value alphabet) where
  value-sextet_char :
      (n : ℕ)
      → n < 64
      → (value (code (sextet_char alphabet n)) ≡ some n)
        × ((eqb (code (sextet_char alphabet n)) 10 || eqb (code (sextet_char alphabet n)) 13)
            ≡ false)
        × (eqb (code (sextet_char alphabet n)) b'$' ≡ false)
  value-sextet_char n h =
      reads_as_sound (code (sextet_char alphabet n)) (value (code (sextet_char alphabet n))) n
        (all_below_sound 64 (reads value alphabet) n good.all_read h)

  sextets-print :
      (vs : List ℕ) → All IsSextet vs → sextets value (codes (print_sextets alphabet vs)) ≡ some vs
  unfolding sextets print_sextets
  sextets-print [] _ = refl
  sextets-print (v ∷ vs) (h, rest) =
      let (read, line, _) = value-sextet_char v h in ground (arith, sextets-print vs rest)

  -- No dollar sign stands in an encoded text.
  pub print-plain :
      (vs : List ℕ)
      → All IsSextet vs
      → All (λ c. eqb c b'$' ≡ false) (codes (print_sextets alphabet vs))
  unfolding print_sextets
  print-plain [] _ = tt
  print-plain (v ∷ vs) (h, rest) = ((value-sextet_char v h).2, print-plain vs rest)

  decode-encode :
      (bs : Bytes)
      → IsBytes bs
      → decode_base64 value (codes (print_sextets alphabet (split_sextets bs))) ≡ some bs
  unfolding decode_base64
  decode-encode bs h =
      ground (arith, sextets-print (split_sextets bs) (All-split_sextets bs h), join-split bs h)

pub decode-encode_base64_url :
    (bs : Bytes) → IsBytes bs → decode_base64_url (encode_base64_url bs) ≡ some bs
unfolding decode_base64_url encode_base64_url
decode-encode_base64_url bs h = decode-encode url_value url_alphabet url_IsAlphabet bs h

pub decode-encode_base64_std :
    (bs : Bytes) → IsBytes bs → decode_base64_std (codes (encode_base64_std bs)) ≡ some bs
unfolding decode_base64_std encode_base64_std
decode-encode_base64_std bs h = decode-encode std_value std_alphabet std_IsAlphabet bs h

pub encode_base64_std-plain :
    (bs : Bytes) → IsBytes bs → All (λ c. eqb c b'$' ≡ false) (codes (encode_base64_std bs))
unfolding encode_base64_std
encode_base64_std-plain bs h =
    print-plain std_value std_alphabet std_IsAlphabet (split_sextets bs) (All-split_sextets bs h)
