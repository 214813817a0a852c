-- ===== src/Common/Texts.antt =====
-- Go's strings as texts: concatenation, and the byte loops over ASCII delimiters. An ASCII byte of
-- a UTF-8 text is never part of a longer character, so to walk the characters is to walk the bytes.
use Prim.Native.Char.{Char, code}
use Prim.Native.Nat.{ℕ, zero, suc, ◌+◌, ◌/◌, ◌%◌}
use Prim.Native.String
use Prim.Native.String.{String}
use mathlib.Core.Option.{Option, none, some}
use mathlib.Core.Bool.{Bool, true, false, ◌&&◌, ◌||◌}
use mathlib.Core.List.{List, [], ◌∷◌}
use api_security_sdk.Common.Tests.{eqb, leb, ltb, if◌then◌else◌}

infixl 65 ◌<>◌
abbrev pub ◌<>◌ : String → String → String
s <> t = String.◌++◌ s t

-- The first `n` characters, `s[:n]`; a shorter text is returned whole.
abbrev pub take_text : ℕ → String → String
take_text zero s = ""
take_text (suc n) String.[] = ""
take_text (suc n) (String.◌∷◌ c s) = String.◌∷◌ c (take_text n s)

-- `s[i]`, none out of range
abbrev pub char_at? : String → ℕ → Option Char
char_at? String.[] i = none
char_at? (String.◌∷◌ c s) zero = some c
char_at? (String.◌∷◌ c s) (suc i) = char_at? s i

-- `s[:i]` at the first `i` with `s[i] == b`, or the whole text.
abbrev pub before : ℕ → String → String
before b String.[] = ""
before b (String.◌∷◌ c s) = if eqb (code c) b then "" else String.◌∷◌ c (before b s)

-- `strings.HasPrefix` and `strings.TrimPrefix` in one: the text behind the prefix.
abbrev pub strip_prefix : String → String → Option String
strip_prefix String.[] s = some s
strip_prefix (String.◌∷◌ p ps) String.[] = none
strip_prefix (String.◌∷◌ p ps) (String.◌∷◌ c s) =
    if eqb (code p) (code c) then strip_prefix ps s else none

-- The decimal digits of a number, with fuel for one digit a step.
unfoldable pub decimal_digit : ℕ → String
decimal_digit d = String.slice "0123456789" d (d + 1)

unfoldable pub show_from : ℕ → ℕ → String
show_from zero n = ""
show_from (suc fuel) n =
    let more = show_from fuel (n / 10) in
    if ltb n 10 then decimal_digit n else more <> decimal_digit (n % 10)

-- `strconv.FormatInt(n, 10)`
unfoldable pub show_ℕ : ℕ → String
unfolding show_from decimal_digit
show_ℕ n = show_from (suc n) n

-- The lower case of an ASCII letter, and the letter that a character folds to. Only the long s
-- (383) and the Kelvin sign (8490) fold to an ASCII letter from outside ASCII.
abbrev pub fold_code : ℕ → ℕ
fold_code c =
    if leb b'A' c && leb c b'Z'
    then c + 32
    else if eqb c 383
    then b's'
    else if eqb c 8490
    then b'k'
    else c

-- `strings.EqualFold(s, t)` for an ASCII text `t` in lower case.
abbrev pub equal_fold : String → String → Bool
equal_fold String.[] String.[] = true
equal_fold (String.◌∷◌ c s) (String.◌∷◌ d t) = eqb (fold_code (code c)) (code d) && equal_fold s t
equal_fold _ _ = false

-- The text behind a prefix that is met up to case; the prefix is ASCII in lower case.
abbrev pub strip_prefix_fold : String → String → Option String
strip_prefix_fold String.[] s = some s
strip_prefix_fold (String.◌∷◌ p ps) String.[] = none
strip_prefix_fold (String.◌∷◌ p ps) (String.◌∷◌ c s) =
    if eqb (fold_code (code c)) (code p) then strip_prefix_fold ps s else none

-- `strings.Contains(strings.ToLower(s), t)` for an ASCII text `t` in lower case, without "i" or "s".
abbrev pub contains_fold : String → String → Bool
contains_fold String.[] t = elim (strip_prefix_fold t "") [ none ↦ false | some _ ↦ true ]
contains_fold (String.◌∷◌ c s) t = elim (strip_prefix_fold t (String.◌∷◌ c s)) [
  | none ↦ contains_fold s t
  | some _ ↦ true
]

-- `unicode.IsSpace`
abbrev pub is_space : ℕ → Bool
is_space c =
    (leb 9 c && leb c 13)
    || (eqb c 32
        || (eqb c 133
            || (eqb c 160
                || (eqb c 5760
                    || ((leb 8192 c && leb c 8202)
                        || (eqb c 8232
                            || (eqb c 8233 || (eqb c 8239 || (eqb c 8287 || eqb c 12288)))))))))

abbrev pub push_field : String → List String → List String
push_field String.[] fields = fields
push_field s fields = s ∷ fields

-- The field that is being read, and the fields behind it.
abbrev pub fields_from : String → String × List String
fields_from String.[] = ("", [])
fields_from (String.◌∷◌ c s) =
    let (word, rest) = fields_from s in
    if is_space (code c) then ("", push_field word rest) else (String.◌∷◌ c word, rest)

-- `strings.Fields(s)`
unfoldable pub fields : String → List String
fields s = let (word, rest) = fields_from s in push_field word rest
