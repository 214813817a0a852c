-- ===== src/Otp/Uri.antt =====
-- otp/totp.go: the provisioning URI, with the escaping of net/url, and the backup codes.
use Prim.Native.Char.{Char, nul}
use api_security_sdk.Common.{
  ℕ, zero, suc, ◌+◌, ◌-◌, ◌/◌, ◌%◌, ◌≡◌, refl, String, ◌<>◌, Bool, ◌&&◌, ◌||◌, none, some, List, [],
  ◌∷◌, Result, ok, err, leb, eqb, char_at?, take_text, show_ℕ, if◌then◌else◌,
}
use api_security_sdk.Common.Int.{ℤ, pos, negsuc}
use api_security_sdk.Common.Bytes.{Bytes, utf8}
use api_security_sdk.Otp.{Error, panics, random_failed, default_digits, default_period}

abbrev at_or_nul : String → ℕ → Char
at_or_nul s n = elim (char_at? s n) [ none ↦ nul | some c ↦ c ]

-- The characters from 32 to 126, to print a byte that stays as it is.
abbrev ascii : String
ascii =
    " !\"#$%&'()*+,-./0123456789:;<=>?@ABCDEFGHIJKLMNOPQRSTUVWXYZ[\\]^_`abcdefghijklmnopqrstuvwxyz{|}~"

abbrev is_unreserved : ℕ → Bool
is_unreserved c =
    (leb b'a' c && leb c b'z')
    || ((leb b'A' c && leb c b'Z')
        || ((leb b'0' c && leb c b'9')
            || (eqb c b'-' || (eqb c b'_' || (eqb c b'.' || eqb c b'~')))))

-- What a path segment and a query component keep.
unfoldable pub kept_in_path : ℕ → Bool
kept_in_path c =
    is_unreserved c
    || (eqb c b'$' || (eqb c b'&' || (eqb c b'+' || (eqb c b':' || (eqb c b'=' || eqb c b'@')))))

unfoldable pub kept_in_query : ℕ → Bool
kept_in_query c = is_unreserved c

abbrev percent : ℕ → String → String
percent b s = String.◌∷◌ "%" (
    String.◌∷◌ (at_or_nul "0123456789ABCDEF" (b / 16))
      (String.◌∷◌ (at_or_nul "0123456789ABCDEF" (b % 16)) s))

abbrev printed : ℕ → String → String
printed b s = String.◌∷◌ (at_or_nul ascii (b - 32)) s

unfoldable pub escape_path : Bytes → String
unfolding kept_in_path
escape_path [] = ""
escape_path (b ∷ bs) =
    let rest = escape_path bs in if kept_in_path b then printed b rest else percent b rest

unfoldable pub escape_query : Bytes → String
unfolding kept_in_query
escape_query [] = ""
escape_query (b ∷ bs) =
    let rest = escape_query bs in
    if eqb b 32
    then String.◌∷◌ "+" rest
    else if kept_in_query b
    then printed b rest
    else percent b rest

-- `ProvisioningURI`; `Encode` sorts the names.
unfoldable pub provisioning_uri : (account issuer secret : String) → String
unfolding escape_path escape_query utf8
provisioning_uri account issuer secret =
    "otpauth://totp/"
    <> escape_path (utf8 (issuer <> ":" <> account))
    <> "?algorithm=SHA1&digits="
    <> show_ℕ default_digits
    <> "&issuer="
    <> escape_query (utf8 issuer)
    <> "&period="
    <> show_ℕ default_period
    <> "&secret="
    <> escape_query (utf8 secret)

-- Crockford's alphabet.
abbrev pub crockford : String
crockford = "0123456789ABCDEFGHJKMNPQRSTVWXYZ"

unfoldable pub backup_chars : Bytes → String
backup_chars [] = ""
backup_chars (c ∷ cs) = String.◌∷◌ (at_or_nul crockford (c % 32)) (backup_chars cs)

abbrev drop_text : ℕ → String → String
drop_text zero s = s
drop_text (suc n) String.[] = ""
drop_text (suc n) (String.◌∷◌ c s) = drop_text n s

unfoldable pub backup_code : Bytes → String
unfolding backup_chars
backup_code buf = let b = backup_chars buf in take_text 5 b <> "-" <> drop_text 5 b

-- The codes from the `i`-th on, of which `n` are left; `random i` is the outcome of the `i`-th read.
unfoldable pub backup_codes_from : (ℕ → Result String Bytes) → ℕ → ℕ → Result Error (List String)
unfolding backup_code
backup_codes_from random i zero = ok []
backup_codes_from random i (suc n) =
    let rest = backup_codes_from random (i + 1) n in
    elim (random i) [
      | err e ↦ err (random_failed e)
      | ok buf ↦ elim rest [ err e ↦ err e | ok codes ↦ ok (backup_code buf ∷ codes) ]
    ]

-- `GenerateBackupCodes`; a slice of negative length panics.
unfoldable pub generate_backup_codes : (ℕ → Result String Bytes) → ℤ → Result Error (List String)
unfolding backup_codes_from
generate_backup_codes random (pos n) = backup_codes_from random 0 n
generate_backup_codes random (negsuc n) = err panics

shown : escape_query (utf8 "My App/é?") ≡ "My+App%2F%C3%A9%3F"
unfolding escape_query utf8
shown = refl

backed_up :
    generate_backup_codes (λ i. ok (0 ∷ 1 ∷ 2 ∷ 31 ∷ 32 ∷ 33 ∷ 255 ∷ 10 ∷ 18 ∷ 19 ∷ [])) (pos 1)
    ≡ ok ("012Z0-1ZAJK" ∷ [])
unfolding generate_backup_codes
backed_up = refl
