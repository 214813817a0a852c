-- ===== src/Passwords.antt =====
-- passwdpolicy/passwdpolicy.go: the rules of a policy, the entropy estimate and the strength.
-- Unicode's tables are the argument `u`, and float64 is the type `F` with the operations `fl`.
pub mod Rules
pub mod Entropy
use api_security_sdk.Common.{
  ℕ, ◌+◌, ◌≡◌, String, ◌<>◌, Bool, true, false, not, ◌&&◌, ◌||◌, ◌==◌, List, [], ◌∷◌, eqb, length,
  any, contains, if◌then◌else◌,
}
use api_security_sdk.Common.Int.{ℤ, pos, negsuc, gt_ℤ}
use api_security_sdk.Common.Bytes.{Bytes, codes}
use api_security_sdk.Common.Decimal.{format_int}

-- `is_special` is IsPunct or IsSymbol.
pub record Unicode : Type 0 where
  pub is_upper : ℕ → Bool
  pub is_lower : ℕ → Bool
  pub is_digit : ℕ → Bool
  pub is_special : ℕ → Bool
  pub to_lower : String → String
  pub equal_fold : String → String → Bool

-- `print` is the verb %.0f.
pub record Floats (F : Type 0) : Type 0 where
  pub of_int : ℕ → F
  pub log_2 : F → F
  pub times : F → F → F
  pub lt : F → F → Bool
  pub print : F → String

pub record Violation : Type 0 where
  pub rule : String
  pub message : String

-- `Violation.Error`
unfoldable pub error : Violation → String
error v = v.rule <> ": " <> v.message

pub record Policy (F : Type 0) : Type 0 where
  pub min_length : ℤ
  pub max_length : ℤ
  pub require_upper : Bool
  pub require_lower : Bool
  pub require_digit : Bool
  pub require_special : Bool
  pub min_entropy : F
  pub disallow_common : Bool
  pub blocklist : List String

-- `commonPasswords`
abbrev pub common_passwords : List String
common_passwords =
    "password" ∷ "123456" ∷ "12345678" ∷ "qwerty" ∷ "abc123" ∷ "monkey" ∷ "1234567" ∷ "letmein"
    ∷ "trustno1" ∷ "dragon" ∷ "baseball" ∷ "iloveyou" ∷ "master" ∷ "sunshine" ∷ "ashley" ∷ "bailey"
    ∷ "passw0rd" ∷ "shadow" ∷ "123123" ∷ "654321" ∷ "superman" ∷ "qazwsx" ∷ "michael" ∷ "football"
    ∷ "password1" ∷ "password123" ∷ "welcome" ∷ "login" ∷ "admin" ∷ "admin123" ∷ "root" ∷ "toor"
    ∷ "pass" ∷ "test" ∷ "guest" ∷ "qwerty123" ∷ "1q2w3e" ∷ "1q2w3e4r" ∷ "1q2w3e4r5t" ∷ "zxcvbnm"
    ∷ "asdfghjkl" ∷ "qwertyuiop" ∷ "111111" ∷ "000000" ∷ "1111111" ∷ "11111111" ∷ "12345"
    ∷ "123456789" ∷ "1234567890" ∷ "princess" ∷ "starwars" ∷ "cheese" ∷ "summer" ∷ "flower"
    ∷ "playboy" ∷ "soccer" ∷ "hockey" ∷ "ranger" ∷ "batman" ∷ "hannah" ∷ "jessica" ∷ "george"
    ∷ "jordan" ∷ "harley" ∷ "ranger1" ∷ "daniel" ∷ "hunter" ∷ "hunter2" ∷ "buster" ∷ "robert"
    ∷ "thomas" ∷ "charlie" ∷ "andrew" ∷ "andrea" ∷ "joshua" ∷ "jonathan" ∷ "nicholas" ∷ []

-- The character classes that a loop has met.
pub record Classes : Type 0 where
  pub has_upper : Bool
  pub has_lower : Bool
  pub has_digit : Bool
  pub has_special : Bool

unfoldable pub see : Unicode → ℕ → Classes → Classes
see u c k =
    if u.is_upper c
    then record k { has_upper = true }
    else if u.is_lower c
    then record k { has_lower = true }
    else if u.is_digit c
    then record k { has_digit = true }
    else if u.is_special c
    then record k { has_special = true }
    else k

-- The loop over the characters.
unfoldable pub see_all : Unicode → Bytes → Classes → Classes
unfolding see
see_all u [] k = k
see_all u (c ∷ cs) k = see_all u cs (see u c k)

unfoldable pub classes : Unicode → String → Classes
unfolding see_all
classes u password =
    see_all u (codes password)
      (record { has_upper = false; has_lower = false; has_digit = false; has_special = false })

unfoldable pub pool_size : Classes → ℕ
pool_size k =
    (if k.has_lower then 26 else 0)
    + (if k.has_upper then 26 else 0)
    + (if k.has_digit then 10 else 0)
    + (if k.has_special then 32 else 0)

pub data Strength : Type 0 where
  very_weak weak fair strong very_strong : Strength

unfoldable pub strength_string : Strength → String
strength_string very_weak = "very weak"
strength_string weak = "weak"
strength_string fair = "fair"
strength_string strong = "strong"
strength_string very_strong = "very strong"

-- The default of `MinLength`.
abbrev pub default_length : ℤ → ℤ
default_length (pos n) = if eqb n 0 then pos 8 else pos n
default_length (negsuc n) = negsuc n

-- One test of a password: its violation comes before those of the later tests.
unfoldable pub add : Bool → String → String → List Violation → List Violation
add failed rule message later =
    if failed then record { rule = rule; message = message } ∷ later else later

unfoldable pub too_short : ℤ → ℕ → Bool
too_short min_length n = gt_ℤ min_length (pos n)

unfoldable pub too_long : ℤ → ℕ → Bool
too_long max_length n = gt_ℤ max_length (pos 0) && gt_ℤ (pos n) max_length

unfoldable pub lacks : Bool → Bool → Bool
lacks required has = required && not has

module _ {F : Type 0} (u : Unicode) (fl : Floats F) where
  unfoldable pub owasp : Policy F
  owasp = record {
    min_length = pos 8;
    max_length = pos 0;
    require_upper = false;
    require_lower = false;
    require_digit = false;
    require_special = false;
    min_entropy = fl.of_int 28;
    disallow_common = true;
    blocklist = [];
  }

  unfoldable pub strict : Policy F
  strict = record {
    min_length = pos 12;
    max_length = pos 0;
    require_upper = true;
    require_lower = true;
    require_digit = true;
    require_special = true;
    min_entropy = fl.of_int 50;
    disallow_common = true;
    blocklist = [];
  }

  unfoldable pub estimate_entropy : String → Classes → F
  unfolding pool_size
  estimate_entropy password k =
      if eqb (pool_size k) 0
      then fl.of_int 0
      else fl.times (fl.of_int (length (codes password))) (fl.log_2 (fl.of_int (pool_size k)))

  -- `applyDefaults`, on the copy that `Validate` has.
  unfoldable pub apply_defaults : Policy F → Policy F
  apply_defaults p = record p { min_length = default_length p.min_length }

  unfoldable pub too_weak : Policy F → F → Bool
  too_weak p entropy = fl.lt (fl.of_int 0) p.min_entropy && fl.lt entropy p.min_entropy

  unfoldable pub is_refused_common : Policy F → String → Bool
  is_refused_common p password =
      p.disallow_common && contains common_passwords (u.to_lower password)

  unfoldable pub is_blocked : Policy F → String → Bool
  is_blocked p password = any (u.equal_fold password) p.blocklist

  -- `Validate`, the violations in the order of the tests.
  unfoldable pub violations : Policy F → String → List Violation
  violations p password =
      let n = length (codes password) in
      let k = classes u password in
      let entropy = estimate_entropy password k in
      add (too_short p.min_length n) "min_length"
        ("must be at least " <> format_int p.min_length <> " characters long")
        (add (too_long p.max_length n) "max_length"
          ("must be at most " <> format_int p.max_length <> " characters long")
          (add (lacks p.require_upper k.has_upper) "require_upper"
            "must contain at least one uppercase letter"
            (add (lacks p.require_lower k.has_lower) "require_lower"
              "must contain at least one lowercase letter"
              (add (lacks p.require_digit k.has_digit) "require_digit"
                "must contain at least one digit"
                (add (lacks p.require_special k.has_special) "require_special"
                  "must contain at least one special character"
                  (add (too_weak p entropy) "min_entropy"
                    ("password is too weak (estimated "
                      <> fl.print entropy
                      <> " bits, need "
                      <> fl.print p.min_entropy
                      <> ")")
                    (add (is_refused_common p password) "common_password"
                      "this password is too common; choose a more unique password"
                      (add (is_blocked p password) "blocklist" "this password is not allowed"
                        []))))))))

  unfoldable pub validate : Policy F → String → List Violation
  unfolding violations apply_defaults
  validate p password = violations (apply_defaults p) password

  unfoldable pub is_valid : Policy F → String → Bool
  unfolding validate
  is_valid p password = eqb (length (validate p password)) 0

  unfoldable pub estimate_strength : String → Strength
  estimate_strength password =
      let entropy = estimate_entropy password (classes u password) in
      if fl.lt entropy (fl.of_int 28)
      then very_weak
      else if fl.lt entropy (fl.of_int 36)
      then weak
      else if fl.lt entropy (fl.of_int 50)
      then fair
      else if fl.lt entropy (fl.of_int 65)
      then strong
      else very_strong
