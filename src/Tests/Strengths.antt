-- ===== src/Tests/Strengths.antt =====
-- passwdpolicy: passwords of ASCII characters, with an entropy in whole bits.
use api_security_sdk.Common.{
  ℕ, ◌*◌, ◌≡◌, ◌↔◌, refl, true, false, ◌&&◌, ◌==◌, [], ◌∷◌, leb, ltb, show_ℕ, map, if◌then◌else◌,
}
use api_security_sdk.Passwords.{
  Unicode, Floats, owasp, validate, is_valid, classes, estimate_entropy, add, too_short, too_long,
  lacks, too_weak, is_refused_common, is_blocked,
}
use api_security_sdk.Passwords.Rules.{Meets, is_valid_iff}
use api_security_sdk.Passwords.Entropy.{IsUnclassed, unclassed_refused}

abbrev ascii : Unicode
ascii = record {
  is_upper = λ c. leb b'A' c && leb c b'Z';
  is_lower = λ c. leb b'a' c && leb c b'z';
  is_digit = λ c. leb b'0' c && leb c b'9';
  is_special = λ c. leb b'!' c && leb c b'/';
  to_lower = λ s. s;
  equal_fold = λ s t. s == t;
}

-- The bits of a pool, for the pools of lower case and of digits.
abbrev bits : ℕ → ℕ
bits n = if ltb n 11 then 3 else if ltb n 27 then 4 else 5

abbrev whole : Floats ℕ
whole = record { of_int = λ n. n; log_2 = bits; times = λ a b. a * b; lt = ltb; print = show_ℕ }

refused :
    map (λ v. v.rule) (validate ascii whole (owasp ascii whole) "qwerty")
    ≡ "min_length" ∷ "min_entropy" ∷ "common_password" ∷ []
unfolding validate owasp classes estimate_entropy add too_short too_long lacks too_weak
    is_refused_common is_blocked
refused = refl

is_valid_iff_example :
    (is_valid ascii whole (owasp ascii whole) "correct horse" ≡ true)
    ↔ Meets ascii whole (owasp ascii whole) "correct horse"
is_valid_iff_example = is_valid_iff ascii whole (owasp ascii whole) "correct horse"

space : IsUnclassed ascii 32
space = record { no_upper = refl; no_lower = refl; no_digit = refl; no_special = refl }

positive : ltb 0 (owasp ascii whole).min_entropy ≡ true
unfolding owasp
positive = refl

unclassed_refused_example : is_valid ascii whole (owasp ascii whole) "         " ≡ false
unclassed_refused_example =
    unclassed_refused ascii whole (owasp ascii whole) "         " positive
      (space, (space, (space, (space, (space, (space, (space, (space, (space, tt)))))))))
