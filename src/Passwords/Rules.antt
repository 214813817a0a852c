-- ===== src/Passwords/Rules.antt =====
-- passwdpolicy/passwdpolicy.go: the passwords without a violation.
use api_security_sdk.Common.{
  ℕ, ◌≤◌, ◌≡◌, ◌↔◌, refl, String, Bool, true, false, not, ◌&&◌, ◌||◌, List, [], ◌∷◌, length, any,
  any_sound, any_complete, contains, arith, Memᴰ, ap, eqb, Bool-cases, inl, inr,
}
use api_security_sdk.Common.Int.{ℤ, pos, negsuc, gt_ℤ}
use api_security_sdk.Common.Bytes.{Bytes, codes}
use api_security_sdk.Passwords.{
  Unicode, Floats, Policy, Violation, Classes, see, see_all, classes, common_passwords,
  estimate_entropy, add, too_short, too_long, lacks, too_weak, is_refused_common, is_blocked,
  violations, validate, default_length, apply_defaults, is_valid,
}

-- The class that the loop counts a character in: the first of its four.
abbrev pub upper : Unicode → ℕ → Bool
upper u c = u.is_upper c

abbrev pub lower : Unicode → ℕ → Bool
lower u c = not (u.is_upper c) && u.is_lower c

abbrev pub digit : Unicode → ℕ → Bool
digit u c = not (u.is_upper c || u.is_lower c) && u.is_digit c

abbrev pub special : Unicode → ℕ → Bool
special u c = not (u.is_upper c || (u.is_lower c || u.is_digit c)) && u.is_special c

-- A character of the password passes the test.
abbrev pub Has : (ℕ → Bool) → String → Type 0
Has p password = (c : ℕ) × Memᴰ c (codes password) × (p c ≡ true)

see_all-any :
    (u : Unicode) (cs : Bytes) (k : Classes)
    → ((see_all u cs k).has_upper ≡ (k.has_upper || any (upper u) cs))
      × ((see_all u cs k).has_lower ≡ (k.has_lower || any (lower u) cs))
      × ((see_all u cs k).has_digit ≡ (k.has_digit || any (digit u) cs))
      × ((see_all u cs k).has_special ≡ (k.has_special || any (special u) cs))
unfolding see_all see
see_all-any u [] k = ground arith
see_all-any u (c ∷ cs) k =
    let (a, b, d, s) = see_all-any u cs (see u c k) in
    (ground arith, ground arith, ground arith, ground arith)

add_nil :
    (failed : Bool) (rule message : String) (rest : List Violation)
    → add failed rule message rest ≡ []
    → (failed ≡ false) × (rest ≡ [])
unfolding add
add_nil failed rule message rest h = (ground arith, ground arith)

and_iff : (a b : Bool) → ((a && b) ≡ false) ↔ (a ≡ true → b ≡ false)
and_iff true b = (λ h _. h, λ h. h refl)
and_iff false b = (λ _ h. absurd (ground arith), λ _. refl)

any_iff : (p : ℕ → Bool) (s : String) → (any p (codes s) ≡ true) ↔ Has p s
any_iff p s = (any_sound p (codes s), λ (c, at, h). any_complete p at h)

module _ {F : Type 0} (u : Unicode) (fl : Floats F) (p : Policy F) (password : String) where
  -- What the tests ask of a password.
  record Passes : Type 0 where
    long_enough : gt_ℤ p.min_length (pos (length (codes password))) ≡ false
    short_enough :
        gt_ℤ p.max_length (pos 0) ≡ true → gt_ℤ (pos (length (codes password))) p.max_length ≡ false
    with_upper : p.require_upper ≡ true → Has (upper u) password
    with_lower : p.require_lower ≡ true → Has (lower u) password
    with_digit : p.require_digit ≡ true → Has (digit u) password
    with_special : p.require_special ≡ true → Has (special u) password
    strong_enough :
        fl.lt (fl.of_int 0) p.min_entropy ≡ true
        → fl.lt (estimate_entropy u fl password (classes u password)) p.min_entropy ≡ false
    uncommon : p.disallow_common ≡ true → contains common_passwords (u.to_lower password) ≡ false
    unblocked : any (u.equal_fold password) p.blocklist ≡ false

  -- A class that is required is there.
  lacks_iff :
      (required has : Bool) (test : ℕ → Bool)
      → has ≡ any test (codes password)
      → (lacks required has ≡ false) ↔ (required ≡ true → Has test password)
  unfolding lacks
  lacks_iff false has test same = (λ _ h. absurd (ground arith), λ _. refl)
  lacks_iff true has test same = (
    λ e _. (any_iff test password).0 (ground arith),
    λ h. let there = (any_iff test password).1 (h refl) in ground arith,
  )

  long_iff : (too_long p.max_length (length (codes password)) ≡ false) ↔ (
      gt_ℤ p.max_length (pos 0) ≡ true → gt_ℤ (pos (length (codes password))) p.max_length ≡ false)
  unfolding too_long
  long_iff = and_iff _ _

  weak_iff : (too_weak u fl p (estimate_entropy u fl password (classes u password)) ≡ false) ↔ (
      fl.lt (fl.of_int 0) p.min_entropy ≡ true
      → fl.lt (estimate_entropy u fl password (classes u password)) p.min_entropy ≡ false)
  unfolding too_weak
  weak_iff = and_iff _ _

  common_iff :
      (is_refused_common u fl p password ≡ false)
      ↔ (p.disallow_common ≡ true → contains common_passwords (u.to_lower password) ≡ false)
  unfolding is_refused_common
  common_iff = and_iff _ _

  tests_meet :
      (violations u fl p password ≡ [])
      ↔ (too_short p.min_length (length (codes password)) ≡ false)
        × (too_long p.max_length (length (codes password)) ≡ false)
        × (lacks p.require_upper (classes u password).has_upper ≡ false)
        × (lacks p.require_lower (classes u password).has_lower ≡ false)
        × (lacks p.require_digit (classes u password).has_digit ≡ false)
        × (lacks p.require_special (classes u password).has_special ≡ false)
        × (too_weak u fl p (estimate_entropy u fl password (classes u password)) ≡ false)
        × (is_refused_common u fl p password ≡ false)
        × (is_blocked u fl p password ≡ false)
  unfolding violations
  tests_meet = (
    λ clean.
        let (a, after_a) = add_nil _ _ _ _ clean in
        let (b, after_b) = add_nil _ _ _ _ after_a in
        let (c, after_c) = add_nil _ _ _ _ after_b in
        let (d, after_d) = add_nil _ _ _ _ after_c in
        let (e, after_e) = add_nil _ _ _ _ after_d in
        let (f, after_f) = add_nil _ _ _ _ after_e in
        let (g, after_g) = add_nil _ _ _ _ after_f in
        let (h, after_h) = add_nil _ _ _ _ after_g in
        let (i, _) = add_nil _ _ _ _ after_h in (a, b, c, d, e, f, g, h, i),
    λ (a, b, c, d, e, f, g, h, i). unfold add in rw a rw b rw c rw d rw e rw f rw g rw h rw i refl,
  )

  -- The tests that `Validate` makes find nothing exactly if the password passes.
  violations_nil_iff : (violations u fl p password ≡ []) ↔ Passes
  unfolding classes
  violations_nil_iff =
      let (u', l, d, s) =
        see_all-any u (codes password) (record {
          has_upper = false;
          has_lower = false;
          has_digit = false;
          has_special = false;
        }) in
      let upper_iff = lacks_iff p.require_upper _ (upper u) u' in
      let lower_iff = lacks_iff p.require_lower _ (lower u) l in
      let digit_iff = lacks_iff p.require_digit _ (digit u) d in
      let special_iff = lacks_iff p.require_special _ (special u) s in
      (
        λ clean.
            let (short, long, no_upper, no_lower, no_digit, no_special, weak, common, blocked) =
              tests_meet.0 clean in
            record {
              long_enough = unfold too_short in short;
              short_enough = long_iff.0 long;
              with_upper = upper_iff.0 no_upper;
              with_lower = lower_iff.0 no_lower;
              with_digit = digit_iff.0 no_digit;
              with_special = special_iff.0 no_special;
              strong_enough = weak_iff.0 weak;
              uncommon = common_iff.0 common;
              unblocked = unfold is_blocked in blocked;
            },
        λ m. tests_meet.1 (
          unfold too_short in m.long_enough,
          long_iff.1 m.short_enough,
          upper_iff.1 m.with_upper,
          lower_iff.1 m.with_lower,
          digit_iff.1 m.with_digit,
          special_iff.1 m.with_special,
          weak_iff.1 m.strong_enough,
          common_iff.1 m.uncommon,
          unfold is_blocked in m.unblocked,
        ),
      )

-- A least length of 0 stands for 8.
least_iff :
    (least : ℤ) (n : ℕ)
    → (gt_ℤ (default_length least) (pos n) ≡ false)
      ↔ (least ≡ pos 0 → 8 ≤ n) × (gt_ℤ least (pos n) ≡ false)
least_iff (pos m) n = elim (Bool-cases (eqb m 0)) [
  | inl unset ↦
      let zero' : m ≡ 0 = ground arith in
      rw unset (
        λ h. (λ _. ground arith, ground arith),
        λ (eight, _). let long = eight (ap pos zero') in ground arith,
      )
  | inr set ↦ rw set (λ h. (λ e. absurd (ground (arith, e)), h), λ (_, h). h)
]
least_iff (negsuc m) n = (λ h. (λ e. absurd (ground (arith, e)), refl), λ _. refl)

-- `IsValid` makes the tests with the defaults filled in.
is_valid-Passes :
    {F : Type 0} (u : Unicode) (fl : Floats F) (p : Policy F) (password : String)
    → (is_valid u fl p password ≡ true) ↔ Passes u fl (apply_defaults u fl p) password
unfolding is_valid validate
is_valid-Passes u fl p password =
    let passes = violations_nil_iff u fl (apply_defaults u fl p) password in
    (λ valid. passes.0 (ground arith), λ m. let clean = passes.1 m in ground (arith, clean))

-- A valid password has the entropy that the policy asks for.
pub is_valid-entropy :
    {F : Type 0} (u : Unicode) (fl : Floats F) (p : Policy F) (password : String)
    → is_valid u fl p password ≡ true
    → fl.lt (fl.of_int 0) p.min_entropy ≡ true
    → fl.lt (estimate_entropy u fl password (classes u password)) p.min_entropy ≡ false
unfolding apply_defaults
is_valid-entropy u fl p password valid = ((is_valid-Passes u fl p password).0 valid).strong_enough

module _ {F : Type 0} (u : Unicode) (fl : Floats F) (p : Policy F) (password : String) where
  -- The classes of the characters, as the estimate of the entropy reads them.
  abbrev pub found : Classes
  found = record {
    has_upper = any (upper u) (codes password);
    has_lower = any (lower u) (codes password);
    has_digit = any (digit u) (codes password);
    has_special = any (special u) (codes password);
  }

  -- What a policy asks of a password; a least length of 0 stands for 8.
  pub record Meets : Type 0 where
    pub eight_if_unset : p.min_length ≡ pos 0 → 8 ≤ length (codes password)
    pub long_enough : gt_ℤ p.min_length (pos (length (codes password))) ≡ false
    pub short_enough :
        gt_ℤ p.max_length (pos 0) ≡ true → gt_ℤ (pos (length (codes password))) p.max_length ≡ false
    pub with_upper : p.require_upper ≡ true → Has (upper u) password
    pub with_lower : p.require_lower ≡ true → Has (lower u) password
    pub with_digit : p.require_digit ≡ true → Has (digit u) password
    pub with_special : p.require_special ≡ true → Has (special u) password
    pub strong_enough :
        fl.lt (fl.of_int 0) p.min_entropy ≡ true
        → fl.lt (estimate_entropy u fl password found) p.min_entropy ≡ false
    pub uncommon :
        p.disallow_common ≡ true → contains common_passwords (u.to_lower password) ≡ false
    pub unblocked : any (u.equal_fold password) p.blocklist ≡ false

  classes-found : classes u password ≡ found
  unfolding classes
  classes-found =
      let (up, low, dig, spec) =
        see_all-any u (codes password) (record {
          has_upper = false;
          has_lower = false;
          has_digit = false;
          has_special = false;
        }) in
      ground (arith, up, low, dig, spec)

  length_iff :
      (gt_ℤ (default_length p.min_length) (pos (length (codes password))) ≡ false)
      ↔ (p.min_length ≡ pos 0 → 8 ≤ length (codes password))
        × (gt_ℤ p.min_length (pos (length (codes password))) ≡ false)
  length_iff = least_iff p.min_length (length (codes password))

  -- `IsValid` answers true exactly for the passwords that meet the policy, a least length of 0
  -- standing for 8. A class that the policy requires is met by any character that Unicode counts in
  -- it, also outside A-Z, a-z and 0-9, unless it is in one of the classes before: upper case, lower
  -- case, digit, special.
  pub is_valid_iff : (is_valid u fl p password ≡ true) ↔ Meets
  unfolding apply_defaults
  is_valid_iff = (
    λ valid.
        let m = (is_valid-Passes u fl p password).0 valid in
        let (eight, long) = length_iff.0 m.long_enough in
        record {
          eight_if_unset = eight;
          long_enough = long;
          short_enough = m.short_enough;
          with_upper = m.with_upper;
          with_lower = m.with_lower;
          with_digit = m.with_digit;
          with_special = m.with_special;
          strong_enough = rw (← classes-found) m.strong_enough;
          uncommon = m.uncommon;
          unblocked = m.unblocked;
        },
    λ m. (is_valid-Passes u fl p password).1 (record {
      long_enough = length_iff.1 (m.eight_if_unset, m.long_enough);
      short_enough = m.short_enough;
      with_upper = m.with_upper;
      with_lower = m.with_lower;
      with_digit = m.with_digit;
      with_special = m.with_special;
      strong_enough = rw classes-found m.strong_enough;
      uncommon = m.uncommon;
      unblocked = m.unblocked;
    }),
  )
