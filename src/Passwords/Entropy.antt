-- ===== src/Passwords/Entropy.antt =====
-- passwdpolicy/passwdpolicy.go: what the entropy rule means for the strength, and whom it refuses.
use api_security_sdk.Common.{
  ℕ, ◌≤◌, ◌<◌, ◌≡◌, ◌≢◌, ◌⊎◌, inl, inr, refl, String, true, false, [], ◌∷◌, All, arith, Bool-cases,
}
use api_security_sdk.Passwords.Rules.{is_valid-entropy}
use api_security_sdk.Common.Bytes.{Bytes, codes}
use api_security_sdk.Passwords.{
  Unicode, Floats, Policy, Classes, see, see_all, classes, pool_size, owasp, strict,
  estimate_entropy, apply_defaults, is_valid, very_weak, strong, very_strong, estimate_strength,
}

-- What the code relies on of the order of float64.
pub record IsOrdered {F : Type 0} (fl : Floats F) : Type 0 where
  pub positive : (n : ℕ) → 0 < n → fl.lt (fl.of_int 0) (fl.of_int n) ≡ true
  pub below :
      (x : F) (m n : ℕ) → m ≤ n → fl.lt x (fl.of_int m) ≡ true → fl.lt x (fl.of_int n) ≡ true

module _ {F : Type 0} (u : Unicode) (fl : Floats F) (ordered : IsOrdered fl) where
  -- A password that passes the OWASP policy is rated above very weak, and one that passes the strict
  -- policy strong or very strong.
  pub valid-strength :
      (password : String)
      → (is_valid u fl (owasp u fl) password ≡ true → estimate_strength u fl password ≢ very_weak)
        × (is_valid u fl (strict u fl) password ≡ true
            → (estimate_strength u fl password ≡ strong)
              ⊎ (estimate_strength u fl password ≡ very_strong))
  unfolding owasp strict estimate_strength apply_defaults
  valid-strength password =
      let e = estimate_entropy u fl password (classes u password) in
      (
        λ valid.
            let enough =
              is_valid-entropy u fl (owasp u fl) password valid
                (ordered.positive 28 (omega arith)) in
            λ weakest. absurd (ground arith),
        λ valid.
            let enough =
              is_valid-entropy u fl (strict u fl) password valid
                (ordered.positive 50 (omega arith)) in
            let over_28 : fl.lt e (fl.of_int 28) ≡ false = ground (arith, ordered.below e 28 50) in
            let over_36 : fl.lt e (fl.of_int 36) ≡ false = ground (arith, ordered.below e 36 50) in
            elim (Bool-cases (fl.lt e (fl.of_int 65))) [
              | inl h ↦ inl (ground arith)
              | inr h ↦ inr (ground arith)
            ],
      )

-- A character that the loop counts in no class.
pub record IsUnclassed (u : Unicode) (c : ℕ) : Type 0 where
  pub no_upper : u.is_upper c ≡ false
  pub no_lower : u.is_lower c ≡ false
  pub no_digit : u.is_digit c ≡ false
  pub no_special : u.is_special c ≡ false

see_all-unclassed :
    (u : Unicode) (cs : Bytes) (k : Classes) → All (IsUnclassed u) cs → see_all u cs k ≡ k
unfolding see_all see
see_all-unclassed u [] k _ = refl
see_all-unclassed u (c ∷ cs) k (h, rest) =
    rw h.no_upper rw h.no_lower rw h.no_digit rw h.no_special (see_all-unclassed u cs k rest)

-- A password of characters without upper or lower case that are no digits and no symbols, such as
-- spaces or Han characters, is refused by every policy with an entropy, however long it is.
pub unclassed_refused :
    {F : Type 0} (u : Unicode) (fl : Floats F) (p : Policy F) (password : String)
    → fl.lt (fl.of_int 0) p.min_entropy ≡ true
    → All (IsUnclassed u) (codes password)
    → is_valid u fl p password ≡ false
unfolding classes estimate_entropy pool_size apply_defaults
unclassed_refused u fl p password positive unclassed =
    let none_met : Classes = record {
      has_upper = false;
      has_lower = false;
      has_digit = false;
      has_special = false;
    } in
    let kept = see_all-unclassed u (codes password) none_met unclassed in
    elim (Bool-cases (is_valid u fl p password)) [
      | inr invalid ↦ invalid
      | inl valid ↦
          let enough = is_valid-entropy u fl p password valid positive in
          let refused : fl.lt (fl.of_int 0) p.min_entropy ≡ false = rw kept at enough in
          absurd (ground arith)
    ]
