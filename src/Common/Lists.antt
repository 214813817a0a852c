-- ===== src/Common/Lists.antt =====
-- Lists with native lengths, the loops `for … if x == y return true`, and predicates on lists.
use Prim.Native.Nat.{ℕ, suc, ◌+◌}
use Prim.Native.String.{String}
use mathlib.Core.Path.{◌≡◌, refl, sym}
use mathlib.Core.Logic.{inl, inr, ◌↔◌}
use mathlib.Core.Bool.{Bool, true, false, ◌||◌}
use mathlib.Core.List.{List, [], ◌∷◌, ◌++◌, Memᴰ}
use native.Mathlib.Omega.{arith}
use text.Mathlib.Text.{◌==◌}
use text.Mathlib.TextEquality.{eq_iff}
use text.Mathlib.TextPositions.{eq_refl}
use api_security_sdk.Common.Tests.{Bool-cases}

module _ {ℓ} {A : Type ℓ} where
  abbrev pub length : List A → ℕ
  length [] = 0
  length (x ∷ xs) = suc (length xs)

  pub length-append : (xs ys : List A) → length (xs ++ ys) ≡ length xs + length ys
  length-append [] ys = omega arith
  length-append (x ∷ xs) ys = omega (arith, length-append xs ys)

  -- A loop that returns true at the first element which passes the test.
  abbrev pub any : (A → Bool) → List A → Bool
  any p [] = false
  any p (x ∷ xs) = p x || any p xs

  pub any_sound :
      (p : A → Bool) (xs : List A) → any p xs ≡ true → (x : A) × Memᴰ x xs × (p x ≡ true)
  any_sound p [] h = absurd (ground arith)
  any_sound p (x ∷ xs) h = elim (Bool-cases (p x)) [
    | inl e ↦ (x, Memᴰ.head refl, e)
    | inr e ↦ let (y, m, t) = any_sound p xs (rw e at h) in (y, Memᴰ.tail m, t)
  ]

  pub any_complete : (p : A → Bool) {x : A} {xs : List A} → Memᴰ x xs → p x ≡ true → any p xs ≡ true
  any_complete p (Memᴰ.head e) t = rw (← e) (rw t refl)
  any_complete p (Memᴰ.tail m) t = ground (arith, any_complete p m t)

module _ {ℓ κ} {A : Type ℓ} (P : A → Type κ) where
  abbrev pub All : List A → Type κ
  All [] = Unit
  All (x ∷ xs) = P x × All xs

  pub All-append : (xs ys : List A) → All xs → All ys → All (xs ++ ys)
  All-append [] ys _ k = k
  All-append (x ∷ xs) ys (p, h) k = (p, All-append xs ys h k)

  pub All-at : {x : A} {xs : List A} → Memᴰ x xs → All xs → P x
  All-at (Memᴰ.head e) h = rw e h.0
  All-at (Memᴰ.tail m) h = All-at m h.1

pub All-imp {ℓ κ ρ} :
    {A : Type ℓ} {P : A → Type κ} {Q : A → Type ρ}
    → ((x : A) → P x → Q x)
    → (xs : List A) → All P xs
    → All Q xs
All-imp f [] _ = tt
All-imp f (x ∷ xs) (p, h) = (f x p, All-imp f xs h)

-- Whether a text stands in a list.
abbrev pub contains : List String → String → Bool
contains [] a = false
contains (x ∷ xs) a = x == a || contains xs a

contains_sound : (xs : List String) (a : String) → contains xs a ≡ true → Memᴰ a xs
contains_sound [] a h = absurd (ground arith)
contains_sound (x ∷ xs) a h = elim (Bool-cases (x == a)) [
  | inl e ↦ Memᴰ.head (sym ((eq_iff x a).0 e))
  | inr e ↦ Memᴰ.tail (contains_sound xs a (rw e at h))
]

contains_complete : {a : String} {xs : List String} → Memᴰ a xs → contains xs a ≡ true
contains_complete (Memᴰ.head e) = rw e (rw eq_refl refl)
contains_complete (Memᴰ.tail m) = ground (arith, contains_complete m)

pub contains_iff : (xs : List String) (a : String) → (contains xs a ≡ true) ↔ Memᴰ a xs
contains_iff xs a = (contains_sound xs a, contains_complete)
