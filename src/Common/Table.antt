-- ===== src/Common/Table.antt =====
-- Go's `map[string]V` as an association list. A write replaces the entry of its key or adds one, so
-- a table built from `[]` holds a key once; the order of the entries is no part of what a Go map
-- promises, and where the code ranges over a map the order is an argument of the model.
use Prim.Native.String.{String}
use mathlib.Core.Path.{◌≡◌, refl}
use mathlib.Core.Logic.{◌≢◌, inl, inr}
use mathlib.Core.Option.{Option, none, some}
use mathlib.Core.List.{List, [], ◌∷◌, map}
use native.Mathlib.Omega.{arith}
use text.Mathlib.Text.{◌==◌}
use text.Mathlib.TextEquality.{eq_iff}
use api_security_sdk.Common.Tests.{if◌then◌else◌, Bool-cases}

abbrev pub Table {ℓ} : Type ℓ → Type ℓ
Table V = List (String × V)

module _ {ℓ} {V : Type ℓ} where
  unfoldable pub lookup : String → Table V → Option V
  lookup name [] = none
  lookup name ((key, value) ∷ rest) = if key == name then some value else lookup name rest

  -- `m[k]`, with the zero value for a missing key
  unfoldable pub lookup_or : V → String → Table V → V
  unfolding lookup
  lookup_or absent name m = elim (lookup name m) [ none ↦ absent | some value ↦ value ]

  -- `m[k] = v`
  unfoldable pub insert : String → V → Table V → Table V
  insert name value [] = (name, value) ∷ []
  insert name value (entry ∷ rest) =
      if entry.0 == name then (name, value) ∷ rest else entry ∷ insert name value rest

  -- `delete(m, k)`
  unfoldable pub delete : String → Table V → Table V
  delete name [] = []
  delete name (entry ∷ rest) =
      if entry.0 == name then delete name rest else entry ∷ delete name rest

  abbrev pub keys : Table V → List String
  keys = map (λ e. e.0)

  -- What a write leaves under each name.
  pub lookup-insert :
      (name other : String) (value : V) (table : Table V)
      → lookup other (insert name value table)
        ≡ (if name == other then some value else lookup other table)
  unfolding insert lookup
  lookup-insert name other value [] = refl
  lookup-insert name other value ((key, held) ∷ rest) =
      let later = lookup-insert name other value rest in
      ground (arith, later, eq_iff key other, eq_iff key name, eq_iff name other)

  pub lookup-delete :
      (name other : String) (table : Table V)
      → lookup other (delete name table) ≡ (if name == other then none else lookup other table)
  unfolding delete lookup
  lookup-delete name other [] = ground arith
  lookup-delete name other ((key, held) ∷ rest) =
      let later = lookup-delete name other rest in
      ground (arith, later, eq_iff key other, eq_iff key name, eq_iff name other)

  pub lookup-insert_self : (k : String) (v : V) (m : Table V) → lookup k (insert k v m) ≡ some v
  lookup-insert_self k v m = ground (arith, lookup-insert k k v m, eq_iff k k)

  pub lookup-insert_ne :
      (k j : String) (v : V) (m : Table V) → k ≢ j → lookup j (insert k v m) ≡ lookup j m
  lookup-insert_ne k j v m h = ground (arith, lookup-insert k j v m, eq_iff k j)

  -- A table that holds each of its keys once.
  unfoldable pub IsTable : Table V → Type ℓ
  unfolding lookup
  IsTable [] = Unit
  IsTable ((k, v) ∷ m) = (lookup k m ≡ none) × IsTable m

  pub insert-IsTable : (k : String) (v : V) (m : Table V) → IsTable m → IsTable (insert k v m)
  unfolding lookup insert IsTable
  insert-IsTable k v [] _ = (refl, tt)
  insert-IsTable k v ((j, w) ∷ m) (free, rest) = elim (Bool-cases (j == k)) [
    | inl e ↦ rw e (ground (arith, eq_iff j k), rest)
    | inr e ↦
        rw e
          (ground (arith, lookup-insert k j v m, eq_iff k j, eq_iff j k), insert-IsTable k v m rest)
  ]
