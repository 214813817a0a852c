-- ===== src/Rbac/Wide.antt =====
-- rbac/rbac.go: the guard `len(visited) > 64` counts the names that were visited, not the depth.
use api_security_sdk.Common.{
  ℕ, suc, ◌+◌, ◌≤◌, String, false, ◌≡◌, refl, ◌∙◌, inl, inr, some, List, [], ◌∷◌, ◌++◌, Memᴰ, ok,
  arith, ltb, length, any, contains, All, Bool-cases, Result-cases,
}
use mathlib.Core.List.Memᴰ
use api_security_sdk.Rbac.{
  Role, Store, Search, matches, any_role, check_role, role_has_permission, search, can,
}
use api_security_sdk.Rbac.Grants.{Grants, Permitted}
use api_security_sdk.Rbac.Sound.{any_role-miss}

-- Each name is new when the search comes to it.
abbrev pub AllNew : List String → List String → Type 0
AllNew visited [] = Unit
AllNew visited (n ∷ ns) = (contains visited n ≡ false) × AllNew (n ∷ visited) ns

module _ (store : Store) (action resource : String) where
  -- The name stands for no role, or for one that grants nothing and has no parents.
  abbrev pub IsBarren : String → Type 0
  IsBarren name =
      (role : Role)
      → store.role_of name ≡ ok role
      → (any (λ p. matches p resource action) role.permissions ≡ false) × (role.parents ≡ [])

  abbrev visit : ℕ → String → List String → Search
  visit = role_has_permission store action resource

  visit_barren :
      (fuel : ℕ) (name : String) (visited : List String)
      → IsBarren name
      → contains visited name ≡ false
      → length visited ≤ 64
      → visit (suc fuel) name visited ≡ some (false, name ∷ visited)
  unfolding role_has_permission check_role any_role
  visit_barren fuel name visited barren new h = elim (Result-cases (store.role_of name)) [
    | inr (e, absent) ↦ ground arith
    | inl (role, found) ↦ ground (arith, barren role found)
  ]

  visit_full :
      (fuel : ℕ) (name : String) (visited : List String)
      → 65 ≤ length visited
      → visit (suc fuel) name visited ≡ some (false, visited)
  unfolding role_has_permission
  visit_full fuel name visited h = ground arith

  any_role_full :
      (fuel : ℕ) (ns visited : List String)
      → 65 ≤ length visited
      → any_role (visit (suc fuel)) ns visited ≡ some (false, visited)
  unfolding any_role
  any_role_full fuel [] visited h = refl
  any_role_full fuel (n ∷ ns) visited h =
      any_role-miss (visit (suc fuel)) ns (visit_full fuel n visited h)
      ∙ any_role_full fuel ns visited h

  any_role_barren :
      (fuel : ℕ) (ns rest visited : List String)
      → All IsBarren ns
      → AllNew visited ns
      → 65 ≤ length visited + length ns
      → (seen : List String) × (any_role (visit (suc fuel)) (ns ++ rest) visited
          ≡ some (false, seen))
  any_role_barren fuel [] rest visited _ _ h =
      (visited, any_role_full fuel rest visited (omega arith))
  any_role_barren fuel (n ∷ ns) rest visited (b, bs) (new, news) h =
      elim (Bool-cases (ltb 64 (length visited))) [
        | inl full ↦ (visited, any_role_full fuel (n ∷ (ns ++ rest)) visited (ground arith))
        | inr room ↦
            let (seen, e) = any_role_barren fuel ns rest (n ∷ visited) bs news (omega arith) in
            (
              seen,
              any_role-miss (visit (suc fuel)) (ns ++ rest)
                    (visit_barren fuel n visited b new (ground arith))
                  ∙ e,
            )
      ]

-- A subject whose first 65 role names are distinct and barren is denied, although a later one of its
-- roles grants the request itself.
pub can_denies_wide :
    (store : Store) (subject action resource : String) (barren rest : List String) (last : String)
    → store.roles_of subject ≡ ok (barren ++ rest)
    → 65 ≤ length barren
    → AllNew [] barren
    → All (IsBarren store action resource) barren
    → Memᴰ last rest
    → Grants store action resource last
    → Permitted store subject action resource × (can store subject action resource ≡ false)
unfolding can search
can_denies_wide store subject action resource barren rest last fetched many new bs at grants =
    let (seen, e) = any_role_barren store action resource 65 barren rest [] bs new (omega arith) in
    (
      record {
        assigned_roles = barren ++ rest;
        fetched = fetched;
        role_name = last;
        listed = Memᴰ.append_right barren at;
        granted = grants;
      },
      ground arith,
    )
