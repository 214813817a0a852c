-- ===== src/Rbac/Sound.antt =====
-- rbac/rbac.go: the search ends within its fuel, and grants only what a role grants.
use api_security_sdk.Common.{
  ℕ, zero, suc, ◌+◌, ◌≤◌, ◌<◌, String, Bool, true, false, ◌||◌, ◌≡◌, refl, inl, inr, some, List, [],
  ◌∷◌, Memᴰ, arith, ltb, length, any, any_sound, contains, Bool-cases, Option-cases, ◌∙◌, sym,
  Result-cases,
}
use api_security_sdk.Rbac.{
  Store, Search, matches, any_role, check_role, role_has_permission, search, can,
}
use api_security_sdk.Rbac.Grants.{matches_iff, Grants, direct, inherited, Permitted}

-- The search returned, and visited no fewer names.
abbrev Ends : List String → Search → Type 0
Ends visited r =
    (granted : Bool) × (seen : List String) × (r ≡ some (granted, seen))
    × (length visited ≤ length seen)

-- One step of the loop, by the result for the first name.
module _ (check : String → List String → Search) {n : String} (ns : List String)
    {visited seen : List String} where
  pub any_role-hit :
      check n visited ≡ some (true, seen) → any_role check (n ∷ ns) visited ≡ some (true, seen)
  unfolding any_role
  any_role-hit e = rw (e, any_role)

  pub any_role-miss :
      check n visited ≡ some (false, seen)
      → any_role check (n ∷ ns) visited ≡ any_role check ns seen
  unfolding any_role
  any_role-miss e = rw (e, any_role)

any_role-Ends :
    (check : String → List String → Search) (k : ℕ)
    → ((n : String) (v : List String) → k ≤ length v → Ends v (check n v))
    → (ns visited : List String) → k ≤ length visited
    → Ends visited (any_role check ns visited)
unfolding any_role
any_role-Ends check k ends [] visited h = (false, visited, refl, omega arith)
any_role-Ends check k ends (n ∷ ns) visited h =
    go (any_role-Ends check k ends ns) (ends n visited h)
  where
    go :
        ((seen : List String) → k ≤ length seen → Ends seen (any_role check ns seen))
        → Ends visited (check n visited)
        → Ends visited (any_role check (n ∷ ns) visited)
    go rest (true, seen, e, le) = (true, seen, any_role-hit check ns e, le)
    go rest (false, seen, e, le) =
        let (g, last, e', le') = rest seen (omega arith) in
        (g, last, any_role-miss check ns e ∙ e', omega arith)

module _ (store : Store) (action resource : String) where
  check_role-Ends :
      (check : String → List String → Search) (name : String) (visited : List String)
      → ((ps : List String) → Ends visited (any_role check ps visited))
      → Ends visited (check_role store action resource check name visited)
  unfolding check_role
  check_role-Ends check name visited ends = elim (Result-cases (store.role_of name)) [
    | inr (e, absent) ↦ (false, visited, rw (absent, check_role), omega arith)
    | inl (role, found) ↦
        elim (Bool-cases (any (λ p. matches p resource action) role.permissions)) [
          | inl t ↦ (true, visited, rw (found, check_role) (rw t), omega arith)
          | inr f ↦ rw (found, check_role) (rw f (ends role.parents))
        ]
  ]

  -- The search returns within its fuel.
  pub role-Ends :
      (fuel : ℕ) (name : String) (visited : List String)
      → 0 < fuel
      → 66 ≤ fuel + length visited
      → Ends visited (role_has_permission store action resource fuel name visited)
  unfolding role_has_permission
  role-Ends zero name visited p h = absurd (omega arith)
  role-Ends (suc fuel) name visited p h =
      elim (Bool-cases (contains visited name || ltb 64 (length visited))) [
        | inl stop ↦ (false, visited, rw (stop, role_has_permission), omega arith)
        | inr go ↦
            let (g, seen, e, le) =
              check_role-Ends (role_has_permission store action resource fuel) name (name ∷ visited)
                (λ ps.
                  any_role-Ends (role_has_permission store action resource fuel)
                    (suc (length visited))
                    (λ n v k. role-Ends fuel n v (ground arith) (omega arith)) ps (name ∷ visited)
                    (omega arith)) in
            (g, seen, rw (go, role_has_permission) e, omega arith)
      ]

  pub search-Ends :
      (names : List String)
      → Ends [] (any_role (role_has_permission store action resource 66) names [])
  search-Ends names =
      any_role-Ends (role_has_permission store action resource 66) 0
        (λ n v k. role-Ends 66 n v (omega arith) (omega arith)) names [] (omega arith)

  -- A search that answers true has found a grant.
  any_role-Grants :
      (check : String → List String → Search)
      → ((n : String) (v seen : List String)
          → check n v ≡ some (true, seen)
          → Grants store action resource n)
      → (ns visited seen : List String) → any_role check ns visited ≡ some (true, seen)
      → (n : String) × Memᴰ n ns × Grants store action resource n
  unfolding any_role
  any_role-Grants check sound [] visited seen h = cc
  any_role-Grants check sound (n ∷ ns) visited seen h = elim (Option-cases (check n visited)) [
    | inl e ↦ ground arith
    | inr ((true, first), e) ↦ (n, Memᴰ.head refl, sound n visited first e)
    | inr ((false, first), e) ↦
        let (m, at, g) =
          any_role-Grants check sound ns first seen (sym (any_role-miss check ns e) ∙ h) in
        (m, Memᴰ.tail at, g)
  ]

  check_role-Grants :
      (check : String → List String → Search)
      → ((n : String) (v seen : List String)
          → check n v ≡ some (true, seen)
          → Grants store action resource n)
      → (name : String) (visited seen : List String)
      → check_role store action resource check name visited ≡ some (true, seen)
      → Grants store action resource name
  unfolding check_role
  check_role-Grants check sound name visited seen h = elim (Result-cases (store.role_of name)) [
    | inr (e, absent) ↦ absurd (ground arith)
    | inl (role, found) ↦
        elim (Bool-cases (any (λ p. matches p resource action) role.permissions)) [
          | inl t ↦
              let (p, at, m) = any_sound (λ p. matches p resource action) role.permissions t in
              direct role found p at ((matches_iff p action resource).0 m)
          | inr f ↦
              let (n, at, g) =
                any_role-Grants check sound role.parents visited seen (ground arith) in
              inherited role found n at g
        ]
  ]

  role-Grants :
      (fuel : ℕ) (name : String) (visited seen : List String)
      → role_has_permission store action resource fuel name visited ≡ some (true, seen)
      → Grants store action resource name
  unfolding role_has_permission check_role
  role-Grants zero name visited seen h = cc
  role-Grants (suc fuel) name visited seen h =
      elim (Bool-cases (contains visited name || ltb 64 (length visited))) [
        | inl stop ↦ absurd (ground arith)
        | inr go ↦
            check_role-Grants (role_has_permission store action resource fuel)
              (λ n v s e. role-Grants fuel n v s e) name (name ∷ visited) seen
              (rw (go, role_has_permission) at h)
      ]

-- What `Can` allows, a role that is assigned to the subject grants, itself or through its parents.
pub can_sound :
    (store : Store) (subject action resource : String)
    → can store subject action resource ≡ true
    → Permitted store subject action resource
unfolding can search
can_sound store subject action resource h = elim (Result-cases (store.roles_of subject)) [
  | inr (e, failed) ↦ absurd (ground arith)
  | inl (names, fetched) ↦
      let (g, seen, ends, _) = search-Ends store action resource names in
      let found : any_role (role_has_permission store action resource 66) names []
          ≡ some (true, seen) =
        ground arith in
      let (n, at, granted) =
        any_role-Grants store action resource (role_has_permission store action resource 66)
          (λ n v s e. role-Grants store action resource 66 n v s e) names [] seen found in
      record {
        assigned_roles = names;
        fetched = fetched;
        role_name = n;
        listed = at;
        granted = granted;
      }
]
