-- ===== src/Rbac.antt =====
-- rbac/types.go, rbac/store.go and rbac/rbac.go: roles, the memory store and the enforcer.
pub mod Grants
pub mod Sound
pub mod Wide
pub mod Gate
pub mod Stores
pub mod Complete
pub mod Middleware
use api_security_sdk.Common.{
  ℕ, zero, suc, String, Bool, true, false, ◌&&◌, ◌||◌, ◌==◌, Option, none, some, List, [], ◌∷◌,
  ◌++◌, ◌<>◌, Result, ok, err, ltb, length, any, contains, if◌then◌else◌, refl,
}
use api_security_sdk.Common.Table.{Table, lookup, lookup_or, insert, delete}

-- ErrRoleNotFound, ErrPermissionDenied, and what another backend may return.
pub data Error : Type 0 where
  role_not_found permission_denied : Error
  backend : String → Error

pub record Permission : Type 0 where
  pub resource : String
  pub action : String

-- `Permission.String`
pub show : Permission → String
show p = p.resource <> ":" <> p.action

unfoldable pub matches : Permission → String → String → Bool
matches p resource action =
    (p.resource == "*" || p.resource == resource) && (p.action == "*" || p.action == action)

pub record Role : Type 0 where
  pub name : String
  pub parents : List String
  pub permissions : List Permission

pub record MemoryStore : Type 0 where
  pub roles : Table Role
  pub subjects : Table (List String)

unfoldable pub new_memory_store : MemoryStore
new_memory_store = record { roles = []; subjects = [] }

module _ (s : MemoryStore) where
  unfoldable pub get_role : String → Result Error Role
  unfolding lookup
  get_role name = elim (lookup name s.roles) [ none ↦ err role_not_found | some r ↦ ok r ]

  -- `s.subjects[subject]`, nil for a subject with no entry; the copy that the code returns is the
  -- same list.
  unfoldable pub assigned : String → List String
  unfolding lookup_or
  assigned subject = lookup_or [] subject s.subjects

  unfoldable pub get_subject_roles : String → Result Error (List String)
  unfolding assigned
  get_subject_roles subject = ok (assigned subject)

  unfoldable pub assign_role : String → String → MemoryStore
  unfolding assigned insert
  assign_role subject role =
      if contains (assigned subject) role
      then s
      else record s { subjects = insert subject (assigned subject ++ role ∷ []) s.subjects }

-- `append(roles[:i], roles[i+1:]...)` at the first `i` with `roles[i] == role`.
unfoldable pub remove_first : String → List String → List String
remove_first role [] = []
remove_first role (r ∷ rs) = if r == role then rs else r ∷ remove_first role rs

module _ (s : MemoryStore) where
  unfoldable pub unassign_role : String → String → MemoryStore
  unfolding assigned insert remove_first
  unassign_role subject role =
      if contains (assigned s subject) role
      then record s {
        subjects = insert subject (remove_first role (assigned s subject)) s.subjects;
      }
      else s

  unfoldable pub add_role : Role → MemoryStore
  unfolding insert
  add_role role = record s { roles = insert role.name role s.roles }

  unfoldable pub remove_role : String → MemoryStore
  unfolding delete
  remove_role name = record s { roles = delete name s.roles }

-- What the enforcer calls of the interface `Store`.
pub record Store : Type 0 where
  pub role_of : String → Result Error Role
  pub roles_of : String → Result Error (List String)

abbrev pub as_store : MemoryStore → Store
as_store s = record { role_of = get_role s; roles_of = get_subject_roles s }

-- A search says whether it found a grant, with the visited names; `none` is out of fuel.
abbrev pub Search : Type 0
Search = Option (Bool × List String)

-- The loops over `role.Parents` and over the subject's roles: stop at the first that is granted.
unfoldable pub any_role : (String → List String → Search) → List String → List String → Search
any_role check [] visited = some (false, visited)
any_role check (n ∷ ns) visited = elim (check n visited) [
  | none ↦ none
  | some (granted, seen) ↦ elim granted [
    | true ↦ some (true, seen)
    | false ↦ any_role check ns seen
  ]
]

module _ (store : Store) where
  module _ (action resource : String) where
    -- The role's own permissions, then its parents; `inherited` is the recursive call.
    unfoldable pub check_role : (String → List String → Search) → String → List String → Search
    unfolding any_role matches
    check_role inherited name visited = elim (store.role_of name) [
      | err e ↦ some (false, visited)
      | ok role ↦ elim (any (λ p. matches p resource action) role.permissions) [
        | true ↦ some (true, visited)
        | false ↦ any_role inherited role.parents visited
      ]
    ]

    -- The guard lets through at most 65 names, each new, so the fuel counts nested calls.
    unfoldable pub role_has_permission : ℕ → String → List String → Search
    unfolding check_role
    role_has_permission zero name visited = none
    role_has_permission (suc fuel) name visited =
        elim (contains visited name || ltb 64 (length visited)) [
          | true ↦ some (false, visited)
          | false ↦ check_role (role_has_permission fuel) name (name ∷ visited)
        ]

  unfoldable pub search : String → String → String → Search
  unfolding role_has_permission any_role
  search subject action resource = elim (store.roles_of subject) [
    | err e ↦ some (false, [])
    | ok names ↦ any_role (role_has_permission action resource 66) names []
  ]

  unfoldable pub can : String → String → String → Bool
  unfolding search
  can subject action resource = elim (search subject action resource) [
    | none ↦ false
    | some (granted, _) ↦ granted
  ]

  unfoldable pub enforce : String → String → String → Result Error (Unit {0})
  unfolding can
  enforce subject action resource =
      if can subject action resource then ok tt else err permission_denied

  unfoldable pub roles_for : String → Result Error (List String)
  roles_for subject = store.roles_of subject

  unfoldable pub has_role : String → String → Bool
  has_role subject role = elim (store.roles_of subject) [
    | err e ↦ false
    | ok roles ↦ contains roles role
  ]
