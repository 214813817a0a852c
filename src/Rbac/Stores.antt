-- ===== src/Rbac/Stores.antt =====
-- rbac/store.go: the assignments of the memory store as sets of pairs (subject, role).
use api_security_sdk.Common.{
  String, true, false, ◌||◌, ◌==◌, ◌≡◌, refl, ◌≢◌, ◌⊎◌, ◌↔◌, List, [], ◌∷◌, ◌++◌, arith, eq_iff,
  contains, ok, err, if◌then◌else◌,
}
use api_security_sdk.Common.Table.{lookup-insert, lookup-delete, lookup_or}
use api_security_sdk.Rbac.{
  Role, MemoryStore, role_not_found, get_role, assigned, assign_role, unassign_role, remove_first,
  add_role, remove_role,
}

contains-concat :
    (xs : List String) (x a : String) → contains (xs ++ x ∷ []) a ≡ (contains xs a || x == a)
contains-concat [] x a = ground arith
contains-concat (y ∷ ys) x a = ground (arith, contains-concat ys x a)

-- No text stands in the list twice.
abbrev pub IsDistinct : List String → Type 0
IsDistinct [] = Unit
IsDistinct (x ∷ xs) = (contains xs x ≡ false) × IsDistinct xs

IsDistinct-concat :
    (xs : List String) (x : String)
    → IsDistinct xs
    → contains xs x ≡ false
    → IsDistinct (xs ++ x ∷ [])
IsDistinct-concat [] x d h = (refl, tt)
IsDistinct-concat (y ∷ ys) x d h = (
  ground (arith, contains-concat ys x y, eq_iff x y, eq_iff y x),
  IsDistinct-concat ys x d.1 (ground arith),
)

contains-remove_first :
    (role : String) (xs : List String) (a : String)
    → IsDistinct xs
    → (contains (remove_first role xs) a ≡ true) ↔ ((contains xs a ≡ true) × (a ≢ role))
unfolding remove_first
contains-remove_first role [] a d = ground arith
contains-remove_first role (x ∷ xs) a d = ground (
  arith,
  contains-remove_first role xs a d.1,
  eq_iff x role,
  eq_iff x a,
  eq_iff role a,
  eq_iff a role,
)

IsDistinct-remove_first :
    (role : String) (xs : List String) → IsDistinct xs → IsDistinct (remove_first role xs)
unfolding remove_first
IsDistinct-remove_first role [] d = tt
IsDistinct-remove_first role (x ∷ xs) d =
    ground (arith, contains-remove_first role xs x d.1, IsDistinct-remove_first role xs d.1)

-- The role is assigned to the subject.
abbrev pub Has : MemoryStore → String → String → Type 0
Has s subject role = contains (assigned s subject) role ≡ true

-- The invariant: no subject has a role twice.
abbrev pub IsValid : MemoryStore → Type 0
IsValid s = (subject : String) → IsDistinct (assigned s subject)

module _ (s : MemoryStore) (subject role : String) where
  assigned-assign_role :
      (other : String)
      → assigned (assign_role s subject role) other ≡ (
          if contains (assigned s subject) role
          then assigned s other
          else if subject == other
          then assigned s subject ++ role ∷ []
          else assigned s other)
  unfolding assigned assign_role lookup_or
  assigned-assign_role other =
      ground (arith, lookup-insert subject other (assigned s subject ++ role ∷ []) s.subjects)

  assigned-unassign_role :
      (other : String)
      → assigned (unassign_role s subject role) other ≡ (
          if contains (assigned s subject) role
          then (if subject == other
              then remove_first role (assigned s subject)
              else assigned s other)
          else assigned s other)
  unfolding assigned unassign_role lookup_or
  assigned-unassign_role other =
      ground
        (arith, lookup-insert subject other (remove_first role (assigned s subject)) s.subjects)

  -- `AssignRole` adds the one pair, whether or not it was there, and no other.
  pub assign_role-Has :
      (other r : String)
      → Has (assign_role s subject role) other r ↔ (Has s other r ⊎ (other ≡ subject) × (r ≡ role))
  assign_role-Has other r = ground (
    arith,
    assigned-assign_role other,
    contains-concat (assigned s subject) role r,
    eq_iff subject other,
    eq_iff role r,
  )

  -- If no subject has a role twice, `UnassignRole` takes away the one pair, and no other.
  pub unassign_role-Has :
      IsValid s
      → (other r : String)
      → Has (unassign_role s subject role) other r
        ↔ (Has s other r × (¬ ((other ≡ subject) × (r ≡ role))))
  unassign_role-Has valid other r = ground (
    arith,
    assigned-unassign_role other,
    contains-remove_first role (assigned s subject) r (valid subject),
    eq_iff subject other,
    eq_iff role r,
  )

  pub assign_role-IsValid : IsValid s → IsValid (assign_role s subject role)
  assign_role-IsValid valid other = ground (
    arith,
    assigned-assign_role other,
    valid other,
    IsDistinct-concat (assigned s subject) role (valid subject),
  )

  pub unassign_role-IsValid : IsValid s → IsValid (unassign_role s subject role)
  unassign_role-IsValid valid other = ground (
    arith,
    assigned-unassign_role other,
    valid other,
    IsDistinct-remove_first role (assigned s subject) (valid subject),
  )

-- After `AddRole` the role is found under its name, after `RemoveRole` it is not found; every other
-- name is as before.
pub get_role-add_role :
    (s : MemoryStore) (role : Role) (name : String)
    → (get_role (add_role s role) name ≡ (if role.name == name then ok role else get_role s name))
      × (get_role (remove_role s role.name) name
          ≡ (if role.name == name then err role_not_found else get_role s name))
unfolding get_role add_role remove_role
get_role-add_role s role name = (
  ground (arith, lookup-insert role.name name role s.roles),
  ground (arith, lookup-delete role.name name s.roles),
)
