-- ===== src/Rbac/Grants.antt =====
-- What rbac/rbac.go decides, as relations on roles: which names a role grants through its parents.
use api_security_sdk.Common.{String, true, ◌≡◌, ◌⊎◌, List, Memᴰ, ok, arith, eq_iff, ◌↔◌}
use api_security_sdk.Rbac.{Permission, Role, Store, matches}

-- A field of a permission covers a wanted value if it is "*" or the value.
abbrev pub Covers : Permission → String → String → Type 0
Covers p action resource =
    ((p.resource ≡ "*") ⊎ (p.resource ≡ resource)) × ((p.action ≡ "*") ⊎ (p.action ≡ action))

pub matches_iff :
    (p : Permission) (action resource : String)
    → (matches p resource action ≡ true) ↔ Covers p action resource
unfolding matches
matches_iff p action resource = ground (
  arith,
  eq_iff p.resource "*",
  eq_iff p.resource resource,
  eq_iff p.action "*",
  eq_iff p.action action,
)

-- The role `name` has a permission that covers the request, or inherits one.
pub data Grants (store : Store) (action resource : String) : String → Type 0 where
  direct :
      {name : String} (role : Role)
      → store.role_of name ≡ ok role
      → (p : Permission) → Memᴰ p role.permissions
      → Covers p action resource
      → Grants store action resource name
  inherited :
      {name : String} (role : Role)
      → store.role_of name ≡ ok role
      → (parent : String) → Memᴰ parent role.parents
      → Grants store action resource parent
      → Grants store action resource name

-- The subject is assigned a role that grants the request.
pub record Permitted (store : Store) (subject action resource : String) : Type 0 where
  pub assigned_roles : List String
  pub fetched : store.roles_of subject ≡ ok assigned_roles
  pub role_name : String
  pub listed : Memᴰ role_name assigned_roles
  pub granted : Grants store action resource role_name
