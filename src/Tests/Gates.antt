-- ===== src/Tests/Gates.antt =====
-- ginmw: a request with a token for "ann", who is an admin.
use api_security_sdk.Common.{
  String, ◌≡◌, refl, ◌↔◌, none, some, [], ◌∷◌, Memᴰ, Result, ok, err, if◌then◌else◌, ◌==◌, false,
}
use api_security_sdk.Common.Values.{str}
use api_security_sdk.Common.Table.{lookup, lookup_or, insert}
use api_security_sdk.Jwt.{Claims}
use api_security_sdk.Jwt
use api_security_sdk.Rbac.{
  Role, Store, as_store, can, search, role_has_permission, check_role, any_role, matches, get_role,
  get_subject_roles, assigned,
}
use api_security_sdk.Rbac.Grants.{Permitted}
use api_security_sdk.Gin.{
  Context, proceed, JwtConfig, get_key, set_key, get_text, entry_text, entry_claims, claims_from,
  subject_from, extract_bearer, token_of, with_claims, jwt, require_permission, scope_checker,
  claims_key, claims_entry, value_entry, is_web_socket_upgrade,
}
use api_security_sdk.Gin.Scopes.{Scoped}
use api_security_sdk.Gin.Gates.{jwt-require_permission, scope_checker_iff}

abbrev admin : Role
admin = record {
  name = "admin";
  parents = [];
  permissions = record { resource = "users"; action = "*" } ∷ [];
}

abbrev staff : Store
staff = as_store (record { roles = ("admin", admin) ∷ []; subjects = ("ann", "admin" ∷ []) ∷ [] })

abbrev ann_claims : Claims
ann_claims = record {
  subject = "ann";
  audience = [];
  expires_at = 0;
  issued_at = 0;
  custom = ("scope", str "read write") ∷ [];
}

abbrev verify : String → Result Jwt.Error Claims
verify token = if token == "t" then ok ann_claims else err Jwt.invalid_token

abbrev show : Jwt.Error → String
show _ = "invalid"

abbrev config : JwtConfig
config = record { extractor = none; web_socket_fallback = false }

abbrev arrived : Context
arrived = record {
  keys = [];
  get_header = λ name. if name == "Authorization" then "bearer t" else "";
  query = λ _. "";
}

abbrev known : Context
known = record arrived {
  keys = (claims_key, claims_entry ann_claims) ∷ ("ginmw:subject", value_entry (str "ann")) ∷ [];
}

passes : jwt verify show config arrived ≡ proceed known
unfolding jwt token_of extract_bearer with_claims set_key insert is_web_socket_upgrade
passes = refl

may : require_permission staff "read" "users" known ≡ proceed known
unfolding require_permission subject_from get_text get_key entry_text lookup can search
    role_has_permission check_role any_role matches get_role get_subject_roles assigned lookup_or
may = refl

jwt-require_permission_example :
    (cl : Claims) × (verify (token_of config arrived) ≡ ok cl)
    × (claims_from known ≡ some cl)
    × Permitted staff cl.subject "read" "users"
jwt-require_permission_example =
    jwt-require_permission verify show config staff "read" "users" arrived known known refl passes
      may

has_claims : claims_from known ≡ some ann_claims
unfolding claims_from get_key entry_claims lookup
has_claims = refl

scope_checker_iff_example :
    (scope_checker ("read" ∷ []) known ≡ proceed known)
    ↔ ((need : String) → Memᴰ need ("read" ∷ []) → Scoped ann_claims.custom need)
scope_checker_iff_example = scope_checker_iff ("read" ∷ []) known ann_claims has_claims
