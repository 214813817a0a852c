-- ===== src/Rbac/Gate.antt =====
-- rbac/middleware.go and Enforce: who passes.
use api_security_sdk.Common.{
  String, Bool, false, ◌≡◌, ◌≢◌, none, some, List, [], Memᴰ, Result-cases, ok, err, arith, any,
  any_sound, any_complete, contains, contains_iff, eq_iff, Bool-cases, inl, inr,
}
use api_security_sdk.Http.{Request, Response, Handler, status_of, write_json}
use api_security_sdk.Auth.{subject_from}
use api_security_sdk.Rbac.{Store, permission_denied, search, can, enforce}
use api_security_sdk.Rbac.Grants.{Permitted}
use api_security_sdk.Rbac.Sound.{can_sound, search-Ends}
use api_security_sdk.Rbac.Middleware.{require, require_role, write_forbidden}

write_forbidden-status : (w : Response) → w.sent ≡ none → status_of (write_forbidden w) ≡ some 403
unfolding write_forbidden write_json
write_forbidden-status w h = ground arith

-- The search of `Can` always returns an answer.
pub search_returns :
    (store : Store) (subject action resource : String)
    → (granted : Bool) × (seen : List String) × (search store subject action resource
        ≡ some (granted, seen))
unfolding search
search_returns store subject action resource = elim (Result-cases (store.roles_of subject)) [
  | inr (e, failed) ↦ (false, [], rw (failed, search))
  | inl (names, fetched) ↦
      let (granted, seen, e, _) = search-Ends store action resource names in
      (granted, seen, rw (fetched, search) e)
]

-- If no status is sent yet, a request without a permitted subject is answered by 403, and not by
-- the handler.
pub require_refuses :
    (store : Store) (action resource : String) (next : Handler) (r : Request) (w : Response)
    → w.sent ≡ none
    → (¬ Permitted store (subject_from r) action resource)
    → (require store action resource next r w ≡ write_forbidden w)
      × (status_of (require store action resource next r w) ≡ some 403)
unfolding require
require_refuses store action resource next r w fresh denied =
    elim (Bool-cases (can store (subject_from r) action resource)) [
      | inl allowed ↦ absurd (denied (can_sound store (subject_from r) action resource allowed))
      | inr refused ↦ ground (arith, write_forbidden-status w fresh)
    ]

-- `RequireRole` calls the handler exactly for a subject that is assigned one of the roles, and
-- answers every other request by 403.
pub require_role_decides :
    (store : Store) (roles have : List String) (next : Handler) (r : Request) (w : Response)
    → w.sent ≡ none
    → subject_from r ≢ ""
    → store.roles_of (subject_from r) ≡ ok have
    → ((role : String)
        → Memᴰ role roles
        → Memᴰ role have
        → require_role store roles next r w ≡ next r w)
      × (((role : String) → Memᴰ role roles → ¬ Memᴰ role have)
          → (require_role store roles next r w ≡ write_forbidden w)
            × (status_of (require_role store roles next r w) ≡ some 403))
unfolding require_role
require_role_decides store roles have next r w fresh named fetched = (
  λ role at at'.
      let hit = any_complete (contains have) at ((contains_iff have role).1 at') in
      ground (arith, eq_iff (subject_from r) ""),
  λ apart. elim (Bool-cases (any (contains have) roles)) [
    | inl hit ↦
        let (role, at, t) = any_sound (contains have) roles hit in
        absurd (apart role at ((contains_iff have role).0 t))
    | inr miss ↦ ground (arith, eq_iff (subject_from r) "", write_forbidden-status w fresh)
  ],
)

-- What `Enforce` lets through, a role of the subject grants; where none does, it returns
-- ErrPermissionDenied.
pub enforce_lem :
    (store : Store) (subject action resource : String)
    → ((enforce store subject action resource ≡ ok tt) → Permitted store subject action resource)
      × ((¬ Permitted store subject action resource)
          → enforce store subject action resource ≡ err permission_denied)
unfolding enforce
enforce_lem store subject action resource = (
  λ e. can_sound store subject action resource (ground arith),
  λ denied. elim (Bool-cases (can store subject action resource)) [
    | inl allowed ↦ absurd (denied (can_sound store subject action resource allowed))
    | inr refused ↦ ground arith
  ],
)
