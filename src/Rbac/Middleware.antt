-- ===== src/Rbac/Middleware.antt =====
-- rbac/middleware.go: requests are let through by permission or by role.
use api_security_sdk.Common.{String, ◌||◌, ◌==◌, not, List, ok, err, any, contains, if◌then◌else◌}
use api_security_sdk.Http.{Response, Handler, write_json}
use api_security_sdk.Auth.{subject_from}
use api_security_sdk.Rbac.{Store, can, roles_for}

unfoldable pub write_forbidden : Response → Response
write_forbidden w = write_json 403 "{\"error\":\"forbidden\"}" w

unfoldable pub require : Store → (action resource : String) → Handler → Handler
unfolding subject_from
require store action resource next r w =
    if subject_from r == "" || not (can store (subject_from r) action resource)
    then write_forbidden w
    else next r w

unfoldable pub require_role : Store → List String → Handler → Handler
unfolding subject_from roles_for
require_role store roles next r w =
    if subject_from r == "" then write_forbidden w else elim (roles_for store (subject_from r)) [
      | err e ↦ write_forbidden w
      | ok have ↦ if any (contains have) roles then next r w else write_forbidden w
    ]
