-- ===== src/Abac/Middleware.antt =====
-- abac/middleware.go. A request that panics is one that the model has no answer for.
use api_security_sdk.Common.{String, Option, none, some, [], ◌∷◌, List, Result, if◌then◌else◌}
use api_security_sdk.Common.Values.{Value, str}
use api_security_sdk.Common.Table.{Table, insert}
use api_security_sdk.Http
use api_security_sdk.Http.{Response, Handler, write_json}
use api_security_sdk.Abac.{Effect, Attributes, Request, Policy, Error, permits}

-- `for k, v := range claims.Custom { attrs[k] = v }`; a Go map holds a key once, so that the order
-- of the loop is no matter.
unfoldable pub merge : Table Value → Attributes → Attributes
merge [] attrs = attrs
merge ((k, v) ∷ m) attrs = insert k v (merge m attrs)

unfoldable pub subject_from_claims : Http.Request → Attributes
unfolding merge
subject_from_claims r = elim r.claims [
  | none ↦ []
  | some claims ↦ merge claims.custom (("id", str claims.subject) ∷ [])
]

-- The request to evaluate; a nil resource is no attributes.
unfoldable pub request_of :
    String
    → Option (Http.Request → Attributes)
    → (Http.Request → Attributes)
    → Http.Request
    → Request
request_of action resource_fn subject_fn r = record {
  subject = subject_fn r;
  resource = elim resource_fn [ none ↦ [] | some f ↦ f r ];
  action = action;
  environment = ("ip", str r.remote_addr) ∷ ("method", str r.method) ∷ ("path", str r.path) ∷ [];
}

-- `fetch` is `store.Policies()` at the time of the request; none is a panic in a condition.
unfoldable pub require :
    Effect
    → Result Error (List Policy)
    → String
    → Option (Http.Request → Attributes)
    → (Http.Request → Attributes)
    → Handler
    → Http.Request
    → Response
    → Option Response
unfolding request_of
require default_effect fetch action resource_fn subject_fn next r w =
    elim (permits default_effect (request_of action resource_fn subject_fn r) fetch) [
      | none ↦ none
      | some permitted ↦
          some (if permitted then next r w else write_json 403 "{\"error\":\"forbidden\"}" w)
    ]
