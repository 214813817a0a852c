-- ===== src/Auth.antt =====
-- auth/middleware: the Bearer token of a request, and the JWT middlewares.
-- `verify` is `Service.Verify` at the time of the request, and `on_error` the error handler.
pub mod Gate
use api_security_sdk.Common.{
  String, ◌==◌, Option, none, some, Result, ok, err, strip_prefix, if◌then◌else◌,
}
use api_security_sdk.Common.Values.{Value, nil}
use api_security_sdk.Common.Table.{lookup_or}
use api_security_sdk.Jwt.{Claims, Error, invalid_token}
use api_security_sdk.Http.{Request, Response, Handler, write_unauthorized}

unfoldable pub with_claims : Claims → Request → Request
with_claims claims r = record r { claims = some claims }

unfoldable pub subject_from : Request → String
subject_from r = elim r.claims [ none ↦ "" | some c ↦ c.subject ]

unfoldable pub custom_claim_from : Request → String → Value
unfolding lookup_or
custom_claim_from r key = elim r.claims [ none ↦ nil | some c ↦ lookup_or nil key c.custom ]

unfoldable pub extract_bearer : Request → Result Error String
extract_bearer r = elim (strip_prefix "Bearer " (r.get_header "Authorization")) [
  | none ↦ err invalid_token
  | some token ↦ if token == "" then err invalid_token else ok token
]

abbrev pub ErrorHandler : Type 0
ErrorHandler = Request → Error → Response → Response

unfoldable pub default_error_handler : ErrorHandler
default_error_handler r e w = write_unauthorized w

module _ (verify : String → Result Error Claims) where
  unfoldable pub jwt : ErrorHandler → Handler → Handler
  unfolding with_claims
  jwt on_error next r w = elim (extract_bearer r) [
    | err e ↦ on_error r e w
    | ok token ↦ elim (verify token) [
      | err e ↦ on_error r e w
      | ok claims ↦ next (with_claims claims r) w
    ]
  ]

  unfoldable pub optional : Handler → Handler
  unfolding with_claims
  optional next r w = elim (extract_bearer r) [
    | err e ↦ next r w
    | ok token ↦ elim (verify token) [
      | err e ↦ next r w
      | ok claims ↦ next (with_claims claims r) w
    ]
  ]

unfoldable pub require_auth : ErrorHandler → Handler → Handler
require_auth on_error next r w = elim r.claims [
  | none ↦ on_error r invalid_token w
  | some _ ↦ next r w
]
