-- ===== src/ApiKey/Middleware.antt =====
-- The HTTP half of apikey/apikey.go. `check` is `Service.Verify` at the time of the request.
use api_security_sdk.Common.{String, ◌==◌, none, some, Result, ok, err, strip_prefix, if◌then◌else◌}
use api_security_sdk.ApiKey.{Key, Error, invalid_key}
use api_security_sdk.Http.{Request, Response, Handler, write_unauthorized}

unfoldable pub extract_key : Request → String
extract_key r =
    if r.get_header "X-API-Key" == ""
    then elim (strip_prefix "Bearer " (r.get_header "Authorization")) [ none ↦ "" | some key ↦ key ]
    else r.get_header "X-API-Key"

unfoldable pub key_subject_from : Request → String
key_subject_from r = elim r.api_key [ none ↦ "" | some k ↦ k.subject ]

abbrev pub ErrorHandler : Type 0
ErrorHandler = Request → Error → Response → Response

unfoldable pub default_err_handler : ErrorHandler
default_err_handler r e w = write_unauthorized w

unfoldable pub authenticate : (String → Result Error Key) → ErrorHandler → Handler → Handler
unfolding extract_key
authenticate check on_error next r w =
    if extract_key r == "" then on_error r invalid_key w else elim (check (extract_key r)) [
      | err e ↦ on_error r e w
      | ok k ↦ next (record r { api_key = some k }) w
    ]
