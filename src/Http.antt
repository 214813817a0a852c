-- ===== src/Http.antt =====
-- What the middlewares use of net/http: requests, the response writer and handlers.
-- A request's headers are the function `Header.Get`; the values that the code keeps in the request
-- context are fields. Header names are the spellings of the code, one for each header.
pub mod Headers
use api_security_sdk.Common.{
  ℕ, String, Option, none, some, List, [], ◌∷◌, ◌++◌, ◌<>◌, ◌==◌, if◌then◌else◌,
}
use api_security_sdk.Common.Bytes.{Bytes}
use api_security_sdk.Common.Int.{ℤ}
use api_security_sdk.Common.Table.{Table, lookup_or, insert, delete}
use api_security_sdk.Jwt.{Claims}
use api_security_sdk.ApiKey.{Key}

-- A body: missing, bytes to read, or one whose reading fails.
pub data Body : Type 0 where
  no_body : Body
  readable : Bytes → Body
  broken : String → Body

pub record Request : Type 0 where
  pub method : String
  pub path : String
  pub remote_addr : String
  pub get_header : String → String
  pub claims : Option Claims
  pub api_key : Option Key
  pub body : Body
  pub content_length : ℤ

-- What went out with the status line.
pub record Sent : Type 0 where
  pub status : ℕ
  pub headers : Table (List String)

pub record Response : Type 0 where
  pub header : Table (List String)
  pub sent : Option Sent
  pub body : String

abbrev pub Handler : Type 0
Handler = Request → Response → Response

unfoldable pub new_response : Response
new_response = record { header = []; sent = none; body = "" }

-- `r.Header.Set`
unfoldable pub request_header : String → String → Request → Request
request_header name value r = record r {
  get_header = λ n. if n == name then value else r.get_header n;
}

-- `Header().Set`, `Header().Add`, `Header().Del` and `Header().Values`
unfoldable pub set_header : String → String → Response → Response
set_header name value w = record w { header = insert name (value ∷ []) w.header }

unfoldable pub header_values : String → Response → List String
unfolding lookup_or
header_values name w = lookup_or [] name w.header

unfoldable pub add_header : String → String → Response → Response
unfolding header_values
add_header name value w = record w {
  header = insert name (header_values name w ++ value ∷ []) w.header;
}

unfoldable pub del_header : String → Response → Response
del_header name w = record w { header = delete name w.header }

-- `WriteHeader`: the first call counts.
unfoldable pub write_header : ℕ → Response → Response
write_header status w = elim w.sent [
  | none ↦ record w { sent = some (record { status = status; headers = w.header }) }
  | some _ ↦ w
]

-- `Write`: with no status sent yet, 200 goes out first.
unfoldable pub write : String → Response → Response
unfolding write_header
write text w = let w' = write_header 200 w in record w' { body = w'.body <> text }

-- The refusals of the middlewares: a JSON body with a status.
unfoldable pub write_json : ℕ → String → Response → Response
unfolding set_header write_header write
write_json status text w =
    write text (write_header status (set_header "Content-Type" "application/json" w))

-- The 401 of auth/middleware and apikey.
unfoldable pub write_unauthorized : Response → Response
unfolding set_header write_header write
write_unauthorized w = write "{\"error\":\"unauthorized\"}" (
    write_header 401 (
      set_header "WWW-Authenticate" "Bearer realm=\"api\""
        (set_header "Content-Type" "application/json" w)))

-- The status that went out.
abbrev pub status_of : Response → Option ℕ
status_of w = elim w.sent [ none ↦ none | some s ↦ some s.status ]
