-- ===== src/Gin.antt =====
-- ginmw/middleware.go: the middlewares for Gin.
-- What they use of github.com/gin-gonic/gin is the context: its keys, the request, and whether the
-- chain was aborted with a status and a JSON error. A middleware that calls `Next` or returns goes
-- on; one that aborts stops the chain.
pub mod Scopes
pub mod Gates
use api_security_sdk.Common.{
  ℕ, String, Bool, true, false, not, ◌&&◌, ◌||◌, ◌==◌, ◌<>◌, Option, none, some, List, [], ◌∷◌,
  Result, ok, err, any, contains, if◌then◌else◌, strip_prefix_fold, equal_fold, contains_fold,
  fields,
}
use api_security_sdk.Common.Values.{Value, Values, str, strs, list, end, item}
use api_security_sdk.Common.Table.{Table, lookup, insert}
use api_security_sdk.Jwt.{Claims}
use api_security_sdk.Jwt
use api_security_sdk.Rbac.{Store, has_role, can}

-- A value of the context: claims, or any other value.
pub data Entry : Type 0 where
  claims_entry : Claims → Entry
  value_entry : Value → Entry

pub record Context : Type 0 where
  pub keys : Table Entry
  pub get_header : String → String
  pub query : String → String

pub data Step : Type 0 where
  proceed : Context → Step
  abort : ℕ → String → Context → Step

abbrev pub Middleware : Type 0
Middleware = Context → Step

abbrev pub claims_key : String
claims_key = "ginmw:claims"

abbrev pub subject_key : String
subject_key = "ginmw:subject"

-- `c.Get` and `c.Set`
unfoldable pub get_key : String → Context → Option Entry
unfolding lookup
get_key key c = lookup key c.keys

unfoldable pub set_key : String → Entry → Context → Context
unfolding insert
set_key key e c = record c { keys = insert key e c.keys }

-- `v.(string)`
unfoldable pub entry_text : Entry → Option String
entry_text (value_entry (str s)) = some s
entry_text _ = none

unfoldable pub get_text : String → Context → Option String
unfolding get_key entry_text
get_text key c = elim (get_key key c) [ none ↦ none | some e ↦ entry_text e ]

unfoldable pub entry_claims : Entry → Option Claims
entry_claims (claims_entry cl) = some cl
entry_claims (value_entry _) = none

unfoldable pub claims_from : Context → Option Claims
unfolding get_key entry_claims
claims_from c = elim (get_key claims_key c) [ none ↦ none | some e ↦ entry_claims e ]

unfoldable pub subject_from : Context → String
unfolding get_text
subject_from c = elim (get_text subject_key c) [ none ↦ "" | some s ↦ s ]

pub record JwtConfig : Type 0 where
  pub extractor : Option (Context → Claims → Context)
  pub web_socket_fallback : Bool

-- `extractBearer`: the prefix in any case, and something behind it.
unfoldable pub extract_bearer : String → String
extract_bearer header = elim (strip_prefix_fold "bearer " header) [ none ↦ "" | some token ↦ token ]

unfoldable pub is_web_socket_upgrade : Context → Bool
is_web_socket_upgrade c =
    equal_fold (c.get_header "Upgrade") "websocket"
    && contains_fold (c.get_header "Connection") "upgrade"

-- The token of the header, or of the query on a WebSocket upgrade.
unfoldable pub token_of : JwtConfig → Context → String
unfolding extract_bearer is_web_socket_upgrade
token_of cfg c =
    let token = extract_bearer (c.get_header "Authorization") in
    if token == "" && (cfg.web_socket_fallback && is_web_socket_upgrade c)
    then c.query "token"
    else token

-- The context with the claims of a verified token.
unfoldable pub with_claims : JwtConfig → Claims → Context → Context
unfolding set_key
with_claims cfg cl c =
    let c' =
      set_key subject_key (value_entry (str cl.subject)) (set_key claims_key (claims_entry cl) c) in
    elim cfg.extractor [ none ↦ c' | some f ↦ f c' cl ]

-- `verify` is `Service.Verify` at the time of the request, and `show` the text of an error.
unfoldable pub jwt :
    (String → Result Jwt.Error Claims) → (Jwt.Error → String) → JwtConfig → Middleware
unfolding token_of with_claims
jwt verify show cfg c =
    if token_of cfg c == ""
    then abort 401 "missing or malformed Authorization header" c
    else elim (verify (token_of cfg c)) [
      | err e ↦ abort 401 (show e) c
      | ok cl ↦ proceed (with_claims cfg cl c)
    ]

unfoldable pub require_role : Store → List String → Middleware
unfolding subject_from
require_role store roles c =
    if subject_from c == ""
    then abort 401 "unauthenticated" c
    else if any (has_role store (subject_from c)) roles
    then proceed c
    else abort 403 "forbidden: insufficient role" c

unfoldable pub require_permission : Store → (action resource : String) → Middleware
unfolding subject_from
require_permission store action resource c =
    if subject_from c == ""
    then abort 401 "unauthenticated" c
    else if not (can store (subject_from c) action resource)
    then abort 403 ("forbidden: " <> action <> " on " <> resource <> " not allowed") c
    else proceed c

unfoldable pub require_custom_claim : String → List String → Middleware
unfolding get_key entry_text
require_custom_claim key allowed c = elim (get_key key c) [
  | none ↦ abort 403 "forbidden: missing claim" c
  | some e ↦ elim (entry_text e) [
    | none ↦ abort 403 "forbidden: claim is not a string" c
    | some s ↦
        if contains allowed s then proceed c else abort 403 "forbidden: insufficient privileges" c
  ]
]

unfoldable pub require_custom_claim_not : String → String → Middleware
unfolding get_text
require_custom_claim_not key blocked c = elim (get_text key c) [
  | none ↦ proceed c
  | some s ↦ if s == blocked then abort 403 "forbidden: account not permitted" c else proceed c
]

-- The bypass test of `RequireAsyncPermission`.
unfoldable pub is_bypassed : String → String → Context → Bool
unfolding get_text
is_bypassed key value c =
    not (key == "")
    && (not (value == "") && elim (get_text key c) [ none ↦ false | some s ↦ s == value ])

-- `fn` is the caller's check, at the time of the request.
unfoldable pub require_async_permission :
    (key bypass_key bypass_value : String)
    → (String → String → String → Bool)
    → (resource action : String) → Middleware
unfolding is_bypassed get_text
require_async_permission key bypass_key bypass_value fn resource action c =
    if is_bypassed bypass_key bypass_value c then proceed c else elim (get_text key c) [
      | none ↦ abort 401 "unauthenticated" c
      | some subject ↦
          if subject == ""
          then abort 401 "unauthenticated" c
          else if not (fn subject resource action)
          then abort 403 ("forbidden: " <> action <> " on " <> resource <> " not allowed") c
          else proceed c
    ]

-- The strings of a `[]any`.
unfoldable pub text_items : Values → List String
text_items end = []
text_items (item (str s) vs) = s ∷ text_items vs
text_items (item _ vs) = text_items vs

unfoldable pub listed_scopes : Option Value → List String
unfolding text_items
listed_scopes (some (strs scopes)) = scopes
listed_scopes (some (list vs)) = text_items vs
listed_scopes _ = []

-- "scope" as a text, or else "scopes" as a list.
unfoldable pub scopes_of : Option Value → Option Value → List String
unfolding listed_scopes
scopes_of (some (str s)) listed = fields s
scopes_of _ listed = listed_scopes listed

unfoldable pub extract_scopes : Table Value → List String
unfolding scopes_of lookup
extract_scopes custom = scopes_of (lookup "scope" custom) (lookup "scopes" custom)

-- The loop of `ScopeChecker`: the first scope that is missing.
unfoldable pub check_scopes : List String → List String → Middleware
check_scopes granted [] c = proceed c
check_scopes granted (need ∷ needs) c =
    if contains granted need
    then check_scopes granted needs c
    else abort 403 ("forbidden: missing required scope: " <> need) c

unfoldable pub scope_checker : List String → Middleware
unfolding claims_from extract_scopes check_scopes
scope_checker required c = elim (claims_from c) [
  | none ↦ abort 401 "unauthenticated" c
  | some cl ↦ check_scopes (extract_scopes cl.custom) required c
]
