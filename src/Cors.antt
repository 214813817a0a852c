-- ===== src/Cors.antt =====
-- cors/cors.go: the handler that a configuration gives, and the middleware.
-- `to_lower` is `strings.ToLower`. A duration is a number of nanoseconds.
pub mod Origins
use api_security_sdk.Common.{
  ℕ, ◌/◌, String, Bool, true, false, not, ◌&&◌, ◌||◌, ◌==◌, ◌<>◌, Option, none, some, List, [], ◌∷◌,
  ◌++◌, map, eqb, contains, if◌then◌else◌, show_ℕ,
}
use api_security_sdk.Http.{Request, Response, Handler, set_header, add_header, write_header}

pub record Config : Type 0 where
  pub allowed_origins : List String
  pub allowed_methods : List String
  pub allowed_headers : List String
  pub exposed_headers : List String
  pub allow_credentials : Bool
  pub max_age : ℕ

-- `corsHandler`; the set `allowedOrigins` is the list of its members.
pub record CorsHandler : Type 0 where
  pub origins : List String
  pub wildcard_origin : Bool
  pub methods : String
  pub headers : String
  pub exposed : String
  pub credentials : Bool
  pub age : String

-- `strings.Join(parts, sep)`
unfoldable pub join : String → List String → String
join sep [] = ""
join sep (s ∷ []) = s
join sep (s ∷ t ∷ rest) = s <> sep <> join sep (t ∷ rest)

-- Five minutes.
abbrev pub default_max_age : ℕ
default_max_age = 300_000_000_000

abbrev pub default_methods : List String
default_methods = "GET" ∷ "HEAD" ∷ "POST" ∷ []

abbrev pub base_headers : List String
base_headers = "Origin" ∷ "Accept" ∷ "Content-Type" ∷ []

abbrev is_empty : List String → Bool
is_empty [] = true
is_empty _ = false

abbrev is_star : List String → Bool
is_star (h ∷ []) = h == "*"
is_star _ = false

-- The loop over `cfg.AllowedOrigins`: is "*" among them, and the others in lower case.
unfoldable pub exact_origins : (String → String) → List String → List String
exact_origins to_lower [] = []
exact_origins to_lower (o ∷ os) =
    if o == "*" then exact_origins to_lower os else to_lower o ∷ exact_origins to_lower os

-- The loop that drops a header whose lower case was seen.
unfoldable pub dedupe : (String → String) → List String → List String → List String
dedupe to_lower seen [] = []
dedupe to_lower seen (h ∷ hs) =
    if contains seen (to_lower h)
    then dedupe to_lower seen hs
    else h ∷ dedupe to_lower (to_lower h ∷ seen) hs

unfoldable pub header_list : (String → String) → Config → String
unfolding join dedupe
header_list to_lower cfg =
    if is_star cfg.allowed_headers
    then "*"
    else join ", " (dedupe to_lower [] (base_headers ++ cfg.allowed_headers))

unfoldable pub new_handler : (String → String) → Config → CorsHandler
unfolding exact_origins header_list join
new_handler to_lower cfg = record {
  origins = exact_origins to_lower cfg.allowed_origins;
  wildcard_origin = contains cfg.allowed_origins "*";
  methods =
      join ", " (if is_empty cfg.allowed_methods then default_methods else cfg.allowed_methods);
  headers = header_list to_lower cfg;
  exposed = join ", " cfg.exposed_headers;
  credentials = cfg.allow_credentials;
  age = show_ℕ ((if eqb cfg.max_age 0 then default_max_age else cfg.max_age) / 1_000_000_000);
}

module _ (to_lower : String → String) (h : CorsHandler) where
  unfoldable pub origin_allowed : String → Bool
  origin_allowed origin =
      if origin == ""
      then false
      else if h.wildcard_origin
      then true
      else contains h.origins (to_lower origin)

  -- The value of Access-Control-Allow-Origin.
  unfoldable pub allow_origin : String → String
  allow_origin origin = if h.wildcard_origin && not h.credentials then "*" else origin

  unfoldable pub with_credentials : Response → Response
  with_credentials w =
      if h.credentials then set_header "Access-Control-Allow-Credentials" "true" w else w

  unfoldable pub with_exposed : Response → Response
  with_exposed w =
      if h.exposed == "" then w else set_header "Access-Control-Expose-Headers" h.exposed w

  unfoldable pub handle_preflight : Request → Response → Response
  unfolding origin_allowed allow_origin with_credentials
  handle_preflight r w =
      let origin = r.get_header "Origin" in
      let w' =
        add_header "Vary" "Access-Control-Request-Headers"
          (add_header "Vary" "Access-Control-Request-Method" (add_header "Vary" "Origin" w)) in
      if not (origin_allowed origin)
      then w'
      else with_credentials (
          set_header "Access-Control-Max-Age" h.age (
            set_header "Access-Control-Allow-Headers" h.headers (
              set_header "Access-Control-Allow-Methods" h.methods
                (set_header "Access-Control-Allow-Origin" (allow_origin origin) w'))))

  unfoldable pub handle_actual : Request → Response → Response
  unfolding origin_allowed allow_origin with_credentials with_exposed
  handle_actual r w =
      let origin = r.get_header "Origin" in
      let w' = add_header "Vary" "Origin" w in
      if not (origin_allowed origin)
      then w'
      else with_exposed
          (with_credentials (set_header "Access-Control-Allow-Origin" (allow_origin origin) w'))

  unfoldable pub is_preflight : Request → Bool
  is_preflight r = r.method == "OPTIONS" && not (r.get_header "Access-Control-Request-Method" == "")

  unfoldable pub serve : Handler → Handler
  unfolding handle_preflight handle_actual is_preflight
  serve next r w =
      if is_preflight r then write_header 204 (handle_preflight r w) else next r (handle_actual r w)

-- `New` and `AllowAll`
unfoldable pub cors : (String → String) → Config → Handler → Handler
unfolding serve new_handler
cors to_lower cfg = serve to_lower (new_handler to_lower cfg)

abbrev pub allow_all_config : Config
allow_all_config = record {
  allowed_origins = "*" ∷ [];
  allowed_methods = "GET" ∷ "HEAD" ∷ "POST" ∷ "PUT" ∷ "PATCH" ∷ "DELETE" ∷ "OPTIONS" ∷ [];
  allowed_headers = "*" ∷ [];
  exposed_headers = [];
  allow_credentials = false;
  max_age = default_max_age;
}

unfoldable pub allow_all : (String → String) → Handler → Handler
unfolding cors
allow_all to_lower = cors to_lower allow_all_config
