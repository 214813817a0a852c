-- ===== src/SecureHeaders.antt =====
-- secureheaders/secureheaders.go: the headers of a configuration, and the middleware.
-- A duration is a number of nanoseconds.
pub mod Sent
use api_security_sdk.Common.{
  ℕ, ◌/◌, String, Bool, true, false, ◌==◌, ◌<>◌, List, [], ◌∷◌, ltb, if◌then◌else◌, show_ℕ,
}
use api_security_sdk.Common.Table.{Table, insert}
use api_security_sdk.Http.{Request, Response, Handler, set_header, del_header}

pub record HstsConfig : Type 0 where
  pub max_age : ℕ
  pub include_sub_domains : Bool
  pub preload : Bool

pub record Config : Type 0 where
  pub hsts : HstsConfig
  pub content_type_opts : Bool
  pub frame_options : String
  pub xss_protection : Bool
  pub csp : String
  pub referrer_policy : String
  pub permissions_policy : String
  pub coep : String
  pub coop : String
  pub corp : String
  pub remove_server_header : Bool
  pub remove_powered_by : Bool

abbrev pub strict_config : Config
strict_config = record {
  hsts = record { max_age = 31_536_000_000_000_000; include_sub_domains = true; preload = false };
  content_type_opts = true;
  frame_options = "DENY";
  xss_protection = true;
  csp = "";
  referrer_policy = "strict-origin-when-cross-origin";
  permissions_policy = "geolocation=(), microphone=(), camera=()";
  coep = "require-corp";
  coop = "same-origin";
  corp = "same-origin";
  remove_server_header = true;
  remove_powered_by = true;
}

unfoldable pub hsts_value : HstsConfig → String
hsts_value c =
    "max-age="
    <> show_ℕ (c.max_age / 1_000_000_000)
    <> (if c.include_sub_domains then "; includeSubDomains" else "")
    <> (if c.preload then "; preload" else "")

-- One `if` of `buildHeaders`: `h[name] = value` under a condition.
unfoldable pub put_if : Bool → String → String → Table String → Table String
unfolding insert
put_if condition name value h = if condition then insert name value h else h

-- `if value != "" { h[name] = value }`
unfoldable pub put_text : String → String → Table String → Table String
unfolding insert
put_text name value h = if value == "" then h else insert name value h

unfoldable pub build_headers : Config → Table String
build_headers cfg = put_text "Cross-Origin-Resource-Policy" cfg.corp (
    put_text "Cross-Origin-Opener-Policy" cfg.coop (
      put_text "Cross-Origin-Embedder-Policy" cfg.coep (
        put_text "Permissions-Policy" cfg.permissions_policy (
          put_text "Referrer-Policy" cfg.referrer_policy (
            put_text "Content-Security-Policy" cfg.csp (
              put_if cfg.xss_protection "X-XSS-Protection" "1; mode=block" (
                put_text "X-Frame-Options" cfg.frame_options (
                  put_if cfg.content_type_opts "X-Content-Type-Options" "nosniff" (
                    put_if (ltb 0 cfg.hsts.max_age) "Strict-Transport-Security"
                      (hsts_value cfg.hsts) [])))))))))

unfoldable pub build_remove_list : Config → List String
build_remove_list cfg =
    let powered = if cfg.remove_powered_by then "X-Powered-By" ∷ [] else [] in
    if cfg.remove_server_header then "Server" ∷ powered else powered

-- The two loops of the handler; no name stands twice, so the order of the map is no matter.
unfoldable pub set_all : Table String → Response → Response
set_all [] w = w
set_all ((k, v) ∷ m) w = set_all m (set_header k v w)

unfoldable pub del_all : List String → Response → Response
del_all [] w = w
del_all (k ∷ ks) w = del_all ks (del_header k w)

unfoldable pub secure : Config → Handler → Handler
unfolding set_all del_all build_headers build_remove_list
secure cfg next r w = next r (del_all (build_remove_list cfg) (set_all (build_headers cfg) w))

unfoldable pub strict : Handler → Handler
unfolding secure
strict = secure strict_config
