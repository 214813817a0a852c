-- ===== src/SecureHeaders/Sent.antt =====
-- secureheaders/secureheaders.go: which headers the handler starts with.
use api_security_sdk.Common.{
  Option, ◌/◌, ◌<>◌, show_ℕ, String, ◌≡◌, ◌==◌, Bool, not, ◌&&◌, none, some, List, [], ◌∷◌,
  if◌then◌else◌, ltb,
}
use api_security_sdk.Common.Table.{Table}
use api_security_sdk.Http.{Request, Response, Handler, set_header, header_values}
use api_security_sdk.Http.Headers.{header_values-set_header}
use api_security_sdk.SecureHeaders.{Config, HstsConfig, secure}

-- A header, whether the configuration asks for it, and the values that it then has.
pub record Rule : Type 0 where
  pub name : String
  pub applies : Bool
  pub values : List String

-- Strict-Transport-Security in whole seconds.
unfoldable pub hsts_text : HstsConfig → String
hsts_text c =
    let age = "max-age=" <> show_ℕ (c.max_age / 1_000_000_000) in
    if c.include_sub_domains && c.preload
    then age <> "; includeSubDomains" <> "; preload"
    else if c.include_sub_domains
    then age <> "; includeSubDomains"
    else if c.preload
    then age <> "; preload"
    else age

-- The rule of a header with a text of its own, which is off where the text is empty.
abbrev text_rule : String → String → Rule
text_rule name value = record { name = name; applies = not (value == ""); values = value ∷ [] }

-- The headers as the comments of the configuration's fields list them, the removed ones first.
abbrev pub rules : Config → List Rule
rules cfg =
    record { name = "Server"; applies = cfg.remove_server_header; values = [] }
    ∷ record { name = "X-Powered-By"; applies = cfg.remove_powered_by; values = [] }
    ∷ text_rule "Cross-Origin-Resource-Policy" cfg.corp
    ∷ text_rule "Cross-Origin-Opener-Policy" cfg.coop
    ∷ text_rule "Cross-Origin-Embedder-Policy" cfg.coep
    ∷ text_rule "Permissions-Policy" cfg.permissions_policy
    ∷ text_rule "Referrer-Policy" cfg.referrer_policy
    ∷ text_rule "Content-Security-Policy" cfg.csp
    ∷ record {
      name = "X-XSS-Protection";
      applies = cfg.xss_protection;
      values = "1; mode=block" ∷ [];
    }
    ∷ text_rule "X-Frame-Options" cfg.frame_options
    ∷ record {
      name = "X-Content-Type-Options";
      applies = cfg.content_type_opts;
      values = "nosniff" ∷ [];
    }
    ∷ record {
      name = "Strict-Transport-Security";
      applies = ltb 0 cfg.hsts.max_age;
      values = hsts_text cfg.hsts ∷ [];
    }
    ∷ []

-- The values of a header under rules, of which the first that applies counts; what it was else.
unfoldable pub ruled : List Rule → String → List String → List String
ruled [] k old = old
ruled (r ∷ rs) k old = if r.name == k && r.applies then r.values else ruled rs k old

-- The values that a table gives a header.
abbrev given : Option String → List String → List String
given found old = elim found [ none ↦ old | some v ↦ v ∷ [] ]

-- A Server header that the handler sets goes out, though the configuration says to remove it.
pub secure_keeps_late :
    (cfg : Config) (value : String) (next : Handler) (r : Request) (w : Response)
    → ((w' : Response) → next r w' ≡ set_header "Server" value w')
    → header_values "Server" (secure cfg next r w) ≡ value ∷ []
unfolding secure
secure_keeps_late cfg value next r w sets =
    rw sets (header_values-set_header "Server" "Server" value _)
