-- ===== src/Cors/Origins.antt =====
-- cors/cors.go: what an answer tells a browser about an origin.
use api_security_sdk.Common.{
  String, ◌≡◌, refl, ◌≢◌, ◌↔◌, ◌==◌, Bool, true, false, not, ◌&&◌, none, some, List, [], ◌∷◌, Memᴰ,
  arith, if◌then◌else◌, Bool-cases, inl, inr, eq_iff, contains, contains_iff, ◌⊎◌, ◌∙◌, any,
  any_sound, any_complete,
}
use api_security_sdk.Http.{
  Request, Response, Handler, set_header, add_header, header_values, status_of,
}
use api_security_sdk.Http.Headers.{
  header_values-set_header, header_values-add_header, header_values-write_header,
  write_header-status,
}
use api_security_sdk.Cors.{
  Config, CorsHandler, exact_origins, new_handler, origin_allowed, allow_origin, with_credentials,
  with_exposed, handle_preflight, handle_actual, is_preflight, serve,
}

-- The names of the headers that grant access.
abbrev pub acao : String
acao = "Access-Control-Allow-Origin"

abbrev pub acac : String
acac = "Access-Control-Allow-Credentials"

module _ (to_lower : String → String) (h : CorsHandler) where
  with_exposed-header :
      (w : Response) → header_values acao (with_exposed to_lower h w) ≡ header_values acao w
  unfolding with_exposed
  with_exposed-header w =
      ground (arith, header_values-set_header "Access-Control-Expose-Headers" acao h.exposed w)

  with_credentials-header :
      (w : Response) → header_values acao (with_credentials to_lower h w) ≡ header_values acao w
  unfolding with_credentials
  with_credentials-header w = ground (arith, header_values-set_header acac acao "true" w)

  handle_actual-header :
      (r : Request) (w : Response)
      → header_values acao (handle_actual to_lower h r w) ≡ (
          if origin_allowed to_lower h (r.get_header "Origin")
          then allow_origin to_lower h (r.get_header "Origin") ∷ []
          else header_values acao w)
  unfolding handle_actual
  handle_actual-header r w = elim (Bool-cases (origin_allowed to_lower h (r.get_header "Origin"))) [
    | inl allowed ↦
        rw (allowed, with_exposed-header, with_credentials-header)
          (header_values-set_header acao acao (allow_origin to_lower h (r.get_header "Origin"))
            (add_header "Vary" "Origin" w))
    | inr denied ↦ rw denied (header_values-add_header "Vary" acao "Origin" w)
  ]

  handle_preflight-header :
      (r : Request) (w : Response)
      → header_values acao (handle_preflight to_lower h r w) ≡ (
          if origin_allowed to_lower h (r.get_header "Origin")
          then allow_origin to_lower h (r.get_header "Origin") ∷ []
          else header_values acao w)
  unfolding handle_preflight
  handle_preflight-header r w =
      elim (Bool-cases (origin_allowed to_lower h (r.get_header "Origin"))) [
        | inl allowed ↦
            rw
              (
                allowed,
                with_credentials-header,
                header_values-set_header "Access-Control-Max-Age" acao h.age,
                header_values-set_header "Access-Control-Allow-Headers" acao h.headers,
                header_values-set_header "Access-Control-Allow-Methods" acao h.methods,
                header_values-set_header acao acao
                    (allow_origin to_lower h (r.get_header "Origin")),
              )
              refl
        | inr denied ↦
            rw
              (
                denied,
                header_values-add_header "Vary" acao "Access-Control-Request-Headers",
                header_values-add_header "Vary" acao "Access-Control-Request-Method",
                header_values-add_header "Vary" acao "Origin",
              )
              refl
      ]

  handle_preflight-sent :
      (r : Request) (w : Response) → (handle_preflight to_lower h r w).sent ≡ w.sent
  unfolding handle_preflight set_header add_header with_credentials
  handle_preflight-sent r w = ground arith

  -- A preflight request, with no status sent and no Access-Control-Allow-Origin set yet, is
  -- answered by 204, whatever the handler; Access-Control-Allow-Origin is set exactly if its
  -- origin is allowed.
  pub preflight_answered :
      (next : Handler) (r : Request) (w : Response)
      → is_preflight to_lower h r ≡ true
      → w.sent ≡ none
      → header_values acao w ≡ []
      → (status_of (serve to_lower h next r w) ≡ some 204)
        × (header_values acao (serve to_lower h next r w) ≡ (
            if origin_allowed to_lower h (r.get_header "Origin")
            then allow_origin to_lower h (r.get_header "Origin") ∷ []
            else []))
  unfolding serve
  preflight_answered next r w pre fresh none_yet = rw pre (
    write_header-status 204 (handle_preflight to_lower h r w) (handle_preflight-sent r w ∙ fresh),
    header_values-write_header acao 204 (handle_preflight to_lower h r w)
        ∙ rw (handle_preflight-header r w, none_yet) refl,
  )

  -- A request that is no preflight, with no Access-Control-Allow-Origin set yet, reaches the
  -- handler, with Access-Control-Allow-Origin set exactly if its origin is allowed.
  pub actual_reaches :
      (next : Handler) (r : Request) (w : Response)
      → is_preflight to_lower h r ≡ false
      → header_values acao w ≡ []
      → (w' : Response) × (serve to_lower h next r w ≡ next r w')
        × (header_values acao w' ≡ (
            if origin_allowed to_lower h (r.get_header "Origin")
            then allow_origin to_lower h (r.get_header "Origin") ∷ []
            else []))
  unfolding serve
  actual_reaches next r w actual none_yet =
      (handle_actual to_lower h r w, rw actual refl, rw (handle_actual-header r w, none_yet) refl)

-- An entry of the list that is not "*" and equals the origin but for case.
abbrev is_entry : (String → String) → String → String → Bool
is_entry to_lower origin x = not (x == "*") && to_lower x == to_lower origin

contains-exact_origins :
    (to_lower : String → String) (origins : List String) (origin : String)
    → contains (exact_origins to_lower origins) (to_lower origin)
      ≡ any (is_entry to_lower origin) origins
unfolding exact_origins
contains-exact_origins to_lower [] origin = refl
contains-exact_origins to_lower (x ∷ xs) origin =
    ground (arith, contains-exact_origins to_lower xs origin)

-- An origin is allowed exactly if it is not empty, and "*" is configured or a configured origin
-- has the same lower case.
pub origin_allowed_iff :
    (to_lower : String → String) (cfg : Config) (origin : String)
    → (origin_allowed to_lower (new_handler to_lower cfg) origin ≡ true)
      ↔ (origin ≢ "")
        × (Memᴰ "*" cfg.allowed_origins
            ⊎ ((x : String) × Memᴰ x cfg.allowed_origins × (to_lower x ≡ to_lower origin)))
unfolding origin_allowed new_handler
origin_allowed_iff to_lower cfg origin = (
  λ allowed. (
    ground (arith, eq_iff origin ""),
    elim (Bool-cases (contains cfg.allowed_origins "*")) [
      | inl star ↦ inl ((contains_iff cfg.allowed_origins "*").0 star)
      | inr plain ↦
          let hit : any (is_entry to_lower origin) cfg.allowed_origins ≡ true =
            ground (arith, contains-exact_origins to_lower cfg.allowed_origins origin) in
          let (x, at, same) = any_sound (is_entry to_lower origin) cfg.allowed_origins hit in
          inr (x, at, ground (arith, eq_iff (to_lower x) (to_lower origin)))
    ],
  ),
  λ (named, reason). elim reason [
    | inl star ↦ ground (arith, eq_iff origin "", (contains_iff cfg.allowed_origins "*").1 star)
    | inr (x, at, same) ↦ elim (Bool-cases (contains cfg.allowed_origins "*")) [
      | inl star ↦ ground (arith, eq_iff origin "")
      | inr plain ↦
          let other : x == "*" ≡ false =
            ground (arith, eq_iff x "*", (contains_iff cfg.allowed_origins x).1 at) in
          let hit : any (is_entry to_lower origin) cfg.allowed_origins ≡ true =
            any_complete (is_entry to_lower origin) at
              (ground (arith, eq_iff (to_lower x) (to_lower origin))) in
          ground
            (arith, eq_iff origin "", contains-exact_origins to_lower cfg.allowed_origins origin)
    ]
  ],
)

with_credentials-value :
    (to_lower : String → String) (h : CorsHandler) (w : Response)
    → h.credentials ≡ true
    → header_values acac (with_credentials to_lower h w) ≡ "true" ∷ []
unfolding with_credentials
with_credentials-value to_lower h w e = ground (arith, header_values-set_header acac acac "true" w)

with_exposed-credentials :
    (to_lower : String → String) (h : CorsHandler) (w : Response)
    → header_values acac (with_exposed to_lower h w) ≡ header_values acac w
unfolding with_exposed
with_exposed-credentials to_lower h w =
    ground (arith, header_values-set_header "Access-Control-Expose-Headers" acac h.exposed w)

-- With the origin "*" configured together with credentials, an actual request with any origin gets
-- it back in Access-Control-Allow-Origin, beside Access-Control-Allow-Credentials: true.
pub wildcard_reflects :
    (to_lower : String → String) (cfg : Config) (r : Request) (w : Response)
    → Memᴰ "*" cfg.allowed_origins
    → cfg.allow_credentials ≡ true
    → r.get_header "Origin" ≢ ""
    → (header_values acao (handle_actual to_lower (new_handler to_lower cfg) r w)
        ≡ r.get_header "Origin" ∷ [])
      × (header_values acac (handle_actual to_lower (new_handler to_lower cfg) r w) ≡ "true" ∷ [])
unfolding allow_origin new_handler handle_actual
wildcard_reflects to_lower cfg r w star credentials named =
    let h = new_handler to_lower cfg in
    let allowed : origin_allowed to_lower h (r.get_header "Origin") ≡ true =
      (origin_allowed_iff to_lower cfg (r.get_header "Origin")).1 (named, inl star) in
    (
      handle_actual-header to_lower h r w ∙ rw (allowed, credentials) ground arith,
      rw allowed
          (with_exposed-credentials to_lower h _ ∙ with_credentials-value to_lower h _ credentials),
    )
