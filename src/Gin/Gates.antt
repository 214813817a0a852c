-- ===== src/Gin/Gates.antt =====
-- ginmw/middleware.go: which requests go on, and what the later handlers then know of them.
use api_security_sdk.Common.{
  String, ◌≡◌, refl, ◌≢◌, ◌↔◌, ◌==◌, Bool, true, false, none, some, List, [], ◌∷◌, Memᴰ, arith,
  Bool-cases, Result-cases, Result, ok, inl, inr, eq_iff, contains, contains_iff, ◌∙◌, sym, ap,
}
use api_security_sdk.Common.Values.{str}
use api_security_sdk.Common.Table.{lookup-insert}
use api_security_sdk.Jwt.{Claims}
use api_security_sdk.Jwt
use api_security_sdk.Rbac.{Store, can}
use api_security_sdk.Rbac.Grants.{Permitted}
use api_security_sdk.Rbac.Sound.{can_sound}
use api_security_sdk.Gin.Scopes.{Scoped, extract_scopes_iff}
use api_security_sdk.Gin.{
  claims_entry, value_entry, Context, Step, proceed, abort, claims_key, subject_key, get_key,
  set_key, entry_text, get_text, entry_claims, claims_from, subject_from, JwtConfig, token_of,
  with_claims, jwt, require_permission, extract_scopes, check_scopes, scope_checker,
}

with_claims-plain :
    (cfg : JwtConfig) (cl : Claims) (c : Context)
    → cfg.extractor ≡ none
    → with_claims cfg cl c
      ≡ set_key subject_key (value_entry (str cl.subject)) (set_key claims_key (claims_entry cl) c)
unfolding with_claims
with_claims-plain cfg cl c plain = ground arith

claims_from-with_claims :
    (cfg : JwtConfig) (cl : Claims) (c : Context)
    → cfg.extractor ≡ none
    → claims_from (with_claims cfg cl c) ≡ some cl
unfolding claims_from get_key entry_claims set_key
claims_from-with_claims cfg cl c plain =
    rw
      (
        with_claims-plain cfg cl c plain,
        claims_from,
        lookup-insert subject_key claims_key (value_entry (str cl.subject)),
        lookup-insert claims_key claims_key (claims_entry cl),
      )
      refl

subject_from-with_claims :
    (cfg : JwtConfig) (cl : Claims) (c : Context)
    → cfg.extractor ≡ none
    → subject_from (with_claims cfg cl c) ≡ cl.subject
unfolding subject_from entry_text get_text get_key set_key
subject_from-with_claims cfg cl c plain =
    rw
      (
        with_claims-plain cfg cl c plain,
        subject_from,
        lookup-insert subject_key subject_key (value_entry (str cl.subject)),
      )
      refl

bool_clash : ¬ (true ≡ false)
bool_clash e = ground arith

-- The context of a step.
abbrev context_of : Step → Context
context_of (proceed c) = c
context_of (abort _ _ c) = c

abbrev is_proceed : Step → Bool
is_proceed (proceed _) = true
is_proceed (abort _ _ _) = false

-- `JWT` goes on only with the claims that the service verified for the token of the request.
pub jwt_proceeds :
    (verify : String → Result Jwt.Error Claims) (show : Jwt.Error → String) (cfg : JwtConfig)
    (c c' : Context)
    → jwt verify show cfg c ≡ proceed c'
    → (cl : Claims) × (verify (token_of cfg c) ≡ ok cl)
      × (token_of cfg c ≢ "")
      × (c' ≡ with_claims cfg cl c)
unfolding jwt
jwt_proceeds verify show cfg c c' e = elim (Bool-cases (token_of cfg c == "")) [
  | inl empty ↦ absurd (bool_clash (sym (ap is_proceed (rw (empty, jwt) at e))))
  | inr given ↦ elim (Result-cases (verify (token_of cfg c))) [
    | inr (x, bad) ↦ absurd (bool_clash (sym (ap is_proceed (rw (given, bad, jwt) at e))))
    | inl (cl, verified) ↦ (
      cl,
      verified,
      ground (arith, eq_iff (token_of cfg c) ""),
      sym (ap context_of (rw (given, verified, jwt) at e)),
    )
  ]
]

-- `RequirePermission` goes on exactly for a subject that `Can` allows, with the context unchanged.
pub require_permission_proceeds :
    (store : Store) (action resource : String) (c c' : Context)
    → require_permission store action resource c ≡ proceed c'
    → (c' ≡ c) × (subject_from c ≢ "") × (can store (subject_from c) action resource ≡ true)
unfolding require_permission
require_permission_proceeds store action resource c c' e =
    elim (Bool-cases (subject_from c == "")) [
      | inl empty ↦ absurd (bool_clash (sym (ap is_proceed (rw (empty, require_permission) at e))))
      | inr given ↦ elim (Bool-cases (can store (subject_from c) action resource)) [
        | inr bad ↦
            absurd (bool_clash (sym (ap is_proceed (rw (given, bad, require_permission) at e))))
        | inl allowed ↦ (
          sym (ap context_of (rw (given, allowed, require_permission) at e)),
          ground (arith, eq_iff (subject_from c) ""),
          allowed,
        )
      ]
    ]

-- With no extractor, a request that goes on behind `JWT` and then behind `RequirePermission`
-- carries a token that the service verified, and a role of the subject of its claims grants the
-- permission; the handlers find those claims.
pub jwt-require_permission :
    (verify : String → Result Jwt.Error Claims) (show : Jwt.Error → String) (cfg : JwtConfig)
    (store : Store) (action resource : String) (c c' c'' : Context)
    → cfg.extractor ≡ none
    → jwt verify show cfg c ≡ proceed c'
    → require_permission store action resource c' ≡ proceed c''
    → (cl : Claims) × (verify (token_of cfg c) ≡ ok cl)
      × (claims_from c'' ≡ some cl)
      × Permitted store cl.subject action resource
jwt-require_permission verify show cfg store action resource c c' c'' plain e e' =
    let (cl, verified, _, same) = jwt_proceeds verify show cfg c c' e in
    let (kept, _, allowed) = require_permission_proceeds store action resource c' c'' e' in
    let who : subject_from c' ≡ cl.subject =
      ap subject_from same ∙ subject_from-with_claims cfg cl c plain in
    (
      cl,
      verified,
      ap claims_from kept ∙ ap claims_from same ∙ claims_from-with_claims cfg cl c plain,
      can_sound store cl.subject action resource (rw who at allowed),
    )

check_scopes_iff :
    (granted needs : List String) (c : Context)
    → (check_scopes granted needs c ≡ proceed c)
      ↔ ((need : String) → Memᴰ need needs → Memᴰ need granted)
unfolding check_scopes
check_scopes_iff granted [] c = (λ _ need at. elim at [ ], λ _. refl)
check_scopes_iff granted (n ∷ ns) c = elim (Bool-cases (contains granted n)) [
  | inl held ↦ rw held (
    λ e need at. elim at [
      | Memᴰ.head same ↦ rw same ((contains_iff granted n).0 held)
      | Memᴰ.tail later ↦ (check_scopes_iff granted ns c).0 e need later
    ],
    λ all. (check_scopes_iff granted ns c).1 (λ need at. all need (Memᴰ.tail at)),
  )
  | inr missing ↦ rw missing (
    λ e. absurd (bool_clash (sym (ap is_proceed e))),
    λ all.
        absurd (bool_clash (sym ((contains_iff granted n).1 (all n (Memᴰ.head refl))) ∙ missing)),
  )
]

-- `ScopeChecker` lets a request with claims on exactly if the claims hold each required scope: as a
-- word of the text under "scope", or, where no text is there, in the list under "scopes".
pub scope_checker_iff :
    (required : List String) (c : Context) (cl : Claims)
    → claims_from c ≡ some cl
    → (scope_checker required c ≡ proceed c)
      ↔ ((need : String) → Memᴰ need required → Scoped cl.custom need)
unfolding scope_checker
scope_checker_iff required c cl known =
    let checked = check_scopes_iff (extract_scopes cl.custom) required c in
    rw (known, scope_checker)
      (
        λ e need at. (extract_scopes_iff cl.custom need).1 (checked.0 e need at),
        λ all. checked.1 (λ need at. (extract_scopes_iff cl.custom need).0 (all need at)),
      )
