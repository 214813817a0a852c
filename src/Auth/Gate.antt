-- ===== src/Auth/Gate.antt =====
-- auth/middleware and the middleware of apikey: when the handler runs, and with what.
use api_security_sdk.Common.{
  String, ◌≡◌, refl, ◌≢◌, ◌==◌, none, some, Bool-cases, Result-cases, Result, ok, err, inl, inr,
  arith, eq_iff, ◌⊎◌,
}
use api_security_sdk.Jwt.{Claims, Error, invalid_token}
use api_security_sdk.ApiKey.{Key, invalid_key}
use api_security_sdk.ApiKey
use api_security_sdk.ApiKey.Middleware.{extract_key, key_subject_from, authenticate}
use api_security_sdk.ApiKey.Middleware
use api_security_sdk.Http.{Request, Response, Handler}
use api_security_sdk.Auth.{
  ErrorHandler, with_claims, subject_from, extract_bearer, jwt, optional, require_auth,
}

module _ (verify : String → Result Error Claims) (on_error : ErrorHandler) (next : Handler)
    (r : Request) (w : Response) where
  -- `JWT` hands a request to the handler with the claims that the service verified for its Bearer
  -- token, or else to the error handler with the error of the extraction or of the service.
  pub jwt_gates :
      ((token : String) × (claims : Claims) × (extract_bearer r ≡ ok token)
        × (verify token ≡ ok claims)
        × (jwt verify on_error next r w ≡ next (with_claims claims r) w)
        × (subject_from (with_claims claims r) ≡ claims.subject))
      ⊎ ((e : Error) × (jwt verify on_error next r w ≡ on_error r e w)
          × ((extract_bearer r ≡ err e)
              ⊎ ((token : String) × (extract_bearer r ≡ ok token) × (verify token ≡ err e))))
  unfolding jwt with_claims subject_from
  jwt_gates = elim (Result-cases (extract_bearer r)) [
    | inr (e, bad) ↦ inr (e, ground arith, inl bad)
    | inl (token, found) ↦ elim (Result-cases (verify token)) [
      | inr (e, bad) ↦ inr (e, ground arith, inr (token, found, bad))
      | inl (claims, good) ↦ inl (token, claims, found, good, ground arith, refl)
    ]
  ]

  -- On a request without claims `Optional` followed by `RequireAuth` answers as `JWT` does with an
  -- error handler that gets ErrInvalidToken for every refusal.
  pub optional-require_auth :
      r.claims ≡ none
      → optional verify (require_auth on_error next) r w
        ≡ jwt verify (λ r' _ w'. on_error r' invalid_token w') next r w
  unfolding optional require_auth jwt with_claims
  optional-require_auth bare = elim (Result-cases (extract_bearer r)) [
    | inr (e, bad) ↦ ground arith
    | inl (token, found) ↦ elim (Result-cases (verify token)) [
      | inr (e, bad) ↦ ground arith
      | inl (claims, good) ↦ ground arith
    ]
  ]

module _ (check : String → Result ApiKey.Error Key) (on_error : ApiKey.Middleware.ErrorHandler)
    (next : Handler) (r : Request) (w : Response) where
  -- The API-key middleware runs the handler only with a key that `Verify` returned for the key text
  -- of the request, and else the error handler with that error, or ErrInvalidKey where no key came.
  pub authenticate_gates :
      ((k : Key) × (extract_key r ≢ "")
        × (check (extract_key r) ≡ ok k)
        × (authenticate check on_error next r w ≡ next (record r { api_key = some k }) w)
        × (key_subject_from (record r { api_key = some k }) ≡ k.subject))
      ⊎ ((e : ApiKey.Error) × (authenticate check on_error next r w ≡ on_error r e w)
          × (((extract_key r ≡ "") × (e ≡ invalid_key)) ⊎ (check (extract_key r) ≡ err e)))
  unfolding authenticate key_subject_from
  authenticate_gates = elim (Bool-cases (extract_key r == "")) [
    | inl empty ↦ inr (invalid_key, ground arith, inl ((eq_iff (extract_key r) "").0 empty, refl))
    | inr given ↦ elim (Result-cases (check (extract_key r))) [
      | inr (e, bad) ↦ inr (e, ground arith, inr bad)
      | inl (k, good) ↦ inl (k, ground (arith, eq_iff (extract_key r) ""), good, ground arith, refl)
    ]
  ]
