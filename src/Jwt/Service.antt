-- ===== src/Jwt/Service.antt =====
-- auth/jwt/jwt.go: Sign, Verify, Refresh and Revoke, over the state of the blacklist.
use api_security_sdk.Common.{
  ℕ, ◌+◌, String, Bool, true, false, ◌==◌, Option, none, some, Result, ok, err, if◌then◌else◌,
}
use api_security_sdk.Jwt.{
  Claims, StandardClaims, alg, Error, invalid_token, invalid_signing_method, token_revoked,
  no_blacklist, missing_algorithm, Gojwt, map_jwt_error,
}
use api_security_sdk.Jwt.Options.{Keyfunc, Options}

abbrev time_or_zero : Option ℕ → ℕ
time_or_zero none = 0
time_or_zero (some t) = t

-- The claims that `Verify` returns: a missing date is the zero time.
unfoldable pub claims_of : StandardClaims → Claims
claims_of c = record {
  subject = c.sub;
  audience = c.aud;
  expires_at = time_or_zero c.exp;
  issued_at = time_or_zero c.iat;
  custom = c.cst;
}

module _ {K B : Type 0} (lib : Gojwt K) (o : Options K B) where
  -- The claims that `Sign` hands to the library; all its dates come of one reading of the clock.
  unfoldable pub claims_to_sign : ℕ → Claims → StandardClaims
  claims_to_sign now claims = record {
    issuer = o.issuer;
    sub = claims.subject;
    aud = claims.audience;
    exp = some (lib.numeric_date (now + o.expiry));
    iat = some (lib.numeric_date now);
    nbf = some (lib.numeric_date now);
    cst = claims.custom;
  }

  unfoldable pub sign : ℕ → Claims → Result Error String
  unfolding claims_to_sign
  sign now claims = elim o.signing_method [
    | none ↦ err missing_algorithm
    | some method ↦ lib.signed_string method o.signing_key (claims_to_sign now claims)
  ]

  -- The keyfunc of `Verify`. It is called with a method or a keyfunc configured, so that the middle
  -- case is not met.
  unfoldable pub keyfunc : Keyfunc K
  keyfunc token = elim o.key_func [
    | some kf ↦ kf token
    | none ↦ elim o.signing_method [
      | none ↦ err missing_algorithm
      | some method ↦
          if token.method_alg == alg method then ok o.verify_key else err invalid_signing_method
    ]
  ]

  -- `s.opts.keyFunc == nil && s.opts.signingMethod == nil`
  unfoldable pub is_unconfigured : Bool
  is_unconfigured = elim o.key_func [
    | some kf ↦ false
    | none ↦ elim o.signing_method [ none ↦ true | some method ↦ false ]
  ]

  -- The blacklist's verdict, with an error of its store counted as revoked.
  unfoldable pub check_blacklist : B → String → Claims → Result Error Claims
  check_blacklist b token claims = elim o.blacklist [
    | none ↦ ok claims
    | some bl ↦ elim (bl.is_revoked b token) [
      | err e ↦ err token_revoked
      | ok revoked ↦ if revoked then err token_revoked else ok claims
    ]
  ]

  unfoldable pub verify : ℕ → B → String → Result Error Claims
  unfolding claims_of is_unconfigured check_blacklist map_jwt_error
  verify now b token =
      if is_unconfigured
      then err missing_algorithm
      else elim (lib.parse_with_claims now token keyfunc) [
        | err e ↦ err (map_jwt_error e)
        | ok (valid, c) ↦ if valid then check_blacklist b token (claims_of c) else err invalid_token
      ]

  unfoldable pub revoke_token : B → String → Result Error (Unit {0}) × B
  revoke_token b token = elim o.blacklist [
    | none ↦ (err no_blacklist, b)
    | some bl ↦ bl.revoke b token
  ]

  -- `_ = s.opts.blacklist.Revoke(tokenString)`, if there is a blacklist
  unfoldable pub drop_token : B → String → B
  drop_token b token = elim o.blacklist [ none ↦ b | some bl ↦ (bl.revoke b token).1 ]

  -- The clock is read by `Verify` and, later, by `Sign`.
  unfoldable pub refresh : (now later : ℕ) → B → String → Result Error String × B
  unfolding drop_token verify sign
  refresh now later b token = elim (verify now b token) [
    | err e ↦ (err e, b)
    | ok claims ↦ (sign later claims, drop_token b token)
  ]
