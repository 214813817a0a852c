-- ===== src/Jwt/Rotation.antt =====
-- auth/jwt: what `Refresh` leaves behind.
use api_security_sdk.Common.{
  ℕ, ◌+◌, String, ◌≡◌, ◌≢◌, none, some, inl, inr, arith, ok, err, Result-cases,
}
use api_security_sdk.Jwt.{Claims, missing_algorithm, Gojwt, Blacklist}
use api_security_sdk.Jwt.Options.{Options}
use api_security_sdk.Jwt.Service.{claims_to_sign, sign, verify, drop_token, refresh}
use api_security_sdk.Jwt.Laws.{Lasts, Later, Later-keeps, verify_token_sound}

refresh_parts :
    {K B : Type 0} (lib : Gojwt K) (o : Options K B) (now later : ℕ) (b : B) (token : String)
    (claims : Claims)
    → verify lib o now b token ≡ ok claims
    → ((refresh lib o now later b token).0 ≡ sign lib o later claims)
      × ((refresh lib o now later b token).1 ≡ drop_token lib o b token)
unfolding refresh
refresh_parts lib o now later b token claims h = (ground arith, ground arith)

module _ {K B : Type 0} (lib : Gojwt K) (o : Options K B) (bl : Blacklist B) (lasts : Lasts bl)
    (is : o.blacklist ≡ some bl)
    (never_fails : (b : B) (token : String) → (bl.revoke b token).0 ≡ ok tt) where
  dropped_rejected :
      (b c : B) (token : String) (now : ℕ) (claims : Claims)
      → Later bl (drop_token lib o b token) c
      → verify lib o now c token ≢ ok claims
  dropped_rejected b c token now claims later verified =
      let (_, _, _, live) = verify_token_sound lib o now c token claims verified in
      let at : drop_token lib o b token ≡ (bl.revoke b token).1 =
        unfold drop_token in ground arith in
      let struck = lasts.takes_effect b token (never_fails b token) in
      let still = Later-keeps token lasts later (rw at struck) in cc (live bl is)

  -- With a blacklist that keeps its promise and whose revocations never fail, a refresh that
  -- returns a token has verified the old one, signs its claims anew, and leaves the old one
  -- revoked for good.
  pub refresh_rotates :
      (now later : ℕ) (b c : B) (token fresh : String)
      → refresh lib o now later b token ≡ (ok fresh, c)
      → (claims : Claims) × (verify lib o now b token ≡ ok claims)
        × (sign lib o later claims ≡ ok fresh)
        × ((now' : ℕ) (c' : B) (claims' : Claims)
            → Later bl c c'
            → verify lib o now' c' token ≢ ok claims')
  unfolding refresh
  refresh_rotates now later b c token fresh h = elim (Result-cases (verify lib o now b token)) [
    | inr (e, refused) ↦ absurd (ground arith)
    | inl (claims, verified) ↦
        let at : drop_token lib o b token ≡ c = ground arith in
        (
          claims,
          verified,
          ground arith,
          λ now' c' claims' l. dropped_rejected b c' token now' claims' (rw at l),
        )
  ]

  -- With a blacklist that keeps its promise and whose revocations never fail, a service that has
  -- no signing method answers a refresh of a token that it verifies by ErrMissingAlgorithm, and
  -- revokes the token all the same.
  pub refresh_strands :
      (now later now' : ℕ) (b : B) (token : String) (claims claims' : Claims)
      → o.signing_method ≡ none
      → verify lib o now b token ≡ ok claims
      → ((refresh lib o now later b token).0 ≡ err missing_algorithm)
        × (verify lib o now' (refresh lib o now later b token).1 token ≢ ok claims')
  unfolding sign
  refresh_strands now later now' b token claims claims' bare verified =
      let (answer, at) = refresh_parts lib o now later b token claims verified in
      (
        ground arith,
        rw at (dropped_rejected b (drop_token lib o b token) token now' claims' Later.here),
      )

  -- With a blacklist that keeps its promise and whose revocations never fail, a refresh returns
  -- the very token that it revokes, if its verified claims are those that were signed and its
  -- dates round to those of the signing.
  pub refresh_returns_revoked :
      (signed_at now later now' : ℕ) (b : B) (token : String) (claims verified : Claims)
      (claims' : Claims)
      → sign lib o signed_at claims ≡ ok token
      → verify lib o now b token ≡ ok verified
      → verified.subject ≡ claims.subject
      → verified.audience ≡ claims.audience
      → verified.custom ≡ claims.custom
      → lib.numeric_date later ≡ lib.numeric_date signed_at
      → lib.numeric_date (later + o.expiry) ≡ lib.numeric_date (signed_at + o.expiry)
      → ((refresh lib o now later b token).0 ≡ ok token)
        × (verify lib o now' (refresh lib o now later b token).1 token ≢ ok claims')
  unfolding sign claims_to_sign
  refresh_returns_revoked signed_at now later now' b token claims verified claims' signed good s a c
        d d' =
      let (answer, at) = refresh_parts lib o now later b token verified good in
      let same : claims_to_sign lib o later verified ≡ claims_to_sign lib o signed_at claims = cc in
      (
        ground arith,
        rw at (dropped_rejected b (drop_token lib o b token) token now' claims' Later.here),
      )
