-- ===== src/Jwt/Laws.antt =====
-- auth/jwt: what a verified token is, how long a revocation lasts, and what a refresh leaves.
use api_security_sdk.Common.{
  ℕ, ◌+◌, ◌≤◌, ◌<◌, String, true, false, ◌≡◌, refl, ap, sym, ◌∙◌, ◌≢◌, Option, none, some, inl, inr,
  arith, eq_iff, Result, ok, Bool-cases, Option-cases, Result-cases,
}
use api_security_sdk.Common.Table.{lookup-insert}
use api_security_sdk.Jwt.{
  Claims, StandardClaims, Algorithm, alg, Error, Token, Gojwt, Blacklist, memory_revoke,
  memory_is_revoked, memory_blacklist,
}
use api_security_sdk.Jwt.Options.{Options}
use api_security_sdk.Jwt.Service.{
  claims_of, claims_to_sign, sign, keyfunc, is_unconfigured, check_blacklist, verify, revoke_token,
}

-- What the service relies on of a blacklist: a revocation that returned no error takes effect, and
-- none takes another back.
pub record Lasts {B : Type 0} (bl : Blacklist B) : Type 0 where
  pub takes_effect :
      (b : B) (token : String)
      → (bl.revoke b token).0 ≡ ok tt
      → bl.is_revoked (bl.revoke b token).1 token ≡ ok true
  pub keeps :
      (b : B) (token other : String)
      → bl.is_revoked b other ≡ ok true
      → bl.is_revoked (bl.revoke b token).1 other ≡ ok true

-- The memory blacklist keeps its promise.
pub memory_blacklist-Lasts : Lasts memory_blacklist
unfolding memory_revoke memory_is_revoked
memory_blacklist-Lasts = record {
  takes_effect =
      λ b token _. ground (arith, lookup-insert token token tt b.revoked, eq_iff token token);
  keeps = λ b token other h. ground (arith, lookup-insert token other tt b.revoked);
}

-- The states of a blacklist after further revocations.
pub data Later {B : Type 0} (bl : Blacklist B) (b : B) : B → Type 0 where
  here : Later bl b b
  more : {c : B} → Later bl b c → (token : String) → Later bl b (bl.revoke c token).1

pub Later-keeps :
    {B : Type 0} {bl : Blacklist B} {b c : B} (token : String)
    → Lasts bl
    → Later bl b c
    → bl.is_revoked b token ≡ ok true
    → bl.is_revoked c token ≡ ok true
Later-keeps token lasts here h = h
Later-keeps token lasts (more {c} l other) h =
    lasts.keeps c other token (Later-keeps token lasts l h)

module _ {K B : Type 0} (lib : Gojwt K) (o : Options K B) where
  check_blacklist_sound :
      (b : B) (token : String) (claims claims' : Claims)
      → check_blacklist lib o b token claims ≡ ok claims'
      → (claims ≡ claims')
        × ((bl : Blacklist B) → o.blacklist ≡ some bl → bl.is_revoked b token ≡ ok false)
  unfolding check_blacklist
  check_blacklist_sound b token claims claims' h = elim (Option-cases o.blacklist) [
    | inl no_list ↦ (ground arith, λ bl e. absurd (cc))
    | inr (bl', is) ↦ elim (Result-cases (bl'.is_revoked b token)) [
      | inr (e, failed) ↦ absurd (ground arith)
      | inl (true, revoked) ↦ absurd (ground arith)
      | inl (false, live) ↦ (
        ground arith,
        λ bl e.
            let same : bl' ≡ bl = cc in
            ap (λ (x : Blacklist B). x.is_revoked b token) (sym same) ∙ live,
      )
    ]
  ]

  check_blacklist_passes :
      (b : B) (token : String) (claims : Claims)
      → ((bl : Blacklist B) → o.blacklist ≡ some bl → bl.is_revoked b token ≡ ok false)
      → check_blacklist lib o b token claims ≡ ok claims
  unfolding check_blacklist
  check_blacklist_passes b token claims live = elim (Option-cases o.blacklist) [
    | inl no_list ↦ ground arith
    | inr (bl, is) ↦ ground (arith, live bl is)
  ]

  -- `Verify` returns the claims of a text that the library finds valid and the blacklist, if there
  -- is one, knows as not revoked.
  pub verify_token_sound :
      (now : ℕ) (b : B) (token : String) (claims : Claims)
      → verify lib o now b token ≡ ok claims
      → (c : StandardClaims) × (lib.parse_with_claims now token (keyfunc lib o) ≡ ok (true, c))
        × (claims ≡ claims_of c)
        × ((bl : Blacklist B) → o.blacklist ≡ some bl → bl.is_revoked b token ≡ ok false)
  unfolding verify
  verify_token_sound now b token claims h = elim (Bool-cases (is_unconfigured lib o)) [
    | inl nothing ↦ absurd (ground arith)
    | inr configured ↦ elim (Result-cases (lib.parse_with_claims now token (keyfunc lib o))) [
      | inr (e, failed) ↦ absurd (ground arith)
      | inl ((false, c), parsed) ↦ absurd (ground arith)
      | inl ((true, c), parsed) ↦
          let passed : check_blacklist lib o b token (claims_of c) ≡ ok claims = ground arith in
          let (same, live) = check_blacklist_sound b token (claims_of c) claims passed in
          (c, parsed, sym same, live)
    ]
  ]

  -- If a service with a blacklist that keeps its promise revokes a token without an error, then
  -- the token is never verified again, whatever is revoked after it.
  pub revoke_token_holds :
      (bl : Blacklist B) (b c : B) (token : String) (now : ℕ) (claims : Claims)
      → Lasts bl
      → o.blacklist ≡ some bl
      → (revoke_token lib o b token).0 ≡ ok tt
      → Later bl (revoke_token lib o b token).1 c
      → verify lib o now c token ≢ ok claims
  unfolding revoke_token
  revoke_token_holds bl b c token now claims lasts is done later verified =
      let (_, _, _, live) = verify_token_sound now c token claims verified in
      let at : revoke_token lib o b token ≡ bl.revoke b token = ground arith in
      let struck = lasts.takes_effect b token (rw (← at) done) in
      let still = Later-keeps token lasts later (rw at struck) in cc (live bl is)

  -- Without an external keyfunc a verified token is signed by the configured algorithm: a header
  -- that names another is refused. The parser accepts a text only with a key of the keyfunc.
  pub verify_pins_algorithm :
      (header : String → Token)
      → ((now : ℕ) (token : String) (kf : Token → Result Error (Option K)) (c : StandardClaims)
          → lib.parse_with_claims now token kf ≡ ok (true, c)
          → (key : Option K) × (kf (header token) ≡ ok key))
      → (now : ℕ) (b : B) (token : String) (claims : Claims) → o.key_func ≡ none
      → verify lib o now b token ≡ ok claims
      → (method : Algorithm) × (o.signing_method ≡ some method)
        × ((header token).method_alg ≡ alg method)
  unfolding keyfunc
  verify_pins_algorithm header asks now b token claims internal h =
      let (c, parsed, _, _) = verify_token_sound now b token claims h in
      let (key, accepted) = asks now token (keyfunc lib o) c parsed in
      elim (Option-cases o.signing_method) [
        | inl nothing ↦ absurd (ground arith)
        | inr (method, is) ↦
            (method, is, ground (arith, eq_iff (header token).method_alg (alg method)))
      ]

  -- What `Sign` signs, `Verify` returns while the token is valid and not revoked: the subject, the
  -- audience and the custom claims, with the dates of the signing. The library signs and parses
  -- back under a fitting pair of keys, names its algorithm in the header, and rounds dates.
  pub verify-sign :
      (header : String → Token) (Fits : Algorithm → Option K → Option K → Type 0)
      → ((method : Algorithm) (key : Option K) (c : StandardClaims) (token : String)
          → lib.signed_string method key c ≡ ok token
          → (header token).method_alg ≡ alg method)
      → ((method : Algorithm) (key key' : Option K) (c : StandardClaims) (token : String)
            (kf : Token → Result Error (Option K)) (now start finish : ℕ)
          → Fits method key key'
          → lib.signed_string method key c ≡ ok token
          → kf (header token) ≡ ok key'
          → c.nbf ≡ some start
          → c.exp ≡ some finish
          → start ≤ now
          → now < finish
          → lib.parse_with_claims now token kf ≡ ok (true, c))
      → (signed_at now : ℕ) (b : B) (claims : Claims) (token : String) (method : Algorithm)
      → o.key_func ≡ none
      → o.signing_method ≡ some method
      → Fits method o.signing_key o.verify_key
      → ((bl : Blacklist B) → o.blacklist ≡ some bl → bl.is_revoked b token ≡ ok false)
      → sign lib o signed_at claims ≡ ok token
      → lib.numeric_date signed_at ≤ now
      → now < lib.numeric_date (signed_at + o.expiry)
      → verify lib o now b token
        ≡ ok (record claims {
          expires_at = lib.numeric_date (signed_at + o.expiry);
          issued_at = lib.numeric_date signed_at;
        })
  unfolding sign verify keyfunc
  verify-sign header Fits names parses signed_at now b claims token method internal is fits live
        signed lo hi =
      let c = claims_to_sign lib o signed_at claims in
      let made : lib.signed_string method o.signing_key c ≡ ok token = ground arith in
      let named = names method o.signing_key c token made in
      let asked : keyfunc lib o (header token) ≡ ok o.verify_key =
        ground (arith, eq_iff (header token).method_alg (alg method)) in
      let parsed =
        parses method o.signing_key o.verify_key c token (keyfunc lib o) now
          (lib.numeric_date signed_at) (lib.numeric_date (signed_at + o.expiry)) fits made asked
          refl refl lo hi in
      let configured : is_unconfigured lib o ≡ false = unfold is_unconfigured in ground arith in
      let passed = check_blacklist_passes b token (claims_of c) live in ground arith
