-- ===== src/Tests/Tokens.antt =====
-- auth/jwt with a library whose token for some claims is their subject.
use api_security_sdk.Common.{
  ℕ, String, ◌≡◌, refl, ◌≢◌, Bool, true, false, Option, none, some, [], ◌∷◌, Result, ok, err,
  if◌then◌else◌, ◌==◌,
}
use api_security_sdk.Common.Values.{nil}
use api_security_sdk.Common.Table.{lookup, insert}
use api_security_sdk.Common.Int.{pos}
use api_security_sdk.Http.{no_body, Request, Handler, new_response}
use api_security_sdk.Auth.{
  extract_bearer, with_claims, subject_from, default_error_handler, optional, require_auth,
}
use api_security_sdk.Auth
use api_security_sdk.Auth.Gate.{optional-require_auth}
use api_security_sdk.Jwt.{
  Claims, StandardClaims, hs256, LibraryError, Error, invalid_token, missing_algorithm, Token,
  Gojwt, MemoryBlacklist, new_memory_blacklist, memory_revoke, memory_is_revoked, memory_blacklist,
}
use api_security_sdk.Jwt.Options.{
  Options, default_options, with_keys, with_hmac, with_blacklist, apply_settings, new_service,
}
use api_security_sdk.Jwt.Service.{
  sign, verify, keyfunc, is_unconfigured, check_blacklist, claims_of, claims_to_sign, revoke_token,
  drop_token, refresh,
}
use api_security_sdk.Jwt.Laws.{Later, here, memory_blacklist-Lasts, revoke_token_holds}
use api_security_sdk.Jwt.Rotation.{refresh_rotates, refresh_strands}

abbrev header : String → Token
header token = record { method_alg = "HS256"; kid = nil }

abbrev standard : String → StandardClaims
standard token = record {
  issuer = "";
  sub = token;
  aud = [];
  exp = none;
  iat = none;
  nbf = none;
  cst = [];
}

abbrev malformed : LibraryError
malformed = record {
  token_expired = false;
  signature_invalid = false;
  token_malformed = true;
  token_not_valid_yet = false;
  token_unverifiable = false;
  message = "malformed";
}

abbrev parse :
    ℕ
    → String
    → (Token → Result Error (Option String))
    → Result LibraryError (Bool × StandardClaims)
parse now token kf = elim (kf (header token)) [
  | err e ↦ err malformed
  | ok key ↦ ok (true, standard token)
]

abbrev lib : Gojwt String
lib = record {
  numeric_date = λ t. t;
  signed_string = λ method key c. ok c.sub;
  parse_with_claims = parse;
}

abbrev hmac : Options String MemoryBlacklist
hmac = record {
  signing_method = some hs256;
  signing_key = some "k";
  verify_key = some "k";
  expiry = 3_600_000_000_000;
  issuer = "";
  blacklist = some memory_blacklist;
  key_func = none;
}

-- A service that only verifies.
abbrev jwks : Options String MemoryBlacklist
jwks = record hmac {
  signing_method = none;
  signing_key = none;
  verify_key = none;
  key_func = some (λ _. ok (some "k"));
}

abbrev ann_claims : Claims
ann_claims = record { subject = "ann"; audience = []; expires_at = 0; issued_at = 0; custom = [] }

configured : new_service (with_hmac "k" ∷ with_blacklist memory_blacklist ∷ []) ≡ hmac
unfolding new_service with_hmac with_keys with_blacklist apply_settings default_options
configured = refl

verifies : verify lib hmac 5 new_memory_blacklist "ann" ≡ ok ann_claims
unfolding verify is_unconfigured keyfunc check_blacklist memory_is_revoked new_memory_blacklist
    lookup claims_of
verifies = refl

verifies_jwks : verify lib jwks 5 new_memory_blacklist "ann" ≡ ok ann_claims
unfolding verify is_unconfigured keyfunc check_blacklist memory_is_revoked new_memory_blacklist
    lookup claims_of
verifies_jwks = refl

signs : sign lib hmac 5 ann_claims ≡ ok "ann"
unfolding sign claims_to_sign
signs = refl

always : (b : MemoryBlacklist) (token : String) → (memory_blacklist.revoke b token).0 ≡ ok tt
unfolding memory_revoke
always b token = refl

revoke_token_holds_example :
    verify lib hmac 5 (revoke_token lib hmac new_memory_blacklist "ann").1 "ann" ≢ ok ann_claims
unfolding revoke_token memory_revoke
revoke_token_holds_example =
    revoke_token_holds lib hmac memory_blacklist new_memory_blacklist _ "ann" 5 ann_claims
      memory_blacklist-Lasts refl refl here

refreshed :
    refresh lib hmac 5 6 new_memory_blacklist "ann"
    ≡ (ok "ann", (memory_revoke new_memory_blacklist "ann").1)
unfolding refresh verify is_unconfigured keyfunc check_blacklist memory_is_revoked
    new_memory_blacklist lookup claims_of sign claims_to_sign drop_token memory_revoke insert
refreshed = refl

refresh_rotates_example :
    (claims : Claims) × (verify lib hmac 5 new_memory_blacklist "ann" ≡ ok claims)
    × (sign lib hmac 6 claims ≡ ok "ann")
    × ((now' : ℕ) (c' : MemoryBlacklist) (claims' : Claims)
        → Later memory_blacklist (memory_revoke new_memory_blacklist "ann").1 c'
        → verify lib hmac now' c' "ann" ≢ ok claims')
refresh_rotates_example =
    refresh_rotates lib hmac memory_blacklist memory_blacklist-Lasts refl always 5 6
      new_memory_blacklist (memory_revoke new_memory_blacklist "ann").1 "ann" "ann" refreshed

refresh_strands_example :
    ((refresh lib jwks 5 6 new_memory_blacklist "ann").0 ≡ err missing_algorithm)
    × (verify lib jwks 7 (refresh lib jwks 5 6 new_memory_blacklist "ann").1 "ann" ≢ ok ann_claims)
refresh_strands_example =
    refresh_strands lib jwks memory_blacklist memory_blacklist-Lasts refl always 5 6 7
      new_memory_blacklist "ann" ann_claims ann_claims refl verifies_jwks

abbrev bearer : Request
bearer = record {
  method = "GET";
  path = "/";
  remote_addr = "10.0.0.1:99";
  get_header = λ name. if name == "Authorization" then "Bearer ann" else "";
  claims = none;
  api_key = none;
  body = no_body;
  content_length = pos 0;
}

abbrev plain : Handler
plain r w = w

abbrev check : String → Result Error Claims
check = verify lib hmac 5 new_memory_blacklist

optional-require_auth_example :
    optional check (require_auth default_error_handler plain) bearer new_response
    ≡ Auth.jwt check
        (λ r' _ w'. default_error_handler r' invalid_token w')
        plain
        bearer
        new_response
optional-require_auth_example =
    optional-require_auth check default_error_handler plain bearer new_response refl
