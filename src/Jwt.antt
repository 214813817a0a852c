-- ===== src/Jwt.antt =====
-- auth/jwt: claims, blacklist, options and the service.
-- The library github.com/golang-jwt/jwt/v5 is the argument `Gojwt`: its rounding of dates, its
-- signing and its parser, which reads the clock. A time is a number of nanoseconds, 0 the zero time.
pub mod Options
pub mod Service
pub mod Laws
pub mod Rotation
use api_security_sdk.Common.{
  ℕ, ◌+◌, ◌≡◌, String, Bool, true, false, not, ◌||◌, ◌==◌, Option, none, some, List, [], ◌∷◌,
  Result, ok, err, if◌then◌else◌,
}
use api_security_sdk.Common.Values.{Value}
use api_security_sdk.Common.Table.{Table, lookup, insert}

pub record Claims : Type 0 where
  pub subject : String
  pub audience : List String
  pub expires_at : ℕ
  pub issued_at : ℕ
  pub custom : Table Value

-- `standardClaims`; a missing date is none.
pub record StandardClaims : Type 0 where
  pub issuer : String
  pub sub : String
  pub aud : List String
  pub exp : Option ℕ
  pub iat : Option ℕ
  pub nbf : Option ℕ
  pub cst : Table Value

-- The signing methods that the options can set.
pub data Algorithm : Type 0 where
  hs256 hs384 hs512 rs256 rs512 es256 es384 es512 : Algorithm

-- `SigningMethod.Alg()`
abbrev pub alg : Algorithm → String
alg hs256 = "HS256"
alg hs384 = "HS384"
alg hs512 = "HS512"
alg rs256 = "RS256"
alg rs512 = "RS512"
alg es256 = "ES256"
alg es384 = "ES384"
alg es512 = "ES512"

-- An error of the library, by the sentinels that `errors.Is` finds in it.
pub record LibraryError : Type 0 where
  pub token_expired : Bool
  pub signature_invalid : Bool
  pub token_malformed : Bool
  pub token_not_valid_yet : Bool
  pub token_unverifiable : Bool
  pub message : String

pub data Error : Type 0 where
  invalid_token expired_token invalid_signing_method token_revoked no_blacklist : Error
  missing_algorithm : Error
  library : LibraryError → Error
  backend : String → Error

-- The header of a token, as a keyfunc sees it.
pub record Token : Type 0 where
  pub method_alg : String
  pub kid : Value

-- The parser's answer for a text: an error, or whether the token is valid, with its claims.
pub record Gojwt (K : Type 0) : Type 0 where
  pub numeric_date : ℕ → ℕ
  pub signed_string : Algorithm → Option K → StandardClaims → Result Error String
  pub parse_with_claims :
      ℕ → String → (Token → Result Error (Option K)) → Result LibraryError (Bool × StandardClaims)

-- The interface `Blacklist`, over the state of a backend.
pub record Blacklist (B : Type 0) : Type 0 where
  pub revoke : B → String → Result Error (Unit {0}) × B
  pub is_revoked : B → String → Result Error Bool

pub record MemoryBlacklist : Type 0 where
  pub revoked : Table (Unit {0})

unfoldable pub new_memory_blacklist : MemoryBlacklist
new_memory_blacklist = record { revoked = [] }

unfoldable pub memory_revoke : MemoryBlacklist → String → Result Error (Unit {0}) × MemoryBlacklist
memory_revoke b token = (ok tt, record { revoked = insert token tt b.revoked })

unfoldable pub memory_is_revoked : MemoryBlacklist → String → Result Error Bool
memory_is_revoked b token = elim (lookup token b.revoked) [ none ↦ ok false | some _ ↦ ok true ]

abbrev pub memory_blacklist : Blacklist MemoryBlacklist
memory_blacklist = record { revoke = memory_revoke; is_revoked = memory_is_revoked }

unfoldable pub map_jwt_error : LibraryError → Error
map_jwt_error e =
    if e.token_expired
    then expired_token
    else if e.signature_invalid
        || (e.token_malformed || (e.token_not_valid_yet || e.token_unverifiable))
    then invalid_token
    else library e
