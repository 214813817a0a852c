-- ===== src/Jwt/Options.antt =====
-- auth/jwt/options.go: the options of the service. A key is any value, and may be missing.
use api_security_sdk.Common.{ℕ, String, Option, none, some, List, [], ◌∷◌, Result}
use api_security_sdk.Jwt.{
  Algorithm, hs256, hs384, hs512, rs256, rs512, es256, es384, es512, Error, Token, Blacklist,
}

abbrev pub Keyfunc : Type 0 → Type 0
Keyfunc K = Token → Result Error (Option K)

pub record Options (K B : Type 0) : Type 0 where
  pub signing_method : Option Algorithm
  pub signing_key : Option K
  pub verify_key : Option K
  pub expiry : ℕ
  pub issuer : String
  pub blacklist : Option (Blacklist B)
  pub key_func : Option (Keyfunc K)

-- An hour.
abbrev pub default_expiry : ℕ
default_expiry = 3_600_000_000_000

unfoldable pub default_options : {K B : Type 0} → Options K B
default_options = record {
  signing_method = none;
  signing_key = none;
  verify_key = none;
  expiry = default_expiry;
  issuer = "";
  blacklist = none;
  key_func = none;
}

-- The curve of an ECDSA key.
pub data Curve : Type 0 where
  p224 p256 p384 p521 : Curve

abbrev pub curve_algorithm : Curve → Algorithm
curve_algorithm p384 = es384
curve_algorithm p521 = es512
curve_algorithm _ = es256

abbrev pub Setting : Type 0 → Type 0 → Type 0
Setting K B = Options K B → Options K B

unfoldable pub with_keys : {K B : Type 0} → Algorithm → K → K → Setting K B
with_keys method signing verifying o = record o {
  signing_method = some method;
  signing_key = some signing;
  verify_key = some verifying;
}

unfoldable pub with_hmac : {K B : Type 0} → K → Setting K B
unfolding with_keys
with_hmac secret = with_keys hs256 secret secret

unfoldable pub with_hmac384 : {K B : Type 0} → K → Setting K B
unfolding with_keys
with_hmac384 secret = with_keys hs384 secret secret

unfoldable pub with_hmac512 : {K B : Type 0} → K → Setting K B
unfolding with_keys
with_hmac512 secret = with_keys hs512 secret secret

unfoldable pub with_rsa : {K B : Type 0} → K → K → Setting K B
unfolding with_keys
with_rsa = with_keys rs256

unfoldable pub with_rsa512 : {K B : Type 0} → K → K → Setting K B
unfolding with_keys
with_rsa512 = with_keys rs512

unfoldable pub with_ecdsa : {K B : Type 0} → Curve → K → K → Setting K B
unfolding with_keys
with_ecdsa curve = with_keys (curve_algorithm curve)

unfoldable pub with_expiry : {K B : Type 0} → ℕ → Setting K B
with_expiry d o = record o { expiry = d }

unfoldable pub with_issuer : {K B : Type 0} → String → Setting K B
with_issuer issuer o = record o { issuer = issuer }

unfoldable pub with_blacklist : {K B : Type 0} → Blacklist B → Setting K B
with_blacklist bl o = record o { blacklist = some bl }

unfoldable pub with_jwks : {K B : Type 0} → Keyfunc K → Setting K B
with_jwks kf o = record o { key_func = some kf }

unfoldable pub apply_settings : {K B : Type 0} → Options K B → List (Setting K B) → Options K B
apply_settings o [] = o
apply_settings o (opt ∷ opts) = apply_settings (opt o) opts

-- `New`
unfoldable pub new_service : {K B : Type 0} → List (Setting K B) → Options K B
unfolding apply_settings default_options
new_service opts = apply_settings default_options opts
