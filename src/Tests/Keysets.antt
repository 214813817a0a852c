-- ===== src/Tests/Keysets.antt =====
-- auth/jwks: a source that is asked for a key a second after it is made, and an endpoint that
-- fails.
use api_security_sdk.Common.{
  ℕ, ◌+◌, ◌≤◌, ◌≡◌, ◌≢◌, refl, ap, true, ◌<◌, ltb, if◌then◌else◌, none, some, List, [], ◌∷◌, ok,
  err, arith, eq_iff, inl,
}
use api_security_sdk.Common.Int.{pos}
use api_security_sdk.Common.Base64.{decode_base64_url, sextets, join_sextets, set_bytes}
use api_security_sdk.Common.Table.{Table}
use api_security_sdk.Common.Values.{str, as_text}
use api_security_sdk.Jwt.{Token}
use api_security_sdk.Jwks.Key.{PublicKey, rsa, RawJwk, to_public_key}
use api_security_sdk.Jwks.{
  Error, fetch_failed, bad_status, Source, Client, Clock, load_keys, key_func, new_source,
  auth0_url, default_cache_ttl, default_min_refresh_delay, cached_key, find_key, refresh_if_allowed,
  fetch, download, look_again, use_key,
}
use api_security_sdk.Jwks.Cache.{Last}
use api_security_sdk.Jwks.Reach.{
  IsClock, Published, IsSource, refreshes, Reach, start, verified, Reach-IsSource,
}
use api_security_sdk.Jwks.Spacing.{Refresh, Run, made, refreshed, Spaced, refreshes-Spaced}
use api_security_sdk.Jwks.Fresh.{key_func-Published}
use api_security_sdk.Jwks.Failures.{IsFailure, IsFailing, key_func_all, failures_unlimited}

abbrev raw : RawJwk
raw = record {
  kty = "RSA";
  kid = "a";
  use_for = "sig";
  alg = "RS256";
  n = "AQAB";
  e = "AQAB";
  crv = "";
  x = "";
  y = "";
}

abbrev order : Table PublicKey → Table PublicKey
order keys = keys

abbrev up : Client
up now url = ok (record { status = 200; keys = some (raw ∷ []) })

abbrev down : Client
down now url = err "refused"

abbrev source : Client → Source
source client = record {
  url = "https://id.example/jwks";
  keys = [];
  fetch_at = 0;
  cache_ttl = default_cache_ttl;
  min_refresh_delay = default_min_refresh_delay;
  last_refresh_at = 0;
  http_client = client;
}

built : new_source down "https://id.example/jwks" [] ≡ source down
unfolding new_source
built = refl

tenant :
    (auth0_url "https://app.auth0.com//" ≡ "https://app.auth0.com/.well-known/jwks.json")
    × (auth0_url "app.auth0.com" ≡ "https://app.auth0.com/.well-known/jwks.json")
unfolding auth0_url
tenant = (refl, refl)

-- An hour after the zero time.
abbrev at : Clock
at = record {
  seen = 3_600_000_000_000;
  asked = 3_600_000_000_001;
  sent = 3_600_000_000_002;
  loaded = 3_600_200_000_000;
  marked = 3_600_200_000_001;
  again = 3_600_200_000_002;
}

at-IsClock : IsClock 0 at
at-IsClock = record {
  starts = omega arith;
  asks = omega arith;
  sends = omega arith;
  loads = omega arith;
  marks = omega arith;
  ends = omega arith;
}

abbrev token : Token
token = record { method_alg = "RS256"; kid = str "a" }

source_IsSource : (client : Client) → IsSource (source client) 0 (source client)
source_IsSource client = record {
  same_url = refl;
  same_client = refl;
  same_ttl = refl;
  same_delay = refl;
  ordered = omega arith;
  past = omega arith;
  published = inl refl;
}

called :
    Reach order
      (source up)
      (refreshes order at (source up) token + 0)
      at.again
      (key_func order at (source up) token).1
called = verified (start 0) at at-IsClock token

Reach-IsSource_example : IsSource (source up) at.again (key_func order at (source up) token).1
Reach-IsSource_example = Reach-IsSource order (source up) (source_IsSource up) called

-- A second call, after the lifetime of the cache.
abbrev next_day : Clock
next_day = record {
  seen = 90_000_000_000_000;
  asked = 90_000_000_000_001;
  sent = 90_000_000_000_002;
  loaded = 90_000_200_000_000;
  marked = 90_000_200_000_001;
  again = 90_000_200_000_002;
}

next_day-IsClock : IsClock at.again next_day
next_day-IsClock = record {
  starts = omega arith;
  asks = omega arith;
  sends = omega arith;
  loads = omega arith;
  marks = omega arith;
  ends = omega arith;
}

abbrev once : Source
once = (key_func order at (source up) token).1

abbrev twice : Source
twice = (key_func order next_day once token).1

once_dated : once.last_refresh_at ≡ at.marked
unfolding key_func find_key cached_key refresh_if_allowed fetch download look_again load_keys
    use_key to_public_key decode_base64_url sextets join_sextets set_bytes
once_dated = refl

twice_dated : twice.last_refresh_at ≡ next_day.marked
unfolding key_func find_key cached_key refresh_if_allowed fetch download look_again load_keys
    use_key to_public_key decode_base64_url sextets join_sextets set_bytes
twice_dated = refl

abbrev log : List Refresh
log =
    record { by_key_func = true; sent = next_day.sent; taken = next_day.marked }
    ∷ record { by_key_func = true; sent = at.sent; taken = at.marked }
    ∷ []

run : Run order (source up) log next_day.again twice
run =
    refreshed
      (refreshed (made 0 (omega arith)) at at-IsClock token
        (λ same. absurd (omega (arith, once_dated, ap (λ (s : Source). s.last_refresh_at) same))))
      next_day next_day-IsClock token
      (λ same.
        absurd
          (omega (arith, once_dated, twice_dated, ap (λ (s : Source). s.last_refresh_at) same)))

refreshes-Spaced_example : Spaced 30_000_000_000 log
refreshes-Spaced_example = refreshes-Spaced order 30_000_000_000 refl run

finds : (key_func order at (source up) token).0 ≡ ok (rsa 65537 (pos 65537))
unfolding key_func find_key cached_key refresh_if_allowed fetch download look_again load_keys
    use_key to_public_key decode_base64_url sextets join_sextets set_bytes
finds = refl

named : as_text (str "a") ≢ ""
unfolding as_text
named = ground (arith, eq_iff "a" "")

key_func-Published_example :
    (sent loaded : ℕ) × (raws : List RawJwk) × (sent ≤ loaded)
    × (loaded ≤ at.again)
    × (at.seen ≤ loaded + 900_000_000_000)
    × Published (source up) sent raws
    × Last (as_text (str "a")) (rsa 65537 (pos 65537)) raws
key_func-Published_example =
    key_func-Published order (source up) (source_IsSource up) at token 900_000_000_000
      (rsa 65537 (pos 65537)) refl (omega arith) (start 0) at-IsClock named finds

-- Moments behind the first call.
abbrev soon : ℕ → Clock
soon n = record {
  seen = 3_600_000_000_000 + n;
  asked = 3_600_000_000_001 + n;
  sent = 3_600_000_000_002 + n;
  loaded = 3_600_200_000_000 + n;
  marked = 3_600_200_000_001 + n;
  again = 3_600_200_000_002 + n;
}

-- An endpoint that is unreachable and then answers without success.
abbrev flaky : Client
flaky now url =
    if ltb 3_600_000_000_003 now then ok (record { status = 503; keys = none }) else err "refused"

abbrev failure : Clock → Error
failure _ = bad_status 503

missing : (n : ℕ) → cached_key order (soon n).seen (source flaky) (as_text (str "b")) ≡ none
unfolding cached_key
missing n = ground arith

first_fails : (key_func order at (source flaky) token).0 ≡ err (fetch_failed "refused")
unfolding key_func find_key cached_key refresh_if_allowed fetch download
first_fails = refl

is_failure : IsFailure (fetch_failed "refused")
unfolding IsFailure
is_failure = tt

abbrev forged : Token
forged = record { method_alg = "RS256"; kid = str "b" }

failing : (n : ℕ) → 2 < n → IsFailing order (source flaky) at failure (soon n, forged)
unfolding download
failing n h = record { after = omega arith; misses = missing n; fails = ground arith }

failures_unlimited_example :
    key_func_all order ((at, token) ∷ (soon 5, forged) ∷ (soon 6, forged) ∷ []) (source flaky) ≡ (
      err (fetch_failed "refused") ∷ err (bad_status 503) ∷ err (bad_status 503) ∷ [],
      source flaky,
    )
failures_unlimited_example =
    failures_unlimited order (source flaky) at token (fetch_failed "refused") failure
      ((soon 5, forged) ∷ (soon 6, forged) ∷ []) is_failure first_fails
      (failing 5 (omega arith), (failing 6 (omega arith), tt))
