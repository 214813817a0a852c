-- ===== src/Jwks.antt =====
-- auth/jwks/jwks.go: the keys of a JWKS endpoint, their cache and its refresh.
-- A time is a number of nanoseconds, 0 the zero time; the clock does not run back. The HTTP client
-- answers a URL at a time, and the answer has its JSON decoded. The order in which a map is ranged
-- over is the argument `order`.
pub mod Key
pub mod Cache
pub mod Reach
pub mod Spacing
pub mod Fresh
pub mod Failures
use Prim.Native.Char.{code}
use Prim.Native.String
use api_security_sdk.Common.{
  ℕ, ◌+◌, ◌-◌, ◌^◌, ◌≤◌, String, ◌<>◌, Bool, true, false, ◌&&◌, ◌||◌, ◌==◌, Option, none, some,
  List, [], ◌∷◌, Result, ok, err, ltb, eqb, strip_prefix, if◌then◌else◌,
}
use api_security_sdk.Common.Int.{ℤ, pos, negsuc}
use api_security_sdk.Common.Table.{Table, lookup, insert}
use api_security_sdk.Common.Values.{as_text}
use api_security_sdk.Jwt.{Token}
use Key.{PublicKey, RawJwk, to_public_key}

-- ErrKIDNotFound, the refusal of a refresh, and what can go wrong in a fetch.
pub data Error : Type 0 where
  kid_not_found : String → Error
  refresh_refused : ℕ → ℤ → Error
  fetch_failed : String → Error
  bad_status : ℕ → Error
  decode_failed : Error

-- The status of a response and the keys in its body; none is a body that does not decode.
pub record Reply : Type 0 where
  pub status : ℕ
  pub keys : Option (List RawJwk)

abbrev pub Client : Type 0
Client = ℕ → String → Result String Reply

pub record Source : Type 0 where
  pub url : String
  pub keys : Table PublicKey
  pub fetch_at : ℕ
  pub cache_ttl : ℤ
  pub min_refresh_delay : ℤ
  pub last_refresh_at : ℕ
  pub http_client : Client

-- Fifteen minutes, and thirty seconds.
abbrev pub default_cache_ttl : ℤ
default_cache_ttl = pos 900_000_000_000

abbrev pub default_min_refresh_delay : ℤ
default_min_refresh_delay = pos 30_000_000_000

abbrev pub Setting : Type 0
Setting = Source → Source

unfoldable pub with_cache_ttl : ℤ → Setting
with_cache_ttl d s = record s { cache_ttl = d }

unfoldable pub with_http_client : Client → Setting
with_http_client c s = record s { http_client = c }

unfoldable pub with_min_refresh_delay : ℤ → Setting
with_min_refresh_delay d s = record s { min_refresh_delay = d }

unfoldable pub apply_settings : List Setting → Source → Source
apply_settings [] s = s
apply_settings (o ∷ opts) s = apply_settings opts (o s)

-- `NewSource`, with the client of the default timeout as an argument.
unfoldable pub new_source : Client → String → List Setting → Source
unfolding apply_settings
new_source default_client jwks_url opts = apply_settings opts (record {
  url = jwks_url;
  keys = [];
  fetch_at = 0;
  cache_ttl = default_cache_ttl;
  min_refresh_delay = default_min_refresh_delay;
  last_refresh_at = 0;
  http_client = default_client;
})

-- `strings.TrimPrefix(s, prefix)`
abbrev trim_prefix : String → String → String
trim_prefix prefix s = elim (strip_prefix prefix s) [ none ↦ s | some rest ↦ rest ]

-- `strings.TrimRight(s, "/")`
abbrev trim_slashes : String → String
trim_slashes String.[] = ""
trim_slashes (String.◌∷◌ c s) =
    let rest = trim_slashes s in if rest == "" && eqb (code c) b'/' then "" else String.◌∷◌ c rest

unfoldable pub auth0_url : String → String
auth0_url domain =
    "https://"
    <> trim_slashes (trim_prefix "http://" (trim_prefix "https://" domain))
    <> "/.well-known/jwks.json"

-- `Auth0`
unfoldable pub auth0 : Client → String → List Setting → Source
unfolding new_source auth0_url
auth0 default_client domain opts = new_source default_client (auth0_url domain) opts

-- `time.Since`, which stops at the largest duration.
abbrev pub since : ℕ → ℕ → ℕ
since now t = if ltb (2 ^ 63 - 1) (now - t) then 2 ^ 63 - 1 else now - t

-- `d < n` and `n < d`, of a duration and one that is not negative
abbrev pub below : ℤ → ℕ → Bool
below (pos d) n = ltb d n
below (negsuc d) n = true

abbrev pub above : ℤ → ℕ → Bool
above (pos d) n = ltb n d
above (negsuc d) n = false

-- One of the keys to take, by its name.
unfoldable pub use_key : Table PublicKey → RawJwk → Table PublicKey
unfolding insert
use_key keys raw =
    if raw.use_for == "" || raw.use_for == "sig"
    then elim (to_public_key raw) [ err _ ↦ keys | ok key ↦ insert raw.kid key keys ]
    else keys

-- The keys of a payload: those for encryption and unsupported ones are left out.
unfoldable pub load_keys : Table PublicKey → List RawJwk → Table PublicKey
load_keys keys [] = keys
load_keys keys (raw ∷ raws) = load_keys (use_key keys raw) raws

-- What `fetch` reads from the endpoint.
unfoldable pub download : ℕ → Source → Result Error (Table PublicKey)
download now s = elim (s.http_client now s.url) [
  | err e ↦ err (fetch_failed e)
  | ok reply ↦
      if eqb reply.status 200
      then elim reply.keys [ none ↦ err decode_failed | some raws ↦ ok (load_keys [] raws) ]
      else err (bad_status reply.status)
]

-- The readings of the clock in a call: the lookup, the test of the delay, the request, the two dates
-- of a successful fetch, and the second lookup.
pub record Clock : Type 0 where
  pub seen : ℕ
  pub asked : ℕ
  pub sent : ℕ
  pub loaded : ℕ
  pub marked : ℕ
  pub again : ℕ

unfoldable pub fetch : Clock → Source → Result Error (Unit {0}) × Source
fetch at s = elim (download at.sent s) [
  | err e ↦ (err e, s)
  | ok new_keys ↦
      (ok tt, record s { keys = new_keys; fetch_at = at.loaded; last_refresh_at = at.marked })
]

-- `Preload`
unfoldable pub preload : Clock → Source → Result Error (Unit {0}) × Source
unfolding fetch
preload at s = fetch at s

unfoldable pub refresh_if_allowed : Clock → Source → Result Error (Unit {0}) × Source
refresh_if_allowed at s =
    if above s.min_refresh_delay (since at.asked s.last_refresh_at)
    then (err (refresh_refused (since at.asked s.last_refresh_at) s.min_refresh_delay), s)
    else fetch at s

module _ (order : Table PublicKey → Table PublicKey) where
  abbrev first_key : Table PublicKey → Option PublicKey
  first_key [] = none
  first_key ((_, key) ∷ _) = some key

  -- `cachedKey`; without a kid, the first key that the loop meets.
  unfoldable pub cached_key : ℕ → Source → String → Option PublicKey
  unfolding lookup
  cached_key now s kid =
      if below s.cache_ttl (since now s.fetch_at)
      then none
      else if kid == ""
      then first_key (order s.keys)
      else lookup kid s.keys

  -- The end of `KeyFunc`, behind the refresh.
  unfoldable pub look_again : ℕ → Source → String → Result Error PublicKey
  look_again now s kid = elim (cached_key now s kid) [
    | some key ↦ ok key
    | none ↦ err (kid_not_found kid)
  ]

  unfoldable pub find_key : Clock → Source → String → Result Error PublicKey × Source
  find_key at s kid = elim (cached_key at.seen s kid) [
    | some key ↦ (ok key, s)
    | none ↦
        let (answer, s') = refresh_if_allowed at s in
        elim answer [ err e ↦ (err e, s') | ok _ ↦ (look_again at.again s' kid, s') ]
  ]

  -- `KeyFunc`: a kid that is no text is the empty one.
  unfoldable pub key_func : Clock → Source → Token → Result Error PublicKey × Source
  unfolding as_text
  key_func at s token = find_key at s (as_text token.kid)
