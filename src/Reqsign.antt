-- ===== src/Reqsign.antt =====
-- reqsign/reqsign.go: signatures over a timestamp and a body, the middleware and the transport.
-- HMAC-SHA256 is the argument `mac`, of a key and a payload. A time is a number of nanoseconds, a
-- timestamp an int64 of seconds. Reading a body empties it.
pub mod Sign
pub mod Replay
pub mod Transport
use api_security_sdk.Common.{
  ℕ, ◌+◌, ◌-◌, ◌*◌, ◌/◌, ◌^◌, String, Bool, true, false, not, ◌||◌, ◌==◌, ◌<>◌, Option, none, some,
  List, [], ◌∷◌, ◌++◌, Result, ok, err, ltb, length, ◌≡◌, if◌then◌else◌,
}
use api_security_sdk.Common.Int.{ℤ, pos, negsuc, positive_or}
use api_security_sdk.Common.Bytes.{Bytes, IsBytes, codes, eq_bytes, encode_hex, decode_hex}
use api_security_sdk.Common.Decimal.{format_int, parse_int, trim_space}
use api_security_sdk.Http.{
  Request, Body, no_body, readable, broken, Response, Handler, request_header, write_json,
}

-- What the code relies on of HMAC-SHA256: a digest is 32 bytes.
pub record IsMac (mac : Bytes → Bytes → Bytes) : Type 0 where
  pub digest_bytes : (key payload : Bytes) → IsBytes (mac key payload)
  pub digest_length : (key payload : Bytes) → length (mac key payload) ≡ 32

-- ErrInvalidSignature, ErrReplayDetected, ErrMissingHeader, and a body that cannot be read.
pub data Error : Type 0 where
  invalid_signature replay_detected missing_header : Error
  read_failed : String → Error

abbrev pub second : ℕ
second = 1_000_000_000

abbrev pub default_header : String
default_header = "X-Signature"

abbrev pub default_timestamp_header : String
default_timestamp_header = "X-Timestamp"

-- Five minutes.
abbrev pub default_replay_window : ℕ
default_replay_window = 300 * 1_000_000_000

-- `fmt.Sprint(ts) + "\n" + body`, in bytes.
unfoldable pub build_payload : ℤ → Bytes → Bytes
build_payload ts body = codes (format_int ts) ++ b'\n' ∷ body

module _ (mac : Bytes → Bytes → Bytes) (secret : Bytes) where
  -- `sign`, and `Sign` at the seconds of a time.
  unfoldable pub sign : Bytes → ℤ → String
  sign body ts = encode_hex (mac secret (build_payload ts body))

  -- The bytes that `hex.DecodeString` gives when its error is dropped.
  unfoldable pub decoded : String → Bytes
  decoded text = elim (decode_hex text) [ none ↦ [] | some bytes ↦ bytes ]

  unfoldable pub verify : Bytes → ℤ → String → Bool
  verify body ts sig = elim (decode_hex sig) [
    | none ↦ false
    | some bytes ↦ eq_bytes bytes (decoded (sign body ts))
  ]

  unfoldable pub verify_raw : Bytes → String → Bool
  verify_raw body sig = elim (decode_hex sig) [
    | none ↦ false
    | some bytes ↦ eq_bytes (mac secret body) bytes
  ]

abbrev pub ErrorHandler : Type 0
ErrorHandler = Request → Error → Response → Response

pub record VerifyOptions : Type 0 where
  pub header : String
  pub timestamp_header : String
  pub replay_window : ℤ
  pub on_error : Option ErrorHandler

-- The configuration of a middleware, with no field left out.
pub record Config : Type 0 where
  pub header : String
  pub timestamp_header : String
  pub replay_window : ℕ
  pub on_error : ErrorHandler

unfoldable pub default_on_error : ErrorHandler
default_on_error r replay_detected w =
    write_json 401 "{\"error\":\"request timestamp outside allowed window\"}" w
default_on_error r missing_header w = write_json 401 "{\"error\":\"missing signature headers\"}" w
default_on_error r invalid_signature w =
    write_json 401 "{\"error\":\"invalid request signature\"}" w
default_on_error r (read_failed _) w = write_json 401 "{\"error\":\"invalid request signature\"}" w

abbrev pub default_config : Config
default_config = record {
  header = default_header;
  timestamp_header = default_timestamp_header;
  replay_window = default_replay_window;
  on_error = default_on_error;
}

abbrev or_default : String → String → String
or_default d s = if s == "" then d else s

-- The head of `Middleware`: the first of the options, over the defaults.
unfoldable pub configure : List VerifyOptions → Config
configure [] = default_config
configure (o ∷ _) = record {
  header = or_default default_header o.header;
  timestamp_header = or_default default_timestamp_header o.timestamp_header;
  replay_window = positive_or default_replay_window o.replay_window;
  on_error = elim o.on_error [ none ↦ default_on_error | some f ↦ f ];
}

abbrev distance : ℕ → ℕ → ℕ
distance a b = (a - b) + (b - a)

abbrev at_most : ℕ → ℕ → ℕ
at_most limit n = if ltb limit n then limit else n

-- `time.Since(time.Unix(ts, 0)).Abs()`, which stops at the largest duration.
unfoldable pub age : ℕ → ℤ → ℕ
age now (pos s) = at_most (2 ^ 63 - 1) (distance now (s * second))
age now (negsuc s) = at_most (2 ^ 63 - 1) (now + (s + 1) * second)

-- `io.ReadAll(r.Body)`: the bytes, and the request with what is left. The server gives a request
-- without a body an empty one.
unfoldable pub read_all : Request → Result Error (Bytes × Request)
read_all r = elim r.body [
  | no_body ↦ ok ([], r)
  | readable bytes ↦ ok (bytes, record r { body = readable [] })
  | broken e ↦ err (read_failed e)
]

module _ (mac : Bytes → Bytes → Bytes) (secret : Bytes) (cfg : Config) where
  -- The middleware behind the replay check.
  unfoldable pub check_body : ℤ → Request → Result Error Request
  check_body ts r = elim (read_all r) [
    | err e ↦ err e
    | ok (body, rest) ↦
        if verify mac secret body ts (r.get_header cfg.header)
        then ok (record rest { body = readable body })
        else err invalid_signature
  ]

  -- The request that the handler gets, or the error.
  unfoldable pub check : ℕ → Request → Result Error Request
  check now r =
      if r.get_header cfg.header == "" || r.get_header cfg.timestamp_header == ""
      then err missing_header
      else elim (parse_int (trim_space (r.get_header cfg.timestamp_header))) [
        | none ↦ err invalid_signature
        | some ts ↦
            if ltb cfg.replay_window (age now ts) then err replay_detected else check_body ts r
      ]

-- `Middleware`
unfoldable pub middleware :
    (Bytes → Bytes → Bytes) → Bytes → List VerifyOptions → ℕ → Handler → Handler
middleware mac secret opts now next r w =
    let cfg = configure opts in
    elim (check mac secret cfg now r) [ err e ↦ cfg.on_error r e w | ok r' ↦ next r' w ]

pub record SigningTransport (R : Type 0) : Type 0 where
  pub secret : Bytes
  pub transport : Request → Result Error R
  pub header : String
  pub timestamp_header : String

-- `NewSigningTransport`, with the default transport as an argument.
unfoldable pub new_signing_transport :
    {R : Type 0}
    → (Request → Result Error R)
    → Bytes
    → Option (Request → Result Error R)
    → SigningTransport R
new_signing_transport default_transport secret base = record {
  secret = secret;
  transport = elim base [ none ↦ default_transport | some t ↦ t ];
  header = default_header;
  timestamp_header = default_timestamp_header;
}

module _ {R : Type 0} (mac : Bytes → Bytes → Bytes) (t : SigningTransport R) where
  -- The two headers, at the seconds of the clock.
  unfoldable pub add_signature : ℕ → Bytes → Request → Request
  add_signature now body r =
      request_header t.header (sign mac t.secret body (pos (now / second)))
        (request_header t.timestamp_header (format_int (pos (now / second))) r)

  -- The request that goes out.
  unfoldable pub signed : ℕ → Request → Result Error Request
  signed now r = elim r.body [
    | no_body ↦ ok (add_signature now [] r)
    | broken e ↦ err (read_failed e)
    | readable body ↦ ok (
        add_signature now body
          (record r { body = readable body; content_length = pos (length body) }))
  ]

  unfoldable pub round_trip : ℕ → Request → Result Error R
  round_trip now r = elim (signed now r) [ err e ↦ err e | ok r' ↦ t.transport r' ]
