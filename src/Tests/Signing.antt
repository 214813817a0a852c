-- ===== src/Tests/Signing.antt =====
-- reqsign: a request that is signed at one second and checked four minutes later.
use api_security_sdk.Common.{
  ℕ, zero, suc, ◌*◌, ◌%◌, ◌≡◌, refl, ◌↔◌, none, [], ◌∷◌, length, ok, err, arith, eq_iff,
}
use api_security_sdk.Common.Int.{pos}
use api_security_sdk.Common.Bytes.{Bytes}
use api_security_sdk.Http.{Request, readable}
use api_security_sdk.Reqsign.{IsMac, Error, SigningTransport, second, default_config, check, signed}
use api_security_sdk.Reqsign.Replay.{Accepts, check_iff}
use api_security_sdk.Reqsign.Transport.{check-signed}

abbrev zeros : ℕ → Bytes
zeros zero = []
zeros (suc n) = 0 ∷ zeros n

-- A digest of the payload's length.
abbrev digest : Bytes → Bytes → Bytes
digest key payload = length payload % 256 ∷ zeros 31

digest_IsMac : IsMac digest
digest_IsMac = record {
  digest_bytes = λ key payload. ground arith;
  digest_length = λ key payload. refl;
}

abbrev secret : Bytes
secret = b'k' ∷ b'e' ∷ b'y' ∷ []

abbrev transport : SigningTransport (Unit {0})
transport = record {
  secret = secret;
  transport = λ r. ok tt;
  header = "X-Signature";
  timestamp_header = "X-Timestamp";
}

abbrev hook : Request
hook = record {
  method = "POST";
  path = "/hook";
  remote_addr = "10.0.0.1:80";
  get_header = λ n. "";
  claims = none;
  api_key = none;
  body = readable (b'h' ∷ b'i' ∷ []);
  content_length = pos 0;
}

check-signed_example :
    (r' : Request) × (signed digest transport (1_700_000_000 * second) hook ≡ ok r')
    × (check digest secret default_config (1_700_000_240 * second) r' ≡ ok r')
    × (r'.body ≡ readable (b'h' ∷ b'i' ∷ []))
check-signed_example =
    check-signed digest digest_IsMac default_config transport hook (b'h' ∷ b'i' ∷ [])
      (1_700_000_000 * second) (1_700_000_240 * second) refl refl
      (ground (arith, eq_iff "X-Signature" "X-Timestamp")) (omega arith) (omega arith)
      (omega arith, omega arith) refl

check_iff_example :
    (check digest secret default_config 7 hook ≡ ok hook)
    ↔ Accepts digest secret digest_IsMac default_config 7 hook hook
check_iff_example = check_iff digest secret digest_IsMac default_config 7 hook hook (omega arith)

-- Without headers the request is refused.
refused : check digest secret default_config 7 hook ≡ err Error.missing_header
unfolding check
refused = refl
