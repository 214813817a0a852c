-- ===== src/Reqsign/Sign.antt =====
-- reqsign/reqsign.go: what a signature stands for.
use api_security_sdk.Common.{
  String, ◌≡◌, ap, sym, ◌∙◌, ◌↔◌, true, some, arith, Option-cases, inl, inr,
}
use api_security_sdk.Common.Int.{ℤ}
use api_security_sdk.Common.Bytes.{
  Bytes, codes, eq_bytes_iff, eq_bytes_comm, decode_hex, decode_hex-encode_hex,
}
use api_security_sdk.Common.Decimal.{format_int, parse_int, parse_int_of}
use api_security_sdk.Common.Decimal.RoundTrip.{
  IsInt64, parse_int-format_int, format_int-IsPlain, line-injective,
}
use api_security_sdk.Reqsign.{IsMac, build_payload, sign, decoded, verify, verify_raw}

-- A payload determines its timestamp, an int64, and its body.
pub build_payload-injective :
    (ts ts' : ℤ) (body body' : Bytes)
    → IsInt64 ts
    → IsInt64 ts'
    → build_payload ts body ≡ build_payload ts' body'
    → (ts ≡ ts') × (body ≡ body')
unfolding build_payload
build_payload-injective ts ts' body body' fits fits' e =
    let (prefix, rest) =
      line-injective (codes (format_int ts)) (codes (format_int ts')) body body'
        (format_int-IsPlain ts) (format_int-IsPlain ts') e in
    let same : some ts ≡ some ts' =
      sym (parse_int-format_int ts fits)
      ∙ unfold parse_int in ap parse_int_of prefix ∙ parse_int-format_int ts' fits' in
    (cc, rest)

module _ (mac : Bytes → Bytes → Bytes) (secret : Bytes) (is_mac : IsMac mac) where
  pub decoded-sign :
      (body : Bytes) (ts : ℤ)
      → decode_hex (sign mac secret body ts) ≡ some (mac secret (build_payload ts body))
  unfolding sign
  decoded-sign body ts =
      decode_hex-encode_hex (mac secret (build_payload ts body))
        (is_mac.digest_bytes secret (build_payload ts body))

  -- `Verify` accepts exactly the hexadecimal texts of the MAC of the payload.
  pub verify_iff :
      (body : Bytes) (ts : ℤ) (sig : String)
      → (verify mac secret body ts sig ≡ true)
        ↔ (decode_hex sig ≡ some (mac secret (build_payload ts body)))
  unfolding verify decoded
  verify_iff body ts sig = elim (Option-cases (decode_hex sig)) [
    | inl bad ↦ ground arith
    | inr (bytes, read) ↦
        ground
          (arith, decoded-sign body ts, eq_bytes_iff bytes (mac secret (build_payload ts body)))
  ]

  -- `Verify` of a body is `VerifyRaw` of its payload.
  pub verify-verify_raw :
      (body : Bytes) (ts : ℤ) (sig : String)
      → verify mac secret body ts sig ≡ verify_raw mac secret (build_payload ts body) sig
  unfolding verify verify_raw decoded
  verify-verify_raw body ts sig = elim (Option-cases (decode_hex sig)) [
    | inl bad ↦ ground arith
    | inr (bytes, read) ↦
        ground
          (arith, decoded-sign body ts, eq_bytes_comm bytes (mac secret (build_payload ts body)))
  ]
