-- ===== src/Reqsign/Transport.antt =====
-- reqsign/reqsign.go: the requests that the transport signs pass the middleware.
use api_security_sdk.Common.{
  ℕ, ◌-◌, ◌/◌, ◌^◌, ◌<◌, ◌≡◌, ap, sym, ◌∙◌, ◌≢◌, none, some, [], arith, ok, eq_iff, length,
}
use api_security_sdk.Common.Int.{ℤ, pos}
use api_security_sdk.Common.Bytes.{Bytes, decode_hex}
use api_security_sdk.Common.Decimal.{format_int, parse_int, trim_space}
use api_security_sdk.Common.Decimal.RoundTrip.{
  IsInt64, parse_int-format_int, format_int-IsPlain, trim_space-plain,
}
use api_security_sdk.Http.{Request, readable, request_header}
use api_security_sdk.Reqsign.{
  IsMac, second, Config, build_payload, sign, check, SigningTransport, add_signature, signed,
}
use api_security_sdk.Reqsign.Sign.{decoded-sign}
use api_security_sdk.Reqsign.Replay.{Within, check_iff}

module _ {R : Type 0} (mac : Bytes → Bytes → Bytes) (t : SigningTransport R) (sent : ℕ) where
  -- What the transport puts into a request with a body.
  signed_parts :
      (r r' : Request) (body : Bytes)
      → t.header ≢ t.timestamp_header
      → r.body ≡ readable body
      → signed mac t sent r ≡ ok r'
      → (r'.get_header t.header ≡ sign mac t.secret body (pos (sent / second)))
        × (r'.get_header t.timestamp_header ≡ format_int (pos (sent / second)))
        × (r'.body ≡ readable body)
  unfolding signed add_signature request_header
  signed_parts r r' body apart held e =
      let stamp = format_int (pos (sent / second)) in
      let sig = sign mac t.secret body (pos (sent / second)) in
      (
        ground (arith, eq_iff t.header t.header),
        ground (
          arith,
          eq_iff t.header t.header,
          eq_iff t.timestamp_header t.timestamp_header,
          eq_iff t.timestamp_header t.header,
        ),
        ground arith,
      )

  -- A signature is not the empty text.
  sign-ne-empty : IsMac mac → (body : Bytes) (ts : ℤ) → sign mac t.secret body ts ≢ ""
  unfolding decode_hex
  sign-ne-empty is_mac body ts empty =
      let digest = mac t.secret (build_payload ts body) in
      let none_left : some [] ≡ some digest =
        ap decode_hex (sym empty) ∙ decoded-sign mac t.secret is_mac body ts in
      absurd (ground (arith, is_mac.digest_length t.secret (build_payload ts body)))

format_int-ne-empty : (i : ℤ) → IsInt64 i → format_int i ≢ ""
unfolding parse_int
format_int-ne-empty i fits empty =
    let unread : none ≡ some i = ap parse_int (sym empty) ∙ parse_int-format_int i fits in
    absurd (ground arith)

passes :
    {R : Type 0} (mac : Bytes → Bytes → Bytes) (is_mac : IsMac mac) (cfg : Config)
    (t : SigningTransport R) (r r' : Request) (body : Bytes) (sent now : ℕ)
    → cfg.header ≡ t.header
    → cfg.timestamp_header ≡ t.timestamp_header
    → t.header ≢ t.timestamp_header
    → cfg.replay_window < 2 ^ 63 - 1
    → sent / second < 2 ^ 63
    → Within cfg.replay_window now (pos (sent / second))
    → r.body ≡ readable body
    → signed mac t sent r ≡ ok r'
    → (check mac t.secret cfg now r' ≡ ok r') × (r'.body ≡ readable body)
unfolding format_int build_payload
passes mac is_mac cfg t r r' body sent now same same_ts apart small fits near held e =
    let ts = pos (sent / second) in
    let (sig, stamp, kept) = signed_parts mac t sent r r' body apart held e in
    let sig_at : r'.get_header cfg.header ≡ sign mac t.secret body ts =
      ap r'.get_header same ∙ sig in
    let stamp_at : r'.get_header cfg.timestamp_header ≡ format_int ts =
      ap r'.get_header same_ts ∙ stamp in
    (
      (check_iff mac t.secret is_mac cfg now r' r' small).1 (record {
        has_signature = λ empty. sign-ne-empty mac t sent is_mac body ts (sym sig_at ∙ empty);
        has_timestamp = λ empty. format_int-ne-empty ts fits (sym stamp_at ∙ empty);
        ts = ts;
        read_ts =
            ap (λ s. parse_int (trim_space s)) stamp_at
            ∙ ap parse_int (trim_space-plain (format_int ts) (format_int-IsPlain ts))
            ∙ parse_int-format_int ts fits;
        within = near;
        body = body;
        read_body = ground arith;
        authentic = ap decode_hex sig_at ∙ decoded-sign mac t.secret is_mac body ts;
        restored = ground arith;
      }),
      kept,
    )

-- The transport signs a request with a body, and a middleware with the same secret and headers lets
-- it through at a time within the window of the signing: the handler gets what was sent, with the
-- body. The two headers differ, the window is below the largest duration, and the seconds of the
-- clock are an int64.
pub check-signed :
    {R : Type 0} (mac : Bytes → Bytes → Bytes) (is_mac : IsMac mac) (cfg : Config)
    (t : SigningTransport R) (r : Request) (body : Bytes) (sent now : ℕ)
    → cfg.header ≡ t.header
    → cfg.timestamp_header ≡ t.timestamp_header
    → t.header ≢ t.timestamp_header
    → cfg.replay_window < 2 ^ 63 - 1
    → sent / second < 2 ^ 63
    → Within cfg.replay_window now (pos (sent / second))
    → r.body ≡ readable body
    → (r' : Request) × (signed mac t sent r ≡ ok r')
      × (check mac t.secret cfg now r' ≡ ok r')
      × (r'.body ≡ readable body)
unfolding signed
check-signed mac is_mac cfg t r body sent now same same_ts apart small fits near held =
    let r' =
      add_signature mac t sent body
        (record r { body = readable body; content_length = pos (length body) }) in
    let sends : signed mac t sent r ≡ ok r' = ground arith in
    let (accepted, kept) =
      passes mac is_mac cfg t r r' body sent now same same_ts apart small fits near held sends in
    (r', sends, accepted, kept)
