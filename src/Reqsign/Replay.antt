-- ===== src/Reqsign/Replay.antt =====
-- reqsign/reqsign.go: which requests the middleware lets through.
use api_security_sdk.Common.{
  ℕ, ◌+◌, ◌-◌, ◌*◌, ◌^◌, ◌≤◌, ◌<◌, String, ◌≡◌, refl, ◌↔◌, ◌≢◌, true, false, some, [], ◌∷◌, ◌++◌,
  arith, Option-cases, inl, inr, ok, err, ltb, eq_iff, if◌then◌else◌, ◌⊎◌,
}
use api_security_sdk.Common.Int.{ℤ, pos, negsuc}
use api_security_sdk.Common.Bytes.{Bytes, codes, decode_hex}
use api_security_sdk.Common.Decimal.{format_int, parse_int, trim_space}
use api_security_sdk.Http.{Request, Body, no_body, readable, broken}
use api_security_sdk.Reqsign.{
  IsMac, invalid_signature, read_failed, second, Config, build_payload, verify, age, read_all,
  check_body, check,
}
use api_security_sdk.Reqsign.Sign.{verify_iff}

-- The timestamp, in seconds, lies within the window around the time.
abbrev pub Within : ℕ → ℕ → ℤ → Type 0
Within window now (pos s) = (now ≤ s * second + window) × (s * second ≤ now + window)
Within window now (negsuc s) = now + (s + 1) * second ≤ window

-- The age of a timestamp is within a window, below the largest duration, exactly if the timestamp
-- is.
age_iff :
    (window now : ℕ) (ts : ℤ)
    → window < 2 ^ 63 - 1
    → (ltb window (age now ts) ≡ false) ↔ Within window now ts
unfolding age
age_iff window now (pos s) h = ground arith
age_iff window now (negsuc s) h = ground arith

-- The bytes that reading a request gives.
abbrev pub Reads : Request → Bytes → Type 0
Reads r bytes = elim r.body [ no_body ↦ bytes ≡ [] | readable held ↦ bytes ≡ held | broken e ↦ ⊥ ]

Body-cases :
    (b : Body)
    → ((b ≡ no_body) ⊎ ((bytes : Bytes) × (b ≡ readable bytes))) ⊎ ((e : String) × (b ≡ broken e))
Body-cases no_body = inl (inl refl)
Body-cases (readable bytes) = inl (inr (bytes, refl))
Body-cases (broken e) = inr (e, refl)

Reads-unique : (r : Request) (a b : Bytes) → Reads r a → Reads r b → a ≡ b
Reads-unique r a b h k = elim (Body-cases r.body) [
  | inl (inl e) ↦ ground arith
  | inl (inr (bytes, e)) ↦ ground arith
  | inr (x, e) ↦ absurd (ground arith)
]

module _ (mac : Bytes → Bytes → Bytes) (secret : Bytes) (cfg : Config) (ts : ℤ) (r : Request) where
  check_body-Reads :
      (body : Bytes)
      → Reads r body
      → check_body mac secret cfg ts r ≡ (
          if verify mac secret body ts (r.get_header cfg.header)
          then ok (record r { body = readable body })
          else err invalid_signature)
  unfolding check_body read_all
  check_body-Reads body h = elim (Body-cases r.body) [
    | inl (inl e) ↦ ground arith
    | inl (inr (bytes, e)) ↦ ground arith
    | inr (x, e) ↦ absurd (ground arith)
  ]

  check_body-broken :
      (e : String) → r.body ≡ broken e → check_body mac secret cfg ts r ≡ err (read_failed e)
  unfolding check_body read_all
  check_body-broken e h = ground arith

  Reads-cases : ((body : Bytes) × Reads r body) ⊎ ((e : String) × (r.body ≡ broken e))
  Reads-cases = elim (Body-cases r.body) [
    | inl (inl e) ↦ inl ([], ground arith)
    | inl (inr (bytes, e)) ↦ inl (bytes, ground arith)
    | inr (x, e) ↦ inr (x, e)
  ]

module _ (mac : Bytes → Bytes → Bytes) (secret : Bytes) (is_mac : IsMac mac) (cfg : Config) where
  -- What the middleware asks of a request: both headers, a timestamp within the window, and the MAC
  -- of the timestamp's decimal digits, a line break and the body; the handler can read the body
  -- again.
  pub record Accepts (now : ℕ) (r r' : Request) : Type 0 where
    pub has_signature : r.get_header cfg.header ≢ ""
    pub has_timestamp : r.get_header cfg.timestamp_header ≢ ""
    pub ts : ℤ
    pub read_ts : parse_int (trim_space (r.get_header cfg.timestamp_header)) ≡ some ts
    pub within : Within cfg.replay_window now ts
    pub body : Bytes
    pub read_body : Reads r body
    pub authentic :
        decode_hex (r.get_header cfg.header)
        ≡ some (mac secret (codes (format_int ts) ++ b'\n' ∷ body))
    pub restored : r' ≡ record r { body = readable body }

  check_body_iff :
      (ts : ℤ) (r r' : Request)
      → (check_body mac secret cfg ts r ≡ ok r')
        ↔ (body : Bytes) × Reads r body
          × (decode_hex (r.get_header cfg.header) ≡ some (mac secret (build_payload ts body)))
          × (r' ≡ record r { body = readable body })
  check_body_iff ts r r' = (
    λ e. elim (Reads-cases mac secret cfg ts r) [
      | inl (body, reads) ↦
          let tested = check_body-Reads mac secret cfg ts r body reads in
          let good : verify mac secret body ts (r.get_header cfg.header) ≡ true = ground arith in
          (
            body,
            reads,
            (verify_iff mac secret is_mac body ts (r.get_header cfg.header)).0 good,
            ground arith,
          )
      | inr (x, h) ↦ absurd (ground (arith, check_body-broken mac secret cfg ts r x h))
    ],
    λ (body, reads, authentic, restored). ground (
      arith,
      check_body-Reads mac secret cfg ts r body reads,
      (verify_iff mac secret is_mac body ts (r.get_header cfg.header)).1 authentic,
    ),
  )

  -- The middleware hands a request to the handler exactly if both headers are there, the timestamp
  -- is an int64 within the window, and the signature is the MAC of it, a line break and the body;
  -- the handler's request has the body.
  pub check_iff :
      (now : ℕ) (r r' : Request)
      → cfg.replay_window < 2 ^ 63 - 1
      → (check mac secret cfg now r ≡ ok r') ↔ Accepts now r r'
  unfolding check build_payload
  check_iff now r r' small = (
    λ e. elim (Option-cases (parse_int (trim_space (r.get_header cfg.timestamp_header)))) [
      | inl bad ↦ absurd (ground arith)
      | inr (ts, read) ↦
          let passed : check_body mac secret cfg ts r ≡ ok r' = ground arith in
          let (body, reads, authentic, restored) = (check_body_iff ts r r').0 passed in
          record {
            has_signature = ground (arith, eq_iff (r.get_header cfg.header) "");
            has_timestamp = ground (arith, eq_iff (r.get_header cfg.timestamp_header) "");
            ts = ts;
            read_ts = read;
            within = (age_iff cfg.replay_window now ts small).0 (ground arith);
            body = body;
            read_body = reads;
            authentic = authentic;
            restored = restored;
          }
    ],
    λ a.
        let passed : check_body mac secret cfg a.ts r ≡ ok r' =
          (check_body_iff a.ts r r').1 (a.body, a.read_body, a.authentic, a.restored) in
        let near = (age_iff cfg.replay_window now a.ts small).1 a.within in
        ground (
          arith,
          eq_iff (r.get_header cfg.header) "",
          eq_iff (r.get_header cfg.timestamp_header) "",
        ),
  )
