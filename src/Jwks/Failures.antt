-- ===== src/Jwks/Failures.antt =====
-- auth/jwks/jwks.go: calls while the endpoint fails.
use api_security_sdk.Common.{
  ℕ, ◌≤◌, ◌≡◌, refl, false, none, List, [], ◌∷◌, arith, Result, err, All, map, Option-cases,
  Result-cases, Bool-cases, inl, inr, subst,
}
use api_security_sdk.Common.Int.{ℤ, pos, negsuc}
use api_security_sdk.Common.Table.{Table}
use api_security_sdk.Common.Values.{as_text}
use api_security_sdk.Jwt.{Token}
use api_security_sdk.Jwks.Key.{PublicKey}
use api_security_sdk.Jwks.{
  Error, kid_not_found, refresh_refused, fetch_failed, bad_status, decode_failed, Source, Clock,
  since, above, download, fetch, refresh_if_allowed, cached_key, find_key, look_again, key_func,
}

-- The errors of a call that has reached the endpoint in vain: no answer, another status than 200,
-- or a body that does not decode.
unfoldable pub IsFailure : Error → Type 0
IsFailure (kid_not_found kid) = ⊥
IsFailure (refresh_refused since delay) = ⊥
IsFailure (fetch_failed e) = Unit
IsFailure (bad_status n) = Unit
IsFailure decode_failed = Unit

-- A later time has no shorter age.
above_later :
    (d : ℤ) (t u from : ℕ) → t ≤ u → above d (since t from) ≡ false → above d (since u from) ≡ false
above_later (pos d) t u from h late = ground arith
above_later (negsuc d) t u from h late = refl

module _ (order : Table PublicKey → Table PublicKey) where
  -- The answers of calls one after the other, and the source behind them.
  abbrev pub key_func_all : List (Clock × Token) → Source → List (Result Error PublicKey) × Source
  key_func_all [] s = ([], s)
  key_func_all ((at, token) ∷ calls) s =
      let (answer, s') = key_func order at s token in
      let (answers, end) = key_func_all calls s' in (answer ∷ answers, end)

  -- A call whose answer is a failure of the endpoint was not refused, and left the source as it
  -- was.
  key_func-failed :
      (at : Clock) (s : Source) (token : Token) (e : Error)
      → IsFailure e
      → (key_func order at s token).0 ≡ err e
      → (key_func order at s token ≡ (err e, s))
        × (above s.min_refresh_delay (since at.asked s.last_refresh_at) ≡ false)
  unfolding key_func find_key refresh_if_allowed fetch look_again IsFailure
  key_func-failed at s token e fails answer =
      elim (Option-cases (cached_key order at.seen s (as_text token.kid))) [
        | inr (key, hit) ↦ absurd (ground (arith, hit, answer))
        | inl missed ↦
            elim (Bool-cases (above s.min_refresh_delay (since at.asked s.last_refresh_at))) [
              | inl early ↦
                  let same : e
                      ≡ refresh_refused (since at.asked s.last_refresh_at) s.min_refresh_delay =
                    ground (arith, missed, early, answer) in
                  absurd (subst IsFailure same fails)
              | inr late ↦ elim (Result-cases (download at.sent s)) [
                | inr (x, failed) ↦ (ground (arith, missed, late, failed, answer), late)
                | inl (keys, loaded) ↦
                    let s' : Source = record s {
                      keys = keys;
                      fetch_at = at.loaded;
                      last_refresh_at = at.marked;
                    } in
                    elim (Option-cases (cached_key order at.again s' (as_text token.kid))) [
                      | inr (key, hit) ↦ absurd (ground (arith, missed, late, loaded, hit, answer))
                      | inl unknown ↦
                          let same : e ≡ kid_not_found (as_text token.kid) =
                            ground (arith, missed, late, loaded, unknown, answer) in
                          absurd (subst IsFailure same fails)
                    ]
              ]
            ]
      ]

  -- A later call, for a key that is not in the cache, while the endpoint fails with an error.
  pub record IsFailing (s : Source) (first : Clock) (failure : Clock → Error) (call : Clock × Token)
      : Type 0 where
    pub after : first.asked ≤ call.0.asked
    pub misses : cached_key order call.0.seen s (as_text call.1.kid) ≡ none
    pub fails : download call.0.sent s ≡ err (failure call.0)

  key_func-failing :
      (s : Source) (at : Clock) (token : Token) (e : Error)
      → above s.min_refresh_delay (since at.asked s.last_refresh_at) ≡ false
      → cached_key order at.seen s (as_text token.kid) ≡ none
      → download at.sent s ≡ err e
      → key_func order at s token ≡ (err e, s)
  unfolding key_func find_key refresh_if_allowed fetch
  key_func-failing s at token e late missed failed = ground (arith, late, missed, failed)

  calls_failing :
      (s : Source) (first : Clock) (failure : Clock → Error) (calls : List (Clock × Token))
      → above s.min_refresh_delay (since first.asked s.last_refresh_at) ≡ false
      → All (IsFailing s first failure) calls
      → key_func_all calls s ≡ (map (λ call. err (failure call.0)) calls, s)
  calls_failing s first failure [] allowed _ = refl
  calls_failing s first failure ((at, token) ∷ calls) allowed (f, fs) =
      let late =
        above_later s.min_refresh_delay first.asked at.asked s.last_refresh_at f.after allowed in
      let this = key_func-failing s at token (failure at) late f.misses f.fails in
      let rest = calls_failing s first failure calls allowed fs in rw this rw rest refl

  -- Once a call was answered by a failure of the endpoint, the calls behind it for keys that are
  -- not in the cache are not refused as long as the endpoint fails, however close together they
  -- come: each sends a request and returns the failure of its own, and the source stays as it was.
  pub failures_unlimited :
      (s : Source) (first : Clock) (token : Token) (e : Error) (failure : Clock → Error)
      (calls : List (Clock × Token))
      → IsFailure e
      → (key_func order first s token).0 ≡ err e
      → All (IsFailing s first failure) calls
      → key_func_all ((first, token) ∷ calls) s
        ≡ (err e ∷ map (λ call. err (failure call.0)) calls, s)
  failures_unlimited s first token e failure calls is_failure answer failing =
      let (this, allowed) = key_func-failed first s token e is_failure answer in
      let rest = calls_failing s first failure calls allowed failing in rw this rw rest refl
