-- ===== src/Jwks/Fresh.antt =====
-- auth/jwks/jwks.go: when the key was published that a token gets.
use api_security_sdk.Common.{
  ℕ, ◌+◌, ◌-◌, ◌^◌, ◌≤◌, ◌<◌, String, ◌≡◌, ◌∙◌, ◌≢◌, false, some, List, arith, Option-cases,
  Result-cases, inl, inr, ok, eq_iff, ◌⊎◌,
}
use api_security_sdk.Common.Int.{pos}
use api_security_sdk.Common.Table.{Table, lookup}
use api_security_sdk.Common.Values.{as_text}
use api_security_sdk.Jwt.{Token}
use api_security_sdk.Jwks.Key.{PublicKey, RawJwk}
use api_security_sdk.Jwks.{
  Source, Clock, since, below, refresh_if_allowed, cached_key, find_key, key_func, look_again,
}
use api_security_sdk.Jwks.Cache.{Last, lookup-load_keys, no_key}
use api_security_sdk.Jwks.Reach.{
  IsClock, Published, IsSource, Reach, ends_later, key_func-IsSource, Reach-IsSource,
}

below_pos :
    (t from ttl : ℕ) → ttl < 2 ^ 63 - 1 → below (pos ttl) (since t from) ≡ false → t ≤ from + ttl
below_pos t from ttl small fresh = ground arith

module _ (order : Table PublicKey → Table PublicKey) (s0 : Source) where
  -- What `KeyFunc` returns a key from: the cache, when it had not expired.
  find_key-ok :
      (at : Clock) (s : Source) (kid : String) (key : PublicKey)
      → (find_key order at s kid).0 ≡ ok key
      → (((find_key order at s kid).1 ≡ s) × (cached_key order at.seen s kid ≡ some key))
        ⊎ (cached_key order at.again (find_key order at s kid).1 kid ≡ some key)
  unfolding find_key look_again
  find_key-ok at s kid key found = elim (Option-cases (cached_key order at.seen s kid)) [
    | inr (k, hit) ↦ inl (ground arith, ground arith)
    | inl miss ↦
        let s' = (refresh_if_allowed at s).1 in
        elim (Result-cases (refresh_if_allowed at s).0) [
          | inr (e, failed) ↦ absurd (ground arith)
          | inl (_, done) ↦ elim (Option-cases (cached_key order at.again s' kid)) [
            | inl missing ↦ absurd (ground arith)
            | inr (k, hit) ↦ inr (ground arith)
          ]
        ]
  ]

  -- The cache at a time within its lifetime holds the key.
  cached_key-some :
      (s : Source) (t ttl : ℕ) (kid : String) (key : PublicKey)
      → s.cache_ttl ≡ pos ttl
      → ttl < 2 ^ 63 - 1
      → kid ≢ ""
      → cached_key order t s kid ≡ some key
      → (t ≤ s.fetch_at + ttl) × (lookup kid s.keys ≡ some key)
  unfolding cached_key
  cached_key-some s t ttl kid key same small named found =
      let fresh : below (pos ttl) (since t s.fetch_at) ≡ false = ground arith in
      (below_pos t s.fetch_at ttl small fresh, ground (arith, eq_iff kid ""))

-- A key of the cache was published before the cache's date.
held-Published :
    {s0 s : Source} {now : ℕ} (kid : String) (key : PublicKey)
    → IsSource s0 now s
    → lookup kid s.keys ≡ some key
    → (sent : ℕ) × (raws : List RawJwk) × (sent ≤ s.fetch_at)
      × Published s0 sent raws
      × Last kid key raws
held-Published kid key w held = elim w.published [
  | inl empty ↦ absurd (no_key kid key (rw empty at held))
  | inr (sent, raws, before, published, loaded) ↦
      (sent, raws, before, published, (lookup-load_keys kid key raws).0 (rw loaded at held))
]

module _ (order : Table PublicKey → Table PublicKey) (s0 : Source)
    (start_ok : IsSource s0 0 s0) where
  -- From an empty cache on, `KeyFunc` gives a token with a kid only a key that the endpoint published
  -- with status 200, as the last usable entry of the kid, in a response that was loaded within the
  -- lifetime of the cache before the key is given out.
  pub key_func-Published :
      {n now : ℕ} {s : Source} (at : Clock) (token : Token) (ttl : ℕ) (key : PublicKey)
      → s0.cache_ttl ≡ pos ttl
      → ttl < 2 ^ 63 - 1
      → Reach order s0 n now s
      → IsClock now at
      → as_text token.kid ≢ ""
      → (key_func order at s token).0 ≡ ok key
      → (sent loaded : ℕ) × (raws : List RawJwk) × (sent ≤ loaded)
        × (loaded ≤ at.again)
        × (at.seen ≤ loaded + ttl)
        × Published s0 sent raws
        × Last (as_text token.kid) key raws
  unfolding key_func
  key_func-Published {s} at token ttl key same small r c named found =
      let kid = as_text token.kid in
      let w = Reach-IsSource order s0 start_ok r in
      let w' = key_func-IsSource order s0 at token c w in
      elim (find_key-ok order s0 at s kid key found) [
        | inl (_, hit) ↦
            let (fresh, held) =
              cached_key-some order s0 s at.seen ttl kid key (w.same_ttl ∙ same) small named hit in
            let (sent, raws, sooner, published, last) = held-Published kid key w held in
            (
              sent,
              s.fetch_at,
              raws,
              sooner,
              omega (arith, w.ordered, w.past, c.starts, ends_later c),
              fresh,
              published,
              last,
            )
        | inr hit ↦
            let (fresh, held) =
              cached_key-some order s0 _ at.again ttl kid key (w'.same_ttl ∙ same) small named
                hit in
            let (sent, raws, sooner, published, last) = held-Published kid key w' held in
            (
              sent,
              _,
              raws,
              sooner,
              omega (arith, w'.ordered, w'.past),
              omega (arith, fresh, c.asks, c.sends, c.loads, c.marks, c.ends),
              published,
              last,
            )
      ]
