-- ===== src/Jwks/Reach.antt =====
-- auth/jwks/jwks.go: the sources that calls of `KeyFunc` and `Preload` can leave, and what they keep.
use api_security_sdk.Common.{
  ℕ, ◌+◌, ◌≤◌, ◌≡◌, refl, Bool, true, false, none, some, List, [], arith, Option-cases,
  Result-cases, Bool-cases, inl, inr, Result, ok, err, eqb, if◌then◌else◌, ◌⊎◌,
}
use api_security_sdk.Common.Table.{Table}
use api_security_sdk.Common.Values.{as_text}
use api_security_sdk.Jwt.{Token}
use api_security_sdk.Jwks.Key.{PublicKey, RawJwk}
use api_security_sdk.Jwks.{
  Error, fetch_failed, bad_status, decode_failed, Source, Reply, Clock, since, above, load_keys,
  download, fetch, preload, refresh_if_allowed, cached_key, find_key, key_func,
}

-- The readings of a call that starts at a time.
pub record IsClock (now : ℕ) (at : Clock) : Type 0 where
  pub starts : now ≤ at.seen
  pub asks : at.seen ≤ at.asked
  pub sends : at.asked ≤ at.sent
  pub loads : at.sent ≤ at.loaded
  pub marks : at.loaded ≤ at.marked
  pub ends : at.marked ≤ at.again

-- The endpoint's answer, at a time, had these keys.
abbrev pub Published : Source → ℕ → List RawJwk → Type 0
Published s t raws =
    (reply : Reply) × (s.http_client t s.url ≡ ok reply)
    × (reply.status ≡ 200)
    × (reply.keys ≡ some raws)

-- The cache is empty or was published when it was fetched, and its dates are past.
pub record IsSource (s0 : Source) (now : ℕ) (s : Source) : Type 0 where
  pub same_url : s.url ≡ s0.url
  pub same_client : s.http_client ≡ s0.http_client
  pub same_ttl : s.cache_ttl ≡ s0.cache_ttl
  pub same_delay : s.min_refresh_delay ≡ s0.min_refresh_delay
  pub ordered : s.fetch_at ≤ s.last_refresh_at
  pub past : s.last_refresh_at ≤ now
  pub published :
      (s.keys ≡ [])
      ⊎ ((sent : ℕ) × (raws : List RawJwk) × (sent ≤ s.fetch_at)
          × Published s0 sent raws
          × (s.keys ≡ load_keys [] raws))

module _ (order : Table PublicKey → Table PublicKey) where
  -- A call of `KeyFunc` sends a request: the cache has no key, and the delay is over.
  abbrev pub sends_request : Clock → Source → Token → Bool
  sends_request at s token = elim (cached_key order at.seen s (as_text token.kid)) [
    | some key ↦ false
    | none ↦ if above s.min_refresh_delay (since at.asked s.last_refresh_at) then false else true
  ]

  abbrev succeeds : Result Error (Table PublicKey) → ℕ
  succeeds (ok _) = 1
  succeeds (err _) = 0

  -- The refreshes of a call that succeed: one or none.
  abbrev pub refreshes : Clock → Source → Token → ℕ
  refreshes at s token = if sends_request at s token then succeeds (download at.sent s) else 0

  -- The calls so far have ended at a time, and so many of them have refreshed the cache.
  pub data Reach (s0 : Source) : ℕ → ℕ → Source → Type 0 where
    start : (now : ℕ) → Reach s0 0 now s0
    verified :
        {n now : ℕ} {s : Source}
        → Reach s0 n now s
        → (at : Clock) → IsClock now at
        → (token : Token)
        → Reach s0 (refreshes at s token + n) at.again (key_func order at s token).1
    preloaded :
        {n now : ℕ} {s : Source}
        → Reach s0 n now s
        → (at : Clock) → IsClock now at
        → Reach s0 n at.again (preload at s).1

  -- The source behind `KeyFunc` is the one before, or that of a fetch.
  pub key_func_source :
      (at : Clock) (s : Source) (token : Token)
      → (((key_func order at s token).1 ≡ s) × (refreshes at s token ≡ 0))
        ⊎ (((key_func order at s token).1 ≡ (fetch at s).1)
            × (above s.min_refresh_delay (since at.asked s.last_refresh_at) ≡ false))
  unfolding key_func find_key refresh_if_allowed
  key_func_source at s token =
      elim (Option-cases (cached_key order at.seen s (as_text token.kid))) [
        | inr (key, hit) ↦ inl (ground arith, ground arith)
        | inl miss ↦
            elim (Bool-cases (above s.min_refresh_delay (since at.asked s.last_refresh_at))) [
              | inl early ↦ inl (ground arith, ground arith)
              | inr late ↦ elim (Result-cases (fetch at s).0) [
                | inl (_, done) ↦ inr (ground arith, late)
                | inr (e, failed) ↦ inr (ground arith, late)
              ]
            ]
      ]

pub download_cases :
    (now : ℕ) (s : Source)
    → ((e : Error) × (download now s ≡ err e))
      ⊎ ((raws : List RawJwk) × Published s now raws × (download now s ≡ ok (load_keys [] raws)))
unfolding download
download_cases now s = elim (Result-cases (s.http_client now s.url)) [
  | inr (e, failed) ↦ inl (fetch_failed e, ground arith)
  | inl (reply, answered) ↦ elim (Bool-cases (eqb reply.status 200)) [
    | inr bad ↦ inl (bad_status reply.status, ground arith)
    | inl good ↦ elim (Option-cases reply.keys) [
      | inl broken ↦ inl (decode_failed, ground arith)
      | inr (raws, read) ↦ inr (raws, (reply, answered, ground arith, read), ground arith)
    ]
  ]
]

-- A later time changes nothing.
pub later : {s0 s : Source} {now t : ℕ} → now ≤ t → IsSource s0 now s → IsSource s0 t s
later h w = record {
  same_url = w.same_url;
  same_client = w.same_client;
  same_ttl = w.same_ttl;
  same_delay = w.same_delay;
  ordered = w.ordered;
  past = omega (arith, w.past);
  published = w.published;
}

-- The source behind a successful fetch.
abbrev pub fetched : Clock → Source → List RawJwk → Source
fetched at s raws = record s {
  keys = load_keys [] raws;
  fetch_at = at.loaded;
  last_refresh_at = at.marked;
}

pub fetch_cases :
    (at : Clock) (s : Source)
    → (((fetch at s).1 ≡ s) × (e : Error) × (download at.sent s ≡ err e))
      ⊎ ((raws : List RawJwk) × Published s at.sent raws × ((fetch at s).1 ≡ fetched at s raws))
unfolding fetch
fetch_cases at s = elim (download_cases at.sent s) [
  | inl (e, failed) ↦ inl (ground arith, e, failed)
  | inr (raws, published, loaded) ↦ inr (raws, published, ground arith)
]

Published-same :
    {s0 s : Source} {now t : ℕ} {raws : List RawJwk}
    → IsSource s0 now s
    → Published s t raws
    → Published s0 t raws
Published-same {t} w (reply, answered, good, read) =
    (reply, rw (← w.same_client) rw (← w.same_url) answered, good, read)

pub ends_later : {now : ℕ} {at : Clock} → IsClock now at → now ≤ at.again
ends_later c = omega (arith, c.starts, c.asks, c.sends, c.loads, c.marks, c.ends)

pub fetch-IsSource :
    {s0 s : Source} {now : ℕ} (at : Clock)
    → IsClock now at
    → IsSource s0 now s
    → IsSource s0 at.again (fetch at s).1
fetch-IsSource {s0} {s} at c w = elim (fetch_cases at s) [
  | inl (same, _, _) ↦ rw same (later (ends_later c) w)
  | inr (raws, published, loaded) ↦ rw loaded (record {
    same_url = w.same_url;
    same_client = w.same_client;
    same_ttl = w.same_ttl;
    same_delay = w.same_delay;
    ordered = c.marks;
    past = c.ends;
    published = inr (at.sent, raws, c.loads, Published-same w published, refl);
  })
]

pub preload-IsSource :
    {s0 s : Source} {now : ℕ} (at : Clock)
    → IsClock now at
    → IsSource s0 now s
    → IsSource s0 at.again (preload at s).1
unfolding preload
preload-IsSource at c w = fetch-IsSource at c w

module _ (order : Table PublicKey → Table PublicKey) (s0 : Source) where
  pub key_func-IsSource :
      {s : Source} {now : ℕ} (at : Clock) (token : Token)
      → IsClock now at
      → IsSource s0 now s
      → IsSource s0 at.again (key_func order at s token).1
  key_func-IsSource {s} at token c w = elim (key_func_source order at s token) [
    | inl (same, _) ↦ rw same (later (ends_later c) w)
    | inr (same, _) ↦ rw same (fetch-IsSource at c w)
  ]

  -- A source that starts with an empty cache and dates that are past keeps its settings; its cache
  -- stays empty or holds the keys that the endpoint published no later than its date; the dates stay
  -- ordered and past.
  pub Reach-IsSource :
      {n now : ℕ} {s : Source} → IsSource s0 0 s0 → Reach order s0 n now s → IsSource s0 now s
  Reach-IsSource w (start now) = later (omega arith) w
  Reach-IsSource w (verified r at c token) = key_func-IsSource at token c (Reach-IsSource w r)
  Reach-IsSource w (preloaded r at c) = preload-IsSource at c (Reach-IsSource w r)
