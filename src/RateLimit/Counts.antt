-- ===== src/RateLimit/Counts.antt =====
-- ratelimit/store.go: what the counter returns, against the estimate that its comment states.
use Prim.Native.Nat.{min}
use api_security_sdk.Common.{
  ℕ, suc, ◌+◌, ◌-◌, ◌*◌, ◌≤◌, ◌<◌, ◌≡◌, refl, String, ◌≢◌, none, List, [], ◌∷◌, arith, ltb, length,
  All, eq_iff, if◌then◌else◌,
}
use api_security_sdk.Common.Table.{lookup, delete, lookup-insert_ne, lookup-delete}
use api_security_sdk.RateLimit.{
  Bucket, IsScale, MemoryStore, rotate, new_bucket, bucket_inc, store_inc, reset,
}

-- The estimate of the comment, `prev * (1 - elapsed/window) + curr`, at a bucket whose windows are
-- those of the time `now`.
abbrev pub sliding : (ℕ → ℕ → ℕ → ℕ) → Bucket → ℕ → ℕ
sliding scale b now = scale b.prev (b.window_start + b.window - now) b.window + b.curr

-- The counts of a run of requests to one bucket.
pub counts : (ℕ → ℕ → ℕ → ℕ) → Bucket → List ℕ → List ℕ
unfolding bucket_inc
counts scale b [] = []
counts scale b (now ∷ times) = let (b', n) = bucket_inc scale b now in n ∷ counts scale b' times

-- How many of the counts are within the limit.
pub admitted : ℕ → List ℕ → ℕ
admitted limit [] = 0
admitted limit (n ∷ ns) = if ltb limit n then admitted limit ns else suc (admitted limit ns)

rotate_within :
    (b : Bucket) (now : ℕ)
    → now < b.window_start + b.window
    → rotate b now ≡ record b { curr = b.curr + 1 }
unfolding rotate
rotate_within b now h = ground arith

rotate_over :
    (b : Bucket) (now : ℕ)
    → b.window_start + b.window ≤ now
    → now < b.window_start + 2 * b.window
    → rotate b now ≡ record b { prev = b.curr; curr = 1; window_start = b.window_start + b.window }
unfolding rotate
rotate_over b now lo hi = ground arith

module _ (scale : ℕ → ℕ → ℕ → ℕ) (law : IsScale scale) where
  -- Within the current window, and with a product that keeps its laws, the counter returns the
  -- estimate, which lies between the requests of this window and those of both windows.
  pub inc_within :
      (b : Bucket) (now : ℕ)
      → b.window_start ≤ now
      → now < b.window_start + b.window
      → ((bucket_inc scale b now).1 ≡ sliding scale (bucket_inc scale b now).0 now)
        × (b.curr + 1 ≤ (bucket_inc scale b now).1)
        × ((bucket_inc scale b now).1 ≤ b.prev + b.curr + 1)
  unfolding bucket_inc
  inc_within b now lo hi = rw (rotate_within b now hi) (
    refl,
    omega arith,
    omega (arith, law.bounded b.prev (b.window_start + b.window - now) b.window (omega arith)),
  )

  -- With a product that keeps its laws, at the first request after a window, less than two windows
  -- from its start, the counter returns 1 whatever the window held, while the estimate still
  -- counts that window by its share.
  pub inc_rotates :
      (b : Bucket) (now : ℕ)
      → 0 < b.window
      → b.window_start + b.window ≤ now
      → now < b.window_start + 2 * b.window
      → ((bucket_inc scale b now).1 ≡ 1)
        × (sliding scale (bucket_inc scale b now).0 now
            ≡ scale b.curr (b.window_start + b.window + b.window - now) b.window + 1)
  unfolding bucket_inc
  inc_rotates b now pos lo hi =
      let over : b.window_start + b.window - now ≡ 0 = omega arith in
      rw (rotate_over b now lo hi) (rw over (omega (arith, law.nothing_left b.curr b.window)), refl)

  admitted-counts :
      (limit : ℕ) (b : Bucket) (times : List ℕ)
      → b.prev ≡ 0
      → All (λ t. t < b.window_start + b.window) times
      → admitted limit (counts scale b times) ≡ min (limit - b.curr) (length times)
  unfolding counts admitted
  admitted-counts limit b [] p h = omega arith
  admitted-counts limit b (t ∷ times) p (h, hs) =
      let b' = record b { curr = b.curr + 1 } in
      let rest = admitted-counts limit b' times p hs in
      let none' : scale b.prev (b.window_start + b.window - t) b.window ≡ 0 =
        rw p (law.no_previous (b.window_start + b.window - t) b.window) in
      rw (rotate_within b t h) (rw none' (ground arith))

  -- With a product that keeps its laws, of the requests of a new key that all come before the end
  -- of its first window exactly the first `limit` are admitted.
  pub admitted_first_window :
      (limit start window : ℕ) (times : List ℕ)
      → All (λ t. t < start + window) times
      → admitted limit (counts scale (new_bucket start window) times) ≡ min limit (length times)
  unfolding new_bucket
  admitted_first_window limit start window times h =
      omega (arith, admitted-counts limit (new_bucket start window) times refl h)

module _ (scale : ℕ → ℕ → ℕ → ℕ) (law : IsScale scale) where
  bucket_inc-new_bucket :
      (now window later : ℕ) → (bucket_inc scale (new_bucket now window) later).1 ≡ 1
  unfolding bucket_inc new_bucket rotate
  bucket_inc-new_bucket now window later =
      ground (arith, law.no_previous (now + window - later) window)

  -- With a product that keeps its laws, the next request of a key after `Reset` counts 1, and
  -- another key keeps its bucket under both operations.
  pub inc-reset :
      (s : MemoryStore) (key other : String) (window now later : ℕ)
      → key ≢ other
      → ((store_inc scale (reset s key) key window now later).1 ≡ 1)
        × (lookup other (reset s key).buckets ≡ lookup other s.buckets)
        × (lookup other (store_inc scale s key window now later).0.buckets ≡ lookup other s.buckets)
  unfolding store_inc reset
  inc-reset s key other window now later apart =
      let gone : lookup key (delete key s.buckets) ≡ none =
        ground (arith, lookup-delete key key s.buckets, eq_iff key key) in
      (
        rw gone (bucket_inc-new_bucket now window later),
        ground (arith, lookup-delete key other s.buckets, eq_iff key other),
        lookup-insert_ne key other _ s.buckets apart,
      )
