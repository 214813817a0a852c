-- ===== src/RateLimit.antt =====
-- ratelimit/store.go: the sliding-window counter and the memory store.
-- Times and durations are numbers of nanoseconds and a window is positive. The floating-point
-- product is the argument `scale`: `scale prev left window` stands for
-- `int64(float64(prev) * (float64(left) / float64(window)))`, at `left` 0 for a negative fraction.
-- `Inc` holds the lock of the store and then that of the bucket. The two are one step here, and a
-- `Reset` in between is not modelled.
pub mod Middleware
pub mod Counts
pub mod Gate
pub mod Waiting
use api_security_sdk.Common.{
  ℕ, ◌+◌, ◌-◌, ◌*◌, ◌≤◌, ◌≡◌, String, Bool, Option, none, some, [], leb, if◌then◌else◌,
}
use api_security_sdk.Common.Table.{Table, lookup, insert, delete}

pub record Bucket : Type 0 where
  pub prev : ℕ
  pub curr : ℕ
  pub window_start : ℕ
  pub window : ℕ

-- What the counter relies on of the floating-point product: a zero factor gives 0, and a fraction
-- of at most 1 does not enlarge the count.
pub record IsScale (scale : ℕ → ℕ → ℕ → ℕ) : Type 0 where
  pub no_previous : (left window : ℕ) → scale 0 left window ≡ 0
  pub nothing_left : (prev window : ℕ) → scale prev 0 window ≡ 0
  pub bounded : (prev left window : ℕ) → left ≤ window → scale prev left window ≤ prev

pub record MemoryStore : Type 0 where
  pub buckets : Table Bucket

unfoldable pub new_memory_store : MemoryStore
new_memory_store = record { buckets = [] }

-- The `switch` of `inc`: which windows are over. `elapsed >= 2*b.window` is
-- `windowStart + 2*window <= now`.
unfoldable pub rotate : Bucket → ℕ → Bucket
rotate b now =
    if leb (b.window_start + 2 * b.window) now
    then record b { prev = 0; curr = 1; window_start = now }
    else if leb (b.window_start + b.window) now
    then record b { prev = b.curr; curr = 1; window_start = b.window_start + b.window }
    else record b { curr = b.curr + 1 }

unfoldable pub new_bucket : ℕ → ℕ → Bucket
new_bucket now window = record { prev = 0; curr = 0; window_start = now; window = window }

module _ (scale : ℕ → ℕ → ℕ → ℕ) where
  -- `bucket.inc`. The fraction is taken of the `elapsed` that was read before the switch, so from
  -- the old start of the window; `-` stops at 0, as the code does with a negative fraction.
  unfoldable pub bucket_inc : Bucket → ℕ → Bucket × ℕ
  unfolding rotate
  bucket_inc b now =
      let b' = rotate b now in
      (b', scale b'.prev (b.window_start + b.window - now) b.window + b'.curr)

  -- `MemoryStore.Inc`: the clock is read for a new bucket and, later, for the count.
  unfoldable pub store_inc : MemoryStore → String → (window now later : ℕ) → MemoryStore × ℕ
  unfolding bucket_inc new_bucket lookup
  store_inc s key window now later =
      let b : Bucket = elim (lookup key s.buckets) [ none ↦ new_bucket now window | some b ↦ b ] in
      let (b', count) = bucket_inc b later in (record { buckets = insert key b' s.buckets }, count)

unfoldable pub reset : MemoryStore → String → MemoryStore
reset s key = record { buckets = delete key s.buckets }
