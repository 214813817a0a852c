-- ===== src/RateLimit/Waiting.antt =====
-- ratelimit/store.go, ratelimit/ratelimit.go: a client that was refused gets through again when it has
-- waited.
use api_security_sdk.Common.{
  ℕ, ◌+◌, ◌-◌, ◌*◌, ◌≤◌, ◌<◌, ◌≡◌, refl, ◌∙◌, inl, inr, String, false, Option, none, some, arith,
  Option-cases, Bool-cases, ◌==◌, if◌then◌else◌, subst,
}
use api_security_sdk.Common.Table.{lookup, lookup-insert, lookup-delete}
use api_security_sdk.Http.{Request, Response, Handler}
use api_security_sdk.RateLimit.{
  Bucket, IsScale, MemoryStore, rotate, new_bucket, bucket_inc, store_inc, reset, new_memory_store,
}
use api_security_sdk.RateLimit.Middleware.{Config, Inc, key_of, with_limits, limiter}

rotate-started :
    (b : Bucket) (now last : ℕ)
    → b.window_start ≤ last
    → now ≤ last
    → ((rotate b now).window_start ≤ last) × ((rotate b now).window ≡ b.window)
unfolding rotate
rotate-started b now last started h = ground arith

module _ (scale : ℕ → ℕ → ℕ → ℕ) where
  -- `Inc` of the memory store for the middleware, its clock read as `now` and then as `later`.
  abbrev pub memory_inc : (now later : ℕ) → Inc MemoryStore
  memory_inc now later =
      λ s key window. let (s', count) = store_inc scale s key window now later in (s', count, false)

  abbrev bucket_of : MemoryStore → String → (window now : ℕ) → Bucket
  bucket_of s key window now = elim (lookup key s.buckets) [
    | none ↦ new_bucket now window
    | some b ↦ b
  ]

  lookup-store_inc :
      (s : MemoryStore) (made key : String) (window now later : ℕ)
      → lookup key ((store_inc scale s made window now later).0).buckets ≡ (
          if made == key
          then some ((bucket_inc scale (bucket_of s made window now) later).0)
          else lookup key s.buckets)
  unfolding store_inc
  lookup-store_inc s made key window now later =
      lookup-insert made key ((bucket_inc scale (bucket_of s made window now) later).0) s.buckets

  -- The states of a store that counts for one window, by requests of any keys no later than `last` and by
  -- resets.
  pub data Used (window last : ℕ) : MemoryStore → Type 0 where
    unused : Used window last new_memory_store
    request :
        {s : MemoryStore} (key : String) (now later : ℕ)
        → now ≤ last
        → later ≤ last
        → Used window last s
        → Used window last (store_inc scale s key window now later).0
    cleared : {s : MemoryStore} (key : String) → Used window last s → Used window last (reset s key)

  -- A bucket of such a store.
  record IsStarted (window last : ℕ) (b : Bucket) : Type 0 where
    started : b.window_start ≤ last
    same : b.window ≡ window

  module _ (window last : ℕ) where
    bucket_inc-IsStarted :
        (b : Bucket) (now : ℕ)
        → IsStarted window last b
        → now ≤ last
        → IsStarted window last ((bucket_inc scale b now).0)
    unfolding bucket_inc
    bucket_inc-IsStarted b now begun h =
        let (started, same) = rotate-started b now last begun.started h in
        record { started = started; same = same ∙ begun.same }

    found-IsStarted :
        (o : Option Bucket) (now later : ℕ)
        → ((b : Bucket) → o ≡ some b → IsStarted window last b)
        → now ≤ last
        → later ≤ last
        → IsStarted window last
            ((bucket_inc scale (elim o [ none ↦ new_bucket now window | some b ↦ b ]) later).0)
    unfolding new_bucket
    found-IsStarted none now later held h h' =
        bucket_inc-IsStarted (new_bucket now window) later (record { started = h; same = refl }) h'
    found-IsStarted (some b) now later held h h' = bucket_inc-IsStarted b later (held b refl) h'

    Used-IsStarted :
        {s : MemoryStore}
        → Used window last s
        → (key : String) (b : Bucket) → lookup key s.buckets ≡ some b
        → IsStarted window last b
    unfolding reset new_memory_store lookup
    Used-IsStarted unused key b found = absurd (ground (arith, found))
    Used-IsStarted (request {s} made now later h h' used) key b found =
        elim (Bool-cases (made == key)) [
          | inl e ↦
              let at_key = lookup-store_inc s made key window now later in
              let same : (bucket_inc scale (bucket_of s made window now) later).0 ≡ b =
                ground (arith, at_key, found, e) in
              subst (IsStarted window last) same
                (found-IsStarted (lookup made s.buckets) now later (Used-IsStarted used made) h h')
          | inr e ↦
              let at_key = lookup-store_inc s made key window now later in
              Used-IsStarted used key b (ground (arith, at_key, found, e))
        ]
    Used-IsStarted (cleared {s} gone used) key b found =
        Used-IsStarted used key b (ground (arith, lookup-delete gone key s.buckets, found))

  bucket_inc-stale :
      (b : Bucket) (now : ℕ)
      → IsScale scale
      → b.window_start + 2 * b.window ≤ now
      → (bucket_inc scale b now).1 ≡ 1
  unfolding bucket_inc rotate
  bucket_inc-stale b now law stale =
      ground (arith, law.no_previous (b.window_start + b.window - now) b.window)

  bucket_inc-new :
      (now later window : ℕ)
      → IsScale scale
      → (bucket_inc scale (new_bucket now window) later).1 ≡ 1
  unfolding bucket_inc rotate new_bucket
  bucket_inc-new now later window law =
      ground (arith, law.no_previous (now + window - later) window)

  store_inc-stale :
      (s : MemoryStore) (key : String) (window last now later : ℕ)
      → IsScale scale
      → Used window last s
      → last + 2 * window ≤ later
      → (store_inc scale s key window now later).1 ≡ 1
  unfolding store_inc
  store_inc-stale s key window last now later law used waited =
      elim (Option-cases (lookup key s.buckets)) [
        | inl new ↦ rw new (bucket_inc-new now later window law)
        | inr (b, held) ↦
            let begun = Used-IsStarted window last used key b held in
            let stale : b.window_start + 2 * b.window ≤ later =
              omega (arith, begun.started, begun.same) in
            rw held (bucket_inc-stale b later law stale)
      ]

module _ (split_host : String → Option String) (cfg : Config) where
  limiter-passes :
      {S : Type 0} (inc : Inc S) (next : Handler) (s s' : S) (count now : ℕ) (r : Request)
      (w : Response)
      → inc s (key_of split_host cfg r) cfg.window ≡ (s', count, false)
      → count ≤ cfg.limit
      → limiter split_host cfg inc next s now r w
        ≡ (s', next r (with_limits split_host cfg count (now + cfg.window) w))
  unfolding limiter
  limiter-passes inc next s s' count now r w counted small = rw counted (ground arith)

-- On a memory store that was used for the window of the limiter alone, up to a time `last`, by
-- requests of any number and any keys and by resets, with a product that keeps its laws and a limit
-- that is not 0: a request that is counted two windows after that time reaches the handler, also
-- with a key that was refused before.
pub limiter_readmits :
    (scale : ℕ → ℕ → ℕ → ℕ) (split_host : String → Option String) (cfg : Config) (next : Handler)
    (s : MemoryStore) (last now later answered : ℕ) (r : Request) (w : Response)
    → IsScale scale
    → 0 < cfg.limit
    → Used scale cfg.window last s
    → last + 2 * cfg.window ≤ later
    → (s' : MemoryStore) × (w' : Response) × (limiter split_host cfg
          (memory_inc scale now later)
          next
          s
          answered
          r
          w
        ≡ (s', next r w'))
limiter_readmits scale split_host cfg next s last now later answered r w law some_limit used
      waited =
    let key = key_of split_host cfg r in
    let (s', count) = store_inc scale s key cfg.window now later in
    let one : count ≡ 1 = store_inc-stale scale s key cfg.window last now later law used waited in
    (
      s',
      with_limits split_host cfg count (answered + cfg.window) w,
      limiter-passes split_host cfg (memory_inc scale now later) next s s' count answered r w refl
          (omega (arith, one, some_limit)),
    )
