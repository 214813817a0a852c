-- ===== src/RateLimit/Gate.antt =====
-- ratelimit/ratelimit.go: which requests pass the limiter, and how the others are answered.
use api_security_sdk.Common.{
  ℕ, ◌+◌, ◌-◌, ◌≤◌, ◌<◌, ◌≡◌, refl, ◌⊎◌, ⊎_elim, ◌∙◌, String, Bool, true, false, ◌||◌, Option, none,
  some, ◌∷◌, [], arith, ltb, show_ℕ,
}
use api_security_sdk.Http.Headers.{header_values-set_header}
use api_security_sdk.Http.{
  Request, Response, Handler, set_header, header_values, write_header, write, status_of,
}
use api_security_sdk.RateLimit.Middleware.{
  Config, Inc, seconds, default_on_limited, key_of, refuse, with_limits, limiter,
}

default_on_limited-status :
    (w : Response) (r : Request) (reset : ℕ)
    → w.sent ≡ none
    → status_of (default_on_limited w r reset) ≡ some 429
unfolding default_on_limited write write_header set_header
default_on_limited-status w r reset fresh = ground arith

with_limits-Remaining :
    (split_host : String → Option String) (cfg : Config) (count reset : ℕ) (w : Response)
    → header_values "X-RateLimit-Remaining" (with_limits split_host cfg count reset w)
      ≡ show_ℕ (cfg.limit - count) ∷ []
unfolding with_limits
with_limits-Remaining split_host cfg count reset w =
    rw
      (
        header_values-set_header "X-RateLimit-Reset" "X-RateLimit-Remaining"
            (show_ℕ (seconds reset)),
        header_values-set_header "X-RateLimit-Remaining" "X-RateLimit-Remaining"
            (show_ℕ (cfg.limit - count)),
      )
      refl

refuse-status :
    (split_host : String → Option String) (cfg : Config) (w : Response) (r : Request) (reset : ℕ)
    → cfg.on_limited ≡ none
    → w.sent ≡ none
    → status_of (refuse split_host cfg w r reset) ≡ some 429
unfolding refuse
refuse-status split_host cfg w r reset plain fresh =
    rw plain (default_on_limited-status w r reset fresh)

with_limits-fresh :
    (split_host : String → Option String) (cfg : Config) (count reset : ℕ) (w : Response)
    → (set_header "Retry-After"
        (show_ℕ (seconds cfg.window))
        (with_limits split_host cfg count reset w)).sent
      ≡ w.sent
unfolding with_limits set_header
with_limits-fresh split_host cfg count reset w = refl

-- With no handler of refusals configured and no status sent yet, a request whose count is within
-- the limit, without an error of the store, reaches the handler with X-RateLimit-Remaining set to
-- what is left of the limit; a request with a count over the limit or with an error is answered by
-- 429.
pub limiter_decides :
    {S : Type 0} (split_host : String → Option String) (cfg : Config) (inc : Inc S) (next : Handler)
    (s s' : S) (count now : ℕ) (failed : Bool) (r : Request) (w : Response)
    → cfg.on_limited ≡ none
    → w.sent ≡ none
    → inc s (key_of split_host cfg r) cfg.window ≡ (s', count, failed)
    → (failed ≡ false
        → count ≤ cfg.limit
        → (w' : Response) × (limiter split_host cfg inc next s now r w ≡ (s', next r w'))
          × (header_values "X-RateLimit-Remaining" w' ≡ show_ℕ (cfg.limit - count) ∷ []))
      × ((failed ≡ true) ⊎ (cfg.limit < count)
          → (w' : Response) × (limiter split_host cfg inc next s now r w ≡ (s', w'))
            × (status_of w' ≡ some 429))
unfolding limiter
limiter_decides split_host cfg inc next s s' count now failed r w plain fresh counted = rw counted (
  λ fine small. (_, ground arith, with_limits-Remaining split_host cfg count (now + cfg.window) w),
  λ bad.
      let over : failed || ltb cfg.limit count ≡ true =
        ⊎_elim (λ e. ground arith) (λ e. ground arith) bad in
      let refused =
        set_header "Retry-After" (show_ℕ (seconds cfg.window))
          (with_limits split_host cfg count (now + cfg.window) w) in
      (
        refuse split_host cfg refused r (now + cfg.window),
        rw over refl,
        refuse-status split_host cfg refused r (now + cfg.window) plain
            (with_limits-fresh split_host cfg count (now + cfg.window) w ∙ fresh),
      ),
)
