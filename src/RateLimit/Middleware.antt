-- ===== src/RateLimit/Middleware.antt =====
-- ratelimit/ratelimit.go: the keys and the HTTP middleware. `split_host` is the host that
-- `net.SplitHostPort` finds, none for an error.
use api_security_sdk.Common.{
  ℕ, ◌+◌, ◌-◌, ◌/◌, String, Bool, ◌||◌, ◌==◌, ◌<>◌, Option, none, some, ltb, before, if◌then◌else◌,
  show_ℕ,
}
use api_security_sdk.Http.{Request, Response, Handler, set_header, write_header, write}

unfoldable pub remote_ip : (String → Option String) → Request → String
remote_ip split_host r =
    if r.get_header "X-Forwarded-For" == ""
    then elim (split_host r.remote_addr) [ none ↦ r.remote_addr | some host ↦ host ]
    else before b',' (r.get_header "X-Forwarded-For")

unfoldable pub by_ip : (String → Option String) → Request → String
unfolding remote_ip
by_ip split_host r = remote_ip split_host r

unfoldable pub by_subject : (String → Option String) → (Request → String) → Request → String
unfolding remote_ip
by_subject split_host subject_fn r =
    if subject_fn r == "" then remote_ip split_host r else "subject:" <> subject_fn r

unfoldable pub by_route : (String → Option String) → Request → String
unfolding remote_ip
by_route split_host r = remote_ip split_host r <> ":" <> r.path

pub record Config : Type 0 where
  pub limit : ℕ
  pub window : ℕ
  pub key_fn : Option (Request → String)
  pub on_limited : Option (Response → Request → ℕ → Response)

-- `Per`
unfoldable pub per : ℕ → ℕ → Config
per requests window = record { limit = requests; window = window; key_fn = none; on_limited = none }

-- Whole seconds of a time or a duration.
abbrev pub seconds : ℕ → ℕ
seconds t = t / 1_000_000_000

unfoldable pub default_on_limited : Response → Request → ℕ → Response
default_on_limited w r reset =
    write ("{\"error\":\"rate limit exceeded\",\"reset\":" <> show_ℕ (seconds reset) <> "}")
      (write_header 429 (set_header "Content-Type" "application/json" w))

-- The interface `Store`, as far as the middleware calls it; an error comes with a count too.
abbrev pub Inc : Type 0 → Type 0
Inc S = S → String → ℕ → S × ℕ × Bool

module _ (split_host : String → Option String) (cfg : Config) where
  unfoldable pub key_of : Request → String
  unfolding remote_ip
  key_of r = elim cfg.key_fn [ none ↦ remote_ip split_host r | some f ↦ f r ]

  unfoldable pub refuse : Response → Request → ℕ → Response
  unfolding default_on_limited
  refuse = elim cfg.on_limited [ none ↦ default_on_limited | some f ↦ f ]

  -- The three headers that every answer carries; `cfg.Limit - count`, and 0 for a negative one.
  unfoldable pub with_limits : ℕ → ℕ → Response → Response
  with_limits count reset w = set_header "X-RateLimit-Reset" (show_ℕ (seconds reset)) (
      set_header "X-RateLimit-Remaining" (show_ℕ (cfg.limit - count))
        (set_header "X-RateLimit-Limit" (show_ℕ cfg.limit) w))

  -- `New`: the new state of the store, and the answer. `now` is read after the count.
  unfoldable pub limiter :
      {S : Type 0} → Inc S → Handler → S → ℕ → Request → Response → S × Response
  unfolding key_of refuse with_limits
  limiter inc next s now r w =
      let (s', count, failed) = inc s (key_of r) cfg.window in
      let reset = now + cfg.window in
      let w' = with_limits count reset w in
      (
        s',
        if failed || ltb cfg.limit count
            then refuse (set_header "Retry-After" (show_ℕ (seconds cfg.window)) w') r reset
            else next r w',
      )
