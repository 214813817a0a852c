-- ===== src/Tests/Traffic.antt =====
-- ratelimit, cors, secureheaders and ginmw on single requests.
use Prim.Native.Nat.{min}
use api_security_sdk.Common.{
  ℕ, ◌+◌, ◌-◌, String, ◌≡◌, refl, ◌≢◌, true, none, [], ◌∷◌, Memᴰ, arith, eq_iff, if◌then◌else◌,
  ◌==◌,
}
use api_security_sdk.Common.Int.{pos}
use api_security_sdk.Http.{no_body, Request, Response, Handler, new_response, header_values}
use api_security_sdk.RateLimit.{
  Bucket, IsScale, new_bucket, bucket_inc, MemoryStore, store_inc, new_memory_store,
}
use api_security_sdk.RateLimit.Counts.{
  sliding, counts, admitted, inc_rotates, admitted_first_window,
}
use api_security_sdk.RateLimit.Middleware.{Config, limiter}
use api_security_sdk.RateLimit.Waiting.{memory_inc, Used, unused, request, limiter_readmits}
use api_security_sdk.Cors
use api_security_sdk.Cors.{
  CorsHandler, new_handler, origin_allowed, allow_origin, handle_actual, is_preflight, serve,
}
use api_security_sdk.Cors.Origins.{acao, acac, wildcard_reflects}

-- The product in whole numbers.
abbrev scale : ℕ → ℕ → ℕ → ℕ
scale prev left window = min prev left

scale-IsScale : IsScale scale
scale-IsScale = record {
  no_previous = λ left window. omega arith;
  nothing_left = λ prev window. omega arith;
  bounded = λ prev left window h. omega arith;
}

abbrev bucket : Bucket
bucket = record { prev = 2; curr = 3; window_start = 100; window = 10 }

inc_rotates_example :
    ((bucket_inc scale bucket 112).1 ≡ 1)
    × (sliding scale (bucket_inc scale bucket 112).0 112
        ≡ scale bucket.curr
            (bucket.window_start + bucket.window + bucket.window - 112)
            bucket.window
          + 1)
inc_rotates_example =
    inc_rotates scale scale-IsScale bucket 112 (omega arith) (omega arith) (omega arith)

admitted_first_window_example :
    admitted 2 (counts scale (new_bucket 100 10) (101 ∷ 102 ∷ 103 ∷ [])) ≡ min 2 3
admitted_first_window_example =
    admitted_first_window scale scale-IsScale 2 100 10 (101 ∷ 102 ∷ 103 ∷ [])
      (omega arith, (omega arith, (omega arith, tt)))

abbrev plain : Handler
plain r w = w

abbrev asked : Request
asked = record {
  method = "GET";
  path = "/";
  remote_addr = "10.0.0.1";
  get_header = λ name. if name == "Origin" then "https://a.example" else "";
  claims = none;
  api_key = none;
  body = no_body;
  content_length = pos 0;
}

-- One request every ten units; the second and the third of the store's were one too many.
abbrev one_request : Config
one_request = record { limit = 1; window = 10; key_fn = none; on_limited = none }

abbrev hammered : MemoryStore → MemoryStore
hammered s =
    (store_inc scale
      (store_inc scale (store_inc scale s "10.0.0.1" 10 100 100).0 "10.0.0.1" 10 101 101).0
      "10.0.0.1" 10 102 102).0

hammered-Used : Used scale 10 102 (hammered new_memory_store)
hammered-Used = request "10.0.0.1" 102 102 (omega arith) (omega arith) (
    request "10.0.0.1" 101 101 (omega arith) (omega arith)
      (request "10.0.0.1" 100 100 (omega arith) (omega arith) unused))

limiter_readmits_example :
    (s' : MemoryStore) × (w' : Response) × (limiter
        (λ text. none)
        one_request
        (memory_inc scale 122 122)
        plain
        (hammered new_memory_store)
        122
        asked
        new_response
      ≡ (s', plain asked w'))
limiter_readmits_example =
    limiter_readmits scale (λ text. none) one_request plain (hammered new_memory_store) 102 122 122
      122 asked new_response scale-IsScale (omega arith) hammered-Used (omega arith)

abbrev origin : String
origin = "https://a.example"

abbrev same_case : String → String
same_case s = s

abbrev cors_config : Cors.Config
cors_config = record Cors.allow_all_config { allow_credentials = true }

named : origin ≢ ""
named = λ e. absurd (ground (arith, (eq_iff "https://a.example" "").1 e))

wildcard_reflects_example :
    (header_values acao
        (handle_actual same_case (new_handler same_case cors_config) asked new_response)
      ≡ "https://a.example" ∷ [])
    × (header_values acac
          (handle_actual same_case (new_handler same_case cors_config) asked new_response)
        ≡ "true" ∷ [])
wildcard_reflects_example =
    wildcard_reflects same_case cors_config asked new_response (Memᴰ.head refl) refl named
