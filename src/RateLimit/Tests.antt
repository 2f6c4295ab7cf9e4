-- ===== src/RateLimit/Tests.antt =====
-- Runs of the rate limiter on concrete requests.
use easy_bot.Base.{
  ℕ, ◌≤◌, ◌<◌, ◌≡◌, refl, ◌↔◌, ◌⊎◌, inl, inr, String, Bool, true, false, Option, none, some, List,
  [], ◌∷◌, ◌++◌, arith, count, length, replicate, leb, ltb, ◌&&◌, ◌||◌, if◌then◌else◌, lookup,
  insert, contains_key, All, eq_iff,
}
use easy_bot.RateLimit.Window.{RateLimitConfig, SlidingWindow, with_config, prune, check_and_record}
use easy_bot.RateLimit.WindowLaws.{serve, within, serve-within-le-max, serve-saturated}
use easy_bot.RateLimit.Limiter.{RateLimiter, check}
use easy_bot.RateLimit.Address.{IpAddr, v4, octets, is_trusted_proxy, split_comma, parse_all, trim}
use easy_bot.RateLimit.Middleware.{rate_limit_middleware}
use easy_bot.RateLimit.Forged.{rate_limit_middleware-forged}

abbrev free : String → Bool
free key = false

abbrev config : RateLimitConfig
config = record { enabled = true; requests_per_minute = 2; burst_size = 10 }

abbrev full_window : SlidingWindow
full_window = record { timestamps = 100_000 ∷ 101_000 ∷ []; last_access = 101_000 }

abbrev limiter : RateLimiter
limiter = record { buckets = ("a", full_window) ∷ []; config = config }

-- Three requests in a minute with a limit of two; the minute after, there is room again.
serve_run :
    (serve (with_config 0) 2 0 (1000 ∷ 2000 ∷ 3000 ∷ 70_000 ∷ [])).1 ≡ 1000 ∷ 2000 ∷ 70_000 ∷ []
unfolding serve with_config check_and_record prune
serve_run = refl

check_run : (check free limiter "a" 101_500).1 ≡ true
unfolding check check_and_record prune lookup contains_key
check_run = refl

serve-within-le-max_example :
    count (within 1000) (serve (with_config 0) 2 0 (1000 ∷ 2000 ∷ 3000 ∷ 70_000 ∷ [])).1 ≤ 2
serve-within-le-max_example =
    serve-within-le-max 0 2 (1000 ∷ 2000 ∷ 3000 ∷ 70_000 ∷ []) 1000 (omega arith)

serve-saturated_example : (serve full_window 2 10 (replicate 50 110_000)).1 ≡ replicate 50 110_000
unfolding prune
serve-saturated_example =
    serve-saturated full_window 2 10 110_000 50 (omega arith) refl (omega arith)

-- A parser that knows two addresses by one letter.
abbrev parse_letter : List ℕ → Option IpAddr
parse_letter (c ∷ []) = elim (easy_bot.Base.◌==◌ c b'p') [
  | true ↦ some (v4 (octets 10 0 0 1))
  | false ↦ some (v4 (octets 8 8 8 8))
]
parse_letter _ = none

abbrev proxy : IpAddr
proxy = v4 (octets 127 0 0 1)

abbrev all_visible : List ℕ → Bool
all_visible [] = true
all_visible (c ∷ cs) = (leb 32 c && ltb c 127 || easy_bot.Base.◌==◌ c 9) && all_visible cs

-- The readable values: visible ASCII codes and tabs.
abbrev readable : List ℕ → Option (List ℕ)
readable value = if all_visible value then some value else none

abbrev show : IpAddr → String
show ip = if is_trusted_proxy ip then "10.0.0.1" else "8.8.8.8"

rate_limit_middleware-forged_example :
    (rate_limit_middleware parse_letter show readable free limiter
        (some proxy)
        (some (b'x' ∷ b',' ∷ b'c' ∷ b',' ∷ b'p' ∷ []))
        102_000
      ≡ check free limiter "8.8.8.8" 102_000)
    × (rate_limit_middleware parse_letter show readable free limiter
          (some proxy)
          (some (233 ∷ b',' ∷ b'c' ∷ b',' ∷ b'p' ∷ []))
          102_000
        ≡ check free limiter "10.0.0.1" 102_000)
unfolding parse_all split_comma is_trusted_proxy trim
rate_limit_middleware-forged_example =
    rate_limit_middleware-forged parse_letter show readable free limiter proxy (v4 (octets 8 8 8 8))
      (b'x' ∷ []) (b'c' ∷ b',' ∷ b'p' ∷ []) (233 ∷ b',' ∷ b'c' ∷ b',' ∷ b'p' ∷ []) 102_000 refl refl
      refl refl
