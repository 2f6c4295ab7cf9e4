-- ===== src/RateLimit/Middleware.antt =====
-- crates/easybot-api/src/middleware/rate_limit.rs, `rate_limit_middleware`. The address of the peer
-- and the bytes of the first X-Forwarded-For line, which is the one that `get` answers, are
-- arguments; `to_str` is that of the HTTP library, which answers nothing for a value that is not a
-- text. The answer is whether the request goes on to its handler.
use easy_bot.Base.{ℕ, String, Bool, Option, none, some, List}
use easy_bot.RateLimit.Limiter.{RateLimiter, check}
use easy_bot.RateLimit.Address.{IpAddr, client_rate_limit_key}

-- `.and_then(|value| value.to_str().ok())`
abbrev pub forwarded : (List ℕ → Option (List ℕ)) → Option (List ℕ) → Option (List ℕ)
forwarded to_str none = none
forwarded to_str (some value) = to_str value

module _ (parse : List ℕ → Option IpAddr) (show : IpAddr → String)
    (to_str : List ℕ → Option (List ℕ)) where
  unfoldable pub rate_limit_middleware :
      (String → Bool) → RateLimiter → Option IpAddr → Option (List ℕ) → ℕ → RateLimiter × Bool
  rate_limit_middleware locked l direct header now =
      check locked l (client_rate_limit_key parse show direct (forwarded to_str header)) now
