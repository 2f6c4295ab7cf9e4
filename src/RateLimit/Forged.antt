-- ===== src/RateLimit/Forged.antt =====
-- What a client can do to the address that its request is counted for.
use easy_bot.Base.{
  ℕ, ◌≡◌, ap, ◌∙◌, String, Bool, true, Option, none, some, List, [], ◌∷◌, ◌++◌, find,
}
use mathlib.Core.List.{reverse}
use easy_bot.RateLimit.Limiter.{RateLimiter, check}
use easy_bot.RateLimit.Address.{
  IpAddr, is_trusted_proxy, split_comma, not_trusted, parse_all, key_text, client_address,
  client_rate_limit_key,
}
use easy_bot.RateLimit.AddressLaws.{client_address-prefix, client_address-silent}
use easy_bot.RateLimit.Middleware.{forwarded, rate_limit_middleware}

module _ (parse : List ℕ → Option IpAddr) (show : IpAddr → String)
    (to_str : List ℕ → Option (List ℕ)) (locked : String → Bool) where
  counted :
      (l : RateLimiter) (direct : IpAddr) (header : Option (List ℕ)) (now : ℕ) (ip : IpAddr)
      → client_address parse (some direct) (forwarded to_str header) ≡ some ip
      → rate_limit_middleware parse show to_str locked l (some direct) header now
        ≡ check locked l (show ip) now
  unfolding rate_limit_middleware client_rate_limit_key
  counted l direct header now ip h =
      ap (λ (a : Option IpAddr). check locked l (key_text parse show a) now) h

  -- A request from a trusted proxy is counted for the last untrusted address that the proxies
  -- appended to its header line, whatever bytes the client put before them in that line, as long as
  -- the line is a text; a line that is not a text makes the request count for the proxy.
  pub rate_limit_middleware-forged :
      (l : RateLimiter) (direct ip : IpAddr) (forged value broken : List ℕ) (now : ℕ)
      → is_trusted_proxy direct ≡ true
      → find not_trusted (reverse (parse_all parse (split_comma [] value))) ≡ some ip
      → to_str (forged ++ b',' ∷ value) ≡ some (forged ++ b',' ∷ value)
      → to_str broken ≡ none
      → (rate_limit_middleware parse show to_str locked l
            (some direct)
            (some (forged ++ b',' ∷ value))
            now
          ≡ check locked l (show ip) now)
        × (rate_limit_middleware parse show to_str locked l (some direct) (some broken) now
            ≡ check locked l (show direct) now)
  rate_limit_middleware-forged l direct ip forged value broken now t h reads fails = (
    counted l direct (some (forged ++ b',' ∷ value)) now ip (
        ap (client_address parse (some direct)) reads
        ∙ (client_address-prefix parse direct ip forged value t h).0),
    counted l direct (some broken) now direct
        (ap (client_address parse (some direct)) fails ∙ client_address-silent parse direct),
  )
