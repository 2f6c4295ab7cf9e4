-- ===== src/RateLimit/Address.antt =====
-- crates/easybot-api/src/middleware/rate_limit.rs: which address a request is counted for
-- (`client_rate_limit_key`, `is_trusted_proxy`, `ip_in_cidr`). The standard library's parser and
-- printer of addresses are parameters; the header is what the caller has read as a text, a list of
-- ASCII codes.
use easy_bot.Base.{
  ℕ, ◌-◌, ◌*◌, ◌/◌, ◌+◌, ◌^◌, String, Bool, false, not, ◌&&◌, ◌||◌, Option, none, some, List, [],
  ◌∷◌, ◌++◌, ltb, ◌==◌, if◌then◌else◌, any, find,
}
use mathlib.Core.List.{reverse}

-- An address is its 32 or 128 bits as a number.
pub data IpAddr : Type 0 where
  v4 v6 : ℕ → IpAddr

-- A parsed network: its address and the length of its prefix, `"10.0.0.0/8"`.
pub data Cidr : Type 0 where
  cidr4 cidr6 : ℕ → ℕ → Cidr

-- `x & (!0 << (width - bits))`: all but the last `width - bits` bits; `0` where `bits` is 0.
abbrev pub masked : ℕ → ℕ → ℕ → ℕ
masked width bits x = if bits == 0 then 0 else x / 2 ^ (width - bits) * 2 ^ (width - bits)

-- `v6.is_loopback()` is `::1`.
abbrev pub is_loopback : ℕ → Bool
is_loopback x = x == 1

-- The text `"::1/128"` is tested first for an address of version 6. A network of the other version
-- does not parse at the version of the address, and holds nothing.
unfoldable pub ip_in_cidr : IpAddr → Cidr → Bool
ip_in_cidr (v4 ip) (cidr4 net bits) =
    if ltb 32 bits then false else masked 32 bits ip == masked 32 bits net
ip_in_cidr (v4 ip) (cidr6 net bits) = false
ip_in_cidr (v6 ip) (cidr6 net bits) =
    if net == 1 && bits == 128
    then is_loopback ip
    else (if ltb 128 bits then false else masked 128 bits ip == masked 128 bits net)
ip_in_cidr (v6 ip) (cidr4 net bits) = false

abbrev pub octets : ℕ → ℕ → ℕ → ℕ → ℕ
octets a b c d = ((a * 256 + b) * 256 + c) * 256 + d

abbrev pub trusted_proxy_cidrs : List Cidr
trusted_proxy_cidrs =
    cidr4 (octets 127 0 0 0) 8
    ∷ cidr6 1 128
    ∷ cidr4 (octets 10 0 0 0) 8
    ∷ cidr4 (octets 172 16 0 0) 12
    ∷ cidr4 (octets 192 168 0 0) 16
    ∷ []

unfoldable pub is_trusted_proxy : IpAddr → Bool
unfolding ip_in_cidr
is_trusted_proxy ip = any (ip_in_cidr ip) trusted_proxy_cidrs

-- `value.split(',')`: a value with n commas has n + 1 pieces.
unfoldable pub split_comma : List ℕ → List ℕ → List (List ℕ)
split_comma piece [] = piece ∷ []
split_comma piece (c ∷ cs) =
    let closed = piece ∷ split_comma [] cs in
    let longer = split_comma (piece ++ c ∷ []) cs in if c == b',' then closed else longer

-- The white space among the ASCII codes of a header value.
abbrev pub is_space : ℕ → Bool
is_space c = c == 32 || c == 9

unfoldable pub trim_start : List ℕ → List ℕ
trim_start [] = []
trim_start (c ∷ cs) = if is_space c then trim_start cs else c ∷ cs

unfoldable pub trim : List ℕ → List ℕ
unfolding trim_start
trim text = reverse (trim_start (reverse (trim_start text)))

abbrev pub not_trusted : IpAddr → Bool
not_trusted ip = not (is_trusted_proxy ip)

-- `.or_else(|| parsed.first()).unwrap_or(direct)`
abbrev pub found_or_first : Option IpAddr → List IpAddr → IpAddr → IpAddr
found_or_first (some ip) parsed direct = ip
found_or_first none (ip ∷ _) direct = ip
found_or_first none [] direct = direct

module _ (parse : List ℕ → Option IpAddr) where
  -- `filter_map(|value| value.trim().parse().ok())`
  unfoldable pub parse_all : List (List ℕ) → List IpAddr
  unfolding trim
  parse_all [] = []
  parse_all (piece ∷ pieces) = elim (parse (trim piece)) [
    | none ↦ parse_all pieces
    | some ip ↦ ip ∷ parse_all pieces
  ]

  abbrev pub parsed_header : Option (List ℕ) → List IpAddr
  parsed_header none = []
  parsed_header (some value) = parse_all (split_comma [] value)

  -- The address that the request is counted for, before it is printed; `none` for `"unknown"`.
  unfoldable pub client_address : Option IpAddr → Option (List ℕ) → Option IpAddr
  client_address none forwarded = none
  client_address (some direct) forwarded =
      let parsed = parsed_header forwarded in
      if not_trusted direct
      then some direct
      else some (found_or_first (find not_trusted (reverse parsed)) parsed direct)

  abbrev pub key_text : (IpAddr → String) → Option IpAddr → String
  key_text show none = "unknown"
  key_text show (some ip) = show ip

  unfoldable pub client_rate_limit_key :
      (IpAddr → String) → Option IpAddr → Option (List ℕ) → String
  client_rate_limit_key show direct forwarded = key_text show (client_address direct forwarded)
