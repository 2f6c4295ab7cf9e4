-- ===== src/RateLimit/AddressLaws.antt =====
-- The address that a request is counted for cannot be chosen by the client.
use easy_bot.Base.{
  ℕ, ◌≤◌, ◌≡◌, refl, Bool, true, false, Option, none, some, List, [], ◌∷◌, ◌++◌, arith, find, ◌↔◌,
  ◌⊎◌, inl, inr, Option-cases, All, All-reverse_inv,
}
use mathlib.Core.List.{reverse, reverse-append}
use easy_bot.RateLimit.Address.{
  IpAddr, v4, is_trusted_proxy, split_comma, not_trusted, parse_all, parsed_header, client_address,
  octets,
}

-- A trusted address of version 4 lies in one of the four ranges 127/8, 10/8, 172.16/12, 192.168/16.
pub trusted_v4_iff :
    (ip : ℕ)
    → (is_trusted_proxy (v4 ip) ≡ true) ↔ (
        (octets 127 0 0 0 ≤ ip) × (ip ≤ octets 127 255 255 255)
        ⊎ (octets 10 0 0 0 ≤ ip) × (ip ≤ octets 10 255 255 255)
        ⊎ (octets 172 16 0 0 ≤ ip) × (ip ≤ octets 172 31 255 255)
        ⊎ (octets 192 168 0 0 ≤ ip) × (ip ≤ octets 192 168 255 255))
unfolding is_trusted_proxy
trusted_v4_iff ip = ground arith

module _ (parse : List ℕ → Option IpAddr) where
  split_comma-append :
      (piece xs ys : List ℕ)
      → split_comma piece (xs ++ b',' ∷ ys) ≡ split_comma piece xs ++ split_comma [] ys
  unfolding split_comma
  split_comma-append piece [] ys = refl
  split_comma-append piece (x ∷ xs) ys =
      ground (arith, split_comma-append [] xs ys, split_comma-append (piece ++ x ∷ []) xs ys)

  parse_all-append :
      (xs ys : List (List ℕ))
      → parse_all parse (xs ++ ys) ≡ parse_all parse xs ++ parse_all parse ys
  unfolding parse_all
  parse_all-append [] ys = refl
  parse_all-append (x ∷ xs) ys = ground (arith, parse_all-append xs ys)

  find-append :
      (p : IpAddr → Bool) (xs ys : List IpAddr) (ip : IpAddr)
      → find p xs ≡ some ip
      → find p (xs ++ ys) ≡ some ip
  find-append p [] ys ip h = absurd (cc h)
  find-append p (x ∷ xs) ys ip h = ground (arith, find-append p xs ys ip)

  last_untrusted-append :
      (xs ys : List IpAddr) (ip : IpAddr)
      → find not_trusted (reverse ys) ≡ some ip
      → find not_trusted (reverse (xs ++ ys)) ≡ some ip
  last_untrusted-append xs ys ip h =
      rw (reverse-append xs ys) (find-append not_trusted (reverse ys) (reverse xs) ip h)

  pub client_address-prefix :
      (direct ip : IpAddr) (forged value : List ℕ)
      → is_trusted_proxy direct ≡ true
      → find not_trusted (reverse (parse_all parse (split_comma [] value))) ≡ some ip
      → (client_address parse (some direct) (some (forged ++ b',' ∷ value)) ≡ some ip)
        × (client_address parse (some direct) (some value) ≡ some ip)
  unfolding client_address
  client_address-prefix direct ip forged value t h = (
    rw (
      t,
      split_comma-append [] forged value,
      parse_all-append (split_comma [] forged) (split_comma [] value),
      last_untrusted-append (parse_all parse (split_comma [] forged))
          (parse_all parse (split_comma [] value)) ip h,
    ),
    rw (t, h),
  )

  -- Without a header a request is counted for the peer.
  pub client_address-silent :
      (direct : IpAddr) → client_address parse (some direct) none ≡ some direct
  unfolding client_address
  client_address-silent direct = ground arith

  find-holds :
      (p : IpAddr → Bool) (xs : List IpAddr) (ip : IpAddr) → find p xs ≡ some ip → p ip ≡ true
  find-holds p [] ip h = absurd (cc h)
  find-holds p (x ∷ xs) ip h = ground (arith, find-holds p xs ip)

  find-none : (p : IpAddr → Bool) (xs : List IpAddr) → find p xs ≡ none → All (λ x. p x ≡ false) xs
  find-none p [] h = tt
  find-none p (x ∷ xs) h = (ground arith, find-none p xs (ground arith))

  -- A request is counted for a trusted address only if it comes from a trusted proxy and its header
  -- names trusted addresses alone.
  pub client_address-trusted :
      (direct ip : IpAddr) (forwarded : Option (List ℕ))
      → client_address parse (some direct) forwarded ≡ some ip
      → is_trusted_proxy ip ≡ true
      → (is_trusted_proxy direct ≡ true)
        × All (λ a. not_trusted a ≡ false) (parsed_header parse forwarded)
  unfolding client_address
  client_address-trusted direct ip forwarded e t =
      elim (Option-cases (find not_trusted (reverse (parsed_header parse forwarded)))) [
        | inl all_trusted ↦ (
          ground (arith, all_trusted),
          All-reverse_inv _ _
              (find-none not_trusted (reverse (parsed_header parse forwarded)) all_trusted),
        )
        | inr (last, found) ↦ absurd (
            ground (
              arith,
              found,
              find-holds not_trusted (reverse (parsed_header parse forwarded)) last found,
            ))
      ]
