-- ===== src/Webhook/Dispatch.antt =====
-- crates/easybot-core/src/webhook/mod.rs: `hex_encode` and `dispatch_with_client`. What a receiver
-- answers is only logged.
use easy_bot.Base.{
  ℕ, ◌+◌, ◌/◌, ◌%◌, String, Bool, true, false, not, ◌&&◌, Option, none, some, List, [], ◌∷◌, ◌++◌,
  if◌then◌else◌, ltb, str_eq, contains_text,
}
use easy_bot.Webhook.{GatewayEvent, WebhookConfig, Libraries, Request}

abbrev pub hex_digit : ℕ → ℕ
hex_digit n = if ltb n 10 then 48 + n else 87 + n

-- `{:02x}` of each byte.
unfoldable pub hex_encode : List ℕ → List ℕ
hex_encode [] = []
hex_encode (b ∷ bytes) = hex_digit (b / 16) ∷ hex_digit (b % 16) ∷ hex_encode bytes

-- The bytes of `sha256=`.
abbrev pub sha256_prefix : List ℕ
sha256_prefix = 115 ∷ 104 ∷ 97 ∷ 50 ∷ 53 ∷ 54 ∷ 61 ∷ []

abbrev pub is_empty : List String → Bool
is_empty [] = true
is_empty (_ ∷ _) = false

abbrev pub skips_type : WebhookConfig → String → Bool
skips_type wh event_type =
    not (is_empty wh.events)
    && not (contains_text "*" wh.events)
    && not (contains_text event_type wh.events)

abbrev pub outside : Option (List String) → String → Bool
outside none platform = false
outside (some platforms) platform =
    not (is_empty platforms) && not (contains_text platform platforms)

abbrev pub skips_platform : WebhookConfig → String → Bool
skips_platform wh platform = outside wh.platforms platform

abbrev pub prefixed : Option (List ℕ) → Option (List ℕ)
prefixed none = none
prefixed (some code) = some (sha256_prefix ++ hex_encode code)

module _ {Value : Type 0} (lib : Libraries Value) where
  unfoldable pub signature_of : Option String → List ℕ → Option (List ℕ)
  signature_of none payload = none
  signature_of (some secret) payload =
      if str_eq secret "" then none else prefixed (lib.hmac secret payload)

  abbrev pub or_null : Option Value → Value
  or_null none = lib.null
  or_null (some v) = v

  abbrev pub or_unknown : Option String → String
  or_unknown none = "unknown"
  or_unknown (some platform) = platform

  unfoldable pub request_to : List ℕ → WebhookConfig → Request
  request_to payload wh = record {
    to = wh.url;
    body = lib.to_body (or_null (lib.from_slice payload));
    signature = signature_of wh.secret payload;
  }

  abbrev pub posts : List WebhookConfig → List ℕ → String → String → List Request
  posts [] payload event_type platform = []
  posts (wh ∷ whs) payload event_type platform =
      let rest = posts whs payload event_type platform in
      if skips_type wh event_type
      then rest
      else if skips_platform wh platform
      then rest
      else request_to payload wh ∷ rest

  unfoldable pub dispatch_with_client :
      List WebhookConfig → GatewayEvent Value → String → String → List Request
  dispatch_with_client webhooks event event_type platform = elim (lib.to_vec event) [
    | none ↦ []
    | some payload ↦ posts webhooks payload event_type platform
  ]
