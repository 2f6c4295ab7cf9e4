-- ===== src/Webhook/Forwarding.antt =====
-- crates/easybot-core/src/webhook/mod.rs: which webhooks get which events.
use easy_bot.Base.{
  ℕ, ◌≡◌, refl, sym, ap, ◌∙◌, inl, inr, String, Bool, true, false, not, ◌&&◌, Option, none, some,
  List, [], ◌∷◌, ◌++◌, map, contains_text, any, retain, All, All-mono, arith, Bool-cases,
  Option-cases,
}
use easy_bot.Webhook.{GatewayEvent, WebhookConfig, Libraries, Request}
use easy_bot.Webhook.Dispatch.{
  is_empty, skips_type, outside, or_unknown, request_to, posts, dispatch_with_client,
}
use easy_bot.Webhook.Subscription.{
  standard_types, Collected, collect_events, collect, subscribed, stream_of, dispatch_event,
  dispatch_all, start,
}
use easy_bot.Webhook.Listed.{lists, subscribed-count}

abbrev pub within : Option (List String) → String → Bool
within none platform = true
within (some []) platform = true
within (some (p ∷ ps)) platform = contains_text platform (p ∷ ps)

abbrev pub wants : String → String → WebhookConfig → Bool
wants event_type platform wh = lists event_type wh && within wh.platforms platform

abbrev pub Lists : WebhookConfig → Type 0
Lists wh = is_empty wh.events ≡ false

abbrev pub IsStandard : {Value : Type 0} → GatewayEvent Value → Type 0
IsStandard e = contains_text e.event_type standard_types ≡ true

outside-within :
    (ps : Option (List String)) (platform : String) → outside ps platform ≡ not (within ps platform)
outside-within none platform = refl
outside-within (some []) platform = refl
outside-within (some (p ∷ ps)) platform = refl

retain-unlisted :
    (t platform : String) (whs : List WebhookConfig)
    → any (lists t) whs ≡ false
    → retain (wants t platform) whs ≡ []
retain-unlisted t platform [] h = refl
retain-unlisted t platform (wh ∷ whs) h =
    let here : lists t wh ≡ false = ground (arith, h) in
    rw here (retain-unlisted t platform whs (ground (arith, h)))

collect_events-unlisted :
    (ts : List String) (c : Collected) → is_empty ts ≡ true → collect_events ts c ≡ c
collect_events-unlisted [] c h = refl
collect_events-unlisted (t ∷ ts) c h = absurd (cc h)

collect-unlisted :
    (whs : List WebhookConfig) (c : Collected)
    → All (λ wh. is_empty wh.events ≡ true) whs
    → collect whs c ≡ c
collect-unlisted [] c h = refl
collect-unlisted (wh ∷ whs) c (here, h) =
    rw (collect_events-unlisted wh.events c here) (collect-unlisted whs c h)

module _ {Value : Type 0} (lib : Libraries Value) where
  posts-retain :
      (whs : List WebhookConfig) (payload : List ℕ) (t platform : String)
      → All Lists whs
      → posts lib whs payload t platform
        ≡ map (request_to lib payload) (retain (wants t platform) whs)
  posts-retain [] payload t platform h = refl
  posts-retain (wh ∷ whs) payload t platform (here, h) =
      let rest = posts-retain whs payload t platform h in
      let type : skips_type wh t ≡ not (lists t wh) = ground (arith, here) in
      elim (Bool-cases (lists t wh)) [
        | inl e ↦ elim (Bool-cases (within wh.platforms platform)) [
          | inl f ↦
              rw (type, outside-within wh.platforms platform, e, f)
                (ap (λ r. request_to lib payload wh ∷ r) rest)
          | inr f ↦ rw (type, outside-within wh.platforms platform, e, f) rest
        ]
        | inr e ↦ rw (type, e) rest
      ]

  -- One request to each webhook that lists the type of the event, or `*`, and has no list of
  -- platforms or one with the platform of the event.
  abbrev pub requests : List WebhookConfig → GatewayEvent Value → List Request
  requests webhooks e = elim (lib.to_vec e) [
    | none ↦ []
    | some payload ↦
        map (request_to lib payload)
          (retain (wants e.event_type (or_unknown lib (lib.platform_of e.«data»))) webhooks)
  ]

  abbrev pub wanted : List WebhookConfig → List (GatewayEvent Value) → List Request
  wanted webhooks [] = []
  wanted webhooks (e ∷ es) = requests webhooks e ++ wanted webhooks es

  dispatch-requests :
      (whs : List WebhookConfig) (e : GatewayEvent Value)
      → All Lists whs
      → dispatch_event lib whs e ≡ requests whs e
  unfolding dispatch_with_client
  dispatch-requests whs e h = elim (Option-cases (lib.to_vec e)) [
    | inl f ↦ rw (f, requests, dispatch_event, dispatch_with_client) refl
    | inr (payload, f) ↦
        rw (f, requests, dispatch_event, dispatch_with_client)
          (posts-retain whs payload e.event_type (or_unknown lib (lib.platform_of e.«data»)) h)
  ]

  requests-unlisted :
      (whs : List WebhookConfig) (e : GatewayEvent Value)
      → any (lists e.event_type) whs ≡ false
      → requests whs e ≡ []
  requests-unlisted whs e h = elim (Option-cases (lib.to_vec e)) [
    | inl f ↦ rw (f, requests) refl
    | inr (payload, f) ↦
        rw (f, requests)
          (rw (retain-unlisted e.event_type (or_unknown lib (lib.platform_of e.«data»)) whs h) refl)
  ]

  stream-wanted :
      (whs : List WebhookConfig) (es : List (GatewayEvent Value))
      → All Lists whs
      → All IsStandard es
      → dispatch_all lib whs (stream_of (subscribed whs) es) ≡ wanted whs es
  stream-wanted whs [] h k = refl
  stream-wanted whs (e ∷ es) h (standard, k) =
      let rest = stream-wanted whs es h k in
      let times = subscribed-count e.event_type whs standard in
      elim (Bool-cases (any (lists e.event_type) whs)) [
        | inl f ↦ rw (times, f) (rw (rest, dispatch-requests whs e h) refl)
        | inr f ↦ rw (times, f, requests-unlisted whs e f) rest
      ]

  stream-nothing :
      (types : List String) (es : List (GatewayEvent Value))
      → is_empty types ≡ true
      → stream_of types es ≡ []
  stream-nothing [] [] h = refl
  stream-nothing [] (e ∷ es) h = stream-nothing [] es h
  stream-nothing (t ∷ ts) es h = absurd (cc h)

  -- Where every webhook lists an event type, the requests for events of the standard types are, for
  -- each event that can be written, one to each webhook that wants it, and no other.
  pub start-wanted :
      (whs : List WebhookConfig) (es : List (GatewayEvent Value))
      → All Lists whs
      → All IsStandard es
      → start lib whs es ≡ wanted whs es
  unfolding start
  start-wanted whs es h k = elim (Bool-cases (is_empty (subscribed whs))) [
    | inl e ↦ rw e (
        sym (ap (dispatch_all lib whs) (stream-nothing (subscribed whs) es e))
        ∙ stream-wanted whs es h k)
    | inr e ↦ rw e (stream-wanted whs es h k)
  ]

  -- Where no webhook lists an event type, no event is posted to any of them, though the dispatch
  -- would skip none of them for the type of an event.
  pub start-silent :
      (whs : List WebhookConfig) (es : List (GatewayEvent Value)) (event_type : String)
      → All (λ wh. is_empty wh.events ≡ true) whs
      → (start lib whs es ≡ []) × All (λ wh. skips_type wh event_type ≡ false) whs
  unfolding start subscribed
  start-silent whs es t h = (
    rw (start, subscribed, collect-unlisted whs (record { all_types = []; catch_all = false }) h)
        refl,
    All-mono (λ wh. is_empty wh.events ≡ true) (λ wh. skips_type wh t ≡ false) whs
        (λ wh e. rw e refl) h,
  )
