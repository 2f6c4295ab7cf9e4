-- ===== src/Webhook/Subscription.antt =====
-- crates/easybot-core/src/webhook/mod.rs: `run`, with `event_types::all` of types/event.rs, and the
-- stream of `subscribe_many` in bus/event_bus.rs, which yields an event once for each of the listed
-- types that is the event's. No receiver lags.
use easy_bot.Base.{
  ℕ, String, Bool, true, false, List, [], ◌∷◌, ◌++◌, if◌then◌else◌, str_eq, contains_text,
  replicate, count,
}
use easy_bot.Webhook.{GatewayEvent, WebhookConfig, Libraries, Request}
use easy_bot.Webhook.Dispatch.{is_empty, or_unknown, dispatch_with_client}

abbrev pub standard_types : List String
standard_types =
    "message.inbound" ∷ "message.sent" ∷ "message.failed" ∷ "adapter.connected"
    ∷ "adapter.disconnected" ∷ "adapter.error" ∷ "adapter.reconnecting" ∷ "adapter.reconnected"
    ∷ "adapter.reconnect_failed" ∷ "callback.received" ∷ "gateway.started" ∷ "gateway.stopping"
    ∷ "config.changed" ∷ []

pub record Collected : Type 0 where
  pub all_types : List String
  pub catch_all : Bool

unfoldable pub push_new : String → List String → List String
push_new t types = if contains_text t types then types else types ++ t ∷ []

unfoldable pub push_all : List String → List String → List String
push_all [] types = types
push_all (t ∷ ts) types = push_all ts (push_new t types)

abbrev pub collect_event : String → Collected → Collected
collect_event t c =
    if str_eq t "*"
    then record c { catch_all = true }
    else record c { all_types = push_new t c.all_types }

abbrev pub collect_events : List String → Collected → Collected
collect_events [] c = c
collect_events (t ∷ ts) c = collect_events ts (collect_event t c)

abbrev pub collect : List WebhookConfig → Collected → Collected
collect [] c = c
collect (wh ∷ whs) c = collect whs (collect_events wh.events c)

unfoldable pub subscribed : List WebhookConfig → List String
subscribed webhooks =
    let c = collect webhooks (record { all_types = []; catch_all = false }) in
    if c.catch_all then push_all standard_types c.all_types else c.all_types

module _ {Value : Type 0} where
  abbrev pub copies : List String → GatewayEvent Value → ℕ
  copies types event = count (λ t. str_eq t event.event_type) types

  abbrev pub stream_of : List String → List (GatewayEvent Value) → List (GatewayEvent Value)
  stream_of types [] = []
  stream_of types (e ∷ es) = replicate (copies types e) e ++ stream_of types es

module _ {Value : Type 0} (lib : Libraries Value) where
  abbrev pub dispatch_event : List WebhookConfig → GatewayEvent Value → List Request
  dispatch_event webhooks event =
      dispatch_with_client lib webhooks event event.event_type
        (or_unknown lib (lib.platform_of event.«data»))

  abbrev pub dispatch_all : List WebhookConfig → List (GatewayEvent Value) → List Request
  dispatch_all webhooks [] = []
  dispatch_all webhooks (e ∷ es) = dispatch_event webhooks e ++ dispatch_all webhooks es

  -- `start` and `run`, on the events that are published.
  unfoldable pub start : List WebhookConfig → List (GatewayEvent Value) → List Request
  start webhooks events =
      let types = subscribed webhooks in
      if is_empty types then [] else dispatch_all webhooks (stream_of types events)
