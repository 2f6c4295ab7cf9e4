-- ===== src/Webhook.antt =====
-- crates/easybot-core/src/webhook/mod.rs with the event of types/event.rs and `WebhookConfig` of
-- types/config.rs. `serde_json`, `hmac` and `reqwest` are the parameters of `Libraries`; a body and a
-- header are lists of bytes.
mod Dispatch
mod Subscription
mod Listed
mod Forwarding
mod Signature
mod Tests
use easy_bot.Base.{ℕ, String, Option, List}

pub record EventMetadata : Type 0 where
  pub correlation_id : Option String
  pub session_key : Option String

pub record GatewayEvent (Value : Type 0) : Type 0 where
  pub event_type : String
  pub source : String
  pub timestamp : ℕ
  pub «data» : Value
  pub metadata : Option EventMetadata

pub record WebhookConfig : Type 0 where
  pub name : String
  pub url : String
  pub secret : Option String
  pub events : List String
  pub platforms : Option (List String)

-- `to_vec` writes an event and `to_body` a value, `from_slice` reads a value, `hmac` is keyed by the
-- text of the secret, and `platform_of` is the text under the key `platform`.
pub record Libraries (Value : Type 0) : Type 0 where
  pub to_vec : GatewayEvent Value → Option (List ℕ)
  pub from_slice : List ℕ → Option Value
  pub null : Value
  pub to_body : Value → List ℕ
  pub hmac : String → List ℕ → Option (List ℕ)
  pub platform_of : Value → Option String

pub record Request : Type 0 where
  pub to : String
  pub body : List ℕ
  pub signature : Option (List ℕ)
