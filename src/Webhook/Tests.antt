-- ===== src/Webhook/Tests.antt =====
-- Three webhooks, of which one listens to messages, one to everything of one platform, and one to
-- nothing.
use easy_bot.Base.{
  ℕ, ◌%◌, ◌≡◌, ◌≢◌, refl, ap, sym, String, false, Option, none, some, List, [], ◌∷◌, ◌++◌, drop,
  All, arith,
}
use easy_bot.Webhook.{GatewayEvent, WebhookConfig, Libraries, Request}
use easy_bot.Webhook.Dispatch.{
  hex_encode, signature_of, request_to, dispatch_with_client, sha256_prefix, skips_type,
}
use easy_bot.Webhook.Subscription.{push_new, push_all, subscribed, start}
use easy_bot.Webhook.Forwarding.{wanted, start-wanted, start-silent}
use easy_bot.Webhook.Signature.{starts_e, starts_d, Documented, body-unsigned}

runs : Unit {0}
unfolding hex_encode signature_of request_to dispatch_with_client push_new push_all subscribed start
runs = tt

-- The tests of the source.
hello :
    hex_encode (104 ∷ 101 ∷ 108 ∷ 108 ∷ 111 ∷ [])
    ≡ 54 ∷ 56 ∷ 54 ∷ 53 ∷ 54 ∷ 99 ∷ 54 ∷ 99 ∷ 54 ∷ 102 ∷ []
unfolding runs
hello = refl

bounds : hex_encode (0 ∷ 255 ∷ []) ≡ 48 ∷ 48 ∷ 102 ∷ 102 ∷ []
unfolding runs
bounds = refl

abbrev third_byte : List ℕ → ℕ
third_byte (_ ∷ _ ∷ b ∷ _) = b
third_byte _ = 0

-- A value is the bytes of its texts; the code is one byte of the message.
abbrev libraries : Libraries (List ℕ)
libraries = record {
  to_vec = λ e. some (starts_e ++ e.«data»);
  from_slice = λ payload. some (drop 3 payload);
  null = [];
  to_body = λ v. starts_d ++ v;
  hmac = λ secret message. some (third_byte message % 256 ∷ []);
  platform_of = λ v. some "qq";
}

some-inj : {x y : List ℕ} → some x ≡ some y → x ≡ y
some-inj h = cc h

libraries-Documented : Documented libraries
libraries-Documented = record {
  written = λ e payload w. rw (sym (some-inj w)) refl;
  read = λ e payload w. (drop 3 payload, refl, refl);
  keyed = λ secret message. (third_byte message % 256 ∷ [], refl, (omega arith, tt));
}

abbrev webhook : String → Option String → List String → Option (List String) → WebhookConfig
webhook url secret events platforms = record {
  name = "test-webhook";
  url = url;
  secret = secret;
  events = events;
  platforms = platforms;
}

abbrev webhooks : List WebhookConfig
webhooks =
    webhook "messages" none ("message.inbound" ∷ []) none
    ∷ webhook "all" none ("*" ∷ []) (some ("qq" ∷ []))
    ∷ webhook "other" none ("*" ∷ []) (some ("wechat" ∷ []))
    ∷ []

abbrev event : String → GatewayEvent (List ℕ)
event event_type = record {
  event_type = event_type;
  source = "qq";
  timestamp = 5;
  «data» = [];
  metadata = none;
}

abbrev events : List (GatewayEvent (List ℕ))
events = event "message.inbound" ∷ event "gateway.started" ∷ []

abbrev posted : String → Request
posted url = record { to = url; body = starts_d; signature = none }

start-wanted_example : start libraries webhooks events ≡ wanted libraries webhooks events
start-wanted_example =
    start-wanted libraries webhooks events (refl, (refl, (refl, tt))) (refl, (refl, tt))

each_once : start libraries webhooks events ≡ posted "messages" ∷ posted "all" ∷ posted "all" ∷ []
unfolding runs
each_once = refl

abbrev unlisted : List WebhookConfig
unlisted = webhook "none" none [] none ∷ []

start-silent_example :
    (start libraries unlisted events ≡ [])
    × All (λ wh. skips_type wh "message.inbound" ≡ false) unlisted
start-silent_example = start-silent libraries unlisted events "message.inbound" (refl, tt)

abbrev signed : WebhookConfig
signed = webhook "signed" (some "secret") ("*" ∷ []) none

first_byte : Option (List ℕ) → ℕ
first_byte (some (b ∷ _)) = b
first_byte _ = 0

distinct :
    libraries.hmac "secret" starts_e
      ≡ libraries.hmac "secret" (request_to libraries starts_e signed).body
    → starts_e ≡ (request_to libraries starts_e signed).body
unfolding runs first_byte
distinct h = absurd (omega (arith, ap first_byte h))

body-unsigned_example :
    (request_to libraries starts_e signed).signature ≢ some (sha256_prefix ++ 54 ∷ 52 ∷ [])
unfolding runs
body-unsigned_example =
    body-unsigned libraries libraries-Documented (event "message.sent") starts_e signed "secret"
      refl refl refl distinct
