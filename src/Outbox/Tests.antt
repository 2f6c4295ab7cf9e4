-- ===== src/Outbox/Tests.antt =====
-- Two deliveries, of which one succeeds and one fails, and two rounds of the publisher.
use easy_bot.Base.{
  ℕ, ◌≡◌, ◌≢◌, refl, String, Bool, true, false, none, some, List, [], ◌∷◌, ◌++◌, All,
}
use easy_bot.Outbox.Rows.{
  OutboundDeliveryState, succeeded, failed, OutboundDelivery, OutboundEvent, place, ordered,
}
use easy_bot.Outbox.Journal.{
  Step, mark_event, prepare_outbound_delivery, finalize_outbound_delivery,
  unpublished_outbound_events, mark_outbound_event_published, reconcile_outbound_delivery,
  delete_outbound_deliveries_by_session, delete_expired_outbound_deliveries,
}
use easy_bot.Outbox.Publisher.{Publication, Outbox, publish_events, publish_outbound_events_once}
use easy_bot.Outbox.Calls.{Call, prepares, finalizes, reconciles, publishes, run}
use easy_bot.Outbox.Settled.{SettledAs, settled-once}
use easy_bot.Outbox.Receipts.{HasReceipt, empty_outbox, marked-received}

runs : Unit {0}
unfolding place ordered prepare_outbound_delivery finalize_outbound_delivery
    unpublished_outbound_events mark_outbound_event_published reconcile_outbound_delivery
    delete_outbound_deliveries_by_session delete_expired_outbound_deliveries publish_events
    publish_outbound_events_once
runs = tt

abbrev healthy : Step → Bool
healthy step = false

abbrev no_mark : Step → Bool
no_mark mark_event = true
no_mark _ = false

abbrev delivery : String → ℕ → OutboundDelivery String
delivery id now = record {
  id = id;
  actor_id = "ann";
  idempotency_key = none;
  platform = "qq";
  chat_id = "c";
  request_json = "{}";
  created_at = now;
}

abbrev manual : OutboundDeliveryState → String
manual s = "manual"

abbrev no_receiver : OutboundEvent String → ℕ
no_receiver e = 0

abbrev one_receiver : OutboundEvent String → ℕ
one_receiver e = 1

abbrev sent : List (Call String String)
sent =
    prepares healthy (delivery "a" 1)
    ∷ prepares healthy (delivery "b" 2)
    ∷ finalizes healthy "b" failed "refused" none 3
    ∷ finalizes healthy "a" succeeded "sent" (some ("m", "hello")) 4
    ∷ []

abbrev later : List (Call String String)
later =
    publishes healthy no_receiver
    ∷ publishes no_mark one_receiver
    ∷ reconciles healthy "a" "ann" failed "log" "bob" 5
    ∷ publishes healthy one_receiver
    ∷ []

abbrev calls : List (Call String String)
calls = sent ++ later

abbrev outbox : Outbox String String
outbox = run manual empty_outbox sent

types_of : List (Publication String) → List (String × OutboundDeliveryState)
types_of [] = []
types_of (p ∷ ps) = (p.event_type, p.event.state) ∷ types_of ps

-- The failed delivery, too, is published as `message.sent`.
failure_sent :
    types_of (run manual outbox (publishes healthy one_receiver ∷ [])).bus
    ≡ ("message.sent", failed) ∷ ("message.sent", succeeded) ∷ []
unfolding runs types_of
failure_sent = refl

outbox-SettledAs : All (SettledAs "a" succeeded "sent" 4) outbox.journal.deliveries
unfolding runs
outbox-SettledAs = ((λ own. (refl, refl, refl)), ((λ own. absurd (cc own)), tt))

settled-once_example :
    All (SettledAs "a" succeeded "sent" 4) (run manual outbox later).journal.deliveries
    × ((finalize_outbound_delivery healthy
          (run manual outbox later).journal
          "a"
          failed
          "again"
          none
          9).1
        ≢ none)
settled-once_example =
    settled-once manual outbox later "a" succeeded failed "sent" "again" 4 9 healthy none
      outbox-SettledAs tt

marked-received_example :
    All
      (HasReceipt (run manual empty_outbox calls).bus)
      (run manual empty_outbox calls).journal.deliveries
marked-received_example = marked-received manual calls
