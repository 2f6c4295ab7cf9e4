-- ===== src/Auth/Ledger/Tests.antt =====
-- A usage ledger of four requests, and a payment that is delivered three times.
use easy_bot.Base.{◌≡◌, refl, ap, String, Bool, true, false, none, some, List, [], ◌∷◌}
use easy_bot.Auth.Ledger.Usage.{
  UsageStep, commit, count_request, record_usage, verify_usage_ledger_integrity, usage_total,
}
use easy_bot.Auth.Ledger.Totals.{Call, requested, run, fresh, run-billed}
use easy_bot.Auth.Ledger.Billing.{
  BillingEvent, Sent, conflict, wrote, record_billing_event, verify_billing_ledger_integrity,
}
use easy_bot.Auth.Ledger.Events as Events

abbrev works : UsageStep → Bool
works step = false

abbrev no_commit : UsageStep → Bool
no_commit commit = true
no_commit _ = false

abbrev calls : List Call
calls =
    requested works "k" "ann" 200 5
    ∷ requested works "j" "bob" 404 6
    ∷ requested no_commit "k" "ann" 200 7
    ∷ requested works "k" "ann" 201 3600001
    ∷ []

runs : Unit {0}
unfolding count_request record_usage verify_usage_ledger_integrity usage_total record_billing_event
    verify_billing_ledger_integrity
runs = tt

run-billed_example :
    (verify_usage_ledger_integrity (run fresh calls) ≡ true)
    × (usage_total (run fresh calls) 0 3600000 (some "k") none ≡ 1)
run-billed_example = run-billed 0 3600000 (some "k") calls

counted_all : usage_total (run fresh calls) 0 7200000 none none ≡ 3
unfolding runs
counted_all = refl

abbrev object_hash : Sent → String
object_hash s = s.object_id

abbrev payment : String → BillingEvent
payment object_id = record {
  provider = "stripe";
  event_id = "evt_1";
  event_type = "invoice.paid";
  object_id = object_id;
  customer_ref = "cus_1";
  amount_minor = 500;
  currency = "eur";
  occurred_at = 3;
  received_at = 0;
  event_hash = "";
}

created-once_example :
    (record_billing_event object_hash Events.healthy
      (Events.run object_hash
        (record_billing_event object_hash Events.healthy Events.empty_ledger (payment "in_1") 5).0
        (Events.delivers Events.healthy (payment "in_1") 6 ∷ []))
      (payment "in_2")
      7).1
    ≡ wrote conflict
unfolding runs
created-once_example =
    ap (λ r. r.1)
      (Events.created-once object_hash Events.healthy Events.empty_ledger (payment "in_1")
        (payment "in_2") 5 7 (Events.delivers Events.healthy (payment "in_1") 6 ∷ []) refl refl
        refl)
