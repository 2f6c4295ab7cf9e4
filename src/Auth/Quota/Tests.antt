-- ===== src/Auth/Quota/Tests.antt =====
-- Runs of a quota of two requests a minute.
use easy_bot.Base.{ℕ, ◌≡◌, refl, true, false, none, some, List, [], ◌∷◌, arith, insert, lookup}
use easy_bot.Auth.Types.{QuotaEvent, AuthDb, ok, new}
use easy_bot.Auth.Quota.{QuotaConsumption, consume_subject_quota, consume_rows, consume_window}
use easy_bot.Auth.Quota.Log.{Request, promised}
use easy_bot.Auth.Quota.Stores.{healthy}
use easy_bot.Auth.Quota.Refinement.{decisions, decisions-promised}
use easy_bot.Auth.Quota.Retry.{refused-retry}

abbrev empty_db : AuthDb
empty_db = record { api_keys = []; transitions = []; quota_events = [] }

abbrev at : ℕ → Request
at now = record { subject_id = "ann"; limit = 2; now = now }

abbrev requests : List Request
requests = at 0 ∷ at 10 ∷ at 20 ∷ at 60005 ∷ at 60006 ∷ []

runs : Unit {0}
unfolding consume_subject_quota consume_rows consume_window new insert lookup promised
runs = tt

two_a_minute : decisions (new (some empty_db)) requests ≡ true ∷ true ∷ false ∷ true ∷ false ∷ []
unfolding runs
two_a_minute = refl

decisions-promised_example :
    (decisions (new none) requests ≡ promised [] requests)
    × (decisions (new (some empty_db)) requests ≡ promised [] requests)
decisions-promised_example =
    decisions-promised empty_db requests refl
      (omega arith, (omega arith, (omega arith, (omega arith, (omega arith, tt)))))

-- Two requests of the last minute, and the decision on a third.
abbrev two_rows : List QuotaEvent
two_rows =
    record { subject_id = "ann"; occurred_at = 0 }
    ∷ record { subject_id = "ann"; occurred_at = 500 }
    ∷ []

abbrev refusal : QuotaConsumption
refusal = record { allowed = false; remaining = 0; retry_after_secs = 59 }

refused-retry_example :
    ((r : List QuotaEvent × QuotaConsumption) × (consume_rows healthy two_rows "ann" 2 60500 ≡ ok r)
      × (r.1.allowed ≡ true))
    × ((consume_window (consume_window (0 ∷ 500 ∷ []) 2 1500).0 2 60500).1.allowed ≡ true)
unfolding runs
refused-retry_example =
    refused-retry two_rows two_rows refusal "ann" (0 ∷ 500 ∷ []) 2 1500 60500 (omega arith) refl
      refl (omega arith) (omega arith) refl (omega arith) (omega arith, (omega arith, tt))
      (omega arith)
