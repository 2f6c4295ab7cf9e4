-- ===== src/Auth/Ledger/Billing.antt =====
-- crates/easybot-core/src/auth/api_key/billing.rs: `record_billing_event` and
-- `verify_billing_ledger_integrity`. The hash is a parameter; it covers what the provider sent, and not
-- when it was received.
use easy_bot.Base.{
  ℕ, suc, String, Bool, false, ◌&&◌, Option, none, some, List, [], ◌∷◌, ◌++◌, if◌then◌else◌, ◌==◌,
  str_eq, all, find, length,
}

pub record BillingEvent : Type 0 where
  pub provider : String
  pub event_id : String
  pub event_type : String
  pub object_id : String
  pub customer_ref : String
  pub amount_minor : ℕ
  pub currency : String
  pub occurred_at : ℕ
  pub received_at : ℕ
  pub event_hash : String

pub record Sent : Type 0 where
  pub provider : String
  pub event_id : String
  pub event_type : String
  pub object_id : String
  pub customer_ref : String
  pub amount_minor : ℕ
  pub currency : String
  pub occurred_at : ℕ

pub record BillingLedger : Type 0 where
  pub events : List BillingEvent
  pub event_count : Option ℕ

pub data BillingEventWrite : Type 0 where
  created duplicate conflict : BillingEventWrite

pub data BillingStep : Type 0 where
  begin insert_event update_count select_event commit : BillingStep

pub data Written : Type 0 where
  wrote : BillingEventWrite → Written
  failed : BillingStep → Written
  anchor_missing : Written

abbrev pub sent : BillingEvent → Sent
sent e = record {
  provider = e.provider;
  event_id = e.event_id;
  event_type = e.event_type;
  object_id = e.object_id;
  customer_ref = e.customer_ref;
  amount_minor = e.amount_minor;
  currency = e.currency;
  occurred_at = e.occurred_at;
}

-- The primary key.
abbrev pub same_event : BillingEvent → BillingEvent → Bool
same_event e f = str_eq f.provider e.provider && str_eq f.event_id e.event_id

module _ (billing_hash : Sent → String) where
  abbrev pub received : BillingEvent → ℕ → BillingEvent
  received given now = record given { received_at = now; event_hash = billing_hash (sent given) }

  -- `INSERT OR IGNORE`; an error rolls back.
  unfoldable pub record_billing_event :
      (BillingStep → Bool) → BillingLedger → BillingEvent → ℕ → BillingLedger × Written
  record_billing_event fault l given now =
      let event = received given now in
      if fault begin
      then (l, failed begin)
      else if fault insert_event
      then (l, failed insert_event)
      else elim (find (same_event event) l.events) [
        | none ↦ if fault update_count then (l, failed update_count) else elim (l.event_count) [
          | none ↦ (l, anchor_missing)
          | some n ↦ if fault commit then (l, failed commit) else (
            record { events = l.events ++ event ∷ []; event_count = some (suc n) },
            wrote created,
          )
        ]
        | some existing ↦
            if fault select_event
            then (l, failed select_event)
            else if fault commit
            then (l, failed commit)
            else (
              l,
              wrote (if str_eq existing.event_hash event.event_hash then duplicate else conflict),
            )
      ]

  abbrev pub is_intact : BillingEvent → Bool
  is_intact e = str_eq (billing_hash (sent e)) e.event_hash

  unfoldable pub verify_billing_event_integrity : List BillingEvent → Bool
  verify_billing_event_integrity events = all is_intact events

  abbrev pub counted : ℕ → Option ℕ → Bool
  counted n none = false
  counted n (some count) = count == n

  unfoldable pub verify_billing_ledger_integrity : BillingLedger → Bool
  verify_billing_ledger_integrity l =
      all is_intact l.events && counted (length l.events) l.event_count
