-- ===== src/Outbox/Publisher.antt =====
-- crates/easybot-api/src/lib.rs: `publish_outbound_events_once`. The data of what it publishes are the
-- fields of the outbound event; the bus answers with the number of receivers.
use easy_bot.Base.{ℕ, String, Bool, Option, none, some, List, [], ◌∷◌, ◌++◌, if◌then◌else◌, ltb}
use easy_bot.Outbox.Rows.{OutboundEvent}
use easy_bot.Outbox.Journal.{
  Journal, Step, StoreError, sql, select_events, unpublished_outbound_events,
  mark_outbound_event_published,
}

-- What was given to the bus, and to how many receivers.
pub record Publication (V : Type 0) : Type 0 where
  pub event_type : String
  pub event : OutboundEvent V
  pub receivers : ℕ

pub record Outbox (V T : Type 0) : Type 0 where
  pub journal : Journal V T
  pub bus : List (Publication V)

abbrev pub publication : {V : Type 0} → OutboundEvent V → ℕ → Publication V
publication e n = record { event_type = "message.sent"; event = e; receivers = n }

module _ {V T : Type 0} where
  unfoldable pub publish_events :
      (Step → Bool)
      → (OutboundEvent V → ℕ)
      → Outbox V T
      → List (OutboundEvent V)
      → Outbox V T × Option StoreError
  publish_events fault receivers o [] = (o, none)
  publish_events fault receivers o (e ∷ es) =
      let sent : Outbox V T = record o { bus = o.bus ++ publication e (receivers e) ∷ [] } in
      let marked = mark_outbound_event_published fault o.journal e.delivery_id in
      let after : Outbox V T = record sent { journal = marked.0 } in
      let unmarked = publish_events fault receivers sent es in
      let rest = publish_events fault receivers after es in
      if ltb 0 (receivers e)
      then elim marked.1 [ none ↦ rest | some error ↦ (after, some error) ]
      else unmarked

  unfoldable pub publish_outbound_events_once :
      (Step → Bool) → (OutboundEvent V → ℕ) → Outbox V T → Outbox V T × Option StoreError
  unfolding publish_events
  publish_outbound_events_once fault receivers o =
      elim (unpublished_outbound_events fault o.journal 100) [
        | none ↦ (o, some (sql select_events))
        | some events ↦ publish_events fault receivers o events
      ]
