-- ===== src/Outbox/Calls.antt =====
-- Sequences of calls on the journal and rounds of its publisher.
use easy_bot.Base.{ℕ, String, Bool, Option, List, [], ◌∷◌}
use easy_bot.Outbox.Rows.{OutboundDeliveryState, OutboundDelivery, OutboundEvent}
use easy_bot.Outbox.Journal.{
  Step, prepare_outbound_delivery, finalize_outbound_delivery, reconcile_outbound_delivery,
  delete_outbound_deliveries_by_session, delete_expired_outbound_deliveries,
}
use easy_bot.Outbox.Publisher.{Outbox, publish_outbound_events_once}

pub data Call (V T : Type 0) : Type 0 where
  prepares : (Step → Bool) → OutboundDelivery V → Call V T
  finalizes :
      (Step → Bool) → String → OutboundDeliveryState → V → Option (String × T) → ℕ → Call V T
  reconciles :
      (Step → Bool) → String → String → OutboundDeliveryState → String → String → ℕ → Call V T
  deletes_session : (Step → Bool) → String → String → Call V T
  deletes_expired : (Step → Bool) → ℕ → Call V T
  publishes : (Step → Bool) → (OutboundEvent V → ℕ) → Call V T

module _ {V T : Type 0} (manual : OutboundDeliveryState → V) where
  abbrev pub step : Outbox V T → Call V T → Outbox V T
  step o (prepares fault d) = record o { journal = (prepare_outbound_delivery fault o.journal d).0 }
  step o (finalizes fault id s v message now) = record o {
    journal = (finalize_outbound_delivery fault o.journal id s v message now).0;
  }
  step o (reconciles fault id actor s evidence by now) = record o {
    journal = (reconcile_outbound_delivery manual fault o.journal id actor s evidence by now).0;
  }
  step o (deletes_session fault platform chat_id) = record o {
    journal = (delete_outbound_deliveries_by_session fault o.journal platform chat_id).0;
  }
  step o (deletes_expired fault before) = record o {
    journal = (delete_expired_outbound_deliveries fault o.journal before).0;
  }
  step o (publishes fault receivers) = (publish_outbound_events_once fault receivers o).0

  abbrev pub run : Outbox V T → List (Call V T) → Outbox V T
  run o [] = o
  run o (c ∷ cs) = run (step o c) cs
