-- ===== src/Outbox/Journal.antt =====
-- crates/easybot-core/src/storage/sqlite.rs: preparing, finalizing, reconciling and deleting outbound
-- deliveries. A statement or a transaction that fails changes nothing.
use easy_bot.Base.{
  ℕ, min, String, Bool, true, false, not, ◌&&◌, Option, none, some, List, [], ◌∷◌, ◌++◌,
  if◌then◌else◌, ltb, ◌==◌, any, count, retain, take,
}
use easy_bot.Persist.Persister.{insert_or_ignore}
use easy_bot.Outbox.Rows.{
  OutboundDeliveryState, OutboundDelivery, Row, OutboundEvent, has_id, is_open, new_row, finalized,
  update, is_unpublished, events_of, ordered, is_completed, published, reconciled, is_open_of,
  of_session,
}

pub record Journal (V T : Type 0) : Type 0 where
  pub deliveries : List (Row V)
  pub messages : List (String × T)

pub data Step : Type 0 where
  begin insert_delivery insert_message update_delivery commit select_events mark_event delete_rows :
      Step

pub data StoreError : Type 0 where
  sql : Step → StoreError
  duplicate_id already_finalized not_found : StoreError

module _ {T : Type 0} where
  abbrev pub with_message : Option (String × T) → List (String × T) → List (String × T)
  with_message none rows = rows
  with_message (some m) rows = insert_or_ignore rows m

  abbrev pub is_given : Option (String × T) → Bool
  is_given none = false
  is_given (some m) = true

module _ {V T : Type 0} where
  -- `id` is the primary key.
  unfoldable pub prepare_outbound_delivery :
      (Step → Bool) → Journal V T → OutboundDelivery V → Journal V T × Option StoreError
  prepare_outbound_delivery fault j d =
      if fault insert_delivery
      then (j, some (sql insert_delivery))
      else if any (has_id d.id) j.deliveries
      then (j, some duplicate_id)
      else (record j { deliveries = j.deliveries ++ new_row d ∷ [] }, none)

  unfoldable pub finalize_outbound_delivery :
      (Step → Bool)
      → Journal V T
      → String
      → OutboundDeliveryState
      → V
      → Option (String × T)
      → ℕ
      → Journal V T × Option StoreError
  finalize_outbound_delivery fault j id s result message now =
      if fault begin
      then (j, some (sql begin))
      else if is_given message && fault insert_message
      then (j, some (sql insert_message))
      else if fault update_delivery
      then (j, some (sql update_delivery))
      else if not (count (is_open id) j.deliveries == 1)
      then (j, some already_finalized)
      else if fault commit
      then (j, some (sql commit))
      else (
        record {
          deliveries = update (is_open id) (finalized s result now) j.deliveries;
          messages = with_message message j.messages;
        },
        none,
      )

  -- `none` is a query that fails.
  unfoldable pub unpublished_outbound_events :
      (Step → Bool) → Journal V T → ℕ → Option (List (OutboundEvent V))
  unfolding ordered
  unpublished_outbound_events fault j limit =
      if fault select_events
      then none
      else events_of (take (min limit 1000) (ordered (retain is_unpublished j.deliveries)))

  unfoldable pub mark_outbound_event_published :
      (Step → Bool) → Journal V T → String → Journal V T × Option StoreError
  mark_outbound_event_published fault j id =
      if fault mark_event
      then (j, some (sql mark_event))
      else if count (is_completed id) j.deliveries == 1
      then (record j { deliveries = update (is_completed id) published j.deliveries }, none)
      else (
        record j { deliveries = update (is_completed id) published j.deliveries },
        some not_found,
      )

  -- `manual` is the result with `manually_reconciled` and the state.
  unfoldable pub reconcile_outbound_delivery :
      (OutboundDeliveryState → V)
      → (Step → Bool)
      → Journal V T
      → String
      → String
      → OutboundDeliveryState
      → String
      → String
      → ℕ
      → Journal V T × Option Bool
  reconcile_outbound_delivery manual fault j id actor s evidence by now =
      if fault update_delivery then (j, none) else (
        record j {
          deliveries =
              update (is_open_of id actor) (reconciled s (manual s) evidence by now) j.deliveries;
        },
        some (count (is_open_of id actor) j.deliveries == 1),
      )

  unfoldable pub delete_outbound_deliveries_by_session :
      (Step → Bool) → Journal V T → String → String → Journal V T × Option ℕ
  delete_outbound_deliveries_by_session fault j platform chat_id =
      if fault delete_rows then (j, none) else (
        record j { deliveries = retain (λ r. not (of_session platform chat_id r)) j.deliveries },
        some (count (of_session platform chat_id) j.deliveries),
      )

  unfoldable pub delete_expired_outbound_deliveries :
      (Step → Bool) → Journal V T → ℕ → Journal V T × Option ℕ
  delete_expired_outbound_deliveries fault j before = if fault delete_rows then (j, none) else (
    record j { deliveries = retain (λ r. not (ltb r.delivery.created_at before)) j.deliveries },
    some (count (λ r. ltb r.delivery.created_at before) j.deliveries),
  )
