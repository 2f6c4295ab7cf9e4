-- ===== src/Outbox/Rows.antt =====
-- The rows of `outbound_deliveries` in crates/easybot-core/src/storage/sqlite.rs, with the types of
-- storage/mod.rs, and what the statements do to a row.
use easy_bot.Base.{
  ℕ, String, Bool, true, false, not, ◌&&◌, ◌||◌, Option, none, some, List, [], ◌∷◌, map,
  if◌then◌else◌, ltb, ◌==◌, str_eq,
}
use Prim.Native.String.{compare}
use Prim.Native.Nat.{lt, eq, gt}

pub data OutboundDeliveryState : Type 0 where
  succeeded failed : OutboundDeliveryState

-- The column `state`.
pub data State : Type 0 where
  pending : State
  settled : OutboundDeliveryState → State

pub record OutboundDelivery (V : Type 0) : Type 0 where
  pub id : String
  pub actor_id : String
  pub idempotency_key : Option String
  pub platform : String
  pub chat_id : String
  pub request_json : V
  pub created_at : ℕ

pub record Row (V : Type 0) : Type 0 where
  pub delivery : OutboundDelivery V
  pub state : State
  pub result_json : Option V
  pub completed_at : Option ℕ
  pub event_published : Bool
  pub reconciliation_evidence : Option String
  pub reconciled_by : Option String

pub record OutboundEvent (V : Type 0) : Type 0 where
  pub delivery_id : String
  pub platform : String
  pub chat_id : String
  pub state : OutboundDeliveryState
  pub result_json : V
  pub completed_at : ℕ

abbrev pub is_pending : State → Bool
is_pending pending = true
is_pending (settled s) = false

abbrev pub or_zero : Option ℕ → ℕ
or_zero none = 0
or_zero (some t) = t

abbrev pub text_leb : String → String → Bool
text_leb a b = elim (compare a b) [ lt ↦ true | eq ↦ true | gt ↦ false ]

module _ {V : Type 0} where
  abbrev pub has_id : String → Row V → Bool
  has_id id r = str_eq r.delivery.id id

  abbrev pub is_open : String → Row V → Bool
  is_open id r = has_id id r && is_pending r.state

  abbrev pub new_row : OutboundDelivery V → Row V
  new_row d = record {
    delivery = d;
    state = pending;
    result_json = none;
    completed_at = none;
    event_published = false;
    reconciliation_evidence = none;
    reconciled_by = none;
  }

  abbrev pub finalized : OutboundDeliveryState → V → ℕ → Row V → Row V
  finalized s result now r = record r {
    state = settled s;
    result_json = some result;
    completed_at = some now;
  }

  abbrev pub update : (Row V → Bool) → (Row V → Row V) → List (Row V) → List (Row V)
  update p f rows = map (λ r. if p r then f r else r) rows

  abbrev pub is_unpublished : Row V → Bool
  is_unpublished r = not (is_pending r.state) && not r.event_published

  -- A row is read as an event where its columns are there.
  abbrev pub event_of : Row V → State → Option V → Option ℕ → Option (OutboundEvent V)
  event_of r (settled s) (some result) (some t) = some (record {
    delivery_id = r.delivery.id;
    platform = r.delivery.platform;
    chat_id = r.delivery.chat_id;
    state = s;
    result_json = result;
    completed_at = t;
  })
  event_of r _ _ _ = none

  abbrev pub prepend :
      Option (OutboundEvent V) → Option (List (OutboundEvent V)) → Option (List (OutboundEvent V))
  prepend (some e) (some es) = some (e ∷ es)
  prepend _ _ = none

  abbrev pub events_of : List (Row V) → Option (List (OutboundEvent V))
  events_of [] = some []
  events_of (r ∷ rs) = prepend (event_of r r.state r.result_json r.completed_at) (events_of rs)

  -- `ORDER BY completed_at, id`
  abbrev pub earlier : Row V → Row V → Bool
  earlier r s =
      ltb (or_zero r.completed_at) (or_zero s.completed_at)
      || (or_zero r.completed_at == or_zero s.completed_at && text_leb r.delivery.id s.delivery.id)

  unfoldable pub place : Row V → List (Row V) → List (Row V)
  place r [] = r ∷ []
  place r (s ∷ ss) = if earlier r s then r ∷ s ∷ ss else s ∷ place r ss

  unfoldable pub ordered : List (Row V) → List (Row V)
  unfolding place
  ordered [] = []
  ordered (r ∷ rs) = place r (ordered rs)

  abbrev pub is_completed : String → Row V → Bool
  is_completed id r = has_id id r && not (is_pending r.state)

  abbrev pub published : Row V → Row V
  published r = record r { event_published = true }

  abbrev pub reconciled : OutboundDeliveryState → V → String → String → ℕ → Row V → Row V
  reconciled s result evidence by now r = record r {
    state = settled s;
    result_json = some result;
    completed_at = some now;
    reconciliation_evidence = some evidence;
    reconciled_by = some by;
    event_published = false;
  }

  abbrev pub is_open_of : String → String → Row V → Bool
  is_open_of id actor r =
      str_eq r.delivery.id id && str_eq r.delivery.actor_id actor && is_pending r.state

  abbrev pub of_session : String → String → Row V → Bool
  of_session platform chat_id r =
      str_eq r.delivery.platform platform && str_eq r.delivery.chat_id chat_id
