-- ===== src/Auth/Idempotency.antt =====
-- crates/easybot-core/src/auth/api_key/billing.rs: `reserve_idempotency` and `complete_idempotency`, on
-- the rows of `api_idempotency`, of which the primary key allows one for each pair of keys.
mod Once
mod Replay
mod Tests
use easy_bot.Base.{
  ℕ, ◌+◌, String, Bool, true, false, not, ◌&&◌, Option, none, some, List, [], ◌∷◌, ◌++◌, map,
  if◌then◌else◌, leb, find, retain, count, ◌==◌, str_eq,
}

pub data RowState : Type 0 where
  pending completed : RowState

pub record IdempotencyRow : Type 0 where
  pub key_id : String
  pub idempotency_key : String
  pub request_hash : String
  pub state : RowState
  pub http_status : Option ℕ
  pub response_json : Option String
  pub created_at : ℕ
  pub expires_at : ℕ

pub data IdempotencyReservation : Type 0 where
  acquired in_progress conflict : IdempotencyReservation
  replay : ℕ → String → IdempotencyReservation

pub data IdempotencyStep : Type 0 where
  begin purge insert_row commit select_row update_row : IdempotencyStep

pub data Outcome (T : Type 0) : Type 0 where
  ok : T → Outcome T
  failed : IdempotencyStep → Outcome T
  not_pending : Outcome T

abbrev pub lifetime_ms : ℕ
lifetime_ms = 86400000

abbrev pub has_keys : String → String → IdempotencyRow → Bool
has_keys key_id idempotency_key r =
    str_eq r.key_id key_id && str_eq r.idempotency_key idempotency_key

abbrev pub is_pending : RowState → Bool
is_pending pending = true
is_pending completed = false

abbrev pub or_status : Option ℕ → ℕ
or_status none = 500
or_status (some status) = status

abbrev pub or_json : Option String → String
or_json none = "{}"
or_json (some json) = json

abbrev pub reservation_of : IdempotencyRow → String → IdempotencyReservation
reservation_of r request_hash =
    if str_eq r.request_hash request_hash
    then (if is_pending r.state
        then in_progress
        else replay (or_status r.http_status) (or_json r.response_json))
    else conflict

abbrev pub purged : ℕ → List IdempotencyRow → List IdempotencyRow
purged now rows = retain (λ r. not (leb r.expires_at now)) rows

-- `INSERT OR IGNORE`, and the select where the row is there already. An error rolls back.
unfoldable pub reserve_idempotency :
    (IdempotencyStep → Bool)
    → List IdempotencyRow
    → String
    → String
    → String
    → ℕ
    → List IdempotencyRow × Outcome IdempotencyReservation
reserve_idempotency fault rows key_id idempotency_key request_hash now =
    let kept = purged now rows in
    let row : IdempotencyRow = record {
      key_id = key_id;
      idempotency_key = idempotency_key;
      request_hash = request_hash;
      state = pending;
      http_status = none;
      response_json = none;
      created_at = now;
      expires_at = now + lifetime_ms;
    } in
    if fault begin
    then (rows, failed begin)
    else if fault purge
    then (rows, failed purge)
    else if fault insert_row
    then (rows, failed insert_row)
    else elim (find (has_keys key_id idempotency_key) kept) [
      | none ↦ if fault commit then (rows, failed commit) else (kept ++ row ∷ [], ok acquired)
      | some r ↦
          if fault select_row
          then (rows, failed select_row)
          else if fault commit
          then (rows, failed commit)
          else (kept, ok (reservation_of r request_hash))
    ]

abbrev pub is_open : String → String → String → IdempotencyRow → Bool
is_open key_id idempotency_key request_hash r =
    has_keys key_id idempotency_key r && str_eq r.request_hash request_hash && is_pending r.state

abbrev pub completes : ℕ → String → IdempotencyRow → IdempotencyRow
completes status response_json r = record r {
  state = completed;
  http_status = some status;
  response_json = some response_json;
}

unfoldable pub complete_idempotency :
    (IdempotencyStep → Bool)
    → List IdempotencyRow
    → String
    → String
    → String
    → ℕ
    → String
    → List IdempotencyRow × Outcome (Unit {0})
complete_idempotency fault rows key_id idempotency_key request_hash status response_json =
    let opens = is_open key_id idempotency_key request_hash in
    let updated =
      map (λ (r : IdempotencyRow). if opens r then completes status response_json r else r) rows in
    if fault update_row
    then (rows, failed update_row)
    else (updated, if count opens rows == 1 then ok tt else not_pending)
