-- ===== src/Auth/Quota.antt =====
-- crates/easybot-core/src/auth/api_key/keys.rs: `consume_subject_quota`, on the table
-- `api_quota_events` and on the windows in memory. Times are milliseconds; those of the memory are
-- of a clock that does not run backwards.
mod Log
mod Stores
mod Refinement
mod Delay
mod Retry
mod Tests
use easy_bot.Base.{
  ℕ, suc, ◌+◌, ◌-◌, ◌*◌, ◌/◌, max, String, Bool, true, false, not, Option, none, some, List, [],
  ◌∷◌, ◌++◌, if◌then◌else◌, leb, ltb, length, count, retain, lookup, insert, str_eq,
}
use easy_bot.Auth.Types.{
  QuotaEvent, ApiKeyManager, AuthDb, DbStep, acquire, begin, purge_quota, count_quota, insert_quota,
  commit, Result, ok, err, ◌>>=◌, ◌>>◌, run_sql,
}

pub record QuotaConsumption : Type 0 where
  pub allowed : Bool
  pub remaining : ℕ
  pub retry_after_secs : ℕ

abbrev pub window_ms : ℕ
window_ms = 60000

-- `occurred_at <= now - WINDOW_MS`, in whole numbers.
abbrev pub is_old : ℕ → QuotaEvent → Bool
is_old now e = leb (e.occurred_at + window_ms) now

abbrev pub of_subject : String → QuotaEvent → Bool
of_subject subject_id e = str_eq e.subject_id subject_id

-- `MIN(occurred_at)` of the rows of a subject.
abbrev pub earlier : Option ℕ → ℕ → Option ℕ
earlier none t = some t
earlier (some o) t = some (if ltb t o then t else o)

abbrev pub oldest : String → List QuotaEvent → Option ℕ
oldest subject_id [] = none
oldest subject_id (e ∷ es) =
    let rest = oldest subject_id es in
    if of_subject subject_id e then earlier rest e.occurred_at else rest

-- `(WINDOW_MS - (now - oldest)).max(1).div_ceil(1000)`, or 60, and at least 1.
abbrev pub retry_after : Option ℕ → ℕ → ℕ
retry_after none now = 60
retry_after (some o) now = max ((max ((window_ms + o) - now) 1 + 999) / 1000) 1

abbrev pub or_some : Option ℕ → ℕ → Option ℕ
or_some none t = some t
or_some (some o) t = some o

-- The transaction on the rows: the rows after it, and the decision.
unfoldable pub consume_rows :
    (DbStep → Bool) → List QuotaEvent → String → ℕ → ℕ → Result (List QuotaEvent × QuotaConsumption)
consume_rows fault rows subject_id limit now = do
  run_sql fault acquire
  run_sql fault begin
  run_sql fault purge_quota
  run_sql fault count_quota
  let kept = retain (λ e. not (is_old now e)) rows in
      let found = count (of_subject subject_id) kept in
      let first = oldest subject_id kept in
      if leb limit found
      then run_sql fault commit
        >> ok (
          kept,
          record { allowed = false; remaining = 0; retry_after_secs = retry_after first now },
        )
      else run_sql fault insert_quota
        >> run_sql fault commit
        >> ok (
          kept ++ record { subject_id = subject_id; occurred_at = now } ∷ [],
          record {
            allowed = true;
            remaining = limit - suc found;
            retry_after_secs = retry_after (or_some first now) now;
          },
        )

-- `as_secs() >= 60`, from the front.
abbrev pub pop_old : ℕ → List ℕ → List ℕ
pop_old now [] = []
pop_old now (t ∷ ts) = if leb 60 ((now - t) / 1000) then pop_old now ts else t ∷ ts

abbrev pub seconds_left : ℕ → List ℕ → ℕ
seconds_left now [] = 60
seconds_left now (t ∷ ts) = max (60 - (now - t) / 1000) 1

unfoldable pub consume_window : List ℕ → ℕ → ℕ → List ℕ × QuotaConsumption
consume_window timestamps limit now =
    let kept = pop_old now timestamps in
    if leb limit (length kept)
    then (kept, record { allowed = false; remaining = 0; retry_after_secs = seconds_left now kept })
    else (
      kept ++ now ∷ [],
      record {
        allowed = true;
        remaining = limit - length (kept ++ now ∷ []);
        retry_after_secs = 60;
      },
    )

abbrev pub or_empty : Option (List ℕ) → List ℕ
or_empty none = []
or_empty (some ts) = ts

abbrev pub window_of : String → List (String × List ℕ) → List ℕ
window_of subject_id windows = or_empty (lookup subject_id windows)

-- A failed transaction is rolled back.
unfoldable pub consume_subject_quota :
    (DbStep → Bool) → ApiKeyManager → String → ℕ → ℕ → ApiKeyManager × Result QuotaConsumption
unfolding consume_rows consume_window
consume_subject_quota fault m subject_id limit now = elim m.pool [
  | some db ↦ elim (consume_rows fault db.quota_events subject_id limit now) [
    | ok r ↦ (record m { pool = some (record db { quota_events = r.0 }) }, ok r.1)
    | err e ↦ (m, err e)
  ]
  | none ↦
      let (window, decision) = consume_window (window_of subject_id m.quota_windows) limit now in
      (record m { quota_windows = insert subject_id window m.quota_windows }, ok decision)
]
