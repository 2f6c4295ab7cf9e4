-- ===== src/Auth/Ledger/Usage.antt =====
-- crates/easybot-core/src/auth/api_key/billing.rs: `record_usage`, `usage_total` and
-- `verify_usage_ledger_integrity`. The tables `api_usage_hourly` and `api_usage_integrity` hold one row
-- for each key, hour and status class.
use easy_bot.Base.{
  ℕ, suc, ◌+◌, ◌-◌, ◌/◌, ◌%◌, min, max, String, Bool, true, false, ◌&&◌, Option, none, some, List,
  [], ◌∷◌, if◌then◌else◌, leb, ltb, ◌==◌, str_eq, all, any, retain,
}

pub record UsageRecord : Type 0 where
  pub key_id : String
  pub subject_id : String
  pub bucket_start : ℕ
  pub status_class : ℕ
  pub request_count : ℕ

pub record UsageLedger : Type 0 where
  pub hourly : List UsageRecord
  pub integrity : List UsageRecord
  pub total_requests : Option ℕ
  pub metering_healthy : Bool

pub data UsageStep : Type 0 where
  begin insert_hourly insert_integrity update_total commit : UsageStep

pub data UsageError : Type 0 where
  sql : UsageStep → UsageError
  anchor_missing : UsageError

abbrev pub hour_ms : ℕ
hour_ms = 3600000

abbrev pub bucket_of : ℕ → ℕ
bucket_of now = now - now % hour_ms

abbrev pub class_of : ℕ → ℕ
class_of status = min (max (status / 100) 1) 5

abbrev pub same_bucket : String → ℕ → ℕ → UsageRecord → Bool
same_bucket key_id bucket class r =
    str_eq r.key_id key_id && r.bucket_start == bucket && r.status_class == class

-- `ON CONFLICT … DO UPDATE SET request_count = request_count + 1, subject_id = excluded.subject_id`
unfoldable pub count_request : String → String → ℕ → ℕ → List UsageRecord → List UsageRecord
count_request key_id subject_id bucket class [] =
    record {
      key_id = key_id;
      subject_id = subject_id;
      bucket_start = bucket;
      status_class = class;
      request_count = 1;
    }
    ∷ []
count_request key_id subject_id bucket class (r ∷ rs) =
    let rest = count_request key_id subject_id bucket class rs in
    if same_bucket key_id bucket class r
    then record r { subject_id = subject_id; request_count = suc r.request_count } ∷ rs
    else r ∷ rest

abbrev pub fails : UsageError → UsageLedger → UsageLedger × Option UsageError
fails e l = (record l { metering_healthy = false }, some e)

-- A transaction: an error leaves the tables as they were, and marks the metering.
unfoldable pub record_usage :
    (UsageStep → Bool) → UsageLedger → String → String → ℕ → ℕ → UsageLedger × Option UsageError
record_usage fault l key_id subject_id status now =
    let counted = count_request key_id subject_id (bucket_of now) (class_of status) in
    if fault begin
    then fails (sql begin) l
    else if fault insert_hourly
    then fails (sql insert_hourly) l
    else if fault insert_integrity
    then fails (sql insert_integrity) l
    else if fault update_total
    then fails (sql update_total) l
    else elim (l.total_requests) [
      | none ↦ fails anchor_missing l
      | some total ↦ if fault commit then fails (sql commit) l else (
        record {
          hourly = counted l.hourly;
          integrity = counted l.integrity;
          total_requests = some (suc total);
          metering_healthy = true;
        },
        none,
      )
    ]

abbrev pub same_row : UsageRecord → UsageRecord → Bool
same_row r s =
    str_eq r.key_id s.key_id
    && str_eq r.subject_id s.subject_id
    && r.bucket_start == s.bucket_start
    && r.status_class == s.status_class
    && r.request_count == s.request_count

-- `EXCEPT` leaves nothing: every row of the first table is one of the second.
abbrev pub covered : List UsageRecord → List UsageRecord → Bool
covered rs ss = all (λ r. any (same_row r) ss) rs

abbrev pub sum : List UsageRecord → ℕ
sum [] = 0
sum (r ∷ rs) = r.request_count + sum rs

abbrev pub matches : ℕ → Option ℕ → Bool
matches actual none = false
matches actual (some anchor) = actual == anchor

unfoldable pub verify_usage_ledger_integrity : UsageLedger → Bool
verify_usage_ledger_integrity l =
    covered l.hourly l.integrity
    && covered l.integrity l.hourly
    && matches (sum l.hourly) l.total_requests

-- The requests of the hours in a range, of one key, or of one subject, or of all.
abbrev pub selects : ℕ → ℕ → Option String → Option String → UsageRecord → Bool
selects from to (some key_id) subject_id r =
    leb from r.bucket_start && ltb r.bucket_start to && str_eq r.key_id key_id
selects from to none (some subject_id) r =
    leb from r.bucket_start && ltb r.bucket_start to && str_eq r.subject_id subject_id
selects from to none none r = leb from r.bucket_start && ltb r.bucket_start to

unfoldable pub usage_total : UsageLedger → ℕ → ℕ → Option String → Option String → ℕ
usage_total l from to key_id subject_id = sum (retain (selects from to key_id subject_id) l.hourly)
