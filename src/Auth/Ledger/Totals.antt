-- ===== src/Auth/Ledger/Totals.antt =====
-- crates/easybot-core/src/auth/api_key/billing.rs: what the usage ledger holds after any requests.
use easy_bot.Base.{
  ℕ, suc, ◌+◌, ◌≡◌, refl, sym, ap, ◌∙◌, inl, inr, ◌⊎◌, String, Bool, true, false, not, ◌&&◌, ◌||◌,
  Option, none, some, List, [], ◌∷◌, if◌then◌else◌, leb, ltb, str_eq, all, any, retain, arith,
  Bool-cases, eq_iff,
}
use easy_bot.Auth.Ledger.Usage.{
  UsageRecord, UsageLedger, UsageStep, begin, insert_hourly, insert_integrity, update_total, commit,
  bucket_of, class_of, same_bucket, count_request, record_usage, same_row, covered, sum,
  verify_usage_ledger_integrity, selects, usage_total,
}

pub data Call : Type 0 where
  requested : (UsageStep → Bool) → String → String → ℕ → ℕ → Call

abbrev pub step : UsageLedger → Call → UsageLedger
step l (requested fault key_id subject_id status now) =
    (record_usage fault l key_id subject_id status now).0

abbrev pub run : UsageLedger → List Call → UsageLedger
run l [] = l
run l (c ∷ cs) = run (step l c) cs

abbrev pub fresh : UsageLedger
fresh = record { hourly = []; integrity = []; total_requests = some 0; metering_healthy = true }

-- None of the five statements of the transaction fails.
abbrev pub recorded : (UsageStep → Bool) → Bool
recorded fault = not (
    fault begin
    || fault insert_hourly
    || fault insert_integrity
    || fault update_total
    || fault commit)

abbrev pub is_key : Option String → String → Bool
is_key none key_id = true
is_key (some k) key_id = str_eq key_id k

-- The recorded requests of the hours in a range, of one key or of all.
abbrev pub billed : ℕ → ℕ → Option String → List Call → ℕ
billed from to k [] = 0
billed from to k (requested fault key_id subject_id status now ∷ cs) =
    if recorded fault && leb from (bucket_of now) && ltb (bucket_of now) to && is_key k key_id
    then suc (billed from to k cs)
    else billed from to k cs

-- The tables agree, and the anchor is the sum of the counts.
abbrev Balanced : UsageLedger → Type 0
Balanced l = (l.hourly ≡ l.integrity) × (l.total_requests ≡ some (sum l.hourly))

abbrev accounted : (UsageRecord → Bool) → Bool → List UsageRecord → ℕ
accounted p b rows = if b then suc (sum (retain p rows)) else sum (retain p rows)

abbrev chosen : ℕ → ℕ → Option String → String → ℕ → Bool
chosen from to k key_id bucket = leb from bucket && ltb bucket to && is_key k key_id

abbrev in_range : ℕ → ℕ → Option String → UsageRecord → Bool
in_range from to k r = chosen from to k r.key_id r.bucket_start

same-chosen :
    (from to : ℕ) (k : Option String) (key_id : String) (bucket class : ℕ) (r : UsageRecord)
    → same_bucket key_id bucket class r ≡ true
    → in_range from to k r ≡ chosen from to k key_id bucket
same-chosen from to k key_id bucket class r h =
    let key : r.key_id ≡ key_id = ground (arith, h, eq_iff r.key_id key_id) in
    let hour : r.bucket_start ≡ bucket = ground (arith, h) in rw (key, hour) refl

sum-count_request :
    (from to : ℕ) (k : Option String) (key_id subject_id : String) (bucket class : ℕ)
    (rows : List UsageRecord)
    → sum (retain (in_range from to k) (count_request key_id subject_id bucket class rows))
      ≡ accounted (in_range from to k) (chosen from to k key_id bucket) rows
unfolding count_request
sum-count_request from to k key_id subject_id bucket class [] =
    elim (Bool-cases (chosen from to k key_id bucket)) [
      | inl e ↦ rw (e, count_request) refl
      | inr e ↦ rw (e, count_request) refl
    ]
sum-count_request from to k key_id subject_id bucket class (r ∷ rs) =
    elim (Bool-cases (same_bucket key_id bucket class r)) [
      | inl e ↦ rw e (ground (arith, same-chosen from to k key_id bucket class r e))
      | inr e ↦ rw e (ground (arith, sum-count_request from to k key_id subject_id bucket class rs))
    ]

sum-all :
    (key_id subject_id : String) (bucket class : ℕ) (rows : List UsageRecord)
    → sum (count_request key_id subject_id bucket class rows) ≡ suc (sum rows)
unfolding count_request
sum-all key_id subject_id bucket class [] = refl
sum-all key_id subject_id bucket class (r ∷ rs) =
    ground (arith, sum-all key_id subject_id bucket class rs)

-- A recorded request is counted in both tables and the anchor; any other leaves them.
record-cases :
    (fault : UsageStep → Bool) (l : UsageLedger) (key_id subject_id : String) (status now total : ℕ)
    → l.total_requests ≡ some total
    → ((recorded fault ≡ true)
        × ((record_usage fault l key_id subject_id status now).0 ≡ record {
          hourly = count_request key_id subject_id (bucket_of now) (class_of status) l.hourly;
          integrity = count_request key_id subject_id (bucket_of now) (class_of status) l.integrity;
          total_requests = some (suc total);
          metering_healthy = true;
        }))
      ⊎ ((recorded fault ≡ false)
          × ((record_usage fault l key_id subject_id status now).0
              ≡ record l { metering_healthy = false }))
unfolding record_usage
record-cases fault l key_id subject_id status now total t = elim (Bool-cases (fault begin)) [
  | inl a ↦ rw (a, record_usage) (inr (refl, refl))
  | inr a ↦ elim (Bool-cases (fault insert_hourly)) [
    | inl b ↦ rw (a, b, record_usage) (inr (refl, refl))
    | inr b ↦ elim (Bool-cases (fault insert_integrity)) [
      | inl c ↦ rw (a, b, c, record_usage) (inr (refl, refl))
      | inr c ↦ elim (Bool-cases (fault update_total)) [
        | inl d ↦ rw (a, b, c, d, record_usage) (inr (refl, refl))
        | inr d ↦ elim (Bool-cases (fault commit)) [
          | inl e ↦ rw (a, b, c, d, t, e, record_usage) (inr (refl, cc t))
          | inr e ↦ rw (a, b, c, d, t, e, record_usage) (inl (refl, refl))
        ]
      ]
    ]
  ]
]

abbrev total_of : ℕ → ℕ → Option String → UsageLedger → ℕ
total_of from to k l = sum (retain (in_range from to k) l.hourly)

step-Balanced : (l : UsageLedger) (c : Call) → Balanced l → Balanced (step l c)
step-Balanced l (requested fault key_id subject_id status now) (same, total) =
    elim (record-cases fault l key_id subject_id status now (sum l.hourly) total) [
      | inl (_, e) ↦ rw e (
        ap (count_request key_id subject_id (bucket_of now) (class_of status)) same,
        ap some (sym (sum-all key_id subject_id (bucket_of now) (class_of status) l.hourly)),
      )
      | inr (_, e) ↦ rw e (same, total)
    ]

step-total :
    (from to : ℕ) (k : Option String) (l : UsageLedger) (fault : UsageStep → Bool)
    (key_id subject_id : String) (status now : ℕ)
    → Balanced l
    → total_of from to k (step l (requested fault key_id subject_id status now)) ≡ (
        if recorded fault && chosen from to k key_id (bucket_of now)
        then suc (total_of from to k l)
        else total_of from to k l)
step-total from to k l fault key_id subject_id status now b =
    elim (record-cases fault l key_id subject_id status now (sum l.hourly) b.1) [
      | inl (r, e) ↦
          rw (r, e)
            (sum-count_request from to k key_id subject_id (bucket_of now) (class_of status)
              l.hourly)
      | inr (r, e) ↦ rw (r, e) refl
    ]

run-total :
    (from to : ℕ) (k : Option String) (l : UsageLedger) (cs : List Call)
    → Balanced l
    → Balanced (run l cs)
      × (total_of from to k (run l cs) ≡ total_of from to k l + billed from to k cs)
run-total from to k l [] b = (b, omega arith)
run-total from to k l (requested fault key_id subject_id status now ∷ cs) b =
    let c = requested fault key_id subject_id status now in
    let (kept, sums) = run-total from to k (step l c) cs (step-Balanced l c b) in
    (kept, ground (arith, sums, step-total from to k l fault key_id subject_id status now b))

all_mono :
    (p q : UsageRecord → Bool) (rows : List UsageRecord)
    → ((r : UsageRecord) → p r ≡ true → q r ≡ true)
    → all p rows ≡ true
    → all q rows ≡ true
all_mono p q [] f h = refl
all_mono p q (r ∷ rows) f h =
    ground (arith, f r (ground (arith, h)), all_mono p q rows f (ground (arith, h)))

same_row_refl : (r : UsageRecord) → same_row r r ≡ true
same_row_refl r = ground (arith, eq_iff r.key_id r.key_id, eq_iff r.subject_id r.subject_id)

covered_refl : (rows : List UsageRecord) → covered rows rows ≡ true
covered_refl [] = refl
covered_refl (r ∷ rows) =
    let rest : all (λ s. any (same_row s) (r ∷ rows)) rows ≡ true =
      all_mono (λ s. any (same_row s) rows) (λ s. any (same_row s) (r ∷ rows)) rows
        (λ s h. ground (arith, h)) (covered_refl rows) in
    ground (arith, rest, same_row_refl r)

Balanced-verify : (l : UsageLedger) → Balanced l → verify_usage_ledger_integrity l ≡ true
unfolding verify_usage_ledger_integrity
Balanced-verify l (same, total) = rw (sym same, total) (ground (arith, covered_refl l.hourly))

selects-in_range :
    (from to : ℕ) (k : Option String) (r : UsageRecord)
    → selects from to k none r ≡ in_range from to k r
selects-in_range from to none r = ground arith
selects-in_range from to (some key_id) r = refl

retain-selects :
    (from to : ℕ) (k : Option String) (rows : List UsageRecord)
    → retain (selects from to k none) rows ≡ retain (in_range from to k) rows
retain-selects from to k [] = refl
retain-selects from to k (r ∷ rows) =
    rw (selects-in_range from to k r, retain-selects from to k rows) refl

-- After any requests with any failures the ledger passes its verification, and the total of any
-- hours, of one key or of all keys, is the number of the requests that were recorded for it.
pub run-billed :
    (from to : ℕ) (k : Option String) (cs : List Call)
    → (verify_usage_ledger_integrity (run fresh cs) ≡ true)
      × (usage_total (run fresh cs) from to k none ≡ billed from to k cs)
unfolding usage_total
run-billed from to k cs =
    let (kept, sums) = run-total from to k fresh cs (refl, refl) in
    (
      Balanced-verify (run fresh cs) kept,
      ap sum (retain-selects from to k (run fresh cs).hourly) ∙ sums ∙ omega arith,
    )
