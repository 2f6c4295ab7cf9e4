-- ===== src/Auth/Quota/Delay.antt =====
-- `consume_subject_quota` on the rows of the database: what the delay of a refused request is worth.
use easy_bot.Base.{
  ℕ, suc, ◌+◌, ◌*◌, ◌≤◌, ◌<◌, ◌≡◌, refl, sym, ap, ◌∙◌, ◌-◌, String, true, false, not, none, some,
  List, [], ◌∷◌, ◌++◌, leb, count, retain, arith, Bool-cases, Option-cases, inl, inr,
}
use easy_bot.Auth.Types.{QuotaEvent, ok}
use easy_bot.Auth.Quota.{
  QuotaConsumption, is_old, of_subject, oldest, retry_after, or_some, consume_rows,
}
use easy_bot.Auth.Quota.Stores.{healthy}

abbrev young_rows : ℕ → List QuotaEvent → List QuotaEvent
young_rows now rows = retain (λ e. not (is_old now e)) rows

count-young_rows-le :
    (subject : String) (now : ℕ) (rows : List QuotaEvent)
    → count (of_subject subject) (young_rows now rows) ≤ count (of_subject subject) rows
count-young_rows-le subject now [] = omega arith
count-young_rows-le subject now (e ∷ es) = ground (arith, count-young_rows-le subject now es)

-- Once the oldest row of a subject is old, the subject has fewer rows.
count-young_rows-lt :
    (subject : String) (later o : ℕ) (rows : List QuotaEvent)
    → oldest subject rows ≡ some o
    → o + 60000 ≤ later
    → count (of_subject subject) (young_rows later rows) < count (of_subject subject) rows
count-young_rows-lt subject later o [] h late = absurd (cc h)
count-young_rows-lt subject later o (e ∷ es) h late = elim (Bool-cases (of_subject subject e)) [
  | inr other ↦ ground (arith, other, count-young_rows-lt subject later o es (rw other at h) late)
  | inl own ↦ elim (Option-cases (oldest subject es)) [
    | inl alone ↦
        ground (arith, own, alone, rw (own, alone) at h, late, count-young_rows-le subject later es)
    | inr (o', more) ↦
        let least = rw (own, more) at h in
        elim (Bool-cases (is_old later e)) [
          | inl old ↦ ground (arith, own, old, count-young_rows-le subject later es)
          | inr young ↦
              let rest : oldest subject es ≡ some o = ground (arith, more, least, young, late) in
              ground (arith, own, young, count-young_rows-lt subject later o es rest late)
        ]
  ]
]

oldest-none :
    (subject : String) (rows : List QuotaEvent)
    → oldest subject rows ≡ none
    → count (of_subject subject) rows ≡ 0
oldest-none subject [] h = refl
oldest-none subject (e ∷ es) h = elim (Bool-cases (of_subject subject e)) [
  | inr other ↦ rw other (oldest-none subject es (rw other at h))
  | inl own ↦ elim (Option-cases (oldest subject es)) [
    | inl alone ↦ absurd (cc (rw (own, alone) at h))
    | inr (o', more) ↦ absurd (cc (rw (own, more) at h))
  ]
]

-- The delay is enough for the oldest row.
delay-covers : (o now later : ℕ) → now + retry_after (some o) now * 1000 ≤ later → o + 60000 ≤ later
delay-covers o now later wait = ground (arith, wait)

rows_allowed :
    (rows : List QuotaEvent) (subject : String) (limit now : ℕ)
    → leb limit (count (of_subject subject) (young_rows now rows)) ≡ false
    → (r : List QuotaEvent × QuotaConsumption) × (consume_rows healthy rows subject limit now
        ≡ ok r)
      × (r.1.allowed ≡ true)
unfolding consume_rows
rows_allowed rows subject limit now room = (
  (
    young_rows now rows ++ record { subject_id = subject; occurred_at = now } ∷ [],
    record {
      allowed = true;
      remaining = limit - suc (count (of_subject subject) (young_rows now rows));
      retry_after_secs = retry_after (or_some (oldest subject (young_rows now rows)) now) now;
    },
  ),
  rw (room, consume_rows) refl,
  refl,
)

rows_full :
    (rows : List QuotaEvent) (subject : String) (limit now : ℕ)
    → leb limit (count (of_subject subject) (young_rows now rows)) ≡ true
    → consume_rows healthy rows subject limit now
      ≡ ok (
        young_rows now rows,
        record {
          allowed = false;
          remaining = 0;
          retry_after_secs = retry_after (oldest subject (young_rows now rows)) now;
        },
      )
unfolding consume_rows
rows_full rows subject limit now full = rw (full, consume_rows) refl

ok-inj : {A : Type 0} {x y : A} → ok x ≡ ok y → x ≡ y
ok-inj h = cc h

room_later :
    (rows : List QuotaEvent) (subject : String) (limit now later : ℕ)
    → 0 < limit
    → count (of_subject subject) rows ≤ limit
    → leb limit (count (of_subject subject) rows) ≡ true
    → now + retry_after (oldest subject rows) now * 1000 ≤ later
    → leb limit (count (of_subject subject) (young_rows later rows)) ≡ false
room_later rows subject limit now later pos small full wait =
    elim (Option-cases (oldest subject rows)) [
      | inl e ↦ absurd (ground (arith, pos, full, oldest-none subject rows e))
      | inr (o, e) ↦
          let late = delay-covers o now later (rw e at wait) in
          ground (arith, small, count-young_rows-lt subject later o rows e late)
    ]

-- On the rows, a refused subject is admitted when the delay that it was told has passed.
pub refused_rows-retry :
    (rows kept : List QuotaEvent) (decision : QuotaConsumption) (subject : String)
    (limit now later : ℕ)
    → consume_rows healthy rows subject limit now ≡ ok (kept, decision)
    → decision.allowed ≡ false
    → 0 < limit
    → count (of_subject subject) rows ≤ limit
    → now + decision.retry_after_secs * 1000 ≤ later
    → (r : List QuotaEvent × QuotaConsumption) × (consume_rows healthy kept subject limit later
        ≡ ok r)
      × (r.1.allowed ≡ true)
refused_rows-retry rows kept decision subject limit now later h refused pos small wait =
    elim (Bool-cases (leb limit (count (of_subject subject) (young_rows now rows)))) [
      | inr room ↦
          let (r, admitted, let_in) = rows_allowed rows subject limit now room in
          let same = ok-inj (sym h ∙ admitted) in
          absurd (
            cc (refused, let_in, ap (λ (x : List QuotaEvent × QuotaConsumption). x.1.allowed) same))
      | inl full ↦
          let same = ok-inj (sym h ∙ rows_full rows subject limit now full) in
          let rows' = ap (λ (x : List QuotaEvent × QuotaConsumption). x.0) same in
          let told = ap (λ (x : List QuotaEvent × QuotaConsumption). x.1.retry_after_secs) same in
          rw rows' (
            rows_allowed (young_rows now rows) subject limit later (
              room_later (young_rows now rows) subject limit now later pos
                (omega (arith, count-young_rows-le subject now rows, small)) full
                (rw told at wait)))
    ]
