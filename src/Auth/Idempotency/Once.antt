-- ===== src/Auth/Idempotency/Once.antt =====
-- crates/easybot-core/src/auth/api_key/billing.rs: the row of a request under later calls.
use easy_bot.Base.{
  ℕ, ◌<◌, ◌≡◌, ap, ◌∙◌, inl, inr, String, Bool, true, not, Option, none, some, List, [], ◌∷◌, ◌++◌,
  map, if◌then◌else◌, leb, find, retain, arith, Bool-cases, Option-cases, find-append,
}
use easy_bot.Auth.Idempotency.{
  IdempotencyRow, IdempotencyStep, begin, purge, insert_row, commit, select_row, update_row,
  has_keys, purged, reserve_idempotency, is_open, completes, complete_idempotency,
}

find-retain :
    (p q : IdempotencyRow → Bool) (rows : List IdempotencyRow) (r : IdempotencyRow)
    → find p rows ≡ some r
    → q r ≡ true
    → find p (retain q rows) ≡ some r
find-retain p q [] r h k = h
find-retain p q (x ∷ xs) r h k = elim (Bool-cases (p x)) [
  | inl e ↦
      let same : x ≡ r = some-inj (rw e at h) in
      let kept : q x ≡ true = rw same k in rw kept (rw e (ap some same))
  | inr e ↦ elim (Bool-cases (q x)) [
    | inl f ↦ rw f (rw e (find-retain p q xs r (rw e at h) k))
    | inr f ↦ rw f (find-retain p q xs r (rw e at h) k)
  ]
]
  where
    some-inj : {x y : IdempotencyRow} → some x ≡ some y → x ≡ y
    some-inj h = cc h

pub find-map :
    (p : IdempotencyRow → Bool) (f : IdempotencyRow → IdempotencyRow) (rows : List IdempotencyRow)
    (r : IdempotencyRow)
    → ((x : IdempotencyRow) → p (f x) ≡ p x)
    → find p rows ≡ some r
    → find p (map f rows) ≡ some (f r)
find-map p f [] r k h = absurd (cc h)
find-map p f (x ∷ xs) r k h = elim (Bool-cases (p x)) [
  | inl e ↦ rw (k x ∙ e) (
      ap
        (λ (o : Option IdempotencyRow). elim o as (λ _. Option IdempotencyRow) [
          | none ↦ none
          | some y ↦ some (f y)
        ])
        (rw e at h))
  | inr e ↦ rw (k x ∙ e) (find-map p f xs r k (rw e at h))
]

-- What a reservation leaves is the rows as they were, or without the expired ones and with at most
-- one row more at the end.
reserve-rows :
    (P : List IdempotencyRow → Type 0) (fault : IdempotencyStep → Bool) (rows : List IdempotencyRow)
    (k i h : String) (now : ℕ)
    → P rows
    → P (purged now rows)
    → ((e : IdempotencyRow) → P (purged now rows ++ e ∷ []))
    → P (reserve_idempotency fault rows k i h now).0
unfolding reserve_idempotency
reserve-rows P fault rows k i h now same kept more = elim (Bool-cases (fault begin)) [
  | inl a ↦ rw (a, reserve_idempotency) same
  | inr a ↦ elim (Bool-cases (fault purge)) [
    | inl b ↦ rw (a, b, reserve_idempotency) same
    | inr b ↦ elim (Bool-cases (fault insert_row)) [
      | inl c ↦ rw (a, b, c, reserve_idempotency) same
      | inr c ↦ elim (Option-cases (find (has_keys k i) (purged now rows))) [
        | inl f ↦ elim (Bool-cases (fault commit)) [
          | inl d ↦ rw (a, b, c, f, d, reserve_idempotency) same
          | inr d ↦ rw (a, b, c, f, d, reserve_idempotency) (more _)
        ]
        | inr (r, f) ↦ elim (Bool-cases (fault select_row)) [
          | inl g ↦ rw (a, b, c, f, g, reserve_idempotency) same
          | inr g ↦ elim (Bool-cases (fault commit)) [
            | inl d ↦ rw (a, b, c, f, g, d, reserve_idempotency) same
            | inr d ↦ rw (a, b, c, f, g, d, reserve_idempotency) kept
          ]
        ]
      ]
    ]
  ]
]

-- A row under the two keys, that expires at `expiry` and has the property `Q`.
pub record Keeps (Q : IdempotencyRow → Type 0) (k i : String) (expiry : ℕ)
    (rows : List IdempotencyRow) : Type 0 where
  pub row : IdempotencyRow
  pub found : find (has_keys k i) rows ≡ some row
  pub expires : row.expires_at ≡ expiry
  pub holds : Q row

-- A property that completing the request of any row keeps.
abbrev pub Stable : (IdempotencyRow → Type 0) → Type 0
Stable Q =
    (r : IdempotencyRow) (k i h : String) (status : ℕ) (json : String)
    → Q r
    → Q (if is_open k i h r then completes status json r else r)

pub purged-Keeps :
    (Q : IdempotencyRow → Type 0) (k i : String) (expiry : ℕ) (rows : List IdempotencyRow) (now : ℕ)
    → now < expiry
    → Keeps Q k i expiry rows
    → Keeps Q k i expiry (purged now rows)
purged-Keeps Q k i expiry rows now le x = record {
  row = x.row;
  found =
      find-retain (has_keys k i) (λ r. not (leb r.expires_at now)) rows x.row x.found
        (ground (arith, le, x.expires));
  expires = x.expires;
  holds = x.holds;
}

append-Keeps :
    (Q : IdempotencyRow → Type 0) (k i : String) (expiry : ℕ) (rows : List IdempotencyRow)
    (e : IdempotencyRow)
    → Keeps Q k i expiry rows
    → Keeps Q k i expiry (rows ++ e ∷ [])
append-Keeps Q k i expiry rows e x = record {
  row = x.row;
  found = find-append (has_keys k i) rows x.row e x.found;
  expires = x.expires;
  holds = x.holds;
}

reserve-Keeps :
    (Q : IdempotencyRow → Type 0) (k i : String) (expiry : ℕ) (fault : IdempotencyStep → Bool)
    (rows : List IdempotencyRow) (k' i' h' : String) (now : ℕ)
    → now < expiry
    → Keeps Q k i expiry rows
    → Keeps Q k i expiry (reserve_idempotency fault rows k' i' h' now).0
reserve-Keeps Q k i expiry fault rows k' i' h' now le x =
    let kept = purged-Keeps Q k i expiry rows now le x in
    reserve-rows (Keeps Q k i expiry) fault rows k' i' h' now x kept
      (λ e. append-Keeps Q k i expiry (purged now rows) e kept)

complete-Keeps :
    (Q : IdempotencyRow → Type 0) (k i : String) (expiry : ℕ) (fault : IdempotencyStep → Bool)
    (rows : List IdempotencyRow) (k' i' h' : String) (status : ℕ) (json : String)
    → Stable Q
    → Keeps Q k i expiry rows
    → Keeps Q k i expiry (complete_idempotency fault rows k' i' h' status json).0
unfolding complete_idempotency
complete-Keeps Q k i expiry fault rows k' i' h' status json stable x =
    let f : IdempotencyRow → IdempotencyRow =
      λ r. if is_open k' i' h' r then completes status json r else r in
    let moved : Keeps Q k i expiry (map f rows) = record {
      row = f x.row;
      found = find-map (has_keys k i) f rows x.row (λ r. ground arith) x.found;
      expires = ground (arith, x.expires);
      holds = stable x.row k' i' h' status json x.holds;
    } in
    elim (Bool-cases (fault update_row)) [
      | inl e ↦ rw (e, complete_idempotency) x
      | inr e ↦ rw (e, complete_idempotency) moved
    ]

pub data Call : Type 0 where
  asks : (IdempotencyStep → Bool) → String → String → String → ℕ → Call
  answers : (IdempotencyStep → Bool) → String → String → String → ℕ → String → Call

abbrev pub step : List IdempotencyRow → Call → List IdempotencyRow
step rows (asks fault k i h now) = (reserve_idempotency fault rows k i h now).0
step rows (answers fault k i h status json) = (complete_idempotency fault rows k i h status json).0

abbrev pub run : List IdempotencyRow → List Call → List IdempotencyRow
run rows [] = rows
run rows (c ∷ cs) = run (step rows c) cs

-- Every reservation among the calls is made before `expiry`.
abbrev pub Before : ℕ → List Call → Type 0
Before expiry [] = Unit
Before expiry (asks fault k i h now ∷ cs) = (now < expiry) × Before expiry cs
Before expiry (answers fault k i h status json ∷ cs) = Before expiry cs

pub run-Keeps :
    (Q : IdempotencyRow → Type 0) (k i : String) (expiry : ℕ) (rows : List IdempotencyRow)
    (cs : List Call)
    → Stable Q
    → Before expiry cs
    → Keeps Q k i expiry rows
    → Keeps Q k i expiry (run rows cs)
run-Keeps Q k i expiry rows [] stable b x = x
run-Keeps Q k i expiry rows (asks fault k' i' h' now ∷ cs) stable (le, b) x =
    run-Keeps Q k i expiry (step rows (asks fault k' i' h' now)) cs stable b
      (reserve-Keeps Q k i expiry fault rows k' i' h' now le x)
run-Keeps Q k i expiry rows (answers fault k' i' h' status json ∷ cs) stable b x =
    run-Keeps Q k i expiry (step rows (answers fault k' i' h' status json)) cs stable b
      (complete-Keeps Q k i expiry fault rows k' i' h' status json stable x)
