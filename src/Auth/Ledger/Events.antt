-- ===== src/Auth/Ledger/Events.antt =====
-- crates/easybot-core/src/auth/api_key/billing.rs: an event that a provider delivers more than once.
use easy_bot.Base.{
  ℕ, suc, ◌≡◌, ◌≢◌, refl, inl, inr, ◌⊎◌, String, Bool, true, false, none, some, List, [], ◌∷◌, ◌++◌,
  if◌then◌else◌, str_eq, all, find, length, length-append, arith, Bool-cases, Option-cases, eq_iff,
  find-append, find-append_end,
}
use easy_bot.Auth.Ledger.Billing.{
  BillingEvent, Sent, BillingLedger, duplicate, conflict, created, BillingStep, begin, insert_event,
  update_count, select_event, commit, wrote, sent, same_event, received, record_billing_event,
  is_intact, verify_billing_ledger_integrity,
}

abbrev pub healthy : BillingStep → Bool
healthy step = false

abbrev pub empty_ledger : BillingLedger
empty_ledger = record { events = []; event_count = some 0 }

pub data Delivery : Type 0 where
  delivers : (BillingStep → Bool) → BillingEvent → ℕ → Delivery

not-created : (b : Bool) → wrote (if b then duplicate else conflict) ≢ wrote created
not-created true e = cc e
not-created false e = cc e

module _ (billing_hash : Sent → String) where
  abbrev pub step : BillingLedger → Delivery → BillingLedger
  step l (delivers fault given now) = (record_billing_event billing_hash fault l given now).0

  abbrev pub run : BillingLedger → List Delivery → BillingLedger
  run l [] = l
  run l (d ∷ ds) = run (step l d) ds

  -- The ledger stays, or the event is new to it and stands at its end.
  record-cases :
      (fault : BillingStep → Bool) (l : BillingLedger) (given : BillingEvent) (now : ℕ)
      → ((record_billing_event billing_hash fault l given now).0 ≡ l)
          × ((record_billing_event billing_hash fault l given now).1 ≢ wrote created)
        ⊎ ((n : ℕ) × (l.event_count ≡ some n)
            × (find (same_event (received billing_hash given now)) l.events ≡ none)
            × ((record_billing_event billing_hash fault l given now).0 ≡ record {
              events = l.events ++ received billing_hash given now ∷ [];
              event_count = some (suc n);
            }))
  unfolding record_billing_event
  record-cases fault l given now = elim (Bool-cases (fault begin)) [
    | inl a ↦ rw (a, record_billing_event) (inl (refl, λ e. cc e))
    | inr a ↦ elim (Bool-cases (fault insert_event)) [
      | inl b ↦ rw (a, b, record_billing_event) (inl (refl, λ e. cc e))
      | inr b ↦ elim (Option-cases (find (same_event (received billing_hash given now)) l.events)) [
        | inl f ↦ elim (Bool-cases (fault update_count)) [
          | inl c ↦ rw (a, b, f, c, record_billing_event) (inl (refl, λ e. cc e))
          | inr c ↦ elim (Option-cases (l.event_count)) [
            | inl g ↦ rw (a, b, f, c, g, record_billing_event) (inl (cc g, λ e. cc e))
            | inr (n, g) ↦ elim (Bool-cases (fault commit)) [
              | inl d ↦ rw (a, b, f, c, g, d, record_billing_event) (inl (cc g, λ e. cc e))
              | inr d ↦ rw (a, b, f, c, g, d, record_billing_event) (inr (n, refl, refl, refl))
            ]
          ]
        ]
        | inr (x, f) ↦ elim (Bool-cases (fault select_event)) [
          | inl c ↦ rw (a, b, f, c, record_billing_event) (inl (refl, λ e. cc e))
          | inr c ↦ elim (Bool-cases (fault commit)) [
            | inl d ↦ rw (a, b, f, c, d, record_billing_event) (inl (refl, λ e. cc e))
            | inr d ↦
                rw (a, b, f, c, d, record_billing_event)
                  (inl (refl, not-created (str_eq x.event_hash (billing_hash (sent given)))))
          ]
        ]
      ]
    ]
  ]

  abbrev Kept : BillingLedger → Type 0
  Kept l = (all (is_intact billing_hash) l.events ≡ true) × (l.event_count ≡ some (length l.events))

  all-append_end :
      (p : BillingEvent → Bool) (xs : List BillingEvent) (y : BillingEvent)
      → all p xs ≡ true
      → p y ≡ true
      → all p (xs ++ y ∷ []) ≡ true
  all-append_end p [] y h k = rw k refl
  all-append_end p (x ∷ xs) y h k = ground (arith, h, all-append_end p xs y, k)

  itself-intact :
      (given : BillingEvent) (now : ℕ)
      → is_intact billing_hash (received billing_hash given now) ≡ true
  itself-intact given now = (eq_iff (billing_hash (sent given)) (billing_hash (sent given))).1 refl

  step-Kept : (l : BillingLedger) (d : Delivery) → Kept l → Kept (step l d)
  step-Kept l (delivers fault given now) (intact, count) = elim (record-cases fault l given now) [
    | inl (e, _) ↦ rw e (intact, count)
    | inr (n, g, _, e) ↦ rw e (
      all-append_end (is_intact billing_hash) l.events (received billing_hash given now) intact
          (itself-intact given now),
      ground (arith, g, count, length-append l.events (received billing_hash given now ∷ [])),
    )
  ]

  run-Kept : (l : BillingLedger) (ds : List Delivery) → Kept l → Kept (run l ds)
  run-Kept l [] k = k
  run-Kept l (d ∷ ds) k = run-Kept (step l d) ds (step-Kept l d k)

  -- An event stays in the ledger.
  step-find :
      (l : BillingLedger) (d : Delivery) (p : BillingEvent → Bool) (x : BillingEvent)
      → find p l.events ≡ some x
      → find p (step l d).events ≡ some x
  step-find l (delivers fault given now) p x h = elim (record-cases fault l given now) [
    | inl (e, _) ↦ rw e h
    | inr (n, _, _, e) ↦ rw e (find-append p l.events x (received billing_hash given now) h)
  ]

  run-find :
      (l : BillingLedger) (ds : List Delivery) (p : BillingEvent → Bool) (x : BillingEvent)
      → find p l.events ≡ some x
      → find p (run l ds).events ≡ some x
  run-find l [] p x h = h
  run-find l (d ∷ ds) p x h = run-find (step l d) ds p x (step-find l d p x h)

  created-find :
      (fault : BillingStep → Bool) (l : BillingLedger) (given : BillingEvent) (now : ℕ)
      → (record_billing_event billing_hash fault l given now).1 ≡ wrote created
      → find (same_event given) (record_billing_event billing_hash fault l given now).0.events
        ≡ some (received billing_hash given now)
  created-find fault l given now e = elim (record-cases fault l given now) [
    | inl (_, other) ↦ absurd (other e)
    | inr (n, _, free, f) ↦ rw f (
        find-append_end (same_event given) l.events (received billing_hash given now) free (
          rw
            (
              (eq_iff given.provider given.provider).1 refl,
              (eq_iff given.event_id given.event_id).1 refl,
            )
            refl))
  ]

  found-again :
      (l : BillingLedger) (again x : BillingEvent) (later : ℕ)
      → find (same_event again) l.events ≡ some x
      → record_billing_event billing_hash healthy l again later ≡ (
        l,
        wrote (if str_eq x.event_hash (billing_hash (sent again)) then duplicate else conflict),
      )
  unfolding record_billing_event
  found-again l again x later h = rw (h, record_billing_event) refl

  -- A delivery that created an event is the only one: after any deliveries with any failures, another
  -- one with the same provider and event id, whose statements succeed, leaves the ledger as it is, and
  -- is a duplicate if its hash is that of the first, and a conflict otherwise.
  pub created-once :
      (fault : BillingStep → Bool) (l : BillingLedger) (given again : BillingEvent) (now later : ℕ)
      (ds : List Delivery)
      → (record_billing_event billing_hash fault l given now).1 ≡ wrote created
      → again.provider ≡ given.provider
      → again.event_id ≡ given.event_id
      → record_billing_event billing_hash healthy
          (run (record_billing_event billing_hash fault l given now).0 ds)
          again
          later
        ≡ (
          run (record_billing_event billing_hash fault l given now).0 ds,
          wrote (
              if str_eq (billing_hash (sent given)) (billing_hash (sent again))
              then duplicate
              else conflict),
        )
  created-once fault l given again now later ds e p i =
      let first = (record_billing_event billing_hash fault l given now).0 in
      let there : find (same_event again) (run first ds).events
          ≡ some (received billing_hash given now) =
        rw (p, i)
          (run-find first ds (same_event given) (received billing_hash given now)
            (created-find fault l given now e)) in
      found-again (run first ds) again (received billing_hash given now) later there

  -- After any deliveries with any failures the ledger passes its verification.
  pub run-intact :
      (ds : List Delivery)
      → verify_billing_ledger_integrity billing_hash (run empty_ledger ds) ≡ true
  unfolding verify_billing_ledger_integrity
  run-intact ds =
      let (intact, count) = run-Kept empty_ledger ds (refl, refl) in
      rw (intact, count) (ground arith)
