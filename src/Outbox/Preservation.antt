-- ===== src/Outbox/Preservation.antt =====
-- crates/easybot-core/src/storage/sqlite.rs: what every call on the journal keeps of its rows.
use easy_bot.Base.{
  ℕ, String, Bool, true, not, ◌&&◌, ◌≡◌, refl, inl, inr, Option, List, [], ◌∷◌, ◌++◌, ltb, ◌==◌,
  str_eq, any, count, All, All-append, All-retain, All-mono, arith, Bool-cases, Option-cases,
  eq_iff,
}
use easy_bot.Outbox.Rows.{
  OutboundDeliveryState, OutboundEvent, Row, is_open, new_row, has_id, finalized, update,
  is_completed, published, reconciled, is_open_of, of_session,
}
use easy_bot.Outbox.Journal.{
  Journal, Step, begin, insert_delivery, insert_message, update_delivery, commit, mark_event,
  delete_rows, is_given, prepare_outbound_delivery, finalize_outbound_delivery,
  unpublished_outbound_events, mark_outbound_event_published, reconcile_outbound_delivery,
  delete_outbound_deliveries_by_session, delete_expired_outbound_deliveries,
}
use easy_bot.Outbox.Publisher.{
  Publication, Outbox, publication, publish_events, publish_outbound_events_once,
}
use easy_bot.Outbox.Calls.{
  Call, prepares, finalizes, reconciles, deletes_session, deletes_expired, publishes, step, run,
}

abbrev pub is_receipt : {V : Type 0} → String → Publication V → Bool
is_receipt id p = str_eq p.event.delivery_id id && ltb 0 p.receivers

-- A property of a row and of what was published that every change of a row keeps.
pub record Kept {V : Type 0} (P : List (Publication V) → Row V → Type 0) : Type 0 where
  pub finalizing :
      (bus : List (Publication V)) (r : Row V) (id : String) (s : OutboundDeliveryState) (v : V)
      (now : ℕ)
      → is_open id r ≡ true
      → P bus r
      → P bus (finalized s v now r)
  pub reconciling :
      (bus : List (Publication V)) (r : Row V) (id actor : String) (s : OutboundDeliveryState)
      (v : V) (evidence by : String) (now : ℕ)
      → is_open_of id actor r ≡ true
      → P bus r
      → P bus (reconciled s v evidence by now r)
  pub sending :
      (bus : List (Publication V)) (r : Row V) (p : Publication V) → P bus r → P (bus ++ p ∷ []) r
  pub marking :
      (bus : List (Publication V)) (r : Row V) (id : String)
      → is_completed id r ≡ true
      → any (is_receipt id) bus ≡ true
      → P bus r
      → P bus (published r)

module _ {V : Type 0} where
  update-All :
      (P : Row V → Type 0) (p : Row V → Bool) (f : Row V → Row V) (rows : List (Row V))
      → ((r : Row V) → p r ≡ true → P r → P (f r))
      → All P rows
      → All P (update p f rows)
  update-All P p f [] h k = tt
  update-All P p f (r ∷ rows) h (here, k) =
      let rest = update-All P p f rows h k in
      elim (Bool-cases (p r)) [ inl e ↦ rw e (h r e here, rest) | inr e ↦ rw e (here, rest) ]

  any-append_end :
      (p : Publication V → Bool) (xs : List (Publication V)) (x : Publication V)
      → p x ≡ true
      → any p (xs ++ x ∷ []) ≡ true
  any-append_end p [] x h = rw h refl
  any-append_end p (y ∷ xs) x h = ground (arith, any-append_end p xs x h)

module _ {V T : Type 0} where
  -- The property holds of the rows of the new deliveries among the calls.
  abbrev pub Starts : (List (Publication V) → Row V → Type 0) → List (Call V T) → Type 0
  Starts P [] = Unit
  Starts P (prepares fault d ∷ cs) =
      ((bus : List (Publication V)) → P bus (new_row d)) × Starts P cs
  Starts P (finalizes _ _ _ _ _ _ ∷ cs) = Starts P cs
  Starts P (reconciles _ _ _ _ _ _ _ ∷ cs) = Starts P cs
  Starts P (deletes_session _ _ _ ∷ cs) = Starts P cs
  Starts P (deletes_expired _ _ ∷ cs) = Starts P cs
  Starts P (publishes _ _ ∷ cs) = Starts P cs

  abbrev pub Rows : (List (Publication V) → Row V → Type 0) → Outbox V T → Type 0
  Rows P o = All (P o.bus) o.journal.deliveries

  module _ (P : List (Publication V) → Row V → Type 0) (kept : Kept P) where
    finalize-All :
        (fault : Step → Bool) (j : Journal V T) (bus : List (Publication V)) (id : String)
        (s : OutboundDeliveryState) (v : V) (message : Option (String × T)) (now : ℕ)
        → All (P bus) j.deliveries
        → All (P bus) (finalize_outbound_delivery fault j id s v message now).0.deliveries
    unfolding finalize_outbound_delivery
    finalize-All fault j bus id s v message now h = elim (Bool-cases (fault begin)) [
      | inl a ↦ rw (a, finalize_outbound_delivery) h
      | inr a ↦ elim (Bool-cases (is_given message && fault insert_message)) [
        | inl b ↦ rw (a, b, finalize_outbound_delivery) h
        | inr b ↦ elim (Bool-cases (fault update_delivery)) [
          | inl c ↦ rw (a, b, c, finalize_outbound_delivery) h
          | inr c ↦ elim (Bool-cases (count (is_open id) j.deliveries == 1)) [
            | inl d ↦ elim (Bool-cases (fault commit)) [
              | inl e ↦ rw (a, b, c, d, e, finalize_outbound_delivery) h
              | inr e ↦
                  rw (a, b, c, d, e, finalize_outbound_delivery)
                    (update-All (P bus) (is_open id) (finalized s v now) j.deliveries
                      (λ r. kept.finalizing bus r id s v now) h)
            ]
            | inr d ↦ rw (a, b, c, d, finalize_outbound_delivery) h
          ]
        ]
      ]
    ]

    mark-All :
        (fault : Step → Bool) (j : Journal V T) (bus : List (Publication V)) (id : String)
        → any (is_receipt id) bus ≡ true
        → All (P bus) j.deliveries
        → All (P bus) (mark_outbound_event_published fault j id).0.deliveries
    unfolding mark_outbound_event_published
    mark-All fault j bus id got h = elim (Bool-cases (fault mark_event)) [
      | inl a ↦ rw (a, mark_outbound_event_published) h
      | inr a ↦
          let marked =
            update-All (P bus) (is_completed id) published j.deliveries
              (λ r e. kept.marking bus r id e got) h in
          elim (Bool-cases (count (is_completed id) j.deliveries == 1)) [
            | inl b ↦ rw (a, b, mark_outbound_event_published) marked
            | inr b ↦ rw (a, b, mark_outbound_event_published) marked
          ]
    ]

    publish-Rows :
        (fault : Step → Bool) (receivers : OutboundEvent V → ℕ) (o : Outbox V T)
        (es : List (OutboundEvent V))
        → Rows P o
        → Rows P (publish_events fault receivers o es).0
    unfolding publish_events
    publish-Rows fault receivers o [] h = h
    publish-Rows fault receivers o (e ∷ es) h =
        let bus = o.bus ++ publication e (receivers e) ∷ [] in
        let sent : All (P bus) o.journal.deliveries =
          All-mono (P o.bus) (P bus) o.journal.deliveries
            (λ r. kept.sending o.bus r (publication e (receivers e))) h in
        elim (Bool-cases (ltb 0 (receivers e))) [
          | inl f ↦
              let own : is_receipt e.delivery_id (publication e (receivers e)) ≡ true =
                rw ((eq_iff e.delivery_id e.delivery_id).1 refl, f) refl in
              let marked =
                mark-All fault o.journal bus e.delivery_id
                  (any-append_end (is_receipt e.delivery_id) o.bus (publication e (receivers e))
                    own)
                  sent in
              elim (Option-cases (mark_outbound_event_published fault o.journal e.delivery_id).1) [
                | inl g ↦
                    rw (f, g, publish_events)
                      (publish-Rows fault receivers
                        (record {
                          journal = (mark_outbound_event_published fault o.journal e.delivery_id).0;
                          bus = bus;
                        })
                        es marked)
                | inr (error, g) ↦ rw (f, g, publish_events) marked
              ]
          | inr f ↦
              rw (f, publish_events) (publish-Rows fault receivers (record o { bus = bus }) es sent)
        ]

    step-Rows :
        (manual : OutboundDeliveryState → V) (o : Outbox V T) (c : Call V T) (cs : List (Call V T))
        → Starts P (c ∷ cs)
        → Rows P o
        → Rows P (step manual o c) × Starts P cs
    unfolding prepare_outbound_delivery reconcile_outbound_delivery
        delete_outbound_deliveries_by_session delete_expired_outbound_deliveries
        publish_outbound_events_once
    step-Rows manual o (prepares fault d) cs (new, starts) h = (
      elim (Bool-cases (fault insert_delivery)) [
        | inl a ↦ rw (a, prepare_outbound_delivery) h
        | inr a ↦ elim (Bool-cases (any (has_id d.id) o.journal.deliveries)) [
          | inl b ↦ rw (a, b, prepare_outbound_delivery) h
          | inr b ↦
              rw (a, b, prepare_outbound_delivery)
                (All-append (P o.bus) o.journal.deliveries (new_row d ∷ []) h (new o.bus, tt))
        ]
      ],
      starts,
    )
    step-Rows manual o (finalizes fault id s v message now) cs starts h =
        (finalize-All fault o.journal o.bus id s v message now h, starts)
    step-Rows manual o (reconciles fault id actor s evidence by now) cs starts h = (
      elim (Bool-cases (fault update_delivery)) [
        | inl a ↦ rw (a, reconcile_outbound_delivery) h
        | inr a ↦
            rw (a, reconcile_outbound_delivery)
              (update-All (P o.bus) (is_open_of id actor) (reconciled s (manual s) evidence by now)
                o.journal.deliveries
                (λ r. kept.reconciling o.bus r id actor s (manual s) evidence by now) h)
      ],
      starts,
    )
    step-Rows manual o (deletes_session fault platform chat_id) cs starts h = (
      elim (Bool-cases (fault delete_rows)) [
        | inl a ↦ rw (a, delete_outbound_deliveries_by_session) h
        | inr a ↦
            rw (a, delete_outbound_deliveries_by_session)
              (All-retain (P o.bus) (λ r. not (of_session platform chat_id r)) o.journal.deliveries
                h)
      ],
      starts,
    )
    step-Rows manual o (deletes_expired fault before) cs starts h = (
      elim (Bool-cases (fault delete_rows)) [
        | inl a ↦ rw (a, delete_expired_outbound_deliveries) h
        | inr a ↦
            rw (a, delete_expired_outbound_deliveries)
              (All-retain (P o.bus) (λ r. not (ltb r.delivery.created_at before))
                o.journal.deliveries h)
      ],
      starts,
    )
    step-Rows manual o (publishes fault receivers) cs starts h = (
      elim (Option-cases (unpublished_outbound_events fault o.journal 100)) [
        | inl a ↦ rw (a, step, publish_outbound_events_once) h
        | inr (es, a) ↦
            rw (a, step, publish_outbound_events_once) (publish-Rows fault receivers o es h)
      ],
      starts,
    )

    pub run-Rows :
        (manual : OutboundDeliveryState → V) (o : Outbox V T) (cs : List (Call V T))
        → Starts P cs
        → Rows P o
        → Rows P (run manual o cs)
    run-Rows manual o [] starts h = h
    run-Rows manual o (c ∷ cs) starts h =
        let (next, later) = step-Rows manual o c cs starts h in
        run-Rows manual (step manual o c) cs later next
