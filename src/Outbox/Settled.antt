-- ===== src/Outbox/Settled.antt =====
-- crates/easybot-core/src/storage/sqlite.rs: the row of a settled delivery under later calls.
use easy_bot.Base.{
  ℕ, String, Bool, true, false, ◌&&◌, ◌≡◌, ◌≢◌, refl, sym, ◌∙◌, inl, inr, Option, none, some, List,
  [], ◌∷◌, str_eq, count, All, All-count, arith, Bool-cases,
}
use easy_bot.Outbox.Rows.{OutboundDeliveryState, Row, settled, is_pending, has_id, is_open}
use easy_bot.Outbox.Journal.{
  Journal, Step, begin, insert_message, update_delivery, is_given, finalize_outbound_delivery,
}
use easy_bot.Outbox.Publisher.{Outbox}
use easy_bot.Outbox.Calls.{
  Call, prepares, finalizes, reconciles, deletes_session, deletes_expired, publishes, run,
}
use easy_bot.Outbox.Preservation.{Kept, Starts, run-Rows}

-- A row of the delivery is settled with this state, result and time.
abbrev pub SettledAs : {V : Type 0} → String → OutboundDeliveryState → V → ℕ → Row V → Type 0
SettledAs id s v t r =
    has_id id r ≡ true
    → (r.state ≡ settled s) × (r.result_json ≡ some v) × (r.completed_at ≡ some t)

-- No call prepares a delivery with the id.
abbrev pub Avoids : {V T : Type 0} → String → List (Call V T) → Type 0
Avoids id [] = Unit
Avoids id (prepares fault d ∷ cs) = (str_eq d.id id ≡ false) × Avoids id cs
Avoids id (finalizes _ _ _ _ _ _ ∷ cs) = Avoids id cs
Avoids id (reconciles _ _ _ _ _ _ _ ∷ cs) = Avoids id cs
Avoids id (deletes_session _ _ _ ∷ cs) = Avoids id cs
Avoids id (deletes_expired _ _ ∷ cs) = Avoids id cs
Avoids id (publishes _ _ ∷ cs) = Avoids id cs

module _ {V : Type 0} where
  not-open :
      (id : String) (s : OutboundDeliveryState) (v : V) (t : ℕ) (r : Row V)
      → SettledAs id s v t r
      → is_open id r ≡ false
  not-open id s v t r h = elim (Bool-cases (has_id id r)) [
    | inl e ↦ rw ((h e).0, e) refl
    | inr e ↦ rw e refl
  ]

  settled-closed :
      (r : Row V) (s : OutboundDeliveryState) → r.state ≡ settled s → is_pending r.state ≢ true
  settled-closed r s e p = absurd (cc (rw e at p))

  Settled-Kept :
      (id : String) (s : OutboundDeliveryState) (v : V) (t : ℕ)
      → Kept {V = V} (λ bus. SettledAs id s v t)
  Settled-Kept id s v t = record {
    finalizing = λ bus r id' s' v' now free h own.
        absurd (settled-closed r s (h own).0 (ground (arith, free)));
    reconciling = λ bus r id' actor s' v' evidence by now free h own.
        absurd (settled-closed r s (h own).0 (ground (arith, free)));
    sending = λ bus r p h. h;
    marking = λ bus r id' done got h. h;
  }

module _ {V T : Type 0} where
  Avoids-Starts :
      (id : String) (s : OutboundDeliveryState) (v : V) (t : ℕ) (cs : List (Call V T))
      → Avoids id cs
      → Starts (λ bus. SettledAs id s v t) cs
  Avoids-Starts id s v t [] h = tt
  Avoids-Starts id s v t (prepares fault d ∷ cs) (other, h) =
      (λ bus own. absurd (cc (sym own ∙ other)), Avoids-Starts id s v t cs h)
  Avoids-Starts id s v t (finalizes _ _ _ _ _ _ ∷ cs) h = Avoids-Starts id s v t cs h
  Avoids-Starts id s v t (reconciles _ _ _ _ _ _ _ ∷ cs) h = Avoids-Starts id s v t cs h
  Avoids-Starts id s v t (deletes_session _ _ _ ∷ cs) h = Avoids-Starts id s v t cs h
  Avoids-Starts id s v t (deletes_expired _ _ ∷ cs) h = Avoids-Starts id s v t cs h
  Avoids-Starts id s v t (publishes _ _ ∷ cs) h = Avoids-Starts id s v t cs h

  finalize_refused :
      (fault : Step → Bool) (j : Journal V T) (id : String) (s s' : OutboundDeliveryState)
      (v v' : V) (message : Option (String × T)) (t now : ℕ)
      → All (SettledAs id s v t) j.deliveries
      → (finalize_outbound_delivery fault j id s' v' message now).1 ≢ none
  unfolding finalize_outbound_delivery
  finalize_refused fault j id s s' v v' message t now h e =
      let closed : count (is_open id) j.deliveries ≡ 0 =
        All-count (SettledAs id s v t) (is_open id) j.deliveries (not-open id s v t) h in
      elim (Bool-cases (fault begin)) [
        | inl a ↦ absurd (cc (rw (a, finalize_outbound_delivery) at e))
        | inr a ↦ elim (Bool-cases (is_given message && fault insert_message)) [
          | inl b ↦ absurd (cc (rw (a, b, finalize_outbound_delivery) at e))
          | inr b ↦ elim (Bool-cases (fault update_delivery)) [
            | inl c ↦ absurd (cc (rw (a, b, c, finalize_outbound_delivery) at e))
            | inr c ↦ absurd (cc (rw (a, b, c, closed, finalize_outbound_delivery) at e))
          ]
        ]
      ]

  -- A delivery that is settled keeps its state, its result and its time: after any calls with any
  -- failures that prepare no other delivery with its id, and any rounds of the publisher, its row is
  -- as it was or deleted, and it cannot be finalized again.
  pub settled-once :
      (manual : OutboundDeliveryState → V) (o : Outbox V T) (cs : List (Call V T)) (id : String)
      (s s' : OutboundDeliveryState) (v v' : V) (t now : ℕ) (fault : Step → Bool)
      (message : Option (String × T))
      → All (SettledAs id s v t) o.journal.deliveries
      → Avoids id cs
      → All (SettledAs id s v t) (run manual o cs).journal.deliveries
        × ((finalize_outbound_delivery fault (run manual o cs).journal id s' v' message now).1
            ≢ none)
  settled-once manual o cs id s s' v v' t now fault message h avoids =
      let later =
        run-Rows (λ bus. SettledAs id s v t) (Settled-Kept id s v t) manual o cs
          (Avoids-Starts id s v t cs avoids) h in
      (later, finalize_refused fault (run manual o cs).journal id s s' v v' message t now later)
