-- ===== src/Outbox/Receipts.antt =====
-- crates/easybot-api/src/lib.rs: what a published mark stands for.
use easy_bot.Base.{Bool, true, ◌≡◌, List, [], ◌∷◌, ◌++◌, eq_iff, any, All, arith}
use easy_bot.Outbox.Rows.{OutboundDeliveryState, Row}
use easy_bot.Outbox.Publisher.{Publication, Outbox}
use easy_bot.Outbox.Calls.{
  Call, prepares, finalizes, reconciles, deletes_session, deletes_expired, publishes, run,
}
use easy_bot.Outbox.Preservation.{is_receipt, Kept, Starts, run-Rows}

-- A row that is marked as published was given to the bus, and to one receiver at least.
abbrev pub HasReceipt : {V : Type 0} → List (Publication V) → Row V → Type 0
HasReceipt bus r = r.event_published ≡ true → any (is_receipt r.delivery.id) bus ≡ true

abbrev pub empty_outbox : {V T : Type 0} → Outbox V T
empty_outbox = record { journal = record { deliveries = []; messages = [] }; bus = [] }

module _ {V : Type 0} where
  any-append :
      (p : Publication V → Bool) (xs : List (Publication V)) (x : Publication V)
      → any p xs ≡ true
      → any p (xs ++ x ∷ []) ≡ true
  any-append p [] x h = absurd (cc h)
  any-append p (y ∷ xs) x h = ground (arith, any-append p xs x)

  Receipt-Kept : Kept {V = V} HasReceipt
  Receipt-Kept = record {
    finalizing = λ bus r id s v now free h. h;
    reconciling = λ bus r id actor s v evidence by now free h marked. absurd (cc marked);
    sending = λ bus r p h marked. any-append (is_receipt r.delivery.id) bus p (h marked);
    marking =
        λ bus r id done got h marked. rw ((eq_iff r.delivery.id id).0 (ground (arith, done))) got;
  }

module _ {V T : Type 0} where
  Receipt-Starts : (cs : List (Call V T)) → Starts HasReceipt cs
  Receipt-Starts [] = tt
  Receipt-Starts (prepares fault d ∷ cs) = (λ bus marked. absurd (cc marked), Receipt-Starts cs)
  Receipt-Starts (finalizes _ _ _ _ _ _ ∷ cs) = Receipt-Starts cs
  Receipt-Starts (reconciles _ _ _ _ _ _ _ ∷ cs) = Receipt-Starts cs
  Receipt-Starts (deletes_session _ _ _ ∷ cs) = Receipt-Starts cs
  Receipt-Starts (deletes_expired _ _ ∷ cs) = Receipt-Starts cs
  Receipt-Starts (publishes _ _ ∷ cs) = Receipt-Starts cs

  -- After any calls with any failures, a delivery whose event is marked as published was published to
  -- one receiver at least.
  pub marked-received :
      (manual : OutboundDeliveryState → V) (cs : List (Call V T))
      → All
          (HasReceipt (run manual empty_outbox cs).bus)
          (run manual empty_outbox cs).journal.deliveries
  marked-received manual cs =
      run-Rows HasReceipt Receipt-Kept manual empty_outbox cs (Receipt-Starts cs) tt
