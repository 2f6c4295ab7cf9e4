-- ===== src/Persist/Delivery.antt =====
-- crates/easybot-core/src/session/message_persister.rs: what becomes of the messages that arrive.
use easy_bot.Base.{
  ℕ, zero, suc, ◌≡◌, refl, sym, ap, ◌∙◌, inl, inr, String, Bool, true, false, List, [], ◌∷◌, ◌++◌,
  if◌then◌else◌, leb, length, str_eq, eq_iff, lookup, contains_key, arith, Bool-cases,
}
use mathlib.Core.List.{append_assoc, append-nil}
use easy_bot.Persist.Persister.{
  batch_size, max_retries, Write, stored, failed, unreported, reported, insert_or_ignore,
  store_messages, Persister, Event, arrives, ticks, finish, written, attempts, write_batch,
  flush_batch, handle, run,
}
use easy_bot.Persist.Firsts.{lookup-store}

-- Whether one of the attempts of a flush is reported as stored.
abbrev pub succeeds : ℕ → (ℕ → Write) → Bool
succeeds zero outcome = false
succeeds (suc n) outcome = if reported (outcome (suc n)) then true else succeeds n outcome

module _ {T : Type 0} where
  store-append :
      (rows xs ys : List (String × T))
      → store_messages rows (xs ++ ys) ≡ store_messages (store_messages rows xs) ys
  unfolding store_messages
  store-append rows [] ys = refl
  store-append rows (x ∷ xs) ys = store-append (insert_or_ignore rows x) xs ys

  contains_key-append :
      (k : String) (rows : List (String × T)) (m : String × T)
      → contains_key k (rows ++ m ∷ []) ≡ (if contains_key k rows then true else str_eq m.0 k)
  unfolding contains_key
  contains_key-append k [] (j, v) = ground arith
  contains_key-append k ((i, w) ∷ rows) m = ground (arith, contains_key-append k rows m)

  -- What is stored stays stored.
  contains_key-ignore :
      (k : String) (rows : List (String × T)) (m : String × T)
      → contains_key k rows ≡ true
      → contains_key k (insert_or_ignore rows m) ≡ true
  contains_key-ignore k rows m h = elim (Bool-cases (contains_key m.0 rows)) [
    | inl e ↦ rw e h
    | inr e ↦ rw e (contains_key-append k rows m ∙ rw h refl)
  ]

  contains_key-store :
      (k : String) (rows ms : List (String × T))
      → contains_key k rows ≡ true
      → contains_key k (store_messages rows ms) ≡ true
  unfolding store_messages
  contains_key-store k rows [] h = h
  contains_key-store k rows (m ∷ ms) h =
      contains_key-store k (insert_or_ignore rows m) ms (contains_key-ignore k rows m h)

  contains_key-own :
      (rows : List (String × T)) (m : String × T)
      → contains_key m.0 (insert_or_ignore rows m) ≡ true
  contains_key-own rows m = elim (Bool-cases (contains_key m.0 rows)) [
    | inl e ↦ rw e e
    | inr e ↦ rw e (contains_key-append m.0 rows m ∙ rw e ((eq_iff m.0 m.0).1 refl))
  ]

  -- Storing a batch twice is storing it once.
  store_known :
      (rows ms : List (String × T)) (m : String × T)
      → contains_key m.0 rows ≡ true
      → insert_or_ignore (store_messages rows ms) m ≡ store_messages rows ms
  store_known rows ms m h = rw (contains_key-store m.0 rows ms h) refl

  AllStored : List (String × T) → List (String × T) → Type 0
  AllStored rows [] = Unit
  AllStored rows (m ∷ ms) = (contains_key m.0 rows ≡ true) × AllStored rows ms

  AllStored-ignored :
      (rows ms : List (String × T)) → AllStored rows ms → store_messages rows ms ≡ rows
  unfolding store_messages AllStored
  AllStored-ignored rows [] h = refl
  AllStored-ignored rows (m ∷ ms) (e, h) = rw e (AllStored-ignored rows ms h)

  AllStored-store : (rows ms : List (String × T)) → AllStored (store_messages rows ms) ms
  unfolding store_messages AllStored
  AllStored-store rows [] = tt
  AllStored-store rows (m ∷ ms) = (
    contains_key-store m.0 (insert_or_ignore rows m) ms (contains_key-own rows m),
    AllStored-store (insert_or_ignore rows m) ms,
  )

  store_twice :
      (rows ms : List (String × T))
      → store_messages (store_messages rows ms) ms ≡ store_messages rows ms
  store_twice rows ms = AllStored-ignored (store_messages rows ms) ms (AllStored-store rows ms)

  written-store :
      (w : Write) (rows batch : List (String × T))
      → store_messages (written w rows batch) batch ≡ store_messages rows batch
  written-store stored rows batch = store_twice rows batch
  written-store failed rows batch = refl
  written-store unreported rows batch = store_twice rows batch

  -- What the attempts leave to do, and that a success leaves nothing.
  attempts-store :
      (n : ℕ) (outcome : ℕ → Write) (rows batch : List (String × T))
      → store_messages (attempts n outcome rows batch).0 batch ≡ store_messages rows batch
  unfolding attempts
  attempts-store zero outcome rows batch = refl
  attempts-store (suc n) outcome rows batch =
      let tried = written (outcome (suc n)) rows batch in
      elim (Bool-cases (reported (outcome (suc n)))) [
        | inl e ↦ rw e (written-store (outcome (suc n)) rows batch)
        | inr e ↦
            rw e (attempts-store n outcome tried batch ∙ written-store (outcome (suc n)) rows batch)
      ]

  written-reported :
      (w : Write) (rows batch : List (String × T))
      → reported w ≡ true
      → written w rows batch ≡ store_messages rows batch
  written-reported stored rows batch h = refl
  written-reported failed rows batch h = absurd (cc h)
  written-reported unreported rows batch h = absurd (cc h)

  attempts-success :
      (n : ℕ) (outcome : ℕ → Write) (rows batch : List (String × T))
      → (attempts n outcome rows batch).1 ≡ true
      → (attempts n outcome rows batch).0 ≡ store_messages rows batch
  unfolding attempts
  attempts-success zero outcome rows batch h = absurd (cc h)
  attempts-success (suc n) outcome rows batch h =
      let tried = written (outcome (suc n)) rows batch in
      elim (Bool-cases (reported (outcome (suc n)))) [
        | inl e ↦ rw e (written-reported (outcome (suc n)) rows batch e)
        | inr e ↦ rw e (
            attempts-success n outcome tried batch (rw e at h)
            ∙ written-store (outcome (suc n)) rows batch)
      ]

  write_batch-store :
      (batch rows : List (String × T)) (outcome : ℕ → Write) (queued : List (String × T))
      → store_messages
          (write_batch batch rows outcome queued).rows
          (write_batch batch rows outcome queued).buffer
        ≡ store_messages rows (batch ++ queued)
  unfolding write_batch
  write_batch-store [] rows outcome queued = refl
  write_batch-store (m ∷ ms) rows outcome queued =
      let tried = attempts max_retries outcome rows (m ∷ ms) in
      let split = store-append rows (m ∷ ms) queued in
      elim (Bool-cases tried.1) [
        | inl e ↦
            rw (e, write_batch)
              (ap (λ (r : List (String × T)). store_messages r queued)
                  (attempts-success max_retries outcome rows (m ∷ ms) e)
                ∙ sym split)
        | inr e ↦
            rw (e, write_batch)
              (store-append tried.0 (m ∷ ms) queued
                ∙ ap (λ (r : List (String × T)). store_messages r queued)
                    (attempts-store max_retries outcome rows (m ∷ ms))
                ∙ sym split)
      ]

  attempts-succeeds :
      (n : ℕ) (outcome : ℕ → Write) (rows batch : List (String × T))
      → (attempts n outcome rows batch).1 ≡ succeeds n outcome
  unfolding attempts
  attempts-succeeds zero outcome rows batch = refl
  attempts-succeeds (suc n) outcome rows batch = elim (Bool-cases (reported (outcome (suc n)))) [
    | inl e ↦ rw e refl
    | inr e ↦ rw e (attempts-succeeds n outcome (written (outcome (suc n)) rows batch) batch)
  ]

  write_batch-empties :
      (batch rows : List (String × T)) (outcome : ℕ → Write) (queued : List (String × T))
      → succeeds max_retries outcome ≡ true
      → (write_batch batch rows outcome queued).buffer ≡ queued
  unfolding write_batch
  write_batch-empties [] rows outcome queued h = refl
  write_batch-empties (m ∷ ms) rows outcome queued h =
      rw (attempts-succeeds max_retries outcome rows (m ∷ ms) ∙ h, write_batch) refl

  abbrev pub arrived : Event T → List (String × T)
  arrived (arrives m outcome) = m ∷ []
  arrived (ticks outcome) = []

  abbrev pub arrivals : List (Event T) → List (String × T)
  arrivals [] = []
  arrivals (e ∷ es) = arrived e ++ arrivals es

  handle-store :
      (s : Persister T) (e : Event T)
      → store_messages (handle s e).rows (handle s e).buffer
        ≡ store_messages s.rows (s.buffer ++ arrived e)
  unfolding handle flush_batch
  handle-store s (ticks outcome) = write_batch-store s.buffer s.rows outcome []
  handle-store s (arrives m outcome) =
      elim (Bool-cases (leb batch_size (length (s.buffer ++ m ∷ [])))) [
        | inl e ↦
            rw (e, handle)
              (write_batch-store (s.buffer ++ m ∷ []) s.rows outcome []
                ∙ ap (store_messages s.rows) (append-nil (s.buffer ++ m ∷ [])))
        | inr e ↦ rw (e, handle) refl
      ]

  run-store :
      (s : Persister T) (es : List (Event T))
      → store_messages (run s es).rows (run s es).buffer
        ≡ store_messages s.rows (s.buffer ++ arrivals es)
  unfolding run
  run-store s [] = ap (store_messages s.rows) (sym (append-nil s.buffer))
  run-store s (e ∷ es) =
      run-store (handle s e) es
      ∙ store-append (handle s e).rows (handle s e).buffer (arrivals es)
      ∙ ap (λ (r : List (String × T)). store_messages r (arrivals es)) (handle-store s e)
      ∙ sym (store-append s.rows (s.buffer ++ arrived e) (arrivals es))
      ∙ ap (store_messages s.rows) (append_assoc s.buffer (arrived e) (arrivals es))

  -- After any messages and ticks, and any failures of their writes, of lost reports too, the next
  -- flush with a write that is reported as stored empties the buffer. The store then holds the rows
  -- that one faultless batch of the buffered and the arrived messages would have left: under every
  -- id the first message that was stored, buffered or arrived under it, and nothing under other ids.
  -- A later message of an id that is there is not kept.
  pub run-delivers :
      (s : Persister T) (es : List (Event T)) (outcome : ℕ → Write)
      → succeeds max_retries outcome ≡ true
      → ((finish (run s es) outcome).buffer ≡ [])
        × ((finish (run s es) outcome).rows ≡ store_messages s.rows (s.buffer ++ arrivals es))
        × ((id : String)
            → lookup id (finish (run s es) outcome).rows
              ≡ lookup id (s.rows ++ (s.buffer ++ arrivals es)))
  unfolding finish flush_batch store_messages
  run-delivers s es outcome h =
      let m = run s es in
      let empty = write_batch-empties m.buffer m.rows outcome [] h in
      let rows : (write_batch m.buffer m.rows outcome []).rows
          ≡ store_messages s.rows (s.buffer ++ arrivals es) =
        sym (ap (store_messages (write_batch m.buffer m.rows outcome []).rows) empty)
        ∙ write_batch-store m.buffer m.rows outcome []
        ∙ ap (store_messages m.rows) (append-nil m.buffer)
        ∙ run-store s es in
      (empty, rows, λ id. ap (lookup id) rows ∙ lookup-store id s.rows (s.buffer ++ arrivals es))
