-- ===== src/Persist/Persister.antt =====
-- crates/easybot-core/src/session/message_persister.rs, and `store_messages` of
-- crates/easybot-core/src/storage/sqlite.rs. `T` is the content of a message. A write of a batch is a
-- transaction: it is stored as a whole or not at all, and may also be stored and reported as failed,
-- where the report of the commit is lost.
use easy_bot.Base.{
  ℕ, zero, suc, String, Bool, true, false, List, [], ◌∷◌, ◌++◌, if◌then◌else◌, leb, length,
  contains_key,
}

abbrev pub batch_size : ℕ
batch_size = 50

abbrev pub max_retries : ℕ
max_retries = 3

pub data Write : Type 0 where
  stored failed unreported : Write

abbrev pub reported : Write → Bool
reported stored = true
reported _ = false

pub record Persister (T : Type 0) : Type 0 where
  pub buffer : List (String × T)
  pub rows : List (String × T)

-- What wakes the task: an inbound message, or the timer.
pub data Event (T : Type 0) : Type 0 where
  arrives : String × T → (ℕ → Write) → Event T
  ticks : (ℕ → Write) → Event T

module _ {T : Type 0} where
  -- `INSERT OR IGNORE`: a message whose id is there already is left out.
  abbrev pub insert_or_ignore : List (String × T) → String × T → List (String × T)
  insert_or_ignore rows m = if contains_key m.0 rows then rows else rows ++ m ∷ []

  unfoldable pub store_messages : List (String × T) → List (String × T) → List (String × T)
  store_messages rows [] = rows
  store_messages rows (m ∷ ms) = store_messages (insert_or_ignore rows m) ms

  abbrev pub written : Write → List (String × T) → List (String × T) → List (String × T)
  written failed rows batch = rows
  written _ rows batch = store_messages rows batch

  -- The attempts that are left; the rows after them, and whether one succeeded.
  unfoldable pub attempts :
      ℕ → (ℕ → Write) → List (String × T) → List (String × T) → List (String × T) × Bool
  attempts zero outcome rows batch = (rows, false)
  attempts (suc n) outcome rows batch =
      let tried = written (outcome (suc n)) rows batch in
      let rest = attempts n outcome tried batch in
      if reported (outcome (suc n)) then (tried, true) else rest

  -- `queued` are the messages that come into the buffer while the batch is written.
  unfoldable pub write_batch :
      List (String × T) → List (String × T) → (ℕ → Write) → List (String × T) → Persister T
  unfolding attempts
  write_batch [] rows outcome queued = record { buffer = queued; rows = rows }
  write_batch (m ∷ ms) rows outcome queued =
      let (after, success) = attempts max_retries outcome rows (m ∷ ms) in
      record { buffer = if success then queued else (m ∷ ms) ++ queued; rows = after }

  unfoldable pub flush_batch : Persister T → (ℕ → Write) → List (String × T) → Persister T
  unfolding write_batch
  flush_batch s outcome queued = write_batch s.buffer s.rows outcome queued

  unfoldable pub handle : Persister T → Event T → Persister T
  unfolding flush_batch
  handle s (arrives m outcome) =
      let pushed : Persister T = record s { buffer = s.buffer ++ m ∷ [] } in
      if leb batch_size (length (s.buffer ++ m ∷ [])) then flush_batch pushed outcome [] else pushed
  handle s (ticks outcome) = flush_batch s outcome []

  unfoldable pub run : Persister T → List (Event T) → Persister T
  unfolding handle
  run s [] = s
  run s (e ∷ es) = run (handle s e) es

  -- The end of the events: a last flush.
  unfoldable pub finish : Persister T → (ℕ → Write) → Persister T
  unfolding flush_batch
  finish s outcome = flush_batch s outcome []
