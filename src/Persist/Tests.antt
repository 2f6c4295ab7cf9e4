-- ===== src/Persist/Tests.antt =====
-- Runs of the persister with failing writes, and of the bridge with a long message.
use easy_bot.Base.{
  ℕ, suc, ◌≡◌, refl, ◌↔◌, any, map, length, String, true, false, Option, none, some, List, [], ◌∷◌,
  ◌++◌, replicate, lookup, insert, contains_key,
}
use easy_bot.Session.Types.{SessionSource}
use easy_bot.Session.Manager.{SessionManager, get_or_create, summary, update_last_message}
use easy_bot.Persist.Persister.{
  Write, stored, failed, unreported, store_messages, Persister, Event, arrives, ticks, attempts,
  write_batch, flush_batch, handle, run, finish,
}
use easy_bot.Persist.Delivery.{run-delivers}
use easy_bot.Persist.Bridge.{InboundMessage, text, enriched, handle_inbound, handle_all}
use easy_bot.Persist.Interruption.{has_no_summary, handle_all_aborts_iff}

abbrev works : ℕ → Write
works n = stored

-- The first attempt is stored and its report lost; the others fail.
abbrev breaks : ℕ → Write
breaks (suc (suc (suc n))) = unreported
breaks _ = failed

abbrev empty : Persister ℕ
empty = record { buffer = []; rows = [] }

abbrev events : List (Event ℕ)
events = arrives ("a", 1) works ∷ ticks breaks ∷ arrives ("b", 2) works ∷ []

persister_runs : Unit {0}
unfolding store_messages contains_key attempts write_batch flush_batch handle run finish
persister_runs = tt

kept_in_memory : (run empty events).buffer ≡ ("a", 1) ∷ ("b", 2) ∷ []
unfolding persister_runs
kept_in_memory = refl

-- A message of another chat with the id of an earlier one.
abbrev again : List (Event ℕ)
again = arrives ("a", 1) works ∷ ticks breaks ∷ arrives ("b", 2) works ∷ arrives ("a", 3) works ∷ []

run-delivers_example :
    ((finish (run empty again) works).buffer ≡ [])
    × ((finish (run empty again) works).rows ≡ ("a", 1) ∷ ("b", 2) ∷ [])
    × ((id : String)
        → lookup id (finish (run empty again) works).rows
          ≡ lookup id (("a", 1) ∷ ("b", 2) ∷ ("a", 3) ∷ []))
unfolding persister_runs
run-delivers_example = run-delivers empty again works refl

-- 96 letters, and characters of two bytes.
abbrev long : List ℕ
long = replicate 96 b'a' ++ 195 ∷ 169 ∷ 195 ∷ 169 ∷ 195 ∷ 169 ∷ []

abbrev message : List ℕ → InboundMessage
message t = record {
  platform = b'q' ∷ [];
  chat_id = b'1' ∷ [];
  thread_id = none;
  chat_name = none;
  chat_type = "Dm";
  sender_id = "ann";
  sender_name = none;
  sender_is_bot = false;
  sender_username = none;
  sender_role = none;
  msg_type = text;
  body = some t;
  timestamp = 5;
}

abbrev as_text : List ℕ → String
as_text t = "q:1"

abbrev enrich : String → SessionSource → Option SessionSource
enrich platform source = none

abbrev no_sessions : SessionManager ℕ
no_sessions = record { sessions = []; store = none }

abbrev to_list {ℓ} : {A : Type ℓ} → Option A → List A
to_list none = []
to_list (some x) = x ∷ []

bridge_runs : Unit {0}
unfolding lookup insert get_or_create summary update_last_message enriched handle_inbound handle_all
bridge_runs = tt

abbrev news : List (InboundMessage × ℕ)
news = (message (b'h' ∷ b'i' ∷ []), 7) ∷ (message long, 8) ∷ (message (b'h' ∷ b'i' ∷ []), 9) ∷ []

handle_all_aborts_iff_example :
    (handle_all as_text enrich 0 true no_sessions news ≡ none)
    ↔ (any (λ (e : InboundMessage × ℕ). has_no_summary e.0) news ≡ true)
handle_all_aborts_iff_example = handle_all_aborts_iff as_text enrich 0 true no_sessions news

news_abort : handle_all as_text enrich 0 true no_sessions news ≡ none
unfolding bridge_runs
news_abort = refl

short_noted :
    map
      (λ (m : SessionManager ℕ). length m.sessions)
      (to_list
        (handle_all as_text enrich 0 true no_sessions ((message (b'h' ∷ b'i' ∷ []), 7) ∷ [])))
    ≡ 1 ∷ []
unfolding bridge_runs
short_noted = refl
