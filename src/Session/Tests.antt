-- ===== src/Session/Tests.antt =====
-- Concrete sessions, with a number as metadata, whose length is the number.
use easy_bot.Base.{
  ℕ, zero, suc, All, ◌≡◌, refl, String, true, false, none, some, List, [], ◌∷◌, ◌++◌, map, count,
  replicate, lookup, insert, remove, arith,
}
use easy_bot.Session.Types.{Session, SessionSource, SessionFilter, SessionMutation, daily}
use easy_bot.Session.Manager.{
  SessionManager, fresh_session, get_or_create, delete, delete_memory, delete_stored, update,
  summary, update_last_message, prune_expired,
}
use easy_bot.Session.Listing.{place, sorted, list}
use easy_bot.Session.Sorted.{IsSorted, list-IsSorted, list_page_empty}
use easy_bot.Session.Mirror.{Synced, update-rejected}
use easy_bot.Session.Race.{reopened_delete-lost}
use easy_bot.Session.Calls.{Call, opens, deletes, updates, step, run, calls-Synced}
use easy_bot.Session.Key.{safe, build_key, before_colon, after_colon, build_key-parts}
use easy_bot.Session.Summary.{IsThreeByte, utf8, wide_text_panics}

abbrev chat : String → SessionSource
chat id = record {
  platform = "qq";
  chat_id = id;
  chat_name = none;
  chat_type = "Dm";
  user_id = none;
  user_name = none;
  is_bot = false;
  user_username = none;
  user_role = none;
}

abbrev empty_manager : SessionManager ℕ
empty_manager = record { sessions = []; store = some [] }

runs : Unit {0}
unfolding insert remove lookup get_or_create delete update summary update_last_message prune_expired
    step run place sorted list
runs = tt

abbrev two : SessionManager ℕ
two =
    (get_or_create 0 true (get_or_create 0 true empty_manager "qq:1" (chat "1") 10).0 "qq:2"
      (chat "2") 20).0

abbrev first : Session ℕ
first = (get_or_create 0 true empty_manager "qq:1" (chat "1") 10).1

abbrev second_page : SessionFilter
second_page = record {
  platform = some "qq";
  active_within_minutes = none;
  limit = some 1;
  offset = some 1;
}

abbrev large : SessionMutation ℕ
large = record { reset_policy = some daily; metadata = some 5000; custom_name = none }

abbrev small : SessionMutation ℕ
small = record { reset_policy = some daily; metadata = some 5; custom_name = some (some "ops") }

listed_late_first : map (λ (s : Session ℕ). s.key) (list two none 30) ≡ "qq:2" ∷ "qq:1" ∷ []
unfolding runs
listed_late_first = refl

late_pruned : (prune_expired two 15).1 ≡ 1
unfolding runs
late_pruned = refl

list-IsSorted_example :
    IsSorted (list two (some second_page) 30)
    × IsSorted (list two none 30)
    × (count (λ (s : Session ℕ). true) (list two none 30) ≡ 2)
unfolding runs
list-IsSorted_example = list-IsSorted two second_page 30 (λ s. true)

list_page_empty_example : list two (some second_page) 30 ≡ []
unfolding runs
list_page_empty_example = list_page_empty two second_page 1 1 30 refl refl (omega arith)

Synced-empty : Synced ℕ empty_manager
unfolding runs
Synced-empty = ([], refl, λ k. refl, λ k s h. absurd (cc h))

two_keyed : Synced ℕ two
unfolding runs
two_keyed =
    calls-Synced 0 (λ n. n) empty_manager
      (opens "qq:1" (chat "1") 10 ∷ opens "qq:2" (chat "2") 20 ∷ []) (tt, (tt, tt)) Synced-empty

abbrev calls : List (Call ℕ)
calls = updates "qq:1" small 30 ∷ deletes "qq:2" ∷ opens "qq:1" (chat "1") 40 ∷ []

calls-Synced_example : Synced ℕ (run 0 (λ n. n) two calls)
unfolding runs
calls-Synced_example = calls-Synced 0 (λ n. n) two calls (refl, (tt, (tt, tt))) two_keyed

reopened_delete-lost_example :
    (lookup "qq:1"
        (delete_stored true
          (get_or_create 0 true (delete_memory two "qq:1") "qq:1" (chat "1") 50).0
          "qq:1").sessions
      ≡ some (fresh_session 0 "qq:1" (chat "1") 50))
    × ((rows : List (String × Session ℕ)) × ((delete_stored true
            (get_or_create 0 true (delete_memory two "qq:1") "qq:1" (chat "1") 50).0
            "qq:1").store
          ≡ some rows)
        × (lookup "qq:1" rows ≡ none))
unfolding runs
reopened_delete-lost_example = reopened_delete-lost 0 two "qq:1" (chat "1") 50 two.sessions refl

run_one_left :
    map (λ (e : String × Session ℕ). e.0) (run 0 (λ n. n) two calls).sessions ≡ "qq:1" ∷ []
unfolding runs
run_one_left = refl

update-rejected_example :
    ((update (λ n. n) true two "qq:1" large 40).1 ≡ none)
    × ((rows : List (String × Session ℕ)) × ((update (λ n. n) true two "qq:1" large 40).0.store
          ≡ some rows)
        × (lookup "qq:1" rows ≡ some first))
    × (lookup "qq:1" (update (λ n. n) true two "qq:1" large 40).0.sessions
        ≡ some (record first { updated_at = 40; reset_policy = daily }))
    × ¬ Synced ℕ (update (λ n. n) true two "qq:1" large 40).0
unfolding runs
update-rejected_example =
    update-rejected (λ n. n) true two "qq:1" first large 40 two_keyed refl (omega arith) refl

-- 40 times a Chinese character, U+4E2D.
abbrev wide : List (ℕ × ℕ × ℕ)
wide = replicate 40 (228, 184, 173)

All-wide : (n : ℕ) → All IsThreeByte (replicate n (228, 184, 173))
All-wide zero = tt
All-wide (suc n) = (
  ((omega arith, omega arith), (omega arith, omega arith), (omega arith, omega arith)),
  All-wide n,
)

wide_text_panics_example : summary (utf8 wide) ≡ none
wide_text_panics_example = wide_text_panics wide (omega arith) (All-wide 40)

-- 96 letters, a character of two bytes across the cut, and 5 letters.
abbrev across : List ℕ
across = replicate 96 b'a' ++ 195 ∷ 169 ∷ replicate 5 b'a'

panics_across : summary across ≡ none
unfolding runs
panics_across = refl

build_key-parts_example :
    (before_colon (build_key (b'q' ∷ b':' ∷ []) (b'1' ∷ []) (some (b'2' ∷ []))) ≡ b'q' ∷ b'_' ∷ [])
    × (before_colon (after_colon (build_key (b'q' ∷ b':' ∷ []) (b'1' ∷ []) (some (b'2' ∷ []))))
        ≡ b'1' ∷ [])
    × (after_colon (after_colon (build_key (b'q' ∷ b':' ∷ []) (b'1' ∷ []) (some (b'2' ∷ []))))
        ≡ b'2' ∷ [])
unfolding safe
build_key-parts_example = build_key-parts (b'q' ∷ b':' ∷ []) (b'1' ∷ []) (some (b'2' ∷ []))
