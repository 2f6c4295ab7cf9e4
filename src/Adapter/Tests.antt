-- ===== src/Adapter/Tests.antt =====
-- Runs of the adapter manager on a concrete adapter. An instance is the number of its connections;
-- `init` fails for the configuration "offline".
use easy_bot.Base.{
  ℕ, zero, suc, ◌≡◌, refl, sym, String, Bool, true, false, not, ◌&&◌, ◌||◌, Option, none, some,
  List, [], ◌∷◌, ◌⊎◌, if◌then◌else◌, lookup, insert, remove, contains_key, str_eq, inl,
}
use easy_bot.Error.{auth_failed, transient, display}
use easy_bot.Adapter.Reconnect.{
  TextOps, ReconnectState, fresh_state, classify_error, classify_error_heuristic,
  is_transient_error, compute_backoff,
}
use easy_bot.Adapter.Manager.{
  connected, adapter_reconnecting, HealthStatus, healthy, down, done, error, PlatformAdapter,
  AdapterManager, new, status_of, launch, start, finish_connect, connected_ok, connected_failed,
  take_pending, enter_pending, land, stop, stop_running,
}
use easy_bot.Adapter.Reconnection.{reconnect_adapter}
use easy_bot.Adapter.Monitor.{
  sync_reconnect_info, after_reconnect, full_reconnect, check_platform, examine, recover,
  note_healthy, check_all, run_health_check,
}
use easy_bot.Adapter.Classification.{is_permanent, is_rejection, has_word, classify_error_iff}
use easy_bot.Adapter.Waiting.{rounds, without_info, permanent-rounds, transient-check_platform}
use easy_bot.Adapter.Health.{healthy-once-clears}
use easy_bot.Adapter.Forgotten.{Named}
use easy_bot.Adapter.Unexamined.{health_rounds, transient-refusal-lost}
use easy_bot.Adapter.Exclusion.{IsApart}
use easy_bot.Adapter.Race.{overlapped_stop-outlived}
use easy_bot.Adapter.Calls.{
  Call, starts, connects, stops, checks, shows, publishes, fails, syncs, step, run, run-IsApart,
  run-stop,
}

abbrev ascii : TextOps
ascii = record { show = λ n. "0"; to_lowercase = λ t. t; contains = λ t w. str_eq t w }

abbrev health_of : ℕ → HealthStatus
health_of zero = down
health_of (suc n) = healthy

abbrev one : PlatformAdapter String ℕ ℕ
one = record {
  create = λ p c. inl 0;
  inject_credentials = λ p c. c;
  platform_name = λ a. "qq";
  init = λ a c. (
    a,
    if str_eq c "offline"
        then error (transient "dns")
        else done (record { ok = true; error = none }),
  );
  connect = λ a. (suc a, done (record { ok = true; error = none; error_kind = none }));
  disconnect = λ a. a;
  health = health_of;
  status_summary = λ a. status_of connected none;
  retry_transport = λ a. (a, done false);
  cursor_state = λ a. some a;
  restore_cursor_state = λ a k. k;
}

abbrev running : AdapterManager String ℕ ℕ
running = finish_connect one ascii (start one ascii new "qq" "token").0 "qq" 0 "token"

abbrev offline : AdapterManager String ℕ ℕ
offline = record (new {C = String} {A = ℕ} {K = ℕ}) { configs = ("qq", "offline") ∷ [] }

abbrev given_up : ReconnectState
given_up = record fresh_state { permanent_failure = true }

abbrev seen : ReconnectState
seen = record fresh_state { was_healthy = true; consecutive_failures = 3 }

runs : Unit {0}
unfolding new launch start finish_connect land connected_ok connected_failed stop stop_running
    insert remove lookup contains_key classify_error classify_error_heuristic display
    is_transient_error after_reconnect compute_backoff check_platform examine recover note_healthy
    full_reconnect reconnect_adapter run_health_check check_all health_rounds step run
runs = tt

classify_error_iff_example : is_permanent (classify_error ascii (auth_failed "dns")) ≡ (
    is_rejection (auth_failed "dns")
    || (not (is_transient_error (auth_failed "dns")) && has_word ascii (auth_failed "dns")))
classify_error_iff_example = classify_error_iff ascii (auth_failed "dns")

started : contains_key "qq" running.adapters ≡ true
unfolding runs
started = refl

stopped_and_saved : lookup "qq" (stop one ascii running "qq").cursor_states ≡ some 1
unfolding runs
stopped_and_saved = refl

permanent-rounds_example :
    (without_info one ascii
        (rounds one ascii offline "qq" given_up ((true, 5) ∷ (false, 99) ∷ [])).0
      ≡ without_info one ascii offline)
    × ((rounds one ascii offline "qq" given_up ((true, 5) ∷ (false, 99) ∷ [])).1 ≡ given_up)
unfolding runs
permanent-rounds_example =
    permanent-rounds one ascii offline "qq" given_up ((true, 5) ∷ (false, 99) ∷ []) refl refl

transient-check_platform_example :
    check_platform one ascii offline "qq"
      (after_reconnect one ascii fresh_state (error (transient "dns")) 100)
      true
      109
    ≡ (
      sync_reconnect_info one ascii offline "qq"
          (after_reconnect one ascii fresh_state (error (transient "dns")) 100)
          109,
      after_reconnect one ascii fresh_state (error (transient "dns")) 100,
    )
unfolding runs
transient-check_platform_example =
    transient-check_platform one ascii offline "qq" fresh_state (transient "dns") "dns" true 100 109
      refl (omega easy_bot.Base.arith)

healthy-once-clears_example : (check_platform one ascii running "qq" seen true 9).1 ≡ record seen {
  consecutive_failures = 0;
  transport_retries = 0;
  backoff_until = none;
  was_healthy = true;
}
unfolding runs
healthy-once-clears_example =
    healthy-once-clears one ascii running running "qq" seen seen [] true 9 refl refl refl refl refl
      refl

abbrev late_rounds : List ((String → Bool) × ℕ)
late_rounds = (λ p. true, 200) ∷ (λ p. false, 9000) ∷ []

-- An adapter whose platform is its name.
abbrev named_one : PlatformAdapter String String ℕ
named_one = record {
  create = λ p c. inl p;
  inject_credentials = λ p c. c;
  platform_name = λ a. a;
  init = λ a c. (a, error (transient "dns"));
  connect = λ a. (a, done (record { ok = true; error = none; error_kind = none }));
  disconnect = λ a. a;
  health = λ a. down;
  status_summary = λ a. status_of connected none;
  retry_transport = λ a. (a, done false);
  cursor_state = λ a. none;
  restore_cursor_state = λ a k. a;
}

abbrev made : String → String ⊎ String
made a = inl a

inl-inj : {x y : String} → made x ≡ made y → x ≡ y
inl-inj h = cc h

named_one-Named : Named named_one ascii
named_one-Named = (λ q c a h. inl-inj (sym h), λ a k. refl)

abbrev two_saved : AdapterManager String String ℕ
two_saved = record (new {C = String} {A = String} {K = ℕ}) {
  configs = ("qq", "offline") ∷ ("tg", "token") ∷ [];
}

transient-refusal-lost_example :
    ((full_reconnect named_one ascii two_saved "qq" fresh_state true 100).1.permanent_failure
      ≡ false)
    × ((full_reconnect named_one ascii two_saved "qq" fresh_state true 100).1.total_failures ≡ 1)
    × (lookup "qq"
          (health_rounds named_one ascii
            (full_reconnect named_one ascii two_saved "qq" fresh_state true 100).0
            (("qq", fresh_state) ∷ [])
            late_rounds).0.configs
        ≡ none)
    × (lookup "qq"
          (health_rounds named_one ascii
            (full_reconnect named_one ascii two_saved "qq" fresh_state true 100).0
            (("qq", fresh_state) ∷ [])
            late_rounds).1
        ≡ lookup "qq" (("qq", fresh_state) ∷ []))
unfolding runs
transient-refusal-lost_example =
    transient-refusal-lost named_one ascii two_saved "qq" fresh_state "offline" true 100
      (transient "dns") "dns" (("qq", fresh_state) ∷ []) late_rounds named_one-Named refl refl refl

-- A round with its reconnection whole, and one whose reconnection another start interrupts.
abbrev calls : List (Call String ℕ)
calls =
    starts "qq" "token"
    ∷ connects "qq" 0 "token"
    ∷ checks "qq" seen true 9
    ∷ shows "qq"
    ∷ publishes adapter_reconnecting "qq"
    ∷ stops "qq"
    ∷ starts "qq" "other"
    ∷ starts "qq" "token"
    ∷ fails "qq" "already connecting"
    ∷ syncs "qq" given_up 9
    ∷ []

run-IsApart_example : IsApart one ascii (run one ascii new calls)
run-IsApart_example = run-IsApart one ascii calls

run-stop_example :
    (contains_key "qq" (stop one ascii (run one ascii new calls) "qq").pending ≡ false)
    × (contains_key "qq" (stop one ascii (run one ascii new calls) "qq").adapters ≡ false)
    × (lookup "qq" (stop one ascii (run one ascii new calls) "qq").configs ≡ none)
    × (finish_connect one ascii (stop one ascii (run one ascii new calls) "qq") "qq" 1 "token"
        ≡ stop one ascii (run one ascii new calls) "qq")
run-stop_example = run-stop one ascii calls "qq" 1 "token"

-- A platform that is connecting.
abbrev connecting_one : AdapterManager String ℕ ℕ
connecting_one = (start one ascii new "qq" "token").0

overlapped_stop-outlived_example :
    ((lookup "qq"
          (land one ascii
            (stop one ascii (take_pending one ascii connecting_one "qq") "qq")
            "qq"
            7
            "token").adapters
        ≡ some 8)
      × (lookup "qq"
            (land one ascii
              (stop one ascii (take_pending one ascii connecting_one "qq") "qq")
              "qq"
              7
              "token").configs
          ≡ some "token"))
    × ((lookup "qq"
            (stop one ascii
              (enter_pending one ascii
                (land one ascii (take_pending one ascii connecting_one "qq") "qq" 7 "token")
                "qq"
                "new")
              "qq").adapters
          ≡ some 8)
        × (lookup "qq"
              (stop one ascii
                (enter_pending one ascii
                  (land one ascii (take_pending one ascii connecting_one "qq") "qq" 7 "token")
                  "qq"
                  "new")
                "qq").configs
            ≡ none))
overlapped_stop-outlived_example =
    overlapped_stop-outlived one ascii connecting_one "qq" 7 "token" "new" refl
