-- ===== src/Adapter/Monitor.antt =====
-- crates/easybot-core/src/adapter/manager.rs: one round of the health monitor (`run_health_check`).
-- Times are seconds, and the clock does not move within a round. `in_time` says whether a connection
-- ends within the time that a reconnection waits for it.
use easy_bot.Base.{
  ℕ, suc, ◌+◌, ◌-◌, String, Bool, true, false, ◌&&◌, ◌||◌, Option, none, some, List, [], ◌∷◌, map,
  if◌then◌else◌, ltb, leb, lookup, insert, remove, contains_key,
}
use easy_bot.Adapter.Reconnect.{
  TextOps, ReconnectState, fresh_state, temporary, permanent, classify_error, compute_backoff,
  max_total_reconnect_attempts, max_transport_retries, transport_retry_backoff,
}
use easy_bot.Adapter.Manager.{
  connected, reconnecting, failed, HealthStatus, healthy, down, Answer, done, error, adapter_error,
  adapter_reconnecting, adapter_reconnected, adapter_reconnect_failed, PlatformAdapter,
  AdapterManager, status_of, update_status, set_state, publish, save_cursor,
}
use easy_bot.Adapter.Reconnection.{reconnect_adapter}

abbrev pub is_down : HealthStatus → Bool
is_down down = true
is_down _ = false

abbrev pub is_healthy : HealthStatus → Bool
is_healthy healthy = true
is_healthy _ = false

abbrev pub time_left : ℕ → Option ℕ → Option ℕ
time_left now none = none
time_left now (some until) = some (until - now)

abbrev pub waits : ℕ → Option ℕ → Bool
waits now none = false
waits now (some until) = ltb now until

module _ {C A K : Type 0} (ops : PlatformAdapter C A K) (text : TextOps) where
  abbrev pub sync_reconnect_info :
      AdapterManager C A K → String → ReconnectState → ℕ → AdapterManager C A K
  sync_reconnect_info m platform s now = record m {
    reconnect_info =
        insert platform
          (record {
            permanent_failure = s.permanent_failure;
            retry_attempt = s.consecutive_failures;
            next_retry_in = time_left now s.backoff_until;
          })
          m.reconnect_info;
  }

  -- In place, or a new entry.
  unfoldable pub set_status_failed : AdapterManager C A K → String → String → AdapterManager C A K
  set_status_failed m platform msg = record m {
    statuses = elim (lookup platform m.statuses) [
      | some s ↦
          insert platform
            (record s {
              state = failed;
              connected = false;
              health = some down;
              last_error = some msg;
            })
            m.statuses
      | none ↦
          insert platform (record (status_of failed (some msg)) { health = some down }) m.statuses
    ];
    events = (adapter_error, platform) ∷ m.events;
  }

  -- The second tier: a full reconnection, and what its outcome does to the state of the monitor.
  unfoldable pub after_reconnect : ReconnectState → Answer (Unit {0}) → ℕ → ReconnectState
  after_reconnect s (done u) now = record s {
    consecutive_failures = 0;
    total_failures = 0;
    transport_retries = 0;
    backoff_until = none;
    permanent_failure = false;
  }
  after_reconnect s (error e) now = elim (classify_error text e) [
    | permanent msg ↦ record s { permanent_failure = true }
    | temporary msg ↦ record s {
      consecutive_failures = suc s.consecutive_failures;
      total_failures = suc s.total_failures;
      backoff_until = some (
          now
          + (if ltb max_total_reconnect_attempts (suc s.total_failures)
              then 1800
              else compute_backoff (suc s.consecutive_failures)));
    }
  ]

  unfoldable pub report_failure :
      AdapterManager C A K → String → Answer (Unit {0}) → AdapterManager C A K
  unfolding set_status_failed
  report_failure m platform (done u) = m
  report_failure m platform (error e) = elim (classify_error text e) [
    | permanent msg ↦ set_status_failed m platform msg
    | temporary msg ↦ m
  ]

  abbrev pub show_reconnecting : AdapterManager C A K → String → AdapterManager C A K
  show_reconnecting m platform = record m {
    statuses = update_status platform (set_state reconnecting false) m.statuses;
  }

  unfoldable pub full_reconnect :
      AdapterManager C A K
      → String
      → ReconnectState
      → Bool
      → ℕ
      → AdapterManager C A K × ReconnectState
  unfolding after_reconnect report_failure reconnect_adapter
  full_reconnect m platform s in_time now =
      let shown = show_reconnecting m platform in
      elim (lookup platform shown.configs) [
        | none ↦ (shown, s)
        | some config ↦
            let (m1, outcome) = reconnect_adapter ops text shown platform config in_time in
            let s1 = after_reconnect s outcome now in
            (sync_reconnect_info (report_failure m1 platform outcome) platform s1 now, s1)
      ]

  -- The first tier: only the transport is started again.
  unfoldable pub retry_tier :
      AdapterManager C A K
      → String
      → ReconnectState
      → A
      → Bool
      → ℕ
      → AdapterManager C A K × ReconnectState
  unfolding full_reconnect set_status_failed
  retry_tier m platform s adapter in_time now =
      let shown = publish ops text (show_reconnecting m platform) adapter_reconnecting platform in
      let adapter' = (ops.retry_transport adapter).0 in
      let kept : AdapterManager C A K = record shown {
        adapters = insert platform adapter' shown.adapters;
      } in
      let s1 : ReconnectState = record s {
        transport_retries = suc s.transport_retries;
        backoff_until = some (now + transport_retry_backoff);
      } in
      let s2 : ReconnectState = record s { permanent_failure = true } in
      elim (ops.retry_transport adapter).1 [
        | done r ↦
            if r
            then (let m1 : AdapterManager C A K = record kept {
              statuses = update_status platform (set_state connected true) kept.statuses;
            } in
                (
                  sync_reconnect_info (publish ops text m1 adapter_reconnected platform) platform s1
                      now,
                  s1,
                ))
            else full_reconnect kept platform s in_time now
        | error e ↦ elim (classify_error text e) [
          | permanent msg ↦
              let gone : AdapterManager C A K = record kept {
                adapters = remove platform kept.adapters;
                cursor_states =
                    save_cursor ops text platform (ops.cursor_state (ops.disconnect adapter'))
                      kept.cursor_states;
              } in
              (
                sync_reconnect_info
                    (publish ops text (set_status_failed gone platform msg) adapter_reconnect_failed
                      platform)
                    platform s2 now,
                s2,
              )
          | temporary msg ↦ (sync_reconnect_info kept platform s1 now, s1)
        ]
      ]

  unfoldable pub recover :
      AdapterManager C A K
      → String
      → ReconnectState
      → Option A
      → Bool
      → ℕ
      → AdapterManager C A K × ReconnectState
  unfolding retry_tier full_reconnect
  recover m platform s none in_time now = full_reconnect m platform s in_time now
  recover m platform s (some adapter) in_time now =
      if ltb s.transport_retries max_transport_retries
      then retry_tier m platform s adapter in_time now
      else full_reconnect m platform s in_time now

  unfoldable pub note_healthy : ReconnectState → ReconnectState
  note_healthy s =
      if s.was_healthy
      then record s {
        consecutive_failures = 0;
        transport_retries = 0;
        backoff_until = none;
        was_healthy = true;
      }
      else record s { was_healthy = true }

  abbrev pub needs_reconnect : Option A → Bool
  needs_reconnect none = true
  needs_reconnect (some adapter) = is_down (ops.health adapter)

  abbrev pub healthy_now : Option A → Bool
  healthy_now none = false
  healthy_now (some adapter) = is_healthy (ops.health adapter)

  -- The rest of the round, behind the guards.
  unfoldable pub examine :
      AdapterManager C A K
      → String
      → ReconnectState
      → Bool
      → ℕ
      → AdapterManager C A K × ReconnectState
  unfolding recover note_healthy
  examine m platform s in_time now =
      if leb max_total_reconnect_attempts s.total_failures && waits now s.backoff_until
      then (m, s)
      else (if needs_reconnect (lookup platform m.adapters)
          then recover m platform s (lookup platform m.adapters) in_time now
          else (let s1 = note_healthy s in (sync_reconnect_info m platform s1 now, s1)))

  -- One platform in one round of `run_health_check`.
  unfoldable pub check_platform :
      AdapterManager C A K
      → String
      → ReconnectState
      → Bool
      → ℕ
      → AdapterManager C A K × ReconnectState
  unfolding examine
  check_platform m0 platform s in_time now =
      let m = sync_reconnect_info m0 platform s now in
      if waits now s.backoff_until || contains_key platform m.pending
      then (m, s)
      else (if s.permanent_failure
          then (if healthy_now (lookup platform m.adapters)
              then examine m platform (record s { permanent_failure = false }) in_time now
              else (m, s))
          else examine m platform s in_time now)

  abbrev pub or_fresh : Option ReconnectState → ReconnectState
  or_fresh none = fresh_state
  or_fresh (some s) = s

  unfoldable pub check_all :
      AdapterManager C A K
      → List (String × ReconnectState)
      → List String
      → (String → Bool)
      → ℕ
      → AdapterManager C A K × List (String × ReconnectState)
  unfolding check_platform
  check_all m states [] in_time now = (m, states)
  check_all m states (platform ∷ platforms) in_time now =
      let (m1, s) =
        check_platform m platform (or_fresh (lookup platform states)) (in_time platform) now in
      check_all m1 (insert platform s states) platforms in_time now

  -- The platforms of a round are those with a saved configuration when it begins.
  unfoldable pub run_health_check :
      AdapterManager C A K
      → List (String × ReconnectState)
      → (String → Bool)
      → ℕ
      → AdapterManager C A K × List (String × ReconnectState)
  unfolding check_all
  run_health_check m states in_time now =
      check_all m states (map (λ (e : String × C). e.0) m.configs) in_time now
