-- ===== src/Adapter/Unexamined.antt =====
-- crates/easybot-core/src/adapter/manager.rs: a platform that a refused reconnection has left without
-- a configuration is not examined in any later round of the monitor.
use easy_bot.Base.{
  ℕ, suc, ◌≡◌, refl, ap, ◌∙◌, inl, inr, String, Bool, false, ◌&&◌, ◌||◌, Option, none, some, List,
  [], ◌∷◌, map, leb, ltb, lookup, insert, contains_key, contains_text, str_eq, arith, Bool-cases,
  Option-cases,
}
use easy_bot.Error.{GatewayError}
use easy_bot.Adapter.Reconnect.{
  TextOps, ReconnectState, temporary, classify_error, max_total_reconnect_attempts,
  max_transport_retries,
}
use easy_bot.Adapter.Manager.{
  PlatformAdapter, AdapterManager, Answer, done, error, adapter_reconnecting, publish, refused,
  start, stop, finish_connect,
}
use easy_bot.Adapter.Reconnection.{poll, await, reconnect_adapter}
use easy_bot.Adapter.Monitor.{
  waits, sync_reconnect_info, set_status_failed, show_reconnecting, report_failure, after_reconnect,
  full_reconnect, retry_tier, recover, needs_reconnect, healthy_now, examine, check_platform,
  check_all, or_fresh, run_health_check,
}
use easy_bot.Adapter.Cases.{Failure-cases, Answer-cases, Started-cases, guarded}
use easy_bot.Adapter.Lost.{check_all-other, contains_text-map, stopped_for, full_reconnect-refused}
use easy_bot.Adapter.Forgotten.{
  Named, IsForgotten, start-name, stop-IsForgotten, start-IsForgotten, finish_connect-IsForgotten,
}

module _ {C A K : Type 0} (ops : PlatformAdapter C A K) (text : TextOps) where
  -- The rounds of the monitor, with what ends in time in each, and its time.
  unfoldable pub health_rounds :
      AdapterManager C A K
      → List (String × ReconnectState)
      → List ((String → Bool) × ℕ)
      → AdapterManager C A K × List (String × ReconnectState)
  health_rounds m states [] = (m, states)
  health_rounds m states ((in_time, now) ∷ rs) =
      let (m1, states1) = run_health_check ops text m states in_time now in
      health_rounds m1 states1 rs

  module _ (p q : String) (named : Named ops text) (other : str_eq q p ≡ false) where
    abbrev Forgotten : AdapterManager C A K → Type 0
    Forgotten m = IsForgotten ops text p m

    await-IsForgotten :
        (m : AdapterManager C A K) (o : Option (Answer (Unit {0})))
        → Forgotten m
        → Forgotten (await ops text m q o).0
    unfolding await
    await-IsForgotten m (some (done u)) h = h
    await-IsForgotten m (some (error e)) h = h
    await-IsForgotten m none h = h

    reconnect_adapter-IsForgotten :
        (m : AdapterManager C A K) (config : C) (b : Bool)
        → Forgotten m
        → Forgotten (reconnect_adapter ops text m q config b).0
    unfolding reconnect_adapter
    reconnect_adapter-IsForgotten m config b h =
        let stopped_m = stop ops text (publish ops text m adapter_reconnecting q) q in
        let m1 = (start ops text stopped_m q config).0 in
        let h1 : Forgotten m1 =
          start-IsForgotten ops text p stopped_m q config named other
            (stop-IsForgotten ops text p (publish ops text m adapter_reconnecting q) q other h) in
        elim (Started-cases (start ops text stopped_m q config).1) [
          | inl (a, c, e) ↦
              let m2 = finish_connect ops text m1 (ops.platform_name a) a c in
              let own = start-name ops text stopped_m q config a c named e in
              elim (Bool-cases b) [
                | inl f ↦
                    rw (e, f, reconnect_adapter)
                      (await-IsForgotten m2 (poll ops text m2 q) (
                        finish_connect-IsForgotten ops text p m1 (ops.platform_name a) a c
                          (rw own other) h1))
                | inr f ↦ rw (e, f, reconnect_adapter) (await-IsForgotten m1 none h1)
              ]
          | inr (inl (o, e)) ↦ rw (e, reconnect_adapter) h1
          | inr (inr (x, e)) ↦ rw (e, reconnect_adapter) h1
        ]

    report_failure-IsForgotten :
        (m : AdapterManager C A K) (r : Answer (Unit {0}))
        → Forgotten m
        → Forgotten (report_failure ops text m q r)
    unfolding report_failure set_status_failed
    report_failure-IsForgotten m (done u) h = h
    report_failure-IsForgotten m (error e) h = elim (Failure-cases (classify_error text e)) [
      | inl (msg, f) ↦ rw (f, report_failure) h
      | inr (msg, f) ↦ rw (f, report_failure) h
    ]

    full_reconnect-IsForgotten :
        (m : AdapterManager C A K) (s : ReconnectState) (b : Bool) (now : ℕ)
        → Forgotten m
        → Forgotten (full_reconnect ops text m q s b now).0
    unfolding full_reconnect
    full_reconnect-IsForgotten m s b now h = elim (Option-cases (lookup q m.configs)) [
      | inl e ↦ rw (e, full_reconnect) h
      | inr (config, e) ↦
          let out = reconnect_adapter ops text (show_reconnecting ops text m q) q config b in
          rw (e, full_reconnect)
            (report_failure-IsForgotten out.0 out.1
              (reconnect_adapter-IsForgotten (show_reconnecting ops text m q) config b h))
    ]

    retry_tier-IsForgotten :
        (m : AdapterManager C A K) (s : ReconnectState) (a : A) (b : Bool) (now : ℕ)
        → Forgotten m
        → Forgotten (retry_tier ops text m q s a b now).0
    unfolding retry_tier set_status_failed
    retry_tier-IsForgotten m s a b now h = elim (Answer-cases (ops.retry_transport a).1) [
      | inl (r, e) ↦ elim (Bool-cases r) [
        | inl f ↦ rw (e, f, retry_tier) h
        | inr f ↦ rw (e, f, retry_tier) (full_reconnect-IsForgotten _ s b now h)
      ]
      | inr (x, e) ↦ elim (Failure-cases (classify_error text x)) [
        | inl (msg, f) ↦ rw (e, f, retry_tier) h
        | inr (msg, f) ↦ rw (e, f, retry_tier) h
      ]
    ]

    recover-IsForgotten :
        (m : AdapterManager C A K) (s : ReconnectState) (o : Option A) (b : Bool) (now : ℕ)
        → Forgotten m
        → Forgotten (recover ops text m q s o b now).0
    unfolding recover
    recover-IsForgotten m s none b now h = full_reconnect-IsForgotten m s b now h
    recover-IsForgotten m s (some a) b now h =
        elim (Bool-cases (ltb s.transport_retries max_transport_retries)) [
          | inl f ↦ rw (f, recover) (retry_tier-IsForgotten m s a b now h)
          | inr f ↦ rw (f, recover) (full_reconnect-IsForgotten m s b now h)
        ]

    examine-IsForgotten :
        (m : AdapterManager C A K) (s : ReconnectState) (b : Bool) (now : ℕ)
        → Forgotten m
        → Forgotten (examine ops text m q s b now).0
    unfolding examine
    examine-IsForgotten m s b now h =
        elim (Bool-cases
          (leb max_total_reconnect_attempts s.total_failures && waits now s.backoff_until)) [
            | inl e ↦ rw (e, examine) h
            | inr e ↦ elim (Bool-cases (needs_reconnect ops text (lookup q m.adapters))) [
              | inl f ↦ rw (e, f, examine) (recover-IsForgotten m s (lookup q m.adapters) b now h)
              | inr f ↦ rw (e, f, examine) h
            ]
          ]

    check_platform-IsForgotten :
        (m : AdapterManager C A K) (s : ReconnectState) (b : Bool) (now : ℕ)
        → Forgotten m
        → Forgotten (check_platform ops text m q s b now).0
    unfolding check_platform
    check_platform-IsForgotten m s b now h =
        let reported = sync_reconnect_info ops text m q s now in
        guarded (λ (r : AdapterManager C A K × ReconnectState). Forgotten r.0)
          (waits now s.backoff_until || contains_key q m.pending) s.permanent_failure
          (healthy_now ops text (lookup q m.adapters)) (reported, s)
          (examine ops text reported q (record s { permanent_failure = false }) b now)
          (examine ops text reported q s b now) h
          (examine-IsForgotten reported (record s { permanent_failure = false }) b now h)
          (examine-IsForgotten reported s b now h)

  module _ (p : String) (named : Named ops text) where
    check_all-IsForgotten :
        (m : AdapterManager C A K) (states : List (String × ReconnectState)) (qs : List String)
        (in_time : String → Bool) (now : ℕ)
        → contains_text p qs ≡ false
        → IsForgotten ops text p m
        → IsForgotten ops text p (check_all ops text m states qs in_time now).0
    unfolding check_all
    check_all-IsForgotten m states [] in_time now k h = h
    check_all-IsForgotten m states (q ∷ qs) in_time now k h =
        let s = or_fresh ops text (lookup q states) in
        let out = check_platform ops text m q s (in_time q) now in
        check_all-IsForgotten out.0 (insert q out.1 states) qs in_time now (ground (arith, k))
          (check_platform-IsForgotten p q named (ground (arith, k)) m s (in_time q) now h)

    health_rounds-IsForgotten :
        (m : AdapterManager C A K) (states : List (String × ReconnectState))
        (rs : List ((String → Bool) × ℕ))
        → IsForgotten ops text p m
        → IsForgotten ops text p (health_rounds m states rs).0
          × (lookup p (health_rounds m states rs).1 ≡ lookup p states)
    unfolding health_rounds run_health_check
    health_rounds-IsForgotten m states [] h = (h, refl)
    health_rounds-IsForgotten m states ((in_time, now) ∷ rs) h =
        let qs = map (λ (x : String × C). x.0) m.configs in
        let absent = contains_text-map ops text p m.configs h in
        let out = check_all ops text m states qs in_time now in
        let (still, same) =
          health_rounds-IsForgotten out.0 out.1 rs
            (check_all-IsForgotten m states qs in_time now absent h) in
        (still, same ∙ check_all-other ops text m states p qs in_time now absent)

  -- A reconnection whose `start` is refused with a transient error counts as a failure to be tried
  -- again, but the stop before it has removed the saved configuration: through any later rounds of
  -- the monitor, with no calls between them, the platform stays without a configuration and is not
  -- examined, so that its state stays as it is, however long the wait was. The registry is taken to
  -- make adapters that keep the name they were asked for.
  pub transient-refusal-lost :
      (m : AdapterManager C A K) (p : String) (s : ReconnectState) (config : C) (b : Bool) (now : ℕ)
      (e : GatewayError) (msg : String) (states : List (String × ReconnectState))
      (rs : List ((String → Bool) × ℕ))
      → Named ops text
      → lookup p m.configs ≡ some config
      → (start ops text (stopped_for ops text m p) p config).1 ≡ refused e
      → classify_error text e ≡ temporary msg
      → ((full_reconnect ops text m p s b now).1.permanent_failure ≡ s.permanent_failure)
        × ((full_reconnect ops text m p s b now).1.total_failures ≡ suc s.total_failures)
        × (lookup p (health_rounds (full_reconnect ops text m p s b now).0 states rs).0.configs
            ≡ none)
        × (lookup p (health_rounds (full_reconnect ops text m p s b now).0 states rs).1
            ≡ lookup p states)
  unfolding after_reconnect
  transient-refusal-lost m p s config b now e msg states rs named c h t =
      let (gone, state) = full_reconnect-refused ops text m p s config b now e msg c h t in
      let counted = rw (t, after_reconnect) at state in
      let (still, same) =
        health_rounds-IsForgotten p named (full_reconnect ops text m p s b now).0 states rs gone in
      (
        ap (λ (r : ReconnectState). r.permanent_failure) counted,
        ap (λ (r : ReconnectState). r.total_failures) counted,
        still,
        same,
      )
