-- ===== src/Adapter/Apart.antt =====
-- crates/easybot-core/src/adapter/manager.rs: over any calls and rounds of the monitor, no platform
-- runs while it connects, so that stopping a platform takes back everything that there is of it.
use easy_bot.Base.{
  ℕ, ◌≡◌, refl, inl, inr, String, Bool, true, false, ◌||◌, ◌&&◌, Option, none, some, ltb, leb,
  lookup, contains_key, contains_key-lookup, Bool-cases, Option-cases,
}
use easy_bot.Adapter.Reconnect.{
  TextOps, ReconnectState, classify_error, max_total_reconnect_attempts, max_transport_retries,
}
use easy_bot.Adapter.Manager.{
  PlatformAdapter, AdapterManager, Answer, done, error, adapter_reconnecting, publish, start, stop,
  finish_connect,
}
use easy_bot.Adapter.Reconnection.{await, poll, reconnect_adapter}
use easy_bot.Adapter.Monitor.{
  waits, sync_reconnect_info, show_reconnecting, healthy_now, needs_reconnect, report_failure,
  set_status_failed, full_reconnect, retry_tier, recover, examine, check_platform,
}
use easy_bot.Adapter.Cases.{Answer-cases, Failure-cases, Started-cases, guarded}
use easy_bot.Adapter.Exclusion.{
  Disjoint-replace, Disjoint-drop, IsApart, start-IsApart, stop-IsApart, finish_connect-IsApart,
}

module _ {C A K : Type 0} (ops : PlatformAdapter C A K) (text : TextOps) where
  abbrev Apart : AdapterManager C A K → Type 0
  Apart m = IsApart ops text m

  await-IsApart :
      (m : AdapterManager C A K) (p : String) (o : Option (Answer (Unit {0})))
      → Apart m
      → Apart (await ops text m p o).0
  unfolding await
  await-IsApart m p (some (done u)) h = h
  await-IsApart m p (some (error e)) h = h
  await-IsApart m p none h = h

  reconnect_adapter-IsApart :
      (m : AdapterManager C A K) (p : String) (config : C) (b : Bool)
      → Apart m
      → Apart (reconnect_adapter ops text m p config b).0
  unfolding reconnect_adapter
  reconnect_adapter-IsApart m p config b h =
      let stopped_m = stop ops text (publish ops text m adapter_reconnecting p) p in
      let m1 = (start ops text stopped_m p config).0 in
      let h1 : Apart m1 =
        start-IsApart ops text stopped_m p config
          (stop-IsApart ops text (publish ops text m adapter_reconnecting p) p h) in
      elim (Started-cases (start ops text stopped_m p config).1) [
        | inl (a, c, e) ↦
            let m2 = finish_connect ops text m1 (ops.platform_name a) a c in
            elim (Bool-cases b) [
              | inl f ↦
                  rw (e, f, reconnect_adapter)
                    (await-IsApart m2 p (poll ops text m2 p)
                      (finish_connect-IsApart ops text m1 (ops.platform_name a) a c h1))
              | inr f ↦ rw (e, f, reconnect_adapter) (await-IsApart m1 p none h1)
            ]
        | inr (inl (o, e)) ↦ rw (e, reconnect_adapter) h1
        | inr (inr (x, e)) ↦ rw (e, reconnect_adapter) h1
      ]

  report_failure-IsApart :
      (m : AdapterManager C A K) (p : String) (r : Answer (Unit {0}))
      → Apart m
      → Apart (report_failure ops text m p r)
  unfolding report_failure set_status_failed
  report_failure-IsApart m p (done u) h = h
  report_failure-IsApart m p (error e) h = elim (Failure-cases (classify_error text e)) [
    | inl (msg, f) ↦ rw (f, report_failure) h
    | inr (msg, f) ↦ rw (f, report_failure) h
  ]

  full_reconnect-IsApart :
      (m : AdapterManager C A K) (p : String) (s : ReconnectState) (b : Bool) (now : ℕ)
      → Apart m
      → Apart (full_reconnect ops text m p s b now).0
  unfolding full_reconnect
  full_reconnect-IsApart m p s b now h = elim (Option-cases (lookup p m.configs)) [
    | inl e ↦ rw (e, full_reconnect) h
    | inr (config, e) ↦
        let out = reconnect_adapter ops text (show_reconnecting ops text m p) p config b in
        rw (e, full_reconnect)
          (report_failure-IsApart out.0 p out.1
            (reconnect_adapter-IsApart (show_reconnecting ops text m p) p config b h))
  ]

  retry_tier-IsApart :
      (m : AdapterManager C A K) (p : String) (s : ReconnectState) (a : A) (b : Bool) (now : ℕ)
      → contains_key p m.adapters ≡ true
      → Apart m
      → Apart (retry_tier ops text m p s a b now).0
  unfolding retry_tier set_status_failed
  retry_tier-IsApart m p s a b now k h =
      let kept = Disjoint-replace m.pending m.adapters p (ops.retry_transport a).0 k h in
      elim (Answer-cases (ops.retry_transport a).1) [
        | inl (r, e) ↦ elim (Bool-cases r) [
          | inl f ↦ rw (e, f, retry_tier) kept
          | inr f ↦ rw (e, f, retry_tier) (full_reconnect-IsApart _ p s b now kept)
        ]
        | inr (x, e) ↦ elim (Failure-cases (classify_error text x)) [
          | inl (msg, f) ↦ rw (e, f, retry_tier) kept
          | inr (msg, f) ↦ rw (e, f, retry_tier) (Disjoint-drop m.pending _ p kept)
        ]
      ]

  recover-IsApart :
      (m : AdapterManager C A K) (p : String) (s : ReconnectState) (o : Option A) (b : Bool)
      (now : ℕ)
      → lookup p m.adapters ≡ o
      → Apart m
      → Apart (recover ops text m p s o b now).0
  unfolding recover
  recover-IsApart m p s none b now e h = full_reconnect-IsApart m p s b now h
  recover-IsApart m p s (some a) b now e h =
      elim (Bool-cases (ltb s.transport_retries max_transport_retries)) [
        | inl f ↦
            rw (f, recover)
              (retry_tier-IsApart m p s a b now (contains_key-lookup p a m.adapters e) h)
        | inr f ↦ rw (f, recover) (full_reconnect-IsApart m p s b now h)
      ]

  examine-IsApart :
      (m : AdapterManager C A K) (p : String) (s : ReconnectState) (b : Bool) (now : ℕ)
      → Apart m
      → Apart (examine ops text m p s b now).0
  unfolding examine
  examine-IsApart m p s b now h =
      elim (Bool-cases
        (leb max_total_reconnect_attempts s.total_failures && waits now s.backoff_until)) [
          | inl e ↦ rw (e, examine) h
          | inr e ↦ elim (Bool-cases (needs_reconnect ops text (lookup p m.adapters))) [
            | inl f ↦ rw (e, f, examine) (recover-IsApart m p s (lookup p m.adapters) b now refl h)
            | inr f ↦ rw (e, f, examine) h
          ]
        ]

  pub check_platform-IsApart :
      (m : AdapterManager C A K) (p : String) (s : ReconnectState) (b : Bool) (now : ℕ)
      → Apart m
      → Apart (check_platform ops text m p s b now).0
  unfolding check_platform
  check_platform-IsApart m p s b now h =
      let reported = sync_reconnect_info ops text m p s now in
      guarded (λ (r : AdapterManager C A K × ReconnectState). Apart r.0)
        (waits now s.backoff_until || contains_key p m.pending) s.permanent_failure
        (healthy_now ops text (lookup p m.adapters)) (reported, s)
        (examine ops text reported p (record s { permanent_failure = false }) b now)
        (examine ops text reported p s b now) h
        (examine-IsApart reported p (record s { permanent_failure = false }) b now h)
        (examine-IsApart reported p s b now h)
