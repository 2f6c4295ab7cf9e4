-- ===== src/Adapter/Health.antt =====
-- crates/easybot-core/src/adapter/manager.rs: what a round that finds a running adapter resets.
use easy_bot.Base.{
  ℕ, ◌≡◌, refl, sym, ap, ◌∙◌, String, Bool, true, false, ◌||◌, ◌&&◌, Option, none, some, List, [],
  ◌∷◌, leb, lookup, contains_key, arith, Bool-cases, inl, inr,
}
use easy_bot.Adapter.Reconnect.{
  TextOps, ReconnectState, classify_error, max_total_reconnect_attempts,
}
use easy_bot.Adapter.Manager.{PlatformAdapter, AdapterManager, Answer, done, error}
use easy_bot.Adapter.Monitor.{
  waits, sync_reconnect_info, after_reconnect, healthy_now, needs_reconnect, full_reconnect,
  retry_tier, recover, examine, check_platform, note_healthy,
}
use easy_bot.Adapter.Cases.{Failure-cases, Answer-cases, guarded}
use easy_bot.Adapter.Waiting.{rounds}

module _ {C A K : Type 0} (ops : PlatformAdapter C A K) (text : TextOps) where
  after_reconnect-was_healthy :
      (s : ReconnectState) (r : Answer (Unit {0})) (now : ℕ)
      → (after_reconnect ops text s r now).was_healthy ≡ s.was_healthy
  unfolding after_reconnect
  after_reconnect-was_healthy s (done u) now = refl
  after_reconnect-was_healthy s (error e) now =
      ground (arith, Failure-cases (classify_error text e))

  full_reconnect-was_healthy :
      (m : AdapterManager C A K) (p : String) (s : ReconnectState) (b : Bool) (now : ℕ)
      → (full_reconnect ops text m p s b now).1.was_healthy ≡ s.was_healthy
  unfolding full_reconnect
  full_reconnect-was_healthy m p s b now = ground (arith, after_reconnect-was_healthy s)

  retry_tier-was_healthy :
      (m : AdapterManager C A K) (p : String) (s : ReconnectState) (a : A) (b : Bool) (now : ℕ)
      → (retry_tier ops text m p s a b now).1.was_healthy ≡ s.was_healthy
  unfolding retry_tier
  retry_tier-was_healthy m p s a b now = elim (Answer-cases (ops.retry_transport a).1) [
    | inl (r, e) ↦ elim (Bool-cases r) [
      | inl y ↦ rw (e, y, retry_tier) refl
      | inr n ↦ rw (e, n, retry_tier) (full_reconnect-was_healthy _ p s b now)
    ]
    | inr (x, e) ↦ elim (Failure-cases (classify_error text x)) [
      | inl (msg, f) ↦ rw (e, f, retry_tier) refl
      | inr (msg, f) ↦ rw (e, f, retry_tier) refl
    ]
  ]

  recover-was_healthy :
      (m : AdapterManager C A K) (p : String) (s : ReconnectState) (o : Option A) (b : Bool)
      (now : ℕ)
      → (recover ops text m p s o b now).1.was_healthy ≡ s.was_healthy
  unfolding recover
  recover-was_healthy m p s none b now = full_reconnect-was_healthy m p s b now
  recover-was_healthy m p s (some a) b now =
      ground (arith, retry_tier-was_healthy m p s a b now, full_reconnect-was_healthy m p s b now)

  note_healthy-was_healthy : (s : ReconnectState) → (note_healthy ops text s).was_healthy ≡ true
  unfolding note_healthy
  note_healthy-was_healthy s = ground arith

  examine-was_healthy :
      (m : AdapterManager C A K) (p : String) (s : ReconnectState) (b : Bool) (now : ℕ)
      → s.was_healthy ≡ true
      → (examine ops text m p s b now).1.was_healthy ≡ true
  unfolding examine
  examine-was_healthy m p s b now h =
      elim (Bool-cases
        (leb max_total_reconnect_attempts s.total_failures && waits now s.backoff_until)) [
          | inl e ↦ rw e h
          | inr e ↦ elim (Bool-cases (needs_reconnect ops text (lookup p m.adapters))) [
            | inl f ↦ rw (e, f) (recover-was_healthy m p s (lookup p m.adapters) b now ∙ h)
            | inr f ↦ rw (e, f) (note_healthy-was_healthy s)
          ]
        ]

  check_platform-was_healthy :
      (m : AdapterManager C A K) (p : String) (s : ReconnectState) (b : Bool) (now : ℕ)
      → s.was_healthy ≡ true
      → (check_platform ops text m p s b now).1.was_healthy ≡ true
  unfolding check_platform
  check_platform-was_healthy m p s b now h =
      let reported = sync_reconnect_info ops text m p s now in
      guarded (λ (r : AdapterManager C A K × ReconnectState). r.1.was_healthy ≡ true)
        (waits now s.backoff_until || contains_key p m.pending) s.permanent_failure
        (healthy_now ops text (lookup p m.adapters)) (reported, s)
        (examine ops text reported p (record s { permanent_failure = false }) b now)
        (examine ops text reported p s b now) h
        (examine-was_healthy reported p (record s { permanent_failure = false }) b now h)
        (examine-was_healthy reported p s b now h)

  rounds-was_healthy :
      (m : AdapterManager C A K) (p : String) (s : ReconnectState) (rs : List (Bool × ℕ))
      → s.was_healthy ≡ true
      → (rounds ops text m p s rs).1.was_healthy ≡ true
  rounds-was_healthy m p s [] h = h
  rounds-was_healthy m p s (r ∷ rs) h =
      rounds-was_healthy (check_platform ops text m p s r.0 r.1).0 p
        (check_platform ops text m p s r.0 r.1).1 rs (check_platform-was_healthy m p s r.0 r.1 h)

  -- Once a platform was seen healthy, a later round that finds an adapter for it that is not down,
  -- with no wait, no pending connection and no permanent failure, clears its counters of failures
  -- and its wait, whatever the rounds in between found: it need not follow a healthy round.
  pub healthy-once-clears :
      (m m' : AdapterManager C A K) (platform : String) (s s' : ReconnectState)
      (rs : List (Bool × ℕ)) (in_time : Bool) (now : ℕ)
      → s.was_healthy ≡ true
      → (rounds ops text m platform s rs).1 ≡ s'
      → s'.permanent_failure ≡ false
      → waits now s'.backoff_until ≡ false
      → contains_key platform m'.pending ≡ false
      → needs_reconnect ops text (lookup platform m'.adapters) ≡ false
      → (check_platform ops text m' platform s' in_time now).1 ≡ record s' {
        consecutive_failures = 0;
        transport_retries = 0;
        backoff_until = none;
        was_healthy = true;
      }
  unfolding check_platform examine note_healthy
  healthy-once-clears m m' platform s s' rs in_time now w e p h k l =
      let w' : s'.was_healthy ≡ true =
        sym (ap (λ (t : ReconnectState). t.was_healthy) e) ∙ rounds-was_healthy m platform s rs w in
      ground (arith, w', p, h, k, l)
