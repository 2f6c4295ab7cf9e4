-- ===== src/Adapter/Waiting.antt =====
-- crates/easybot-core/src/adapter/manager.rs: the rounds in which the health monitor leaves a
-- platform alone.
use easy_bot.Base.{
  ℕ, zero, suc, ◌+◌, ◌≤◌, ◌<◌, ◌≡◌, refl, String, Bool, true, false, ◌||◌, List, [], ◌∷◌, ltb,
  lookup, contains_key, arith, Bool-cases, inl, inr,
}
use easy_bot.Error.{GatewayError}
use easy_bot.Adapter.Reconnect.{
  TextOps, ReconnectState, temporary, classify_error, compute_backoff, max_total_reconnect_attempts,
}
use easy_bot.Adapter.Manager.{PlatformAdapter, AdapterManager, error}
use easy_bot.Adapter.Monitor.{
  waits, sync_reconnect_info, after_reconnect, healthy_now, check_platform,
}

compute_backoff-bounds : (n : ℕ) → (10 ≤ compute_backoff (suc n)) × (compute_backoff (suc n) ≤ 300)
unfolding compute_backoff
compute_backoff-bounds zero = (omega arith, omega arith)
compute_backoff-bounds (suc zero) = (omega arith, omega arith)
compute_backoff-bounds (suc (suc zero)) = (omega arith, omega arith)
compute_backoff-bounds (suc (suc (suc zero))) = (omega arith, omega arith)
compute_backoff-bounds (suc (suc (suc (suc n)))) = (omega arith, omega arith)

module _ {C A K : Type 0} (ops : PlatformAdapter C A K) (text : TextOps) where
  -- One platform over several rounds: whether a connection ends in time, and when the round is.
  abbrev pub rounds :
      AdapterManager C A K
      → String
      → ReconnectState
      → List (Bool × ℕ)
      → AdapterManager C A K × ReconnectState
  rounds m platform s [] = (m, s)
  rounds m platform s (r ∷ rs) =
      let (m1, s1) = check_platform ops text m platform s r.0 r.1 in rounds m1 platform s1 rs

  -- Everything of the manager but what it reports of the retries.
  abbrev pub without_info : AdapterManager C A K → AdapterManager C A K
  without_info m = record m { reconnect_info = [] }

  check_platform-waits :
      (m : AdapterManager C A K) (platform : String) (s : ReconnectState) (in_time : Bool) (now : ℕ)
      → waits now s.backoff_until ≡ true
      → check_platform ops text m platform s in_time now
        ≡ (sync_reconnect_info ops text m platform s now, s)
  unfolding check_platform
  check_platform-waits m platform s in_time now h = rw h refl

  check_platform-permanent :
      (m : AdapterManager C A K) (platform : String) (s : ReconnectState) (in_time : Bool) (now : ℕ)
      → s.permanent_failure ≡ true
      → healthy_now ops text (lookup platform m.adapters) ≡ false
      → check_platform ops text m platform s in_time now
        ≡ (sync_reconnect_info ops text m platform s now, s)
  unfolding check_platform
  check_platform-permanent m platform s in_time now h k =
      elim (Bool-cases (waits now s.backoff_until || contains_key platform m.pending)) [
        | inl e ↦ rw e refl
        | inr e ↦ rw (e, h, k) refl
      ]

  -- After a permanent failure the monitor does nothing in any number of rounds, as long as no
  -- healthy adapter runs for the platform: it only reports the state, which stays as it is.
  pub permanent-rounds :
      (m : AdapterManager C A K) (platform : String) (s : ReconnectState) (rs : List (Bool × ℕ))
      → s.permanent_failure ≡ true
      → healthy_now ops text (lookup platform m.adapters) ≡ false
      → (without_info (rounds m platform s rs).0 ≡ without_info m)
        × ((rounds m platform s rs).1 ≡ s)
  permanent-rounds m platform s [] h k = (refl, refl)
  permanent-rounds m platform s (r ∷ rs) h k =
      rw (check_platform-permanent m platform s r.0 r.1 h k, rounds)
        (permanent-rounds (sync_reconnect_info ops text m platform s r.1) platform s rs h k)

  after_reconnect-waits :
      (s : ReconnectState) (e : GatewayError) (msg : String) (now now' : ℕ)
      → classify_error text e ≡ temporary msg
      → now' < now + 10
      → waits now' (after_reconnect ops text s (error e) now).backoff_until ≡ true
  unfolding after_reconnect
  after_reconnect-waits s e msg now now' h k =
      rw (h, waits)
        (elim (Bool-cases (ltb max_total_reconnect_attempts (suc s.total_failures))) [
          | inl late ↦ rw late (ground (arith, k))
          | inr early ↦ rw early (ground (arith, k, compute_backoff-bounds s.consecutive_failures))
        ])

  -- After a full reconnection fails transiently, every round of the next ten seconds, at the
  -- least, leaves the platform alone, whatever the number of failures was before.
  pub transient-check_platform :
      (m : AdapterManager C A K) (platform : String) (s : ReconnectState) (e : GatewayError)
      (msg : String) (in_time : Bool) (now now' : ℕ)
      → classify_error text e ≡ temporary msg
      → now' < now + 10
      → check_platform ops text m platform (after_reconnect ops text s (error e) now) in_time now'
        ≡ (
          sync_reconnect_info ops text m platform (after_reconnect ops text s (error e) now) now',
          after_reconnect ops text s (error e) now,
        )
  transient-check_platform m platform s e msg in_time now now' h k =
      check_platform-waits m platform (after_reconnect ops text s (error e) now) in_time now'
        (after_reconnect-waits s e msg now now' h k)
