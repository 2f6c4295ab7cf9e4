-- ===== src/Adapter/Calls.antt =====
-- crates/easybot-core/src/adapter/manager.rs: sequences of calls of the adapter manager. The end of
-- a background connection is a step of its own, with any adapter and configuration, since it may
-- come after any number of other calls. A round of the monitor for a platform is one step, or, where
-- other calls run while a reconnection sleeps and polls, the steps that it is made of: what is shown,
-- published and noted, the stop, the start and the end of the connection. A start, a stop and an end
-- of a connection are each one step; what happens when others run within them is in Adapter/Race.
use easy_bot.Base.{
  ℕ, ◌≡◌, refl, ◌∙◌, inl, inr, String, Bool, false, none, List, [], ◌∷◌, if◌then◌else◌, lookup,
  contains_key, contains_key-remove, contains_key-missing, lookup-remove, eq_iff, str_eq, arith,
  Bool-cases, Option-cases,
}
use easy_bot.Adapter.Reconnect.{TextOps, ReconnectState}
use easy_bot.Adapter.Manager.{
  PlatformAdapter, AdapterManager, EventType, publish, new, start, stop, stop_running,
  finish_connect,
}
use easy_bot.Adapter.Monitor.{
  sync_reconnect_info, set_status_failed, show_reconnecting, check_platform,
}
use easy_bot.Adapter.Exclusion.{IsApart, start-IsApart, stop-IsApart, finish_connect-IsApart}
use easy_bot.Adapter.Apart.{check_platform-IsApart}
use easy_bot.Adapter.Lost.{stop-configs}

pub data Call (C A : Type 0) : Type 0 where
  starts : String → C → Call C A
  connects : String → A → C → Call C A
  stops : String → Call C A
  checks : String → ReconnectState → Bool → ℕ → Call C A
  shows : String → Call C A
  publishes : EventType → String → Call C A
  fails : String → String → Call C A
  syncs : String → ReconnectState → ℕ → Call C A

module _ {C A K : Type 0} (ops : PlatformAdapter C A K) (text : TextOps) where
  unfoldable pub step : AdapterManager C A K → Call C A → AdapterManager C A K
  step m (starts p c) = (start ops text m p c).0
  step m (connects p a c) = finish_connect ops text m p a c
  step m (stops p) = stop ops text m p
  step m (checks p s b now) = (check_platform ops text m p s b now).0
  step m (shows p) = show_reconnecting ops text m p
  step m (publishes e p) = publish ops text m e p
  step m (fails p msg) = set_status_failed ops text m p msg
  step m (syncs p s now) = sync_reconnect_info ops text m p s now

  unfoldable pub run : AdapterManager C A K → List (Call C A) → AdapterManager C A K
  unfolding step
  run m [] = m
  run m (c ∷ cs) = run (step m c) cs

  step-IsApart :
      (m : AdapterManager C A K) (c : Call C A) → IsApart ops text m → IsApart ops text (step m c)
  unfolding step set_status_failed
  step-IsApart m (starts p c) h = start-IsApart ops text m p c h
  step-IsApart m (connects p a c) h = finish_connect-IsApart ops text m p a c h
  step-IsApart m (stops p) h = stop-IsApart ops text m p h
  step-IsApart m (checks p s b now) h = check_platform-IsApart ops text m p s b now h
  step-IsApart m (shows p) h = h
  step-IsApart m (publishes e p) h = h
  step-IsApart m (fails p msg) h = h
  step-IsApart m (syncs p s now) h = h

  run_all-IsApart :
      (m : AdapterManager C A K) (cs : List (Call C A))
      → IsApart ops text m
      → IsApart ops text (run m cs)
  unfolding run
  run_all-IsApart m [] h = h
  run_all-IsApart m (c ∷ cs) h = run_all-IsApart (step m c) cs (step-IsApart m c h)

  -- Over any starts, stops, ends of connections, rounds of the monitor and single steps of
  -- reconnections, in any order, from a new manager, no platform whose connection is pending has a
  -- running adapter, as long as no other of these steps runs within one of them.
  pub run-IsApart : (cs : List (Call C A)) → IsApart ops text (run new cs)
  unfolding new contains_key
  run-IsApart cs = run_all-IsApart new cs (λ p e. absurd (cc e))

  not_twice : (p : String) (b : Bool) → (if str_eq p p then false else b) ≡ false
  not_twice p b = ground (arith, eq_iff p p)

  stop-takes :
      (m : AdapterManager C A K) (p : String)
      → IsApart ops text m
      → (contains_key p (stop ops text m p).pending ≡ false)
        × (contains_key p (stop ops text m p).adapters ≡ false)
  unfolding stop stop_running
  stop-takes m p h = elim (Bool-cases (contains_key p m.pending)) [
    | inl e ↦ rw (e, stop) (contains_key-remove p p m.pending ∙ not_twice p _, h p e)
    | inr e ↦ elim (Option-cases (lookup p m.adapters)) [
      | inl f ↦ rw (e, f, stop) (e, contains_key-missing p m.adapters f)
      | inr (a, f) ↦ rw (e, f, stop) (e, contains_key-remove p p m.adapters ∙ not_twice p _)
    ]
  ]

  finish_connect-discarded :
      (m : AdapterManager C A K) (p : String) (a : A) (c : C)
      → contains_key p m.pending ≡ false
      → finish_connect ops text m p a c ≡ m
  unfolding finish_connect
  finish_connect-discarded m p a c h = rw (h, finish_connect) refl

  -- After any starts, stops, ends of connections, rounds of the monitor and single steps of
  -- reconnections, in any order, a stop leaves nothing of its platform: no pending connection, no
  -- running adapter and no configuration for the monitor, and a connection that ends then is
  -- discarded. This holds as long as no other of these steps runs within one of them.
  pub run-stop :
      (cs : List (Call C A)) (p : String) (a : A) (c : C)
      → (contains_key p (stop ops text (run new cs) p).pending ≡ false)
        × (contains_key p (stop ops text (run new cs) p).adapters ≡ false)
        × (lookup p (stop ops text (run new cs) p).configs ≡ none)
        × (finish_connect ops text (stop ops text (run new cs) p) p a c
            ≡ stop ops text (run new cs) p)
  run-stop cs p a c =
      let m : AdapterManager C A K = run new cs in
      let (pending, running) = stop-takes m p (run-IsApart cs) in
      (
        pending,
        running,
        rw (stop-configs ops text m p) (lookup-remove p p m.configs ∙ ground (arith, eq_iff p p)),
        finish_connect-discarded (stop ops text m p) p a c pending,
      )
