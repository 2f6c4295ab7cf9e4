-- ===== src/Adapter/Lost.antt =====
-- crates/easybot-core/src/adapter/manager.rs: what is left of a platform whose reconnection does
-- not get past `init`.
use easy_bot.Base.{
  ℕ, ◌≡◌, refl, ap, ◌∙◌, inl, inr, String, Bool, true, false, none, some, List, [], ◌∷◌, map,
  lookup, insert, remove, contains_key, contains_text, lookup-insert, lookup-remove, str_eq, eq_iff,
  arith, Bool-cases, Option-cases, Sum-cases,
}
use easy_bot.Error.{GatewayError}
use easy_bot.Adapter.Reconnect.{TextOps, ReconnectState, temporary, classify_error}
use easy_bot.Adapter.Manager.{
  PlatformAdapter, AdapterManager, Answer, error, adapter_reconnecting, adapter_reconnect_failed,
  publish, Started, launched, refused, launch, start, stop, stop_running,
}
use easy_bot.Adapter.Reconnection.{reconnect_adapter}
use easy_bot.Adapter.Monitor.{
  sync_reconnect_info, show_reconnecting, report_failure, after_reconnect, full_reconnect,
  check_platform, check_all, or_fresh,
}
use easy_bot.Adapter.Cases.{Answer-cases}

module _ {C A K : Type 0} (ops : PlatformAdapter C A K) (text : TextOps) where
  pub stop-configs :
      (m : AdapterManager C A K) (p : String) → (stop ops text m p).configs ≡ remove p m.configs
  unfolding stop stop_running
  stop-configs m p = elim (Bool-cases (contains_key p m.pending)) [
    | inl e ↦ rw (e, stop) refl
    | inr e ↦ elim (Option-cases (lookup p m.adapters)) [
      | inl f ↦ rw (e, f, stop) refl
      | inr (a, f) ↦ rw (e, f, stop) refl
    ]
  ]

  -- A platform that is not in the list keeps its state.
  pub check_all-other :
      (m : AdapterManager C A K) (states : List (String × ReconnectState)) (p : String)
      (ps : List String) (in_time : String → Bool) (now : ℕ)
      → contains_text p ps ≡ false
      → lookup p (check_all ops text m states ps in_time now).1 ≡ lookup p states
  unfolding check_all
  check_all-other m states p [] in_time now h = refl
  check_all-other m states p (q ∷ qs) in_time now h =
      let out = check_platform ops text m q (or_fresh ops text (lookup q states)) (in_time q) now in
      let other : str_eq q p ≡ false = ground (arith, h) in
      let rest : contains_text p qs ≡ false = ground (arith, h) in
      check_all-other out.0 (insert q out.1 states) p qs in_time now rest
      ∙ lookup-insert q p out.1 states
      ∙ rw other refl

  pub contains_text-map :
      (p : String) (configs : List (String × C))
      → lookup p configs ≡ none
      → contains_text p (map (λ (e : String × C). e.0) configs) ≡ false
  unfolding lookup
  contains_text-map p [] h = refl
  contains_text-map p ((q, c) ∷ configs) h = elim (Bool-cases (str_eq q p)) [
    | inl e ↦ ground (arith, e, h)
    | inr e ↦ rw e (contains_text-map p configs (ground (arith, e, h)))
  ]

  abbrev is_launched : Started ops text → Bool
  is_launched (launched a c) = true
  is_launched _ = false

  launch-configs :
      (m : AdapterManager C A K) (a : A) (config : C)
      → is_launched (launch ops text m a config).1 ≡ false
      → (launch ops text m a config).0.configs ≡ m.configs
  unfolding launch
  launch-configs m a config h = ground arith

  -- A start that does not launch an adapter stores no configuration.
  start-configs :
      (m : AdapterManager C A K) (p : String) (config : C)
      → is_launched (start ops text m p config).1 ≡ false
      → (start ops text m p config).0.configs ≡ m.configs
  unfolding start
  start-configs m p config h = elim (Sum-cases (ops.create p (ops.inject_credentials p config))) [
    | inr (msg, e) ↦ rw (e, start) refl
    | inl (made, e) ↦ elim (Answer-cases (ops.init made (ops.inject_credentials p config)).1) [
      | inr (x, f) ↦ rw (e, f, start) refl
      | inl (r, f) ↦ elim (Bool-cases r.ok) [
        | inr g ↦ rw (e, f, g, start) refl
        | inl g ↦
            rw (e, f, g, start)
              (launch-configs m (ops.init made (ops.inject_credentials p config)).0
                (ops.inject_credentials p config) (rw (e, f, g, start) at h))
      ]
    ]
  ]

  -- The manager when a reconnection starts the adapter again.
  abbrev pub stopped_for : AdapterManager C A K → String → AdapterManager C A K
  stopped_for m p =
      stop ops text (publish ops text (show_reconnecting ops text m p) adapter_reconnecting p) p

  reconnect_refused :
      (m : AdapterManager C A K) (p : String) (config : C) (b : Bool) (e : GatewayError)
      → (start ops text (stopped_for m p) p config).1 ≡ refused e
      → reconnect_adapter ops text (show_reconnecting ops text m p) p config b ≡ (
        publish ops text (start ops text (stopped_for m p) p config).0 adapter_reconnect_failed p,
        error e,
      )
  unfolding reconnect_adapter
  reconnect_refused m p config b e h = rw (h, reconnect_adapter) refl

  refused-configs :
      (m : AdapterManager C A K) (p : String) (config : C) (e : GatewayError)
      → (start ops text (stopped_for m p) p config).1 ≡ refused e
      → lookup p (start ops text (stopped_for m p) p config).0.configs ≡ none
  refused-configs m p config e h =
      let same : lookup p (remove p m.configs) ≡ none =
        lookup-remove p p m.configs ∙ ground (arith, eq_iff p p) in
      let kept : (start ops text (stopped_for m p) p config).0.configs ≡ (stopped_for m p).configs =
        start-configs (stopped_for m p) p config (rw h refl) in
      rw
        (
          kept,
          stop-configs (publish ops text (show_reconnecting ops text m p) adapter_reconnecting p) p,
        )
        same

  full_reconnect-configured :
      (m : AdapterManager C A K) (p : String) (s : ReconnectState) (config : C) (b : Bool) (now : ℕ)
      (m1 : AdapterManager C A K) (outcome : Answer (Unit {0}))
      → lookup p m.configs ≡ some config
      → reconnect_adapter ops text (show_reconnecting ops text m p) p config b ≡ (m1, outcome)
      → full_reconnect ops text m p s b now ≡ (
        sync_reconnect_info ops text
            (report_failure ops text m1 p outcome)
            p
            (after_reconnect ops text s outcome now)
            now,
        after_reconnect ops text s outcome now,
      )
  unfolding full_reconnect
  full_reconnect-configured m p s config b now m1 outcome c h = rw (c, h, full_reconnect) refl

  report_failure-temporary :
      (m : AdapterManager C A K) (p : String) (e : GatewayError) (msg : String)
      → classify_error text e ≡ temporary msg
      → report_failure ops text m p (error e) ≡ m
  unfolding report_failure
  report_failure-temporary m p e msg t = rw (t, report_failure) refl

  pub full_reconnect-refused :
      (m : AdapterManager C A K) (p : String) (s : ReconnectState) (config : C) (b : Bool) (now : ℕ)
      (e : GatewayError) (msg : String)
      → lookup p m.configs ≡ some config
      → (start ops text (stopped_for m p) p config).1 ≡ refused e
      → classify_error text e ≡ temporary msg
      → (lookup p (full_reconnect ops text m p s b now).0.configs ≡ none)
        × ((full_reconnect ops text m p s b now).1 ≡ after_reconnect ops text s (error e) now)
  full_reconnect-refused m p s config b now e msg c h t =
      let out = (start ops text (stopped_for m p) p config).0 in
      let whole =
        full_reconnect-configured m p s config b now
          (publish ops text out adapter_reconnect_failed p) (error e) c
          (reconnect_refused m p config b e h) in
      let silent =
        report_failure-temporary (publish ops text out adapter_reconnect_failed p) p e msg t in
      (
        ap (λ (r : AdapterManager C A K × ReconnectState). lookup p r.0.configs) whole
            ∙ ap (λ (r : AdapterManager C A K). lookup p r.configs) silent
            ∙ refused-configs m p config e h,
        ap (λ (r : AdapterManager C A K × ReconnectState). r.1) whole,
      )
